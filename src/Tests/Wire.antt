-- ===== src/Tests/Wire.antt =====
-- Witnesses for client/src/message.rs.
use bear_torrent_final_proje.Base.{
  ◌≡◌, ◌≤◌, ◌↔◌, ℕ, refl, List, [], ◌∷◌, some, ok, arith, replicate,
}
use bear_torrent_final_proje.Message.{Message, piece, encode, decode}
use bear_torrent_final_proje.Message.RoundTrip.{decode-encode}
use bear_torrent_final_proje.Message.Totality.{decode-Returns_iff, Returns}

abbrev two_bytes : Message
two_bytes = piece 3 (7 ∷ 255 ∷ [])

decode-encode_example : decode (encode two_bytes) ≡ ok (some two_bytes)
decode-encode_example = decode-encode two_bytes (omega arith, (omega arith, (omega arith, tt)))

-- A cancel.
abbrev cancel_bytes : List ℕ
cancel_bytes = 0 ∷ 0 ∷ 0 ∷ 17 ∷ 8 ∷ replicate 16 1

decode-Returns_iff_example : Returns (decode cancel_bytes) ↔ (21 ≤ 21)
decode-Returns_iff_example = decode-Returns_iff cancel_bytes 8 refl
