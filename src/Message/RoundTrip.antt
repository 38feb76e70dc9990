-- ===== src/Message/RoundTrip.antt =====
-- What `decode` makes of what `encode` wrote.
use bear_torrent_final_proje.Base.{
  ℕ, ◌+◌, ◌≡◌, refl, List, [], ◌∷◌, ◌++◌, some, arith, length, ok, length-append, ◌∙◌, ap, take,
  drop, leb, true, ◌&&◌, ◌-◌,
}
use mathlib.Core.List.{append-nil}
use bear_torrent_final_proje.Base.Words.{IsU32, to_be_bytes, from_be_bytes-to_be_bytes}
use bear_torrent_final_proje.Message.{
  Message, request, piece, cancel, encode, decode, decode_body, decode_request, decode_piece,
  decode_cancel, byte_at, u32_at, hash_at, slice, slice_from, IsMessage,
}

drop-append : (pre xs : List ℕ) → drop (length pre) (pre ++ xs) ≡ xs
drop-append [] xs = refl
drop-append (x ∷ pre) xs = drop-append pre xs

take-append : (xs ys : List ℕ) → take (length xs) (xs ++ ys) ≡ xs
take-append [] ys = refl
take-append (x ∷ xs) ys = ap (◌∷◌ x) (take-append xs ys)

-- A slice that lies between two parts of the buffer is the part between them.
slice-append :
    (pre mid rest : List ℕ) (to : ℕ)
    → to ≡ length pre + length mid
    → slice (pre ++ (mid ++ rest)) (length pre) to ≡ ok mid
unfolding slice
slice-append pre mid rest to e =
    rw (in_range, width, drop-append pre (mid ++ rest), take-append mid rest)
  where
    in_range : (leb (length pre) to && leb to (length (pre ++ (mid ++ rest)))) ≡ true
    in_range = ground (arith, length-append pre (mid ++ rest), length-append mid rest)

    width : to - length pre ≡ length mid
    width = omega arith

u32_at-append :
    (pre : List ℕ) (n : ℕ) (rest : List ℕ) (from : ℕ)
    → IsU32 n
    → from ≡ length pre
    → u32_at (pre ++ (to_be_bytes n ++ rest)) from ≡ ok n
unfolding u32_at
u32_at-append pre n rest from h e =
    rw (e, slice-append pre (to_be_bytes n) rest (length pre + 4) (unfold to_be_bytes in refl))
      (rw (from_be_bytes-to_be_bytes n h))

slice-append_end :
    (pre mid : List ℕ) (to : ℕ)
    → to ≡ length pre + length mid
    → slice (pre ++ mid) (length pre) to ≡ ok mid
slice-append_end pre mid to e = rw append-nil at (slice-append pre mid [] to e)

hash_at-append :
    (pre hash : List ℕ) (from : ℕ)
    → length hash ≡ 20
    → from ≡ length pre
    → hash_at (pre ++ hash) from ≡ ok hash
unfolding hash_at
hash_at-append pre hash from h e =
    rw (e, slice-append_end pre hash (length pre + 20) (omega arith)) (rw h)

slice_from-append :
    (pre rest : List ℕ) (from : ℕ) → from ≡ length pre → slice_from (pre ++ rest) from ≡ ok rest
unfolding slice_from
slice_from-append pre rest from e = rw (e, in_range, drop-append pre rest)
  where
    in_range : leb (length pre) (length (pre ++ rest)) ≡ true
    in_range = ground (arith, length-append pre rest)

-- The head of a message: its length word and its identifier.
abbrev head : ℕ → ℕ → List ℕ
head word message_id = to_be_bytes word ++ (message_id ∷ [])

decode-head :
    (word message_id : ℕ) (rest : List ℕ)
    → decode (head word message_id ++ rest) ≡ decode_body message_id (head word message_id ++ rest)
unfolding decode to_be_bytes byte_at
decode-head word message_id rest = ground arith

module _ (word message_id seeder index begin len : ℕ) (rest : List ℕ) where
  -- A buffer with four numbers behind the head, as `Request` and `Cancel` have it.
  abbrev four : List ℕ
  four =
      head word message_id
      ++ (to_be_bytes seeder
          ++ (to_be_bytes index ++ (to_be_bytes begin ++ (to_be_bytes len ++ rest))))

  four_fields :
      IsU32 seeder
      → IsU32 index
      → IsU32 begin
      → IsU32 len
      → (u32_at four 5 ≡ ok seeder)
        × (u32_at four 9 ≡ ok index)
        × (u32_at four 13 ≡ ok begin)
        × (u32_at four 17 ≡ ok len)
  unfolding to_be_bytes
  four_fields a b c d = (
    u32_at-append (head word message_id) seeder _ 5 a refl,
    u32_at-append (head word message_id ++ to_be_bytes seeder) index _ 9 b refl,
    u32_at-append (head word message_id ++ to_be_bytes seeder ++ to_be_bytes index) begin _ 13 c
        refl,
    u32_at-append
        (head word message_id ++ to_be_bytes seeder ++ to_be_bytes index ++ to_be_bytes begin) len
        rest 17 d refl,
  )

  hash_field : length rest ≡ 20 → hash_at four 21 ≡ ok rest
  unfolding to_be_bytes
  hash_field h =
      hash_at-append
        (head word message_id
          ++ to_be_bytes seeder
          ++ to_be_bytes index
          ++ to_be_bytes begin
          ++ to_be_bytes len)
        rest 21 h refl

-- Decoding what `encode` wrote gives the message back, for every message whose numbers are `u32`
-- values, whose bytes are below 256 and whose hash, if it has one, has twenty bytes.
pub decode-encode : (m : Message) → IsMessage m → decode (encode m) ≡ ok (some m)
unfolding encode decode_body decode_request decode_piece decode_cancel to_be_bytes
decode-encode (request seeder index begin len hash) (a, b, c, d, e, f) =
    let (p, q, r, s) = four_fields 37 6 seeder index begin len hash a b c d in
    decode-head 37 6 _ ∙ rw (p, q, r, s, hash_field 37 6 seeder index begin len hash e)
decode-encode (piece index block) (a, b) =
    decode-head _ 7 _
    ∙ rw (
      u32_at-append (head _ 7) index block 5 a refl,
      slice_from-append (head _ 7 ++ to_be_bytes index) block 9 refl,
    )
decode-encode (cancel seeder index begin len) (a, b, c, d) =
    let (p, q, r, s) = four_fields 17 8 seeder index begin len [] a b c d in
    decode-head 17 8 _ ∙ rw (p, q, r, s)
