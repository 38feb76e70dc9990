-- ===== src/Tests/Sample.antt =====
-- A file of three bytes in pieces of two, which the witnesses share.
use bear_torrent_final_proje.Base.{ℕ, zero, suc, [], ◌∷◌, arith, replicate}
use bear_torrent_final_proje.Base.Words.{IsByte, AreBytes}
use bear_torrent_final_proje.Proto.{Bytes, InfoHash}
use bear_torrent_final_proje.FileHandler.Download.{IsCut}

-- A hash of twenty bytes that tells the first byte.
abbrev pub first_byte : Bytes → Bytes
first_byte [] = replicate 20 0
first_byte (b ∷ bytes) = b ∷ replicate 19 0

abbrev pub three_bytes : Bytes
three_bytes = 10 ∷ 20 ∷ 30 ∷ []

abbrev pub small : InfoHash
small = record {
  name = 97 ∷ [];
  file_length = 3;
  piece_length = 2;
  pieces = first_byte (10 ∷ 20 ∷ []) ∷ first_byte (30 ∷ 20 ∷ []) ∷ [];
}

pub small-IsCut : IsCut small three_bytes
small-IsCut = (
  record { piece_pos = omega arith; enough = omega arith; none_empty = λ i l. omega arith },
  omega arith,
)

pub AreBytes-replicate : (n b : ℕ) → IsByte b → AreBytes (replicate n b)
AreBytes-replicate zero b h = tt
AreBytes-replicate (suc n) b h = (h, AreBytes-replicate n b h)

pub three_bytes-AreBytes : AreBytes three_bytes
three_bytes-AreBytes = (omega arith, (omega arith, (omega arith, tt)))
