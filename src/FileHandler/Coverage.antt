-- ===== src/FileHandler/Coverage.antt =====
-- `get_piece_hashes`: its loop reaches the end of the file, with one hash for each piece.
use bear_torrent_final_proje.Base.{
  ℕ, zero, suc, ◌+◌, ◌*◌, ◌<◌, ◌≤◌, ◌≡◌, Option, ◌==◌, Bool-cases, inl, inr, arith, length, take,
  drop, replicate, length-take, length-drop,
}
use bear_torrent_final_proje.Base.Words.{u32_mod}
use bear_torrent_final_proje.Proto.{Text, Bytes}
use bear_torrent_final_proje.FileHandler.Pieces.{hash_loop, get_piece_hashes, get_piece_length}
use bear_torrent_final_proje.FileHandler.Progress.{Cut}
use bear_torrent_final_proje.FileHandler.Download.{IsCut}
use bear_torrent_final_proje.FileHandler.Records.{record_of}

next_row : (i n : ℕ) → suc i * n ≡ n + i * n
next_row i n = grind arith

-- One more piece at the front.
Cut-front :
    (pl n : ℕ) (rest : Bytes)
    → 0 < pl
    → 0 < length rest
    → Cut pl n (drop pl rest)
    → Cut pl (suc n) rest
Cut-front pl n rest p l cut = record {
  piece_pos = p;
  enough = omega (arith, cut.enough, next_row n pl, length-drop pl rest);
  none_empty = below;
}
  where
    below : (i : ℕ) → i < suc n → i * pl < length rest
    below zero k = omega (arith, l)
    below (suc i) k =
        omega (arith, next_row i pl, length-drop pl rest, cut.none_empty i (omega (arith, k)))

module _ (sha1 : Bytes → Bytes) where
  hash_loop-Cut :
      (fuel pl : ℕ) (buf rest : Bytes)
      → 0 < pl
      → length rest < fuel
      → Cut pl (length (hash_loop sha1 fuel pl buf rest)) rest
  unfolding hash_loop
  hash_loop-Cut zero pl buf rest p f = absurd (omega arith)
  hash_loop-Cut (suc fuel) pl buf rest p f = elim (Bool-cases (length (take pl rest) == 0)) [
    | inl e ↦
        let none_left : length rest ≡ 0 = ground (arith, length-take pl rest) in
        rw e (record {
          piece_pos = p;
          enough = omega (arith, none_left);
          none_empty = λ i k. absurd (omega arith);
        })
    | inr e ↦
        let some_left : 0 < length rest = ground (arith, length-take pl rest) in
        rw e (
          Cut-front pl _ rest p some_left
            (hash_loop-Cut fuel pl _ (drop pl rest) p (omega (arith, length-drop pl rest))))
  ]

  -- With a piece length above 0 the loop ends at the end of the file: the hashes are as many as the
  -- pieces that cover the file, none of which is empty.
  pub get_piece_hashes-Cut :
      (pl : ℕ) (content : Bytes)
      → 0 < pl
      → Cut pl (length (get_piece_hashes sha1 pl content)) content
  unfolding get_piece_hashes
  get_piece_hashes-Cut pl content p =
      hash_loop-Cut (length content + 1) pl (replicate pl 0) content p (omega arith)

  -- The record that a client makes of a file of at most 2 ^ 32 bytes cuts that file into pieces, as a
  -- download of it takes for granted.
  pub record_of-IsCut :
      (hex_encode : Bytes → Text) (hex_decode : Text → Option Bytes) (name : Text) (content : Bytes)
      → length content ≤ u32_mod
      → IsCut (record_of sha1 hex_encode hex_decode name content) content
  unfolding get_piece_length
  record_of-IsCut hex_encode hex_decode name content l =
      (get_piece_hashes-Cut (get_piece_length (length content)) content (ground arith), l)
