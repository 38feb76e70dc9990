-- ===== src/FileHandler/Reading.antt =====
-- Reading the pieces of a finished file.
use native.Mathlib.Nat.{mod-eq_of_lt, mul_comm}
use native.Mathlib.Decide.{ℕ_discrete}
use bear_torrent_final_proje.Base.{
  ℕ, zero, suc, ◌+◌, ◌-◌, ◌*◌, ◌%◌, ◌^◌, ◌<◌, ◌≤◌, ◌≡◌, refl, sym, ◌∙◌, ap, true, some, ok, arith,
  length, take, drop, ltb, [], ◌∷◌,
}
use bear_torrent_final_proje.Base.Words.{wrapping_pred, u32_mod, u64_mod}
use bear_torrent_final_proje.Proto.{Bytes, InfoHash}
use bear_torrent_final_proje.FileHandler.Disk.{Disk, content_of, read_exact}
use bear_torrent_final_proje.FileHandler.Pieces.{offset_of}
use bear_torrent_final_proje.FileHandler.Store.{
  file_path, read_length, read_piece_from_file, get_file,
}
use bear_torrent_final_proje.FileHandler.Progress.{piece_of, length-piece_of}
use bear_torrent_final_proje.FileHandler.Download.{IsCut}
use bear_torrent_final_proje.FileHandler.Views.{read_file_lem, exists_some}

take-length-take : (k : ℕ) (xs : Bytes) → take (length (take k xs)) xs ≡ take k xs
take-length-take zero xs = refl
take-length-take (suc k) [] = refl
take-length-take (suc k) (x ∷ xs) = ap (λ ys. x ∷ ys) (take-length-take k xs)

below_last : (pl i m c : ℕ) → i < m → m * pl < c → i * pl + pl ≤ c
below_last pl i m c l h = grind arith

rest_of_last :
    (f pl m : ℕ)
    → m * pl < f
    → f < u64_mod
    → (f + u64_mod - pl * m % u64_mod) % u64_mod ≡ f - m * pl
rest_of_last f pl m h k =
    let swap : pl * m ≡ m * pl = mul_comm pl m in
    rw (swap, mod-eq_of_lt {n = m * pl} {m = u64_mod} (omega arith)) (omega arith)

mul_suc_le : (pl i c : ℕ) → c ≤ (i + 1) * pl → c - i * pl ≤ pl
mul_suc_le pl i c h = grind arith

offset_of-start : (i pl : ℕ) → i * pl < u32_mod → offset_of i pl ≡ i * pl
unfolding offset_of
offset_of-start i pl l = mod-eq_of_lt l

module _ (h : InfoHash) (content : Bytes) where
  -- The length that the code computes for a piece is the length of that piece.
  length-piece_of-read_length :
      (i : ℕ)
      → IsCut h content
      → length h.pieces < u64_mod
      → h.file_length ≡ length content
      → i < length h.pieces
      → length (piece_of h.piece_length content i) ≡ read_length h i
  unfolding read_length
  length-piece_of-read_length i cut few size l =
      let m = (length h.pieces + u64_mod - 1) % u64_mod in
      let last : m + 1 ≡ length h.pieces = wrapping_pred (length h.pieces) (omega arith) few in
      let len = length-piece_of h.piece_length (length h.pieces) content cut.0 i in
      let starts : m * h.piece_length < length content = cut.0.none_empty m (omega arith) in
      elim (ℕ_discrete m i) [
        | yes e ↦
            len
            ∙ ground (
              arith,
              mul_suc_le h.piece_length i (length content),
              rw e at starts,
              rw (sym last) at cut.0.enough,
              rest_of_last h.file_length h.piece_length m (rw size starts) (omega (arith, cut.1)),
            )
        | no ne ↦ len ∙ ground (arith, below_last h.piece_length i m (length content))
      ]

  read_exact-piece_of :
      (i : ℕ)
      → i * h.piece_length + length (piece_of h.piece_length content i) ≤ length content
      → read_exact (i * h.piece_length) (length (piece_of h.piece_length content i)) content
        ≡ ok (piece_of h.piece_length content i)
  unfolding read_exact piece_of
  read_exact-piece_of i l =
      ground (arith, take-length-take h.piece_length (drop (i * h.piece_length) content))

  -- A finished file of at most 4 GiB that is cut into fewer than 2 ^ 64 pieces, and whose length
  -- is the one on record, is read piece by piece: the read of a piece succeeds, leaves the disk as
  -- it is, and gives exactly the bytes of the piece.
  pub read_piece_from_file-piece_of :
      (i : ℕ) (d : Disk)
      → IsCut h content
      → length h.pieces < u64_mod
      → h.file_length ≡ length content
      → i < length h.pieces
      → content_of d (file_path h.name) ≡ some content
      → read_piece_from_file h i d ≡ (ok (piece_of h.piece_length content i), d)
  unfolding read_piece_from_file get_file
  read_piece_from_file-piece_of i d cut few size l found =
      let same = length-piece_of-read_length i cut few size l in
      let len = length-piece_of h.piece_length (length h.pieces) content cut.0 i in
      let starts = cut.0.none_empty i l in
      let small : ltb (read_length h i) (2 ^ 63) ≡ true = ground (arith, same, len, cut.1) in
      let place : offset_of i h.piece_length ≡ i * h.piece_length =
        offset_of-start i h.piece_length (omega (arith, cut.1)) in
      let whole : read_exact (i * h.piece_length) (read_length h i) content
          ≡ ok (piece_of h.piece_length content i) =
        rw same at (read_exact-piece_of i (omega (arith, len))) in
      ground (
        arith,
        exists_some (file_path h.name) content d found,
        read_file_lem (file_path h.name) content d found,
        small,
        place,
        whole,
      )
