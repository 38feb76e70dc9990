-- ===== src/FileHandler/Hashes.antt =====
-- `get_piece_hashes` and the pieces of the file.
use bear_torrent_final_proje.Base.{
  take_all, drop_all, ℕ, zero, suc, ◌+◌, ◌*◌, ◌<◌, ◌≤◌, ◌≡◌, refl, sym, ◌∙◌, ap, [], ◌∷◌, ◌++◌,
  some, arith, length, take, drop, replicate, get_elem?, length-take, length-drop, length-replicate,
}
use bear_torrent_final_proje.Proto.{Bytes}
use bear_torrent_final_proje.FileHandler.Pieces.{hash_piece_data, hash_loop, get_piece_hashes}
use bear_torrent_final_proje.FileHandler.Progress.{piece_of}

append_nil : (xs : Bytes) → xs ++ [] ≡ xs
append_nil [] = refl
append_nil (x ∷ xs) = ap (λ ys. x ∷ ys) (append_nil xs)

drop_nil : (n : ℕ) → drop {A = ℕ} n [] ≡ []
drop_nil zero = refl
drop_nil (suc n) = refl

drop-drop : (m n : ℕ) (xs : Bytes) → drop m (drop n xs) ≡ drop (n + m) xs
drop-drop m zero xs = ap (λ k. drop k xs) {x = m} {y = 0 + m} (omega arith)
drop-drop m (suc n) [] = drop_nil m ∙ sym (drop_nil (suc n + m))
drop-drop m (suc n) (x ∷ xs) =
    drop-drop m n xs ∙ ap (λ k. drop k (x ∷ xs)) {x = suc (n + m)} {y = suc n + m} (omega arith)

next_start : (pl i : ℕ) → pl + i * pl ≡ suc i * pl
next_start pl i = grind arith

module _ (sha1 : Bytes → Bytes) where
  -- A round that reads a full piece: nothing is left of what the buffer had.
  hash_loop-round :
      (fuel pl : ℕ) (buf rest : Bytes)
      → 0 < pl
      → length buf ≡ pl
      → pl ≤ length rest
      → hash_loop sha1 (suc fuel) pl buf rest
        ≡ sha1 (take pl rest) ∷ hash_loop sha1 fuel pl (take pl rest) (drop pl rest)
  unfolding hash_loop hash_piece_data
  hash_loop-round fuel pl buf rest p b l =
      let full : length (take pl rest) ≡ pl = omega (arith, length-take pl rest) in
      let fresh : take pl rest ++ drop (length (take pl rest)) buf ≡ take pl rest =
        ap (λ ys. take pl rest ++ ys)
          (drop_all (length (take pl rest)) buf (omega (arith, full, b)))
        ∙ append_nil (take pl rest) in
      ground (arith, full, fresh)

  hash_loop-full :
      (i fuel pl : ℕ) (buf rest : Bytes)
      → 0 < pl
      → length buf ≡ pl
      → length rest < fuel
      → i * pl + pl ≤ length rest
      → get_elem? (hash_loop sha1 fuel pl buf rest) i ≡ some (sha1 (take pl (drop (i * pl) rest)))
  hash_loop-full i zero pl buf rest p b f l = absurd (omega arith)
  hash_loop-full zero (suc fuel) pl buf rest p b f l =
      rw (hash_loop-round fuel pl buf rest p b (omega arith))
        (ap (λ k. some (sha1 (take pl (drop k rest)))) {x = 0} {y = 0 * pl} (omega arith))
  hash_loop-full (suc i) (suc fuel) pl buf rest p b f l =
      let place = next_start pl i in
      rw (hash_loop-round fuel pl buf rest p b (omega (arith, place))) (
        hash_loop-full i fuel pl (take pl rest) (drop pl rest) p
          (omega (arith, place, length-take pl rest)) (omega (arith, place, length-drop pl rest))
          (omega (arith, place, length-drop pl rest))
        ∙ ap (λ xs. some (sha1 (take pl xs)))
            (drop-drop (i * pl) pl rest
              ∙ ap (λ k. drop k rest) {x = pl + i * pl} {y = suc i * pl} place))

  -- With a piece length above 0, the hash on record for each piece of full length is the hash of
  -- that piece.
  pub get_piece_hashes-piece_of :
      (i pl : ℕ) (content : Bytes)
      → 0 < pl
      → i * pl + pl ≤ length content
      → get_elem? (get_piece_hashes sha1 pl content) i ≡ some (sha1 (piece_of pl content i))
  unfolding get_piece_hashes piece_of
  get_piece_hashes-piece_of i pl content p l =
      hash_loop-full i (length content + 1) pl (replicate pl 0) content p (length-replicate pl 0)
        (omega arith) l

  -- A last round that reads a short piece hashes what the buffer had behind it, too.
  hash_loop-short :
      (fuel pl : ℕ) (buf rest : Bytes)
      → 0 < length rest
      → length rest < pl
      → get_elem? (hash_loop sha1 (suc fuel) pl buf rest) 0
        ≡ some (sha1 (rest ++ drop (length rest) buf))
  unfolding hash_loop hash_piece_data
  hash_loop-short fuel pl buf rest p l = ground (arith, take_all pl rest (omega arith))

  hash_loop-last :
      (i fuel pl : ℕ) (buf rest : Bytes)
      → 0 < pl
      → length buf ≡ pl
      → length rest < fuel
      → suc i * pl < length rest
      → length rest < suc i * pl + pl
      → get_elem? (hash_loop sha1 fuel pl buf rest) (suc i)
        ≡ some (
            sha1 (
              drop (suc i * pl) rest
              ++ drop (length (drop (suc i * pl) rest)) (take pl (drop (i * pl) rest))))
  hash_loop-last i zero pl buf rest p b f l m = absurd (omega arith)
  hash_loop-last zero (suc zero) pl buf rest p b f l m = absurd (omega arith)
  hash_loop-last zero (suc (suc fuel)) pl buf rest p b f l m =
      let one : 1 * pl ≡ pl = omega arith in
      let none_yet : 0 * pl ≡ 0 = omega arith in
      rw (hash_loop-round (suc fuel) pl buf rest p b (omega arith), one, none_yet)
        (hash_loop-short fuel pl (take pl rest) (drop pl rest) (omega (arith, length-drop pl rest))
          (omega (arith, length-drop pl rest)))
  hash_loop-last (suc i) (suc fuel) pl buf rest p b f l m =
      let here = next_start pl i in
      let after = next_start pl (suc i) in
      let rest_here : drop (i * pl) (drop pl rest) ≡ drop (suc i * pl) rest =
        drop-drop (i * pl) pl rest
        ∙ ap (λ k. drop k rest) {x = pl + i * pl} {y = suc i * pl} here in
      let rest_after : drop (suc i * pl) (drop pl rest) ≡ drop (suc (suc i) * pl) rest =
        drop-drop (suc i * pl) pl rest
        ∙ ap (λ k. drop k rest) {x = pl + suc i * pl} {y = suc (suc i) * pl} after in
      rw (hash_loop-round fuel pl buf rest p b (omega (arith, after))) (
        rw (rest_here, rest_after) at
          (hash_loop-last i fuel pl (take pl rest) (drop pl rest) p
            (omega (arith, after, length-take pl rest)) (omega (arith, after, length-drop pl rest))
            (omega (arith, after, length-drop pl rest))
            (omega (arith, after, length-drop pl rest))))

  -- With a piece length above 0, the hash on record for a last piece that is shorter than the
  -- others, and not the only one, is that of the piece followed by the end of the piece before it.
  pub get_piece_hashes-last :
      (i pl : ℕ) (content : Bytes)
      → 0 < pl
      → suc i * pl < length content
      → length content < suc i * pl + pl
      → get_elem? (get_piece_hashes sha1 pl content) (suc i)
        ≡ some (
            sha1 (
              piece_of pl content (suc i)
              ++ drop (length (piece_of pl content (suc i))) (piece_of pl content i)))
  unfolding get_piece_hashes piece_of
  get_piece_hashes-last i pl content p l m =
      let short =
        take_all pl (drop (suc i * pl) content) (omega (arith, length-drop (suc i * pl) content)) in
      rw short (
        hash_loop-last i (length content + 1) pl (replicate pl 0) content p (length-replicate pl 0)
          (omega arith) l m)
