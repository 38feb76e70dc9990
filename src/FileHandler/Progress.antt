-- ===== src/FileHandler/Progress.antt =====
-- The `.part` file and the status of a download, as pieces arrive in any order.
use native.Mathlib.Nat.{div-add-mod', mod-lt, div-lt_iff_lt-mul}
use native.Mathlib.Decide.{dec_lt}
use bear_torrent_final_proje.Base.{
  ℕ, zero, suc, ◌+◌, ◌-◌, ◌*◌, ◌/◌, ◌%◌, ◌≤◌, ◌<◌, min, ◌≡◌, refl, sym, ◌∙◌, ◌≢◌, ap, some, List,
  [], ◌∷◌, arith, length, get_elem?, set, take, drop, true, length-take, length-drop, length-set,
  get_elem?-none, get_elem?-some, lt_of_get_elem?, get_elem?-take, get_elem?-drop, get_elem?-set_ne,
  list_ext,
}
use bear_torrent_final_proje.Proto.{Bytes}
use bear_torrent_final_proje.FileHandler.Disk.{write_at}
use bear_torrent_final_proje.FileHandler.Pieces.{has_all_pieces, all_one}

-- Where a write leaves which byte.
write_at_before :
    (o : ℕ) (bs c : Bytes) (i : ℕ)
    → i < o
    → i < length c
    → get_elem? (write_at o bs c) i ≡ get_elem? c i
unfolding write_at
write_at_before o [] c i h k = refl
write_at_before zero (b ∷ bs) c i h k = elim h [ ]
write_at_before (suc o) (b ∷ bs) [] i h k = elim k [ ]
write_at_before (suc o) (b ∷ bs) (x ∷ c) zero h k = refl
write_at_before (suc o) (b ∷ bs) (x ∷ c) (suc i) h k =
    write_at_before o (b ∷ bs) c i (omega arith) (omega arith)

write_at_inside :
    (o : ℕ) (bs c : Bytes) (k : ℕ)
    → k < length bs
    → get_elem? (write_at o bs c) (o + k) ≡ get_elem? bs k
unfolding write_at
write_at_inside o [] c k h = elim h [ ]
write_at_inside zero (b ∷ bs) [] k h = ap (get_elem? (b ∷ bs)) (omega arith)
write_at_inside zero (b ∷ bs) (x ∷ c) zero h = refl
write_at_inside zero (b ∷ bs) (x ∷ c) (suc k) h =
    ap (get_elem? (b ∷ write_at zero bs c)) (zero_add_suc k)
    ∙ ap (get_elem? (write_at zero bs c)) (zero_add k)
    ∙ write_at_inside zero bs c k (omega arith)
  where
    zero_add_suc : (m : ℕ) → zero + suc m ≡ suc m
    zero_add_suc m = omega arith

    zero_add : (m : ℕ) → m ≡ zero + m
    zero_add m = omega arith
write_at_inside (suc o) (b ∷ bs) [] k h =
    ap (get_elem? (0 ∷ write_at o (b ∷ bs) [])) (suc_add o k) ∙ write_at_inside o (b ∷ bs) [] k h
  where
    suc_add : (m n : ℕ) → suc m + n ≡ suc (m + n)
    suc_add m n = omega arith
write_at_inside (suc o) (b ∷ bs) (x ∷ c) k h =
    ap (get_elem? (x ∷ write_at o (b ∷ bs) c)) (suc_add o k) ∙ write_at_inside o (b ∷ bs) c k h
  where
    suc_add : (m n : ℕ) → suc m + n ≡ suc (m + n)
    suc_add m n = omega arith

write_at_behind :
    (o : ℕ) (bs c : Bytes) (i : ℕ)
    → o + length bs ≤ i
    → get_elem? (write_at o bs c) i ≡ get_elem? c i
unfolding write_at
write_at_behind o [] c i h = refl
write_at_behind zero (b ∷ bs) [] i h = get_elem?-none (b ∷ bs) i (omega arith)
write_at_behind zero (b ∷ bs) (x ∷ c) zero h = absurd (omega arith)
write_at_behind zero (b ∷ bs) (x ∷ c) (suc i) h = write_at_behind zero bs c i (omega arith)
write_at_behind (suc o) (b ∷ bs) [] zero h = absurd (omega arith)
write_at_behind (suc o) (b ∷ bs) [] (suc i) h = write_at_behind o (b ∷ bs) [] i (omega arith)
write_at_behind (suc o) (b ∷ bs) (x ∷ c) zero h = absurd (omega arith)
write_at_behind (suc o) (b ∷ bs) (x ∷ c) (suc i) h = write_at_behind o (b ∷ bs) c i (omega arith)

length-write_at_le :
    (o : ℕ) (bs c : Bytes) (n : ℕ) → length c ≤ n → o + length bs ≤ n → length (write_at o bs c) ≤ n
unfolding write_at
length-write_at_le o [] c n h k = h
length-write_at_le zero (b ∷ bs) [] n h k = omega arith
length-write_at_le zero (b ∷ bs) (x ∷ c) zero h k = absurd (omega arith)
length-write_at_le zero (b ∷ bs) (x ∷ c) (suc n) h k =
    omega (arith, length-write_at_le zero bs c n (omega arith) (omega arith))
length-write_at_le (suc o) (b ∷ bs) c zero h k = absurd (omega arith)
length-write_at_le (suc o) (b ∷ bs) [] (suc n) h k =
    omega (arith, length-write_at_le o (b ∷ bs) [] n (omega arith) (omega arith))
length-write_at_le (suc o) (b ∷ bs) (x ∷ c) (suc n) h k =
    omega (arith, length-write_at_le o (b ∷ bs) c n (omega arith) (omega arith))

-- One byte written in range is a `set`.
pub write_at-set : (i b : ℕ) (s : List ℕ) → i < length s → write_at i (b ∷ []) s ≡ set s i b
unfolding write_at
write_at-set i b [] h = elim h [ ]
write_at-set zero b (x ∷ s) h = refl
write_at-set (suc i) b (x ∷ s) h = ap (◌∷◌ x) (write_at-set i b s (omega arith))

-- The bytes of piece `i` of a file.
unfoldable pub piece_of : ℕ → Bytes → ℕ → Bytes
piece_of pl content i = take pl (drop (i * pl) content)

-- Pieces of `pl` bytes cut the file into `n` pieces, none of them empty.
pub record Cut (pl n : ℕ) (content : Bytes) : Type 0 where
  pub piece_pos : 0 < pl
  pub enough : length content ≤ n * pl
  pub none_empty : (i : ℕ) → i < n → i * pl < length content

-- Every byte of a piece that the status counts as there is the file's byte.
pub record Progress (pl n : ℕ) (content part : Bytes) (status : List ℕ) : Type 0 where
  pub size : length part ≤ length content
  pub status_size : length status ≡ n
  pub good :
      (i k : ℕ)
      → k < pl
      → i * pl + k < length content
      → get_elem? status i ≡ some 1
      → get_elem? part (i * pl + k) ≡ get_elem? content (i * pl + k)

module _ (pl n : ℕ) (content : Bytes) (cut : Cut pl n content) where
  pub length-piece_of : (i : ℕ) → length (piece_of pl content i) ≡ min pl (length content - i * pl)
  unfolding piece_of
  length-piece_of i =
      omega (arith, length-take pl (drop (i * pl) content), length-drop (i * pl) content)

  get_elem?-piece_of :
      (i k : ℕ) → k < pl → get_elem? (piece_of pl content i) k ≡ get_elem? content (i * pl + k)
  unfolding piece_of
  get_elem?-piece_of i k h =
      get_elem?-take pl (drop (i * pl) content) k h ∙ get_elem?-drop (i * pl) content k

  row_below : (i m k : ℕ) → i < m → k < pl → i * pl + k < m * pl
  row_below i m k h l = grind arith

  row_above : (i m k : ℕ) → m < i → m * pl + pl ≤ i * pl + k
  row_above i m k h = grind arith

  good_row :
      (part : Bytes) (m i k : ℕ)
      → length part ≤ length content
      → k < pl
      → i * pl + k < length content
      → (i ≢ m → get_elem? part (i * pl + k) ≡ get_elem? content (i * pl + k))
      → get_elem? (write_at (m * pl) (piece_of pl content m) part) (i * pl + k)
        ≡ get_elem? content (i * pl + k)
  good_row part m i k size h l old = elim (dec_lt i m) [
    | yes lt ↦
        let keep = old (λ e. absurd (omega arith)) in
        let (a, e) = get_elem?-some content (i * pl + k) l in
        write_at_before (m * pl) (piece_of pl content m) part (i * pl + k) (row_below i m k lt h)
          (lt_of_get_elem? part (i * pl + k) a (keep ∙ e))
        ∙ keep
    | no ge ↦ elim (dec_lt m i) [
      | yes gt ↦
          write_at_behind (m * pl) (piece_of pl content m) part (i * pl + k)
            (omega (arith, row_above i m k gt, length-piece_of m))
          ∙ old (λ e. absurd (omega arith))
      | no le ↦ rw (same ge le) (
          write_at_inside (m * pl) (piece_of pl content m) part k (fits (same ge le))
          ∙ get_elem?-piece_of m k h)
    ]
  ]
    where
      same : ¬ (i < m) → ¬ (m < i) → i ≡ m
      same a b = omega arith

      fits : i ≡ m → k < length (piece_of pl content m)
      fits e = omega (arith, length-piece_of m, ap (λ (t : ℕ). t * pl) e)

  -- Writing a piece of the file in its place and setting its status keeps the progress.
  pub write-Progress :
      (part : Bytes) (status : List ℕ) (m : ℕ)
      → m < n
      → Progress pl n content part status
      → Progress pl n content
          (write_at (m * pl) (piece_of pl content m) part)
          (write_at m (1 ∷ []) status)
  write-Progress part status m h p = record {
    size =
        length-write_at_le (m * pl) (piece_of pl content m) part (length content) p.size
          (omega (arith, length-piece_of m, cut.none_empty m h));
    status_size = rw (write_at-set m 1 status in_range) (length-set status m 1 ∙ p.status_size);
    good = λ i k lk lc e. good_row part m i k p.size lk lc (λ ne. p.good i k lk lc (
        sym (get_elem?-set_ne status m i 1 (λ q. ne (sym q)))
        ∙ (rw (write_at-set m 1 status in_range) at e)));
  }
    where
      in_range : m < length status
      in_range = omega (arith, p.status_size)

all_one-get :
    (status : List ℕ) (i : ℕ)
    → all_one status ≡ true
    → i < length status
    → get_elem? status i ≡ some 1
unfolding all_one
all_one-get [] i h l = elim l [ ]
all_one-get (s ∷ status) zero h l = ground arith
all_one-get (s ∷ status) (suc i) h l = all_one-get status i (ground arith) (omega arith)

has_all_pieces-get :
    (status : List ℕ) (i : ℕ)
    → has_all_pieces status ≡ true
    → i < length status
    → get_elem? status i ≡ some 1
unfolding has_all_pieces
has_all_pieces-get [] i h l = elim l [ ]
has_all_pieces-get (s ∷ status) i h l = all_one-get (s ∷ status) i h l

module _ (pl n : ℕ) (content : Bytes) (cut : Cut pl n content) where
  -- When every piece is there, the `.part` file is the file.
  pub complete :
      (part : Bytes) (status : List ℕ)
      → Progress pl n content part status
      → has_all_pieces status ≡ true
      → part ≡ content
  complete part status p h = list_ext part content byte
    where
      row_of : (j : ℕ) → j < length content → j / pl < n
      row_of j l = (div-lt_iff_lt-mul cut.piece_pos).1 (omega (arith, cut.enough))

      byte : (j : ℕ) → get_elem? part j ≡ get_elem? content j
      byte j = elim (dec_lt j (length content)) [
        | yes l ↦ rw (div-add-mod' j pl) at (
            p.good (j / pl) (j % pl) (mod-lt j cut.piece_pos) (rw (div-add-mod' j pl) l)
              (has_all_pieces-get status (j / pl) h (omega (arith, row_of j l, p.status_size))))
        | no g ↦
            get_elem?-none part j (omega (arith, p.size))
            ∙ sym (get_elem?-none content j (omega arith))
      ]
