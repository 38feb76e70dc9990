-- ===== src/FileHandler/Download.antt =====
-- A download while its pieces arrive.
use native.Mathlib.Nat.{mod-eq_of_lt}
use native.Mathlib.Decide.{ℕ_discrete}
use bear_torrent_final_proje.Base.{
  ℕ, zero, suc, ◌*◌, ◌<◌, ◌≤◌, ◌≡◌, refl, ◌∙◌, ◌≢◌, ◌⊎◌, Bool, true, false, ◌||◌, none, some, List,
  [], ◌∷◌, ok, arith, ◌==◌, length, get_elem?, set, replicate, eqb_refl, bytes_eq, nat_eq, inl, inr,
  length-replicate, get_elem?-set_self, get_elem?-set_ne,
}
use bear_torrent_final_proje.Base.Words.{u32_mod}
use bear_torrent_final_proje.Proto.{Bytes, InfoHash}
use bear_torrent_final_proje.FileHandler.Disk.{
  Disk, Io, ◌>>◌, pure, content_of, has_dir, has_slash, write_at,
}
use bear_torrent_final_proje.FileHandler.Pieces.{has_all_pieces, all_one, offset_of}
use bear_torrent_final_proje.FileHandler.Store.{
  cache_dir, files_dir, part_path, info_path, file_path, write_piece_to_part,
}
use bear_torrent_final_proje.FileHandler.Progress.{
  piece_of, Cut, Progress, write-Progress, write_at-set,
}
use bear_torrent_final_proje.FileHandler.Build.{part-ne-file, info-ne-file, info-ne-part}
use bear_torrent_final_proje.FileHandler.PieceWrite.{
  status_in, part_in, status_after, write_piece_to_part_lem,
}

-- The pieces of a file are written one after the other, in the order of the list.
unfoldable pub receive : InfoHash → Bytes → List ℕ → Io (Unit {0})
receive h content [] = pure tt
receive h content (i ∷ order) = do
  write_piece_to_part h (piece_of h.piece_length content i) i
  receive h content order

unfoldable pub arrives : List ℕ → ℕ → Bool
arrives [] i = false
arrives (x ∷ order) i = x == i || arrives order i

abbrev pub AllBelow : ℕ → List ℕ → Type 0
AllBelow n [] = Unit
AllBelow n (i ∷ order) = (i < n) × AllBelow n order

module _ (h : InfoHash) (content : Bytes) where
  -- A disk on which the download has made progress and nothing is in the way of its result.
  pub record Downloading (d : Disk) : Type 0 where
    pub progress : Progress h.piece_length (length h.pieces) content (part_in h d) (status_in h d)
    pub target : content_of d (file_path h.name) ≡ none
    pub place : has_dir d.dirs files_dir ≡ true

abbrev pub IsCut : InfoHash → Bytes → Type 0
IsCut h content = Cut h.piece_length (length h.pieces) content × (length content ≤ u32_mod)

-- What is set or still to come, after piece `i` is set.
pub counted :
    (s : List ℕ) (later : Bool) (i j : ℕ)
    → j < length s
    → (get_elem? s j ≡ some 1) ⊎ ((i == j || later) ≡ true)
    → (get_elem? (set s i 1) j ≡ some 1) ⊎ (later ≡ true)
counted s later i j l o = elim (ℕ_discrete i j) [
  | yes e ↦ inl (rw e (get_elem?-set_self s j 1 l))
  | no ne ↦ elim o [ inl a ↦ inl (get_elem?-set_ne s i j 1 ne ∙ a) | inr b ↦ inr (ground arith) ]
]

all_one-of : (s : List ℕ) → ((i : ℕ) → i < length s → get_elem? s i ≡ some 1) → all_one s ≡ true
unfolding all_one
all_one-of [] h = refl
all_one-of (x ∷ s) h =
    ground (arith, h 0 (omega arith), all_one-of s (λ i l. h (suc i) (omega arith)))

pub has_all_pieces-of :
    (s : List ℕ) → ((i : ℕ) → i < length s → get_elem? s i ≡ some 1) → has_all_pieces s ≡ true
unfolding has_all_pieces
has_all_pieces-of [] h = refl
has_all_pieces-of (x ∷ s) h = all_one-of (x ∷ s) h

pub zeros-ne-one : (n i : ℕ) → get_elem? {A = ℕ} (replicate n 0) i ≢ some 1
zeros-ne-one zero i e = cc
zeros-ne-one (suc n) zero e = ground arith
zeros-ne-one (suc n) (suc i) e = zeros-ne-one n i e

-- At first no piece is there.
no_piece : (pl n : ℕ) (content : Bytes) → Progress pl n content [] (replicate n 0)
no_piece pl n content = record {
  size = omega arith;
  status_size = length-replicate n 0;
  good = λ i k lk lc e. absurd (zeros-ne-one n i e);
}

module _ (h : InfoHash) (content : Bytes) (plain : has_slash h.name ≡ false)
    (cut : IsCut h content) where
  offset_of-piece : (i : ℕ) → i < length h.pieces → offset_of i h.piece_length ≡ i * h.piece_length
  unfolding offset_of
  offset_of-piece i l = mod-eq_of_lt (omega (arith, cut.0.none_empty i l, cut.1))

  pub write-Downloading :
      (d : Disk) (i : ℕ)
      → i < length h.pieces
      → Downloading h content d
      → (d' : Disk) × (write_piece_to_part h (piece_of h.piece_length content i) i d ≡ (ok tt, d'))
        × Downloading h content d'
        × (status_in h d' ≡ set (status_in h d) i 1)
        × (has_dir d'.dirs cache_dir ≡ true)
  write-Downloading d i l v =
      let in_range : i < length (status_in h d) = omega (arith, v.progress.status_size) in
      let (d', e, r, m, c) =
        write_piece_to_part_lem h plain d (piece_of h.piece_length content i) i in_range in
      let status : status_in h d' ≡ status_after h d i =
        ground (arith, c (info_path h.name), eqb_refl (info_path h.name)) in
      let part : part_in h d'
          ≡ write_at (i * h.piece_length) (piece_of h.piece_length content i) (part_in h d) =
        ground (
          arith,
          c (part_path h.name),
          eqb_refl (part_path h.name),
          info-ne-part h.name,
          offset_of-piece i l,
        ) in
      (
        d',
        e,
        record {
          progress =
              rw (status, part)
                (write-Progress h.piece_length (length h.pieces) content cut.0 (part_in h d)
                  (status_in h d) i l v.progress);
          target =
              ground
                (arith, c (file_path h.name), part-ne-file h.name, info-ne-file h.name, v.target);
          place = m files_dir v.place;
        },
        status ∙ write_at-set i 1 (status_in h d) in_range,
        r,
      )

  -- Pieces in any order, also again, keep the progress; each that has arrived is counted.
  pub receive-Downloading :
      (order : List ℕ) (d : Disk)
      → AllBelow (length h.pieces) order
      → Downloading h content d
      → has_dir d.dirs cache_dir ≡ true
      → (d' : Disk) × (receive h content order d ≡ (ok tt, d'))
        × Downloading h content d'
        × (has_dir d'.dirs cache_dir ≡ true)
        × ((i : ℕ)
            → (get_elem? (status_in h d) i ≡ some 1) ⊎ (arrives order i ≡ true)
            → i < length h.pieces
            → get_elem? (status_in h d') i ≡ some 1)
  unfolding receive arrives
  receive-Downloading [] d b v r = (d, refl, v, r, λ i o l. ground arith)
  receive-Downloading (i ∷ order) d b v r =
      let (d1, e1, v1, s1, r1) = write-Downloading d i b.0 v in
      let (d', e, v', r', k) = receive-Downloading order d1 b.1 v1 r1 in
      (
        d',
        rw e1 e,
        v',
        r',
        λ j o l.
            k j
              (rw s1
                (counted (status_in h d) (arrives order j) i j (rw v.progress.status_size l) o))
              l,
      )

  pub fresh :
      (d : Disk)
      → content_of d (part_path h.name) ≡ none
      → content_of d (info_path h.name) ≡ none
      → content_of d (file_path h.name) ≡ none
      → has_dir d.dirs files_dir ≡ true
      → Downloading h content d
  fresh d p i t f = record {
    progress = rw (p, i) (no_piece h.piece_length (length h.pieces) content);
    target = t;
    place = f;
  }

  pub Downloading-has_all_pieces :
      (d : Disk)
      → Downloading h content d
      → ((i : ℕ) → i < length h.pieces → get_elem? (status_in h d) i ≡ some 1)
      → has_all_pieces (status_in h d) ≡ true
  Downloading-has_all_pieces d v all =
      has_all_pieces-of (status_in h d) (λ i l. all i (rw v.progress.status_size at l))
