-- ===== src/FileHandler/Records/Deleting.antt =====
-- client/src/file_handler.rs: what `delete_file` leaves of a file, and what it leaves of a file that
-- is not there.
use bear_torrent_final_proje.Base.{
  ℕ, ◌≡◌, refl, ◌∙◌, ap, Bool, true, false, ◌||◌, none, some, [], ok, err, panicked, arith, eqb,
  eqb_iff, bytes_eq, if◌then◌else◌, list_beq, ltb, Option-cases, inl, inr,
}
use bear_torrent_final_proje.Base.Dict.{erase, lookup-erase}
use bear_torrent_final_proje.Base.Text.{codes}
use bear_torrent_final_proje.Proto.{Text, Bytes, InfoHash}
use bear_torrent_final_proje.FileHandler.Disk.{
  Disk, not_found, content_of, has_dir, has_slash, exists, remove_file,
}
use bear_torrent_final_proje.FileHandler.Store.{
  cache_dir, temp_path, file_path, part_path, info_path, get_part_file, get_info_file,
  get_info_status, get_client_cache_dir, is_file_complete, write_piece_to_part, get_file_cache,
}
use bear_torrent_final_proje.FileHandler.Views.{
  part-ne-info, run-bind, Wrote, written, or_else, create_dir_all_lem, list_beq-append, exists_some,
  exists_none,
}
use bear_torrent_final_proje.FileHandler.Pieces.{has_all_pieces}
use bear_torrent_final_proje.FileHandler.PieceWrite.{
  get_part_file_lem, get_info_file_lem, write_part, get_info_status_lem, is_file_complete_lem,
  status_in,
}
use bear_torrent_final_proje.FileHandler.Records.{ignore_error, remove_all, delete_file}
use bear_torrent_final_proje.FileHandler.Records.Caching.{cache_path, get_file_cache_lem}

eqb_swap : (p q : Text) → eqb p q ≡ false → eqb q p ≡ false
eqb_swap p q n = ground (arith, eqb_iff p q, eqb_iff q p)

none_below : (i : ℕ) → ltb i 0 ≡ false
none_below i = ground arith

kept :
    (path : Text) (v : Bytes) (q : Text) (d d' : Disk)
    → Wrote path v d d'
    → eqb path q ≡ false
    → content_of d' q ≡ content_of d q
kept path v q d d' w n = ground (arith, w.content q)

abbrev Removed : Text → Disk → Disk → Type 0
Removed path d d' = (q : Text) → content_of d' q ≡ (if eqb path q then none else content_of d q)

-- A file is gone, or was not there, and the others are as they were.
removed :
    (path : Text) (d : Disk)
    → (d' : Disk) × (ignore_error (remove_file path) d ≡ (ok tt, d')) × Removed path d d'
unfolding remove_file
removed path d = elim (Option-cases (content_of d path)) [
  | inl e ↦
      let step : remove_file path d ≡ (err not_found, d) = rw (e, remove_file) in
      (d, rw step, λ q. ground (arith, eqb_iff path q))
  | inr (c, e) ↦
      let step : remove_file path d ≡ (ok tt, record d { files = erase path d.files }) =
        rw (e, remove_file) in
      (record d { files = erase path d.files }, rw step, λ q. lookup-erase path q d.files)
]

remove_all_lem :
    (file part cache info : Text) (d3 d4 d5 d6 d7 : Disk)
    → ignore_error (remove_file file) d3 ≡ (ok tt, d4)
    → ignore_error (remove_file part) d4 ≡ (ok tt, d5)
    → ignore_error (remove_file cache) d5 ≡ (ok tt, d6)
    → ignore_error (remove_file info) d6 ≡ (ok tt, d7)
    → remove_all file part cache info d3 ≡ (ok tt, d7)
remove_all_lem file part cache info d3 d4 d5 d6 d7 e4 e5 e6 e7 =
    run-bind (ignore_error (remove_file file)) _ d3 d4 tt e4
    ∙ run-bind (ignore_error (remove_file part)) _ d4 d5 tt e5
    ∙ run-bind (ignore_error (remove_file cache)) _ d5 d6 tt e6
    ∙ e7

-- The four files of a name.
abbrev pub is_of : Text → Text → Bool
is_of name q =
    eqb (file_path name) q
    || eqb (part_path name) q
    || eqb (cache_path name) q
    || eqb (info_path name) q

part-ne-cache : (name : Text) → eqb (part_path name) (cache_path name) ≡ false
unfolding temp_path list_beq
part-ne-cache name = list_beq-append name (codes ".part") (codes ".filecache")

info-ne-cache : (name : Text) → eqb (info_path name) (cache_path name) ≡ false
unfolding temp_path list_beq
info-ne-cache name = list_beq-append name (codes ".info") (codes ".filecache")

file-ne-cached :
    (name ext : Text) → eqb (file_path name) (temp_path name ext (codes "cache")) ≡ false
unfolding temp_path list_beq
file-ne-cached name ext = refl

module _ (h : InfoHash) (plain : has_slash h.name ≡ false) where
  -- The disk on which `delete_file` has made the files that it is to remove.
  record Prepared (d d' : Disk) : Type 0 where
    dirs : has_dir d'.dirs cache_dir ≡ true
    info : content_of d' (info_path h.name) ≡ some (or_else (content_of d (info_path h.name)) [])
    cache : content_of d' (cache_path h.name) ≡ some (or_else (content_of d (cache_path h.name)) [])
    others :
        (q : Text)
        → eqb (info_path h.name) q ≡ false
        → eqb (part_path h.name) q ≡ false
        → eqb (cache_path h.name) q ≡ false
        → content_of d' q ≡ content_of d q

  file-Prepared :
      (d d' : Disk)
      → Prepared d d'
      → content_of d' (file_path h.name) ≡ content_of d (file_path h.name)
  file-Prepared d d' x =
      x.others (file_path h.name) (eqb_swap _ _ (file-ne-cached h.name (codes ".info")))
        (eqb_swap _ _ (file-ne-cached h.name (codes ".part")))
        (eqb_swap _ _ (file-ne-cached h.name (codes ".filecache")))

  -- Removing the four files from a disk that differs by them at most.
  all-Removed :
      (d d3 d4 d5 d6 d7 : Disk)
      → Prepared d d3
      → Removed (file_path h.name) d3 d4
      → Removed (part_path h.name) d4 d5
      → Removed (cache_path h.name) d5 d6
      → Removed (info_path h.name) d6 d7
      → (q : Text) → content_of d7 q ≡ (if is_of h.name q then none else content_of d q)
  all-Removed d d3 d4 d5 d6 d7 x k4 k5 k6 k7 q = ground (arith, x.others q, k4 q, k5 q, k6 q, k7 q)

  Prepared-Wrote :
      (u v w : Bytes) (d d1 d2 d3 : Disk)
      → has_dir d.dirs cache_dir ≡ true
      → u ≡ or_else (content_of d (info_path h.name)) []
      → w ≡ or_else (content_of d2 (cache_path h.name)) []
      → Wrote (info_path h.name) u d d1
      → Wrote (part_path h.name) v d1 d2
      → Wrote (cache_path h.name) w d2 d3
      → Prepared d d3
  Prepared-Wrote u v w d d1 d2 d3 r eu ew w1 w2 w3 = record {
    dirs = ap (λ ds. has_dir ds cache_dir) (w3.dirs ∙ w2.dirs ∙ w1.dirs) ∙ r;
    info =
        kept _ _ _ d2 d3 w3 (eqb_swap _ _ (info-ne-cache h.name))
        ∙ kept _ _ _ d1 d2 w2 (part-ne-info h.name)
        ∙ written _ u d d1 w1
        ∙ ap some eu;
    cache =
        written _ w d2 d3 w3
        ∙ ap some ew
        ∙ ap (λ o. some (or_else o []))
            (kept _ _ _ d1 d2 w2 (part-ne-cache h.name)
              ∙ kept _ _ _ d d1 w1 (info-ne-cache h.name));
    others = λ q n. ground (arith, w1.content q, w2.content q, w3.content q);
  }

  prepare :
      (d : Disk)
      → has_dir d.dirs cache_dir ≡ true
      → (d1 d2 d3 : Disk) × (get_info_file h.name d
          ≡ (ok (info_path h.name, exists (info_path h.name) d), d1))
        × (get_part_file h.name d1 ≡ (ok (part_path h.name), d2))
        × (get_file_cache h.name d2 ≡ (ok (cache_path h.name, exists (cache_path h.name) d2), d3))
        × Prepared d d3
  prepare d r =
      let (d1, e1, w1) = get_info_file_lem h plain d r in
      let r1 = ap (λ ds. has_dir ds cache_dir) w1.dirs ∙ r in
      let (d2, e2, w2) = get_part_file_lem h plain d1 r1 in
      let r2 = ap (λ ds. has_dir ds cache_dir) w2.dirs ∙ r1 in
      let (d3, e3, w3) = get_file_cache_lem h.name d2 plain r2 in
      (d1, d2, d3, e1, e2, e3, Prepared-Wrote _ _ _ d d1 d2 d3 r refl refl w1 w2 w3)

  -- Deleting a file that is there succeeds, and what is left is the disk without the file and its
  -- `.part`, `.filecache` and `.info` files: no other file changes. The name has no slash, and the
  -- directory of the cache is there.
  pub delete_file_lem :
      (content : Bytes) (d : Disk)
      → has_dir d.dirs cache_dir ≡ true
      → content_of d (file_path h.name) ≡ some content
      → (d' : Disk) × (delete_file h.name d ≡ (ok tt, d'))
        × ((q : Text) → content_of d' q ≡ (if is_of h.name q then none else content_of d q))
  unfolding delete_file
  delete_file_lem content d r there =
      let (d1, d2, d3, e1, e2, e3, x) = prepare d r in
      let there' = file-Prepared d d3 x ∙ there in
      let (d4, e4, k4) = removed (file_path h.name) d3 in
      let (d5, e5, k5) = removed (part_path h.name) d4 in
      let (d6, e6, k6) = removed (cache_path h.name) d5 in
      let (d7, e7, k7) = removed (info_path h.name) d6 in
      (
        d7,
        rw (e1, e2, e3, exists_some _ _ d3 there')
            (remove_all_lem _ _ _ _ d3 d4 d5 d6 d7 e4 e5 e6 e7),
        all-Removed d d3 d4 d5 d6 d7 x k4 k5 k6 k7,
      )

  status_empty : (d : Disk) → content_of d (info_path h.name) ≡ some [] → status_in h d ≡ []
  status_empty d info = rw info

  complete_empty :
      (d : Disk)
      → has_dir d.dirs cache_dir ≡ true
      → content_of d (info_path h.name) ≡ some []
      → (is_file_complete h d).0 ≡ ok true
  unfolding has_all_pieces
  complete_empty d r info =
      let (d', e, w) = is_file_complete_lem h plain d r in
      ap (λ x. x.0) e ∙ ap (λ s. ok (has_all_pieces s)) (status_empty d info)

  write_empty :
      (d : Disk)
      → has_dir d.dirs cache_dir ≡ true
      → content_of d (info_path h.name) ≡ some []
      → (piece : Bytes) (i : ℕ) → (write_piece_to_part h piece i d).0 ≡ panicked
  unfolding write_piece_to_part get_client_cache_dir
  write_empty d r info piece i =
      let (d1, e1, r1, _, c1) = create_dir_all_lem cache_dir d in
      let (d2, d3, e2, e3, w3) = write_part h plain d1 piece i r1 in
      let info' = kept _ _ _ d1 d3 w3 (part-ne-info h.name) ∙ c1 (info_path h.name) ∙ info in
      let (d4, e4, w4) =
        get_info_status_lem h plain d3 (ap (λ ds. has_dir ds cache_dir) w3.dirs ∙ r1) in
      let e4' : get_info_status h d3 ≡ (ok [], d4) =
        e4 ∙ ap (λ s. (ok s, d4)) (status_empty d3 info') in
      rw (e1, e2, e3, e4', none_below i) refl

  -- Deleting a file that is not there, with no `.info` or `.filecache` file of that name, succeeds
  -- too, but leaves an empty `.info` and an empty `.filecache` file: a download of the file then
  -- counts as complete without a piece, and writing a piece of it panics. The name has no
  -- slash, and the directory of the cache is there.
  pub delete_file-missing :
      (d : Disk)
      → has_dir d.dirs cache_dir ≡ true
      → content_of d (file_path h.name) ≡ none
      → content_of d (info_path h.name) ≡ none
      → content_of d (cache_path h.name) ≡ none
      → (d' : Disk) × (delete_file h.name d ≡ (ok tt, d'))
        × (content_of d' (cache_path h.name) ≡ some [])
        × ((is_file_complete h d').0 ≡ ok true)
        × ((piece : Bytes) (i : ℕ) → (write_piece_to_part h piece i d').0 ≡ panicked)
  unfolding delete_file
  delete_file-missing d r missing no_info no_cache =
      let (d1, d2, d3, e1, e2, e3, x) = prepare d r in
      let no_file = file-Prepared d d3 x ∙ missing in
      let info = x.info ∙ ap (λ o. some (or_else o [])) no_info in
      (
        d3,
        rw (e1, e2, e3, exists_none _ d3 no_file) refl,
        x.cache ∙ ap (λ o. some (or_else o [])) no_cache,
        complete_empty d3 x.dirs info,
        λ piece i. write_empty d3 x.dirs info piece i,
      )
