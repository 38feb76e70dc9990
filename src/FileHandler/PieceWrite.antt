-- ===== src/FileHandler/PieceWrite.antt =====
-- `write_piece_to_part` and `is_file_complete`, on the disk.
use bear_torrent_final_proje.Base.{
  ℕ, zero, suc, ◌<◌, ◌≡◌, refl, ◌∙◌, ap, true, false, none, some, List, [], ◌∷◌, ok, arith,
  if◌then◌else◌, ltb, length, replicate, eqb, bytes_eq, Option-cases, inl, inr, lt→ltb,
}
use bear_torrent_final_proje.Base.Text.{codes}
use bear_torrent_final_proje.Proto.{Text, Bytes, InfoHash}
use bear_torrent_final_proje.FileHandler.Disk.{
  Disk, ◌>>=◌, ◌>>◌, check, content_of, exists, has_dir, has_slash, store, write_at, write_file,
}
use bear_torrent_final_proje.FileHandler.Pieces.{has_all_pieces, offset_of}
use bear_torrent_final_proje.FileHandler.Store.{
  cache_dir, part_path, info_path, get_part_file, get_info_file, get_client_cache_dir,
  get_info_status, is_file_complete, write_piece_to_part,
}
use bear_torrent_final_proje.FileHandler.Views.{
  parent-cache, part-ne-info, Wrote, store-Wrote, trans-Wrote, written, or_else, get_temp_file_lem,
  exists_some, exists_none, read_file_lem, write_file_lem, create_dir_all_lem,
}

write_at-zeros : (n : ℕ) → write_at 0 (replicate n 0) [] ≡ replicate n 0
unfolding write_at
write_at-zeros zero = refl
write_at-zeros (suc n) = refl

module _ (h : InfoHash) where
  -- The status that `get_info_status` returns: the `.info` file, or a zero for each piece.
  abbrev pub status_in : Disk → List ℕ
  status_in d = or_else (content_of d (info_path h.name)) (replicate (length h.pieces) 0)

  abbrev pub part_in : Disk → Bytes
  part_in d = or_else (content_of d (part_path h.name)) []

  -- What writing piece `i` makes of the `.part` and of the `.info` file.
  abbrev pub part_after : Disk → Bytes → ℕ → Bytes
  part_after d piece i = write_at (offset_of i h.piece_length) piece (part_in d)

  abbrev pub status_after : Disk → ℕ → List ℕ
  status_after d i = write_at i (1 ∷ []) (status_in d)

module _ (h : InfoHash) (plain : has_slash h.name ≡ false) where
  pub get_part_file_lem :
      (d : Disk)
      → has_dir d.dirs cache_dir ≡ true
      → (d' : Disk) × (get_part_file h.name d ≡ (ok (part_path h.name), d'))
        × Wrote (part_path h.name) (part_in h d) d d'
  unfolding get_part_file
  get_part_file_lem d r =
      let (d', e, w) =
        get_temp_file_lem h.name (codes ".part") (codes "cache") d
          (rw (parent-cache h.name (codes ".part") plain (unfold has_slash in refl)) r) in
      (d', rw e, w)

  pub get_info_file_lem :
      (d : Disk)
      → has_dir d.dirs cache_dir ≡ true
      → (d' : Disk) × (get_info_file h.name d
          ≡ (ok (info_path h.name, exists (info_path h.name) d), d'))
        × Wrote (info_path h.name) (or_else (content_of d (info_path h.name)) []) d d'
  unfolding get_info_file
  get_info_file_lem d r =
      let (d', e, w) =
        get_temp_file_lem h.name (codes ".info") (codes "cache") d
          (rw (parent-cache h.name (codes ".info") plain (unfold has_slash in refl)) r) in
      (d', rw e, w)

  info_found :
      (d : Disk) (status : List ℕ)
      → has_dir d.dirs cache_dir ≡ true
      → content_of d (info_path h.name) ≡ some status
      → (d' : Disk) × (get_info_status h d ≡ (ok status, d')) × Wrote (info_path h.name) status d d'
  unfolding get_info_status
  info_found d status r e =
      let (d', f, w) = get_info_file_lem d r in
      let w' : Wrote (info_path h.name) status d d' = rw e at w in
      let c = written (info_path h.name) status d d' w' in
      (
        d',
        rw (
          f,
          exists_some (info_path h.name) status d e,
          read_file_lem (info_path h.name) status d' c,
        ),
        w',
      )

  info_new :
      (d : Disk)
      → has_dir d.dirs cache_dir ≡ true
      → content_of d (info_path h.name) ≡ none
      → (d' : Disk) × (get_info_status h d ≡ (ok (replicate (length h.pieces) 0), d'))
        × Wrote (info_path h.name) (replicate (length h.pieces) 0) d d'
  unfolding get_info_status
  info_new d r e =
      let (d', f, w) = get_info_file_lem d r in
      let w' : Wrote (info_path h.name) [] d d' = rw e at w in
      let c = written (info_path h.name) [] d d' w' in
      let zeros = replicate {A = ℕ} (length h.pieces) 0 in
      (
        store (info_path h.name) zeros d',
        rw (
          f,
          exists_none (info_path h.name) d e,
          write_file_lem (info_path h.name) 0 zeros [] d' c,
          write_at-zeros (length h.pieces),
        ),
        trans-Wrote (info_path h.name) [] zeros d d' _ w' (store-Wrote (info_path h.name) zeros d'),
      )

  pub get_info_status_lem :
      (d : Disk)
      → has_dir d.dirs cache_dir ≡ true
      → (d' : Disk) × (get_info_status h d ≡ (ok (status_in h d), d'))
        × Wrote (info_path h.name) (status_in h d) d d'
  get_info_status_lem d r = elim (Option-cases (content_of d (info_path h.name))) [
    | inl e ↦ rw e (info_new d r e)
    | inr (status, e) ↦ rw e (info_found d status r e)
  ]

  pub is_file_complete_lem :
      (d : Disk)
      → has_dir d.dirs cache_dir ≡ true
      → (d' : Disk) × (is_file_complete h d ≡ (ok (has_all_pieces (status_in h d)), d'))
        × Wrote (info_path h.name) (status_in h d) d d'
  unfolding is_file_complete
  is_file_complete_lem d r = let (d', e, w) = get_info_status_lem d r in (d', rw e, w)

  status_in-Wrote :
      (d d' : Disk) (v : Bytes) → Wrote (part_path h.name) v d d' → status_in h d' ≡ status_in h d
  status_in-Wrote d d' v w =
      ap (λ o. or_else o (replicate (length h.pieces) 0)) {x = content_of d' (info_path h.name)}
        {y = content_of d (info_path h.name)}
        (ground (arith, w.content (info_path h.name), part-ne-info h.name))

  mark_info :
      (d : Disk) (i : ℕ)
      → has_dir d.dirs cache_dir ≡ true
      → i < length (status_in h d)
      → (d' : Disk) × ((do
        status ← get_info_status h
        check (ltb i (length status))
        (info, is_new) ← get_info_file h.name
        write_file info i (1 ∷ []))
            d
          ≡ (ok tt, d'))
        × Wrote (info_path h.name) (status_after h d i) d d'
  mark_info d i r l =
      let (d4, e4, w4) = get_info_status_lem d r in
      let c4 = written (info_path h.name) (status_in h d) d d4 w4 in
      let r4 : has_dir d4.dirs cache_dir ≡ true = rw w4.dirs r in
      let (d5, e5, w5) = get_info_file_lem d4 r4 in
      let w5' : Wrote (info_path h.name) (status_in h d) d4 d5 = rw c4 at w5 in
      let c5 = written (info_path h.name) (status_in h d) d4 d5 w5' in
      (
        store (info_path h.name) (status_after h d i) d5,
        rw (
          e4,
          lt→ltb i (length (status_in h d)) l,
          e5,
          write_file_lem (info_path h.name) i (1 ∷ []) (status_in h d) d5 c5,
        ),
        trans-Wrote (info_path h.name) (status_in h d) (status_after h d i) d d5 _
            (trans-Wrote (info_path h.name) (status_in h d) (status_in h d) d d4 d5 w4 w5')
            (store-Wrote (info_path h.name) (status_after h d i) d5),
      )

  pub write_part :
      (d : Disk) (piece : Bytes) (i : ℕ)
      → has_dir d.dirs cache_dir ≡ true
      → (d' d'' : Disk) × (get_part_file h.name d ≡ (ok (part_path h.name), d'))
        × (write_file (part_path h.name) (offset_of i h.piece_length) piece d' ≡ (ok tt, d''))
        × Wrote (part_path h.name) (part_after h d piece i) d d''
  write_part d piece i r =
      let (d', e, w) = get_part_file_lem d r in
      let c = written (part_path h.name) (part_in h d) d d' w in
      (
        d',
        store (part_path h.name) (part_after h d piece i) d',
        e,
        write_file_lem (part_path h.name) _ piece (part_in h d) d' c,
        trans-Wrote (part_path h.name) (part_in h d) (part_after h d piece i) d d' _ w
            (store-Wrote (part_path h.name) (part_after h d piece i) d'),
      )

  -- A piece that arrives goes to its place in the `.part` file, and its byte of the `.info` file
  -- becomes one; no other file changes and no directory goes away.
  pub write_piece_to_part_lem :
      (d : Disk) (piece : Bytes) (i : ℕ)
      → i < length (status_in h d)
      → (d' : Disk) × (write_piece_to_part h piece i d ≡ (ok tt, d'))
        × (has_dir d'.dirs cache_dir ≡ true)
        × ((q : Text) → has_dir d.dirs q ≡ true → has_dir d'.dirs q ≡ true)
        × ((q : Text)
            → content_of d' q ≡ (
                if eqb (info_path h.name) q
                then some (status_after h d i)
                else if eqb (part_path h.name) q
                then some (part_after h d piece i)
                else content_of d q))
  unfolding write_piece_to_part get_client_cache_dir
  write_piece_to_part_lem d piece i l =
      let (d1, e1, r1, m1, c1) = create_dir_all_lem cache_dir d in
      let same : status_in h d1 ≡ status_in h d =
        ap (λ o. or_else o (replicate (length h.pieces) 0)) (c1 (info_path h.name)) in
      let part : part_in h d1 ≡ part_in h d = ap (λ o. or_else o []) (c1 (part_path h.name)) in
      let (d2, d3, e2, e3, w3) = write_part d1 piece i r1 in
      let r3 : has_dir d3.dirs cache_dir ≡ true = rw w3.dirs r1 in
      let kept = status_in-Wrote d1 d3 (part_after h d1 piece i) w3 ∙ same in
      let (d', e', w') = mark_info d3 i r3 (rw kept l) in
      (
        d',
        rw (e1, e2, e3) e',
        rw w'.dirs r3,
        λ q m. rw (w'.dirs ∙ w3.dirs) (m1 q m),
        λ q. ground (arith, w'.content q, w3.content q, c1 q, kept, part),
      )
