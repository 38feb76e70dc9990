-- ===== src/FileHandler/Finish.antt =====
-- The end of a download: the test for completeness, and the finished file.
use bear_torrent_final_proje.Base.{
  ℕ, ◌<◌, ◌≡◌, ◌∙◌, ap, true, false, none, some, List, [], ok, arith, length, bytes_eq, nat_eq, inr,
}
use bear_torrent_final_proje.Proto.{Bytes, InfoHash}
use bear_torrent_final_proje.FileHandler.Disk.{Disk, ◌>>◌, content_of, has_dir, has_slash}
use bear_torrent_final_proje.FileHandler.Pieces.{has_all_pieces}
use bear_torrent_final_proje.FileHandler.Store.{
  cache_dir, files_dir, part_path, info_path, file_path, is_file_complete, build_file,
  build_complete,
}
use bear_torrent_final_proje.FileHandler.Progress.{complete}
use bear_torrent_final_proje.FileHandler.Views.{part-ne-info, written, or_else}
use bear_torrent_final_proje.FileHandler.Build.{
  part-ne-file, info-ne-file, info-ne-part, move_part_lem,
}
use bear_torrent_final_proje.FileHandler.PieceWrite.{
  status_in, part_in, get_part_file_lem, get_info_file_lem, is_file_complete_lem,
}
use bear_torrent_final_proje.FileHandler.Download.{
  receive, arrives, AllBelow, Downloading, IsCut, receive-Downloading, fresh,
  Downloading-has_all_pieces,
}

module _ (h : InfoHash) (content : Bytes) (plain : has_slash h.name ≡ false)
    (cut : IsCut h content) where
  -- Asking whether the file is complete does not change the download.
  pub is_file_complete-Downloading :
      (d : Disk)
      → Downloading h content d
      → has_dir d.dirs cache_dir ≡ true
      → (d' : Disk) × (is_file_complete h d ≡ (ok (has_all_pieces (status_in h d)), d'))
        × Downloading h content d'
        × (status_in h d' ≡ status_in h d)
        × (has_dir d'.dirs cache_dir ≡ true)
  is_file_complete-Downloading d v r =
      let (d', e, w) = is_file_complete_lem h plain d r in
      let part : part_in h d' ≡ part_in h d =
        ap (λ o. or_else o []) {x = content_of d' (part_path h.name)}
          {y = content_of d (part_path h.name)}
          (ground (arith, w.content (part_path h.name), info-ne-part h.name)) in
      let status : status_in h d' ≡ status_in h d =
        ground (arith, written (info_path h.name) (status_in h d) d d' w) in
      (
        d',
        e,
        record {
          progress = rw (status, part) v.progress;
          target = ground (arith, w.content (file_path h.name), info-ne-file h.name, v.target);
          place = rw w.dirs v.place;
        },
        status,
        rw w.dirs r,
      )

  pub finish :
      (d : Disk)
      → Downloading h content d
      → has_dir d.dirs cache_dir ≡ true
      → has_all_pieces (status_in h d) ≡ true
      → (d' : Disk) × (build_file h d ≡ (ok tt, d'))
        × (content_of d' (file_path h.name) ≡ some content)
        × (content_of d' (part_path h.name) ≡ none)
        × (content_of d' (info_path h.name) ≡ none)
  unfolding build_file build_complete
  finish d v r done =
      let (d1, e1, w1) = is_file_complete_lem h plain d r in
      let r1 : has_dir d1.dirs cache_dir ≡ true = rw w1.dirs r in
      let (d2, e2, w2) = get_part_file_lem h plain d1 r1 in
      let r2 : has_dir d2.dirs cache_dir ≡ true = rw w2.dirs r1 in
      let (d3, e3, w3) = get_info_file_lem h plain d2 r2 in
      let whole : part_in h d ≡ content =
        complete h.piece_length (length h.pieces) content cut.0 (part_in h d) (status_in h d)
          v.progress done in
      let part1 : part_in h d1 ≡ part_in h d =
        ap (λ o. or_else o []) {x = content_of d1 (part_path h.name)}
          {y = content_of d (part_path h.name)}
          (ground (arith, w1.content (part_path h.name), info-ne-part h.name)) in
      let info2 : content_of d2 (info_path h.name) ≡ some (status_in h d) =
        ground (arith, w2.content (info_path h.name), part-ne-info h.name, written _ _ d d1 w1) in
      let info3 : content_of d3 (info_path h.name) ≡ some (status_in h d) =
        ground (arith, written _ _ d2 d3 w3, info2) in
      let part3 : content_of d3 (part_path h.name) ≡ some content = ground (
        arith,
        w3.content (part_path h.name),
        info-ne-part h.name,
        written _ _ d1 d2 w2,
        part1,
        whole,
      ) in
      let target3 : content_of d3 (file_path h.name) ≡ none = ground (
        arith,
        v.target,
        w1.content (file_path h.name),
        w2.content (file_path h.name),
        w3.content (file_path h.name),
        info-ne-file h.name,
        part-ne-file h.name,
      ) in
      let place3 : has_dir d3.dirs files_dir ≡ true = rw (w3.dirs ∙ w2.dirs ∙ w1.dirs) v.place in
      let (d4, e4, found, no_part, no_info) =
        move_part_lem h d3 content (status_in h d) plain place3 part3 info3 target3 in
      (d4, rw (e1, done, e2, e3) e4, found, no_part, no_info)

  -- Take a client that has the directories of the cache and of the files, neither a `.part` nor an
  -- `.info` file of the download, nor a finished file of that name, and a name without a slash. If
  -- every piece of a file of at most 4 GiB is written, in any order and some of them more than
  -- once, then every write succeeds, `build_file` succeeds, the finished file has exactly the
  -- file's content, and the two cached files are gone.
  pub build_file-receive :
      (order : List ℕ) (d : Disk)
      → AllBelow (length h.pieces) order
      → ((i : ℕ) → i < length h.pieces → arrives order i ≡ true)
      → content_of d (part_path h.name) ≡ none
      → content_of d (info_path h.name) ≡ none
      → content_of d (file_path h.name) ≡ none
      → has_dir d.dirs cache_dir ≡ true
      → has_dir d.dirs files_dir ≡ true
      → (d' : Disk) × ((receive h content order >> build_file h) d ≡ (ok tt, d'))
        × (content_of d' (file_path h.name) ≡ some content)
        × (content_of d' (part_path h.name) ≡ none)
        × (content_of d' (info_path h.name) ≡ none)
  build_file-receive order d b covers p i t c f =
      let (d1, e1, v1, r1, k) =
        receive-Downloading h content plain cut order d b (fresh h content plain cut d p i t f) c in
      let (d2, e2, found, no_part, no_info) =
        finish d1 v1 r1 (
          Downloading-has_all_pieces h content plain cut d1 v1 (λ j l. k j (inr (covers j l)) l)) in
      (d2, rw e1 e2, found, no_part, no_info)
