-- ===== src/FileHandler/Build.antt =====
-- The end of a download: the `.part` file is moved in place and the `.info` file removed.
use bear_torrent_final_proje.Base.{
  ℕ, ◌≡◌, refl, true, false, none, some, List, ok, arith, if◌then◌else◌, eqb, eqb_iff, eqb_refl,
  bytes_eq, list_beq, nat_eq,
}
use bear_torrent_final_proje.Base.Dict.{Dict, lookup, insert, erase, lookup-insert, lookup-erase}
use bear_torrent_final_proje.Proto.{Text, Bytes, InfoHash}
use bear_torrent_final_proje.FileHandler.Disk.{
  Disk, content_of, exists, has_dir, has_slash, rename, remove_file,
}
use bear_torrent_final_proje.FileHandler.Store.{
  files_dir, temp_path, part_path, info_path, file_path, move_part,
}
use bear_torrent_final_proje.FileHandler.Views.{parent-files, part-ne-info}

pub part-ne-file : (name : Text) → eqb (part_path name) (file_path name) ≡ false
unfolding temp_path list_beq
part-ne-file name = refl

pub info-ne-file : (name : Text) → eqb (info_path name) (file_path name) ≡ false
unfolding temp_path list_beq
info-ne-file name = refl

pub info-ne-part : (name : Text) → eqb (info_path name) (part_path name) ≡ false
info-ne-part name = ground (
  arith,
  part-ne-info name,
  eqb_iff (info_path name) (part_path name),
  eqb_iff (part_path name) (info_path name),
)

-- Moving the `.part` file in place and removing the `.info` file.
pub move_part_lem :
    (h : InfoHash) (d : Disk) (content : Bytes) (status : List ℕ)
    → has_slash h.name ≡ false
    → has_dir d.dirs files_dir ≡ true
    → content_of d (part_path h.name) ≡ some content
    → content_of d (info_path h.name) ≡ some status
    → content_of d (file_path h.name) ≡ none
    → (d' : Disk) × (move_part h (part_path h.name) (info_path h.name) d ≡ (ok tt, d'))
      × (content_of d' (file_path h.name) ≡ some content)
      × (content_of d' (part_path h.name) ≡ none)
      × (content_of d' (info_path h.name) ≡ none)
unfolding move_part exists rename remove_file
move_part_lem h d content status plain place p i t = (
  record d { files = erase (info_path h.name) moved },
  ground (
    arith,
    parent-files h.name plain,
    at (info_path h.name),
    info-ne-part h.name,
    info-ne-file h.name,
    part-ne-info h.name,
    file-ne-info,
  ),
  ground (
    arith,
    gone (file_path h.name),
    at (file_path h.name),
    eqb_refl (file_path h.name),
    info-ne-file h.name,
  ),
  ground (
    arith,
    gone (part_path h.name),
    at (part_path h.name),
    eqb_refl (part_path h.name),
    info-ne-part h.name,
    file-ne-part,
  ),
  ground (arith, gone (info_path h.name), eqb_refl (info_path h.name)),
)
  where
    moved : Dict Text Bytes
    moved = insert (file_path h.name) content (erase (part_path h.name) d.files)

    at :
        (q : Text)
        → lookup q moved ≡ (
            if eqb (file_path h.name) q
            then some content
            else if eqb (part_path h.name) q
            then none
            else content_of d q)
    at q = ground (
      arith,
      lookup-insert (file_path h.name) q content (erase (part_path h.name) d.files),
      lookup-erase (part_path h.name) q d.files,
    )

    gone :
        (q : Text)
        → lookup q (erase (info_path h.name) moved)
          ≡ (if eqb (info_path h.name) q then none else lookup q moved)
    gone q = lookup-erase (info_path h.name) q moved

    file-ne-part : eqb (file_path h.name) (part_path h.name) ≡ false
    file-ne-part = ground (
      arith,
      part-ne-file h.name,
      eqb_iff (file_path h.name) (part_path h.name),
      eqb_iff (part_path h.name) (file_path h.name),
    )

    file-ne-info : eqb (file_path h.name) (info_path h.name) ≡ false
    file-ne-info = ground (
      arith,
      info-ne-file h.name,
      eqb_iff (file_path h.name) (info_path h.name),
      eqb_iff (info_path h.name) (file_path h.name),
    )
