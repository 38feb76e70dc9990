-- ===== src/FileHandler/Store.antt =====
-- client/src/file_handler.rs: the `.part` and `.info` files of a download, and the finished files.
use bear_torrent_final_proje.Base.{
  ℕ, ◌+◌, ◌-◌, ◌*◌, ◌%◌, ◌^◌, Bool, true, false, List, [], ◌∷◌, ◌++◌, ok, err, if◌then◌else◌, ltb,
  ◌==◌, length, replicate,
}
use bear_torrent_final_proje.Base.Text.{codes}
use bear_torrent_final_proje.Base.Words.{u64_mod}
use bear_torrent_final_proje.Proto.{Text, Bytes, InfoHash}
use bear_torrent_final_proje.FileHandler.Disk.{
  other, Io, ◌>>=◌, ◌>>◌, pure, fail, unwrap_io, check, exists, create_dir_all, create, read_file,
  write_file, read_exact, rename, remove_file,
}
use bear_torrent_final_proje.FileHandler.Pieces.{has_all_pieces, offset_of}

abbrev pub cache_dir : Text
cache_dir = codes "resources/cache"

abbrev pub files_dir : Text
files_dir = codes "resources/files"

-- `format!("resources/{}/{}{}", src, file_name, extension)`
unfoldable pub temp_path : Text → Text → Text → Text
temp_path file_name extension src =
    codes "resources/" ++ (src ++ (codes "/" ++ (file_name ++ extension)))

unfoldable pub get_temp_file : Text → Text → Text → Io (Text × Bool)
get_temp_file file_name extension src d =
    let path = temp_path file_name extension src in
    if exists path d then (ok (path, true), d) else (do create path; pure (path, false)) d

abbrev pub part_path : Text → Text
part_path file_name = temp_path file_name (codes ".part") (codes "cache")

abbrev pub info_path : Text → Text
info_path file_name = temp_path file_name (codes ".info") (codes "cache")

unfoldable pub get_part_file : Text → Io Text
unfolding get_temp_file
get_part_file file_name = do
  (path, is_new) ← unwrap_io (get_temp_file file_name (codes ".part") (codes "cache"))
  pure path

unfoldable pub get_info_file : Text → Io (Text × Bool)
unfolding get_temp_file
get_info_file file_name = unwrap_io (get_temp_file file_name (codes ".info") (codes "cache"))

unfoldable pub get_file_cache : Text → Io (Text × Bool)
unfolding get_temp_file
get_file_cache file_name = unwrap_io (get_temp_file file_name (codes ".filecache") (codes "cache"))

unfoldable pub get_file : Text → Io Text
unfolding get_temp_file
get_file file_name = do
  (path, is_new) ← unwrap_io (get_temp_file file_name [] (codes "files"))
  pure path

unfoldable pub get_client_files_dir : Io (Unit {0})
get_client_files_dir = create_dir_all files_dir

unfoldable pub get_client_cache_dir : Io (Unit {0})
get_client_cache_dir = create_dir_all cache_dir

-- `get_info_status`: the flag of `get_info_file` says that the file was there before.
abbrev pub info_status : ℕ → Text × Bool → Io (List ℕ)
info_status pieces (path, true) = unwrap_io (read_file path)
info_status pieces (path, false) = do
  unwrap_io (write_file path 0 (replicate pieces 0))
  pure (replicate pieces 0)

unfoldable pub get_info_status : InfoHash → Io (List ℕ)
get_info_status h = do found ← get_info_file h.name; info_status (length h.pieces) found

unfoldable pub is_file_complete : InfoHash → Io Bool
is_file_complete h = do status ← get_info_status h; pure (has_all_pieces status)

unfoldable pub write_piece_to_part : InfoHash → Bytes → ℕ → Io (Unit {0})
write_piece_to_part h piece piece_index = do
  get_client_cache_dir
  part ← get_part_file h.name
  write_file part (offset_of piece_index h.piece_length) piece
  status ← get_info_status h
  check (ltb piece_index (length status))
  (info, is_new) ← get_info_file h.name
  write_file info piece_index (1 ∷ [])

abbrev pub file_path : Text → Text
file_path file_name = temp_path file_name [] (codes "files")

-- The rest of `build_file` once it has both cached files.
unfoldable pub move_part : InfoHash → Text → Text → Io (Unit {0})
move_part h part info d =
    if exists (file_path h.name) d
    then (err (other "File already exists in resources/files, cannot build!"), d)
    else (do rename part (file_path h.name); remove_file info) d

unfoldable pub build_complete : InfoHash → Io (Unit {0})
build_complete h = do
  part ← get_part_file h.name
  (info, is_new) ← get_info_file h.name
  move_part h part info

unfoldable pub build_file : InfoHash → Io (Unit {0})
build_file h = do
  complete ← is_file_complete h
  if complete then build_complete h else fail (other "Missing pieces for file, cannot build!")

-- The length of a piece in `usize`, of 64 bits.
unfoldable pub read_length : InfoHash → ℕ → ℕ
read_length h piece_index =
    let last = (length h.pieces + u64_mod - 1) % u64_mod in
    if last == piece_index
    then (h.file_length + u64_mod - h.piece_length * last % u64_mod) % u64_mod
    else h.piece_length

-- A buffer of `isize::MAX` bytes or more cannot be allocated.
unfoldable pub read_piece_from_file : InfoHash → ℕ → Io Bytes
read_piece_from_file h piece_index = do
  path ← get_file h.name
  content ← read_file path
  check (ltb (read_length h piece_index) (2 ^ 63))
  λ d. (read_exact (offset_of piece_index h.piece_length) (read_length h piece_index) content, d)
