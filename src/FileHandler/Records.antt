-- ===== src/FileHandler/Records.antt =====
-- client/src/file_handler.rs: the records of the files that a client has, and the removal of a file.
-- The directory listing is an argument: the names of the regular files in `resources/files`, in the
-- order in which `read_dir` gives them.
pub mod Caching
pub mod Deleting
use bear_torrent_final_proje.Base.{
  ℕ, Bool, true, false, Option, none, some, List, [], ◌∷◌, Outcome, ok, err, panicked,
  if◌then◌else◌, length, eqb, bytes_eq,
}
use bear_torrent_final_proje.Base.Dict.{Dict, insert}
use bear_torrent_final_proje.Base.Text.{codes}
use bear_torrent_final_proje.Proto.{Text, Bytes, InfoHash}
use bear_torrent_final_proje.FileHandler.Disk.{
  Disk, IoError, Io, continue, ◌>>=◌, ◌>>◌, pure, exists, read_file, write_file, remove_file,
}
use bear_torrent_final_proje.FileHandler.Pieces.{
  get_piece_length, get_piece_hashes, get_hashed_info_hash,
}
use bear_torrent_final_proje.FileHandler.Store.{
  temp_path, file_path, get_part_file, get_info_file, get_file_cache, get_client_files_dir,
  get_client_cache_dir,
}
use bear_torrent_final_proje.FileHandler.Cache.{cache_text, parse_cache}

-- A call whose error is dropped or printed.
abbrev pub ignored : {A : Type 0} → Outcome IoError A → Outcome IoError (Unit {0})
ignored (ok a) = ok tt
ignored (err e) = ok tt
ignored panicked = panicked

abbrev pub ignore_error : {A : Type 0} → Io A → Io (Unit {0})
ignore_error m d = let (r, d') = m d in (ignored r, d')

-- `verify_client_dir_setup`
unfoldable pub verify_client_dir_setup : Io (Unit {0})
unfolding get_client_cache_dir get_client_files_dir
verify_client_dir_setup = do ignore_error get_client_cache_dir; ignore_error get_client_files_dir

-- `delete_file`
abbrev pub remove_all : Text → Text → Text → Text → Io (Unit {0})
remove_all file part cache info = do
  ignore_error (remove_file file)
  ignore_error (remove_file part)
  ignore_error (remove_file cache)
  ignore_error (remove_file info)

abbrev pub remove_if : Bool → Text → Text → Text → Text → Io (Unit {0})
remove_if true file part cache info = remove_all file part cache info
remove_if false file part cache info = pure tt

unfoldable pub delete_file : Text → Io (Unit {0})
delete_file file_name = do
  (info, was_info) ← get_info_file file_name
  part ← get_part_file file_name
  (cache, was_cache) ← get_file_cache file_name
  λ d. remove_if (exists (file_path file_name) d) (file_path file_name) part cache info d

module _ (sha1 : Bytes → Bytes) (hex_encode : Bytes → Text) (hex_decode : Text → Option Bytes) where
  -- The record of a file's content.
  abbrev pub record_of : Text → Bytes → InfoHash
  record_of name content = record {
    name = name;
    file_length = length content;
    piece_length = get_piece_length (length content);
    pieces = get_piece_hashes sha1 (get_piece_length (length content)) content;
  }

  -- The arm that makes the record and writes its cache file.
  unfoldable pub generate : Text → Text → Io InfoHash
  generate name cache = do
    content ← read_file (file_path name)
    write_file cache 0 (cache_text hex_encode hex_decode (record_of name content))
    pure (record_of name content)

  -- The arm that loads it.
  unfoldable pub load : Text → Io InfoHash
  load cache = do contents ← read_file cache; λ d. (parse_cache hex_encode hex_decode contents, d)

  abbrev pub load_or_generate : Text → Text × Bool → Io InfoHash
  load_or_generate name (cache, true) = load cache
  load_or_generate name (cache, false) = generate name cache

  -- `InfoHash::new`, for the file of that name in `resources/files`.
  unfoldable pub new : Text → Io InfoHash
  new name = do found ← get_file_cache name; load_or_generate name found

  unfoldable pub collect : Dict Bytes InfoHash → List Text → Io (Dict Bytes InfoHash)
  collect results [] = pure results
  collect results (name ∷ names) = do
    h ← new name
    collect (insert (get_hashed_info_hash sha1 h) h results) names

  -- `get_info_hashes`
  unfoldable pub get_info_hashes : List Text → Io (Dict Bytes InfoHash)
  get_info_hashes listing = do verify_client_dir_setup; get_client_files_dir; collect [] listing
