-- ===== src/Tests/Storage.antt =====
-- Witnesses for client/src/file_handler.rs.
use bear_torrent_final_proje.FileHandler.Progress.{piece_of}
use bear_torrent_final_proje.FileHandler.Pieces.{get_piece_hashes}
use bear_torrent_final_proje.FileHandler.Hashes.{get_piece_hashes-last}
use bear_torrent_final_proje.Base.{
  get_elem?, ◌≡◌, refl, ℕ, zero, suc, ◌<◌, List, [], ◌∷◌, some, none, ok, arith, true, list_beq,
}
use bear_torrent_final_proje.Tests.Sample.{three_bytes, small, small-IsCut}
use bear_torrent_final_proje.Base.Dict.{lookup}
use bear_torrent_final_proje.Proto.{Bytes}
use bear_torrent_final_proje.FileHandler.Disk.{Disk, content_of, ◌>>◌, has_slash, has_dir}
use bear_torrent_final_proje.FileHandler.Store.{
  cache_dir, files_dir, part_path, info_path, file_path, build_file,
}
use bear_torrent_final_proje.FileHandler.Download.{receive, arrives}
use bear_torrent_final_proje.FileHandler.Finish.{build_file-receive}

abbrev empty_disk : Disk
empty_disk = record { dirs = cache_dir ∷ files_dir ∷ []; files = [] }

-- The last piece arrives first, and twice.
abbrev order : List ℕ
order = 1 ∷ 0 ∷ 1 ∷ []

covered : (i : ℕ) → i < 2 → arrives order i ≡ true
unfolding arrives
covered zero l = refl
covered (suc zero) l = refl
covered (suc (suc i)) l = absurd (omega arith)

build_file-receive_example :
    (d' : Disk) × ((receive small three_bytes order >> build_file small) empty_disk ≡ (ok tt, d'))
    × (content_of d' (file_path (97 ∷ [])) ≡ some three_bytes)
    × (content_of d' (part_path (97 ∷ [])) ≡ none)
    × (content_of d' (info_path (97 ∷ [])) ≡ none)
unfolding lookup has_slash has_dir list_beq
build_file-receive_example =
    build_file-receive small three_bytes refl small-IsCut order empty_disk
      (omega arith, (omega arith, (omega arith, tt))) covered refl refl refl refl refl

-- A hash that keeps the bytes as they are.
abbrev same_bytes : Bytes → Bytes
same_bytes bytes = bytes

get_piece_hashes-last_example :
    get_elem? (get_piece_hashes same_bytes 2 three_bytes) 1 ≡ some (30 ∷ 20 ∷ [])
unfolding piece_of
get_piece_hashes-last_example =
    get_piece_hashes-last same_bytes 0 2 three_bytes (omega arith) (omega arith) (omega arith)
