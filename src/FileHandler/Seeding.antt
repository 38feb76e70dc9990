-- ===== src/FileHandler/Seeding.antt =====
-- A disk from which a seeder can serve a file.
use bear_torrent_final_proje.Base.{ℕ, ◌<◌, ◌≡◌, Option, some, length, ok}
use bear_torrent_final_proje.Base.Words.{u64_mod}
use bear_torrent_final_proje.Proto.{Bytes, InfoHash}
use bear_torrent_final_proje.Message.{Message, request}
use bear_torrent_final_proje.FileHandler.Disk.{Disk, content_of}
use bear_torrent_final_proje.FileHandler.Store.{file_path, read_piece_from_file}
use bear_torrent_final_proje.FileHandler.Progress.{piece_of}
use bear_torrent_final_proje.FileHandler.Download.{IsCut}
use bear_torrent_final_proje.FileHandler.Reading.{read_piece_from_file-piece_of}

module _ (file_map : Bytes → Option InfoHash) (h : InfoHash) (content hash : Bytes) where
  -- The map knows the hash, and the disk has the finished file, cut as the record says.
  pub record Seeds (d : Disk) : Type 0 where
    pub known : file_map hash ≡ some h
    pub hash_size : length hash ≡ 20
    pub cut : IsCut h content
    pub few : length h.pieces < u64_mod
    pub size : h.file_length ≡ length content
    pub found : content_of d (file_path h.name) ≡ some content

  pub read-Seeds :
      (d : Disk) (index : ℕ)
      → Seeds d
      → index < length h.pieces
      → read_piece_from_file h index d ≡ (ok (piece_of h.piece_length content index), d)
  read-Seeds d index v l =
      read_piece_from_file-piece_of h content index d v.cut v.few v.size l v.found

-- A request for a piece, whatever its other fields.
pub record Wanted : Type 0 where
  pub seeder : ℕ
  pub index : ℕ
  pub begin : ℕ
  pub len : ℕ

abbrev pub wanted_request : Bytes → Wanted → Message
wanted_request hash w = request w.seeder w.index w.begin w.len hash
