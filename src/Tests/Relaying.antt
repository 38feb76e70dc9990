-- ===== src/Tests/Relaying.antt =====
-- Witnesses for client/src/turn_fallback.rs and for the reads of a seeder.
use bear_torrent_final_proje.Base.{
  ◌≡◌, ◌⊎◌, ◌↔◌, refl, Option, List, [], ◌∷◌, some, ok, arith, replicate, list_beq,
}
use bear_torrent_final_proje.Tests.Sample.{three_bytes, small, small-IsCut}
use bear_torrent_final_proje.Base.Dict.{lookup}
use bear_torrent_final_proje.Proto.{Bytes, InfoHash, PeerId}
use bear_torrent_final_proje.FileHandler.Disk.{Disk, content_of}
use bear_torrent_final_proje.FileHandler.Progress.{piece_of}
use bear_torrent_final_proje.FileHandler.Store.{file_path, temp_path, read_piece_from_file}
use bear_torrent_final_proje.FileHandler.Reading.{read_piece_from_file-piece_of}
use bear_torrent_final_proje.TurnFallback.{make_session_id}
use bear_torrent_final_proje.TurnFallback.Ids.{make_session_id_iff}
use bear_torrent_final_proje.FileHandler.Seeding.{Seeds, Wanted}

abbrev pub here : PeerId
here = record { ipaddr = 3_232_235_777; port = 80; priv_ipaddr = 1; priv_port = 81 }

abbrev pub there : PeerId
there = record { ipaddr = 3_232_235_777; port = 80; priv_ipaddr = 2; priv_port = 0 }

make_session_id_iff_example :
    (make_session_id here there ≡ make_session_id there here)
    ↔ (((here ≡ there) × (there ≡ here)) ⊎ ((here ≡ here) × (there ≡ there)))
make_session_id_iff_example =
    make_session_id_iff here there there here (omega arith) (omega arith) (omega arith)
      (omega arith)

abbrev pub seeding : Disk
seeding = record { dirs = []; files = (file_path (97 ∷ []), three_bytes) ∷ [] }

stored : content_of seeding (file_path (97 ∷ [])) ≡ some three_bytes
unfolding lookup list_beq temp_path
stored = refl

read_piece_from_file-piece_of_example :
    read_piece_from_file small 1 seeding ≡ (ok (piece_of 2 three_bytes 1), seeding)
read_piece_from_file-piece_of_example =
    read_piece_from_file-piece_of small three_bytes 1 seeding small-IsCut (omega arith) refl
      (omega arith) stored

abbrev pub known_file : Bytes → Option InfoHash
known_file hash = some small

pub small-Seeds : Seeds known_file small three_bytes (replicate 20 7) seeding
small-Seeds = record {
  known = refl;
  hash_size = refl;
  cut = small-IsCut;
  few = omega arith;
  size = refl;
  found = stored;
}

abbrev pub wanted : List Wanted
wanted =
    record { seeder = 0; index = 1; begin = 2; len = 2 }
    ∷ record { seeder = 0; index = 0; begin = 0; len = 2 }
    ∷ []
