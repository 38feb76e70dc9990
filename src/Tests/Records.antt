-- ===== src/Tests/Records.antt =====
-- Witnesses for the records and the removal of files in client/src/file_handler.rs.
use bear_torrent_final_proje.Base.{
  ◌≡◌, refl, ℕ, [], ◌∷◌, none, some, ok, panicked, arith, true, false, list_beq, eqb, bytes_eq,
  length, replicate, All,
}
use bear_torrent_final_proje.Base.Dict.{lookup}
use bear_torrent_final_proje.Proto.{Bytes, Text}
use bear_torrent_final_proje.FileHandler.Disk.{Disk, content_of, has_slash, has_dir}
use bear_torrent_final_proje.FileHandler.Pieces.{get_piece_hashes}
use bear_torrent_final_proje.FileHandler.Store.{
  cache_dir, file_path, temp_path, is_file_complete, write_piece_to_part,
}
use bear_torrent_final_proje.FileHandler.Progress.{Cut}
use bear_torrent_final_proje.FileHandler.Download.{IsCut}
use bear_torrent_final_proje.FileHandler.Cache.RoundTrip.{IsInline}
use bear_torrent_final_proje.FileHandler.Coverage.{get_piece_hashes-Cut, record_of-IsCut}
use bear_torrent_final_proje.FileHandler.Records.{record_of, new, delete_file}
use bear_torrent_final_proje.FileHandler.Records.Caching.{cache_path, new-new}
use bear_torrent_final_proje.FileHandler.Records.Deleting.{delete_file-missing}
use bear_torrent_final_proje.Tests.Hex.{hex_encode, hex_decode, hex-HexLaws}
use bear_torrent_final_proje.Tests.Sample.{three_bytes, small, AreBytes-replicate}

name-IsInline : All IsInline (97 ∷ [])
name-IsInline = ((omega arith, omega arith), tt)

-- A disk with one finished file.
abbrev pub finished : Disk
finished = record { dirs = cache_dir ∷ []; files = (file_path (97 ∷ []), three_bytes) ∷ [] }

abbrev nowhere : Disk
nowhere = record { dirs = cache_dir ∷ []; files = [] }

pub there : content_of finished (file_path (97 ∷ [])) ≡ some three_bytes
unfolding lookup list_beq temp_path
there = refl

no_cache : content_of finished (cache_path (97 ∷ [])) ≡ none
unfolding lookup list_beq temp_path
no_cache = refl

pub placed : has_dir (cache_dir ∷ []) cache_dir ≡ true
unfolding has_dir list_beq
placed = refl

pub plain : has_slash (97 ∷ []) ≡ false
unfolding has_slash
plain = refl

-- A digest that is the same for all bytes.
abbrev pub constant : Bytes → Bytes
constant bytes = replicate 20 7

new-new_example :
    (d' d'' : Disk) × (new constant hex_encode hex_decode (97 ∷ []) finished
      ≡ (ok (record_of constant hex_encode hex_decode (97 ∷ []) three_bytes), d'))
    × (new constant hex_encode hex_decode (97 ∷ []) d'
        ≡ (ok (record_of constant hex_encode hex_decode (97 ∷ []) three_bytes), d''))
    × ((q : Text) → eqb (cache_path (97 ∷ [])) q ≡ false → content_of d' q ≡ content_of finished q)
    × ((q : Text) → content_of d'' q ≡ content_of d' q)
new-new_example =
    new-new constant hex_encode hex_decode (97 ∷ []) three_bytes finished hex-HexLaws
      (λ b. AreBytes-replicate 20 7 (omega arith)) plain name-IsInline (omega arith) placed no_cache
      there

nothing : (q : Text) → content_of nowhere q ≡ none
unfolding lookup
nothing q = refl

delete_file-missing_example :
    (d' : Disk) × (delete_file small.name nowhere ≡ (ok tt, d'))
    × (content_of d' (cache_path small.name) ≡ some [])
    × ((is_file_complete small d').0 ≡ ok true)
    × ((piece : Bytes) (i : ℕ) → (write_piece_to_part small piece i d').0 ≡ panicked)
delete_file-missing_example =
    delete_file-missing small plain nowhere placed (nothing _) (nothing _) (nothing _)

get_piece_hashes-Cut_example : Cut 2 (length (get_piece_hashes constant 2 three_bytes)) three_bytes
get_piece_hashes-Cut_example = get_piece_hashes-Cut constant 2 three_bytes (omega arith)

record_of-IsCut_example :
    IsCut (record_of constant hex_encode hex_decode (97 ∷ []) three_bytes) three_bytes
record_of-IsCut_example =
    record_of-IsCut constant hex_encode hex_decode (97 ∷ []) three_bytes (omega arith)
