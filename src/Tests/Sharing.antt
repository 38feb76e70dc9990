-- ===== src/Tests/Sharing.antt =====
-- A whole download at a small file.
use bear_torrent_final_proje.Base.{
  ◌≡◌, refl, ℕ, Option, some, none, [], ◌∷◌, ok, arith, length, list_beq, map,
}
use bear_torrent_final_proje.Base.Dict.{lookup}
use bear_torrent_final_proje.Proto.{Bytes, InfoHash}
use bear_torrent_final_proje.FileHandler.Disk.{content_of, has_dir}
use bear_torrent_final_proje.FileHandler.Pieces.{get_hashed_info_hash}
use bear_torrent_final_proje.FileHandler.Records.{record_of}
use bear_torrent_final_proje.FileHandler.Store.{files_dir, part_path, info_path, file_path}
use bear_torrent_final_proje.Quic.{send_data, recv_data}
use bear_torrent_final_proje.Quic.Exchange.{stream_of}
use bear_torrent_final_proje.Assembler.{Assembly, initial_requests, reassemble_loop}
use bear_torrent_final_proje.Assembler.Transfer.{messages, links}
use bear_torrent_final_proje.Assembler.Sharing.{sharing}
use bear_torrent_final_proje.Tests.Sample.{three_bytes, three_bytes-AreBytes, AreBytes-replicate}
use bear_torrent_final_proje.Tests.Hex.{hex_encode, hex_decode}
use bear_torrent_final_proje.Tests.Records.{finished, there, plain, constant}
use bear_torrent_final_proje.Tests.Download.{takes, resends}

abbrev shared : InfoHash
shared = record_of constant hex_encode hex_decode (97 ∷ []) three_bytes

abbrev knows : Bytes → Option InfoHash
knows hash = some shared

-- A requester with one connection and no file.
abbrev start : Assembly ℕ
start = record {
  disk = record { dirs = files_dir ∷ []; files = [] };
  request_txs = 5 ∷ [];
  num_connections = 1;
}

sharing_example :
    let (asks, sent) =
      initial_requests takes
        (λ i. 5 ∷ [])
        shared
        (get_hashed_info_hash constant shared)
        1
        (length shared.pieces)
        0 in
    let (seeds, replies, d') = send_data knows (map stream_of (messages sent)) finished in
    let (receives, brought) = recv_data resends (links (messages sent) replies) in
    let (ends, resend, s') = reassemble_loop constant shared resends brought start in
    (asks ≡ ok tt)
    × (seeds ≡ ok tt)
    × (receives ≡ ok tt)
    × (ends ≡ ok tt)
    × (content_of s'.disk (file_path (97 ∷ [])) ≡ some three_bytes)
    × (content_of s'.disk (part_path (97 ∷ [])) ≡ none)
    × (content_of s'.disk (info_path (97 ∷ [])) ≡ none)
unfolding lookup has_dir list_beq
sharing_example =
    sharing constant hex_encode hex_decode (97 ∷ []) three_bytes takes resends resends knows 5
      finished start (λ tx msg. refl) (λ msg. refl) (λ msg. refl)
      (λ b. (refl, AreBytes-replicate 20 7 (omega arith))) three_bytes-AreBytes (omega arith)
      (omega arith) plain refl there refl refl refl refl
