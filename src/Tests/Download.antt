-- ===== src/Tests/Download.antt =====
-- Witnesses for client/src/file_assembler.rs.
use bear_torrent_final_proje.Base.{
  ◌≡◌, ◌%◌, refl, ℕ, zero, suc, ◌<◌, Bool, true, List, [], ◌∷◌, some, none, ok, panicked, arith,
  list_beq, length, get_elem?, map,
}
use bear_torrent_final_proje.Tests.Sample.{first_byte, three_bytes, small, small-IsCut}
use bear_torrent_final_proje.Base.Dict.{lookup}
use bear_torrent_final_proje.Message.{Message, cancel}
use bear_torrent_final_proje.FileHandler.Disk.{content_of, has_slash, has_dir}
use bear_torrent_final_proje.FileHandler.Progress.{piece_of}
use bear_torrent_final_proje.FileHandler.Store.{files_dir, part_path, info_path, file_path}
use bear_torrent_final_proje.Assembler.{
  Assembly, initial_requests, request_for, on_message, reassemble_loop,
}
use bear_torrent_final_proje.Assembler.Requests.{initial_requests-spread}
use bear_torrent_final_proje.Assembler.Rounds.{Arrival, genuine, corrupted, message_of, IsHashed}
use bear_torrent_final_proje.Assembler.Reassembly.{brings, reassemble_loop-builds}
use bear_torrent_final_proje.Assembler.Cancels.{
  Synced, on_message-Synced, reassemble_loop-two_cancels,
}

pub small-IsHashed : IsHashed first_byte small three_bytes
unfolding piece_of
small-IsHashed zero l e = (refl, refl)
small-IsHashed (suc zero) l e = absurd (omega arith)
small-IsHashed (suc (suc i)) l e = absurd (omega arith)

-- The last piece, a corrupted first piece, the first piece.
abbrev arrivals : List Arrival
arrivals = genuine 1 ∷ corrupted 0 (11 ∷ 20 ∷ []) ∷ genuine 0 ∷ []

covered : (i : ℕ) → i < 2 → brings arrivals i ≡ true
unfolding brings
covered zero l = refl
covered (suc zero) l = refl
covered (suc (suc i)) l = absurd (omega arith)

-- Three connections.
abbrev pub start : Assembly ℕ
start = record {
  disk = record { dirs = files_dir ∷ []; files = [] };
  request_txs = 5 ∷ 6 ∷ 7 ∷ [];
  num_connections = 3;
}

abbrev pub takes : ℕ → Message → Bool
takes tx msg = true

-- The resend channel.
abbrev pub resends : Message → Bool
resends msg = true

reassemble_loop-builds_example :
    let (ends, resend, s') =
      reassemble_loop first_byte small resends
        (map (message_of small three_bytes) arrivals)
        start in
    (ends ≡ ok tt)
    × (s'.request_txs ≡ [])
    × (content_of s'.disk (file_path (97 ∷ [])) ≡ some three_bytes)
    × (content_of s'.disk (part_path (97 ∷ [])) ≡ none)
    × (content_of s'.disk (info_path (97 ∷ [])) ≡ none)
unfolding lookup has_slash has_dir list_beq
reassemble_loop-builds_example =
    reassemble_loop-builds first_byte small three_bytes resends (λ msg. refl) refl small-IsCut
      arrivals start small-IsHashed
      (omega arith, ((refl, (_, refl, refl, λ e. ground arith)), (omega arith, tt))) (omega arith)
      covered refl refl refl refl

initial_requests-spread_example :
    let (ends, sent) = initial_requests takes (λ i. 5 ∷ 6 ∷ []) small (9 ∷ []) 2 3 0 in
    (ends ≡ ok tt)
    × (length sent ≡ 3)
    × ((tx : ℕ) × (get_elem? (5 ∷ 6 ∷ []) (2 % 2) ≡ some tx)
        × (get_elem? sent 2 ≡ some (tx, request_for 2 (9 ∷ []) (2 % 2) 2)))
initial_requests-spread_example =
    initial_requests-spread takes (5 ∷ 6 ∷ []) small (9 ∷ []) 3 2 (omega arith) (λ tx msg. refl)
      (omega arith)

on_message-Synced_example : Synced (on_message first_byte small resends start (cancel 1 0 0 2)).1
on_message-Synced_example =
    on_message-Synced first_byte small resends start (cancel 1 0 0 2) (refl, omega arith)

reassemble_loop-two_cancels_example :
    (reassemble_loop first_byte small resends (cancel 0 0 0 2 ∷ cancel 2 1 0 2 ∷ []) start).0
    ≡ panicked
reassemble_loop-two_cancels_example =
    reassemble_loop-two_cancels first_byte small resends start 0 2 0 1 0 2 [] (λ msg. refl)
      (refl, omega arith) (omega arith) refl
