-- ===== src/Tests/Systems.antt =====
-- Witnesses for the steps of a download.
use bear_torrent_final_proje.Base.{◌≡◌, ◌⊎◌, refl, ℕ, true, [], ◌∷◌, some, ok, arith, list_beq}
use bear_torrent_final_proje.Base.Dict.{lookup}
use bear_torrent_final_proje.FileHandler.Disk.{content_of, has_slash, has_dir}
use bear_torrent_final_proje.FileHandler.Store.{file_path}
use bear_torrent_final_proje.Assembler.{initial_requests}
use bear_torrent_final_proje.Message.{cancel}
use bear_torrent_final_proje.Assembler.System.{
  Download, begun, waiting, starting, resending, start_requesting, Steps, here, later, waits, Runs,
  begins, steps, arrives, takes, reassemble,
}
use bear_torrent_final_proje.Assembler.System.Safety.{MayBring, IsSound, Runs-IsSound}
use bear_torrent_final_proje.Assembler.System.Starting.{
  Goes, start_requesting-lost, start_requesting-initial_requests,
}
use bear_torrent_final_proje.Assembler.System.Finishing.{Answers, start_requesting-Steps}
use bear_torrent_final_proje.Tests.Sample.{first_byte, three_bytes, small, small-IsCut}
use bear_torrent_final_proje.Tests.Download.{start, small-IsHashed}

-- The download before its tasks run, and when the task of the requests waits.
abbrev fresh_one : Download ℕ
fresh_one = begun start

abbrev waiting_one : Download ℕ
waiting_one = record fresh_one { phase = waiting }

abbrev RunsHere : Download ℕ → Download ℕ → Type 0
RunsHere = Runs first_byte small [] (MayBring first_byte small three_bytes) 3

comes_to_wait : RunsHere fresh_one waiting_one
comes_to_wait = steps begins (waits refl)

-- A cancel comes, and the task of the reassembly takes it.
abbrev cancelled : Download ℕ
cancelled =
    reassemble first_byte small [] (cancel 1 0 0 2) []
      (record waiting_one { inbox = cancel 1 0 0 2 ∷ [] })

comes_to_cancel : RunsHere fresh_one cancelled
comes_to_cancel =
    steps (steps comes_to_wait (arrives (cancel 1 0 0 2) tt)) (takes (cancel 1 0 0 2) [] refl refl)

Runs-IsSound_example :
    IsSound first_byte small three_bytes cancelled.reassembly cancelled.assembly.disk
unfolding lookup has_slash has_dir list_beq
Runs-IsSound_example =
    Runs-IsSound first_byte small three_bytes refl small-IsCut small-IsHashed [] 3 start cancelled
      (omega arith) refl refl refl refl comes_to_cancel

start_requesting-Steps_example :
    (u t : Download ℕ) × Steps first_byte small [] (λ msg. ⊥) 3 (start_requesting waiting_one) u
    × Steps first_byte small [] (Answers first_byte small three_bytes [] u.sent) 3 u t
    × (t.reassembly ≡ some (ok tt))
    × (content_of t.assembly.disk (file_path (97 ∷ [])) ≡ some three_bytes)
unfolding lookup has_slash has_dir list_beq
start_requesting-Steps_example =
    start_requesting-Steps first_byte small three_bytes refl small-IsCut small-IsHashed [] 3 start
      waiting_one (λ tx msg. true) (omega arith) refl refl refl refl comes_to_wait refl refl refl
      refl refl (omega arith) (λ tx msg. refl)

start_requesting-lost_example :
    (waiting_one.sent ≡ []) × ((waiting_one.phase ≡ starting) ⊎ (waiting_one.phase ≡ waiting))
unfolding start_requesting
start_requesting-lost_example =
    start_requesting-lost first_byte small [] (MayBring first_byte small three_bytes) 3 fresh_one
      waiting_one refl refl (later here (waits refl))

start_requesting-initial_requests_example :
    Goes first_byte small []
      (MayBring first_byte small three_bytes)
      3
      (start_requesting waiting_one)
      (record waiting_one {
        phase = resending 0;
        sent = (initial_requests (λ tx msg. true) (λ round. 5 ∷ 6 ∷ 7 ∷ []) small [] 3 2 0).1;
      })
start_requesting-initial_requests_example =
    start_requesting-initial_requests first_byte small [] (MayBring first_byte small three_bytes) 3
      waiting_one (λ tx msg. true) refl refl (omega arith) (λ tx msg. refl)
