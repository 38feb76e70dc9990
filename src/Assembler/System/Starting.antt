-- ===== src/Assembler/System/Starting.antt =====
-- What the notification that starts the requests does, when it comes in time and when it does not.
use bear_torrent_final_proje.Base.{
  ℕ, zero, suc, ◌+◌, ◌<◌, ◌≡◌, ◌⊎◌, inl, inr, refl, sym, ◌∙◌, ap, Bool, true, List, [], ◌∷◌, ◌++◌,
  ok, err, panicked, length, arith, get_elem?, ◌==◌, ◌%◌, Option-cases, Bool-cases,
}
use mathlib.Core.List.{append_assoc, append-nil}
use bear_torrent_final_proje.Proto.{Bytes, InfoHash}
use bear_torrent_final_proje.Message.{Message}
use bear_torrent_final_proje.Assembler.{
  Ends, Assembly, next, finished, initial_requests, request_for, on_message, close,
}
use bear_torrent_final_proje.Assembler
use bear_torrent_final_proje.Assembler.Requests.{initial_requests-from}
use bear_torrent_final_proje.Assembler.System.{
  Phase, starting, waiting, requesting, resending, listening, Download, start_requesting, Step,
  Steps, here, later, waits, requests, listens, sends_again, finishes, arrives, takes, reassemble,
  after_round, send_request,
}

-- A task that has not started is in none of the later phases.
idle_phase : (p q : Phase) → (p ≡ starting) ⊎ (p ≡ waiting) → p ≡ q → (q ≡ starting) ⊎ (q ≡ waiting)
idle_phase p q o e = elim o [ inl a ↦ inl (sym e ∙ a) | inr a ↦ inr (sym e ∙ a) ]

not_requesting : (i : ℕ) → (requesting i ≡ starting) ⊎ (requesting i ≡ waiting) → ⊥
not_requesting i o = elim o [ inl a ↦ cc | inr a ↦ cc ]

not_resending : (i : ℕ) → (resending i ≡ starting) ⊎ (resending i ≡ waiting) → ⊥
not_resending i o = elim o [ inl a ↦ cc | inr a ↦ cc ]

module _ {Tx : Type 0} (sha1 : Bytes → Bytes) (h : InfoHash) (hash : Bytes)
    (Brings : Message → Type 0) (num_connections : ℕ) where
  abbrev pub Goes : Download Tx → Download Tx → Type 0
  Goes = Steps sha1 h hash Brings num_connections

  -- The task of the requests has not come past its wait, and has sent nothing.
  abbrev pub IsIdle : Download Tx → Type 0
  IsIdle s = ((s.phase ≡ starting) ⊎ (s.phase ≡ waiting)) × (s.sent ≡ [])

  after_round-IsIdle :
      (s : Download Tx) (r : Assembler.Step Tx) → IsIdle s → IsIdle (after_round sha1 h hash s r)
  after_round-IsIdle s (ok finished, a) v = v
  after_round-IsIdle s (ok (next resend), a) v = v
  after_round-IsIdle s (err e, a) v = v
  after_round-IsIdle s (panicked, a) v = v

  reassemble-IsIdle :
      (s : Download Tx) (msg : Message) (msgs : List Message)
      → IsIdle s
      → IsIdle (reassemble sha1 h hash msg msgs s)
  unfolding reassemble
  reassemble-IsIdle s msg msgs v =
      after_round-IsIdle (record s { inbox = msgs })
        (on_message sha1 h (λ resend. listening s.phase) s.assembly msg) v

  Step-IsIdle :
      {s t : Download Tx} → IsIdle s → Step sha1 h hash Brings num_connections s t → IsIdle t
  Step-IsIdle v (waits e) = (inr refl, v.1)
  Step-IsIdle {s} v (requests deliver i e l) =
      absurd (not_requesting i (idle_phase s.phase (requesting i) v.0 e))
  Step-IsIdle {s} v (listens e) =
      absurd (not_requesting (length h.pieces) (idle_phase s.phase _ v.0 e))
  Step-IsIdle {s} v (sends_again deliver i msg msgs e f) =
      absurd (not_resending i (idle_phase s.phase (resending i) v.0 e))
  Step-IsIdle {s} v (finishes i e f g) =
      absurd (not_resending i (idle_phase s.phase (resending i) v.0 e))
  Step-IsIdle v (arrives msg b) = v
  Step-IsIdle {s} v (takes msg msgs e i) = reassemble-IsIdle s msg msgs v

  Steps-IsIdle : {s t : Download Tx} → IsIdle s → Goes s t → IsIdle t
  Steps-IsIdle v here = v
  Steps-IsIdle v (later r st) = Step-IsIdle (Steps-IsIdle v r) st

  -- If `start_requesting` is called before the task of the requests has come to its wait, the start is
  -- lost: whatever steps follow, no connection ever gets a request, and the task does not come
  -- past its wait. The download has sent nothing before, and `start_requesting` is not called again.
  pub start_requesting-lost :
      (s t : Download Tx)
      → s.phase ≡ starting
      → s.sent ≡ []
      → Goes (start_requesting s) t
      → (t.sent ≡ []) × ((t.phase ≡ starting) ⊎ (t.phase ≡ waiting))
  unfolding start_requesting
  start_requesting-lost s t e n g =
      let (phase, sent) = Steps-IsIdle (rw e (inl refl, n)) g in (sent, phase)

  Steps-trans : {s t u : Download Tx} → Goes s t → Goes t u → Goes s u
  Steps-trans r here = r
  Steps-trans r (later q st) = later (Steps-trans r q) st

  -- The first of the requests, and the others.
  initial_requests-first :
      (deliver : Tx → Message → Bool) (txs : List Tx) (left i : ℕ) (sent : List (Tx × Message))
      → initial_requests deliver (λ round. txs) h hash num_connections (suc left) i ≡ (ok tt, sent)
      → (first rest : List (Tx × Message)) × (initial_requests deliver
            (λ round. txs)
            h
            hash
            num_connections
            1
            i
          ≡ (ok tt, first))
        × (initial_requests deliver (λ round. txs) h hash num_connections left (i + 1)
            ≡ (ok tt, rest))
        × (sent ≡ first ++ rest)
  unfolding initial_requests
  initial_requests-first deliver txs left i sent e =
      let rest = initial_requests deliver (λ round. txs) h hash num_connections left (i + 1) in
      elim (Bool-cases (num_connections == 0)) [
        | inl none_yet ↦ absurd (let k = rw none_yet at e in cc)
        | inr some_yet ↦ elim (Option-cases (get_elem? txs (i % num_connections))) [
          | inl missing ↦ absurd (let k = rw (some_yet, missing) at e in cc)
          | inr (tx, found) ↦
              let msg = request_for h.piece_length hash (i % num_connections) i in
              elim (Bool-cases (deliver tx msg)) [
                | inl takes_it ↦
                    let k : (rest.0, (tx, msg) ∷ rest.1) ≡ (ok tt, sent) =
                      rw (some_yet, found, takes_it) at e in
                    (
                      (tx, msg) ∷ [],
                      rest.1,
                      rw (some_yet, found, takes_it) refl,
                      ap (λ x. (x, rest.1)) {x = rest.0} {y = ok tt} cc,
                      cc,
                    )
                | inr refuses ↦ absurd (let k = rw (some_yet, found, refuses) at e in cc)
              ]
        ]
      ]

  sent_one :
      (s : Download Tx) (deliver : Tx → Message → Bool) (i : ℕ) (first : List (Tx × Message))
      → initial_requests deliver (λ round. s.assembly.request_txs) h hash num_connections 1 i
        ≡ (ok tt, first)
      → send_request sha1 h hash deliver num_connections i s
        ≡ record s { phase = requesting (i + 1); sent = s.sent ++ first }
  unfolding send_request
  sent_one s deliver i first e = rw e refl

  requests_left :
      (deliver : Tx → Message → Bool) (left i : ℕ) (s : Download Tx) (sent : List (Tx × Message))
      → s.phase ≡ requesting i
      → i + left ≡ length h.pieces
      → initial_requests deliver (λ round. s.assembly.request_txs) h hash num_connections left i
        ≡ (ok tt, sent)
      → Goes s (record s { phase = resending 0; sent = s.sent ++ sent })
  requests_left deliver zero i s sent e l r =
      let none_sent : sent ≡ [] = unfold initial_requests in cc in
      let last : i ≡ length h.pieces = omega (arith, l) in
      rw (none_sent, append-nil s.sent) (later here (listens (e ∙ ap requesting last)))
  requests_left deliver (suc left) i s sent e l r =
      let (first, rest, now, others, both) =
        initial_requests-first deliver s.assembly.request_txs left i sent r in
      let s' : Download Tx = record s { phase = requesting (i + 1); sent = s.sent ++ first } in
      let sending : Step sha1 h hash Brings num_connections s
          (send_request sha1 h hash deliver num_connections i s) =
        requests deliver i e (omega (arith, l)) in
      let step : Step sha1 h hash Brings num_connections s s' =
        rw (sent_one s deliver i first now) at sending in
      let more = requests_left deliver left (i + 1) s' rest refl (omega (arith, l)) others in
      Steps-trans (later here step) (rw (both, sym (append_assoc s.sent first rest)) more)

  -- If `start_requesting` is called while the task of the requests waits, its steps send every
  -- request of the file, over a connection each, as `initial_requests` does, and it then listens
  -- for what is to be sent again. There is at least one connection, and each takes its requests.
  pub start_requesting-initial_requests :
      (s : Download Tx) (deliver : Tx → Message → Bool)
      → s.phase ≡ waiting
      → num_connections ≡ length s.assembly.request_txs
      → 0 < num_connections
      → ((tx : Tx) (msg : Message) → deliver tx msg ≡ true)
      → Goes (start_requesting s) (record s {
        phase = resending 0;
        sent =
            s.sent
            ++ (initial_requests deliver
                (λ round. s.assembly.request_txs)
                h
                hash
                num_connections
                (length h.pieces)
                0).1;
      })
  unfolding start_requesting
  start_requesting-initial_requests s deliver e n some_tx all =
      let txs = s.assembly.request_txs in
      let run =
        initial_requests deliver (λ round. txs) h hash num_connections (length h.pieces) 0 in
      let ends : run.0 ≡ ok tt =
        rw n
          (initial_requests-from deliver txs h hash (length h.pieces) 0 (omega (arith, n, some_tx))
            all).0 in
      let whole : run ≡ (ok tt, run.1) = ap (λ x. (x, run.1)) ends in
      rw e (
        requests_left deliver (length h.pieces) 0 (record s { phase = requesting 0 }) run.1 refl
          (omega arith) whole)
