-- ===== src/Assembler/System.antt =====
-- client/src/file_assembler.rs: the two tasks of a download at the same time, with the channel between
-- them, the notification that starts the requests, and the connections. A step is a piece of code
-- between two waits of a task; a bounded channel that is full only makes its sender wait.
pub mod Safety
pub mod Starting
pub mod Finishing
use bear_torrent_final_proje.Base.{
  ℕ, ◌+◌, ◌<◌, ◌≡◌, ◌≢◌, Bool, true, false, Option, none, some, List, [], ◌∷◌, ◌++◌, Outcome, ok,
  err, panicked, length,
}
use bear_torrent_final_proje.Proto.{Bytes, InfoHash}
use bear_torrent_final_proje.Message.{Message}
use bear_torrent_final_proje.Assembler.{
  Ends, Assembly, next, finished, initial_requests, renewed, resend_loop, on_message, close,
}
use bear_torrent_final_proje.Assembler

-- Where `send_requests` is: before its wait for the start, at that wait, before the request for piece
-- `i`, in its second loop with the counter `i`, or at its end.
pub data Phase : Type 0 where
  starting waiting : Phase
  requesting resending : (i : ℕ) → Phase
  stopped : (ends : Ends) → Phase

-- The receiver of the resend channel lives as long as the task does.
abbrev pub listening : Phase → Bool
listening (stopped ends) = false
listening _ = true

-- `notify_waiters` wakes who waits, and nobody later.
abbrev pub notified : Phase → Phase
notified waiting = requesting 0
notified phase = phase

-- A download: the task of the requests, the resend channel, the channel of the connections, what the
-- task of the reassembly works on and how it has ended, and the requests that the connections got.
pub record Download (Tx : Type 0) : Type 0 where
  pub phase : Phase
  pub resends : List Message
  pub inbox : List Message
  pub assembly : Assembly Tx
  pub reassembly : Option Ends
  pub sent : List (Tx × Message)

-- `FileAssembler::new` with the connections that have subscribed.
abbrev pub begun : {Tx : Type 0} → Assembly Tx → Download Tx
begun a = record {
  phase = starting;
  resends = [];
  inbox = [];
  assembly = a;
  reassembly = none;
  sent = [];
}

-- `start_requesting`
unfoldable pub start_requesting : {Tx : Type 0} → Download Tx → Download Tx
start_requesting s = record s { phase = notified s.phase }

abbrev pub counted : ℕ → Option Message → ℕ
counted i none = i
counted i (some msg) = i + 1

module _ {Tx : Type 0} (sha1 : Bytes → Bytes) (h : InfoHash) (hash : Bytes) where
  -- After a send of the task of the requests.
  abbrev pub after_send : Download Tx → Phase → Ends × List (Tx × Message) → Download Tx
  after_send s phase (ok done, sent) = record s { phase = phase; sent = s.sent ++ sent }
  after_send s phase (err e, sent) = record s {
    phase = stopped (err e);
    resends = [];
    sent = s.sent ++ sent;
  }
  after_send s phase (panicked, sent) = record s {
    phase = stopped panicked;
    resends = [];
    sent = s.sent ++ sent;
  }

  -- One round of the first loop, and one of the second, which counts what it sends.
  unfoldable pub send_request : (Tx → Message → Bool) → ℕ → ℕ → Download Tx → Download Tx
  send_request deliver num_connections i s =
      after_send s (requesting (i + 1))
        (initial_requests deliver (λ round. s.assembly.request_txs) h hash num_connections 1 i)

  unfoldable pub send_again :
      (Tx → Message → Bool) → ℕ → Message → List Message → Download Tx → Download Tx
  send_again deliver i msg msgs s =
      after_send (record s { resends = msgs })
        (resending (counted i (renewed deliver h hash 0 msg)))
        (resend_loop deliver h hash i
          ((s.assembly.num_connections, s.assembly.request_txs, msg) ∷ []))

  -- After a round of `reassemble_loop`.
  abbrev pub after_round : Download Tx → Assembler.Step Tx → Download Tx
  after_round s (ok finished, a) =
      let (ends, a') = close sha1 h (λ msg. true) a in
      record s { assembly = a'; reassembly = some ends }
  after_round s (ok (next resend), a) = record s { assembly = a; resends = s.resends ++ resend }
  after_round s (err e, a) = record s { assembly = a; reassembly = some (err e) }
  after_round s (panicked, a) = record s { assembly = a; reassembly = some panicked }

  unfoldable pub reassemble : Message → List Message → Download Tx → Download Tx
  reassemble msg msgs s =
      after_round (record s { inbox = msgs })
        (on_message sha1 h (λ resend. listening s.phase) s.assembly msg)

  module _ (Brings : Message → Type 0) (num_connections : ℕ) where
    -- A step of one of the tasks or of a connection. `Brings` are the messages that a connection may
    -- bring, and `num_connections` is what the task of the requests has read at its begin.
    pub data Step (s : Download Tx) : Download Tx → Type 0 where
      waits : s.phase ≡ starting → Step s (record s { phase = waiting })
      requests :
          (deliver : Tx → Message → Bool) (i : ℕ)
          → s.phase ≡ requesting i
          → i < length h.pieces
          → Step s (send_request deliver num_connections i s)
      listens : s.phase ≡ requesting (length h.pieces) → Step s (record s { phase = resending 0 })
      sends_again :
          (deliver : Tx → Message → Bool) (i : ℕ) (msg : Message) (msgs : List Message)
          → s.phase ≡ resending i
          → s.resends ≡ msg ∷ msgs
          → Step s (send_again deliver i msg msgs s)
      finishes :
          (i : ℕ)
          → s.phase ≡ resending i
          → s.resends ≡ []
          → s.reassembly ≢ none
          → Step s (record s { phase = stopped (ok tt) })
      arrives : (msg : Message) → Brings msg → Step s (record s { inbox = s.inbox ++ msg ∷ [] })
      takes :
          (msg : Message) (msgs : List Message)
          → s.reassembly ≡ none
          → s.inbox ≡ msg ∷ msgs
          → Step s (reassemble msg msgs s)

    -- Any number of steps.
    pub data Steps (s : Download Tx) : Download Tx → Type 0 where
      here : Steps s s
      later : {t u : Download Tx} → Steps s t → Step t u → Steps s u

    -- Steps, and calls of `start_requesting` among them.
    pub data Runs (s : Download Tx) : Download Tx → Type 0 where
      begins : Runs s s
      steps : {t u : Download Tx} → Runs s t → Step t u → Runs s u
      starts : {t : Download Tx} → Runs s t → Runs s (start_requesting t)
