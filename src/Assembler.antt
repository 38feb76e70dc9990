-- ===== src/Assembler.antt =====
-- client/src/file_assembler.rs: the two tasks of a download. `send_requests` spreads the requests
-- over the connections; `reassemble_loop` takes what the connections bring back. A connection's
-- request channel is an opaque sender, and `deliver` answers whether a send reaches its receiver.
pub mod Requests
pub mod Rounds
pub mod Reassembly
pub mod Cancels
pub mod Setup
pub mod Transfer
pub mod Sharing
pub mod OverRelay
pub mod System
use Prim.Native.String.{String}
use bear_torrent_final_proje.Base.{
  ℕ, zero, suc, ◌+◌, ◌-◌, ◌*◌, ◌%◌, Bool, true, false, Option, none, some, List, [], ◌∷◌, ◌++◌,
  Outcome, ok, err, panicked, if◌then◌else◌, ltb, ◌==◌, length, get_elem?, remove_at, eqb, bytes_eq,
}
use bear_torrent_final_proje.Base.Words.{u32_mod, u64_mod}
use bear_torrent_final_proje.Proto.{Bytes, InfoHash}
use bear_torrent_final_proje.Message.{Message, request, piece, cancel}
use bear_torrent_final_proje.FileHandler.Disk.{Disk, IoError, not_found, other}
use bear_torrent_final_proje.FileHandler.Pieces.{hash_piece_data}
use bear_torrent_final_proje.FileHandler.Store.{write_piece_to_part, is_file_complete, build_file}

-- How a task ends: `Ok(())`, an error or a panic.
abbrev pub Ends : Type 0
Ends = Outcome IoError (Unit {0})

-- The request for piece `i` to the connection `seeder`.
unfoldable pub request_for : ℕ → Bytes → ℕ → ℕ → Message
request_for piece_length hash seeder i =
    request (seeder % u32_mod) (i % u32_mod) (piece_length * (i % u32_mod) % u32_mod) piece_length
      hash

module _ {Tx : Type 0} (deliver : Tx → Message → Bool) where
  abbrev sent_then : Tx → Message → Ends × List (Tx × Message) → Ends × List (Tx × Message)
  sent_then tx msg (ends, rest) =
      if deliver tx msg then (ends, (tx, msg) ∷ rest) else (err (other "channel closed"), [])

  -- `request_txs.get(…)` and `send(…)`, and then the rest of the loop.
  abbrev pub send_to : Option Tx → Message → Ends × List (Tx × Message) → Ends × List (Tx × Message)
  send_to none msg rest = (err (other "Could not retrieve connection rx"), [])
  send_to (some tx) msg rest = sent_then tx msg rest

  -- The initial requests of `send_requests`, from piece `i` on. `txs i` are the senders of the
  -- assembler when round `i` reads them. A remainder by zero is a panic.
  unfoldable pub initial_requests :
      (ℕ → List Tx) → InfoHash → Bytes → ℕ → ℕ → ℕ → Ends × List (Tx × Message)
  initial_requests txs h hash num_connections zero i = (ok tt, [])
  initial_requests txs h hash num_connections (suc pieces) i =
      let rest = initial_requests txs h hash num_connections pieces (i + 1) in
      let seeder = i % num_connections in
      if num_connections == 0
      then (panicked, [])
      else send_to (get_elem? (txs i) seeder) (request_for h.piece_length hash seeder i) rest

  -- The message that the resend loop makes of what `reassemble_loop` hands it.
  unfoldable pub renewed : InfoHash → Bytes → ℕ → Message → Option Message
  renewed h hash new_seeder (cancel seeder index begin length) =
      some (request new_seeder index begin length hash)
  renewed h hash new_seeder (piece index block) =
      some (request new_seeder index (h.piece_length * index % u32_mod) h.piece_length hash)
  renewed h hash new_seeder (request seeder index begin length hash') = none

  -- The resend loop. Each message comes with the connections that the loop finds when it has it.
  unfoldable pub resend_loop :
      InfoHash → Bytes → ℕ → List (ℕ × List Tx × Message) → Ends × List (Tx × Message)
  resend_loop h hash i [] = (ok tt, [])
  resend_loop h hash i ((num_connections, txs, msg) ∷ items) =
      let new_seeder = i % num_connections % u32_mod in
      let skip = resend_loop h hash i items in
      let next = resend_loop h hash (i + 1) items in
      if num_connections == 0 then (panicked, []) else elim (renewed h hash new_seeder msg) [
        | none ↦ skip
        | some request_msg ↦ send_to (get_elem? txs new_seeder) request_msg next
      ]

-- What `reassemble_loop` works on: the disk and the assembler's connections.
pub record Assembly (Tx : Type 0) : Type 0 where
  pub disk : Disk
  pub request_txs : List Tx
  pub num_connections : ℕ

-- One round of the loop: it goes on, with what it has handed to the resend channel, or breaks.
pub data Round : Type 0 where
  next : List Message → Round
  finished : Round

-- What one round gives, and the state after it.
abbrev pub Step : Type 0 → Type 0
Step Tx = Outcome IoError Round × Assembly Tx

-- `resends` answers whether the resend channel takes a message.
module _ {Tx : Type 0} (sha1 : Bytes → Bytes) (h : InfoHash) (resends : Message → Bool) where
  abbrev pub after_check : Assembly Tx → Outcome IoError Bool × Disk → Step Tx
  after_check s (ok true, d) = (ok finished, record s { disk = d })
  after_check s (ok false, d) = (ok (next []), record s { disk = d })
  after_check s (err e, d) = (err e, record s { disk = d })
  after_check s (panicked, d) = (panicked, record s { disk = d })

  abbrev pub after_write : Assembly Tx → Outcome IoError (Unit {0}) × Disk → Step Tx
  after_write s (ok u, d) = after_check s (is_file_complete h d)
  after_write s (err e, d) = (err e, record s { disk = d })
  after_write s (panicked, d) = (panicked, record s { disk = d })

  -- `write_piece_to_part`, and the test whether the file is complete.
  unfoldable pub accept : Assembly Tx → ℕ → Bytes → Step Tx
  accept s index block = after_write s (write_piece_to_part h block index s.disk)

  -- `resend_tx.send(…)`, and the next round.
  abbrev pub ask_again : Assembly Tx → Message → Step Tx
  ask_again s msg =
      if resends msg then (ok (next (msg ∷ [])), s) else (err (other "channel closed"), s)

  -- A full piece is compared with the hash of its index.
  unfoldable pub verify : Assembly Tx → ℕ → Bytes → Option Bytes → Step Tx
  verify s index block none = (err (other "Could not retrieve piece hash"), s)
  verify s index block (some expected) =
      if length expected == 20
      then if eqb (hash_piece_data sha1 block) expected
        then accept s index block
        else ask_again s (piece index block)
      else (err (other "Could not convert piece hash"), s)

  unfoldable pub on_piece : Assembly Tx → ℕ → Bytes → Step Tx
  on_piece s index block =
      if length block == h.piece_length
      then verify s index block (get_elem? h.pieces index)
      else accept s index block

  -- `Vec::remove` panics out of range; `num_connections -= 1` wraps at zero.
  unfoldable pub on_cancel : Assembly Tx → ℕ → ℕ → ℕ → ℕ → Step Tx
  on_cancel s seeder index begin len =
      let left = (s.num_connections + u64_mod - 1) % u64_mod in
      let s' = record s { request_txs = remove_at s.request_txs seeder; num_connections = left } in
      if ltb seeder (length s.request_txs)
      then if left == 0
        then (err (other "Failed to Retrieve File"), s')
        else ask_again s' (cancel seeder index begin len)
      else (panicked, s)

  unfoldable pub on_message : Assembly Tx → Message → Step Tx
  on_message s (piece index block) = on_piece s index block
  on_message s (cancel seeder index begin len) = on_cancel s seeder index begin len
  on_message s (request seeder index begin len hash) = (err (other "wrong message type"), s)

  -- After the loop: all senders are dropped and the file is built.
  abbrev pub close : Assembly Tx → Ends × Assembly Tx
  close s = let (r, d) = build_file h s.disk in (r, record s { disk = d; request_txs = [] })

  -- `reassemble_loop` over the messages that come, with what it asked to be sent again. The end of the
  -- list is a closed channel.
  abbrev pub proceed :
      Step Tx
      → (Assembly Tx → Ends × List Message × Assembly Tx)
      → Ends × List Message × Assembly Tx
  proceed (ok finished, s) loop = let (r, s') = close s in (r, [], s')
  proceed (ok (next resend), s) loop = let (r, more, s') = loop s in (r, resend ++ more, s')
  proceed (err e, s) loop = (err e, [], s)
  proceed (panicked, s) loop = (panicked, [], s)

  unfoldable pub reassemble_loop : List Message → Assembly Tx → Ends × List Message × Assembly Tx
  reassemble_loop [] s = (err (other "failed to get message"), [], s)
  reassemble_loop (msg ∷ msgs) s = proceed (on_message s msg) (λ s'. reassemble_loop msgs s')
