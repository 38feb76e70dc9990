-- ===== src/Quic.antt =====
-- client/src/quic_p2p_sender.rs: the two sides of a QUIC connection. Of the crate `quinn` the code
-- relies on this: a bidirectional stream brings the bytes that the other side wrote to it, in order,
-- or fails; a stream that cannot be opened or accepted is an error of the connection.
pub mod Exchange
pub mod Failures
pub mod Endpoints
use Prim.Native.String.{String}
use bear_torrent_final_proje.Base.{
  ℕ, ◌+◌, Bool, true, false, Option, none, some, List, [], ◌∷◌, ◌++◌, Outcome, ok, err, panicked,
  ◌>>=◌, if◌then◌else◌, leb, length, take, ok_or,
}
use bear_torrent_final_proje.Proto.{Bytes, InfoHash}
use bear_torrent_final_proje.Message.{Message, request, piece, cancel, encode, decode, Run}
use bear_torrent_final_proje.FileHandler.Disk.{Disk, IoError, other}
use bear_torrent_final_proje.FileHandler.Store.{read_piece_from_file}

-- A stream that the seeder accepts: what the peer writes to it, and whether the reply can be written.
pub record Stream : Type 0 where
  pub arrived : Bytes
  pub takes : Bool

-- `quinn::ConnectionError`, as `send_data` tells its values apart.
pub data ConnectionError : Type 0 where
  application_closed : ConnectionError
  lost : String → ConnectionError

-- What `select!` brings. The end of the events is `conn.closed()`.
pub data Event : Type 0 where
  accepted : Stream → Event
  failed : ConnectionError → Event

-- `Message::decode(…)` with no message read as an error.
abbrev pub decoded : String → Run (Option Message) → Outcome IoError Message
decoded text (ok none) = err (other text)
decoded text (ok (some msg)) = ok msg
decoded text (err e) = absurd e
decoded text panicked = panicked

-- `recv.read_exact` of 41 bytes.
unfoldable pub read_request : Bytes → Outcome IoError Bytes
read_request arrived =
    if leb 41 (length arrived) then ok (take 41 arrived) else err (other "stream finished early")

module _ (file_map : Bytes → Option InfoHash) where
  -- The piece or, where the read fails, a cancel with the fields of the request.
  abbrev piece_or_cancel :
      ℕ → Message → Outcome IoError Bytes × Disk → Outcome IoError Message × Disk
  piece_or_cancel index refusal (ok bytes, d) = (ok (piece index bytes), d)
  piece_or_cancel index refusal (err e, d) = (ok refusal, d)
  piece_or_cancel index refusal (panicked, d) = (panicked, d)

  abbrev look_up : Option InfoHash → ℕ → Message → Disk → Outcome IoError Message × Disk
  look_up none index refusal d = (ok refusal, d)
  look_up (some info_hash) index refusal d =
      piece_or_cancel index refusal (read_piece_from_file info_hash index d)

  -- The reply to what was decoded; only a request is answered.
  unfoldable pub reply_to : Outcome IoError Message → Disk → Outcome IoError Message × Disk
  reply_to (ok (request seeder index begin len hash)) d =
      look_up (file_map hash) index (cancel seeder index begin len) d
  reply_to (ok (piece index block)) d = (err (other "failed to decode request"), d)
  reply_to (ok (cancel seeder index begin len)) d = (err (other "failed to decode request"), d)
  reply_to (err e) d = (err e, d)
  reply_to panicked d = (panicked, d)

  -- One accepted stream, up to the reply.
  unfoldable pub serve_stream : Bytes → Disk → Outcome IoError Message × Disk
  serve_stream arrived d =
      reply_to (do bytes ← read_request arrived; decoded "failed to decode request" (decode bytes))
        d

  -- `send.write_all(…)`, and the loop goes on.
  abbrev pub sent_then :
      Bool
      → Outcome IoError Message × Disk
      → (Disk → Outcome IoError (Unit {0}) × List Bytes × Disk)
      → Outcome IoError (Unit {0}) × List Bytes × Disk
  sent_then true (ok msg, d) loop = let (r, sent, d') = loop d in (r, encode msg ∷ sent, d')
  sent_then false (ok msg, d) loop = (err (other "write failed"), [], d)
  sent_then takes (err e, d) loop = (err e, [], d)
  sent_then takes (panicked, d) loop = (panicked, [], d)

  -- The seeder's loop: how it ends, the replies, and the disk.
  unfoldable pub send_data : List Event → Disk → Outcome IoError (Unit {0}) × List Bytes × Disk
  send_data [] d = (ok tt, [], d)
  send_data (failed application_closed ∷ events) d = (ok tt, [], d)
  send_data (failed (lost text) ∷ events) d = (err (other text), [], d)
  send_data (accepted s ∷ events) d =
      sent_then s.takes (serve_stream s.arrived d) (λ d'. send_data events d')

-- What the requester's connection does for one request: a stream that cannot be opened, or one that is
-- opened, with whether the request can be written and what the peer wrote back before it finished.
pub data Link : Type 0 where
  refused : Link
  opened : (writes : Bool) (reply : Option Bytes) → Link

-- `recv.read_to_end(length as usize + 9)`
unfoldable pub read_reply : ℕ → Option Bytes → Outcome IoError Bytes
read_reply len none = err (other "connection lost")
read_reply len (some bytes) =
    if leb (length bytes) (len + 9) then ok bytes else err (other "stream too long")

module _ (deliver : Message → Bool) where
  -- The reading task: how it ends, and what it has handed to the assembler.
  abbrev pub handed : Outcome IoError Message → Outcome IoError (Unit {0}) × List Message
  handed (ok msg) = if deliver msg then (ok tt, msg ∷ []) else (err (other "channel closed"), [])
  handed (err e) = (err e, [])
  handed panicked = (panicked, [])

  unfoldable pub read_task : ℕ → Option Bytes → Outcome IoError (Unit {0}) × List Message
  unfolding read_reply
  read_task len reply =
      handed (do bytes ← read_reply len reply; decoded "failed to decode message" (decode bytes))

  -- Once the task has ended: its error is printed, its panic ends the loop; so does a failed write.
  abbrev pub joined :
      Bool
      → Outcome IoError (Unit {0}) × List Message
      → Outcome IoError (Unit {0}) × List Message
      → Outcome IoError (Unit {0}) × List Message
  joined false (task, msgs) rest = (err (other "write failed"), msgs)
  joined true (ok u, msgs) (r, more) = (r, msgs ++ more)
  joined true (err e, msgs) (r, more) = (r, msgs ++ more)
  joined true (panicked, msgs) rest = (err (other "task panicked"), msgs)

  -- `conn_tx.send(cancel_req).await?`
  abbrev pub passed_on :
      Message
      → Outcome IoError (Unit {0}) × List Message
      → Outcome IoError (Unit {0}) × List Message
  passed_on msg (r, more) =
      if deliver msg then (r, msg ∷ more) else (err (other "channel closed"), [])

  -- The requester's loop, over the requests that it takes from its channel: how it ends, and what it
  -- hands to the assembler. The end of the list is the closed channel.
  unfoldable pub recv_data : List (Message × Link) → Outcome IoError (Unit {0}) × List Message
  recv_data [] = (ok tt, [])
  recv_data ((request seeder index begin len hash, refused) ∷ items) =
      passed_on (cancel seeder index begin len) (recv_data items)
  recv_data ((piece index block, refused) ∷ items) = recv_data items
  recv_data ((cancel seeder index begin len, refused) ∷ items) = recv_data items
  recv_data ((request seeder index begin len hash, opened writes reply) ∷ items) =
      joined writes (read_task len reply) (recv_data items)
  recv_data ((piece index block, opened writes reply) ∷ items) =
      (err (other "length not found"), [])
  recv_data ((cancel seeder index begin len, opened writes reply) ∷ items) =
      (err (other "length not found"), [])
