-- ===== src/PeerConnection.antt =====
-- client/src/peer_connection.rs: how two peers come to a connection: over the local network, then
-- across NAT by hole punching, then over the relay. What the network and the server answer comes in as
-- a record. A connection is used for one call, so the sockets that it takes are not put back.
pub mod Punching
pub mod Routes
use bear_torrent_final_proje.Base.{
  ℕ, zero, suc, ◌+◌, Bool, true, false, Option, none, some, List, Outcome, ok, err, panicked, ◌>>=◌,
  ◌>>◌, assert, if◌then◌else◌, leb, ◌==◌, ◌&&◌,
}
use bear_torrent_final_proje.Base.Words.{to_be_bytes}
use bear_torrent_final_proje.Proto.{Text, Bytes, PeerId, CertMessage, ConnectionIds}
use bear_torrent_final_proje.FileHandler.Disk.{IoError, other}
use bear_torrent_final_proje.Quic.Endpoints.{
  Attempt, quic_listener, connect_to_peer_server, create_quic_server, create_quic_client,
}
use bear_torrent_final_proje.TurnFallback.{dotted}

-- `PeerConnection`: its own address, and which sockets it still has.
pub record PeerConnection : Type 0 where
  pub self_addr : PeerId
  pub pub_socket : Bool
  pub priv_socket : Bool

pub data Route : Type 0 where
  over_lan across_nat over_turn : Route

-- How a side of a connection goes: it is through on a route, or stays in one for ever.
pub data Course : Type 0 where
  done stays : Route → Course

-- How an attempt on a route goes.
pub data Meeting : Type 0 where
  met missed hangs : Meeting

-- The answers from outside, for the socket of each route. `trigger` is whether the call for the hole
-- punch trigger has come back, with a reply or an error, within five seconds. `heard` is the
-- millisecond, from the begin of the hole punching, in which the peer's punch string comes, if it comes
-- before an error of the socket; `clock` is that in which a sending round looks at its token. `turn` is
-- `none` if the relay's loop never returns.
pub record Network (E : Type 0) : Type 0 where
  pub generate : Text → Outcome IoError Bytes
  pub send_cert : Route → CertMessage → Outcome IoError (Unit {0})
  pub get_cert : Route → PeerId → Outcome IoError Bytes
  pub endpoint : Route → Bytes → Outcome IoError E
  pub meets : Route → E → Attempt
  pub trigger : Bool
  pub heard : Option ℕ
  pub clock : ℕ → ℕ
  pub send_file_request : ConnectionIds → Outcome IoError (Unit {0})
  pub init_punch : PeerId → Outcome IoError (Unit {0})
  pub turn : Option (Outcome IoError (Unit {0}))

-- The reading task has five seconds for the punch string.
abbrev pub read_in_time : ℕ → Bool
read_in_time t = leb t 5000

-- The reading task ends well only by hearing the punch string; else it runs into its timeout.
abbrev pub read_task : Option ℕ → Outcome IoError (Unit {0})
read_task none = err (other "hole punch timed out")
read_task (some t) = if read_in_time t then ok tt else err (other "hole punch timed out")

-- `token.is_cancelled()` in round `i`: the reading task cancels once it has heard the punch string, if
-- its time is not over by then.
abbrev pub is_cancelled : (ℕ → ℕ) → Option ℕ → ℕ → Bool
is_cancelled clock none i = false
is_cancelled clock (some t) i = read_in_time t && leb t (clock i)

-- The sending task, with the rounds that are left.
unfoldable pub send_task : (ℕ → ℕ) → Option ℕ → ℕ → ℕ → Outcome IoError (Unit {0})
send_task clock heard zero i = err (other "send task finished without succeeding")
send_task clock heard (suc rounds) i =
    let rest = send_task clock heard rounds (i + 1) in
    if is_cancelled clock heard i then ok tt else rest

-- `hole_punch`, from `pub_socket.take().unwrap()` on.
unfoldable pub hole_punch : PeerConnection → (ℕ → ℕ) → Option ℕ → Outcome IoError (Unit {0})
hole_punch c clock heard = do assert c.pub_socket; send_task clock heard 200 0; read_task heard

-- `match … { Ok(()) => return Ok(()), Err(e) => … }`, on what has returned.
abbrev pub meeting_of : Option (Outcome IoError (Unit {0})) → Outcome IoError Meeting
meeting_of none = ok hangs
meeting_of (some (ok u)) = ok met
meeting_of (some (err e)) = ok missed
meeting_of (some panicked) = panicked

-- `if let Ok(socket) = self.hole_punch(…).await`
abbrev pub if_punched :
    Outcome IoError (Unit {0}) → Outcome IoError Meeting → Outcome IoError Meeting
if_punched (ok u) rest = rest
if_punched (err e) rest = ok missed
if_punched panicked rest = panicked

-- `return Ok(())` where a route has succeeded, and the next attempt where not.
abbrev pub or_next : Meeting → Route → Outcome IoError Course → Outcome IoError Course
or_next met route rest = ok (done route)
or_next missed route rest = rest
or_next hangs route rest = ok (stays route)

-- The fallback on the relay, at the end.
abbrev pub over_relay : Option (Outcome IoError (Unit {0})) → Outcome IoError Course
over_relay none = ok (stays over_turn)
over_relay (some (ok u)) = ok (done over_turn)
over_relay (some (err e)) = err e
over_relay (some panicked) = panicked

module _ {E : Type 0} (net : Network E) (c : PeerConnection) (peer : PeerId) where
  -- A server endpoint on the route's socket, and the wait for the peer.
  abbrev pub listen_on : Route → ℕ → Outcome IoError Meeting
  listen_on route ip = do
    e ←
        create_quic_server (net.endpoint route) (net.generate (dotted (to_be_bytes ip)))
          (net.send_cert route) peer
    meeting_of (quic_listener (net.meets route e))

  -- A client endpoint on the route's socket, and the attempt to connect.
  abbrev pub connect_on : Route → Outcome IoError Meeting
  connect_on route = do
    e ← create_quic_client (net.endpoint route) (net.get_cert route) c.self_addr
    meeting_of (some (connect_to_peer_server (net.meets route e)))

  abbrev pub same_lan : Bool
  same_lan = c.self_addr.ipaddr == peer.ipaddr

  abbrev pub seeder_over_lan : Outcome IoError Meeting
  seeder_over_lan =
      if same_lan
      then (do assert c.priv_socket; listen_on over_lan c.self_addr.priv_ipaddr)
      else ok missed

  abbrev pub seeder_across_nat : Outcome IoError Meeting
  seeder_across_nat =
      if net.trigger
      then if_punched (hole_punch c net.clock net.heard) (listen_on across_nat c.self_addr.ipaddr)
      else ok missed

  -- `seeder_connection`, with the route that it ends or stays on.
  unfoldable pub seeder_connection : Outcome IoError Course
  seeder_connection = do
    lan ← seeder_over_lan
    or_next lan over_lan (do nat ← seeder_across_nat; or_next nat across_nat (over_relay net.turn))

  abbrev pub requester_over_lan : Outcome IoError Meeting
  requester_over_lan =
      if same_lan then (do assert c.priv_socket; connect_on over_lan) else ok missed

  abbrev pub requester_across_nat : Outcome IoError Meeting
  requester_across_nat =
      if_punched (net.init_punch peer)
        (if_punched (hole_punch c net.clock net.heard) (connect_on across_nat))

  -- `requester_connection`
  unfoldable pub requester_connection : Outcome IoError Course
  requester_connection = do
    net.send_file_request (record { connection_peer = some peer; self_id = some c.self_addr })
    lan ← requester_over_lan
    or_next lan over_lan
        (do nat ← requester_across_nat; or_next nat across_nat (over_relay net.turn))
