-- ===== src/Turn.antt =====
-- server/src/turn.rs: the relay service. A sender of `tokio` is an opaque value; `register` creates
-- one for each call. The two tasks of a session meet at a barrier for two.
pub mod Slots
pub mod Relay
use Prim.Native.String.{String}
use bear_torrent_final_proje.Base.{
  ℕ, ◌+◌, ◌++◌, leb, panicked, ok_or, Bool, true, false, Option, none, some, List, [], ◌∷◌, Outcome,
  ok, err, ◌>>=◌, if◌then◌else◌, eqb, bytes_eq,
}
use bear_torrent_final_proje.Base.Dict.{Dict, lookup, insert}
use bear_torrent_final_proje.Proto.{Text, Body, turn_piece, turn_request, TurnPacket}
use bear_torrent_final_proje.Server.State.{
  Status, invalid_argument, internal, resource_exhausted, Response,
}

pub data Role : Type 0 where
  seeder_role leecher_role : Role

-- `if req.is_seeder { Role::Seeder } else { Role::Leecher }`
abbrev pub role_of : Bool → Role
role_of is_seeder = if is_seeder then seeder_role else leecher_role

-- `arrived` is what the session's `Barrier::new(2)` counts: the tasks that have called `wait`.
pub record Session (Tx : Type 0) : Type 0 where
  pub seeder : Option Tx
  pub leecher : Option Tx
  pub arrived : ℕ

module _ {Tx : Type 0} where
  -- `Session::new`
  abbrev pub new_session : Session Tx
  new_session = record { seeder = none; leecher = none; arrived = 0 }

  unfoldable pub add_seeder : Session Tx → Tx → Response (Session Tx)
  add_seeder s tx = elim s.seeder [
    | some old ↦ err (resource_exhausted "Seeder already registered")
    | none ↦ ok (record s { seeder = some tx })
  ]

  unfoldable pub add_leecher : Session Tx → Tx → Response (Session Tx)
  add_leecher s tx = elim s.leecher [
    | some old ↦ err (resource_exhausted "Leecher already registered")
    | none ↦ ok (record s { leecher = some tx })
  ]

  -- The sender, if any, to which `forward` hands the packet.
  unfoldable pub route : Session Tx → Option Body → Option Tx
  route s none = none
  route s (some (turn_request hash index)) = s.seeder
  route s (some (turn_piece payload index)) = s.leecher

  -- The packets that `forward` sends; the result of the send is dropped.
  unfoldable pub forward : Session Tx → TurnPacket → List (Tx × TurnPacket)
  unfolding route
  forward s pkt = elim (route s pkt.body) [ none ↦ [] | some tx ↦ (tx, pkt) ∷ [] ]

  -- `entry(session_id).or_insert_with(…)`
  abbrev pub or_new_session : Option (Session Tx) → Session Tx
  or_new_session none = new_session
  or_new_session (some s) = s

  abbrev pub fill : Role → Session Tx → Tx → Response (Session Tx)
  fill seeder_role s tx = add_seeder s tx
  fill leecher_role s tx = add_leecher s tx

  -- `barrier.wait()` has returned.
  abbrev pub released : Session Tx → Bool
  released s = leb 2 s.arrived

  -- `register_for_session` up to its barrier. On an error a new entry stays in the map.
  abbrev pub store_session :
      Dict Text (Session Tx)
      → Text
      → Session Tx
      → Response (Session Tx)
      → Response (Unit {0}) × Dict Text (Session Tx)
  store_session all session_id old (ok s) =
      (ok tt, insert session_id (record s { arrived = s.arrived + 1 }) all)
  store_session all session_id old (err e) = (err e, insert session_id old all)
  store_session all session_id old panicked = (panicked, all)

  unfoldable pub register_for_session :
      Dict Text (Session Tx) → Text → Role → Tx → Response (Unit {0}) × Dict Text (Session Tx)
  register_for_session all session_id role tx =
      let old = or_new_session (lookup session_id all) in
      store_session all session_id old (fill role old tx)

  -- `register`
  unfoldable pub register :
      Dict Text (Session Tx) → Text → Bool → Tx → Response (Unit {0}) × Dict Text (Session Tx)
  register all session_id is_seeder tx = register_for_session all session_id (role_of is_seeder) tx

  -- `forward` in the session of the stream, if there is one.
  abbrev pub forward_in : Option (Session Tx) → TurnPacket → List (Tx × TurnPacket)
  forward_in none pkt = []
  forward_in (some s) pkt = forward s pkt

-- `extract_header`, over what the metadata holds as text.
abbrev pub extract_header : (String → Option Text) → String → Response Text
extract_header md key = ok_or (md key) (invalid_argument "missing metadata")

-- An item of the inbound stream of `send`: a packet, with the sessions as they are when the loop reads
-- it (other calls may change them between two packets), or an error that ends the call.
pub data Inbound (Tx : Type 0) : Type 0 where
  packet : Dict Text (Session Tx) → TurnPacket → Inbound Tx
  broken : Inbound Tx

module _ {Tx : Type 0} where
  -- The loop of `send`: the reply and what was forwarded.
  unfoldable pub relay : Text → List (Inbound Tx) → Response (Unit {0}) × List (Tx × TurnPacket)
  relay session_id [] = (ok tt, [])
  relay session_id (broken ∷ items) = (err (internal "error reading inbound TURN packet"), [])
  relay session_id (packet all pkt ∷ items) =
      let (reply, rest) = relay session_id items in
      (reply, forward_in (lookup session_id all) pkt ++ rest)

  -- Both headers must be there; the role is not used further.
  abbrev pub relay_if :
      Response Text → List (Inbound Tx) → Response (Unit {0}) × List (Tx × TurnPacket)
  relay_if (ok session_id) items = relay session_id items
  relay_if (err e) items = (err e, [])
  relay_if panicked items = (panicked, [])

  unfoldable pub send :
      (String → Option Text) → List (Inbound Tx) → Response (Unit {0}) × List (Tx × TurnPacket)
  send md items =
      relay_if
        (do
          session_id ← extract_header md "x-session-id"
          _ ← extract_header md "x-role"
          ok session_id)
        items
