-- ===== src/TurnFallback/Sides.antt =====
-- client/src/turn_fallback.rs: `start_seeding` and `start_leeching`. The RPC client is a parameter:
-- `register` gives the inbound stream, and the call of `send` is a value with its metadata and what
-- its stream carries. `parse` makes a metadata value of a text.
use bear_torrent_final_proje.Base.{
  Bool, true, false, Option, none, some, List, [], ◌∷◌, ◌++◌, Outcome, ok, ◌>>=◌, unwrap,
  if◌then◌else◌,
}
use bear_torrent_final_proje.Base.Text.{codes}
use bear_torrent_final_proje.Proto.{Text, Bytes, PeerId, InfoHash, TurnPacket}
use bear_torrent_final_proje.Message.{Message}
use bear_torrent_final_proje.FileHandler.Disk.{Disk, IoError}
use bear_torrent_final_proje.Server.State.{Response}
use bear_torrent_final_proje.TurnFallback.{make_session_id, seeder_loop, to_assembler, to_relay}

-- A call of `send`.
pub record SendCall : Type 0 where
  pub session_id : Text
  pub role : Text
  pub packets : List TurnPacket

-- What the two arms of the leecher's loop wait for: an item of the inbound stream, where `none` in
-- the inside is an error, or the end of the stream; and a message for a peer, or the end of its channel.
pub data Leech : Type 0 where
  from_turn : Option (Option TurnPacket) → Leech
  from_assembler : Option Message → Leech

-- What a channel takes of what is sent on it: an error is printed only.
abbrev pub sent_on : {A : Type 0} → (A → Bool) → Option A → List A
sent_on takes none = []
sent_on takes (some a) = if takes a then a ∷ [] else []

module _ (session_id : Text) (takes : Message → Bool) (relays : TurnPacket → Bool) where
  -- One round of the leecher's loop: what it hands to the assembler, and what it sends.
  unfoldable pub leech : Leech → List Message × List TurnPacket
  leech (from_turn (some (some pkt))) = (sent_on takes (to_assembler pkt), [])
  leech (from_turn (some none)) = ([], [])
  leech (from_turn none) = ([], [])
  leech (from_assembler (some msg)) = ([], sent_on relays (to_relay session_id msg))
  leech (from_assembler none) = ([], [])

  -- The rounds of the loop, which has no exit.
  unfoldable pub leecher_loop : List Leech → List Message × List TurnPacket
  leecher_loop [] = ([], [])
  leecher_loop (event ∷ events) =
      let (brought, asked) = leech event in
      let (more, others) = leecher_loop events in (brought ++ more, asked ++ others)

module _ (register : Text → Bool → Response (List (Option TurnPacket)))
    (parse : Text → Option Text) where
  -- `start_seeding`, with how its loop ends.
  unfoldable pub start_seeding :
      PeerId
      → PeerId
      → (Bytes → Option InfoHash)
      → Disk
      → Response (SendCall × Outcome IoError (Unit {0}) × Disk)
  start_seeding seeder_id leecher_id file_map d = do
    let session_id = make_session_id seeder_id leecher_id
    inbound ← register session_id true
    session_value ← unwrap (parse session_id)
    role_value ← unwrap (parse (codes "seeder"))
    let (ends, replies, d') = seeder_loop session_id file_map inbound d
    ok (record { session_id = session_value; role = role_value; packets = replies }, ends, d')

  -- `start_leeching`, with what its loop hands to the assembler. `schedule` is the order in which the
  -- two arms come to what the inbound stream yields and to what the assembler sends.
  unfoldable pub start_leeching :
      PeerId
      → PeerId
      → (Message → Bool)
      → (TurnPacket → Bool)
      → (List (Option TurnPacket) → List Leech)
      → Response (SendCall × List Message)
  start_leeching leecher_id seeder_id takes relays schedule = do
    let session_id = make_session_id seeder_id leecher_id
    inbound ← register session_id false
    session_value ← unwrap (parse session_id)
    role_value ← unwrap (parse (codes "leecher"))
    let (brought, asked) = leecher_loop session_id takes relays (schedule inbound)
    ok (record { session_id = session_value; role = role_value; packets = asked }, brought)
