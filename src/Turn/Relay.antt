-- ===== src/Turn/Relay.antt =====
-- What the relay delivers between the two sides of a session.
use bear_torrent_final_proje.Base.{
  ◌≡◌, refl, Option, none, some, List, [], ◌∷◌, ◌++◌, ok, arith, bytes_eq, map,
}
use bear_torrent_final_proje.Base.Dict.{Dict, lookup}
use bear_torrent_final_proje.Proto.{Text, Body, turn_piece, turn_request, TurnPacket}
use bear_torrent_final_proje.Turn.{Session, Inbound, packet, relay, forward}
use bear_torrent_final_proje.Turn.Slots.{Registration, registers, registers_keeps}

module _ {Tx : Type 0} where
  -- Requests for the seeder, pieces for the leecher, in the order of the packets; a packet with no
  -- body for nobody.
  abbrev pub to_body : Tx → Tx → TurnPacket → Option Body → List (Tx × TurnPacket)
  to_body a c pkt none = []
  to_body a c pkt (some (turn_request hash index)) = (a, pkt) ∷ []
  to_body a c pkt (some (turn_piece payload index)) = (c, pkt) ∷ []

  unfoldable pub addressed : Tx → Tx → List TurnPacket → List (Tx × TurnPacket)
  addressed a c [] = []
  addressed a c (pkt ∷ pkts) = to_body a c pkt pkt.body ++ addressed a c pkts

  -- The inbound stream, when before each packet some further clients have registered.
  abbrev pub stream :
      Dict Text (Session Tx) → List (List (Registration Tx) × TurnPacket) → List (Inbound Tx)
  stream all = map (λ (rs, pkt). packet (registers all rs) pkt)

  forward-addressed :
      (s : Session Tx) (pkt : TurnPacket) (a c : Tx)
      → s.seeder ≡ some a
      → s.leecher ≡ some c
      → forward s pkt ≡ to_body a c pkt pkt.body
  unfolding forward
  forward-addressed s pkt a c p q = ground arith

  -- Once a session has its seeder and its leecher, a stream sent in it delivers every request to that
  -- seeder and every piece to that leecher, unchanged and in order, and nothing to anybody else,
  -- whatever registrations of other clients come in between; the call then ends without an error.
  pub relay-addressed :
      (all : Dict Text (Session Tx)) (k : Text) (s : Session Tx) (a c : Tx)
      (items : List (List (Registration Tx) × TurnPacket))
      → lookup k all ≡ some s
      → s.seeder ≡ some a
      → s.leecher ≡ some c
      → relay k (stream all items) ≡ (ok tt, addressed a c (map (λ (_, pkt). pkt) items))
  unfolding relay addressed
  relay-addressed all k s a c [] e p q = refl
  relay-addressed all k s a c ((rs, pkt) ∷ items) e p q = ground (
    arith,
    registers_keeps all rs k s a c e p q,
    forward-addressed s pkt a c p q,
    relay-addressed all k s a c items e p q,
  )
