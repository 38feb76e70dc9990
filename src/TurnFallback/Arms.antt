-- ===== src/TurnFallback/Arms.antt =====
-- The two arms of the leecher's loop in `start_leeching`.
use bear_torrent_final_proje.Base.{
  ◌≡◌, refl, Bool, Option, none, some, List, [], ◌∷◌, ◌++◌, bytes_eq,
}
use bear_torrent_final_proje.Proto.{Text, TurnPacket}
use bear_torrent_final_proje.Message.{Message}
use bear_torrent_final_proje.TurnFallback.{to_assembler, to_relay}
use bear_torrent_final_proje.TurnFallback.Sides.{
  Leech, from_turn, from_assembler, sent_on, leech, leecher_loop,
}

-- What the inbound stream yields to the loop, and what the assembler asks it for.
unfoldable pub yields : List Leech → List (Option TurnPacket)
yields [] = []
yields (from_turn none ∷ events) = yields events
yields (from_turn (some item) ∷ events) = item ∷ yields events
yields (from_assembler msg ∷ events) = yields events

unfoldable pub orders : List Leech → List Message
orders [] = []
orders (from_turn item ∷ events) = orders events
orders (from_assembler none ∷ events) = orders events
orders (from_assembler (some msg) ∷ events) = msg ∷ orders events

abbrev pub handed : (Message → Bool) → List (Option TurnPacket) → List Message
handed takes [] = []
handed takes (none ∷ items) = handed takes items
handed takes (some pkt ∷ items) = sent_on takes (to_assembler pkt) ++ handed takes items

abbrev pub requested : Text → (TurnPacket → Bool) → List Message → List TurnPacket
requested k relays [] = []
requested k relays (msg ∷ msgs) = sent_on relays (to_relay k msg) ++ requested k relays msgs

-- The two arms of the leecher's loop do not disturb each other, in whatever order their turns come.
pub leecher_loop-arms :
    (k : Text) (takes : Message → Bool) (relays : TurnPacket → Bool) (events : List Leech)
    → leecher_loop k takes relays events
      ≡ (handed takes (yields events), requested k relays (orders events))
unfolding leecher_loop leech yields orders
leecher_loop-arms k takes relays [] = refl
leecher_loop-arms k takes relays (from_turn none ∷ events) = leecher_loop-arms k takes relays events
leecher_loop-arms k takes relays (from_turn (some none) ∷ events) =
    leecher_loop-arms k takes relays events
leecher_loop-arms k takes relays (from_turn (some (some pkt)) ∷ events) =
    rw (leecher_loop-arms k takes relays events) refl
leecher_loop-arms k takes relays (from_assembler none ∷ events) =
    leecher_loop-arms k takes relays events
leecher_loop-arms k takes relays (from_assembler (some msg) ∷ events) =
    rw (leecher_loop-arms k takes relays events) refl
