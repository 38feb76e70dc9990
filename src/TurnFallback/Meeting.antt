-- ===== src/TurnFallback/Meeting.antt =====
-- The two sides of a session at the relay service, and what each of them gets.
use bear_torrent_final_proje.Base.{
  ◌≡◌, refl, ◌∙◌, ap, Bool, true, false, Option, none, some, List, [], ◌∷◌, ok, if◌then◌else◌, map,
  Eq, eqb, eqb_refl, bytes_eq,
}
use bear_torrent_final_proje.Base.Dict.{Dict, lookup}
use bear_torrent_final_proje.Proto.{Text, TurnPacket}
use bear_torrent_final_proje.Turn.{
  Session, or_new_session, register, register_for_session, add_seeder, add_leecher, relay,
}
use bear_torrent_final_proje.Turn.Slots.{Registration, entered, lookup-register}
use bear_torrent_final_proje.Turn.Relay.{stream, addressed, relay-addressed}

module _ {Tx : Type 0} ⦃e : Eq Tx⦄ where
  -- What arrives at a sender's receiver.
  unfoldable pub delivered_to : Tx → List (Tx × TurnPacket) → List TurnPacket
  delivered_to a [] = []
  delivered_to a ((tx, pkt) ∷ sent) =
      let rest = delivered_to a sent in if eqb tx a then pkt ∷ rest else rest

  -- The inbound stream of the client behind `tx`, when these packets are sent in the session and
  -- `others pkt` are the registrations of other clients that come before the packet.
  abbrev pub inbox :
      Dict Text (Session Tx)
      → (TurnPacket → List (Registration Tx))
      → Text
      → Tx
      → List TurnPacket
      → List (Option TurnPacket)
  inbox all others k tx pkts =
      map (λ pkt. some pkt)
        (delivered_to tx (relay k (stream all (map (λ pkt. (others pkt, pkt)) pkts))).1)

  module _ (all : Dict Text (Session Tx)) (seeder_first : Bool) (k : Text) (a c : Tx) where
    -- The sessions when the seeder registers, when the leecher does, and when both have.
    abbrev pub at_seeder : Dict Text (Session Tx)
    at_seeder = if seeder_first then all else (register all k false c).1

    abbrev pub at_leecher : Dict Text (Session Tx)
    at_leecher = if seeder_first then (register all k true a).1 else all

    abbrev pub met : Dict Text (Session Tx)
    met =
        if seeder_first then (register at_leecher k false c).1 else (register at_seeder k true a).1

  -- The two sides of a new session are registered, in either order.
  pub record Meet (all : Dict Text (Session Tx)) (seeder_first : Bool) (k : Text) (a c : Tx)
      : Type 0 where
    pub seeder_in : (register (at_seeder all seeder_first k a c) k true a).0 ≡ ok tt
    pub leecher_in : (register (at_leecher all seeder_first k a c) k false c).0 ≡ ok tt
    pub session : Session Tx
    pub known : lookup k (met all seeder_first k a c) ≡ some session
    pub seeder_is : session.seeder ≡ some a
    pub leecher_is : session.leecher ≡ some c

  register-new :
      (all : Dict Text (Session Tx)) (k : Text) (b : Bool) (tx : Tx)
      → lookup k all ≡ none
      → (register all k b tx).0 ≡ ok tt
  unfolding register register_for_session add_seeder add_leecher
  register-new all k true tx e = rw e refl
  register-new all k false tx e = rw e refl

  lookup-register_same :
      (all : Dict Text (Session Tx)) (k : Text) (b : Bool) (tx : Tx)
      → lookup k (register all k b tx).1 ≡ some (entered b (or_new_session (lookup k all)) tx)
  lookup-register_same all k b tx = rw (eqb_refl k) at (lookup-register all k k b tx)

  register-other :
      (all : Dict Text (Session Tx)) (k : Text) (b : Bool) (s : Session Tx) (tx : Tx)
      → lookup k all ≡ some s
      → (if b then s.seeder else s.leecher) ≡ none
      → (register all k b tx).0 ≡ ok tt
  unfolding register register_for_session add_seeder add_leecher
  register-other all k true s tx e f = rw (e, f) refl
  register-other all k false s tx e f = rw (e, f) refl

  pub meet :
      (all : Dict Text (Session Tx)) (seeder_first : Bool) (k : Text) (a c : Tx)
      → lookup k all ≡ none
      → Meet all seeder_first k a c
  meet all true k a c e =
      let one : lookup k (register all k true a).1
          ≡ some (record { seeder = some a; leecher = none; arrived = 1 }) =
        lookup-register_same all k true a ∙ rw e refl in
      let two = lookup-register_same (register all k true a).1 k false c in
      record {
        seeder_in = register-new all k true a e;
        leecher_in = register-other (register all k true a).1 k false _ c one refl;
        session = record { seeder = some a; leecher = some c; arrived = 2 };
        known = two ∙ rw one refl;
        seeder_is = refl;
        leecher_is = refl;
      }
  meet all false k a c e =
      let one : lookup k (register all k false c).1
          ≡ some (record { seeder = none; leecher = some c; arrived = 1 }) =
        lookup-register_same all k false c ∙ rw e refl in
      let two = lookup-register_same (register all k false c).1 k true a in
      record {
        seeder_in = register-other (register all k false c).1 k true _ a one refl;
        leecher_in = register-new all k false c e;
        session = record { seeder = some a; leecher = some c; arrived = 2 };
        known = two ∙ rw one refl;
        seeder_is = refl;
        leecher_is = refl;
      }

  map_snd :
      (others : TurnPacket → List (Registration Tx)) (pkts : List TurnPacket)
      → map (λ (_, pkt). pkt) (map (λ pkt. (others pkt, pkt)) pkts) ≡ pkts
  map_snd others [] = refl
  map_snd others (pkt ∷ pkts) = ap (λ l. pkt ∷ l) (map_snd others pkts)

  -- In a session with both its sides, the packets for one side are what that side gets.
  pub inbox-met :
      (all : Dict Text (Session Tx)) (seeder_first : Bool) (k : Text) (a c tx : Tx)
      (others : TurnPacket → List (Registration Tx)) (pkts : List TurnPacket)
      → Meet all seeder_first k a c
      → inbox (met all seeder_first k a c) others k tx pkts
        ≡ map (λ pkt. some pkt) (delivered_to tx (addressed a c pkts))
  inbox-met all first k a c tx others pkts v =
      rw
        (
          relay-addressed (met all first k a c) k v.session a c
              (map (λ pkt. (others pkt, pkt)) pkts) v.known v.seeder_is v.leecher_is,
          map_snd others pkts,
        )
        refl
