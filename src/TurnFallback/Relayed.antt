-- ===== src/TurnFallback/Relayed.antt =====
-- A whole transfer over the relay: both sides' registrations, the leecher's requests through the
-- service to the seeder, and its replies through the service to the leecher.
use bear_torrent_final_proje.Base.{
  ◌≡◌, refl, ◌∙◌, Bool, true, Option, none, some, List, [], ◌∷◌, Outcome, ok, err, panicked, arith,
  length, map, Eq, eqb_refl, bytes_eq, ◌>>=◌,
}
use bear_torrent_final_proje.Base.Dict.{Dict, lookup}
use bear_torrent_final_proje.Base.Text.{codes}
use bear_torrent_final_proje.Proto.{
  Text, Bytes, PeerId, InfoHash, turn_piece, turn_request, TurnPacket,
}
use bear_torrent_final_proje.Message.{Message, piece}
use bear_torrent_final_proje.FileHandler.Disk.{Disk, IoError}
use bear_torrent_final_proje.FileHandler.Progress.{piece_of}
use bear_torrent_final_proje.FileHandler.Download.{AllBelow}
use bear_torrent_final_proje.FileHandler.Seeding.{Seeds, Wanted, wanted_request}
use bear_torrent_final_proje.Server.State.{Response}
use bear_torrent_final_proje.Turn.{Session, register}
use bear_torrent_final_proje.Turn.Slots.{Registration}
use bear_torrent_final_proje.Turn.Relay.{addressed}
use bear_torrent_final_proje.TurnFallback.{make_session_id, seeder_loop, to_assembler, to_relay}
use bear_torrent_final_proje.TurnFallback.Exchange.{serve-request}
use bear_torrent_final_proje.TurnFallback.Sides.{SendCall, Leech, start_seeding, start_leeching}
use bear_torrent_final_proje.TurnFallback.Arms.{
  yields, orders, handed, requested, leecher_loop-arms,
}
use bear_torrent_final_proje.TurnFallback.Meeting.{
  delivered_to, inbox, at_seeder, at_leecher, met, meet, inbox-met,
}
use bear_torrent_final_proje.TurnFallback.Headers.{IsVisible, make_session_id-IsVisible}

module _ (id : Text) (h : InfoHash) (content hash : Bytes) where
  -- The request and the reply for a piece, as packets.
  abbrev pub asks : Wanted → TurnPacket
  asks w = record { session_id = id; body = some (turn_request hash w.index) }

  abbrev pub answers : Wanted → TurnPacket
  answers w = record {
    session_id = id;
    body = some (turn_piece (piece_of h.piece_length content w.index) w.index);
  }

  delivered_to-asks :
      {Tx : Type 0} ⦃e : Eq Tx⦄ (a c : Tx) (wanted : List Wanted)
      → delivered_to a (addressed a c (map asks wanted)) ≡ map asks wanted
  unfolding delivered_to addressed
  delivered_to-asks a c [] = refl
  delivered_to-asks a c (w ∷ wanted) = rw (eqb_refl a, delivered_to-asks a c wanted) refl

  delivered_to-answers :
      {Tx : Type 0} ⦃e : Eq Tx⦄ (a c : Tx) (wanted : List Wanted)
      → delivered_to c (addressed a c (map answers wanted)) ≡ map answers wanted
  unfolding delivered_to addressed
  delivered_to-answers a c [] = refl
  delivered_to-answers a c (w ∷ wanted) = rw (eqb_refl c, delivered_to-answers a c wanted) refl

  requested-wanted :
      (relays : TurnPacket → Bool) (wanted : List Wanted)
      → ((pkt : TurnPacket) → relays pkt ≡ true)
      → requested id relays (map (wanted_request hash) wanted) ≡ map asks wanted
  unfolding to_relay
  requested-wanted relays [] all = refl
  requested-wanted relays (w ∷ wanted) all =
      rw (all (asks w), requested-wanted relays wanted all) refl

  handed-answers :
      (takes : Message → Bool) (wanted : List Wanted)
      → ((msg : Message) → takes msg ≡ true)
      → handed takes (map (λ pkt. some pkt) (map answers wanted))
        ≡ map (λ w. piece w.index (piece_of h.piece_length content w.index)) wanted
  unfolding to_assembler
  handed-answers takes [] all = refl
  handed-answers takes (w ∷ wanted) all =
      rw
        (
          all (piece w.index (piece_of h.piece_length content w.index)),
          handed-answers takes wanted all,
        )
        refl

  seeder_loop-asks :
      (file_map : Bytes → Option InfoHash) (d : Disk) (wanted : List Wanted)
      → Seeds file_map h content hash d
      → AllBelow (length h.pieces) (map (λ w. w.index) wanted)
      → seeder_loop id file_map (map (λ pkt. some pkt) (map asks wanted)) d
        ≡ (ok tt, map answers wanted, d)
  unfolding seeder_loop
  seeder_loop-asks file_map d [] v b = refl
  seeder_loop-asks file_map d (w ∷ wanted) v b =
      rw
        (
          serve-request id file_map h content hash d w.index v b.0,
          seeder_loop-asks file_map d wanted v b.1,
        )
        refl

-- What a call of `register` gives, with this inbound stream.
abbrev pub registered :
    {Tx : Type 0}
    → (Text → Bool → Response (Unit {0}) × Dict Text (Session Tx))
    → List (Option TurnPacket)
    → Text
    → Bool
    → Response (List (Option TurnPacket))
registered register inbound k is_seeder = (register k is_seeder).0 >>= λ done. ok inbound

-- The packets of a call of `send`, if it is made.
abbrev pub packets_of : {A : Type 0} → (A → SendCall) → Response A → List TurnPacket
packets_of call (ok a) = (call a).packets
packets_of call (err e) = []
packets_of call panicked = []

module _ {Tx : Type 0} ⦃e : Eq Tx⦄ (parse : Text → Option Text) (file_map : Bytes → Option InfoHash)
    (h : InfoHash) (content hash : Bytes) (seeder_id leecher_id : PeerId) (d : Disk)
    (all : Dict Text (Session Tx)) (seeder_first : Bool) (a c : Tx) where
  abbrev pub id : Text
  id = make_session_id seeder_id leecher_id

  abbrev pub seeding :
      List (Option TurnPacket) → Response (SendCall × Outcome IoError (Unit {0}) × Disk)
  seeding inbound =
      start_seeding (registered (λ k b. register (at_seeder all seeder_first id a c) k b a) inbound)
        parse seeder_id leecher_id file_map d

  abbrev pub leeching :
      (Message → Bool)
      → (TurnPacket → Bool)
      → (List (Option TurnPacket) → List Leech)
      → List (Option TurnPacket)
      → Response (SendCall × List Message)
  leeching takes relays schedule inbound =
      start_leeching
        (registered (λ k b. register (at_leecher all seeder_first id a c) k b c) inbound) parse
        leecher_id seeder_id takes relays schedule

  -- Take a seeder that knows a hash of twenty bytes and has its finished file, of at most 4 GiB and
  -- cut into pieces, a leecher that wants pieces of it, in a session that nobody has registered for
  -- yet, channels that take what is sent, and metadata that takes visible ASCII. Whichever side registers
  -- first, whatever registrations of others come in between, and in whatever order the two arms of the
  -- leecher's loop take their turns: both registrations are let through, and if each side's inbound
  -- stream is what the relay delivers to it of what the other side sends, then the leecher sends
  -- exactly its requests, the seeder's loop ends without an error and leaves its disk as it was, and
  -- the leecher hands its assembler exactly the wanted pieces, each with the bytes of the file.
  pub start_leeching-start_seeding :
      (takes : Message → Bool) (relays : TurnPacket → Bool)
      (schedule : List (Option TurnPacket) → List Leech)
      (others : TurnPacket → List (Registration Tx)) (wanted : List Wanted)
      (seeder_in leecher_in : List (Option TurnPacket))
      → lookup id all ≡ none
      → ((text : Text) → IsVisible text → parse text ≡ some text)
      → ((msg : Message) → takes msg ≡ true)
      → ((pkt : TurnPacket) → relays pkt ≡ true)
      → Seeds file_map h content hash d
      → AllBelow (length h.pieces) (map (λ w. w.index) wanted)
      → yields (schedule leecher_in) ≡ leecher_in
      → orders (schedule leecher_in) ≡ map (wanted_request hash) wanted
      → seeder_in
        ≡ inbox
            (met all seeder_first id a c)
            others
            id
            a
            (packets_of (λ (call, brought). call) (leeching takes relays schedule leecher_in))
      → leecher_in
        ≡ inbox
            (met all seeder_first id a c)
            others
            id
            c
            (packets_of (λ (call, ends, d'). call) (seeding seeder_in))
      → (leeching takes relays schedule leecher_in
          ≡ ok (
            record {
              session_id = id;
              role = codes "leecher";
              packets = map (asks id h content hash) wanted;
            },
            map (λ w. piece w.index (piece_of h.piece_length content w.index)) wanted,
          ))
        × (seeding seeder_in
            ≡ ok (
              record {
                session_id = id;
                role = codes "seeder";
                packets = map (answers id h content hash) wanted;
              },
              ok tt,
              d,
            ))
  start_leeching-start_seeding takes relays schedule others wanted seeder_in leecher_in new reads
        takes_all relays_all v b interleaved asked to_seeder to_leecher =
      let m = meet all seeder_first id a c new in
      let visible = reads id (make_session_id-IsVisible seeder_id leecher_id) in
      let asks_all : requested id relays (orders (schedule leecher_in))
          ≡ map (asks id h content hash) wanted =
        rw asked (requested-wanted id h content hash relays wanted relays_all) in
      let run : leeching takes relays schedule leecher_in
          ≡ ok (
            record {
              session_id = id;
              role = codes "leecher";
              packets = map (asks id h content hash) wanted;
            },
            handed takes leecher_in,
          ) =
        unfold start_leeching in
        rw
          (
            m.leecher_in,
            visible,
            reads (codes "leecher") (omega arith),
            leecher_loop-arms id takes relays (schedule leecher_in),
            interleaved,
            asks_all,
          )
          refl in
      let seeder_gets : seeder_in ≡ map (λ pkt. some pkt) (map (asks id h content hash) wanted) =
        to_seeder
        ∙ rw
            (
              run,
              inbox-met all seeder_first id a c a others (map (asks id h content hash) wanted) m,
              delivered_to-asks id h content hash a c wanted,
            )
            refl in
      let serves : seeding seeder_in
          ≡ ok (
            record {
              session_id = id;
              role = codes "seeder";
              packets = map (answers id h content hash) wanted;
            },
            ok tt,
            d,
          ) =
        unfold start_seeding in
        rw
          (
            m.seeder_in,
            visible,
            reads (codes "seeder") (omega arith),
            seeder_gets,
            seeder_loop-asks id h content hash file_map d wanted v b,
          )
          refl in
      let leecher_gets : leecher_in
          ≡ map (λ pkt. some pkt) (map (answers id h content hash) wanted) =
        to_leecher
        ∙ rw
            (
              serves,
              inbox-met all seeder_first id a c c others (map (answers id h content hash) wanted) m,
              delivered_to-answers id h content hash a c wanted,
            )
            refl in
      let brought : handed takes leecher_in
          ≡ map (λ w. piece w.index (piece_of h.piece_length content w.index)) wanted =
        rw leecher_gets (handed-answers id h content hash takes wanted takes_all) in
      (run ∙ rw brought refl, serves)
