-- ===== src/Tests/Transfers.antt =====
-- Witnesses for a whole transfer over the relay.
use bear_torrent_final_proje.Base.{
  ℕ, Outcome, ◌≡◌, refl, true, Option, some, List, [], ◌++◌, ok, arith, replicate, map, list_beq,
  bytes_eq, nat_eq,
}
use bear_torrent_final_proje.Base.Dict.{Dict, lookup, insert}
use bear_torrent_final_proje.Base.Text.{codes}
use bear_torrent_final_proje.Base.Words.{to_be_bytes}
use bear_torrent_final_proje.Base.Decimal.{decimal, digits}
use bear_torrent_final_proje.Proto.{Text, TurnPacket}
use bear_torrent_final_proje.Message.{Message, piece}
use bear_torrent_final_proje.Server.State.{Response}
use bear_torrent_final_proje.FileHandler.Disk.{Disk, IoError, exists, read_file, read_exact}
use bear_torrent_final_proje.FileHandler.Pieces.{offset_of}
use bear_torrent_final_proje.FileHandler.Progress.{piece_of}
use bear_torrent_final_proje.FileHandler.Seeding.{wanted_request}
use bear_torrent_final_proje.Turn.Slots.{registers}
use bear_torrent_final_proje.FileHandler.Store.{
  get_file, read_piece_from_file, read_length, temp_path,
}
use bear_torrent_final_proje.Turn.{
  Session, register, register_for_session, add_seeder, add_leecher, relay, forward, route,
}
use bear_torrent_final_proje.TurnFallback.{
  peer_to_string, key_leb, make_session_id, seeder_loop, serve, to_relay,
}
use bear_torrent_final_proje.TurnFallback.Sides.{
  SendCall, Leech, from_turn, from_assembler, leech, leecher_loop, start_seeding, start_leeching,
}
use bear_torrent_final_proje.TurnFallback.Arms.{yields, orders}
use bear_torrent_final_proje.TurnFallback.Meeting.{delivered_to, inbox, met}
use bear_torrent_final_proje.TurnFallback.Relayed.{
  asks, answers, seeding, leeching, packets_of, start_leeching-start_seeding,
}
use bear_torrent_final_proje.Tests.Sample.{three_bytes, small}
use bear_torrent_final_proje.Tests.Relaying.{here, there, known_file, small-Seeds, wanted}
use bear_torrent_final_proje.Tests.Relaying

abbrev schedule : List (Option TurnPacket) → List Leech
schedule inbound =
    map (λ w. from_assembler (some (wanted_request (replicate 20 7) w))) wanted
    ++ map (λ item. from_turn (some item)) inbound

abbrev to_seeder : List (Option TurnPacket)
to_seeder =
    map (λ w. some (asks (make_session_id here there) small three_bytes (replicate 20 7) w)) wanted

abbrev to_leecher : List (Option TurnPacket)
to_leecher =
    map (λ w. some (answers (make_session_id here there) small three_bytes (replicate 20 7) w))
      wanted

abbrev asker : Response (SendCall × List Message)
asker =
    leeching {Tx = ℕ} (λ text. some text) known_file small three_bytes (replicate 20 7) here there
      Relaying.seeding [] true 1 2 (λ msg. true) (λ pkt. true) schedule to_leecher

abbrev seeder : Response (SendCall × Outcome IoError (Unit {0}) × Disk)
seeder =
    seeding {Tx = ℕ} (λ text. some text) known_file small three_bytes (replicate 20 7) here there
      Relaying.seeding [] true 1 2 to_seeder

abbrev sessions : Dict Text (Session ℕ)
sessions = met [] true (make_session_id here there) 1 2

asked :
    to_seeder
    ≡ inbox sessions
        (λ pkt. [])
        (make_session_id here there)
        1
        (packets_of (λ (call, brought). call) asker)
unfolding make_session_id key_leb peer_to_string to_be_bytes decimal digits list_beq lookup insert
    register register_for_session add_seeder add_leecher relay forward route leech leecher_loop
    start_leeching to_relay delivered_to registers
asked = refl

replied :
    to_leecher
    ≡ inbox sessions
        (λ pkt. [])
        (make_session_id here there)
        2
        (packets_of (λ (call, ends, d'). call) seeder)
unfolding make_session_id key_leb peer_to_string to_be_bytes decimal digits list_beq lookup insert
    register register_for_session add_seeder add_leecher relay forward route start_seeding
    seeder_loop serve read_piece_from_file read_length temp_path piece_of delivered_to registers
    get_file exists read_file read_exact offset_of
replied = refl

start_leeching-start_seeding_example :
    (asker
      ≡ ok (
        record {
          session_id = make_session_id here there;
          role = codes "leecher";
          packets =
              map (asks (make_session_id here there) small three_bytes (replicate 20 7)) wanted;
        },
        map (λ w. piece w.index (piece_of 2 three_bytes w.index)) wanted,
      ))
    × (seeder
        ≡ ok (
          record {
            session_id = make_session_id here there;
            role = codes "seeder";
            packets =
                map
                  (answers (make_session_id here there) small three_bytes (replicate 20 7))
                  wanted;
          },
          ok tt,
          Relaying.seeding,
        ))
start_leeching-start_seeding_example =
    start_leeching-start_seeding {Tx = ℕ} (λ text. some text) known_file small three_bytes
      (replicate 20 7) here there Relaying.seeding [] true 1 2 (λ msg. true) (λ pkt. true) schedule
      (λ pkt. []) wanted to_seeder to_leecher (unfold lookup in refl) (λ text visible. refl)
      (λ msg. refl) (λ pkt. refl) small-Seeds (omega arith, (omega arith, tt))
      (unfold yields in refl) (unfold orders in refl) asked replied
