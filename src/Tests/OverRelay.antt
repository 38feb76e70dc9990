-- ===== src/Tests/OverRelay.antt =====
-- A witness for a whole download over the relay.
use bear_torrent_final_proje.Base.{
  ℕ, ◌≡◌, refl, true, Option, none, some, List, [], ◌∷◌, ◌++◌, ok, arith, replicate, map, list_beq,
  bytes_eq, nat_eq,
}
use bear_torrent_final_proje.Base.Dict.{lookup, insert}
use bear_torrent_final_proje.Base.Words.{to_be_bytes}
use bear_torrent_final_proje.Base.Decimal.{decimal, digits}
use bear_torrent_final_proje.Proto.{TurnPacket}
use bear_torrent_final_proje.Message.{Message}
use bear_torrent_final_proje.FileHandler.Disk.{exists, read_file, read_exact}
use bear_torrent_final_proje.FileHandler.Pieces.{offset_of}
use bear_torrent_final_proje.FileHandler.Progress.{piece_of}
use bear_torrent_final_proje.FileHandler.Seeding.{wanted_request}
use bear_torrent_final_proje.Turn.Slots.{registers}
use bear_torrent_final_proje.FileHandler.Store.{
  get_file, read_piece_from_file, read_length, temp_path,
}
use bear_torrent_final_proje.Turn.{
  register, register_for_session, add_seeder, add_leecher, relay, forward, route,
}
use bear_torrent_final_proje.TurnFallback.{
  peer_to_string, key_leb, make_session_id, seeder_loop, serve, to_relay,
}
use bear_torrent_final_proje.TurnFallback.Sides.{
  SendCall, Leech, from_turn, from_assembler, leech, leecher_loop, start_seeding, start_leeching,
}
use bear_torrent_final_proje.TurnFallback.Arms.{yields, orders}
use bear_torrent_final_proje.TurnFallback.Meeting.{delivered_to}
use bear_torrent_final_proje.TurnFallback.Relayed.{asks, answers, seeding, leeching}
use bear_torrent_final_proje.Tests.Sample.{three_bytes, small}
use bear_torrent_final_proje.Tests.Relaying.{here, there, known_file, small-Seeds, wanted}
use bear_torrent_final_proje.Tests.Relaying
use bear_torrent_final_proje.FileHandler.Disk.{content_of, has_slash, has_dir}
use bear_torrent_final_proje.FileHandler.Seeding.{Wanted}
use bear_torrent_final_proje.FileHandler.Store.{files_dir, file_path, part_path, info_path}
use bear_torrent_final_proje.Assembler.{Assembly, initial_requests, request_for, reassemble_loop}
use bear_torrent_final_proje.Assembler.Transfer.{messages, wanted_from}
use bear_torrent_final_proje.Assembler.OverRelay.{
  asker, replier, relayed, reassemble_loop-start_leeching,
}
use bear_torrent_final_proje.Tests.Sample.{first_byte, small-IsCut}
use bear_torrent_final_proje.Tests.Download.{small-IsHashed}

-- The requests of `send_requests` over one connection, and the replies.
abbrev all_asked : List Wanted
all_asked = wanted_from small (replicate 20 7) 2 0

abbrev in_order : List (Option TurnPacket) → List Leech
in_order inbound =
    map (λ w. from_assembler (some (wanted_request (replicate 20 7) w))) all_asked
    ++ map (λ item. from_turn (some item)) inbound

abbrev asks_in : List (Option TurnPacket)
asks_in =
    map (λ w. some (asks (make_session_id here there) small three_bytes (replicate 20 7) w))
      all_asked

abbrev answers_in : List (Option TurnPacket)
answers_in =
    map (λ w. some (answers (make_session_id here there) small three_bytes (replicate 20 7) w))
      all_asked

abbrev empty_disk : Assembly ℕ
empty_disk = record {
  disk = record { dirs = files_dir ∷ []; files = [] };
  request_txs = 5 ∷ [];
  num_connections = 1;
}

requests_in_order :
    orders (in_order answers_in)
    ≡ messages {Tx = ℕ}
        (initial_requests (λ tx msg. true) (λ i. 5 ∷ []) small (replicate 20 7) 1 2 0).1
unfolding orders initial_requests request_for
requests_in_order = refl

all_asks :
    asks_in
    ≡ relayed {Tx = ℕ} first_byte
        (λ text. some text)
        known_file
        small
        three_bytes
        (replicate 20 7)
        here
        there
        Relaying.seeding
        []
        true
        1
        2
        (λ pkt. [])
        1
        (asker {Tx = ℕ} first_byte
          (λ text. some text)
          known_file
          small
          three_bytes
          (replicate 20 7)
          here
          there
          Relaying.seeding
          []
          true
          1
          2
          (λ msg. true)
          (λ pkt. true)
          in_order
          answers_in)
unfolding make_session_id key_leb peer_to_string to_be_bytes decimal digits list_beq lookup insert
    register register_for_session add_seeder add_leecher relay forward route leech leecher_loop
    start_leeching to_relay delivered_to registers
all_asks = refl

all_answers :
    answers_in
    ≡ relayed {Tx = ℕ} first_byte
        (λ text. some text)
        known_file
        small
        three_bytes
        (replicate 20 7)
        here
        there
        Relaying.seeding
        []
        true
        1
        2
        (λ pkt. [])
        2
        (replier {Tx = ℕ} first_byte
          (λ text. some text)
          known_file
          small
          three_bytes
          (replicate 20 7)
          here
          there
          Relaying.seeding
          []
          true
          1
          2
          asks_in)
unfolding make_session_id key_leb peer_to_string to_be_bytes decimal digits list_beq lookup insert
    register register_for_session add_seeder add_leecher relay forward route start_seeding
    seeder_loop serve read_piece_from_file read_length temp_path piece_of delivered_to registers
    get_file exists read_file read_exact offset_of
all_answers = refl

reassemble_loop-start_leeching_example :
    (call reply_call : SendCall) × (brought : List Message) × ((initial_requests
        (λ (tx : ℕ) msg. true)
        (λ i. 5 ∷ [])
        small
        (replicate 20 7)
        1
        2
        0).0
      ≡ ok tt)
    × (seeding {Tx = ℕ}
          (λ text. some text)
          known_file
          small
          three_bytes
          (replicate 20 7)
          here
          there
          Relaying.seeding
          []
          true
          1
          2
          asks_in
        ≡ ok (reply_call, ok tt, Relaying.seeding))
    × (leeching {Tx = ℕ}
          (λ text. some text)
          known_file
          small
          three_bytes
          (replicate 20 7)
          here
          there
          Relaying.seeding
          []
          true
          1
          2
          (λ msg. true)
          (λ pkt. true)
          in_order
          answers_in
        ≡ ok (call, brought))
    × (let (ends, resend, s') = reassemble_loop first_byte small (λ msg. true) brought empty_disk in
        (ends ≡ ok tt)
        × (content_of s'.disk (file_path (97 ∷ [])) ≡ some three_bytes)
        × (content_of s'.disk (part_path (97 ∷ [])) ≡ none)
        × (content_of s'.disk (info_path (97 ∷ [])) ≡ none))
unfolding lookup has_slash has_dir list_beq yields
reassemble_loop-start_leeching_example =
    reassemble_loop-start_leeching {Tx = ℕ} first_byte (λ text. some text) known_file small
      three_bytes (replicate 20 7) here there Relaying.seeding [] true 1 2 (λ tx msg. true) 5
      (λ msg. true) (λ msg. true) (λ pkt. true) in_order (λ pkt. []) asks_in answers_in empty_disk
      small-IsCut small-IsHashed small-Seeds refl (λ text visible. refl) (λ tx msg. refl)
      (λ msg. refl) (λ msg. refl) (λ pkt. refl) (omega arith) refl refl refl refl refl refl
      requests_in_order all_asks all_answers
