-- ===== src/Tests/Connections.antt =====
-- Witnesses for client/src/quic_p2p_sender.rs and client/src/peer_connection.rs.
use bear_torrent_final_proje.Base.{
  ℕ, ◌≡◌, ◌↔◌, ◌≤◌, refl, Bool, true, Option, none, some, List, [], ◌∷◌, ◌*◌, ok, arith, map,
  replicate, All,
}
use bear_torrent_final_proje.Proto.{Bytes, InfoHash}
use bear_torrent_final_proje.Message.{Message, piece}
use bear_torrent_final_proje.FileHandler.Seeding.{Wanted, wanted_request}
use bear_torrent_final_proje.Quic.{send_data, recv_data}
use bear_torrent_final_proje.Quic.Exchange.{
  Asks, stream_of, with_replies, piece_for, recv_data-send_data,
}
use bear_torrent_final_proje.Quic.Failures.{
  Fate, lost, broken, oversized, garbled, answered, refusal_of, recv_data-send_data_unknown,
}
use bear_torrent_final_proje.Quic.Endpoints.{
  silent, connected, create_quic_server, create_quic_client,
}
use bear_torrent_final_proje.PeerConnection.{
  PeerConnection, over_lan, across_nat, over_turn, Network, stays, hole_punch, seeder_connection,
  requester_connection,
}
use bear_torrent_final_proje.PeerConnection.Punching.{hole_punch_iff}
use bear_torrent_final_proje.PeerConnection.Routes.{seeder_connection-requester_connection_silent}
use bear_torrent_final_proje.Tests.Sample.{
  three_bytes, small, AreBytes-replicate, three_bytes-AreBytes,
}
use bear_torrent_final_proje.Tests.Relaying.{seeding, known_file, small-Seeds, wanted, here, there}

-- An assembler that takes every message.
abbrev takes : Message → Bool
takes msg = true

asked : All (Asks known_file small three_bytes (replicate 20 7)) wanted
asked = (
  (omega arith, omega arith, omega arith, omega arith, omega arith, omega arith),
  ((omega arith, omega arith, omega arith, omega arith, omega arith, omega arith), tt),
)

recv_data-send_data_example :
    let (ends, replies, d') =
      send_data known_file
        (map (λ w. stream_of (wanted_request (replicate 20 7) w)) wanted)
        seeding in
    (ends ≡ ok tt)
    × (d' ≡ seeding)
    × (recv_data takes (with_replies (replicate 20 7) wanted replies)
        ≡ (ok tt, map (piece_for known_file small three_bytes (replicate 20 7)) wanted))
recv_data-send_data_example =
    recv_data-send_data known_file small three_bytes (replicate 20 7) takes seeding wanted
      (λ msg. refl) small-Seeds (AreBytes-replicate 20 7 (omega arith)) three_bytes-AreBytes asked

abbrev asking : ℕ → Wanted
asking i = record { seeder = 0; index = i; begin = 2 * i; len = 2 }

-- One request for each fate: no stream, a broken one, a long reply, one that is no message, a piece.
abbrev fates : List (Wanted × Fate)
fates =
    (asking 1, lost)
    ∷ (asking 2, broken)
    ∷ (asking 3, oversized (replicate 12 1))
    ∷ (asking 4, garbled (0 ∷ 0 ∷ 0 ∷ 5 ∷ 99 ∷ []))
    ∷ (asking 0, answered (piece 0 (10 ∷ 20 ∷ [])))
    ∷ []

-- A request that is cut short.
abbrev cut_short : Bytes
cut_short = 0 ∷ 0 ∷ 0 ∷ 0 ∷ 6 ∷ 1 ∷ []

abbrev no_file : Bytes → Option InfoHash
no_file hash = none

abbrev larger : List Wanted
larger = record { seeder = 0; index = 1; begin = 2; len = 12 } ∷ []

recv_data-send_data_unknown_example :
    let (ends, replies, d') =
      send_data no_file (map (λ w. stream_of (wanted_request (replicate 20 7) w)) larger) seeding in
    (ends ≡ ok tt)
    × (d' ≡ seeding)
    × (recv_data takes (with_replies (replicate 20 7) larger replies)
        ≡ (ok tt, map refusal_of larger))
recv_data-send_data_unknown_example =
    recv_data-send_data_unknown no_file (replicate 20 7) takes seeding larger (λ msg. refl) refl
      refl (AreBytes-replicate 20 7 (omega arith))
      ((omega arith, omega arith, omega arith, omega arith, omega arith), tt)

abbrev seeder : PeerConnection
seeder = record { self_addr = here; pub_socket = true; priv_socket = true }

-- A round every ten milliseconds.
abbrev ticks : ℕ → ℕ
ticks i = 10 * i

hole_punch_iff_example :
    (hole_punch seeder ticks (some 7) ≡ ok tt)
    ↔ ((t : ℕ) × (some 7 ≡ some t) × (t ≤ 5000) × (t ≤ 1990))
hole_punch_iff_example = hole_punch_iff ticks seeder (some 7) refl (λ i. omega arith)

-- A network on which the local route is silent, for either side.
abbrev network : Network (Unit {0})
network = record {
  generate = λ name. ok [];
  send_cert = λ route message. ok tt;
  get_cert = λ route peer. ok [];
  endpoint = λ route cert. ok tt;
  meets =
      λ route e. elim route [ over_lan ↦ silent | across_nat ↦ connected | over_turn ↦ connected ];
  trigger = true;
  heard = none;
  clock = ticks;
  send_file_request = λ ids. ok tt;
  init_punch = λ peer. ok tt;
  turn = none;
}

-- The requester behind the same public address as the seeder.
abbrev neighbour : PeerConnection
neighbour = record {
  self_addr = record there { ipaddr = here.ipaddr };
  pub_socket = true;
  priv_socket = true;
}

seeder_connection-requester_connection_silent_example :
    (seeder_connection network seeder neighbour.self_addr ≡ ok (stays over_lan))
    × (requester_connection network neighbour here ≡ ok (stays over_turn))
unfolding create_quic_server create_quic_client
seeder_connection-requester_connection_silent_example =
    seeder_connection-requester_connection_silent network network seeder neighbour tt tt refl
      (refl, refl, refl) refl refl refl refl refl (λ e. cc) refl
