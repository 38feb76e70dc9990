-- ===== src/Tests/Service.antt =====
-- Witnesses for server/src/main.rs and server/src/turn.rs.
use bear_torrent_final_proje.Proto.{Cert, ClientId}
use bear_torrent_final_proje.Base.{
  ap, err, panicked, ◌≡◌, ◌≢◌, ◌↔◌, ℕ, suc, refl, Bool, true, false, List, [], ◌∷◌, some, none, ok,
  arith, bytes_eq, ◌<◌, zero, list_beq,
}
use mathlib.Core.List.{Mem}
use bear_torrent_final_proje.Base.Dict.{lookup, insert}
use bear_torrent_final_proje.Proto.{
  PeerId, InfoHash, FileHash, ConnectionIds, TurnPacket, turn_piece, turn_request, peer_eq,
  peer_beq,
}
use bear_torrent_final_proje.Server.Maps.{table}
use bear_torrent_final_proje.Server.State.{
  Deps, State, default, invalid_argument, peer_of, info_of, seeders_of,
}
use bear_torrent_final_proje.Server.Registry.{
  get_client_id, get_file_peer_list, register_client, draw_uid, filter_peers,
}
use bear_torrent_final_proje.Server.Registry.Lookup.{get_client_id-panics}
use bear_torrent_final_proje.Server.Files.{or_new, get_all_files}
use bear_torrent_final_proje.Server.Signals.{
  notifier_of, send_file_request, cert_sender_of, get_cert, send_cert,
}
use bear_torrent_final_proje.Server.Signals.Certificates.{get_certs, send_cert-get_cert}
use bear_torrent_final_proje.Server.Signals.Polling.{after_sleeps, send_file_request_found}
use bear_torrent_final_proje.Server.Run.{Call, registers, advertises, run, step}
use bear_torrent_final_proje.Server.Run.Consistency.{IsConsistent, run-IsConsistent}
use bear_torrent_final_proje.Server.Run.Offers.{get_all_files_iff}
use bear_torrent_final_proje.Server.Run.Directory.{told, told_all}
use bear_torrent_final_proje.Server.Run.Spec.{run-told_all}
use bear_torrent_final_proje.Turn.{
  Session, released, register, register_for_session, add_seeder, add_leecher, relay,
}
use bear_torrent_final_proje.Turn.Slots.{Registration, registers as registers_all, released_iff}
use bear_torrent_final_proje.Turn.Relay.{addressed, stream, relay-addressed}

-- Senders are numbers.
abbrev pub numbered : Deps
numbered = record {
  PeerSender = ℕ;
  CertSender = ℕ;
  WatchSender = ℕ;
  registry = table;
  tracker = table;
  seeders = table;
  notifiers = table;
  certs = table;
  punches = table;
}

abbrev pub peer_id : PeerId
peer_id = record { ipaddr = 1; port = 2; priv_ipaddr = 3; priv_port = 4 }

abbrev info : InfoHash
info = record { name = 97 ∷ []; file_length = 3; piece_length = 2; pieces = [] }

-- A client `7` registers and offers the file `9`.
abbrev history : List (Call numbered)
history =
    registers ((7 ∷ []) ∷ []) (some peer_id)
    ∷ advertises (record { id = some (7 ∷ []); hash = some (9 ∷ []); info_hash = some info })
    ∷ []

run-IsConsistent_example : IsConsistent (run (default numbered) history)
run-IsConsistent_example = run-IsConsistent numbered history

run-told_all_example :
    (get_file_peer_list (run (default numbered) history) (9 ∷ []) ≡ peer_id ∷ [])
    × (info_of (run (default numbered) history) (9 ∷ []) ≡ some info)
unfolding told_all told draw_uid filter_peers list_beq
run-told_all_example = run-told_all numbered history (9 ∷ [])

get_all_files_iff_example :
    Mem info (get_all_files (run (default numbered) history))
    ↔ ∥ (
        (h : FileHash) × (info_of (run (default numbered) history) h ≡ some info)
        × (or_new (seeders_of (run (default numbered) history) h) ≢ [])) ∥₁
get_all_files_iff_example =
    get_all_files_iff (run (default numbered) history) info (run-IsConsistent numbered history)

-- A client `7` registers without an address.
abbrev nameless : List (Call numbered)
nameless = registers ((7 ∷ []) ∷ []) none ∷ []

no_peer : (c : ClientId) → peer_of (run (default numbered) nameless) c ≢ some (some peer_id)
unfolding run step register_client draw_uid table lookup list_beq
no_peer c = ground arith

get_client_id-panics_example : get_client_id (run (default numbered) nameless) peer_id ≡ panicked
unfolding run step register_client draw_uid table lookup list_beq
get_client_id-panics_example =
    get_client_id-panics (run (default numbered) nameless) peer_id (7 ∷ []) no_peer refl

-- The seeder registers while the caller sleeps for the first time.
abbrev late : ℕ → State numbered → State numbered
late zero s = record s { seed_notifier = numbered.notifiers.insert s.seed_notifier peer_id 5 }
late (suc i) s = s

abbrev wanted : ConnectionIds
wanted = record { connection_peer = some peer_id; self_id = some peer_id }

abbrev answers : ℕ → PeerId → Bool
answers tx peer = true

send_file_request_found_example :
    let w = send_file_request late answers (default numbered) wanted in
    (notifier_of w.state peer_id ≡ none) × (w.reply ≡ ok tt) × (w.sent ≡ (5, peer_id) ∷ [])
unfolding after_sleeps table lookup insert peer_beq list_beq
send_file_request_found_example =
    send_file_request_found late answers (default numbered) wanted peer_id peer_id 1 5 refl refl
      (omega arith) first_miss refl
  where
    first_miss :
        (m : ℕ) → m < 1 → notifier_of (after_sleeps late m 0 (default numbered)) peer_id ≡ none
    first_miss zero h = refl
    first_miss (suc m) h = absurd (omega arith)

abbrev next_peer : PeerId
next_peer = record { ipaddr = 9; port = 9; priv_ipaddr = 9; priv_port = 9 }

-- While the seeder's call sleeps for the first time, a requester comes with the sender 6, and another one
-- behind it.
abbrev coming : ℕ → State numbered → State numbered
coming zero s = get_certs ((next_peer, 8) ∷ []) (get_cert s peer_id 6)
coming (suc i) s = s

abbrev idle : ℕ → State numbered → State numbered
idle i s = s

abbrev passes : ℕ → Cert → Bool
passes tx cert = true

apart : next_peer ≢ peer_id
apart e = omega (arith, ap (λ p. p.ipaddr) e)

came_later :
    (m : ℕ) → m < 1 → cert_sender_of (after_sleeps coming m 0 (default numbered)) peer_id ≡ none
unfolding after_sleeps table lookup
came_later zero h = refl
came_later (suc m) h = absurd (omega arith)

have_come :
    after_sleeps coming 1 0 (default numbered)
    ≡ get_certs ((next_peer, 8) ∷ []) (get_cert (default numbered) peer_id 6)
unfolding after_sleeps
have_come = refl

send_cert-get_cert_example :
    let w =
      send_cert coming passes
        (default numbered)
        (record { peer_id = some peer_id; cert = some (1 ∷ 2 ∷ []) }) in
    let v =
      send_cert idle passes w.state (record { peer_id = some peer_id; cert = some (3 ∷ []) }) in
    (w.reply ≡ ok tt)
    × (w.sent ≡ (6, 1 ∷ 2 ∷ []) ∷ [])
    × (cert_sender_of w.state peer_id ≡ none)
    × (cert_sender_of w.state next_peer
        ≡ cert_sender_of (after_sleeps coming 1 0 (default numbered)) next_peer)
    × (v.reply ≡ err (invalid_argument "Cert sender not registered"))
    × (v.sent ≡ [])
send_cert-get_cert_example =
    send_cert-get_cert passes coming idle (default numbered) (default numbered)
      ((next_peer, 8) ∷ []) peer_id next_peer 6 (1 ∷ 2 ∷ []) (3 ∷ []) 1 (omega arith) came_later
      have_come (apart, tt) refl apart (λ m t e. e)

-- The seeder `1` and the leecher `2` of the session `4`.
abbrev pair : Session ℕ
pair = record { seeder = some 1; leecher = some 2; arrived = 2 }

abbrev both : List (Registration ℕ)
both =
    record { session_id = 4 ∷ []; is_seeder = true; tx = 1 }
    ∷ record { session_id = 4 ∷ []; is_seeder = false; tx = 2 }
    ∷ []

released_iff_example : (released pair ≡ true) ↔ ((pair.seeder ≢ none) × (pair.leecher ≢ none))
unfolding registers_all register register_for_session add_seeder add_leecher lookup insert list_beq
released_iff_example = released_iff both (4 ∷ []) pair refl

abbrev a_request : TurnPacket
a_request = record { session_id = 4 ∷ []; body = some (turn_request (9 ∷ []) 0) }

abbrev a_piece : TurnPacket
a_piece = record { session_id = 4 ∷ []; body = some (turn_piece (1 ∷ []) 0) }

relay-addressed_example :
    relay (4 ∷ []) (stream ((4 ∷ [], pair) ∷ []) ((both, a_request) ∷ ([], a_piece) ∷ []))
    ≡ (ok tt, addressed 1 2 (a_request ∷ a_piece ∷ []))
unfolding lookup list_beq
relay-addressed_example =
    relay-addressed ((4 ∷ [], pair) ∷ []) (4 ∷ []) pair 1 2 ((both, a_request) ∷ ([], a_piece) ∷ [])
      refl refl refl
