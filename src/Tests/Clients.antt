-- ===== src/Tests/Clients.antt =====
-- Witnesses for client/src/torrent_client.rs.
use bear_torrent_final_proje.Base.{
  ◌*◌, ◌≡◌, refl, All, List, [], ◌∷◌, ◌++◌, none, some, ok, map, replicate, eqb, bytes_eq,
  if◌then◌else◌, list_beq,
}
use bear_torrent_final_proje.Base.Dict.{lookup}
use bear_torrent_final_proje.Proto.{Text, Bytes, PeerId, peer_eq}
use bear_torrent_final_proje.FileHandler.Disk.{content_of}
use bear_torrent_final_proje.FileHandler.Pieces.{get_hashed_info_hash}
use bear_torrent_final_proje.FileHandler.Store.{file_path}
use bear_torrent_final_proje.FileHandler.Records.Deleting.{is_of}
use bear_torrent_final_proje.Assembler.Setup.{FileAssembler}
use bear_torrent_final_proje.PeerConnection.{PeerConnection}
use bear_torrent_final_proje.Server.Maps.{table}
use bear_torrent_final_proje.Server.State.{State, default, peer_of, seeders_of}
use bear_torrent_final_proje.Server.Registry.{
  filter_peers, get_file_peer_list, update_registered_peer_id,
}
use bear_torrent_final_proje.Server.Files.{advertise, or_new, without}
use bear_torrent_final_proje.Server.Run.Offers.{peers}
use bear_torrent_final_proje.TorrentClient.Sockets.{Addresses, v4, address_of}
use bear_torrent_final_proje.TorrentClient.Rpc.{locally, Connector, World}
use bear_torrent_final_proje.TorrentClient.{
  TorrentClient, Heard, failed, asked_by, Started, TaskEnd, runs_on, wait_on, start_connections,
  delete_file, file_request, seeding,
}
use bear_torrent_final_proje.TorrentClient.Offers.{Stub, times, GoesOn}
use bear_torrent_final_proje.TorrentClient.Seeding.{get_file_peer_list-seeding}
use bear_torrent_final_proje.TorrentClient.Connections.{file_request_lem}
use bear_torrent_final_proje.TorrentClient.Removal.{delete_file_both, seeding-delete_file}
use bear_torrent_final_proje.Tests.Sample.{three_bytes, small}
use bear_torrent_final_proje.Tests.Service.{numbered, peer_id}
use bear_torrent_final_proje.Tests.Records.{finished, there, plain, placed, constant}

abbrev pub client : TorrentClient
client = record { uid = 7 ∷ []; file_hashes = (get_hashed_info_hash constant small, small) ∷ [] }

-- A server that knows the client's address and no file.
abbrev pub knows : State numbered
knows =
    (update_registered_peer_id (default numbered)
      (record { self_id = some (7 ∷ []); peer_id = some peer_id })).1

abbrev Remote : Connector
Remote = Stub constant numbered [] 0 client (get_hashed_info_hash constant small)

abbrev world : World Remote
world = record { server = knows; disk = finished }

abbrev pub addresses : Addresses
addresses = record { external_addr = ok (v4 5, 6); local_ip = ok (v4 8); priv_port = ok 9 }

abbrev rounds : List (Addresses × Heard)
rounds = (addresses, asked_by peer_id) ∷ (addresses, failed) ∷ []

found : (a : PeerId) × (address_of addresses ≡ ok a)
unfolding address_of
found = (record { ipaddr = 5; port = 6; priv_ipaddr = 8; priv_port = 9 }, refl)

rounds-GoesOn : All GoesOn rounds
rounds-GoesOn = ((found, λ e. cc), ((found, λ e. cc), tt))

pub known : peer_of knows (7 ∷ []) ≡ some (some peer_id)
unfolding update_registered_peer_id table lookup list_beq
known = refl

no_offer : (k : Bytes) → or_new (seeders_of knows k) ≡ []
unfolding update_registered_peer_id table lookup
no_offer k = refl

get_file_peer_list-seeding_example :
    (r : List (PeerConnection × PeerId)) × (w' : World Remote) × (a : PeerId) × (seeding constant
        Remote client rounds world
      ≡ (ok r, w'))
    × (peer_of w'.server (7 ∷ []) ≡ some (some a))
    × (get_file_peer_list w'.server (get_hashed_info_hash constant small)
        ≡ replicate (2 * times constant (get_hashed_info_hash constant small) (small ∷ [])) a)
get_file_peer_list-seeding_example =
    get_file_peer_list-seeding constant numbered [] 0 client (get_hashed_info_hash constant small)
      rounds peer_id world known (no_offer _) rounds-GoesOn

-- The same server when the client offers its file.
abbrev pub serving : State numbered
serving =
    (advertise knows (record {
      id = some (7 ∷ []);
      hash = some (get_hashed_info_hash constant small);
      info_hash = some small;
    })).1

-- The connection goes over the relay, and its task does not end.
abbrev pub relay_ends : Started → TaskEnd
relay_ends handle = runs_on

file_request_lem_example :
    (a : FileAssembler) × (handles : List Started) × (w' : World Remote) × (start_connections
        constant Remote client
        (λ i. addresses)
        small
        (record { server = serving; disk = finished })
      ≡ (ok (a, handles), w'))
    × (file_request constant Remote client
          (λ i. addresses)
          relay_ends
          small
          (record { server = serving; disk = finished })
        ≡ (locally Remote (wait_on (map relay_ends handles)), w'))
    × (a.num_connections ≡ 1)
    × (a.request_txs ≡ 0 ∷ [])
    × (map (λ s. s.request_rx) handles ≡ 0 ∷ [])
    × (map (λ s. s.peer) handles ≡ peer_id ∷ [])
unfolding get_file_peer_list advertise update_registered_peer_id table lookup list_beq filter_peers
    get_hashed_info_hash
file_request_lem_example =
    file_request_lem constant numbered [] 0 client small (λ i. addresses) relay_ends
      (record { server = serving; disk = finished }) (λ j. found)

delete_file_both_example :
    (w' : World Remote) × (delete_file constant Remote client small world ≡ (ok tt, w'))
    × ((k : Bytes)
        → get_file_peer_list w'.server k ≡ (
            if eqb (get_hashed_info_hash constant small) k
            then peers knows (without (7 ∷ []) (or_new (seeders_of knows k)))
            else get_file_peer_list knows k))
    × ((q : Text)
        → content_of w'.disk q ≡ (if is_of (97 ∷ []) q then none else content_of finished q))
delete_file_both_example =
    delete_file_both constant numbered [] 0 client small three_bytes world plain placed there

seeding-delete_file_example :
    (w' w'' : World Remote) × (r : List (PeerConnection × PeerId)) × (delete_file constant Remote
        client small world
      ≡ (ok tt, w'))
    × (seeding constant Remote client rounds w' ≡ (ok r, w''))
    × (content_of w''.disk (file_path (97 ∷ [])) ≡ none)
    × (or_new (seeders_of w''.server (get_hashed_info_hash constant small))
        ≡ without (7 ∷ []) (or_new (seeders_of knows (get_hashed_info_hash constant small)))
          ++ replicate
              (2 * times constant (get_hashed_info_hash constant small) (small ∷ []))
              (7 ∷ []))
seeding-delete_file_example =
    seeding-delete_file constant numbered [] 0 client small three_bytes peer_id rounds world plain
      placed there known rounds-GoesOn
