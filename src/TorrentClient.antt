-- ===== src/TorrentClient.antt =====
-- client/src/torrent_client.rs: the operations of a client, which call the server and work on the
-- client's disk. The RPC client is an interface; the handlers of Server implement it.
pub mod Rpc
pub mod Sockets
pub mod Connections
pub mod Offers
pub mod Seeding
pub mod Removal
use Prim.Native.String.{String}
use bear_torrent_final_proje.Base.{
  ℕ, zero, suc, ◌+◌, min, true, unwrap, Option, none, some, List, [], ◌∷◌, Outcome, ok, err,
  panicked, length, get_elem?, bytes_eq, map,
}
use bear_torrent_final_proje.Base.Dict.{Dict}
use bear_torrent_final_proje.Proto.{
  Text, Bytes, ClientId, PeerId, FullId, FileHash, InfoHash, FileMessage, FileDelete,
}
use bear_torrent_final_proje.FileHandler.Disk.{Disk, IoError, other, Io}
use bear_torrent_final_proje.FileHandler.Pieces.{get_hashed_info_hash}
use bear_torrent_final_proje.FileHandler.Records.{get_info_hashes}
use bear_torrent_final_proje.FileHandler.Records
use bear_torrent_final_proje.PeerConnection.{PeerConnection}
use bear_torrent_final_proje.Assembler.Setup.{
  FileAssembler, new_assembler, subscribe_new_connection,
}
use bear_torrent_final_proje.TorrentClient.Sockets.{Addresses, address_of}
use bear_torrent_final_proje.TorrentClient.Rpc.{
  Connector, World, Failure, local, Act, ◌>>=◌, ◌>>◌, pure, call, on_disk, given,
}

-- `TorrentClient`, without its channels.
pub record TorrentClient : Type 0 where
  pub uid : ClientId
  pub file_hashes : Dict Bytes InfoHash

-- How a wait for a requester ends.
pub data Heard : Type 0 where
  closed : Heard
  failed : Heard
  asked_by : PeerId → Heard

-- A connection that is started, with its peer and the channel that it gets its requests from.
pub record Started : Type 0 where
  pub connection : PeerConnection
  pub peer : PeerId
  pub request_rx : ℕ

-- How the task of a connection ends: it returns (an error is printed), it panics, or never comes to an
-- end, as over the relay.
pub data TaskEnd : Type 0 where
  returns panics runs_on : TaskEnd

-- How the wait for the connections goes: it comes to its end, or stays at a task for ever.
pub data Waited : Type 0 where
  finished blocked : Waited

-- `for handle in connection_handles { handle.await?; }`
unfoldable pub wait_on : List TaskEnd → Outcome IoError Waited
wait_on [] = ok finished
wait_on (returns ∷ tasks) = wait_on tasks
wait_on (panics ∷ tasks) = err (other "task panicked")
wait_on (runs_on ∷ tasks) = ok blocked

module _ (sha1 : Bytes → Bytes) (C : Connector) where
  -- `TorrentClient::new`
  unfoldable pub new : (Bytes → Text) → (Text → Option Bytes) → List Text → Act C TorrentClient
  new hex_encode hex_decode listing = do
    uid ← call C (C.register_client none)
    file_hashes ← on_disk C (get_info_hashes sha1 hex_encode hex_decode listing)
    pure C (record { uid = uid; file_hashes = file_hashes })

  unfoldable pub update_registered_peer_id : TorrentClient → PeerId → Act C (Unit {0})
  update_registered_peer_id t self_addr = do
    uid ←
        call C
          (C.update_registered_peer_id (record { self_id = some t.uid; peer_id = some self_addr }))
    pure C tt

  -- `register_new_connection`
  unfoldable pub register_new_connection : TorrentClient → Addresses → Act C PeerConnection
  register_new_connection t sockets = do
    self_addr ← given C (address_of sockets)
    update_registered_peer_id t self_addr
    pure C (record { self_addr = self_addr; pub_socket = true; priv_socket = true })

  unfoldable pub advertise : TorrentClient → InfoHash → Act C ClientId
  advertise t info_hash = call C (
      C.advertise (record {
        id = some t.uid;
        hash = some (get_hashed_info_hash sha1 info_hash);
        info_hash = some info_hash;
      }))

  -- The loop of `advertise_all`.
  unfoldable pub advertise_each : TorrentClient → List InfoHash → Act C (Unit {0})
  advertise_each t [] = pure C tt
  advertise_each t (hash ∷ my_hashes) = do client_id ← advertise t hash; advertise_each t my_hashes

  abbrev pub advertise_all : TorrentClient → Act C (Unit {0})
  advertise_all t = advertise_each t (map (λ (_, info_hash). info_hash) t.file_hashes)

  unfoldable pub get_server_files : Act C (List InfoHash)
  get_server_files = call C C.get_all_files

  -- `delete_file`: from the server first, and then from the disk.
  unfoldable pub delete_file : TorrentClient → InfoHash → Act C (Unit {0})
  delete_file t file_hash = do
    call C (
        C.delete_file
          (record { id = some t.uid; hash = some (get_hashed_info_hash sha1 file_hash) }))
    on_disk C (Records.delete_file file_hash.name)

  unfoldable pub remove_client : TorrentClient → Act C (Unit {0})
  remove_client t = call C (C.delist_client t.uid)

  -- `seeding`, round by round: the sockets of the round and how its wait ends. It gives the
  -- connections that it starts.
  unfoldable pub seeding :
      TorrentClient → List (Addresses × Heard) → Act C (List (PeerConnection × PeerId))
  seeding t [] = pure C []
  seeding t ((sockets, heard) ∷ rounds) = do
    peer_connection ← register_new_connection t sockets
    advertise_all t
    call C (λ s. (ok tt, C.seed peer_connection.self_addr s))
    more ← elim heard [
      | closed ↦ pure C []
      | failed ↦ seeding t rounds
      | asked_by peer ↦ seeding t rounds
    ]
    pure C (elim heard [
      | closed ↦ []
      | failed ↦ more
      | asked_by peer ↦ (peer_connection, peer) ∷ more
    ])

  -- The loop of `file_request`, from connection `i` on.
  unfoldable pub connect_from :
      TorrentClient
      → (ℕ → Addresses)
      → List PeerId
      → ℕ
      → ℕ
      → FileAssembler
      → Act C (FileAssembler × List Started)
  connect_from t sockets peer_list zero i assembler = pure C (assembler, [])
  connect_from t sockets peer_list (suc left) i assembler = do
    peer_connection ← register_new_connection t (sockets i)
    let (request_rx, subscribed) = subscribe_new_connection assembler
    peer_id ← given C (unwrap (get_elem? peer_list i))
    (all_subscribed, handles) ← connect_from t sockets peer_list left (i + 1) subscribed
    pure C (
      all_subscribed,
      record { connection = peer_connection; peer = peer_id; request_rx = request_rx } ∷ handles,
    )

  -- `file_request`, up to the start of the requests.
  unfoldable pub start_connections :
      TorrentClient → (ℕ → Addresses) → InfoHash → Act C (FileAssembler × List Started)
  start_connections t sockets file_hash = do
    peer_list ← call C (C.get_file_peer_list (get_hashed_info_hash sha1 file_hash))
    let num_connections = min (length peer_list) (length file_hash.pieces)
    connect_from t sockets peer_list num_connections 0 (new_assembler file_hash num_connections)

  -- `file_request`, with the ends of the tasks that it starts. What they do to the server and the disk
  -- comes in with the next line of the prompt.
  unfoldable pub file_request :
      TorrentClient → (ℕ → Addresses) → (Started → TaskEnd) → InfoHash → Act C Waited
  file_request t sockets ends file_hash = do
    (assembler, connection_handles) ← start_connections t sockets file_hash
    given C (wait_on (map ends connection_handles))
