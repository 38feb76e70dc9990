-- ===== src/TorrentClient/Rpc.antt =====
-- The RPC client that a torrent client calls, as an interface, and a server that answers it.
use bear_torrent_final_proje.Base.{Option, none, some, List, Outcome, ok, err, panicked, bytes_eq}
use bear_torrent_final_proje.Proto.{
  ClientId, PeerId, FullId, FileHash, InfoHash, FileMessage, FileDelete, Text, peer_eq,
}
use bear_torrent_final_proje.FileHandler.Disk.{Disk, IoError, Io}
use bear_torrent_final_proje.Server.State.{Deps, State, Status, internal, Response}
use bear_torrent_final_proje.Server.Registry.{register_client, get_file_peer_list}
use bear_torrent_final_proje.Server.Registry
use bear_torrent_final_proje.Server.Files.{get_all_files, delist_client}
use bear_torrent_final_proje.Server.Files
use bear_torrent_final_proje.Server.Signals

-- `ConnectorClient`. The call of `seed` is cut at its wait.
pub record Connector : Type 1 where
  pub Server : Type 0
  pub register_client : Option PeerId → Server → Response ClientId × Server
  pub update_registered_peer_id : FullId → Server → Response ClientId × Server
  pub advertise : FileMessage → Server → Response ClientId × Server
  pub get_all_files : Server → Response (List InfoHash) × Server
  pub get_file_peer_list : FileHash → Server → Response (List PeerId) × Server
  pub delete_file : FileDelete → Server → Response (Unit {0}) × Server
  pub delist_client : ClientId → Server → Response (Unit {0}) × Server
  pub seed : PeerId → Server → Server

pub data Failure : Type 0 where
  rpc : Status → Failure
  local : IoError → Failure

-- What a client's operation works on.
pub record World (C : Connector) : Type 0 where
  pub server : C.Server
  pub disk : Disk

module _ (C : Connector) where
  abbrev pub Act : Type 0 → Type 0
  Act A = World C → Outcome Failure A × World C

  abbrev pub pure : {A : Type 0} → A → Act A
  pure a w = (ok a, w)

  abbrev pub remote : {A : Type 0} → Response A → Outcome Failure A
  remote (ok a) = ok a
  remote (err e) = err (rpc e)
  remote panicked = panicked

  abbrev pub locally : {A : Type 0} → Outcome IoError A → Outcome Failure A
  locally (ok a) = ok a
  locally (err e) = err (local e)
  locally panicked = panicked

  abbrev pub call : {A : Type 0} → (C.Server → Response A × C.Server) → Act A
  call f w = let (r, s) = f w.server in (remote r, record w { server = s })

  abbrev pub on_disk : {A : Type 0} → Io A → Act A
  on_disk m w = let (r, d) = m w.disk in (locally r, record w { disk = d })

  -- An answer from outside.
  abbrev pub given : {A : Type 0} → Outcome IoError A → Act A
  given r w = (locally r, w)

module _ {C : Connector} where
  abbrev pub continue : {A B : Type 0} → (A → Act C B) → Outcome Failure A → Act C B
  continue f (ok a) w = f a w
  continue f (err e) w = (err e, w)
  continue f panicked w = (panicked, w)

  infixl 5 ◌>>=◌ ◌>>◌
  abbrev pub ◌>>=◌ : {A B : Type 0} → Act C A → (A → Act C B) → Act C B
  ◌>>=◌ m f w = let (r, w') = m w in continue f r w'

  abbrev pub ◌>>◌ : {B : Type 0} → Act C (Unit {0}) → Act C B → Act C B
  m >> k = m >>= λ _. k

-- `registered` with the texts that the server draws: the loop that has not ended gives no reply, which
-- is an error here.
abbrev pub registration :
    {D : Deps} → State D → Option (Response ClientId × State D) → Response ClientId × State D
registration s none = (err (internal "no reply"), s)
registration s (some (reply, s')) = (reply, s')

-- A server that is reached at once and draws these texts.
abbrev pub served : (D : Deps) → List Text → D.PeerSender → Connector
served D draws tx = record {
  Server = State D;
  register_client = λ peer s. registration s (register_client draws s peer);
  update_registered_peer_id = λ r s. Registry.update_registered_peer_id s r;
  advertise = λ r s. Files.advertise s r;
  get_all_files = λ s. (ok (get_all_files s), s);
  get_file_peer_list = λ h s. (ok (get_file_peer_list s h), s);
  delete_file = λ r s. Files.delete_file s r;
  delist_client = λ c s. (ok tt, delist_client s c);
  seed = λ peer s. Signals.seed s peer tx;
}
