-- ===== src/Server/State.antt =====
-- The state of `ConnectionService` (server/src/main.rs). The maps are those of the crate `dashmap`,
-- the senders those of `tokio`: types of which the server knows only that it can store them.
use Prim.Native.String.{String}
use bear_torrent_final_proje.Base.{Option, List, bytes_eq, Outcome}
use bear_torrent_final_proje.Proto.{ClientId, PeerId, FileHash, InfoHash, peer_eq}
use bear_torrent_final_proje.Server.Maps.{DashMap}

-- `tonic::Status`, by its code.
pub data Status : Type 0 where
  invalid_argument not_found internal resource_exhausted : String → Status

abbrev pub Response : Type 0 → Type 0
Response A = Outcome Status A

pub record Deps : Type 1 where
  pub PeerSender : Type 0
  pub CertSender : Type 0
  pub WatchSender : Type 0
  pub registry : DashMap ClientId (Option PeerId)
  pub tracker : DashMap FileHash InfoHash
  pub seeders : DashMap FileHash (List ClientId)
  pub notifiers : DashMap PeerId PeerSender
  pub certs : DashMap PeerId CertSender
  pub punches : DashMap PeerId WatchSender

-- `ConnectionService`.
pub record State (D : Deps) : Type 0 where
  pub client_registry : D.registry.Table
  pub file_tracker : D.tracker.Table
  pub seeder_list : D.seeders.Table
  pub seed_notifier : D.notifiers.Table
  pub cert_sender : D.certs.Table
  pub init_hole_punch : D.punches.Table

-- `ConnectionService::default`.
abbrev pub default : (D : Deps) → State D
default D = record {
  client_registry = D.registry.empty;
  file_tracker = D.tracker.empty;
  seeder_list = D.seeders.empty;
  seed_notifier = D.notifiers.empty;
  cert_sender = D.certs.empty;
  init_hole_punch = D.punches.empty;
}

module _ {D : Deps} (s : State D) where
  -- What the handlers look up.
  abbrev pub peer_of : ClientId → Option (Option PeerId)
  peer_of = D.registry.get s.client_registry

  abbrev pub info_of : FileHash → Option InfoHash
  info_of = D.tracker.get s.file_tracker

  abbrev pub seeders_of : FileHash → Option (List ClientId)
  seeders_of = D.seeders.get s.seeder_list
