-- ===== src/Server/Run.antt =====
-- server/src/main.rs: histories of the service. Every handler works on the shared maps, and a call
-- that waits is a step before its wait and, where it polls, one step for each poll that finds a
-- sender; so an interleaving of calls is a list of steps.
pub mod Consistency
pub mod Offers
pub mod Spec
pub mod Directory
use bear_torrent_final_proje.Base.{Option, none, some, List, [], ◌∷◌}
use bear_torrent_final_proje.Proto.{
  Text, ClientId, PeerId, FullId, FileMessage, FileDelete, peer_eq,
}
use bear_torrent_final_proje.Server.State.{Deps, State, Response}
use bear_torrent_final_proje.Server.Registry.{register_client, update_registered_peer_id}
use bear_torrent_final_proje.Server.Files.{advertise, delete_file, delist_client}
use bear_torrent_final_proje.Server.Signals.{seed, get_cert, await_hole_punch_trigger}

pub data Call (D : Deps) : Type 0 where
  registers : (draws : List Text) (peer_id : Option PeerId) → Call D
  updates : FullId → Call D
  advertises : FileMessage → Call D
  deletes : FileDelete → Call D
  delists : ClientId → Call D
  seeds : PeerId → D.PeerSender → Call D
  awaits_cert : PeerId → D.CertSender → Call D
  awaits_punch : PeerId → D.WatchSender → Call D
  takes_notifier takes_cert : PeerId → Call D

module _ {D : Deps} where
  -- The loop of `register_client` that has not ended leaves the state as it is.
  abbrev pub registered : State D → Option (Response ClientId × State D) → State D
  registered s none = s
  registered s (some (reply, s')) = s'

  unfoldable pub step : State D → Call D → State D
  step s (registers draws peer_id) = registered s (register_client draws s peer_id)
  step s (updates r) = (update_registered_peer_id s r).1
  step s (advertises r) = (advertise s r).1
  step s (deletes r) = (delete_file s r).1
  step s (delists client_id) = delist_client s client_id
  step s (seeds peer tx) = seed s peer tx
  step s (awaits_cert peer tx) = get_cert s peer tx
  step s (awaits_punch peer tx) = await_hole_punch_trigger s peer tx
  step s (takes_notifier peer) = record s {
    seed_notifier = D.notifiers.remove s.seed_notifier peer;
  }
  step s (takes_cert peer) = record s { cert_sender = D.certs.remove s.cert_sender peer }

  unfoldable pub run : State D → List (Call D) → State D
  run s [] = s
  run s (c ∷ calls) = run (step s c) calls
