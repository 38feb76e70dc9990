-- ===== src/Server/Signals.antt =====
-- server/src/main.rs: the calls by which one peer wakes another. A waiting call stores the sender of
-- a channel; a waking call polls for it. A call that waits is in two parts, before and after the
-- wait. `others i` is what the other calls do to the state during the sleep of round `i`, and
-- `deliver` answers whether a send reaches a receiver that is still there.
pub mod Polling
pub mod Certificates
use Prim.Native.String.{String}
use bear_torrent_final_proje.Base.{
  ℕ, zero, suc, ◌+◌, Bool, Option, none, some, List, [], ◌∷◌, ok, err, panicked, ok_or,
  if◌then◌else◌, ◌==◌,
}
use bear_torrent_final_proje.Proto.{PeerId, Cert, CertMessage, ConnectionIds, peer_eq}
use bear_torrent_final_proje.Server.State.{
  Deps, State, Status, invalid_argument, not_found, internal, Response,
}

-- How the loop over five rounds ends.
pub data Poll (A : Type 0) : Type 0 where
  found : A → Poll A
  gave_up : Poll A
  ran_out : Poll A

-- `for i in 0..5 { if let Some(entry) = map.remove(&id) { …; break } else { sleep; if i == 4 … } }`,
-- with the rounds that are left, from round `i` on.
module _ {S A : Type 0} (get : S → Option A) (others : ℕ → S → S) where
  unfoldable pub poll : ℕ → ℕ → S → Poll A × S
  poll zero i s = (ran_out, s)
  poll (suc rounds) i s =
      let rest = poll rounds (i + 1) (others i s) in
      elim (get s) [
        | some tx ↦ (found tx, s)
        | none ↦ if i == 4 then (gave_up, others i s) else rest
      ]

-- The reply of a waking call, the state, and what was sent.
pub record Woken (S A B : Type 0) : Type 0 where
  pub reply : Response (Unit {0})
  pub state : S
  pub sent : List (A × B)

module _ {D : Deps} where
  abbrev pub notifier_of : State D → PeerId → Option D.PeerSender
  notifier_of s = D.notifiers.get s.seed_notifier

  abbrev pub cert_sender_of : State D → PeerId → Option D.CertSender
  cert_sender_of s = D.certs.get s.cert_sender

  abbrev pub punch_of : State D → PeerId → Option D.WatchSender
  punch_of s = D.punches.get s.init_hole_punch

  abbrev request_of :
      PeerId
      → PeerId
      → (D.PeerSender → PeerId → Bool)
      → Poll D.PeerSender × State D
      → Woken (State D) D.PeerSender PeerId
  request_of seeder self_id deliver (ran_out, s) = record { reply = ok tt; state = s; sent = [] }
  request_of seeder self_id deliver (gave_up, s) = record {
    reply = err (not_found "missing seeding peer");
    state = s;
    sent = [];
  }
  request_of seeder self_id deliver (found tx, s) =
      let s' = record s { seed_notifier = D.notifiers.remove s.seed_notifier seeder } in
      if deliver tx self_id
      then record { reply = ok tt; state = s'; sent = (tx, self_id) ∷ [] }
      else record { reply = err (internal "Failed to send self_id"); state = s'; sent = [] }

  unfoldable pub send_file_request :
      (ℕ → State D → State D)
      → (D.PeerSender → PeerId → Bool)
      → State D
      → ConnectionIds
      → Woken (State D) D.PeerSender PeerId
  send_file_request others deliver s r = elim r.connection_peer [
    | none ↦ record { reply = err (invalid_argument "missing peer id"); state = s; sent = [] }
    | some seeder ↦ elim r.self_id [
      | none ↦ record { reply = err (invalid_argument "missing self"); state = s; sent = [] }
      | some self_id ↦
          request_of seeder self_id deliver (poll (λ t. notifier_of t seeder) others 5 0 s)
    ]
  ]

  -- `cert_tx.send(r.cert.clone().unwrap())`: a message without a certificate is a panic.
  abbrev pub cert_of :
      PeerId
      → Option Cert
      → (D.CertSender → Cert → Bool)
      → Poll D.CertSender × State D
      → Woken (State D) D.CertSender Cert
  cert_of peer cert deliver (ran_out, s) = record { reply = ok tt; state = s; sent = [] }
  cert_of peer cert deliver (gave_up, s) = record {
    reply = err (invalid_argument "Cert sender not registered");
    state = s;
    sent = [];
  }
  cert_of peer none deliver (found tx, s) = record {
    reply = panicked;
    state = record s { cert_sender = D.certs.remove s.cert_sender peer };
    sent = [];
  }
  cert_of peer (some cert) deliver (found tx, s) =
      let s' = record s { cert_sender = D.certs.remove s.cert_sender peer } in
      if deliver tx cert
      then record { reply = ok tt; state = s'; sent = (tx, cert) ∷ [] }
      else record { reply = err (internal "channel closed"); state = s'; sent = [] }

  unfoldable pub send_cert :
      (ℕ → State D → State D)
      → (D.CertSender → Cert → Bool)
      → State D
      → CertMessage
      → Woken (State D) D.CertSender Cert
  send_cert others deliver s r = elim r.peer_id [
    | none ↦ record {
      reply = err (invalid_argument "peer id not returned upon signal from server");
      state = s;
      sent = [];
    }
    | some peer ↦ cert_of peer r.cert deliver (poll (λ t. cert_sender_of t peer) others 5 0 s)
  ]

  -- The first miss returns by `Err(…)?`, so no later round is reached.
  unfoldable pub init_punch : (D.WatchSender → Bool) → State D → PeerId → Response (Unit {0})
  init_punch deliver s peer = elim (punch_of s peer) [
    | some notify_handle ↦ if deliver notify_handle then ok tt else err (internal "channel closed")
    | none ↦ err (internal "no seeding peer")
  ]

  -- The calls that wait: what they store, and the reply once the channel answers.
  unfoldable pub seed : State D → PeerId → D.PeerSender → State D
  seed s self tx = record s { seed_notifier = D.notifiers.insert s.seed_notifier self tx }

  unfoldable pub get_cert : State D → PeerId → D.CertSender → State D
  get_cert s self tx = record s { cert_sender = D.certs.insert s.cert_sender self tx }

  unfoldable pub await_hole_punch_trigger : State D → PeerId → D.WatchSender → State D
  await_hole_punch_trigger s self tx = record s {
    init_hole_punch = D.punches.insert s.init_hole_punch self tx;
  }

unfoldable pub seed_reply : Option PeerId → Response PeerId
seed_reply received = ok_or received (internal "Failed to receive client id")

unfoldable pub cert_reply : Option Cert → Response Cert
cert_reply received = ok_or received (internal "failed to receive cert from server")
