-- ===== src/Server/Signals/Polling.antt =====
-- A waking call reaches the peer exactly if that peer registers before the fifth poll.
use bear_torrent_final_proje.Base.{
  ℕ, zero, suc, ◌+◌, ◌<◌, ◌≡◌, refl, Bool, Option, none, some, [], ◌∷◌, ok, err, arith,
  if◌then◌else◌, eqb_refl,
}
use bear_torrent_final_proje.Proto.{PeerId, ConnectionIds, peer_eq}
use bear_torrent_final_proje.Server.State.{Deps, State, not_found, internal}
use bear_torrent_final_proje.Server.Signals.{
  found, gave_up, poll, notifier_of, send_file_request, request_of,
}

-- The state after `n` sleeps, from round `i` on.
unfoldable pub after_sleeps : {S : Type 0} → (ℕ → S → S) → ℕ → ℕ → S → S
after_sleeps others zero i s = s
after_sleeps others (suc n) i s = after_sleeps others n (i + 1) (others i s)

module _ {S A : Type 0} (get : S → Option A) (others : ℕ → S → S) where
  pub poll_found :
      (n rounds i : ℕ) (s : S) (tx : A)
      → n < rounds
      → i + rounds ≡ 5
      → ((m : ℕ) → m < n → get (after_sleeps others m i s) ≡ none)
      → get (after_sleeps others n i s) ≡ some tx
      → poll get others rounds i s ≡ (found tx, after_sleeps others n i s)
  unfolding poll after_sleeps
  poll_found n zero i s tx h e miss hit = elim h [ ]
  poll_found zero (suc rounds) i s tx h e miss hit = rw (hit, poll)
  poll_found (suc n) (suc rounds) i s tx h e miss hit =
      rw (miss 0 (omega arith), poll)
        (ground (
          arith,
          poll_found n rounds (i + 1) (others i s) tx (omega arith) (omega arith)
              (λ m l. miss (suc m) (omega arith)) hit,
        ))

  pub poll_gave_up :
      (rounds i : ℕ) (s : S)
      → 0 < rounds
      → i + rounds ≡ 5
      → ((m : ℕ) → m < rounds → get (after_sleeps others m i s) ≡ none)
      → poll get others rounds i s ≡ (gave_up, after_sleeps others rounds i s)
  unfolding poll after_sleeps
  poll_gave_up zero i s h e miss = elim h [ ]
  poll_gave_up (suc zero) i s h e miss = rw (miss 0 (omega arith), poll) (ground arith)
  poll_gave_up (suc (suc rounds)) i s h e miss =
      rw (miss 0 (omega arith), poll)
        (ground (
          arith,
          poll_gave_up (suc rounds) (i + 1) (others i s) (omega arith) (omega arith)
              (λ m l. miss (suc m) (omega arith)),
        ))

  -- What is not there stays away, if no round brings it.
  pub after_sleeps-none :
      (n i : ℕ) (s : S)
      → ((m : ℕ) (t : S) → get t ≡ none → get (others m t) ≡ none)
      → get s ≡ none
      → get (after_sleeps others n i s) ≡ none
  unfolding after_sleeps
  after_sleeps-none zero i s quiet e = e
  after_sleeps-none (suc n) i s quiet e =
      after_sleeps-none n (i + 1) (others i s) quiet (quiet i s e)

module _ {D : Deps} (others : ℕ → State D → State D) (deliver : D.PeerSender → PeerId → Bool) where
  request_of_found :
      (seeder self_id : PeerId) (tx : D.PeerSender) (t : State D)
      → let w = request_of seeder self_id deliver (found tx, t) in
        (notifier_of w.state seeder ≡ none)
        × (w.reply
            ≡ (if deliver tx self_id then ok tt else err (internal "Failed to send self_id")))
        × (w.sent ≡ (if deliver tx self_id then (tx, self_id) ∷ [] else []))
  request_of_found seeder self_id tx t =
      ground (arith, D.notifiers.get-remove t.seed_notifier seeder seeder, eqb_refl seeder)

  -- If the seeder is missing in the first `n` of the five polls and registered with `tx` at the next,
  -- then the identity of the caller goes to `tx` and to nobody else, the registration is used up, and
  -- the call succeeds; if the receiver is gone nothing is sent and the call fails.
  pub send_file_request_found :
      (s : State D) (r : ConnectionIds) (seeder self_id : PeerId) (n : ℕ) (tx : D.PeerSender)
      → r.connection_peer ≡ some seeder
      → r.self_id ≡ some self_id
      → n < 5
      → ((m : ℕ) → m < n → notifier_of (after_sleeps others m 0 s) seeder ≡ none)
      → notifier_of (after_sleeps others n 0 s) seeder ≡ some tx
      → let w = send_file_request others deliver s r in
        (notifier_of w.state seeder ≡ none)
        × (w.reply
            ≡ (if deliver tx self_id then ok tt else err (internal "Failed to send self_id")))
        × (w.sent ≡ (if deliver tx self_id then (tx, self_id) ∷ [] else []))
  unfolding send_file_request
  send_file_request_found s r seeder self_id n tx p q h miss hit =
      rw (p, q, poll_found (λ t. notifier_of t seeder) others n 5 0 s tx h refl miss hit)
        (request_of_found seeder self_id tx (after_sleeps others n 0 s))

  -- If the seeder is missing in all five polls, the call waits five times, sends nothing and fails.
  pub send_file_request_gave_up :
      (s : State D) (r : ConnectionIds) (seeder self_id : PeerId)
      → r.connection_peer ≡ some seeder
      → r.self_id ≡ some self_id
      → ((m : ℕ) → m < 5 → notifier_of (after_sleeps others m 0 s) seeder ≡ none)
      → send_file_request others deliver s r ≡ record {
        reply = err (not_found "missing seeding peer");
        state = after_sleeps others 5 0 s;
        sent = [];
      }
  unfolding send_file_request
  send_file_request_gave_up s r seeder self_id p q miss =
      rw (p, q, poll_gave_up (λ t. notifier_of t seeder) others 5 0 s (omega arith) refl miss)
