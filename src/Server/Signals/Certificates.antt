-- ===== src/Server/Signals/Certificates.antt =====
-- How the certificate of a seeder comes to the requester that waits for it.
use bear_torrent_final_proje.Base.{
  ℕ, ◌<◌, ◌≡◌, ◌≢◌, refl, sym, ◌∙◌, Bool, true, false, none, some, List, [], ◌∷◌, ok, err, arith,
  All, eqb, eqb_iff, eqb_refl, Bool-cases, inl, inr,
}
use bear_torrent_final_proje.Proto.{PeerId, Cert, peer_eq}
use bear_torrent_final_proje.Server.State.{Deps, State, invalid_argument}
use bear_torrent_final_proje.Server.Signals.{found, cert_sender_of, cert_of, get_cert, send_cert}
use bear_torrent_final_proje.Server.Signals.Polling.{
  after_sleeps, after_sleeps-none, poll_found, poll_gave_up,
}

eqb-≢ : (p q : PeerId) → q ≢ p → eqb p q ≡ false
eqb-≢ p q n = elim (Bool-cases (eqb p q)) [
  | inl e ↦ absurd (n (sym ((eqb_iff p q).0 e)))
  | inr e ↦ e
]

module _ {D : Deps} where
  -- The calls of `get_cert` of these peers, one after the other.
  abbrev pub get_certs : List (PeerId × D.CertSender) → State D → State D
  get_certs [] s = s
  get_certs ((peer, tx) ∷ calls) s = get_certs calls (get_cert s peer tx)

  registered-get_certs :
      (calls : List (PeerId × D.CertSender)) (s : State D) (peer : PeerId) (tx : D.CertSender)
      → All (λ (other, tx'). other ≢ peer) calls
      → cert_sender_of s peer ≡ some tx
      → cert_sender_of (get_certs calls s) peer ≡ some tx
  unfolding get_cert
  registered-get_certs [] s peer tx a e = e
  registered-get_certs ((other, tx') ∷ calls) s peer tx a e =
      registered-get_certs calls (get_cert s other tx') peer tx a.1 (
        D.certs.get-insert s.cert_sender other peer tx'
        ∙ rw (eqb-≢ other peer (λ same. a.0 (sym same))) e)

  registered-get_cert :
      (s : State D) (peer : PeerId) (tx : D.CertSender)
      → cert_sender_of (get_cert s peer tx) peer ≡ some tx
  unfolding get_cert
  registered-get_cert s peer tx =
      D.certs.get-insert s.cert_sender peer peer tx ∙ rw (eqb_refl peer) refl

  module _ (deliver : D.CertSender → Cert → Bool) where
    cert_of_found :
        (peer other : PeerId) (cert : Cert) (tx : D.CertSender) (t : State D)
        → deliver tx cert ≡ true
        → other ≢ peer
        → let w = cert_of peer (some cert) deliver (found tx, t) in
          (w.reply ≡ ok tt)
          × (w.sent ≡ (tx, cert) ∷ [])
          × (cert_sender_of w.state peer ≡ none)
          × (cert_sender_of w.state other ≡ cert_sender_of t other)
    cert_of_found peer other cert tx t takes n = rw takes (
      refl,
      refl,
      D.certs.get-remove t.cert_sender peer peer ∙ rw (eqb_refl peer) refl,
      D.certs.get-remove t.cert_sender peer other ∙ rw (eqb-≢ peer other n) refl,
    )

    send_cert-absent :
        (others : ℕ → State D → State D) (s : State D) (peer : PeerId) (cert : Cert)
        → ((m : ℕ) (t : State D)
            → cert_sender_of t peer ≡ none
            → cert_sender_of (others m t) peer ≡ none)
        → cert_sender_of s peer ≡ none
        → let v = send_cert others deliver s (record { peer_id = some peer; cert = some cert }) in
          (v.reply ≡ err (invalid_argument "Cert sender not registered")) × (v.sent ≡ [])
    unfolding send_cert
    send_cert-absent others s peer cert quiet e =
        rw
          (poll_gave_up (λ t. cert_sender_of t peer) others 5 0 s (omega arith) refl
            (λ m l. after_sleeps-none (λ t. cert_sender_of t peer) others m 0 s quiet e))
          (refl, refl)

    -- A requester that calls `get_cert` before the fifth poll of the seeder's `send_cert`, and is
    -- not registered in the polls before, gets the certificate, whatever other requesters call
    -- `get_cert` behind it: if its channel takes it, `send_cert` succeeds and sends the certificate
    -- to that requester and to nobody else, its registration is used up, and that of every other
    -- peer stays. A further call for the same peer, during which the peer does not call `get_cert`
    -- again, gives up with an error and sends nothing.
    pub send_cert-get_cert :
        (others later_others : ℕ → State D → State D) (s before : State D)
        (later : List (PeerId × D.CertSender)) (peer other : PeerId) (tx : D.CertSender)
        (cert cert' : Cert) (n : ℕ)
        → n < 5
        → ((m : ℕ) → m < n → cert_sender_of (after_sleeps others m 0 s) peer ≡ none)
        → after_sleeps others n 0 s ≡ get_certs later (get_cert before peer tx)
        → All (λ (next, tx'). next ≢ peer) later
        → deliver tx cert ≡ true
        → other ≢ peer
        → ((m : ℕ) (t : State D)
            → cert_sender_of t peer ≡ none
            → cert_sender_of (later_others m t) peer ≡ none)
        → let w = send_cert others deliver s (record { peer_id = some peer; cert = some cert }) in
          let v =
            send_cert later_others deliver w.state
              (record { peer_id = some peer; cert = some cert' }) in
          (w.reply ≡ ok tt)
          × (w.sent ≡ (tx, cert) ∷ [])
          × (cert_sender_of w.state peer ≡ none)
          × (cert_sender_of w.state other ≡ cert_sender_of (after_sleeps others n 0 s) other)
          × (v.reply ≡ err (invalid_argument "Cert sender not registered"))
          × (v.sent ≡ [])
    send_cert-get_cert others later_others s before later peer other tx cert cert' n l miss calls a
          takes apart quiet =
        let hit : cert_sender_of (after_sleeps others n 0 s) peer ≡ some tx = rw calls (
          registered-get_certs later (get_cert before peer tx) peer tx a
            (registered-get_cert before peer tx)) in
        let w = send_cert others deliver s (record { peer_id = some peer; cert = some cert }) in
        let same : w ≡ cert_of peer (some cert) deliver (found tx, after_sleeps others n 0 s) =
          unfold send_cert in
          rw (poll_found (λ t. cert_sender_of t peer) others n 5 0 s tx l refl miss hit) refl in
        let (reply, sent, used, kept) =
          rw (sym same) at
            (cert_of_found peer other cert tx (after_sleeps others n 0 s) takes apart) in
        let (again, none_sent) = send_cert-absent later_others w.state peer cert' quiet used in
        (reply, sent, used, kept, again, none_sent)
