-- ===== src/TorrentClient/Seeding.antt =====
-- What a seeder that keeps seeding does to the list of those who offer its files.
use bear_torrent_final_proje.Base.{
  ℕ, suc, ◌+◌, ◌*◌, ◌≡◌, refl, ◌∙◌, ap, some, List, [], ◌∷◌, ◌++◌, ok, arith, length, replicate,
  All, true, bytes_eq, sym,
}
use bear_torrent_final_proje.Proto.{Text, Bytes, PeerId, FileHash, peer_eq}
use bear_torrent_final_proje.PeerConnection.{PeerConnection}
use bear_torrent_final_proje.Server.State.{Deps, State, peer_of, seeders_of}
use bear_torrent_final_proje.Server.Registry.{known_peer, filter_peers, get_file_peer_list}
use bear_torrent_final_proje.Server.Files.{or_new}
use bear_torrent_final_proje.Server.Signals.{seed}
use bear_torrent_final_proje.Server.Run.Offers.{peer_list-seeders}
use bear_torrent_final_proje.TorrentClient.Sockets.{Addresses, address_of}
use bear_torrent_final_proje.TorrentClient.Rpc.{Connector, World}
use bear_torrent_final_proje.TorrentClient.{
  TorrentClient, Heard, closed, failed, asked_by, register_new_connection, advertise_each, seeding,
}
use bear_torrent_final_proje.TorrentClient.Offers.{
  append_nil, filter_peers-replicate, times, files, GoesOn, Stub, Added, Added-Added,
  advertise_each-Added, register_new_connection_lem,
}

module _ (sha1 : Bytes → Bytes) (D : Deps) (draws : List Text) (tx : D.PeerSender)
    (t : TorrentClient) (k : FileHash) where
  abbrev pub Remote : Connector
  Remote = Stub sha1 D draws tx t k

  abbrev pub Adds : ℕ → PeerId → State D → State D → Type 0
  Adds = Added sha1 D draws tx t k

  Added-count : (m n : ℕ) (a : PeerId) (s s' : State D) → m ≡ n → Adds m a s s' → Adds n a s s'
  Added-count m n a s s' e v = rw (← e) v

  -- The steps of a round before its wait.
  round-Added :
      (sockets : Addresses) (a : PeerId) (w : World Remote)
      → address_of sockets ≡ ok a
      → (w1 w2 : World Remote) × (register_new_connection sha1 Remote t sockets w
          ≡ (ok (record { self_addr = a; pub_socket = true; priv_socket = true }), w1))
        × (advertise_each sha1 Remote t (files t) w1 ≡ (ok tt, w2))
        × Adds (times sha1 k (files t)) a w.server (seed w2.server a tx)
        × (w2.disk ≡ w.disk)
  unfolding seed
  round-Added sockets a w e =
      let (w1, e1, v1, kept) = register_new_connection_lem sha1 D draws tx t k sockets a w e in
      let (w2, e2, v2, kept') = advertise_each-Added sha1 D draws tx t k (files t) a w1 v1.known in
      let s3 = seed w2.server a tx in
      let v3 : Adds (times sha1 k (files t)) a w1.server s3 = record {
        known = v2.known;
        offers = v2.offers;
      } in
      (
        w1,
        w2,
        e1,
        e2,
        Added-count (0 + times sha1 k (files t)) (times sha1 k (files t)) a w.server s3
            (omega arith)
            (Added-Added sha1 D draws tx t k 0 (times sha1 k (files t)) a a w.server w1.server s3 v1
              v3),
        kept' ∙ kept,
      )

  Added-round :
      (rounds : List (Addresses × Heard)) (a b : PeerId) (s s' s'' : State D)
      → Adds (times sha1 k (files t)) a s s'
      → Adds (length rounds * times sha1 k (files t)) b s' s''
      → Adds (suc (length rounds) * times sha1 k (files t)) b s s''
  Added-round rounds a b s s' s'' v u =
      Added-count (times sha1 k (files t) + length rounds * times sha1 k (files t))
        (suc (length rounds) * times sha1 k (files t)) b s s'' (grind arith)
        (Added-Added sha1 D draws tx t k (times sha1 k (files t))
          (length rounds * times sha1 k (files t)) a b s s' s'' v u)

  pub seeding-Added :
      (rounds : List (Addresses × Heard)) (b : PeerId) (w : World Remote)
      → peer_of w.server t.uid ≡ some (some b)
      → All GoesOn rounds
      → (r : List (PeerConnection × PeerId)) × (w' : World Remote) × (a : PeerId) × (seeding sha1
            Remote t rounds w
          ≡ (ok r, w'))
        × Adds (length rounds * times sha1 k (files t)) a w.server w'.server
        × (w'.disk ≡ w.disk)
  unfolding seeding
  seeding-Added [] b w e g = (
    [],
    w,
    b,
    refl,
    Added-count 0 (0 * times sha1 k (files t)) b w.server w.server (omega arith)
        (record { known = e; offers = sym (append_nil (or_new (seeders_of w.server k))) }),
    refl,
  )
  seeding-Added ((sockets, closed) ∷ rounds) b w e g = absurd (g.0.1 refl)
  seeding-Added ((sockets, failed) ∷ rounds) b w e g =
      let ((a, found), _) = g.0 in
      let (w1, w2, e1, e2, v, kept) = round-Added sockets a w found in
      let w3 = record w2 { server = seed w2.server a tx } in
      let (r, w4, c, e4, u, kept') = seeding-Added rounds a w3 v.known g.1 in
      (
        r,
        w4,
        c,
        rw (e1, e2, e4) refl,
        Added-round rounds a c w.server w3.server w4.server v u,
        kept' ∙ kept,
      )
  seeding-Added ((sockets, asked_by peer) ∷ rounds) b w e g =
      let ((a, found), _) = g.0 in
      let (w1, w2, e1, e2, v, kept) = round-Added sockets a w found in
      let w3 = record w2 { server = seed w2.server a tx } in
      let (r, w4, c, e4, u, kept') = seeding-Added rounds a w3 v.known g.1 in
      (
        (record { self_addr = a; pub_socket = true; priv_socket = true }, peer) ∷ r,
        w4,
        c,
        rw (e1, e2, e4) refl,
        Added-round rounds a c w.server w3.server w4.server v u,
        kept' ∙ kept,
      )

  -- A registered client that keeps seeding fills the peer list of its own file: if nobody offers the
  -- file at first, then after any number of rounds that go on, the list that the server gives for the
  -- file has the client's address once for each round and each of its files with that hash.
  pub get_file_peer_list-seeding :
      (rounds : List (Addresses × Heard)) (b : PeerId) (w : World Remote)
      → peer_of w.server t.uid ≡ some (some b)
      → or_new (seeders_of w.server k) ≡ []
      → All GoesOn rounds
      → (r : List (PeerConnection × PeerId)) × (w' : World Remote) × (a : PeerId) × (seeding sha1
            Remote t rounds w
          ≡ (ok r, w'))
        × (peer_of w'.server t.uid ≡ some (some a))
        × (get_file_peer_list w'.server k ≡ replicate (length rounds * times sha1 k (files t)) a)
  get_file_peer_list-seeding rounds b w e none_yet g =
      let (r, w', a, run, v, _) = seeding-Added rounds b w e g in
      (
        r,
        w',
        a,
        run,
        v.known,
        peer_list-seeders w'.server k
            ∙ ap (filter_peers (λ c. known_peer (peer_of w'.server c))) (
                v.offers
                ∙ ap (λ l. l ++ replicate (length rounds * times sha1 k (files t)) t.uid) none_yet)
            ∙ filter_peers-replicate _ (length rounds * times sha1 k (files t)) t.uid a
                (ap known_peer v.known),
      )
