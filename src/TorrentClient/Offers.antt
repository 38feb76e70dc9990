-- ===== src/TorrentClient/Offers.antt =====
-- What a client that registers and advertises adds to the list of those who offer a file.
use bear_torrent_final_proje.Base.{
  ℕ, zero, suc, ◌+◌, ◌≡◌, ◌≢◌, refl, ◌∙◌, ap, Option, some, List, [], ◌∷◌, ◌++◌, ok, arith,
  replicate, map, if◌then◌else◌, eqb, eqb_iff, eqb_refl, true, bytes_eq, sym,
}
use bear_torrent_final_proje.Proto.{Text, Bytes, ClientId, PeerId, FileHash, InfoHash, peer_eq}
use bear_torrent_final_proje.FileHandler.Pieces.{get_hashed_info_hash}
use bear_torrent_final_proje.Server.State.{Deps, State, peer_of, seeders_of}
use bear_torrent_final_proje.Server.Registry.{known_peer, filter_peers, get_file_peer_list}
use bear_torrent_final_proje.Server.Registry
use bear_torrent_final_proje.Server.Files.{or_new, offer}
use bear_torrent_final_proje.Server.Files
use bear_torrent_final_proje.Server.Files.Effects.{seeders_of-offer}
use bear_torrent_final_proje.TorrentClient.Sockets.{Addresses, address_of}
use bear_torrent_final_proje.TorrentClient.Rpc.{Connector, World, served}
use bear_torrent_final_proje.TorrentClient.{
  TorrentClient, Heard, closed, register_new_connection, update_registered_peer_id, advertise,
  advertise_each,
}

pub append_nil : (xs : List ClientId) → xs ++ [] ≡ xs
append_nil [] = refl
append_nil (x ∷ xs) = ap (λ ys. x ∷ ys) (append_nil xs)

append_replicate :
    (xs : List ClientId) (n : ℕ) (c : ClientId)
    → (xs ++ c ∷ []) ++ replicate n c ≡ xs ++ replicate (suc n) c
append_replicate [] n c = refl
append_replicate (x ∷ xs) n c = ap (λ ys. x ∷ ys) (append_replicate xs n c)

replicate-append :
    (xs : List ClientId) (m n : ℕ) (c : ClientId)
    → (xs ++ replicate m c) ++ replicate n c ≡ xs ++ replicate (m + n) c
replicate-append (x ∷ xs) m n c = ap (λ ys. x ∷ ys) (replicate-append xs m n c)
replicate-append [] zero n c = ap (λ k. replicate k c) {x = n} {y = 0 + n} (omega arith)
replicate-append [] (suc m) n c =
    ap (λ ys. c ∷ ys) (replicate-append [] m n c)
    ∙ ap (λ k. replicate k c) {x = suc (m + n)} {y = suc m + n} (omega arith)

pub filter_peers-replicate :
    (f : ClientId → Option PeerId) (n : ℕ) (c : ClientId) (a : PeerId)
    → f c ≡ some a
    → filter_peers f (replicate n c) ≡ replicate n a
unfolding filter_peers
filter_peers-replicate f zero c a e = refl
filter_peers-replicate f (suc n) c a e = rw (e, filter_peers-replicate f n c a e) refl

module _ (sha1 : Bytes → Bytes) (k : FileHash) where
  -- How many of the files have the hash `k`.
  abbrev pub times : List InfoHash → ℕ
  times [] = 0
  times (h ∷ hashes) =
      let rest = times hashes in if eqb (get_hashed_info_hash sha1 h) k then suc rest else rest

abbrev pub files : TorrentClient → List InfoHash
files t = map (λ (_, info_hash). info_hash) t.file_hashes

-- A round of seeding that goes on: its sockets have addresses, and no shutdown ends its wait.
abbrev pub GoesOn : Addresses × Heard → Type 0
GoesOn (sockets, heard) = ((a : PeerId) × (address_of sockets ≡ ok a)) × (heard ≢ closed)

module _ (sha1 : Bytes → Bytes) (D : Deps) (draws : List Text) (tx : D.PeerSender)
    (t : TorrentClient) (k : FileHash) where
  abbrev pub Stub : Connector
  Stub = served D draws tx

  -- `s'` differs from `s` by `n` more offers of the file by the client, and knows its address.
  pub record Added (n : ℕ) (a : PeerId) (s s' : State D) : Type 0 where
    pub known : peer_of s' t.uid ≡ some (some a)
    pub offers : or_new (seeders_of s' k) ≡ or_new (seeders_of s k) ++ replicate n t.uid

  offer-Added :
      (n : ℕ) (a : PeerId) (s s' : State D) (h : InfoHash)
      → Added n a (offer s (get_hashed_info_hash sha1 h) h t.uid) s'
      → Added (if eqb (get_hashed_info_hash sha1 h) k then suc n else n) a s s'
  offer-Added n a s s' h v = record {
    known = v.known;
    offers = ground (
      arith,
      v.offers,
      eqb_iff (get_hashed_info_hash sha1 h) k,
      seeders_of-offer s (get_hashed_info_hash sha1 h) k h t.uid,
      append_replicate (or_new (seeders_of s k)) n t.uid,
    );
  }

  pub advertise_each-Added :
      (hashes : List InfoHash) (a : PeerId) (w : World Stub)
      → peer_of w.server t.uid ≡ some (some a)
      → (w' : World Stub) × (advertise_each sha1 Stub t hashes w ≡ (ok tt, w'))
        × Added (times sha1 k hashes) a w.server w'.server
        × (w'.disk ≡ w.disk)
  unfolding advertise_each advertise Files.advertise
  advertise_each-Added [] a w e = (
    w,
    refl,
    record { known = e; offers = sym (append_nil (or_new (seeders_of w.server k))) },
    refl,
  )
  advertise_each-Added (h ∷ hashes) a w e =
      let s = offer w.server (get_hashed_info_hash sha1 h) h t.uid in
      let (w', run, v, kept) = advertise_each-Added hashes a (record w { server = s }) e in
      (w', run, offer-Added (times sha1 k hashes) a w.server w'.server h v, kept)

  pub register_new_connection_lem :
      (sockets : Addresses) (a : PeerId) (w : World Stub)
      → address_of sockets ≡ ok a
      → (w' : World Stub) × (register_new_connection sha1 Stub t sockets w
          ≡ (ok (record { self_addr = a; pub_socket = true; priv_socket = true }), w'))
        × Added 0 a w.server w'.server
        × (w'.disk ≡ w.disk)
  unfolding register_new_connection update_registered_peer_id Registry.update_registered_peer_id
  register_new_connection_lem sockets a w e = (
    record w {
      server = record w.server {
        client_registry = D.registry.insert w.server.client_registry t.uid (some a);
      };
    },
    rw e refl,
    record {
      known = ground (
        arith,
        eqb_refl t.uid,
        D.registry.get-insert w.server.client_registry t.uid t.uid (some a),
      );
      offers = sym (append_nil (or_new (seeders_of w.server k)));
    },
    refl,
  )

  pub Added-Added :
      (m n : ℕ) (a b : PeerId) (s s' s'' : State D)
      → Added m a s s'
      → Added n b s' s''
      → Added (m + n) b s s''
  Added-Added m n a b s s' s'' v u = record {
    known = u.known;
    offers =
        u.offers
        ∙ ap (λ l. l ++ replicate n t.uid) v.offers
        ∙ replicate-append (or_new (seeders_of s k)) m n t.uid;
  }
