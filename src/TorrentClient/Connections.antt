-- ===== src/TorrentClient/Connections.antt =====
-- The connections that a download starts, and where its requests go.
use bear_torrent_final_proje.Base.{
  ℕ, zero, suc, ◌+◌, ◌<◌, ◌≤◌, ◌≡◌, refl, sym, ◌∙◌, ap, true, some, List, [], ◌∷◌, ◌++◌, ok, arith,
  min, length, take, drop, get_elem?, map, bytes_eq,
}
use bear_torrent_final_proje.Proto.{Text, Bytes, PeerId, InfoHash, peer_eq}
use bear_torrent_final_proje.FileHandler.Pieces.{get_hashed_info_hash}
use bear_torrent_final_proje.Assembler.Setup.{
  FileAssembler, new_assembler, subscribe_new_connection,
}
use bear_torrent_final_proje.Server.State.{Deps}
use bear_torrent_final_proje.Server.Registry.{get_file_peer_list}
use bear_torrent_final_proje.TorrentClient.Sockets.{Addresses, address_of}
use bear_torrent_final_proje.TorrentClient.Rpc.{Connector, World, locally}
use bear_torrent_final_proje.TorrentClient.{
  TorrentClient, Started, TaskEnd, wait_on, connect_from, start_connections, file_request,
}
use bear_torrent_final_proje.TorrentClient.Offers.{Stub, register_new_connection_lem}

abbrev pub numbers : ℕ → ℕ → List ℕ
numbers i zero = []
numbers i (suc n) = i ∷ numbers (i + 1) n

append_cons : (xs : List ℕ) (y : ℕ) (ys : List ℕ) → (xs ++ y ∷ []) ++ ys ≡ xs ++ (y ∷ ys)
append_cons [] y ys = refl
append_cons (x ∷ xs) y ys = ap (λ zs. x ∷ zs) (append_cons xs y ys)

append_nil : (xs : List ℕ) → xs ++ [] ≡ xs
append_nil [] = refl
append_nil (x ∷ xs) = ap (λ ys. x ∷ ys) (append_nil xs)

length_snoc : (xs : List ℕ) (y : ℕ) → length (xs ++ y ∷ []) ≡ length xs + 1
length_snoc [] y = refl
length_snoc (x ∷ xs) y = omega (arith, length_snoc xs y)

next_peer :
    (peers : List PeerId) (i left : ℕ)
    → i < length peers
    → (p : PeerId) × (get_elem? peers i ≡ some p)
      × (take (suc left) (drop i peers) ≡ p ∷ take left (drop (i + 1) peers))
next_peer [] i left l = absurd (omega arith)
next_peer (p ∷ peers) zero left l = (p, refl, refl)
next_peer (p ∷ peers) (suc i) left l =
    let (q, e, f) = next_peer peers i left (omega arith) in
    (
      q,
      e,
      f
          ∙ ap (λ k. q ∷ take left (drop k (p ∷ peers))) {x = suc (i + 1)} {y = suc i + 1}
              (omega arith),
    )

module _ (sha1 : Bytes → Bytes) (D : Deps) (draws : List Text) (tx : D.PeerSender)
    (t : TorrentClient) (h : InfoHash) where
  abbrev key : Bytes
  key = get_hashed_info_hash sha1 h

  abbrev pub Server : Connector
  Server = Stub sha1 D draws tx t key

  -- What `left` rounds of the loop add, from connection `i` on.
  record Connected (peers : List PeerId) (left i : ℕ) (a a' : FileAssembler)
      (handles : List Started) : Type 0 where
    same : a'.num_connections ≡ a.num_connections
    txs : a'.request_txs ≡ a.request_txs ++ numbers (length a.request_txs) left
    rxs : map (λ s. s.request_rx) handles ≡ numbers (length a.request_txs) left
    peers_of : map (λ s. s.peer) handles ≡ take left (drop i peers)

  connect_from-Connected :
      (sockets : ℕ → Addresses) (peers : List PeerId) (left i : ℕ) (a : FileAssembler)
      (w : World Server)
      → ((j : ℕ) → (address : PeerId) × (address_of (sockets j) ≡ ok address))
      → i + left ≤ length peers
      → (a' : FileAssembler) × (handles : List Started) × (w' : World Server) × (connect_from sha1
            Server t sockets peers left i a w
          ≡ (ok (a', handles), w'))
        × Connected peers left i a a' handles
  unfolding connect_from
  connect_from-Connected sockets peers zero i a w online l = (
    a,
    [],
    w,
    refl,
    record { same = refl; txs = sym (append_nil a.request_txs); rxs = refl; peers_of = refl },
  )
  connect_from-Connected sockets peers (suc left) i a w online l =
      let (address, found) = online i in
      let (w1, e1, _, _) =
        register_new_connection_lem sha1 D draws tx t key (sockets i) address w found in
      let (p, e2, front) = next_peer peers i left (omega arith) in
      let (rx, subscribed) = subscribe_new_connection a in
      let (a', handles, w', e3, x) =
        connect_from-Connected sockets peers left (i + 1) subscribed w1 online (omega arith) in
      (
        a',
        record {
          connection = record { self_addr = address; pub_socket = true; priv_socket = true };
          peer = p;
          request_rx = rx;
        }
            ∷ handles,
        w',
        rw (e1, e2, e3) refl,
        record {
          same = x.same;
          txs =
              x.txs
              ∙ ap (λ m. subscribed.request_txs ++ numbers m left) (length_snoc a.request_txs rx)
              ∙ append_cons a.request_txs rx (numbers (length a.request_txs + 1) left);
          rxs =
              ap (λ ns. rx ∷ ns) (x.rxs ∙ ap (λ m. numbers m left) (length_snoc a.request_txs rx));
          peers_of = ap (λ ps. p ∷ ps) x.peers_of ∙ sym front;
        },
      )

  -- A download starts one connection for each of the first peers of the file, as many as there are
  -- peers or pieces, whichever is less: connection `i` goes to peer `i` and takes its requests from
  -- channel `i`, and the assembler counts as many connections as it has channels. The whole
  -- call then ends as the wait for those connections does. The server is reached, and each
  -- connection finds the addresses of its sockets.
  pub file_request_lem :
      (sockets : ℕ → Addresses) (ends : Started → TaskEnd) (w : World Server)
      → ((j : ℕ) → (address : PeerId) × (address_of (sockets j) ≡ ok address))
      → let peers = get_file_peer_list w.server (get_hashed_info_hash sha1 h) in
        let n = min (length peers) (length h.pieces) in
        (a : FileAssembler) × (handles : List Started) × (w' : World Server) × (start_connections
            sha1 Server t sockets h w
          ≡ (ok (a, handles), w'))
        × (file_request sha1 Server t sockets ends h w
            ≡ (locally Server (wait_on (map ends handles)), w'))
        × (a.num_connections ≡ n)
        × (a.request_txs ≡ numbers 0 n)
        × (map (λ s. s.request_rx) handles ≡ numbers 0 n)
        × (map (λ s. s.peer) handles ≡ take n peers)
  unfolding file_request start_connections
  file_request_lem sockets ends w online =
      let peers = get_file_peer_list w.server (get_hashed_info_hash sha1 h) in
      let n = min (length peers) (length h.pieces) in
      let (a, handles, w', e, x) =
        connect_from-Connected sockets peers n 0 (new_assembler h n) w online (omega arith) in
      (a, handles, w', rw e refl, rw e refl, x.same, x.txs, x.rxs, x.peers_of)
