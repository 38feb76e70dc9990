-- ===== src/TorrentClient/Removal.antt =====
-- Deleting a file, on the server and on the disk, and what the next round of seeding makes of it.
use bear_torrent_final_proje.Base.{
  ◌*◌, ◌≡◌, refl, ◌∙◌, ap, true, false, All, none, some, List, ◌++◌, ok, arith, eqb, eqb_refl,
  bytes_eq, if◌then◌else◌, replicate, length,
}
use bear_torrent_final_proje.Proto.{Text, Bytes, PeerId, InfoHash, peer_eq}
use bear_torrent_final_proje.FileHandler.Disk.{content_of, has_dir, has_slash}
use bear_torrent_final_proje.FileHandler.Pieces.{get_hashed_info_hash}
use bear_torrent_final_proje.FileHandler.Store.{cache_dir, file_path}
use bear_torrent_final_proje.FileHandler.Records.Deleting.{is_of, delete_file_lem}
use bear_torrent_final_proje.PeerConnection.{PeerConnection}
use bear_torrent_final_proje.Server.State.{Deps, State, peer_of, seeders_of}
use bear_torrent_final_proje.Server.Registry.{get_file_peer_list}
use bear_torrent_final_proje.Server.Files.{or_new, without}
use bear_torrent_final_proje.Server.Files
use bear_torrent_final_proje.Server.Run.Offers.{
  peers, get_file_peer_list-delete_file, or_new-occupied-struck, client_registry-withdraw,
}
use bear_torrent_final_proje.Server.Files.Effects.{seeders_of-withdraw}
use bear_torrent_final_proje.TorrentClient.Sockets.{Addresses}
use bear_torrent_final_proje.TorrentClient.Rpc.{Connector, World}
use bear_torrent_final_proje.TorrentClient.{TorrentClient, Heard, delete_file, seeding}
use bear_torrent_final_proje.TorrentClient.Offers.{Stub, times, files, GoesOn}
use bear_torrent_final_proje.TorrentClient.Seeding.{seeding-Added}

module _ (sha1 : Bytes → Bytes) (D : Deps) (draws : List Text) (tx : D.PeerSender)
    (t : TorrentClient) (h : InfoHash) where
  abbrev pub key : Bytes
  key = get_hashed_info_hash sha1 h

  abbrev pub Server : Connector
  Server = Stub sha1 D draws tx t key

  -- Deleting a file that the client has, while the server is reached: the server's peer list of the
  -- file keeps the other seeders, in their order; every other peer list stays; and the disk loses the
  -- file with its cached files and nothing else. The name has no slash, and the directory of the cache
  -- is there.
  pub delete_file_both :
      (content : Bytes) (w : World Server)
      → has_slash h.name ≡ false
      → has_dir w.disk.dirs cache_dir ≡ true
      → content_of w.disk (file_path h.name) ≡ some content
      → (w' : World Server) × (delete_file sha1 Server t h w ≡ (ok tt, w'))
        × ((k : Bytes)
            → get_file_peer_list w'.server k ≡ (
                if eqb (get_hashed_info_hash sha1 h) k
                then peers w.server (without t.uid (or_new (seeders_of w.server k)))
                else get_file_peer_list w.server k))
        × ((q : Text)
            → content_of w'.disk q ≡ (if is_of h.name q then none else content_of w.disk q))
  unfolding delete_file Files.delete_file
  delete_file_both content w plain r found =
      let (d', e, gone) = delete_file_lem h plain content w.disk r found in
      (
        record {
          server = (Files.delete_file w.server (record { id = some t.uid; hash = some key })).1;
          disk = d';
        },
        rw e refl,
        λ k. get_file_peer_list-delete_file w.server key k t.uid,
        gone,
      )

  withdrawn :
      (s : State D)
      → or_new (seeders_of (Files.withdraw s key t.uid) key)
        ≡ without t.uid (or_new (seeders_of s key))
  withdrawn s = ground (
    arith,
    eqb_refl key,
    seeders_of-withdraw s key key t.uid,
    or_new-occupied-struck t.uid (seeders_of s key),
  )

  -- A client that deletes a file and keeps seeding offers it again: it still has the record of the
  -- file, so each round that goes on adds the client to the seeders of the file, once for each of its
  -- records with that hash, while the file is gone from the disk. The client has an address, the
  -- name has no slash, and the directory of the cache is there.
  pub seeding-delete_file :
      (content : Bytes) (b : PeerId) (rounds : List (Addresses × Heard)) (w : World Server)
      → has_slash h.name ≡ false
      → has_dir w.disk.dirs cache_dir ≡ true
      → content_of w.disk (file_path h.name) ≡ some content
      → peer_of w.server t.uid ≡ some (some b)
      → All GoesOn rounds
      → (w' w'' : World Server) × (r : List (PeerConnection × PeerId)) × (delete_file sha1 Server t
            h w
          ≡ (ok tt, w'))
        × (seeding sha1 Server t rounds w' ≡ (ok r, w''))
        × (content_of w''.disk (file_path h.name) ≡ none)
        × (or_new (seeders_of w''.server (get_hashed_info_hash sha1 h))
            ≡ without t.uid (or_new (seeders_of w.server (get_hashed_info_hash sha1 h)))
              ++ replicate
                  (length rounds * times sha1 (get_hashed_info_hash sha1 h) (files t))
                  t.uid)
  unfolding delete_file Files.delete_file
  seeding-delete_file content b rounds w plain r found e g =
      let (d', ran, gone) = delete_file_lem h plain content w.disk r found in
      let s' = Files.withdraw w.server key t.uid in
      let w' : World Server = record { server = s'; disk = d' } in
      let known : peer_of s' t.uid ≡ some (some b) =
        ap (λ m. D.registry.get m t.uid) (client_registry-withdraw w.server key t.uid) ∙ e in
      let (started, w'', a, run, v, kept) =
        seeding-Added sha1 D draws tx t key rounds b w' known g in
      (
        w',
        w'',
        started,
        rw ran refl,
        run,
        ap (λ d. content_of d (file_path h.name)) kept
            ∙ gone (file_path h.name)
            ∙ ground (arith, eqb_refl (file_path h.name)),
        v.offers
            ∙ ap (λ l. l ++ replicate (length rounds * times sha1 key (files t)) t.uid)
                (withdrawn w.server),
      )
