-- ===== src/Server/Files.antt =====
-- server/src/main.rs: the files on offer and their seeders.
pub mod Effects
use bear_torrent_final_proje.Base.{
  Bool, Option, none, some, List, [], ◌∷◌, ◌++◌, ok, err, if◌then◌else◌, eqb, bytes_eq, map,
}
use bear_torrent_final_proje.Base.Dict.{Dict}
use bear_torrent_final_proje.Proto.{
  ClientId, PeerId, FileHash, InfoHash, FileMessage, FileDelete, peer_eq,
}
use bear_torrent_final_proje.Server.State.{
  Deps, State, Status, invalid_argument, Response, peer_of, info_of, seeders_of,
}

-- `retain(|client_id| *client_id != self_id)`
unfoldable pub without : ClientId → List ClientId → List ClientId
without c [] = []
without c (x ∷ xs) = let rest = without c xs in if eqb x c then rest else x ∷ rest

-- `or_insert_with(Vec::new)`
abbrev pub or_new : Option (List ClientId) → List ClientId
or_new none = []
or_new (some clients) = clients

module _ {D : Deps} where
  abbrev pub offer : State D → FileHash → InfoHash → ClientId → State D
  offer s file_hash info_hash client_id = record s {
    file_tracker = D.tracker.insert s.file_tracker file_hash info_hash;
    seeder_list =
        D.seeders.insert s.seeder_list file_hash
          (or_new (seeders_of s file_hash) ++ client_id ∷ []);
  }

  unfoldable pub advertise : State D → FileMessage → Response ClientId × State D
  advertise s r = elim r.hash [
    | none ↦ (err (invalid_argument "missing file hash"), s)
    | some file_hash ↦ elim r.info_hash [
      | none ↦ (err (invalid_argument "missing info hash"), s)
      | some info_hash ↦ elim r.id [
        | none ↦ (err (invalid_argument "Client missing"), s)
        | some client_id ↦ (ok client_id, offer s file_hash info_hash client_id)
      ]
    ]
  ]

  unfoldable pub get_all_files : State D → List InfoHash
  get_all_files s = map (λ (_, info_hash). info_hash) (D.tracker.iter s.file_tracker)

  -- The block under `if let Some(mut entry)`, for the list that `retain` leaves.
  abbrev pub drop_seeder : State D → FileHash → List ClientId → State D
  drop_seeder s file_hash [] = record s {
    seeder_list = D.seeders.remove s.seeder_list file_hash;
    file_tracker = D.tracker.remove s.file_tracker file_hash;
  }
  drop_seeder s file_hash (c ∷ clients) = record s {
    seeder_list = D.seeders.insert s.seeder_list file_hash (c ∷ clients);
  }

  abbrev pub withdraw : State D → FileHash → ClientId → State D
  withdraw s file_hash self_id = elim (seeders_of s file_hash) [
    | none ↦ s
    | some clients ↦ drop_seeder s file_hash (without self_id clients)
  ]

  unfoldable pub delete_file : State D → FileDelete → Response (Unit {0}) × State D
  delete_file s req = elim req.id [
    | none ↦ (err (invalid_argument "missing self id"), s)
    | some self_id ↦ elim req.hash [
      | none ↦ (err (invalid_argument "missing file hash"), s)
      | some file_hash ↦ (ok tt, withdraw s file_hash self_id)
    ]
  ]

  -- One round of `iter_mut().for_each`: the entry keeps its key, empty or not.
  abbrev pub strike : State D → FileHash → List ClientId → State D
  strike s file_hash [] = record s {
    seeder_list = D.seeders.insert s.seeder_list file_hash [];
    file_tracker = D.tracker.remove s.file_tracker file_hash;
  }
  strike s file_hash (c ∷ clients) = record s {
    seeder_list = D.seeders.insert s.seeder_list file_hash (c ∷ clients);
  }

  unfoldable pub strike_all : ClientId → Dict FileHash (List ClientId) → State D → State D
  strike_all client_id [] s = s
  strike_all client_id ((file_hash, clients) ∷ entries) s =
      strike_all client_id entries (strike s file_hash (without client_id clients))

  -- The three removals under `if let Some(peer_id)`; each is guarded by `contains_key`.
  abbrev pub forget_peer : State D → Option PeerId → State D
  forget_peer s none = s
  forget_peer s (some peer_id) = record s {
    seed_notifier = elim (D.notifiers.get s.seed_notifier peer_id) [
      | some tx ↦ D.notifiers.remove s.seed_notifier peer_id
      | none ↦ s.seed_notifier
    ];
    cert_sender = elim (D.certs.get s.cert_sender peer_id) [
      | some tx ↦ D.certs.remove s.cert_sender peer_id
      | none ↦ s.cert_sender
    ];
    init_hole_punch = elim (D.punches.get s.init_hole_punch peer_id) [
      | some tx ↦ D.punches.remove s.init_hole_punch peer_id
      | none ↦ s.init_hole_punch
    ];
  }

  -- The removal of a registered client.
  abbrev pub delist : State D → ClientId → Option PeerId → State D
  delist s client_id peer_id =
      let s' =
        forget_peer (record s { client_registry = D.registry.remove s.client_registry client_id })
          peer_id in
      strike_all client_id (D.seeders.iter s'.seeder_list) s'

  unfoldable pub delist_client : State D → ClientId → State D
  delist_client s client_id = elim (peer_of s client_id) [
    | none ↦ s
    | some peer_id ↦ delist s client_id peer_id
  ]
