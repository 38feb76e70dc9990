-- ===== src/Server/Registry.antt =====
-- server/src/main.rs: registration of clients, and the questions that read the registry.
pub mod Lookup
use bear_torrent_final_proje.Base.{
  Option, none, some, List, [], ◌∷◌, Outcome, ok, err, panicked, ◌>>=◌, ok_or, if◌then◌else◌, eqb,
  bytes_eq,
}
use bear_torrent_final_proje.Base.Dict.{Dict}
use bear_torrent_final_proje.Proto.{Text, ClientId, PeerId, FileHash, FullId, peer_eq}
use bear_torrent_final_proje.Server.State.{
  Deps, State, Status, invalid_argument, not_found, internal, Response, peer_of, seeders_of,
}

-- `|s| client_map.get(&s)?.to_owned()`
abbrev pub known_peer : Option (Option PeerId) → Option PeerId
known_peer none = none
known_peer (some peer) = peer

-- `filter_map`
unfoldable pub filter_peers : (ClientId → Option PeerId) → List ClientId → List PeerId
filter_peers f [] = []
filter_peers f (c ∷ clients) =
    let rest = filter_peers f clients in elim (f c) [ none ↦ rest | some peer ↦ peer ∷ rest ]

-- The body of the loop of `register_client`: the first of the drawn identifiers that is not
-- registered yet; `none` when the draws given run out.
unfoldable pub draw_uid : (ClientId → Option (Option PeerId)) → List Text → Option Text
draw_uid registered [] = none
draw_uid registered (uid ∷ draws) =
    let rest = draw_uid registered draws in
    elim (registered uid) [ none ↦ some uid | some peer ↦ rest ]

-- The closure of `get_client_id`, over the entries in the map's order.
unfoldable pub find_client :
    PeerId → Dict ClientId (Option PeerId) → Outcome Status (Option ClientId)
find_client peer [] = ok none
find_client peer ((client_id, none) ∷ entries) = panicked
find_client peer ((client_id, some saved_peer) ∷ entries) =
    let rest = find_client peer entries in if eqb saved_peer peer then ok (some client_id) else rest

module _ {D : Deps} where
  unfoldable pub get_file_peer_list : State D → FileHash → List PeerId
  get_file_peer_list s info_hash = elim (seeders_of s info_hash) [
    | some clients ↦ filter_peers (λ c. known_peer (peer_of s c)) clients
    | none ↦ []
  ]

  -- `Uuid::new_v4` draws the texts; the loop ends at the first that is not registered.
  abbrev pub insert_client : State D → Option PeerId → Text → Response ClientId × State D
  insert_client s peer_id [] = (err (internal "failed to generate uid"), s)
  insert_client s peer_id (c ∷ uid) = (
    ok (c ∷ uid),
    record s { client_registry = D.registry.insert s.client_registry (c ∷ uid) peer_id },
  )

  unfoldable pub register_client :
      List Text → State D → Option PeerId → Option (Response ClientId × State D)
  register_client draws s peer_id = elim (draw_uid (peer_of s) draws) [
    | none ↦ none
    | some uid ↦ some (insert_client s peer_id uid)
  ]

  unfoldable pub update_registered_peer_id : State D → FullId → Response ClientId × State D
  update_registered_peer_id s r = elim r.self_id [
    | none ↦ (err (invalid_argument "self id not provided"), s)
    | some self_id ↦ elim r.peer_id [
      | none ↦ (err (invalid_argument "peer id not provided"), s)
      | some peer_id ↦ (
        ok self_id,
        record s { client_registry = D.registry.insert s.client_registry self_id (some peer_id) },
      )
    ]
  ]

  unfoldable pub get_client_id : State D → PeerId → Response ClientId
  get_client_id s peer = do
    found ← find_client peer (D.registry.iter s.client_registry)
    ok_or found (not_found "No client registered for that peer")
