-- ===== src/Server/Run/Offers.antt =====
-- What a leecher is told: the peers of a file, and the files on offer.
use mathlib.Core.List.{Mem, mem-cons, not-mem-nil, mem-cons_self, mem-cons_of_mem}
use mathlib.Core.Logic.{∥∥₁_elim, ∥∥₁_map, ∥∥₁_prop}
use mathlib.Core.Logic.Or
use bear_torrent_final_proje.Base.{
  ◌≡◌, refl, sym, ◌∙◌, ◌≢◌, ◌↔◌, Option, none, some, List, [], ◌∷◌, ◌++◌, arith, true,
  if◌then◌else◌, eqb, eqb_iff, eqb_refl, bytes_eq, Option-cases, Bool-cases, inl, inr, map,
}
use bear_torrent_final_proje.Base.Dict.{Dict, lookup}
use bear_torrent_final_proje.Proto.{ClientId, PeerId, FileHash, InfoHash, peer_eq}
use bear_torrent_final_proje.Server.Maps.{NodupKeys}
use bear_torrent_final_proje.Server.State.{Deps, State, info_of, seeders_of, peer_of}
use bear_torrent_final_proje.Server.Registry.{known_peer, filter_peers, get_file_peer_list}
use bear_torrent_final_proje.Server.Files.{
  or_new, offer, withdraw, delist, advertise, delete_file, delist_client, without, drop_seeder,
  strike, strike_all, get_all_files,
}
use bear_torrent_final_proje.Server.Files.Effects.{
  struck, occupied, seeders_of-offer, seeders_of-withdraw, seeders_of-delist,
}
use bear_torrent_final_proje.Server.Run.Consistency.{IsConsistent, or_new-occupied}

filter_peers-append :
    (f : ClientId → Option PeerId) (xs ys : List ClientId)
    → filter_peers f (xs ++ ys) ≡ filter_peers f xs ++ filter_peers f ys
unfolding filter_peers
filter_peers-append f [] ys = refl
filter_peers-append f (x ∷ xs) ys = ground (arith, filter_peers-append f xs ys)

pub or_new-occupied-struck :
    (c : ClientId) (l : Option (List ClientId))
    → or_new (occupied (struck c l)) ≡ without c (or_new l)
unfolding without
or_new-occupied-struck c none = refl
or_new-occupied-struck c (some l) = or_new-occupied (some (without c l))

pub or_new-struck :
    (c : ClientId) (l : Option (List ClientId)) → or_new (struck c l) ≡ without c (or_new l)
unfolding without
or_new-struck c none = refl
or_new-struck c (some l) = refl

-- A client that is struck from the list does not matter.
filter_peers-without :
    (f g : ClientId → Option PeerId) (c : ClientId) (l : List ClientId)
    → ((x : ClientId) → x ≢ c → f x ≡ g x)
    → filter_peers f (without c l) ≡ filter_peers g (without c l)
unfolding filter_peers without
filter_peers-without f g c [] same = refl
filter_peers-without f g c (x ∷ l) same =
    ground (arith, eqb_iff x c, same x, filter_peers-without f g c l same)

module _ {D : Deps} where
  -- The peers of a list of clients, as the registry has them.
  abbrev pub peers : State D → List ClientId → List PeerId
  peers s = filter_peers (λ c. known_peer (peer_of s c))

  pub peer_list-seeders :
      (s : State D) (h : FileHash) → get_file_peer_list s h ≡ peers s (or_new (seeders_of s h))
  unfolding get_file_peer_list filter_peers
  peer_list-seeders s h = ground arith

  -- After a client has advertised a file, the peer list of that file is the old one followed by the
  -- address of the client if the registry has one; no other file's peer list changes.
  pub get_file_peer_list-advertise :
      (s : State D) (k h : FileHash) (i : InfoHash) (c : ClientId)
      → get_file_peer_list
          (advertise s (record { id = some c; hash = some k; info_hash = some i })).1
          h
        ≡ (if eqb k h then get_file_peer_list s h ++ peers s (c ∷ []) else get_file_peer_list s h)
  unfolding advertise
  get_file_peer_list-advertise s k h i c = ground (
    arith,
    eqb_iff k h,
    peer_list-seeders s h,
    peer_list-seeders (offer s k i c) h,
    seeders_of-offer s k h i c,
    filter_peers-append (λ x. known_peer (peer_of s x)) (or_new (seeders_of s h)) (c ∷ []),
  )

  client_registry-drop_seeder :
      (s : State D) (k : FileHash) (l : List ClientId)
      → (drop_seeder s k l).client_registry ≡ s.client_registry
  client_registry-drop_seeder s k [] = refl
  client_registry-drop_seeder s k (c ∷ l) = refl

  client_registry-strike :
      (s : State D) (k : FileHash) (l : List ClientId)
      → (strike s k l).client_registry ≡ s.client_registry
  client_registry-strike s k [] = refl
  client_registry-strike s k (c ∷ l) = refl

  pub client_registry-withdraw :
      (s : State D) (k : FileHash) (c : ClientId)
      → (withdraw s k c).client_registry ≡ s.client_registry
  client_registry-withdraw s k c = elim (Option-cases (seeders_of s k)) [
    | inl e ↦ rw (e, withdraw)
    | inr (l, e) ↦ rw (e, withdraw) (client_registry-drop_seeder s k (without c l))
  ]

  -- After a client has deleted a file, the peer list of that file comes from the other seeders, in
  -- their order; no other file's peer list changes.
  pub get_file_peer_list-delete_file :
      (s : State D) (k h : FileHash) (c : ClientId)
      → get_file_peer_list (delete_file s (record { id = some c; hash = some k })).1 h ≡ (
          if eqb k h then peers s (without c (or_new (seeders_of s h))) else get_file_peer_list s h)
  unfolding delete_file
  get_file_peer_list-delete_file s k h c = ground (
    arith,
    eqb_iff k h,
    peer_list-seeders s h,
    peer_list-seeders (withdraw s k c) h,
    seeders_of-withdraw s k h c,
    client_registry-withdraw s k c,
    or_new-occupied-struck c (seeders_of s h),
  )

  client_registry-strike_all :
      (c : ClientId) (es : Dict FileHash (List ClientId)) (s : State D)
      → (strike_all c es s).client_registry ≡ s.client_registry
  unfolding strike_all
  client_registry-strike_all c [] s = refl
  client_registry-strike_all c ((k, l) ∷ es) s =
      client_registry-strike_all c es (strike s k (without c l))
      ∙ client_registry-strike s k (without c l)

  pub peer_of-delist :
      (s : State D) (c x : ClientId) (p : Option PeerId)
      → peer_of (delist s c p) x ≡ (if eqb c x then none else peer_of s x)
  peer_of-delist s c x none =
      rw (client_registry-strike_all c _ _) (D.registry.get-remove s.client_registry c x)
  peer_of-delist s c x (some p) =
      rw (client_registry-strike_all c _ _) (D.registry.get-remove s.client_registry c x)

  peers-delist :
      (s : State D) (c : ClientId) (p : Option PeerId) (l : List ClientId)
      → peers (delist s c p) (without c l) ≡ peers s (without c l)
  peers-delist s c p l =
      filter_peers-without _ _ c l
        (λ x ne. ground (arith, peer_of-delist s c x p, eqb_iff c x, λ (e : c ≡ x). ne (sym e)))

  -- Delisting a registered client takes it out of the registry and out of every peer list, and
  -- leaves the other seeders of each file in their order.
  pub get_file_peer_list-delist_client :
      (s : State D) (c : ClientId) (p : Option PeerId) (h : FileHash)
      → peer_of s c ≡ some p
      → (peer_of (delist_client s c) c ≡ none)
        × (get_file_peer_list (delist_client s c) h ≡ peers s (without c (or_new (seeders_of s h))))
  unfolding delist_client
  get_file_peer_list-delist_client s c p h e =
      rw (e, delist_client)
        (ground (
          arith,
          peer_of-delist s c c p,
          eqb_refl c,
          peer_list-seeders (delist s c p) h,
          seeders_of-delist s c p h,
          or_new-struck c (seeders_of s h),
          peers-delist s c p (or_new (seeders_of s h)),
        ))

mem_values :
    (es : Dict FileHash InfoHash) (i : InfoHash)
    → NodupKeys es
    → Mem i (map (λ (_, info_hash). info_hash) es)
    → ∥ ((h : FileHash) × (lookup h es ≡ some i)) ∥₁
unfolding lookup
mem_values [] i u m = absurd (not-mem-nil m)
mem_values ((k, v) ∷ es) i (fresh, u) m =
    Or.elim ∥∥₁_prop (mem-cons.0 m) (λ e. ∣ (k, ground (arith, eqb_refl k)) ∣₁)
      (λ m'. ∥∥₁_map (mem_values es i u m') (λ (h, e). (h, ground (arith, eqb_iff k h))))

values_mem :
    (es : Dict FileHash InfoHash) (i : InfoHash) (h : FileHash)
    → lookup h es ≡ some i
    → Mem i (map (λ (_, info_hash). info_hash) es)
unfolding lookup
values_mem [] i h e = cc
values_mem ((k, v) ∷ es) i h e = elim (Bool-cases (eqb k h)) [
  | inl same ↦ rw (hit same) mem-cons_self
  | inr other ↦ mem-cons_of_mem v (values_mem es i h (ground arith))
]
  where
    hit : eqb k h ≡ true → i ≡ v
    hit same = ground arith

-- In a state in which the tracker has a file exactly if the seeder list has a client for it, the
-- files on offer are exactly the tracked files that have at least one seeder.
pub get_all_files_iff :
    {D : Deps} (s : State D) (i : InfoHash)
    → IsConsistent s
    → Mem i (get_all_files s)
      ↔ ∥ ((h : FileHash) × (info_of s h ≡ some i) × (or_new (seeders_of s h) ≢ [])) ∥₁
unfolding get_all_files
get_all_files_iff {D} s i v = (
  λ m.
      ∥∥₁_map (mem_values entries i (D.tracker.NodupKeys-iter s.file_tracker) m)
        (λ (h, e). (h, ground (arith, D.tracker.lookup-iter s.file_tracker h), seeded h e)),
  λ t.
      ∥∥₁_elim t ∥∥₁_prop
        (λ (h, e, _). values_mem entries i h (D.tracker.lookup-iter s.file_tracker h ∙ e)),
)
  where
    entries : Dict FileHash InfoHash
    entries = D.tracker.iter s.file_tracker

    seeded : (h : FileHash) → lookup h entries ≡ some i → or_new (seeders_of s h) ≢ []
    seeded h e f = ground (arith, D.tracker.lookup-iter s.file_tracker h, v.agree h)
