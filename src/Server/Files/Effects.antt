-- ===== src/Server/Files/Effects.antt =====
-- What each operation on the files on offer does to the two maps, key by key.
use bear_torrent_final_proje.Base.{
  ◌≡◌, refl, Option, none, some, List, [], ◌∷◌, ◌++◌, arith, if◌then◌else◌, eqb, eqb_iff, bytes_eq,
  Option-cases, inl, inr,
}
use bear_torrent_final_proje.Base.Dict.{Dict, lookup}
use bear_torrent_final_proje.Proto.{ClientId, PeerId, FileHash, InfoHash, peer_eq}
use bear_torrent_final_proje.Server.Maps.{NodupKeys}
use bear_torrent_final_proje.Server.State.{Deps, State, info_of, seeders_of}
use bear_torrent_final_proje.Server.Files.{
  without, or_new, offer, withdraw, drop_seeder, strike, strike_all, forget_peer, delist,
}

-- The entry of a file from the list of its seeders: none without a seeder.
abbrev pub kept : List ClientId → Option InfoHash → Option InfoHash
kept [] info_hash = none
kept (c ∷ clients) info_hash = info_hash

-- An entry of the seeder list without a client.
abbrev pub struck : ClientId → Option (List ClientId) → Option (List ClientId)
struck c none = none
struck c (some clients) = some (without c clients)

-- An entry whose list has become empty is removed.
abbrev pub occupied : Option (List ClientId) → Option (List ClientId)
occupied none = none
occupied (some []) = none
occupied (some (c ∷ clients)) = some (c ∷ clients)

abbrev pub over {ℓ} : {A : Type ℓ} → Option A → Option A → Option A
over none a = a
over (some b) a = some b

abbrev pub over_info : ClientId → Option (List ClientId) → Option InfoHash → Option InfoHash
over_info c none i = i
over_info c (some clients) i = kept (without c clients) i

module _ {D : Deps} where
  pub seeders_of-offer :
      (s : State D) (k h : FileHash) (i : InfoHash) (c : ClientId)
      → seeders_of (offer s k i c) h
        ≡ (if eqb k h then some (or_new (seeders_of s k) ++ c ∷ []) else seeders_of s h)
  seeders_of-offer s k h i c = D.seeders.get-insert s.seeder_list k h _

  pub info_of-offer :
      (s : State D) (k h : FileHash) (i : InfoHash) (c : ClientId)
      → info_of (offer s k i c) h ≡ (if eqb k h then some i else info_of s h)
  info_of-offer s k h i c = D.tracker.get-insert s.file_tracker k h i

  seeders_of-strike :
      (s : State D) (k h : FileHash) (l : List ClientId)
      → seeders_of (strike s k l) h ≡ (if eqb k h then some l else seeders_of s h)
  seeders_of-strike s k h [] = D.seeders.get-insert s.seeder_list k h []
  seeders_of-strike s k h (c ∷ l) = D.seeders.get-insert s.seeder_list k h (c ∷ l)

  info_of-strike :
      (s : State D) (k h : FileHash) (l : List ClientId)
      → info_of (strike s k l) h ≡ (if eqb k h then kept l (info_of s h) else info_of s h)
  info_of-strike s k h [] = D.tracker.get-remove s.file_tracker k h
  info_of-strike s k h (c ∷ l) = ground arith

  pub seeders_of-strike_all :
      (c : ClientId) (es : Dict FileHash (List ClientId)) (s : State D) (h : FileHash)
      → NodupKeys es
      → seeders_of (strike_all c es s) h ≡ over (struck c (lookup h es)) (seeders_of s h)
  unfolding strike_all lookup
  seeders_of-strike_all c [] s h u = refl
  seeders_of-strike_all c ((k, v) ∷ es) s h (fresh, u) = ground (
    arith,
    eqb_iff k h,
    seeders_of-strike s k h (without c v),
    seeders_of-strike_all c es (strike s k (without c v)) h u,
  )

  pub info_of-strike_all :
      (c : ClientId) (es : Dict FileHash (List ClientId)) (s : State D) (h : FileHash)
      → NodupKeys es
      → info_of (strike_all c es s) h ≡ over_info c (lookup h es) (info_of s h)
  unfolding strike_all lookup
  info_of-strike_all c [] s h u = refl
  info_of-strike_all c ((k, v) ∷ es) s h (fresh, u) = ground (
    arith,
    eqb_iff k h,
    info_of-strike s k h (without c v),
    info_of-strike_all c es (strike s k (without c v)) h u,
  )

  forget_peer_same :
      (s : State D) (p : Option PeerId) (h : FileHash)
      → (seeders_of (forget_peer s p) h ≡ seeders_of s h)
        × (info_of (forget_peer s p) h ≡ info_of s h)
  forget_peer_same s none h = (refl, refl)
  forget_peer_same s (some p) h = (refl, refl)

  pub seeders_of-delist :
      (s : State D) (c : ClientId) (p : Option PeerId) (h : FileHash)
      → seeders_of (delist s c p) h ≡ struck c (seeders_of s h)
  seeders_of-delist s c p h = ground (
    arith,
    forget_peer_same s' p h,
    D.seeders.lookup-iter (forget_peer s' p).seeder_list h,
    seeders_of-strike_all c (D.seeders.iter (forget_peer s' p).seeder_list) (forget_peer s' p) h
        (D.seeders.NodupKeys-iter (forget_peer s' p).seeder_list),
  )
    where
      s' : State D
      s' = record s { client_registry = D.registry.remove s.client_registry c }

  pub info_of-delist :
      (s : State D) (c : ClientId) (p : Option PeerId) (h : FileHash)
      → info_of (delist s c p) h ≡ over_info c (seeders_of s h) (info_of s h)
  info_of-delist s c p h = ground (
    arith,
    forget_peer_same s' p h,
    D.seeders.lookup-iter (forget_peer s' p).seeder_list h,
    info_of-strike_all c (D.seeders.iter (forget_peer s' p).seeder_list) (forget_peer s' p) h
        (D.seeders.NodupKeys-iter (forget_peer s' p).seeder_list),
  )
    where
      s' : State D
      s' = record s { client_registry = D.registry.remove s.client_registry c }

  seeders_of-drop_seeder :
      (s : State D) (k h : FileHash) (l : List ClientId)
      → seeders_of (drop_seeder s k l) h ≡ (if eqb k h then occupied (some l) else seeders_of s h)
  seeders_of-drop_seeder s k h [] = D.seeders.get-remove s.seeder_list k h
  seeders_of-drop_seeder s k h (c ∷ l) = D.seeders.get-insert s.seeder_list k h (c ∷ l)

  info_of-drop_seeder :
      (s : State D) (k h : FileHash) (l : List ClientId)
      → info_of (drop_seeder s k l) h ≡ (if eqb k h then kept l (info_of s h) else info_of s h)
  info_of-drop_seeder s k h [] = D.tracker.get-remove s.file_tracker k h
  info_of-drop_seeder s k h (c ∷ l) = ground arith

  pub seeders_of-withdraw :
      (s : State D) (k h : FileHash) (c : ClientId)
      → seeders_of (withdraw s k c) h
        ≡ (if eqb k h then occupied (struck c (seeders_of s h)) else seeders_of s h)
  seeders_of-withdraw s k h c = elim (Option-cases (seeders_of s k)) [
    | inl e ↦ ground (arith, eqb_iff k h)
    | inr (l, e) ↦ ground (arith, eqb_iff k h, seeders_of-drop_seeder s k h (without c l))
  ]

  pub info_of-withdraw :
      (s : State D) (k h : FileHash) (c : ClientId)
      → info_of (withdraw s k c) h
        ≡ (if eqb k h then over_info c (seeders_of s h) (info_of s h) else info_of s h)
  info_of-withdraw s k h c = elim (Option-cases (seeders_of s k)) [
    | inl e ↦ ground (arith, eqb_iff k h)
    | inr (l, e) ↦ ground (arith, eqb_iff k h, info_of-drop_seeder s k h (without c l))
  ]
