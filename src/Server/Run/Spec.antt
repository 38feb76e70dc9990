-- ===== src/Server/Run/Spec.antt =====
-- The service of server/src/main.rs refines the directory.
use bear_torrent_final_proje.Base.{
  ◌≡◌, refl, sym, ap, ◌∙◌, Option, none, some, List, [], ◌∷◌, ◌++◌, arith, if◌then◌else◌, eqb,
  eqb_iff, bytes_eq, Option-cases, inl, inr,
}
use bear_torrent_final_proje.Proto.{
  Text, ClientId, PeerId, FileHash, InfoHash, FileMessage, FileDelete, FullId, peer_eq,
}
use bear_torrent_final_proje.Server.State.{Deps, State, default, peer_of, info_of, seeders_of}
use bear_torrent_final_proje.Server.Registry.{
  known_peer, filter_peers, draw_uid, insert_client, register_client, update_registered_peer_id,
  get_file_peer_list,
}
use bear_torrent_final_proje.Server.Files.{
  or_new, offer, withdraw, delist, advertise, delete_file, delist_client, without,
}
use bear_torrent_final_proje.Server.Files.Effects.{
  kept, over_info, seeders_of-offer, info_of-offer, seeders_of-withdraw, info_of-withdraw,
  seeders_of-delist, info_of-delist,
}
use bear_torrent_final_proje.Server.Signals.{seed, get_cert, await_hole_punch_trigger}
use bear_torrent_final_proje.Server.Run.{
  Call, registers, updates, advertises, deletes, delists, seeds, awaits_cert, awaits_punch,
  takes_notifier, takes_cert, step, run, registered,
}
use bear_torrent_final_proje.Server.Run.Offers.{
  peer_of-delist, client_registry-withdraw, peer_list-seeders, or_new-occupied-struck,
  or_new-struck,
}
use bear_torrent_final_proje.Server.Run.Directory.{
  Directory, nothing, places, joins, moves, offers, withdraws, leaves, told, told_all,
}

module _ {D : Deps} where
  -- A state shows a directory: its registry has the addresses, its lists the offers, and its tracker
  -- what was last said of a file that someone offers.
  pub record Shows (s : State D) (a : Directory) : Type 0 where
    pub address : (c : ClientId) → peer_of s c ≡ a.address c
    pub offered : (h : FileHash) → or_new (seeders_of s h) ≡ a.offered h
    pub described : (h : FileHash) → info_of s h ≡ kept (a.offered h) (a.described h)

kept-append : (l : List ClientId) (c : ClientId) (i : Option InfoHash) → kept (l ++ c ∷ []) i ≡ i
kept-append [] c i = refl
kept-append (x ∷ l) c i = refl

over_info-kept :
    (c : ClientId) (l : Option (List ClientId)) (i : Option InfoHash)
    → over_info c l (kept (or_new l) i) ≡ kept (without c (or_new l)) i
unfolding without
over_info-kept c none i = refl
over_info-kept c (some []) i = refl
over_info-kept c (some (x ∷ l)) i = refl

module _ {D : Deps} (s : State D) (a : Directory) (v : Shows s a) where
  -- The calls below change neither the registry nor the files.
  same_maps :
      (t : State D)
      → t.client_registry ≡ s.client_registry
      → t.seeder_list ≡ s.seeder_list
      → t.file_tracker ≡ s.file_tracker
      → Shows t a
  same_maps t e f g = record {
    address = λ c. rw e (v.address c);
    offered = λ h. rw f (v.offered h);
    described = λ h. rw g (v.described h);
  }

  offer-Shows :
      (k : FileHash) (i : InfoHash) (c : ClientId)
      → Shows (offer s k i c) (offers a (some k) (some i) (some c))
  offer-Shows k i c = record {
    address = v.address;
    offered = λ h. ground (arith, eqb_iff k h, seeders_of-offer s k h i c, v.offered h);
    described = λ h.
        ground
          (arith, info_of-offer s k h i c, v.described h, kept-append (a.offered h) c (some i));
  }

  withdraw-Shows :
      (k : FileHash) (c : ClientId) → Shows (withdraw s k c) (withdraws a (some c) (some k))
  withdraw-Shows k c = record {
    address = λ x. rw (peer_of, client_registry-withdraw s k c) (v.address x);
    offered = λ h. ground (
      arith,
      seeders_of-withdraw s k h c,
      or_new-occupied-struck c (seeders_of s h),
      v.offered h,
    );
    described = λ h. ground (
      arith,
      info_of-withdraw s k h c,
      v.described h,
      v.offered h,
      over_info-kept c (seeders_of s h) (a.described h),
    );
  }

  delist-Shows : (c : ClientId) (p : Option PeerId) → Shows (delist s c p) (leaves a c (some p))
  delist-Shows c p = record {
    address = λ x. ground (arith, peer_of-delist s c x p, v.address x);
    offered = λ h.
        ground (arith, seeders_of-delist s c p h, or_new-struck c (seeders_of s h), v.offered h);
    described = λ h. ground (
      arith,
      info_of-delist s c p h,
      v.described h,
      v.offered h,
      over_info-kept c (seeders_of s h) (a.described h),
    );
  }

  place-Shows :
      (t : State D) (c : ClientId) (p : Option PeerId)
      → t.client_registry ≡ D.registry.insert s.client_registry c p
      → t.seeder_list ≡ s.seeder_list
      → t.file_tracker ≡ s.file_tracker
      → Shows t (places a c p)
  place-Shows t c p e f g = record {
    address = λ x.
        ap (λ m. D.registry.get m x) e
        ∙ D.registry.get-insert s.client_registry c x p
        ∙ ap (λ o. if eqb c x then some p else o) (v.address x);
    offered = λ h. rw f (v.offered h);
    described = λ h. rw g (v.described h);
  }

  joins-Shows :
      (p : Option PeerId) (uid : Text) → Shows (insert_client s p uid).1 (joins a p (some uid))
  joins-Shows p [] = v
  joins-Shows p (c ∷ uid) = place-Shows _ (c ∷ uid) p refl refl refl

  registers-Shows :
      (draws : List Text) (p : Option PeerId)
      → Shows (registered s (register_client draws s p)) (joins a p (draw_uid a.address draws))
  unfolding register_client
  registers-Shows draws p =
      let same : draw_uid (peer_of s) draws ≡ draw_uid a.address draws =
        ap (λ f. draw_uid f draws) (λ i c. v.address c i) in
      elim (Option-cases (draw_uid (peer_of s) draws)) [
        | inl e ↦ rw (e, registered, register_client, sym same ∙ e) v
        | inr (uid, e) ↦ rw (e, registered, register_client, sym same ∙ e) (joins-Shows p uid)
      ]

  updates-Shows :
      (r : FullId) → Shows (update_registered_peer_id s r).1 (moves a r.self_id r.peer_id)
  unfolding update_registered_peer_id
  updates-Shows r = elim (Option-cases r.self_id) [
    | inl e ↦ rw e v
    | inr (c, e) ↦ elim (Option-cases r.peer_id) [
      | inl f ↦ rw (e, f) v
      | inr (p, f) ↦ rw (e, f) (place-Shows _ c (some p) refl refl refl)
    ]
  ]

  advertises-Shows : (r : FileMessage) → Shows (advertise s r).1 (offers a r.hash r.info_hash r.id)
  unfolding advertise
  advertises-Shows r = elim (Option-cases r.hash) [
    | inl e ↦ rw e v
    | inr (k, e) ↦ elim (Option-cases r.info_hash) [
      | inl f ↦ rw (e, f) v
      | inr (i, f) ↦ elim (Option-cases r.id) [
        | inl g ↦ rw (e, f, g) v
        | inr (c, g) ↦ rw (e, f, g) (offer-Shows k i c)
      ]
    ]
  ]

  deletes-Shows : (r : FileDelete) → Shows (delete_file s r).1 (withdraws a r.id r.hash)
  unfolding delete_file
  deletes-Shows r = elim (Option-cases r.id) [
    | inl e ↦ rw e v
    | inr (c, e) ↦ elim (Option-cases r.hash) [
      | inl f ↦ rw (e, f) v
      | inr (k, f) ↦ rw (e, f) (withdraw-Shows k c)
    ]
  ]

  delists-Shows : (c : ClientId) → Shows (delist_client s c) (leaves a c (a.address c))
  unfolding delist_client
  delists-Shows c = elim (Option-cases (peer_of s c)) [
    | inl e ↦ rw (e, delist_client, sym (v.address c) ∙ e) v
    | inr (p, e) ↦ rw (e, delist_client, sym (v.address c) ∙ e) (delist-Shows c p)
  ]

  step-Shows : (c : Call D) → Shows (step s c) (told a c)
  unfolding step told seed get_cert await_hole_punch_trigger
  step-Shows (registers draws p) = registers-Shows draws p
  step-Shows (updates r) = updates-Shows r
  step-Shows (advertises r) = advertises-Shows r
  step-Shows (deletes r) = deletes-Shows r
  step-Shows (delists c) = delists-Shows c
  step-Shows (seeds p tx) = same_maps _ refl refl refl
  step-Shows (awaits_cert p tx) = same_maps _ refl refl refl
  step-Shows (awaits_punch p tx) = same_maps _ refl refl refl
  step-Shows (takes_notifier p) = same_maps _ refl refl refl
  step-Shows (takes_cert p) = same_maps _ refl refl refl

module _ {D : Deps} where
  run_from-Shows :
      (s : State D) (a : Directory) (calls : List (Call D))
      → Shows s a
      → Shows (run s calls) (told_all a calls)
  unfolding run told_all
  run_from-Shows s a [] v = v
  run_from-Shows s a (c ∷ calls) v = run_from-Shows (step s c) (told a c) calls (step-Shows s a v c)

  default-Shows : Shows (default D) nothing
  default-Shows = record {
    address = λ c. D.registry.get-empty c;
    offered = λ h. rw (D.seeders.get-empty h);
    described = λ h. D.tracker.get-empty h;
  }

-- The service refines the directory: after any history of calls from its start, the peer list that
-- it gives for a file is the addresses of those who offer the file, in the order of their offers,
-- and it tracks a file, by what was last said of it, exactly while someone offers it.
pub run-told_all :
    (D : Deps) (calls : List (Call D)) (h : FileHash)
    → (get_file_peer_list (run (default D) calls) h
        ≡ filter_peers
            (λ c. known_peer ((told_all nothing calls).address c))
            ((told_all nothing calls).offered h))
      × (info_of (run (default D) calls) h
          ≡ kept ((told_all nothing calls).offered h) ((told_all nothing calls).described h))
run-told_all D calls h =
    let s = run (default D) calls in
    let v = run_from-Shows (default D) nothing calls default-Shows in
    (
      peer_list-seeders s h ∙ (λ j. filter_peers (λ c. known_peer (v.address c j)) (v.offered h j)),
      v.described h,
    )
