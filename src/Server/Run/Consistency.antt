-- ===== src/Server/Run/Consistency.antt =====
-- The tracker and the seeder list tell of the same files.
use bear_torrent_final_proje.Base.{
  ◌≡◌, refl, ◌≢◌, ◌↔◌, Option, none, some, List, [], ◌∷◌, ◌++◌, arith, bytes_eq, Option-cases, inl,
  inr,
}
use bear_torrent_final_proje.Proto.{
  ClientId, PeerId, FileHash, InfoHash, FileMessage, FileDelete, FullId, Text, peer_eq,
}
use bear_torrent_final_proje.Server.State.{Deps, State, default, info_of, seeders_of, peer_of}
use bear_torrent_final_proje.Server.Registry.{
  register_client, draw_uid, insert_client, update_registered_peer_id,
}
use bear_torrent_final_proje.Server.Files.{
  or_new, offer, withdraw, delist, advertise, delete_file, delist_client, without,
}
use bear_torrent_final_proje.Server.Files.Effects.{
  kept, over_info, struck, occupied, seeders_of-offer, info_of-offer, seeders_of-withdraw,
  info_of-withdraw, seeders_of-delist, info_of-delist,
}
use bear_torrent_final_proje.Server.Signals.{seed, get_cert, await_hole_punch_trigger}
use bear_torrent_final_proje.Server.Run.{
  Call, registers, updates, advertises, deletes, delists, seeds, awaits_cert, awaits_punch,
  takes_notifier, takes_cert, step, run, registered,
}

append-ne-nil : (l : List ClientId) (c : ClientId) → l ++ c ∷ [] ≢ []
append-ne-nil [] c e = cc
append-ne-nil (x ∷ l) c e = cc

-- A file is tracked exactly while it has a seeder.
abbrev Agree : Option InfoHash → Option (List ClientId) → Type 0
Agree i l = (i ≡ none) ↔ (or_new l ≡ [])

pub record IsConsistent {D : Deps} (s : State D) : Type 0 where
  pub agree : (h : FileHash) → (info_of s h ≡ none) ↔ (or_new (seeders_of s h) ≡ [])

Agree-kept :
    (i : Option InfoHash) (l : List ClientId) → (i ≡ none → l ≡ []) → (kept l i ≡ none) ↔ (l ≡ [])
Agree-kept i [] a = (λ e. refl, λ e. refl)
Agree-kept i (c ∷ l) a = (a, λ e. cc)

without_nil : (c : ClientId) (l : List ClientId) → l ≡ [] → without c l ≡ []
unfolding without
without_nil c [] e = refl
without_nil c (x ∷ l) e = cc

-- What striking a client does to one file.
Agree-struck :
    (c : ClientId) (i : Option InfoHash) (l : Option (List ClientId))
    → Agree i l
    → Agree (over_info c l i) (struck c l)
Agree-struck c i none a = a
Agree-struck c i (some l) a = Agree-kept i (without c l) (λ e. without_nil c l (a.0 e))

pub or_new-occupied : (l : Option (List ClientId)) → or_new (occupied l) ≡ or_new l
or_new-occupied none = refl
or_new-occupied (some []) = refl
or_new-occupied (some (c ∷ l)) = refl

module _ {D : Deps} where
  offer-IsConsistent :
      (s : State D) (k : FileHash) (i : InfoHash) (c : ClientId)
      → IsConsistent s
      → IsConsistent (offer s k i c)
  offer-IsConsistent s k i c v = record {
    agree = λ h. ground (
      arith,
      v.agree h,
      seeders_of-offer s k h i c,
      info_of-offer s k h i c,
      append-ne-nil (or_new (seeders_of s k)) c,
    );
  }

  withdraw-IsConsistent :
      (s : State D) (k : FileHash) (c : ClientId) → IsConsistent s → IsConsistent (withdraw s k c)
  withdraw-IsConsistent s k c v = record {
    agree = λ h. ground (
      arith,
      v.agree h,
      seeders_of-withdraw s k h c,
      info_of-withdraw s k h c,
      or_new-occupied (struck c (seeders_of s h)),
      Agree-struck c (info_of s h) (seeders_of s h) (v.agree h),
    );
  }

  delist-IsConsistent :
      (s : State D) (c : ClientId) (p : Option PeerId)
      → IsConsistent s
      → IsConsistent (delist s c p)
  delist-IsConsistent s c p v = record {
    agree = λ h.
        rw (seeders_of-delist s c p h, info_of-delist s c p h)
          (Agree-struck c (info_of s h) (seeders_of s h) (v.agree h));
  }

  advertise-IsConsistent :
      (s : State D) (r : FileMessage) → IsConsistent s → IsConsistent (advertise s r).1
  unfolding advertise
  advertise-IsConsistent s r v = elim (Option-cases r.hash) [
    | inl e ↦ rw e v
    | inr (k, e) ↦ elim (Option-cases r.info_hash) [
      | inl f ↦ rw (e, f) v
      | inr (i, f) ↦ elim (Option-cases r.id) [
        | inl g ↦ rw (e, f, g) v
        | inr (c, g) ↦ rw (e, f, g) (offer-IsConsistent s k i c v)
      ]
    ]
  ]

  delete_file-IsConsistent :
      (s : State D) (r : FileDelete) → IsConsistent s → IsConsistent (delete_file s r).1
  unfolding delete_file
  delete_file-IsConsistent s r v = elim (Option-cases r.id) [
    | inl e ↦ rw e v
    | inr (c, e) ↦ elim (Option-cases r.hash) [
      | inl f ↦ rw (e, f) v
      | inr (k, f) ↦ rw (e, f) (withdraw-IsConsistent s k c v)
    ]
  ]

  delist_client-IsConsistent :
      (s : State D) (c : ClientId) → IsConsistent s → IsConsistent (delist_client s c)
  unfolding delist_client
  delist_client-IsConsistent s c v = elim (Option-cases (peer_of s c)) [
    | inl e ↦ rw (e, delist_client) v
    | inr (p, e) ↦ rw (e, delist_client) (delist-IsConsistent s c p v)
  ]

  -- The calls below leave both maps alone.
  same_files :
      (s t : State D)
      → t.file_tracker ≡ s.file_tracker
      → t.seeder_list ≡ s.seeder_list
      → IsConsistent s
      → IsConsistent t
  same_files s t e f v = record { agree = λ h. rw (e, f) (v.agree h) }

  insert_client_files :
      (s : State D) (p : Option PeerId) (uid : Text)
      → ((insert_client s p uid).1.file_tracker ≡ s.file_tracker)
        × ((insert_client s p uid).1.seeder_list ≡ s.seeder_list)
  insert_client_files s p [] = (refl, refl)
  insert_client_files s p (c ∷ uid) = (refl, refl)

  registers-IsConsistent :
      (s : State D) (draws : List Text) (p : Option PeerId)
      → IsConsistent s
      → IsConsistent (registered s (register_client draws s p))
  unfolding register_client
  registers-IsConsistent s draws p v = elim (Option-cases (draw_uid (peer_of s) draws)) [
    | inl e ↦ rw (e, registered, register_client) v
    | inr (uid, e) ↦
        let (f, g) = insert_client_files s p uid in
        rw (e, registered, register_client) (same_files s (insert_client s p uid).1 f g v)
  ]

  updates-IsConsistent :
      (s : State D) (r : FullId) → IsConsistent s → IsConsistent (update_registered_peer_id s r).1
  unfolding update_registered_peer_id
  updates-IsConsistent s r v = same_files s _ (ground arith) (ground arith) v

  step-IsConsistent : (s : State D) (c : Call D) → IsConsistent s → IsConsistent (step s c)
  unfolding step seed get_cert await_hole_punch_trigger
  step-IsConsistent s (registers draws p) v = registers-IsConsistent s draws p v
  step-IsConsistent s (updates r) v = updates-IsConsistent s r v
  step-IsConsistent s (advertises r) v = advertise-IsConsistent s r v
  step-IsConsistent s (deletes r) v = delete_file-IsConsistent s r v
  step-IsConsistent s (delists c) v = delist_client-IsConsistent s c v
  step-IsConsistent s (seeds p tx) v = same_files s _ refl refl v
  step-IsConsistent s (awaits_cert p tx) v = same_files s _ refl refl v
  step-IsConsistent s (awaits_punch p tx) v = same_files s _ refl refl v
  step-IsConsistent s (takes_notifier p) v = same_files s _ refl refl v
  step-IsConsistent s (takes_cert p) v = same_files s _ refl refl v

  run_from-IsConsistent :
      (s : State D) (calls : List (Call D)) → IsConsistent s → IsConsistent (run s calls)
  unfolding run
  run_from-IsConsistent s [] v = v
  run_from-IsConsistent s (c ∷ calls) v =
      run_from-IsConsistent (step s c) calls (step-IsConsistent s c v)

  default-IsConsistent : IsConsistent (default D)
  default-IsConsistent = record {
    agree = λ h. ground (arith, D.tracker.get-empty h, D.seeders.get-empty h);
  }

-- After any history of calls from the start of the service, for each file hash the tracker has an
-- entry exactly if the seeder list has a client for it.
pub run-IsConsistent : (D : Deps) (calls : List (Call D)) → IsConsistent (run (default D) calls)
run-IsConsistent D calls = run_from-IsConsistent (default D) calls default-IsConsistent
