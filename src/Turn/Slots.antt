-- ===== src/Turn/Slots.antt =====
-- The two slots of a session and its barrier, over any history of registrations.
use bear_torrent_final_proje.Base.{
  ℕ, ◌+◌, ◌≡◌, refl, ◌↔◌, ◌≢◌, Bool-cases, Bool, true, false, Option, none, some, List, [], ◌∷◌,
  err, arith, if◌then◌else◌, eqb, eqb_iff, bytes_eq, Option-cases, inl, inr,
}
use bear_torrent_final_proje.Base.Dict.{Dict, lookup, lookup-insert}
use Prim.Native.String.{String}
use bear_torrent_final_proje.Proto.{Text}
use bear_torrent_final_proje.Server.State.{resource_exhausted}
use bear_torrent_final_proje.Turn.{
  role_of, Session, or_new_session, add_seeder, add_leecher, fill, store_session,
  register_for_session, register, released,
}

-- A call of `register`.
pub record Registration (Tx : Type 0) : Type 0 where
  pub session_id : Text
  pub is_seeder : Bool
  pub tx : Tx

-- How many of the two slots are taken.
abbrev taken {ℓ} : {A : Type ℓ} → Option A → ℕ
taken none = 0
taken (some a) = 1

module _ {Tx : Type 0} where
  unfoldable pub registers :
      Dict Text (Session Tx) → List (Registration Tx) → Dict Text (Session Tx)
  registers all [] = all
  registers all (r ∷ rs) = registers (register all r.session_id r.is_seeder r.tx).1 rs

  -- The session that a registration leaves: a free slot is taken and the caller waits at the
  -- barrier; a slot that is taken stays as it is.
  abbrev pub entered : Bool → Session Tx → Tx → Session Tx
  entered true s tx = elim s.seeder [
    | some old ↦ s
    | none ↦ record s { seeder = some tx; arrived = s.arrived + 1 }
  ]
  entered false s tx = elim s.leecher [
    | some old ↦ s
    | none ↦ record s { leecher = some tx; arrived = s.arrived + 1 }
  ]

  store-fill :
      (all : Dict Text (Session Tx)) (j k : Text) (b : Bool) (old : Session Tx) (tx : Tx)
      → lookup k (store_session all j old (fill (role_of b) old tx)).1
        ≡ (if eqb j k then some (entered b old tx) else lookup k all)
  unfolding add_seeder add_leecher
  store-fill all j k true old tx = elim (Option-cases old.seeder) [
    | inl e ↦
        ground (
          arith,
          lookup-insert j k (record old { seeder = some tx; arrived = old.arrived + 1 }) all,
        )
    | inr (o, e) ↦ ground (arith, lookup-insert j k old all)
  ]
  store-fill all j k false old tx = elim (Option-cases old.leecher) [
    | inl e ↦
        ground (
          arith,
          lookup-insert j k (record old { leecher = some tx; arrived = old.arrived + 1 }) all,
        )
    | inr (o, e) ↦ ground (arith, lookup-insert j k old all)
  ]

  -- A registration changes the session that it names and no other.
  pub lookup-register :
      (all : Dict Text (Session Tx)) (j k : Text) (b : Bool) (tx : Tx)
      → lookup k (register all j b tx).1
        ≡ (if eqb j k then some (entered b (or_new_session (lookup j all)) tx) else lookup k all)
  unfolding register register_for_session
  lookup-register all j k b tx = store-fill all j k b (or_new_session (lookup j all)) tx

  -- The barrier has seen as many tasks as slots are taken.
  abbrev pub Counts : Session Tx → Type 0
  Counts s = s.arrived ≡ taken s.seeder + taken s.leecher

  abbrev pub IsPaired : Option (Session Tx) → Type 0
  IsPaired none = Unit
  IsPaired (some s) = Counts s

  entered-Counts : (b : Bool) (s : Session Tx) (tx : Tx) → Counts s → Counts (entered b s tx)
  entered-Counts true s tx h = ground arith
  entered-Counts false s tx h = ground arith

  or_new-Counts : (o : Option (Session Tx)) → IsPaired o → Counts (or_new_session o)
  or_new-Counts none h = refl
  or_new-Counts (some s) h = h

  register-IsPaired :
      (all : Dict Text (Session Tx)) (j : Text) (b : Bool) (tx : Tx)
      → ((k : Text) → IsPaired (lookup k all))
      → (k : Text) → IsPaired (lookup k (register all j b tx).1)
  register-IsPaired all j b tx h k = elim (Bool-cases (eqb j k)) [
    | inl e ↦
        rw (lookup-register all j k b tx, e)
          (entered-Counts b (or_new_session (lookup j all)) tx (or_new-Counts (lookup j all) (h j)))
    | inr e ↦ rw (lookup-register all j k b tx, e) (h k)
  ]

  registers-IsPaired :
      (all : Dict Text (Session Tx)) (rs : List (Registration Tx))
      → ((k : Text) → IsPaired (lookup k all))
      → (k : Text) → IsPaired (lookup k (registers all rs))
  unfolding registers
  registers-IsPaired all [] h = h
  registers-IsPaired all (r ∷ rs) h =
      registers-IsPaired (register all r.session_id r.is_seeder r.tx).1 rs
        (register-IsPaired all r.session_id r.is_seeder r.tx h)

  released_lem :
      (s : Session Tx) → Counts s → (released s ≡ true) ↔ ((s.seeder ≢ none) × (s.leecher ≢ none))
  released_lem s h = ground arith

  -- After any history of registrations from an empty service, the tasks of a session have passed its
  -- barrier exactly if both its slots are taken.
  pub released_iff :
      (rs : List (Registration Tx)) (k : Text) (s : Session Tx)
      → lookup k (registers [] rs) ≡ some s
      → (released s ≡ true) ↔ ((s.seeder ≢ none) × (s.leecher ≢ none))
  released_iff rs k s e =
      released_lem s (rw e at (registers-IsPaired [] rs (λ j. unfold lookup in tt) k))

  entered_full :
      (b : Bool) (s : Session Tx) (tx a c : Tx)
      → s.seeder ≡ some a
      → s.leecher ≡ some c
      → entered b s tx ≡ s
  entered_full true s tx a c p q = ground arith
  entered_full false s tx a c p q = ground arith

  register_keeps :
      (all : Dict Text (Session Tx)) (r : Registration Tx) (k : Text) (s : Session Tx) (a c : Tx)
      → lookup k all ≡ some s
      → s.seeder ≡ some a
      → s.leecher ≡ some c
      → lookup k (register all r.session_id r.is_seeder r.tx).1 ≡ some s
  register_keeps all r k s a c e p q = ground (
    arith,
    eqb_iff r.session_id k,
    lookup-register all r.session_id k r.is_seeder r.tx,
    entered_full r.is_seeder s r.tx a c p q,
  )

  -- A session with both slots taken stays what it is through any further registrations.
  pub registers_keeps :
      (all : Dict Text (Session Tx)) (rs : List (Registration Tx)) (k : Text) (s : Session Tx)
      (a c : Tx)
      → lookup k all ≡ some s
      → s.seeder ≡ some a
      → s.leecher ≡ some c
      → lookup k (registers all rs) ≡ some s
  unfolding registers
  registers_keeps all [] k s a c e p q = e
  registers_keeps all (r ∷ rs) k s a c e p q =
      registers_keeps (register all r.session_id r.is_seeder r.tx).1 rs k s a c
        (register_keeps all r k s a c e p q) p q

  -- A registration for a slot that is taken is refused, whatever the caller, and changes no session.
  pub register_refused :
      (all : Dict Text (Session Tx)) (k : Text) (b : Bool) (s : Session Tx) (old tx : Tx)
      → lookup k all ≡ some s
      → (if b then s.seeder else s.leecher) ≡ some old
      → ((message : String) × ((register all k b tx).0 ≡ err (resource_exhausted message)))
        × ((j : Text) → lookup j (register all k b tx).1 ≡ lookup j all)
  unfolding register register_for_session add_seeder add_leecher
  register_refused all k true s old tx e p = (
    ("Seeder already registered", rw (e, p)),
    λ j. ground (arith, eqb_iff k j, lookup-register all k j true tx),
  )
  register_refused all k false s old tx e p = (
    ("Leecher already registered", rw (e, p)),
    λ j. ground (arith, eqb_iff k j, lookup-register all k j false tx),
  )
