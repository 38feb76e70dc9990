-- ===== src/Base/Dict.antt =====
-- `std::collections::HashMap` as an association list. Proofs go by the lookup laws.
use mathlib.Core.Path.{◌≡◌, refl}
use mathlib.Core.Option.{Option, none, some}
use mathlib.Core.List.{List, [], ◌∷◌}
use native.Mathlib.Omega.{arith}
use bear_torrent_final_proje.Base.Tests.{if◌then◌else◌}
use bear_torrent_final_proje.Base.Equality.{Eq, eqb, eqb_iff}

abbrev pub Dict {ℓ κ} : Type ℓ → Type κ → Type (ℓ ⊔ κ)
Dict K V = List (K × V)

module _ {ℓ κ} {K : Type ℓ} {V : Type κ} ⦃e : Eq K⦄ where
  unfoldable pub lookup : K → Dict K V → Option V
  lookup k [] = none
  lookup k ((j, v) ∷ entries) = if eqb j k then some v else lookup k entries

  unfoldable pub insert : K → V → Dict K V → Dict K V
  insert k v [] = (k, v) ∷ []
  insert k v ((j, old) ∷ entries) =
      if eqb j k then (k, v) ∷ entries else (j, old) ∷ insert k v entries

  unfoldable pub erase : K → Dict K V → Dict K V
  erase k [] = []
  erase k ((j, old) ∷ entries) =
      let rest = erase k entries in if eqb j k then rest else (j, old) ∷ rest

  pub lookup-insert :
      (k j : K) (v : V) (entries : Dict K V)
      → lookup j (insert k v entries) ≡ (if eqb k j then some v else lookup j entries)
  unfolding lookup insert
  lookup-insert k j v [] = refl
  lookup-insert k j v ((i, old) ∷ entries) =
      ground (arith, eqb_iff k j, eqb_iff i k, eqb_iff i j, lookup-insert k j v entries)

  pub lookup-erase :
      (k j : K) (entries : Dict K V)
      → lookup j (erase k entries) ≡ (if eqb k j then none else lookup j entries)
  unfolding lookup erase
  lookup-erase k j [] = ground arith
  lookup-erase k j ((i, old) ∷ entries) =
      ground (arith, eqb_iff k j, eqb_iff i k, eqb_iff i j, lookup-erase k j entries)
