-- ===== src/Base/Equality.antt =====
-- Equality tests as instances: Rust's `PartialEq`/`Eq` for keys and values.
use Prim.Native.Nat.{ℕ}
use mathlib.Core.Path.{◌≡◌, refl}
use mathlib.Core.Logic.{◌↔◌}
use mathlib.Core.Bool.{Bool, true, false, ◌&&◌}
use mathlib.Core.List.{List, [], ◌∷◌}
use native.Mathlib.Omega.{arith}
use bear_torrent_final_proje.Base.Tests.{◌==◌, ==_iff}

pub record Eq {ℓ} (A : Type ℓ) : Type ℓ where
  pub is_eq : (x y : A) → Bool
  pub is_eq_iff : (x y : A) → (is_eq x y ≡ true) ↔ (x ≡ y)

-- One test for every type that has an instance.
abbrev pub eqb {ℓ} : {A : Type ℓ} ⦃e : Eq A⦄ → A → A → Bool
eqb ⦃e⦄ = e.is_eq

pub eqb_iff {ℓ} : {A : Type ℓ} ⦃e : Eq A⦄ (a b : A) → (eqb a b ≡ true) ↔ (a ≡ b)
eqb_iff ⦃e⦄ a b = e.is_eq_iff a b

pub eqb_refl {ℓ} : {A : Type ℓ} ⦃e : Eq A⦄ (a : A) → eqb a a ≡ true
eqb_refl ⦃e⦄ a = (e.is_eq_iff a a).1 refl

module _ {ℓ} {A : Type ℓ} ⦃e : Eq A⦄ where
  unfoldable pub list_beq : List A → List A → Bool
  list_beq [] [] = true
  list_beq [] (y ∷ ys) = false
  list_beq (x ∷ xs) [] = false
  list_beq (x ∷ xs) (y ∷ ys) = e.is_eq x y && list_beq xs ys

  pub list_beq_iff : (xs ys : List A) → (list_beq xs ys ≡ true) ↔ (xs ≡ ys)
  unfolding list_beq
  list_beq_iff [] [] = (λ h. refl, λ h. refl)
  list_beq_iff [] (y ∷ ys) = (λ h. cc, λ h. cc)
  list_beq_iff (x ∷ xs) [] = (λ h. cc, λ h. cc)
  list_beq_iff (x ∷ xs) (y ∷ ys) = ground (arith, e.is_eq_iff x y, list_beq_iff xs ys)

instance abbrev pub nat_eq : Eq ℕ
nat_eq = record { is_eq_iff = ==_iff; is_eq = ◌==◌ }

-- Byte strings compare byte by byte.
instance abbrev pub bytes_eq : Eq (List ℕ)
bytes_eq = record { is_eq = list_beq; is_eq_iff = list_beq_iff }
