-- ===== src/Base/Results.antt =====
-- What a Rust call may do: return `Ok`, return `Err`, or panic.
use mathlib.Core.Option.{Option, none, some}
use mathlib.Core.Bool.{Bool, true, false}

pub data Outcome {ℓ κ} (E : Type ℓ) (A : Type κ) : Type (ℓ ⊔ κ) where
  panicked : Outcome E A
  err : (reason : E) → Outcome E A
  ok : (value : A) → Outcome E A

-- The `?` operator: the rest of a function is run on the value of an `Ok`.
abbrev pub ◌>>=◌ {ℓ κ ι} :
    {E : Type ℓ} {A : Type κ} {B : Type ι} (call : Outcome E A) (rest : A → Outcome E B)
    → Outcome E B
panicked >>= rest = panicked
err reason >>= rest = err reason
ok value >>= rest = rest value

infixl 5 ◌>>=◌
abbrev pub ◌>>◌ {ℓ ι} :
    {E : Type ℓ} {B : Type ι} (call : Outcome E (Unit {0})) (rest : Outcome E B) → Outcome E B
call >> rest = call >>= (λ done. rest)

infixl 5 ◌>>◌
-- `Option::ok_or`.
abbrev pub ok_or {ℓ κ} : {E : Type ℓ} {A : Type κ} → Option A → E → Outcome E A
ok_or (some a) e = ok a
ok_or none e = err e

-- `Option::unwrap`.
abbrev pub unwrap {ℓ κ} : {E : Type ℓ} {A : Type κ} → Option A → Outcome E A
unwrap (some a) = ok a
unwrap none = panicked

-- An assertion that Rust checks at run time, such as an index bound.
abbrev pub assert {ℓ} : {E : Type ℓ} → Bool → Outcome E (Unit {0})
assert true = ok tt
assert false = panicked
