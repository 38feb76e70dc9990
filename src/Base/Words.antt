-- ===== src/Base/Words.antt =====
-- `u32` and `u64` values: wrap-around and big-endian bytes.
use Prim.Native.Nat.{ℕ, zero, suc, ◌+◌, ◌-◌, ◌*◌, ◌/◌, ◌%◌, ◌^◌, ◌<◌}
use mathlib.Core.Path.{◌≡◌}
use mathlib.Core.Option.{Option, none, some}
use mathlib.Core.List.{List, [], ◌∷◌}
use native.Mathlib.Omega.{arith}
use bear_torrent_final_proje.Base.Lists.{All, take, drop}

abbrev pub u32_mod : ℕ
u32_mod = 2 ^ 32

abbrev pub u64_mod : ℕ
u64_mod = 2 ^ 64

abbrev pub IsU32 : ℕ → Type 0
IsU32 n = n < 2 ^ 32

abbrev pub IsU64 : ℕ → Type 0
IsU64 n = n < 2 ^ 64

abbrev pub IsByte : ℕ → Type 0
IsByte n = n < 256

abbrev pub AreBytes : List ℕ → Type 0
AreBytes = All IsByte

pub AreBytes-take : (n : ℕ) (xs : List ℕ) → AreBytes xs → AreBytes (take n xs)
AreBytes-take zero xs h = tt
AreBytes-take (suc n) [] h = tt
AreBytes-take (suc n) (x ∷ xs) h = (h.0, AreBytes-take n xs h.1)

pub AreBytes-drop : (n : ℕ) (xs : List ℕ) → AreBytes xs → AreBytes (drop n xs)
AreBytes-drop zero xs h = h
AreBytes-drop (suc n) [] h = tt
AreBytes-drop (suc n) (x ∷ xs) h = AreBytes-drop n xs h.1

-- `u32::to_be_bytes`.
unfoldable pub to_be_bytes : ℕ → List ℕ
to_be_bytes n = n / 2 ^ 24 % 256 ∷ n / 2 ^ 16 % 256 ∷ n / 2 ^ 8 % 256 ∷ n % 256 ∷ []

-- `u32::from_be_bytes`, after `try_into` to an array of four bytes; `none` on another length.
unfoldable pub from_be_bytes : List ℕ → Option ℕ
from_be_bytes (a ∷ b ∷ c ∷ d ∷ []) = some (a * 2 ^ 24 + b * 2 ^ 16 + c * 2 ^ 8 + d)
from_be_bytes _ = none

pub from_be_bytes-to_be_bytes : (n : ℕ) → IsU32 n → from_be_bytes (to_be_bytes n) ≡ some n
unfolding from_be_bytes to_be_bytes
from_be_bytes-to_be_bytes n h = ground arith

-- `u64::to_be_bytes`.
unfoldable pub to_be_bytes_u64 : ℕ → List ℕ
to_be_bytes_u64 n =
    n / 2 ^ 56 % 256
    ∷ n / 2 ^ 48 % 256
    ∷ n / 2 ^ 40 % 256
    ∷ n / 2 ^ 32 % 256
    ∷ n / 2 ^ 24 % 256
    ∷ n / 2 ^ 16 % 256
    ∷ n / 2 ^ 8 % 256
    ∷ n % 256
    ∷ []

-- Subtraction of 1 in `u64` from a value above 0.
pub wrapping_pred : (n : ℕ) → 0 < n → n < u64_mod → (n + u64_mod - 1) % u64_mod + 1 ≡ n
wrapping_pred n p l = omega arith
