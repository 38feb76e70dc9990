-- ===== src/Base/Decimal.antt =====
-- Rust's decimal form of an unsigned integer, and its `str::parse`.
use Prim.Native.Nat.{ℕ, zero, suc, ◌+◌, ◌-◌, ◌*◌, ◌/◌, ◌%◌, ◌<◌, ◌≤◌}
use mathlib.Core.Path.{◌≡◌, refl, ◌∙◌}
use mathlib.Core.Bool.{true, false, ◌&&◌}
use mathlib.Core.Option.{Option, none, some}
use mathlib.Core.List.{List, [], ◌∷◌, ◌++◌}
use native.Mathlib.Omega.{arith}
use native.Mathlib.Decide.{dec_lt}
use bear_torrent_final_proje.Base.Tests.{ltb, leb, ◌==◌, if◌then◌else◌}
use bear_torrent_final_proje.Base.Lists.{All}

-- A number in decimal, with enough rounds for its digits.
unfoldable pub digits : ℕ → ℕ → List ℕ
digits zero n = []
digits (suc fuel) n =
    let front = digits fuel (n / 10) in
    if ltb n 10 then (48 + n) ∷ [] else front ++ (48 + n % 10) ∷ []

-- A `u64` has at most twenty digits.
unfoldable pub decimal : ℕ → List ℕ
decimal n = digits 20 n

-- One more digit, checked against the type's limit.
abbrev pub push_digit : ℕ → ℕ → ℕ → Option ℕ
push_digit limit acc c =
    if leb 48 c && leb c 57 && ltb (acc * 10 + (c - 48)) limit
    then some (acc * 10 + (c - 48))
    else none

unfoldable pub scan : ℕ → Option ℕ → List ℕ → Option ℕ
scan limit acc [] = acc
scan limit none (c ∷ text) = none
scan limit (some n) (c ∷ text) = scan limit (push_digit limit n c) text

-- `str::parse` into a type of the values below `limit`: one plus sign may stand in front.
unfoldable pub parse_uint : ℕ → List ℕ → Option ℕ
unfolding scan
parse_uint limit [] = none
parse_uint limit (c ∷ []) = push_digit limit 0 c
parse_uint limit (c ∷ d ∷ text) =
    if c == b'+' then scan limit (some 0) (d ∷ text) else scan limit (some 0) (c ∷ d ∷ text)

-- `10 ^ k`
abbrev pow_ten : ℕ → ℕ
pow_ten zero = 1
pow_ten (suc k) = 10 * pow_ten k

scan-none : (limit : ℕ) (text : List ℕ) → scan limit none text ≡ none
unfolding scan
scan-none limit [] = refl
scan-none limit (c ∷ text) = refl

scan_snoc :
    (limit : ℕ) (acc : Option ℕ) (text : List ℕ) (n c m : ℕ)
    → scan limit acc text ≡ some n
    → push_digit limit n c ≡ some m
    → scan limit acc (text ++ c ∷ []) ≡ some m
unfolding scan
scan_snoc limit acc [] n c m e p = ground arith
scan_snoc limit none (d ∷ text) n c m e p = cc
scan_snoc limit (some a) (d ∷ text) n c m e p =
    scan_snoc limit (push_digit limit a d) text n c m e p

push_digit_last : (limit n : ℕ) → n < limit → push_digit limit (n / 10) (48 + n % 10) ≡ some n
push_digit_last limit n l = ground arith

positive : (fuel n : ℕ) → n < pow_ten (suc fuel) → ¬ (n < 10) → 0 < fuel
positive zero n b h = absurd (h (omega arith))
positive (suc fuel) n b h = omega arith

scan-digits :
    (limit fuel n : ℕ)
    → n < pow_ten fuel
    → n < limit
    → 0 < fuel
    → scan limit (some 0) (digits fuel n) ≡ some n
unfolding digits scan
scan-digits limit zero n b l p = elim p [ ]
scan-digits limit (suc fuel) n b l p = elim (dec_lt n 10) [
  | yes low ↦ ground arith
  | no high ↦
      let short : ltb n 10 ≡ false = ground arith in
      rw short (
        scan_snoc limit (some 0) (digits fuel (n / 10)) (n / 10) (48 + n % 10) n
          (scan-digits limit fuel (n / 10) (omega arith) (omega arith) (positive fuel n b high))
          (push_digit_last limit n l))
]

digits_head : (fuel n : ℕ) → (c : ℕ) × (text : List ℕ) × (digits (suc fuel) n ≡ c ∷ text) × (48 ≤ c)
unfolding digits
digits_head zero n = elim (dec_lt n 10) [
  | yes low ↦ (48 + n, [], ground arith, omega arith)
  | no high ↦ (48 + n % 10, [], ground arith, omega arith)
]
digits_head (suc fuel) n = elim (dec_lt n 10) [
  | yes low ↦ (48 + n, [], ground arith, omega arith)
  | no high ↦
      let (c, text, e, l) = digits_head fuel (n / 10) in
      (c, text ++ (48 + n % 10) ∷ [], ground arith, l)
]

parse_uint-scan :
    (limit c : ℕ) (text : List ℕ)
    → 48 ≤ c
    → parse_uint limit (c ∷ text) ≡ scan limit (some 0) (c ∷ text)
unfolding parse_uint scan
parse_uint-scan limit c [] l = refl
parse_uint-scan limit c (d ∷ text) l = ground arith

-- Parsing a number's decimal form gives the number back, for a limit of twenty digits at most.
pub parse_uint-decimal :
    (limit n : ℕ)
    → limit ≤ 100_000_000_000_000_000_000
    → n < limit
    → parse_uint limit (decimal n) ≡ some n
unfolding decimal
parse_uint-decimal limit n h l =
    let (c, text, e, low) = digits_head 19 n in
    rw e (parse_uint-scan limit c text low)
    ∙ rw e at (scan-digits limit 20 n (omega arith) l (omega arith))

abbrev pub IsDigit : ℕ → Type 0
IsDigit c = (48 ≤ c) × (c ≤ 57)

All-snoc : (text : List ℕ) (c : ℕ) → All IsDigit text → IsDigit c → All IsDigit (text ++ c ∷ [])
All-snoc [] c a d = (d, tt)
All-snoc (b ∷ text) c a d = (a.0, All-snoc text c a.1 d)

digits-IsDigit : (fuel n : ℕ) → All IsDigit (digits fuel n)
unfolding digits
digits-IsDigit zero n = tt
digits-IsDigit (suc fuel) n = elim (dec_lt n 10) [
  | yes low ↦ let short : ltb n 10 ≡ true = ground arith in rw short (omega arith, tt)
  | no high ↦
      let long : ltb n 10 ≡ false = ground arith in
      rw long
        (All-snoc (digits fuel (n / 10)) (48 + n % 10) (digits-IsDigit fuel (n / 10)) (omega arith))
]

-- The decimal form has digits only.
pub decimal-IsDigit : (n : ℕ) → All IsDigit (decimal n)
unfolding decimal
decimal-IsDigit n = digits-IsDigit 20 n
