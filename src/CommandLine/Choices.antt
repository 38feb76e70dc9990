-- ===== src/CommandLine/Choices.antt =====
-- Which file a number at the prompt stands for.
use bear_torrent_final_proje.Base.{
  ℕ, zero, suc, ◌+◌, ◌%◌, ◌^◌, ◌<◌, ◌≤◌, ◌≡◌, refl, ◌∙◌, ap, ◌⊎◌, true, false, List, [], ◌∷◌, ◌++◌,
  arith, length, get_elem?, unwrap, All, nat_eq, get_elem?-none,
}
use native.Mathlib.Decide.{dec_lt}
use bear_torrent_final_proje.Base.Dict.{Dict, lookup, insert, lookup-insert}
use bear_torrent_final_proje.Base.Decimal.{decimal, decimal-IsDigit, IsDigit, parse_uint-decimal}
use bear_torrent_final_proje.Proto.{Text, InfoHash}
use bear_torrent_final_proje.FileHandler.Cache.{is_space, trim_start, trim_end}
use bear_torrent_final_proje.CommandLine.{trim, file_selection, choose}

-- White space, and a text without it.
abbrev pub IsBlank : Text → Type 0
IsBlank = All (λ c. is_space c ≡ true)

abbrev pub IsSolid : Text → Type 0
IsSolid = All (λ c. is_space c ≡ false)

trim_start-blank :
    (before text : Text) → IsBlank before → trim_start (before ++ text) ≡ trim_start text
unfolding trim_start
trim_start-blank [] text b = refl
trim_start-blank (c ∷ before) text b = rw b.0 (trim_start-blank before text b.1)

trim_end-blank : (behind : Text) → IsBlank behind → trim_end behind ≡ []
unfolding trim_end
trim_end-blank [] b = refl
trim_end-blank (c ∷ behind) b = rw (trim_end-blank behind b.1, b.0) refl

trim_end-solid :
    (text behind : Text) → IsSolid text → IsBlank behind → trim_end (text ++ behind) ≡ text
unfolding trim_end
trim_end-solid [] behind s b = trim_end-blank behind b
trim_end-solid (c ∷ []) behind s b = rw (trim_end-blank behind b, s.0) refl
trim_end-solid (c ∷ d ∷ text) behind s b = rw (trim_end-solid (d ∷ text) behind s.1 b) refl

trim_start-all : (behind : Text) → IsBlank behind → trim_start behind ≡ []
unfolding trim_start
trim_start-all [] b = refl
trim_start-all (c ∷ behind) b = rw b.0 (trim_start-all behind b.1)

trim_start-solid :
    (text behind : Text)
    → IsSolid text
    → IsBlank behind
    → trim_end (trim_start (text ++ behind)) ≡ text
unfolding trim_start
trim_start-solid [] behind s b = rw (trim_start-all behind b) (unfold trim_end in refl)
trim_start-solid (c ∷ text) behind s b = rw s.0 (trim_end-solid (c ∷ text) behind s b)

-- Trimming takes off the white space around a text.
pub trim-solid :
    (before text behind : Text)
    → IsBlank before
    → IsSolid text
    → IsBlank behind
    → trim (before ++ (text ++ behind)) ≡ text
trim-solid before text behind b s c =
    rw (trim_start-blank before (text ++ behind) b) (trim_start-solid text behind s c)

digits-IsSolid : (text : Text) → All IsDigit text → IsSolid text
unfolding is_space
digits-IsSolid [] a = tt
digits-IsSolid (c ∷ text) a = (ground (arith, a.0), digits-IsSolid text a.1)

pub decimal-IsSolid : (k : ℕ) → IsSolid (decimal k)
decimal-IsSolid k = digits-IsSolid (decimal k) (decimal-IsDigit k)

-- The counter of the options does not wrap before the last one.
file_selection-next :
    (file other : InfoHash) (files : List InfoHash) (i : ℕ) (m : Dict ℕ InfoHash)
    → i + 1 < 2 ^ 16
    → file_selection (file ∷ other ∷ files) i m
      ≡ file_selection (other ∷ files) (i + 1) (insert i file m)
unfolding file_selection
file_selection-next file other files i m l =
    let same : (i + 1) % 2 ^ 16 ≡ i + 1 = omega arith in
    ap (λ n. file_selection (other ∷ files) n (insert i file m)) same

-- The entries outside of the options stay as they were.
outside-file_selection :
    (files : List InfoHash) (i k : ℕ) (m : Dict ℕ InfoHash)
    → i + length files ≤ 2 ^ 16
    → (k < i) ⊎ (i + length files ≤ k)
    → lookup k (file_selection files i m) ≡ lookup k m
outside-file_selection [] i k m l o = unfold file_selection in refl
outside-file_selection (file ∷ []) i k m l o =
    unfold file_selection in ground (arith, lookup-insert i k file m)
outside-file_selection (file ∷ other ∷ files) i k m l o =
    rw
      (
        file_selection-next file other files i m (omega arith),
        outside-file_selection (other ∷ files) (i + 1) k (insert i file m) (omega arith)
            (ground arith),
      )
      (ground (arith, lookup-insert i k file m))

-- The options hold the files in order, from option `i` on.
inside-file_selection :
    (files : List InfoHash) (i j : ℕ) (m : Dict ℕ InfoHash)
    → i + length files ≤ 2 ^ 16
    → j < length files
    → lookup (i + j) (file_selection files i m) ≡ get_elem? files j
inside-file_selection [] i j m l k = elim k [ ]
inside-file_selection (file ∷ []) i zero m l k =
    unfold file_selection in ground (arith, lookup-insert i (i + 0) file m)
inside-file_selection (file ∷ []) i (suc j) m l k = absurd (omega arith)
inside-file_selection (file ∷ other ∷ files) i zero m l k =
    rw
      (
        file_selection-next file other files i m (omega arith),
        outside-file_selection (other ∷ files) (i + 1) (i + 0) (insert i file m) (omega arith)
            (ground arith),
      )
      (ground (arith, lookup-insert i (i + 0) file m))
inside-file_selection (file ∷ other ∷ files) i (suc j) m l k =
    let same : i + suc j ≡ i + 1 + j = omega arith in
    rw (file_selection-next file other files i m (omega arith), same)
      (inside-file_selection (other ∷ files) (i + 1) j (insert i file m) (omega arith)
        (omega arith))

-- Option `k` of at most 65536 files is file `k`, and there is no other option.
lookup-file_selection :
    (files : List InfoHash) (k : ℕ)
    → length files ≤ 2 ^ 16
    → lookup k (file_selection files 0 []) ≡ get_elem? files k
lookup-file_selection files k l = elim (dec_lt k (length files)) [
  | yes inside ↦
      let same : 0 + k ≡ k = omega arith in
      rw same at (inside-file_selection files 0 k [] (omega arith) inside)
  | no beyond ↦
      rw
        (
          outside-file_selection files 0 k [] (omega arith) (ground arith),
          get_elem?-none files k (omega arith),
        )
        (unfold lookup in refl)
]

file_selection-append :
    (first second : List InfoHash) (i : ℕ) (m : Dict ℕ InfoHash)
    → i < 2 ^ 16
    → file_selection (first ++ second) i m
      ≡ file_selection second ((i + length first) % 2 ^ 16) (file_selection first i m)
unfolding file_selection
file_selection-append [] second i m l =
    let same : (i + 0) % 2 ^ 16 ≡ i = omega arith in rw same refl
file_selection-append (file ∷ first) second i m l =
    let same : ((i + 1) % 2 ^ 16 + length first) % 2 ^ 16 ≡ (i + suc (length first)) % 2 ^ 16 =
      omega arith in
    file_selection-append first second ((i + 1) % 2 ^ 16) (insert i file m) (omega arith)
    ∙ rw same refl

choose-lookup :
    {E : Type 0} (files : List InfoHash) (k : ℕ) (before behind : Text)
    → IsBlank before
    → IsBlank behind
    → k < 2 ^ 16
    → choose {E = E} (before ++ (decimal k ++ behind)) files
      ≡ unwrap (lookup k (file_selection files 0 []))
unfolding choose
choose-lookup files k before behind b c l =
    rw
      (
        trim-solid before (decimal k) behind b (decimal-IsSolid k) c,
        parse_uint-decimal (2 ^ 16) k (omega arith) l,
      )
      refl

-- Where at most 65536 files are listed, the number `k` at the prompt, in decimal and with any white
-- space around it, chooses file `k`, and panics if there is no such file.
pub choose-decimal :
    {E : Type 0} (files : List InfoHash) (k : ℕ) (before behind : Text)
    → IsBlank before
    → IsBlank behind
    → k < 2 ^ 16
    → length files ≤ 2 ^ 16
    → choose {E = E} (before ++ (decimal k ++ behind)) files ≡ unwrap (get_elem? files k)
choose-decimal files k before behind b c l n =
    choose-lookup files k before behind b c l ∙ ap unwrap (lookup-file_selection files k n)

-- Behind 65536 files the options start again: the number of one of the first options chooses the
-- file 65536 places behind it.
pub choose-wrapped :
    {E : Type 0} (first second : List InfoHash) (k : ℕ) (before behind : Text)
    → IsBlank before
    → IsBlank behind
    → length first ≡ 2 ^ 16
    → length second ≤ 2 ^ 16
    → k < length second
    → choose {E = E} (before ++ (decimal k ++ behind)) (first ++ second)
      ≡ unwrap (get_elem? second k)
choose-wrapped first second k before behind b c e n l =
    let start : (0 + length first) % 2 ^ 16 ≡ 0 = omega (arith, e) in
    let same : 0 + k ≡ k = omega arith in
    choose-lookup (first ++ second) k before behind b c (omega arith)
    ∙ rw (file_selection-append first second 0 [] (omega arith), start)
        (ap unwrap (
          rw same at
            (inside-file_selection second 0 k (file_selection first 0 []) (omega arith) l)))
