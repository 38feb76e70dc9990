-- ===== src/TurnFallback/Addresses.antt =====
-- The text of a peer as numbers with marks between them.
use bear_torrent_final_proje.Base.{
  ℕ, ◌<◌, ◌^◌, ◌≡◌, refl, sym, ◌∙◌, ap, some, List, [], ◌∷◌, ◌++◌, arith, All, length,
}
use mathlib.Core.List.{append_assoc}
use bear_torrent_final_proje.Base.Text.{codes}
use bear_torrent_final_proje.Base.Words.{
  IsU32, to_be_bytes, from_be_bytes, from_be_bytes-to_be_bytes,
}
use bear_torrent_final_proje.Base.Decimal.{
  decimal, parse_uint-decimal, parse_uint, decimal-IsDigit, IsDigit,
}
use bear_torrent_final_proje.Proto.{Text, PeerId}
use bear_torrent_final_proje.TurnFallback.{peer_to_string}

-- A text does not start with a digit.
abbrev Stops : Text → Type 0
Stops [] = Unit
Stops (c ∷ text) = ¬ IsDigit c

-- Two texts agree on their digits in front if something else follows in both.
digits_split :
    (xs ys s t : Text)
    → All IsDigit xs
    → All IsDigit ys
    → Stops s
    → Stops t
    → xs ++ s ≡ ys ++ t
    → (xs ≡ ys) × (s ≡ t)
digits_split [] [] s t a b p q e = (refl, e)
digits_split [] (y ∷ ys) [] t a b p q e = absurd (cc)
digits_split [] (y ∷ ys) (c ∷ s) t a b p q e =
    let same : y ≡ c = cc in let digit : IsDigit c = rw same at b.0 in absurd (p digit)
digits_split (x ∷ xs) [] s [] a b p q e = absurd (cc)
digits_split (x ∷ xs) [] s (c ∷ t) a b p q e =
    let same : x ≡ c = cc in let digit : IsDigit c = rw same at a.0 in absurd (q digit)
digits_split (x ∷ xs) (y ∷ ys) s t a b p q e =
    let same : x ≡ y = cc in
    let others : xs ++ s ≡ ys ++ t = cc in
    let (f, g) = digits_split xs ys s t a.1 b.1 p q others in (cc, g)

-- The decimal form determines a number of twenty digits.
decimal_injective : (m n : ℕ) → m < 2 ^ 32 → n < 2 ^ 32 → decimal m ≡ decimal n → m ≡ n
decimal_injective m n a b e =
    let back = parse_uint-decimal (2 ^ 32) in
    let same : some m ≡ some n =
      sym (back m (omega arith) a) ∙ ap (parse_uint (2 ^ 32)) e ∙ back n (omega arith) b in
    cc

-- Numbers that other characters follow.
decimal_split :
    (m n : ℕ) (s t : Text)
    → IsU32 m
    → IsU32 n
    → Stops s
    → Stops t
    → decimal m ++ s ≡ decimal n ++ t
    → (m ≡ n) × (s ≡ t)
decimal_split m n s t a b p q e =
    let (f, g) =
      digits_split (decimal m) (decimal n) s t (decimal-IsDigit m) (decimal-IsDigit n) p q e in
    (decimal_injective m n a b f, g)

-- Numbers in decimal, each with the character that follows it.
unfoldable pub laid : List ℕ → List ℕ → Text
laid [] ns = []
laid (c ∷ cs) [] = []
laid (c ∷ cs) (n ∷ ns) = decimal n ++ (c ∷ laid cs ns)

pub laid_injective :
    (cs ns ms : List ℕ)
    → All (λ c. ¬ IsDigit c) cs
    → All IsU32 ns
    → All IsU32 ms
    → length ns ≡ length cs
    → length ms ≡ length cs
    → laid cs ns ≡ laid cs ms
    → ns ≡ ms
unfolding laid
laid_injective [] [] [] p a b k l e = refl
laid_injective [] [] (m ∷ ms) p a b k l e = absurd (omega arith)
laid_injective [] (n ∷ ns) ms p a b k l e = absurd (omega arith)
laid_injective (c ∷ cs) [] ms p a b k l e = absurd (omega arith)
laid_injective (c ∷ cs) (n ∷ ns) [] p a b k l e = absurd (omega arith)
laid_injective (c ∷ cs) (n ∷ ns) (m ∷ ms) p a b k l e =
    let (f, g) = decimal_split n m (c ∷ laid cs ns) (c ∷ laid cs ms) a.0 b.0 p.0 p.0 e in
    let others : laid cs ns ≡ laid cs ms = cc in
    let rest = laid_injective cs ns ms p.1 a.1 b.1 (omega (arith, k)) (omega (arith, l)) others in
    cc

-- The numbers of a peer's text, and what follows each of them in a session identifier.
abbrev pub numbers : PeerId → List ℕ
numbers p = to_be_bytes p.ipaddr ++ (p.port ∷ (to_be_bytes p.priv_ipaddr ++ (p.priv_port ∷ [])))

abbrev pub marks : List ℕ
marks = codes "...:-...:|"

pub peer_to_string-laid :
    (p : PeerId) (s : Text) → peer_to_string p ++ (codes "|" ++ s) ≡ laid marks (numbers p) ++ s
unfolding laid peer_to_string to_be_bytes
peer_to_string-laid p s = simp (append_assoc)

pub peer_to_string-laid_end : (p : PeerId) → peer_to_string p ++ codes "|" ≡ laid marks (numbers p)
unfolding laid peer_to_string to_be_bytes
peer_to_string-laid_end p = simp (append_assoc)

-- The fields of a peer are `u32` values, as their Rust type is.
abbrev pub IsPeer : PeerId → Type 0
IsPeer p = IsU32 p.ipaddr × IsU32 p.port × IsU32 p.priv_ipaddr × IsU32 p.priv_port

pub marks_stop : All (λ c. ¬ IsDigit c) (marks ++ marks)
marks_stop = ground arith

pub numbers-IsU32 : (p : PeerId) → IsPeer p → All IsU32 (numbers p)
unfolding to_be_bytes
numbers-IsU32 p (a, b, c, d) = omega (arith, a, b, c, d)

pub length-numbers : (p : PeerId) → length (numbers p) ≡ length marks
unfolding to_be_bytes
length-numbers p = refl

split4 :
    (m n : ℕ) (s t : List ℕ)
    → to_be_bytes m ++ s ≡ to_be_bytes n ++ t
    → (to_be_bytes m ≡ to_be_bytes n) × (s ≡ t)
unfolding to_be_bytes
split4 m n s t e = (cc, cc)

to_be_bytes_injective : (m n : ℕ) → IsU32 m → IsU32 n → to_be_bytes m ≡ to_be_bytes n → m ≡ n
to_be_bytes_injective m n a b e =
    let same : some m ≡ some n =
      sym (from_be_bytes-to_be_bytes m a) ∙ ap from_be_bytes e ∙ from_be_bytes-to_be_bytes n b in
    cc

peer_≡ :
    (p q : PeerId)
    → p.ipaddr ≡ q.ipaddr
    → p.port ≡ q.port
    → p.priv_ipaddr ≡ q.priv_ipaddr
    → p.priv_port ≡ q.priv_port
    → p ≡ q
peer_≡ p q a b c d = cc

pub numbers_injective : (p q : PeerId) → IsPeer p → IsPeer q → numbers p ≡ numbers q → p ≡ q
numbers_injective p q a b e =
    let (f, g) = split4 p.ipaddr q.ipaddr _ _ e in
    let port : p.port ≡ q.port = cc in
    let rest : to_be_bytes p.priv_ipaddr ++ (p.priv_port ∷ [])
        ≡ to_be_bytes q.priv_ipaddr ++ (q.priv_port ∷ []) =
      cc in
    let (h, k) = split4 p.priv_ipaddr q.priv_ipaddr (p.priv_port ∷ []) (q.priv_port ∷ []) rest in
    let priv_port : p.priv_port ≡ q.priv_port = cc in
    peer_≡ p q (to_be_bytes_injective p.ipaddr q.ipaddr a.0 b.0 f) port
      (to_be_bytes_injective p.priv_ipaddr q.priv_ipaddr a.2 b.2 h) priv_port

pub laid-append :
    (cs ds ns ms : List ℕ)
    → length ns ≡ length cs
    → laid cs ns ++ laid ds ms ≡ laid (cs ++ ds) (ns ++ ms)
unfolding laid
laid-append [] ds [] ms l = refl
laid-append [] ds (n ∷ ns) ms l = absurd (omega (arith, l))
laid-append (c ∷ cs) ds [] ms l = absurd (omega (arith, l))
laid-append (c ∷ cs) ds (n ∷ ns) ms l =
    append_assoc (decimal n) (c ∷ laid cs ns) (laid ds ms)
    ∙ ap (λ t. decimal n ++ (c ∷ t)) (laid-append cs ds ns ms (omega (arith, l)))
