-- ===== src/TurnFallback/Ids.antt =====
-- The session identifier that both sides make.
use bear_torrent_final_proje.Base.{
  ℕ, ◌≡◌, refl, sym, ◌∙◌, ap, ◌⊎◌, ◌↔◌, inl, inr, true, false, List, [], ◌∷◌, ◌++◌, arith, All,
  Bool-cases, length,
}
use mathlib.Core.List.{append_assoc}
use bear_torrent_final_proje.Base.Text.{codes}
use bear_torrent_final_proje.Base.Words.{IsU32, to_be_bytes}
use bear_torrent_final_proje.Proto.{Text, PeerId}
use bear_torrent_final_proje.TurnFallback.Addresses.{
  IsPeer, laid, marks, marks_stop, numbers, peer_to_string-laid, peer_to_string-laid_end,
  laid_injective, laid-append, numbers_injective, numbers-IsU32, length-numbers,
}
use bear_torrent_final_proje.TurnFallback.{peer_to_string, key_leb, make_session_id}

key_leb-antisym : (a b : PeerId) → key_leb a b ≡ true → key_leb b a ≡ true → a ≡ b
unfolding key_leb
key_leb-antisym a b h k = ground arith

key_leb-total : (a b : PeerId) → key_leb a b ≡ false → key_leb b a ≡ true
unfolding key_leb
key_leb-total a b h = ground arith

-- Both sides make the same session identifier, whichever of the two peers each names first.
make_session_id_comm : (a b : PeerId) → make_session_id a b ≡ make_session_id b a
unfolding make_session_id
make_session_id_comm a b = elim (Bool-cases (key_leb a b)) [
  | inl p ↦ elim (Bool-cases (key_leb b a)) [
    | inl q ↦ rw (key_leb-antisym a b p q) refl
    | inr q ↦ rw (p, q) refl
  ]
  | inr p ↦ rw (p, key_leb-total a b p) refl
]

-- Two peers' texts with the mark between them.
abbrev between : PeerId → PeerId → Text
between p q = peer_to_string p ++ (codes "|" ++ peer_to_string q)

between-laid :
    (p q : PeerId) → between p q ++ codes "|" ≡ laid (marks ++ marks) (numbers p ++ numbers q)
between-laid p q =
    append_assoc (peer_to_string p) (codes "|" ++ peer_to_string q) (codes "|")
    ∙ peer_to_string-laid p (peer_to_string q ++ codes "|")
    ∙ ap (λ t. laid marks (numbers p) ++ t) (peer_to_string-laid_end q)
    ∙ laid-append marks marks (numbers p) (numbers q) (length-numbers p)

append_injective :
    (xs ys xs' ys' : List ℕ)
    → length xs ≡ length ys
    → xs ++ xs' ≡ ys ++ ys'
    → (xs ≡ ys) × (xs' ≡ ys')
append_injective [] [] xs' ys' l e = (refl, e)
append_injective [] (y ∷ ys) xs' ys' l e = absurd (omega (arith, l))
append_injective (x ∷ xs) [] xs' ys' l e = absurd (omega (arith, l))
append_injective (x ∷ xs) (y ∷ ys) xs' ys' l e =
    let others : xs ++ xs' ≡ ys ++ ys' = cc in
    let (f, g) = append_injective xs ys xs' ys' (omega (arith, l)) others in (cc, g)

All-append : (xs ys : List ℕ) → All IsU32 xs → All IsU32 ys → All IsU32 (xs ++ ys)
All-append [] ys a b = b
All-append (x ∷ xs) ys a b = (a.0, All-append xs ys a.1 b)

between_injective :
    (p q r s : PeerId)
    → IsPeer p
    → IsPeer q
    → IsPeer r
    → IsPeer s
    → between p q ≡ between r s
    → (p ≡ r) × (q ≡ s)
unfolding to_be_bytes
between_injective p q r s a b c d e =
    let same =
      laid_injective (marks ++ marks) (numbers p ++ numbers q) (numbers r ++ numbers s) (marks_stop)
        (All-append (numbers p) (numbers q) (numbers-IsU32 p a) (numbers-IsU32 q b))
        (All-append (numbers r) (numbers s) (numbers-IsU32 r c) (numbers-IsU32 s d)) refl refl
        (sym (between-laid p q) ∙ ap (λ t. t ++ codes "|") e ∙ between-laid r s) in
    let (f, g) = append_injective (numbers p) (numbers r) (numbers q) (numbers s) refl same in
    (numbers_injective p r a c f, numbers_injective q s b d g)

-- A session identifier is the text of its two peers in one of the two orders.
make_session_id-between :
    (a b : PeerId) → (make_session_id a b ≡ between a b) ⊎ (make_session_id a b ≡ between b a)
unfolding make_session_id
make_session_id-between a b = elim (Bool-cases (key_leb a b)) [
  | inl p ↦ inl (rw p refl)
  | inr p ↦ inr (rw p refl)
]

make_session_id_injective :
    (a b c d : PeerId)
    → IsPeer a
    → IsPeer b
    → IsPeer c
    → IsPeer d
    → make_session_id a b ≡ make_session_id c d
    → ((a ≡ c) × (b ≡ d)) ⊎ ((a ≡ d) × (b ≡ c))
make_session_id_injective a b c d p q r s e = elim (make_session_id-between a b) [
  | inl f ↦ elim (make_session_id-between c d) [
    | inl g ↦ inl (between_injective a b c d p q r s (sym f ∙ e ∙ g))
    | inr g ↦ inr (between_injective a b d c p q s r (sym f ∙ e ∙ g))
  ]
  | inr f ↦ elim (make_session_id-between c d) [
    | inl g ↦ let (m, n) = between_injective b a c d q p r s (sym f ∙ e ∙ g) in inr (n, m)
    | inr g ↦ let (m, n) = between_injective b a d c q p s r (sym f ∙ e ∙ g) in inl (n, m)
  ]
]

make_session_id_same :
    (a b c d : PeerId)
    → ((a ≡ c) × (b ≡ d)) ⊎ ((a ≡ d) × (b ≡ c))
    → make_session_id a b ≡ make_session_id c d
make_session_id_same a b c d (inl (e, f)) = rw (e, f) refl
make_session_id_same a b c d (inr (e, f)) = rw (e, f) (make_session_id_comm d c)

-- Two calls make the same session identifier exactly if they name the same two peers, in either
-- order, where the fields of a peer are `u32` values: the two sides of a transfer meet in one
-- session, and no other two peers share it.
pub make_session_id_iff :
    (a b c d : PeerId)
    → IsPeer a
    → IsPeer b
    → IsPeer c
    → IsPeer d
    → (make_session_id a b ≡ make_session_id c d) ↔ (((a ≡ c) × (b ≡ d)) ⊎ ((a ≡ d) × (b ≡ c)))
make_session_id_iff a b c d p q r s =
    (make_session_id_injective a b c d p q r s, make_session_id_same a b c d)
