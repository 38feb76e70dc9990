-- ===== src/TurnFallback/Headers.antt =====
-- The texts that the two sides put into the metadata of their streams.
use bear_torrent_final_proje.Base.{
  ℕ, ◌≤◌, ◌<◌, List, [], ◌∷◌, ◌++◌, arith, All, Bool-cases, inl, inr,
}
use bear_torrent_final_proje.Base.Text.{codes}
use bear_torrent_final_proje.Base.Words.{to_be_bytes}
use bear_torrent_final_proje.Base.Decimal.{decimal, decimal-IsDigit, IsDigit}
use bear_torrent_final_proje.Proto.{Text, PeerId}
use bear_torrent_final_proje.TurnFallback.{dotted, peer_to_string, key_leb, make_session_id}

-- Visible ASCII, which `parse` makes a metadata value of.
abbrev pub IsVisible : Text → Type 0
IsVisible = All (λ c. (32 ≤ c) × (c < 127))

IsVisible-append : (s t : Text) → IsVisible s → IsVisible t → IsVisible (s ++ t)
IsVisible-append [] t a b = b
IsVisible-append (c ∷ s) t a b = (a.0, IsVisible-append s t a.1 b)

digits-IsVisible : (s : Text) → All IsDigit s → IsVisible s
digits-IsVisible [] a = tt
digits-IsVisible (c ∷ s) a = (omega (arith, a.0), digits-IsVisible s a.1)

decimal-IsVisible : (n : ℕ) → IsVisible (decimal n)
decimal-IsVisible n = digits-IsVisible (decimal n) (decimal-IsDigit n)

dotted-IsVisible : (bytes : List ℕ) → IsVisible (dotted bytes)
dotted-IsVisible [] = tt
dotted-IsVisible (a ∷ []) = decimal-IsVisible a
dotted-IsVisible (a ∷ b ∷ bytes) =
    IsVisible-append (decimal a) (codes "." ++ dotted (b ∷ bytes)) (decimal-IsVisible a)
      (omega arith, dotted-IsVisible (b ∷ bytes))

peer_to_string-IsVisible : (p : PeerId) → IsVisible (peer_to_string p)
unfolding peer_to_string
peer_to_string-IsVisible p =
    IsVisible-append (dotted (to_be_bytes p.ipaddr)) _ (dotted-IsVisible (to_be_bytes p.ipaddr)) (
      omega arith,
      IsVisible-append (decimal p.port) _ (decimal-IsVisible p.port) (
        omega arith,
        IsVisible-append (dotted (to_be_bytes p.priv_ipaddr)) _
            (dotted-IsVisible (to_be_bytes p.priv_ipaddr))
            (omega arith, decimal-IsVisible p.priv_port),
      ),
    )

-- A session identifier is of visible ASCII characters, so its `unwrap` does not panic.
pub make_session_id-IsVisible : (a b : PeerId) → IsVisible (make_session_id a b)
unfolding make_session_id
make_session_id-IsVisible a b = elim (Bool-cases (key_leb a b)) [
  | inl e ↦ rw e (
      IsVisible-append (peer_to_string a) _ (peer_to_string-IsVisible a)
        (omega arith, peer_to_string-IsVisible b))
  | inr e ↦ rw e (
      IsVisible-append (peer_to_string b) _ (peer_to_string-IsVisible b)
        (omega arith, peer_to_string-IsVisible a))
]
