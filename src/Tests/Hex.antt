-- ===== src/Tests/Hex.antt =====
-- Hexadecimal text as the crate `hex` makes and reads it, for the witnesses.
use bear_torrent_final_proje.Base.{
  ℕ, ◌+◌, ◌-◌, ◌*◌, ◌/◌, ◌%◌, ◌<◌, ◌≡◌, refl, ◌&&◌, Option, none, some, [], ◌∷◌, arith, ltb, leb,
  if◌then◌else◌, All,
}
use bear_torrent_final_proje.Base.Words.{AreBytes}
use bear_torrent_final_proje.Proto.{Text, Bytes}
use bear_torrent_final_proje.FileHandler.Cache.RoundTrip.{IsInline, HexLaws}

unfoldable pub digit : ℕ → ℕ
digit d = if ltb d 10 then 48 + d else 87 + d

unfoldable pub value : ℕ → Option ℕ
value c =
    if leb 48 c && leb c 57
    then some (c - 48)
    else if leb 97 c && leb c 102
    then some (c - 87)
    else none

unfoldable pub hex_encode : Bytes → Text
unfolding digit
hex_encode [] = []
hex_encode (b ∷ bytes) = digit (b / 16) ∷ digit (b % 16) ∷ hex_encode bytes

abbrev pub both_digits : Option ℕ → Option ℕ → Option Bytes → Option Bytes
both_digits (some high) (some low) (some bytes) = some ((high * 16 + low) ∷ bytes)
both_digits (some high) (some low) none = none
both_digits (some high) none bytes = none
both_digits none low bytes = none

unfoldable pub hex_decode : Text → Option Bytes
unfolding value
hex_decode [] = some []
hex_decode (c ∷ []) = none
hex_decode (c ∷ e ∷ text) = both_digits (value c) (value e) (hex_decode text)

value-digit : (d : ℕ) → d < 16 → value (digit d) ≡ some d
unfolding value digit
value-digit d h = ground arith

digit-IsInline : (d : ℕ) → IsInline (digit d)
unfolding digit
digit-IsInline d = (ground arith, ground arith)

digits_back : (bytes : Bytes) → AreBytes bytes → hex_decode (hex_encode bytes) ≡ some bytes
unfolding hex_decode hex_encode
digits_back [] h = refl
digits_back (b ∷ bytes) (h, t) = ground (
  arith,
  value-digit (b / 16) (omega arith),
  value-digit (b % 16) (omega arith),
  digits_back bytes t,
)

inline : (bytes : Bytes) → All IsInline (hex_encode bytes)
unfolding hex_encode
inline [] = tt
inline (b ∷ bytes) = (digit-IsInline (b / 16), (digit-IsInline (b % 16), inline bytes))

pub hex-HexLaws : HexLaws hex_encode hex_decode
hex-HexLaws = record { decode-encode = digits_back; inline = inline }
