-- ===== src/FileHandler/Cache/RoundTrip.antt =====
-- A record that is written to its cache file is read back as it was.
use bear_torrent_final_proje.Base.{
  ℕ, ◌≡◌, ◌≢◌, refl, ap, Option, some, List, [], ◌∷◌, ◌++◌, ok, arith, All, bytes_eq, list_beq,
}
use bear_torrent_final_proje.Base.Text.{codes}
use bear_torrent_final_proje.Base.Words.{u32_mod, u64_mod, IsU32, IsU64, AreBytes}
use bear_torrent_final_proje.Base.Decimal.{decimal, parse_uint-decimal, decimal-IsDigit, IsDigit}
use bear_torrent_final_proje.Proto.{Text, Bytes, InfoHash, PieceHash}
use bear_torrent_final_proje.FileHandler.Cache.{
  chomp, lines, lines_from, strip_prefix, trim_start, trim_end, hash_lines, cache_text,
  decode_pieces, parse_cache,
}

-- A character that ends no line.
abbrev pub IsInline : ℕ → Type 0
IsInline c = (c ≢ 10) × (c ≢ 13)

All-append : (xs ys : Text) → All IsInline xs → All IsInline ys → All IsInline (xs ++ ys)
All-append [] ys a b = b
All-append (x ∷ xs) ys a b = (a.0, All-append xs ys a.1 b)

chomp-IsInline : (line : Text) → All IsInline line → chomp line ≡ line
chomp-IsInline [] a = refl
chomp-IsInline (c ∷ []) a = ground arith
chomp-IsInline (c ∷ d ∷ line) a = ap (λ ys. c ∷ ys) (chomp-IsInline (d ∷ line) a.1)

append_cons : (xs : Text) (c : ℕ) (ys : Text) → (xs ++ c ∷ []) ++ ys ≡ xs ++ (c ∷ ys)
append_cons [] c ys = refl
append_cons (x ∷ xs) c ys = ap (λ zs. x ∷ zs) (append_cons xs c ys)

append_nil : (xs : Text) → xs ++ [] ≡ xs
append_nil [] = refl
append_nil (x ∷ xs) = ap (λ ys. x ∷ ys) (append_nil xs)

lines_from-cons :
    (before line rest : Text)
    → All IsInline before
    → All IsInline line
    → lines_from before (line ++ (10 ∷ rest)) ≡ (before ++ line) ∷ lines rest
unfolding lines_from
lines_from-cons before [] rest a b = ground (arith, chomp-IsInline before a, append_nil before)
lines_from-cons before (c ∷ line) rest a b =
    let go =
      lines_from-cons (before ++ c ∷ []) line rest (All-append before (c ∷ []) a (b.0, tt)) b.1 in
    ground (arith, b.0.0, go, append_cons before c line)

append_assoc : (xs ys zs : Text) → (xs ++ ys) ++ zs ≡ xs ++ (ys ++ zs)
append_assoc [] ys zs = refl
append_assoc (x ∷ xs) ys zs = ap (λ us. x ∷ us) (append_assoc xs ys zs)

lines-label :
    (label value rest : Text)
    → All IsInline label
    → All IsInline value
    → lines (label ++ (value ++ (10 ∷ rest))) ≡ (label ++ value) ∷ lines rest
lines-label label value rest a b =
    rw (← append_assoc label value (10 ∷ rest))
      (lines_from-cons [] (label ++ value) rest tt (All-append label value a b))

digits-IsInline : (text : Text) → All IsDigit text → All IsInline text
digits-IsInline [] a = tt
digits-IsInline (c ∷ text) a = ((ground arith, ground arith), digits-IsInline text a.1)

strip_prefix-append : (prefix text : Text) → strip_prefix prefix (prefix ++ text) ≡ some text
unfolding strip_prefix
strip_prefix-append [] text = refl
strip_prefix-append (p ∷ prefix) text = ground (arith, strip_prefix-append prefix text)

module _ (hex_encode : Bytes → Text) (hex_decode : Text → Option Bytes) where
  -- What the code relies on of the crate `hex`: decoding undoes encoding, and the text of an encoding
  -- stays on its line.
  pub record HexLaws : Type 0 where
    pub decode-encode : (b : Bytes) → AreBytes b → hex_decode (hex_encode b) ≡ some b
    pub inline : (b : Bytes) → All IsInline (hex_encode b)

  decode_pieces-hash_lines :
      (pieces : List PieceHash)
      → HexLaws
      → All AreBytes pieces
      → decode_pieces hex_encode hex_decode (lines (hash_lines hex_encode hex_decode pieces))
        ≡ ok pieces
  unfolding hash_lines decode_pieces lines_from
  decode_pieces-hash_lines [] x a = refl
  decode_pieces-hash_lines (p ∷ pieces) x a =
      rw
        (
          lines_from-cons [] (hex_encode p) (hash_lines hex_encode hex_decode pieces) tt
              (x.inline p),
          x.decode-encode p a.0,
          decode_pieces-hash_lines pieces x a.1,
        )
        refl

  -- Reading the text that is written for a record gives the record back, if its name has no line
  -- break, its file length is a `u64`, its piece length a `u32`, its hashes are of bytes, and `hex`
  -- satisfies its laws.
  pub parse_cache-cache_text :
      (h : InfoHash)
      → HexLaws
      → All IsInline h.name
      → IsU64 h.file_length
      → IsU32 h.piece_length
      → All AreBytes h.pieces
      → parse_cache hex_encode hex_decode (cache_text hex_encode hex_decode h) ≡ ok h
  unfolding parse_cache cache_text trim_start trim_end list_beq
  parse_cache-cache_text h x n f p b =
      rw
        (
          lines-label (codes "name: ") h.name _ (ground arith) n,
          strip_prefix-append (codes "name: ") h.name,
          lines-label (codes "file_length: ") (decimal h.file_length) _ (ground arith)
              (digits-IsInline (decimal h.file_length) (decimal-IsDigit h.file_length)),
          strip_prefix-append (codes "file_length: ") (decimal h.file_length),
          parse_uint-decimal u64_mod h.file_length (omega arith) f,
          lines-label (codes "piece_length: ") (decimal h.piece_length) _ (ground arith)
              (digits-IsInline (decimal h.piece_length) (decimal-IsDigit h.piece_length)),
          strip_prefix-append (codes "piece_length: ") (decimal h.piece_length),
          parse_uint-decimal u32_mod h.piece_length (omega arith) p,
          lines_from-cons [] (codes "pieces:") (hash_lines hex_encode hex_decode h.pieces) tt
              (ground arith),
          decode_pieces-hash_lines h.pieces x b,
        )
        refl
