-- ===== src/Message/Totality.antt =====
-- Which buffers `decode` accepts, and on which it panics.
use bear_torrent_final_proje.Base.{
  ℕ, ◌+◌, ◌-◌, ◌≤◌, ◌<◌, ◌≡◌, ◌↔◌, refl, List, [], ◌∷◌, some, arith, length, ok, err, panicked,
  ◌>>=◌, take, drop, false, length-take, length-drop, get_elem?, ◌==◌, if◌then◌else◌, inl, inr,
  Bool-cases, le→leb, ltb, none, lt_of_get_elem?, get_elem?-none, get_elem?-some,
}
use native.Mathlib.Decide.{dec_lt}
use bear_torrent_final_proje.Base.Words.{from_be_bytes}
use bear_torrent_final_proje.Message.{
  piece, decode, decode_body, decode_request, decode_piece, decode_cancel, byte_at, u32_at, hash_at,
  slice, slice_from, Run,
}

from_be_bytes-length : (xs : List ℕ) → length xs ≡ 4 → (n : ℕ) × (from_be_bytes xs ≡ some n)
unfolding from_be_bytes
from_be_bytes-length [] h = absurd (omega arith)
from_be_bytes-length (a ∷ []) h = absurd (omega arith)
from_be_bytes-length (a ∷ b ∷ []) h = absurd (omega arith)
from_be_bytes-length (a ∷ b ∷ c ∷ []) h = absurd (omega arith)
from_be_bytes-length (a ∷ b ∷ c ∷ d ∷ []) h = (_, refl)
from_be_bytes-length (a ∷ b ∷ c ∷ d ∷ e ∷ xs) h = absurd (omega arith)

-- A call returns.
abbrev pub Returns : {A : Type 0} → Run A → Type 0
Returns {A} r = (a : A) × (r ≡ ok a)

slice_in_range :
    (buf : List ℕ) (from n : ℕ)
    → from + n ≤ length buf
    → (xs : List ℕ) × (slice buf from (from + n) ≡ ok xs) × (length xs ≡ n)
unfolding slice
slice_in_range buf from n h = (
  take (from + n - from) (drop from buf),
  ground arith,
  omega (arith, length-take (from + n - from) (drop from buf), length-drop from buf),
)

slice_out_of_range :
    (buf : List ℕ) (from n : ℕ) → length buf < from + n → slice buf from (from + n) ≡ panicked
unfolding slice
slice_out_of_range buf from n h = ground arith

u32_at_in_range : (buf : List ℕ) (from : ℕ) → from + 4 ≤ length buf → Returns (u32_at buf from)
unfolding u32_at
u32_at_in_range buf from h =
    let (xs, e, l) = slice_in_range buf from 4 h in
    let (n, f) = from_be_bytes-length xs l in (n, rw (e, f))

u32_at_out_of_range : (buf : List ℕ) (from : ℕ) → length buf < from + 4 → u32_at buf from ≡ panicked
unfolding u32_at
u32_at_out_of_range buf from h = rw (slice_out_of_range buf from 4 h)

hash_at_in_range : (buf : List ℕ) (from : ℕ) → from + 20 ≤ length buf → Returns (hash_at buf from)
unfolding hash_at
hash_at_in_range buf from h = let (xs, e, l) = slice_in_range buf from 20 h in (xs, rw (e, l))

hash_at_out_of_range :
    (buf : List ℕ) (from : ℕ) → length buf < from + 20 → hash_at buf from ≡ panicked
unfolding hash_at
hash_at_out_of_range buf from h = rw (slice_out_of_range buf from 20 h)

-- A sequence of calls returns if each of them does, and panics if one of them does behind calls
-- that return.
bind_Returns :
    {A B : Type 0} (m : Run A) (f : A → Run B)
    → Returns m
    → ((a : A) → Returns (f a))
    → Returns (m >>= f)
bind_Returns m f (a, e) k = rw e (k a)

bind_panics :
    {A B : Type 0} (m : Run A) (f : A → Run B) → ((a : A) → f a ≡ panicked) → (m >>= f) ≡ panicked
bind_panics (ok a) f k = k a
bind_panics (err e) f k = absurd e
bind_panics panicked f k = refl

decode_request_in_range : (buf : List ℕ) → 41 ≤ length buf → Returns (decode_request buf)
unfolding decode_request
decode_request_in_range buf h =
    bind_Returns (u32_at buf 5) _ (u32_at_in_range buf 5 (omega arith)) λ seeder.
      bind_Returns (u32_at buf 9) _ (u32_at_in_range buf 9 (omega arith)) λ index.
        bind_Returns (u32_at buf 13) _ (u32_at_in_range buf 13 (omega arith)) λ begin.
          bind_Returns (u32_at buf 17) _ (u32_at_in_range buf 17 (omega arith)) λ len.
            bind_Returns (hash_at buf 21) _ (hash_at_in_range buf 21 (omega arith))
              λ hash. (_, refl)

decode_request_out_of_range : (buf : List ℕ) → length buf < 41 → decode_request buf ≡ panicked
unfolding decode_request
decode_request_out_of_range buf h = bind_panics (u32_at buf 5) _ λ seeder.
    bind_panics (u32_at buf 9) _ λ index.
      bind_panics (u32_at buf 13) _
        λ begin. bind_panics (u32_at buf 17) _ λ len. rw (hash_at_out_of_range buf 21 (omega arith))

decode_piece_in_range : (buf : List ℕ) → 9 ≤ length buf → Returns (decode_piece buf)
unfolding decode_piece slice_from
decode_piece_in_range buf h =
    bind_Returns (u32_at buf 5) _ (u32_at_in_range buf 5 (omega arith))
      λ index. (some (piece index (drop 9 buf)), rw (le→leb 9 (length buf) h))

decode_piece_out_of_range : (buf : List ℕ) → length buf < 9 → decode_piece buf ≡ panicked
unfolding decode_piece
decode_piece_out_of_range buf h = rw (u32_at_out_of_range buf 5 (omega arith))

decode_cancel_in_range : (buf : List ℕ) → 21 ≤ length buf → Returns (decode_cancel buf)
unfolding decode_cancel
decode_cancel_in_range buf h =
    bind_Returns (u32_at buf 5) _ (u32_at_in_range buf 5 (omega arith)) λ seeder.
      bind_Returns (u32_at buf 9) _ (u32_at_in_range buf 9 (omega arith)) λ index.
        bind_Returns (u32_at buf 13) _ (u32_at_in_range buf 13 (omega arith)) λ begin.
          bind_Returns (u32_at buf 17) _ (u32_at_in_range buf 17 (omega arith)) λ len. (_, refl)

decode_cancel_out_of_range : (buf : List ℕ) → length buf < 21 → decode_cancel buf ≡ panicked
unfolding decode_cancel
decode_cancel_out_of_range buf h = bind_panics (u32_at buf 5) _ λ seeder.
    bind_panics (u32_at buf 9) _
      λ index. bind_panics (u32_at buf 13) _ λ begin. rw (u32_at_out_of_range buf 17 (omega arith))

-- The bytes that a message with this identifier needs.
abbrev pub needed : ℕ → ℕ
needed message_id =
    if message_id == 6 then 41 else if message_id == 7 then 9 else if message_id == 8 then 21 else 5

decode_body_in_range :
    (message_id : ℕ) (buf : List ℕ)
    → needed message_id ≤ length buf
    → Returns (decode_body message_id buf)
unfolding decode_body
decode_body_in_range message_id buf h = elim (Bool-cases (message_id == 6)) [
  | inl p ↦ rw p (decode_request_in_range buf (rw p at h))
  | inr p ↦ elim (Bool-cases (message_id == 7)) [
    | inl q ↦ rw (p, q) (decode_piece_in_range buf (rw (p, q) at h))
    | inr q ↦ elim (Bool-cases (message_id == 8)) [
      | inl r ↦ rw (p, q, r) (decode_cancel_in_range buf (rw (p, q, r) at h))
      | inr r ↦ rw (p, q, r) (_, refl)
    ]
  ]
]

decode_body_out_of_range :
    (message_id : ℕ) (buf : List ℕ)
    → 4 < length buf
    → length buf < needed message_id
    → decode_body message_id buf ≡ panicked
unfolding decode_body
decode_body_out_of_range message_id buf g h = elim (Bool-cases (message_id == 6)) [
  | inl p ↦ rw p (decode_request_out_of_range buf (rw p at h))
  | inr p ↦ elim (Bool-cases (message_id == 7)) [
    | inl q ↦ rw (p, q) (decode_piece_out_of_range buf (rw (p, q) at h))
    | inr q ↦ elim (Bool-cases (message_id == 8)) [
      | inl r ↦ rw (p, q, r) (decode_cancel_out_of_range buf (rw (p, q, r) at h))
      | inr r ↦ absurd (let k = rw (p, q, r) at h in omega arith)
    ]
  ]
]

decode-decode_body :
    (buf : List ℕ) (message_id : ℕ)
    → get_elem? buf 4 ≡ some message_id
    → decode buf ≡ decode_body message_id buf
unfolding decode byte_at
decode-decode_body buf message_id e =
    let five = lt_of_get_elem? buf 4 message_id e in
    let long : ltb (length buf) 4 ≡ false = ground (arith, five) in rw (long, e) refl

-- A buffer that has a fifth byte is decoded without a panic exactly if it has the bytes that a message
-- of that byte's kind needs: 41 for a request, 9 for a piece, 21 for a cancel, and 5 for any other
-- identifier.
pub decode-Returns_iff :
    (buf : List ℕ) (message_id : ℕ)
    → get_elem? buf 4 ≡ some message_id
    → Returns (decode buf) ↔ (needed message_id ≤ length buf)
decode-Returns_iff buf message_id e =
    let five = lt_of_get_elem? buf 4 message_id e in
    rw (decode-decode_body buf message_id e) (
      λ (value, returns). elim (dec_lt (length buf) (needed message_id)) [
        | yes short ↦ absurd (let panics = decode_body_out_of_range message_id buf five short in cc)
        | no long ↦ omega (arith, long)
      ],
      decode_body_in_range message_id buf,
    )

-- A buffer of fewer than four bytes is answered with `None`; one of exactly four bytes passes the
-- length test and makes `decode` panic.
pub decode_short :
    (buf : List ℕ)
    → length buf ≤ 4
    → decode buf ≡ (if ltb (length buf) 4 then ok none else panicked)
unfolding decode byte_at
decode_short buf h = elim (Bool-cases (ltb (length buf) 4)) [
  | inl e ↦ rw e refl
  | inr e ↦ rw (e, get_elem?-none buf 4 h) refl
]

-- A seeder reads 41 bytes from each stream: no content of those bytes makes `decode` panic.
pub decode_of_41_bytes : (buf : List ℕ) → length buf ≡ 41 → Returns (decode buf)
decode_of_41_bytes buf h =
    let (message_id, e) = get_elem?-some buf 4 (omega arith) in
    (decode-Returns_iff buf message_id e).1 (ground arith)
