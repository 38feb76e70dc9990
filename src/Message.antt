-- ===== src/Message.antt =====
-- client/src/message.rs: the messages between two peers, `encode` and `decode`.
-- A panic of `decode` (a slice out of bounds) is the result `panicked`.
pub mod RoundTrip
pub mod Totality
use bear_torrent_final_proje.Base.{
  ℕ, ◌+◌, ◌-◌, ◌%◌, ◌≡◌, List, [], ◌∷◌, ◌++◌, Option, none, some, ◌&&◌, ltb, leb, ◌==◌,
  if◌then◌else◌, length, get_elem?, take, drop, Outcome, ok, panicked, ◌>>=◌, ◌>>◌, assert, unwrap,
}
use bear_torrent_final_proje.Base.Words.{u32_mod, IsU32, AreBytes, to_be_bytes, from_be_bytes}

pub data Message : Type 0 where
  request : (seeder index begin length : ℕ) (hash : List ℕ) → Message
  piece : (index : ℕ) (block : List ℕ) → Message
  cancel : (seeder index begin length : ℕ) → Message

-- `vec.len() as u32`.
unfoldable pub len_u32 : List ℕ → ℕ
len_u32 xs = length xs % u32_mod

unfoldable pub encode : Message → List ℕ
unfolding len_u32
encode (request seeder index begin length hash) =
    to_be_bytes 37
    ++ (6
        ∷ (to_be_bytes seeder
            ++ (to_be_bytes index ++ (to_be_bytes begin ++ (to_be_bytes length ++ hash)))))
encode (piece index block) =
    to_be_bytes ((5 + len_u32 block) % u32_mod) ++ (7 ∷ (to_be_bytes index ++ block))
encode (cancel seeder index begin length) =
    to_be_bytes 17
    ++ (8
        ∷ (to_be_bytes seeder ++ (to_be_bytes index ++ (to_be_bytes begin ++ to_be_bytes length))))

-- `decode` has no error value of its own: it returns or panics.
abbrev pub Run : Type 0 → Type 0
Run A = Outcome ⊥ A

-- `buf[i]`
unfoldable pub byte_at : List ℕ → ℕ → Run ℕ
byte_at buf i = unwrap (get_elem? buf i)

-- `buf[from..to]`
unfoldable pub slice : List ℕ → ℕ → ℕ → Run (List ℕ)
slice buf from to = do
  assert (leb from to && leb to (length buf))
  ok (take (to - from) (drop from buf))

-- `buf[from..]`
unfoldable pub slice_from : List ℕ → ℕ → Run (List ℕ)
slice_from buf from = do assert (leb from (length buf)); ok (drop from buf)

-- `u32::from_be_bytes(buf[from..from + 4].try_into().unwrap())`
unfoldable pub u32_at : List ℕ → ℕ → Run ℕ
unfolding slice
u32_at buf from = do bytes ← slice buf from (from + 4); unwrap (from_be_bytes bytes)

-- `buf[from..from + 20].try_into().unwrap()` into a `[u8; 20]`
unfoldable pub hash_at : List ℕ → ℕ → Run (List ℕ)
unfolding slice
hash_at buf from = do bytes ← slice buf from (from + 20); assert (length bytes == 20); ok bytes

unfoldable pub decode_request : List ℕ → Run (Option Message)
decode_request buf = do
  seeder ← u32_at buf 5
  index ← u32_at buf 9
  begin ← u32_at buf 13
  length ← u32_at buf 17
  hash ← hash_at buf 21
  ok (some (request seeder index begin length hash))

unfoldable pub decode_piece : List ℕ → Run (Option Message)
decode_piece buf = do index ← u32_at buf 5; block ← slice_from buf 9; ok (some (piece index block))

unfoldable pub decode_cancel : List ℕ → Run (Option Message)
decode_cancel buf = do
  seeder ← u32_at buf 5
  index ← u32_at buf 9
  begin ← u32_at buf 13
  length ← u32_at buf 17
  ok (some (cancel seeder index begin length))

unfoldable pub decode_body : ℕ → List ℕ → Run (Option Message)
decode_body message_id buf =
    if message_id == 6
    then decode_request buf
    else if message_id == 7
    then decode_piece buf
    else if message_id == 8
    then decode_cancel buf
    else ok none

unfoldable pub decode : List ℕ → Run (Option Message)
decode buf =
    if ltb (length buf) 4
    then ok none
    else do message_id ← byte_at buf 4; decode_body message_id buf

-- The ranges of the fields of a message: `u32` numbers, bytes, and a hash of twenty bytes.
abbrev pub IsMessage : Message → Type 0
IsMessage (request seeder index begin len hash) =
    IsU32 seeder × IsU32 index × IsU32 begin × IsU32 len × (length hash ≡ 20) × AreBytes hash
IsMessage (piece index block) = IsU32 index × AreBytes block
IsMessage (cancel seeder index begin len) = IsU32 seeder × IsU32 index × IsU32 begin × IsU32 len
