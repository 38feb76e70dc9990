-- ===== src/FileHandler/Pieces.antt =====
-- client/src/file_handler.rs: the geometry of pieces, and the hashes. `sha1` is the crate's function.
use bear_torrent_final_proje.Base.{
  ℕ, zero, suc, ◌+◌, ◌*◌, ◌%◌, Bool, true, ◌&&◌, List, [], ◌∷◌, ◌++◌, if◌then◌else◌, leb, ◌==◌,
  length, take, drop, replicate,
}
use bear_torrent_final_proje.Base.Words.{u32_mod, to_be_bytes, to_be_bytes_u64}
use bear_torrent_final_proje.Proto.{Bytes, InfoHash, PieceHash}

-- `InfoHash::get_piece_length`
unfoldable pub get_piece_length : ℕ → ℕ
get_piece_length length =
    if leb length 67_108_864
    then 65_536
    else if leb length 536_870_912
    then 262_144
    else if leb length 1_073_741_824
    then 524_288
    else 1_048_576

-- `Status::has_all_pieces`; `all` of no value is true, as the test for an empty status says too.
unfoldable pub all_one : List ℕ → Bool
all_one [] = true
all_one (s ∷ status) = s == 1 && all_one status

unfoldable pub has_all_pieces : List ℕ → Bool
unfolding all_one
has_all_pieces [] = true
has_all_pieces (s ∷ status) = all_one (s ∷ status)

-- `piece_index * piece_length` in `u32`.
unfoldable pub offset_of : ℕ → ℕ → ℕ
offset_of piece_index piece_length = piece_index * piece_length % u32_mod

module _ (sha1 : Bytes → Bytes) where
  -- `hash_piece_data`
  unfoldable pub hash_piece_data : Bytes → Bytes
  hash_piece_data buf = sha1 buf

  -- The loop of `get_piece_hashes` over what is left of the file. The inner loop fills the front of
  -- `buf` with the next bytes, up to a full piece; the rest of `buf` keeps what it had.
  unfoldable pub hash_loop : ℕ → ℕ → Bytes → Bytes → List PieceHash
  unfolding hash_piece_data
  hash_loop zero piece_length buf rest = []
  hash_loop (suc fuel) piece_length buf rest =
      let bytes = take piece_length rest in
      let buf' = bytes ++ drop (length bytes) buf in
      let hashes = hash_loop fuel piece_length buf' (drop piece_length rest) in
      if length bytes == 0 then [] else hash_piece_data buf' ∷ hashes

  -- `InfoHash::get_piece_hashes`
  unfoldable pub get_piece_hashes : ℕ → Bytes → List PieceHash
  get_piece_hashes piece_length content =
      hash_loop (length content + 1) piece_length (replicate piece_length 0) content

  unfoldable pub concat : List PieceHash → Bytes
  concat [] = []
  concat (p ∷ pieces) = p ++ concat pieces

  -- `InfoHash::get_hashed_info_hash`
  unfoldable pub get_hashed_info_hash : InfoHash → Bytes
  get_hashed_info_hash h =
      sha1 (
        to_be_bytes_u64 h.file_length
        ++ (to_be_bytes h.piece_length ++ (h.name ++ concat h.pieces)))
