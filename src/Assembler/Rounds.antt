-- ===== src/Assembler/Rounds.antt =====
-- One round of `reassemble_loop` on a piece that a connection brings, and the end of the loop.
use bear_torrent_final_proje.Base.{
  ℕ, zero, suc, ◌<◌, ◌≡◌, ◌≢◌, refl, ◌∙◌, Bool, true, false, none, some, List, [], ◌∷◌, ok, arith,
  if◌then◌else◌, length, get_elem?, set, eqb_iff, eqb_refl, bytes_eq, replicate,
}
use bear_torrent_final_proje.Proto.{Bytes, InfoHash}
use bear_torrent_final_proje.Message.{Message, piece}
use bear_torrent_final_proje.FileHandler.Disk.{Disk, has_slash, has_dir, content_of}
use bear_torrent_final_proje.FileHandler.Pieces.{has_all_pieces, hash_piece_data, all_one}
use bear_torrent_final_proje.FileHandler.Store.{cache_dir, file_path, part_path, info_path}
use bear_torrent_final_proje.FileHandler.Progress.{piece_of}
use bear_torrent_final_proje.FileHandler.PieceWrite.{status_in}
use bear_torrent_final_proje.FileHandler.Download.{IsCut, Downloading, write-Downloading}
use bear_torrent_final_proje.FileHandler.Finish.{finish, is_file_complete-Downloading}
use bear_torrent_final_proje.Assembler.{
  Assembly, next, finished, on_piece, accept, verify, close, ask_again, Ends,
}

-- What a connection brings for a piece: the piece, or other bytes of the same number.
pub data Arrival : Type 0 where
  genuine : (index : ℕ) → Arrival
  corrupted : (index : ℕ) (block : Bytes) → Arrival

abbrev pub message_of : InfoHash → Bytes → Arrival → Message
message_of h content (genuine index) = piece index (piece_of h.piece_length content index)
message_of h content (corrupted index block) = piece index block

pub zeros-incomplete : (n : ℕ) → 0 < n → has_all_pieces (replicate n 0) ≡ false
unfolding has_all_pieces all_one
zeros-incomplete zero l = elim l [ ]
zeros-incomplete (suc n) l = refl

module _ (sha1 : Bytes → Bytes) (h : InfoHash) (content : Bytes) where
  -- A corrupted piece is of full length, and its hash is not the one on record.
  abbrev pub IsArrival : Arrival → Type 0
  IsArrival (genuine index) = index < length h.pieces
  IsArrival (corrupted index block) =
      (length block ≡ h.piece_length)
      × ((expected : Bytes) × (get_elem? h.pieces index ≡ some expected)
          × (length expected ≡ 20)
          × (sha1 block ≢ expected))

  abbrev pub AllArrivals : List Arrival → Type 0
  AllArrivals [] = Unit
  AllArrivals (a ∷ arrivals) = IsArrival a × AllArrivals arrivals

  -- The record has the hash of each piece of full length.
  abbrev pub IsHashed : Type 0
  IsHashed =
      (i : ℕ)
      → i < length h.pieces
      → length (piece_of h.piece_length content i) ≡ h.piece_length
      → (get_elem? h.pieces i ≡ some (sha1 (piece_of h.piece_length content i)))
        × (length (sha1 (piece_of h.piece_length content i)) ≡ 20)

  module _ {Tx : Type 0} (resends : Message → Bool) where
    -- A corrupted piece changes nothing and is asked for again.
    pub on_piece-corrupted :
        (s : Assembly Tx) (index : ℕ) (block : Bytes)
        → IsArrival (corrupted index block)
        → on_piece sha1 h resends s index block ≡ ask_again sha1 h resends s (piece index block)
    unfolding on_piece verify hash_piece_data
    on_piece-corrupted s index block (l, (expected, e, l20, ne)) =
        ground (arith, eqb_iff (sha1 block) expected)

    -- A genuine piece passes, whether or not it is compared.
    pub on_piece-genuine :
        (s : Assembly Tx) (i : ℕ)
        → IsHashed
        → i < length h.pieces
        → on_piece sha1 h resends s i (piece_of h.piece_length content i)
          ≡ accept sha1 h resends s i (piece_of h.piece_length content i)
    unfolding on_piece verify hash_piece_data
    on_piece-genuine s i hashed l =
        ground (arith, hashed i l, eqb_refl (sha1 (piece_of h.piece_length content i)))

    module _ (plain : has_slash h.name ≡ false) (cut : IsCut h content) where
      pub accept-Downloading :
          (s : Assembly Tx) (i : ℕ)
          → i < length h.pieces
          → Downloading h content s.disk
          → (d' : Disk) × (accept sha1 h resends s i (piece_of h.piece_length content i) ≡ (
            ok (if has_all_pieces (status_in h d') then finished else next []),
            record s { disk = d' },
          ))
            × Downloading h content d'
            × (status_in h d' ≡ set (status_in h s.disk) i 1)
            × (has_dir d'.dirs cache_dir ≡ true)
      unfolding accept
      accept-Downloading s i l v =
          let (d1, e1, v1, s1, r1) = write-Downloading h content plain cut s.disk i l v in
          let (d2, e2, v2, s2, r2) = is_file_complete-Downloading h content plain cut d1 v1 r1 in
          (d2, rw (e1, s2) (ground (arith, e2)), v2, s2 ∙ s1, r2)

      -- The task ends well and leaves the file, and no sender.
      abbrev pub IsBuilt : Ends × List Message × Assembly Tx → Type 0
      IsBuilt r =
          (r.0 ≡ ok tt)
          × (r.2.request_txs ≡ [])
          × (content_of r.2.disk (file_path h.name) ≡ some content)
          × (content_of r.2.disk (part_path h.name) ≡ none)
          × (content_of r.2.disk (info_path h.name) ≡ none)

      pub close-IsBuilt :
          (s : Assembly Tx)
          → Downloading h content s.disk
          → has_dir s.disk.dirs cache_dir ≡ true
          → has_all_pieces (status_in h s.disk) ≡ true
          → let (r, s') = close sha1 h resends s in IsBuilt (r, [], s')
      close-IsBuilt s v r done =
          let (d, e, found, no_part, no_info) = finish h content plain cut s.disk v r done in
          rw e (refl, refl, found, no_part, no_info)
