-- ===== src/Assembler/Sharing.antt =====
-- A whole download over one QUIC connection, for the record that the seeder makes of its file.
use bear_torrent_final_proje.Base.{
  ℕ, ◌-◌, ◌*◌, ◌==◌, ==_iff, Bool-cases, inl, inr, ◌<◌, ◌≤◌, ◌≡◌, refl, Bool, true, false, Option,
  none, some, [], ◌∷◌, ok, arith, length, map,
}
use bear_torrent_final_proje.Base.Words.{u32_mod, u64_mod, AreBytes}
use bear_torrent_final_proje.Proto.{Text, Bytes, InfoHash}
use bear_torrent_final_proje.Message.{Message}
use bear_torrent_final_proje.FileHandler.Disk.{Disk, content_of, has_dir, has_slash}
use bear_torrent_final_proje.FileHandler.Pieces.{get_piece_length, get_hashed_info_hash}
use bear_torrent_final_proje.FileHandler.Progress.{length-piece_of}
use bear_torrent_final_proje.FileHandler.Hashes.{get_piece_hashes-piece_of}
use bear_torrent_final_proje.FileHandler.Coverage.{record_of-IsCut}
use bear_torrent_final_proje.FileHandler.Records.{record_of}
use bear_torrent_final_proje.FileHandler.Records.Caching.{get_piece_length-IsU32}
use bear_torrent_final_proje.FileHandler.Seeding.{Seeds}
use bear_torrent_final_proje.FileHandler.Store.{files_dir, file_path, part_path, info_path}
use bear_torrent_final_proje.Quic.{send_data, recv_data}
use bear_torrent_final_proje.Quic.Exchange.{stream_of}
use bear_torrent_final_proje.Assembler.{Assembly, initial_requests, reassemble_loop}
use bear_torrent_final_proje.Assembler.Rounds.{IsHashed}
use bear_torrent_final_proje.Assembler.Transfer.{
  messages, links, below_start, reassemble_loop-send_data,
}

none_at_all : (n pl size : ℕ) → n ≡ 0 → 0 < size → size ≤ n * pl → ⊥
none_at_all n pl size e p l = let none_yet : 0 * pl ≡ 0 = omega arith in ground (arith, none_yet)

-- A digest is twenty bytes.
abbrev pub IsDigest : (Bytes → Bytes) → Type 0
IsDigest sha1 = (b : Bytes) → (length (sha1 b) ≡ 20) × AreBytes (sha1 b)

module _ (sha1 : Bytes → Bytes) (hex_encode : Bytes → Text) (hex_decode : Text → Option Bytes)
    (name : Text) (content : Bytes) where
  abbrev record_here : InfoHash
  record_here = record_of sha1 hex_encode hex_decode name content

  record_of-IsHashed : IsDigest sha1 → length content ≤ u32_mod → IsHashed sha1 record_here content
  unfolding get_piece_length
  record_of-IsHashed digest l i below full =
      let pl = get_piece_length (length content) in
      let cut = record_of-IsCut sha1 hex_encode hex_decode name content l in
      let size = length-piece_of pl (length record_here.pieces) content cut.0 i in
      (
        get_piece_hashes-piece_of sha1 i pl content (ground arith)
            (omega (arith, full, size, cut.0.piece_pos)),
        (digest _).0,
      )

  -- There are less than 2 ^ 64 pieces, and at least one.
  pieces_counted :
      length content ≤ u32_mod
      → 0 < length content
      → (0 < length record_here.pieces) × (length record_here.pieces < u64_mod)
  pieces_counted l some_byte =
      let pl = get_piece_length (length content) in
      let cut = (record_of-IsCut sha1 hex_encode hex_decode name content l).0 in
      let n = length record_here.pieces in
      elim (Bool-cases (n == 0)) [
        | inl e ↦ absurd (none_at_all n pl (length content) ((==_iff n 0).0 e) some_byte cut.enough)
        | inr e ↦
            let last = cut.none_empty (n - 1) (ground arith) in
            let small = below_start (n - 1) pl cut.piece_pos in
            (ground arith, omega (arith, last, small, l))
      ]

  -- Take a seeder with a finished file of one byte to
  -- 4 GiB, whose name has no slash, and the record that it makes of the file, known under that
  -- record's hash; and a requester that has the same record, the directory of the files and no file of
  -- the name. A digest is of twenty bytes, and the channels and the connection carry what is sent. Then
  -- a download over one QUIC connection runs through without an error, from the first request to the
  -- last message, and leaves the requester with exactly the seeder's file.
  pub sharing :
      {Tx : Type 0} (deliver : Tx → Message → Bool) (takes resends : Message → Bool)
      (file_map : Bytes → Option InfoHash) (tx : Tx) (d : Disk) (s : Assembly Tx)
      → ((tx : Tx) (msg : Message) → deliver tx msg ≡ true)
      → ((msg : Message) → takes msg ≡ true)
      → ((msg : Message) → resends msg ≡ true)
      → IsDigest sha1
      → AreBytes content
      → 0 < length content
      → length content ≤ u32_mod
      → has_slash name ≡ false
      → file_map (get_hashed_info_hash sha1 record_here) ≡ some record_here
      → content_of d (file_path name) ≡ some content
      → content_of s.disk (part_path name) ≡ none
      → content_of s.disk (info_path name) ≡ none
      → content_of s.disk (file_path name) ≡ none
      → has_dir s.disk.dirs files_dir ≡ true
      → let h = record_of sha1 hex_encode hex_decode name content in
        let (asks, sent) =
          initial_requests deliver
            (λ i. tx ∷ [])
            h
            (get_hashed_info_hash sha1 h)
            1
            (length h.pieces)
            0 in
        let (seeds, replies, d') = send_data file_map (map stream_of (messages sent)) d in
        let (receives, brought) = recv_data takes (links (messages sent) replies) in
        let (ends, resend, s') = reassemble_loop sha1 h resends brought s in
        (asks ≡ ok tt)
        × (seeds ≡ ok tt)
        × (receives ≡ ok tt)
        × (ends ≡ ok tt)
        × (content_of s'.disk (file_path name) ≡ some content)
        × (content_of s'.disk (part_path name) ≡ none)
        × (content_of s'.disk (info_path name) ≡ none)
  unfolding get_hashed_info_hash
  sharing deliver takes resends file_map tx d s all take_all resend_all digest b some_byte l plain
        known found no_part no_info no_file dirs =
      let cut = record_of-IsCut sha1 hex_encode hex_decode name content l in
      let (n, few) = pieces_counted l some_byte in
      let hash = get_hashed_info_hash sha1 record_here in
      let seeds : Seeds file_map record_here content hash d = record {
        known = known;
        hash_size = (digest _).0;
        cut = cut;
        few = few;
        size = refl;
        found = found;
      } in
      reassemble_loop-send_data sha1 record_here content hash cut deliver takes resends file_map tx
        d s all take_all resend_all seeds (record_of-IsHashed digest l) (digest _).1 b
        (get_piece_length-IsU32 (length content)) n plain no_part no_info no_file dirs
