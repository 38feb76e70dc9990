-- ===== src/Assembler/Transfer.antt =====
-- A whole download over one QUIC connection: the record that the seeder made, the requests of
-- `send_requests`, the two ends of the connection, and `reassemble_loop`.
use bear_torrent_final_proje.Base.{
  ℕ, zero, suc, ◌+◌, ◌*◌, ◌%◌, ◌<◌, ◌≤◌, ◌≡◌, refl, ap, Bool, true, false, Option, none, some, List,
  [], ◌∷◌, ok, arith, length, get_elem?, map, All,
}
use bear_torrent_final_proje.Base.Words.{u32_mod, IsU32, AreBytes}
use bear_torrent_final_proje.Proto.{Bytes, InfoHash}
use bear_torrent_final_proje.Message.{Message}
use bear_torrent_final_proje.FileHandler.Disk.{Disk, content_of, has_dir, has_slash}
use bear_torrent_final_proje.FileHandler.Download.{IsCut}
use bear_torrent_final_proje.FileHandler.Store.{files_dir, file_path, part_path, info_path}
use bear_torrent_final_proje.FileHandler.Seeding.{Seeds, Wanted, wanted_request}
use bear_torrent_final_proje.Quic.{Link, opened, send_data, recv_data}
use bear_torrent_final_proje.Quic.Exchange.{
  Asks, stream_of, with_replies, piece_for, recv_data-send_data,
}
use bear_torrent_final_proje.Assembler.{Assembly, request_for, initial_requests, reassemble_loop}
use bear_torrent_final_proje.Assembler.Rounds.{Arrival, genuine, message_of, AllArrivals, IsHashed}
use bear_torrent_final_proje.Assembler.Reassembly.{brings, reassemble_loop-builds}

-- The messages of what was sent.
abbrev pub messages : {Tx : Type 0} → List (Tx × Message) → List Message
messages [] = []
messages ((tx, msg) ∷ sent) = msg ∷ messages sent

-- The requests, each with the reply that came for it.
abbrev pub links : List Message → List Bytes → List (Message × Link)
links [] replies = []
links (msg ∷ msgs) [] = []
links (msg ∷ msgs) (bytes ∷ replies) = (msg, opened true (some bytes)) ∷ links msgs replies

links-wanted :
    (hash : Bytes) (wanted : List Wanted) (replies : List Bytes)
    → links (map (wanted_request hash) wanted) replies ≡ with_replies hash wanted replies
links-wanted hash [] replies = refl
links-wanted hash (w ∷ wanted) [] = refl
links-wanted hash (w ∷ wanted) (bytes ∷ replies) =
    ap (λ l. (wanted_request hash w, opened true (some bytes)) ∷ l)
      (links-wanted hash wanted replies)

streams-wanted :
    (hash : Bytes) (wanted : List Wanted)
    → map stream_of (map (wanted_request hash) wanted)
      ≡ map (λ w. stream_of (wanted_request hash w)) wanted
streams-wanted hash [] = refl
streams-wanted hash (w ∷ wanted) =
    ap (λ l. stream_of (wanted_request hash w) ∷ l) (streams-wanted hash wanted)

pub below_start : (i pl : ℕ) → 0 < pl → i ≤ i * pl
below_start zero pl p = omega arith
below_start (suc i) pl p = grind (arith, below_start i pl p)

module _ (h : InfoHash) (hash : Bytes) where
  -- The request of round `i`, with one connection.
  abbrev wanted_at : ℕ → Wanted
  wanted_at i = record {
    seeder = i % 1 % u32_mod;
    index = i % u32_mod;
    begin = h.piece_length * (i % u32_mod) % u32_mod;
    len = h.piece_length;
  }

  abbrev pub wanted_from : ℕ → ℕ → List Wanted
  wanted_from zero i = []
  wanted_from (suc left) i = wanted_at i ∷ wanted_from left (i + 1)

  pub messages-initial_requests :
      {Tx : Type 0} (deliver : Tx → Message → Bool) (tx : Tx) (left i : ℕ)
      → ((tx : Tx) (msg : Message) → deliver tx msg ≡ true)
      → let (ends, sent) = initial_requests deliver (λ i. tx ∷ []) h hash 1 left i in
        (ends ≡ ok tt) × (messages sent ≡ map (wanted_request hash) (wanted_from left i))
  unfolding initial_requests request_for
  messages-initial_requests deliver tx zero i all = (refl, refl)
  messages-initial_requests deliver tx (suc left) i all =
      let first : get_elem? (tx ∷ []) (i % 1) ≡ some tx =
        ap (get_elem? (tx ∷ [])) {x = i % 1} {y = 0} (omega arith) in
      let (ends, msgs) = messages-initial_requests deliver tx left (i + 1) all in
      rw (first, all tx _) (ends, ap (λ l. wanted_request hash (wanted_at i) ∷ l) msgs)

module _ (sha1 : Bytes → Bytes) (h : InfoHash) (content hash : Bytes) (cut : IsCut h content) where
  abbrev pub genuine_of : List Wanted → List Arrival
  genuine_of wanted = map (λ w. genuine w.index) wanted

  pub messages-genuine :
      (file_map : Bytes → Option InfoHash) (wanted : List Wanted)
      → map (piece_for file_map h content hash) wanted
        ≡ map (message_of h content) (genuine_of wanted)
  messages-genuine file_map [] = refl
  messages-genuine file_map (w ∷ wanted) =
      ap (λ l. piece_for file_map h content hash w ∷ l) (messages-genuine file_map wanted)

  -- An index of a piece is a `u32`.
  pub index_fits : (i : ℕ) → i < length h.pieces → i % u32_mod ≡ i
  index_fits i l =
      let small = below_start i h.piece_length cut.0.piece_pos in
      let inside = cut.0.none_empty i l in omega (arith, small, inside, cut.1)

  wanted-Asks :
      (file_map : Bytes → Option InfoHash) (left i : ℕ)
      → IsU32 h.piece_length
      → i + left ≤ length h.pieces
      → All (Asks file_map h content hash) (wanted_from h hash left i)
  wanted-Asks file_map zero i p l = tt
  wanted-Asks file_map (suc left) i p l =
      let same = index_fits i (omega arith) in
      (
        (omega arith, omega arith, omega arith, p, omega (arith, same), omega arith),
        wanted-Asks file_map left (i + 1) p (omega arith),
      )

  pub wanted-AllArrivals :
      (left i : ℕ)
      → i + left ≤ length h.pieces
      → AllArrivals sha1 h content (genuine_of (wanted_from h hash left i))
  wanted-AllArrivals zero i l = tt
  wanted-AllArrivals (suc left) i l =
      let same = index_fits i (omega arith) in
      (omega (arith, same), wanted-AllArrivals left (i + 1) (omega arith))

  pub brings-wanted :
      (left i j : ℕ)
      → i + left ≤ length h.pieces
      → i ≤ j
      → j < i + left
      → brings (genuine_of (wanted_from h hash left i)) j ≡ true
  unfolding brings
  brings-wanted zero i j l a b = absurd (omega arith)
  brings-wanted (suc left) i j l a b =
      let same = index_fits i (omega arith) in ground (arith, same, brings-wanted left (i + 1) j)

  -- A download of a file over one QUIC connection ends in the file. The seeder has the finished file,
  -- of at most 4 GiB and at least one piece, with a record that has the hashes of its full pieces,
  -- under a hash of twenty bytes; the requester has that record, the directory of the files, and no
  -- file of the name, which has no slash; and the channels and the connection carry what is sent.
  -- Then the requests of `send_requests`, the replies of the seeder and what `recv_data` hands over
  -- make `reassemble_loop` build exactly the seeder's file, no part of this ends in an error, and
  -- the cached files are gone.
  pub reassemble_loop-send_data :
      {Tx : Type 0} (deliver : Tx → Message → Bool) (takes resends : Message → Bool)
      (file_map : Bytes → Option InfoHash) (tx : Tx) (d : Disk) (s : Assembly Tx)
      → ((tx : Tx) (msg : Message) → deliver tx msg ≡ true)
      → ((msg : Message) → takes msg ≡ true)
      → ((msg : Message) → resends msg ≡ true)
      → Seeds file_map h content hash d
      → IsHashed sha1 h content
      → AreBytes hash
      → AreBytes content
      → IsU32 h.piece_length
      → 0 < length h.pieces
      → has_slash h.name ≡ false
      → content_of s.disk (part_path h.name) ≡ none
      → content_of s.disk (info_path h.name) ≡ none
      → content_of s.disk (file_path h.name) ≡ none
      → has_dir s.disk.dirs files_dir ≡ true
      → let (asks, sent) = initial_requests deliver (λ i. tx ∷ []) h hash 1 (length h.pieces) 0 in
        let (seeds, replies, d') = send_data file_map (map stream_of (messages sent)) d in
        let (receives, brought) = recv_data takes (links (messages sent) replies) in
        let (ends, resend, s') = reassemble_loop sha1 h resends brought s in
        (asks ≡ ok tt)
        × (seeds ≡ ok tt)
        × (receives ≡ ok tt)
        × (ends ≡ ok tt)
        × (content_of s'.disk (file_path h.name) ≡ some content)
        × (content_of s'.disk (part_path h.name) ≡ none)
        × (content_of s'.disk (info_path h.name) ≡ none)
  reassemble_loop-send_data deliver takes resends file_map tx d s all take_all resend_all v hashed b
        c p n plain no_part no_info no_file dirs =
      let wanted = wanted_from h hash (length h.pieces) 0 in
      let (asks, sent) = messages-initial_requests h hash deliver tx (length h.pieces) 0 all in
      let (seeds, _, received) =
        recv_data-send_data file_map h content hash takes d wanted take_all v b c
          (wanted-Asks file_map (length h.pieces) 0 p (omega arith)) in
      let (ends, _, built, part_gone, info_gone) =
        reassemble_loop-builds sha1 h content resends resend_all plain cut (genuine_of wanted) s
          hashed (wanted-AllArrivals (length h.pieces) 0 (omega arith)) n
          (λ i l. brings-wanted (length h.pieces) 0 i (omega arith) (omega arith) (omega arith))
          no_part no_info no_file dirs in
      rw
        (
          sent,
          streams-wanted hash wanted,
          links-wanted hash wanted,
          received,
          messages-genuine file_map wanted,
        )
        (asks, seeds, refl, ends, built, part_gone, info_gone)
