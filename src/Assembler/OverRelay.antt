-- ===== src/Assembler/OverRelay.antt =====
-- A whole download over the relay service: the requests of `send_requests`, both sides of the relay, and
-- `reassemble_loop`.
use bear_torrent_final_proje.Base.{
  ℕ, zero, suc, ◌+◌, ◌<◌, ◌≤◌, ◌≡◌, ◌∙◌, Bool, true, false, Option, none, some, List, [], ◌∷◌, ok,
  arith, length, map, Eq, bytes_eq,
}
use bear_torrent_final_proje.Base.Dict.{Dict, lookup}
use bear_torrent_final_proje.Proto.{Text, Bytes, PeerId, InfoHash, TurnPacket}
use bear_torrent_final_proje.Message.{Message}
use bear_torrent_final_proje.FileHandler.Disk.{Disk, content_of, has_dir, has_slash}
use bear_torrent_final_proje.FileHandler.Download.{IsCut, AllBelow}
use bear_torrent_final_proje.FileHandler.Store.{files_dir, file_path, part_path, info_path}
use bear_torrent_final_proje.FileHandler.Seeding.{Seeds}
use bear_torrent_final_proje.Turn.{Session}
use bear_torrent_final_proje.Turn.Slots.{Registration}
use bear_torrent_final_proje.TurnFallback.{make_session_id}
use bear_torrent_final_proje.TurnFallback.Sides.{SendCall, Leech}
use bear_torrent_final_proje.TurnFallback.Arms.{yields, orders}
use bear_torrent_final_proje.TurnFallback.Headers.{IsVisible}
use bear_torrent_final_proje.TurnFallback.Meeting.{inbox, met}
use bear_torrent_final_proje.TurnFallback.Relayed.{
  packets_of, seeding, leeching, start_leeching-start_seeding,
}
use bear_torrent_final_proje.Assembler.{Assembly, initial_requests, reassemble_loop}
use bear_torrent_final_proje.Assembler.Rounds.{IsHashed}
use bear_torrent_final_proje.Assembler.Reassembly.{reassemble_loop-builds}
use bear_torrent_final_proje.Assembler.Transfer.{
  messages, wanted_from, genuine_of, messages-initial_requests, messages-genuine,
  wanted-AllArrivals, brings-wanted, index_fits,
}

module _ (sha1 : Bytes → Bytes) (h : InfoHash) (content hash : Bytes) (cut : IsCut h content) where
  wanted-AllBelow :
      (left i : ℕ)
      → i + left ≤ length h.pieces
      → AllBelow (length h.pieces) (map (λ w. w.index) (wanted_from h hash left i))
  wanted-AllBelow zero i l = tt
  wanted-AllBelow (suc left) i l =
      let same = index_fits sha1 h content hash cut i (omega arith) in
      (omega (arith, same), wanted-AllBelow left (i + 1) (omega arith))

module _ {Tx : Type 0} ⦃e : Eq Tx⦄ (sha1 : Bytes → Bytes) (parse : Text → Option Text)
    (file_map : Bytes → Option InfoHash) (h : InfoHash) (content hash : Bytes)
    (seeder_id leecher_id : PeerId) (d : Disk) (all : Dict Text (Session Tx)) (seeder_first : Bool)
    (a c : Tx) where
  -- The two sides over this service.
  abbrev pub asker :
      (Message → Bool)
      → (TurnPacket → Bool)
      → (List (Option TurnPacket) → List Leech)
      → List (Option TurnPacket)
      → List TurnPacket
  asker takes relays schedule inbound =
      packets_of (λ (call, brought). call)
        (leeching parse file_map h content hash seeder_id leecher_id d all seeder_first a c takes
          relays schedule inbound)

  abbrev pub replier : List (Option TurnPacket) → List TurnPacket
  replier inbound =
      packets_of (λ (call, ends, d'). call)
        (seeding parse file_map h content hash seeder_id leecher_id d all seeder_first a c inbound)

  abbrev pub relayed :
      (TurnPacket → List (Registration Tx)) → Tx → List TurnPacket → List (Option TurnPacket)
  relayed others tx pkts =
      let k = make_session_id seeder_id leecher_id in
      inbox (met all seeder_first k a c) others k tx pkts

  -- A download of a file over the relay service ends in the file. Take a seeder with a finished file of
  -- at most 4 GiB and at least one piece, and a record with the hashes of its full pieces, known
  -- under a hash of twenty bytes; a requester with that record, the directory of the files and no file
  -- of the name, which has no slash; a new session, channels that take what is sent, and metadata
  -- that takes visible ASCII. The two sides register in either order, others may register in between,
  -- the leecher's loop takes the requests of `send_requests` and the packets that come in any
  -- interleaving, and each side's inbound stream is what the relay delivers to it of what the other
  -- sends. Then no part of this ends in an error, and what the leecher hands over makes
  -- `reassemble_loop` build exactly the seeder's file, with the cached files gone.
  pub reassemble_loop-start_leeching :
      {Conn : Type 0} (deliver : Conn → Message → Bool) (connection : Conn)
      (takes resends : Message → Bool) (relays : TurnPacket → Bool)
      (schedule : List (Option TurnPacket) → List Leech)
      (others : TurnPacket → List (Registration Tx))
      (seeder_in leecher_in : List (Option TurnPacket)) (s : Assembly Conn)
      → IsCut h content
      → IsHashed sha1 h content
      → Seeds file_map h content hash d
      → lookup (make_session_id seeder_id leecher_id) all ≡ none
      → ((text : Text) → IsVisible text → parse text ≡ some text)
      → ((connection : Conn) (msg : Message) → deliver connection msg ≡ true)
      → ((msg : Message) → takes msg ≡ true)
      → ((msg : Message) → resends msg ≡ true)
      → ((pkt : TurnPacket) → relays pkt ≡ true)
      → 0 < length h.pieces
      → has_slash h.name ≡ false
      → content_of s.disk (part_path h.name) ≡ none
      → content_of s.disk (info_path h.name) ≡ none
      → content_of s.disk (file_path h.name) ≡ none
      → has_dir s.disk.dirs files_dir ≡ true
      → yields (schedule leecher_in) ≡ leecher_in
      → orders (schedule leecher_in)
        ≡ messages (initial_requests deliver (λ i. connection ∷ []) h hash 1 (length h.pieces) 0).1
      → seeder_in ≡ relayed others a (asker takes relays schedule leecher_in)
      → leecher_in ≡ relayed others c (replier seeder_in)
      → (call reply_call : SendCall) × (brought : List Message) × ((initial_requests deliver
            (λ i. connection ∷ [])
            h
            hash
            1
            (length h.pieces)
            0).0
          ≡ ok tt)
        × (seeding parse file_map h content hash seeder_id leecher_id d all seeder_first a c
              seeder_in
            ≡ ok (reply_call, ok tt, d))
        × (leeching parse file_map h content hash seeder_id leecher_id d all seeder_first a c takes
              relays schedule leecher_in
            ≡ ok (call, brought))
        × (let (ends, resend, s') = reassemble_loop sha1 h resends brought s in
            (ends ≡ ok tt)
            × (content_of s'.disk (file_path h.name) ≡ some content)
            × (content_of s'.disk (part_path h.name) ≡ none)
            × (content_of s'.disk (info_path h.name) ≡ none))
  reassemble_loop-start_leeching deliver connection takes resends relays schedule others seeder_in
        leecher_in s cut hashed v new reads deliver_all take_all resend_all relay_all n plain
        no_part no_info no_file dirs interleaved asked to_seeder to_leecher =
      let wanted = wanted_from h hash (length h.pieces) 0 in
      let (asks, sent) =
        messages-initial_requests h hash deliver connection (length h.pieces) 0 deliver_all in
      let (leeches, seeds) =
        start_leeching-start_seeding parse file_map h content hash seeder_id leecher_id d all
          seeder_first a c takes relays schedule others wanted seeder_in leecher_in new reads
          take_all relay_all v
          (wanted-AllBelow sha1 h content hash cut (length h.pieces) 0 (omega arith)) interleaved
          (asked ∙ sent) to_seeder to_leecher in
      let (ends, _, built, part_gone, info_gone) =
        reassemble_loop-builds sha1 h content resends resend_all plain cut
          (genuine_of sha1 h content hash cut wanted) s hashed
          (wanted-AllArrivals sha1 h content hash cut (length h.pieces) 0 (omega arith)) n
          (λ i l.
            brings-wanted sha1 h content hash cut (length h.pieces) 0 i (omega arith) (omega arith)
              (omega arith))
          no_part no_info no_file dirs in
      (
        _,
        _,
        _,
        asks,
        seeds,
        leeches,
        rw (messages-genuine sha1 h content hash cut file_map wanted)
            (ends, built, part_gone, info_gone),
      )
