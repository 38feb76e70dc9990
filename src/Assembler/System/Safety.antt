-- ===== src/Assembler/System/Safety.antt =====
-- What holds of the disk in every state of a download.
use bear_torrent_final_proje.Base.{
  ℕ, ◌+◌, ◌-◌, ◌%◌, ◌==◌, remove_at, ◌<◌, ◌≡◌, ◌⊎◌, Bool, true, false, Option, none, some, List, [],
  ◌∷◌, ◌++◌, ok, err, panicked, length, All, Bool-cases, inl, inr, if◌then◌else◌, ltb,
}
use bear_torrent_final_proje.Base.Words.{u64_mod}
use bear_torrent_final_proje.Proto.{Bytes, InfoHash}
use bear_torrent_final_proje.Message.{Message, request, piece, cancel}
use bear_torrent_final_proje.FileHandler.Disk.{Disk, other, content_of, has_slash, has_dir}
use bear_torrent_final_proje.FileHandler.Pieces.{has_all_pieces}
use bear_torrent_final_proje.FileHandler.Store.{file_path, part_path, info_path, files_dir}
use bear_torrent_final_proje.FileHandler.Progress.{piece_of}
use bear_torrent_final_proje.FileHandler.PieceWrite.{status_in}
use bear_torrent_final_proje.FileHandler.Download.{IsCut, Downloading, fresh}
use bear_torrent_final_proje.Assembler.{
  Ends, Assembly, next, finished, on_message, on_cancel, on_piece, accept, close, ask_again,
  initial_requests, renewed, resend_loop,
}
use bear_torrent_final_proje.Assembler
use bear_torrent_final_proje.Assembler.Rounds.{
  IsHashed, IsArrival, corrupted, on_piece-genuine, on_piece-corrupted, accept-Downloading,
  close-IsBuilt, zeros-incomplete,
}
use bear_torrent_final_proje.Assembler.System.{
  Phase, requesting, resending, counted, Download, begun, start_requesting, listening, Step, Runs,
  begins, steps, starts, waits, requests, listens, sends_again, finishes, arrives, takes,
  reassemble, after_round, send_request, send_again, after_send,
}

module _ (sha1 : Bytes → Bytes) (h : InfoHash) (content : Bytes) where
  -- What a connection may bring: a piece of the file, other bytes of a full piece's length whose hash is
  -- not the one on record, a cancel with any numbers, or a request.
  abbrev pub MayBring : Message → Type 0
  MayBring (piece index block) =
      ((index < length h.pieces) × (block ≡ piece_of h.piece_length content index))
      ⊎ IsArrival sha1 h content (corrupted index block)
  MayBring (cancel seeder index begin len) = Unit
  MayBring (request seeder index begin len hash) = Unit

  -- The disk has progress of the download, which has marked only pieces that it has, and some piece
  -- is not marked.
  abbrev pub IsUnderWay : Disk → Type 0
  IsUnderWay d = Downloading h content d × (has_all_pieces (status_in h d) ≡ false)

  -- While the task runs the download is under way; after its end without an error the disk has the
  -- file, and after another end the progress.
  abbrev pub IsSound : Option Ends → Disk → Type 0
  IsSound none d = IsUnderWay d
  IsSound (some (ok done)) d =
      (content_of d (file_path h.name) ≡ some content)
      × (content_of d (part_path h.name) ≡ none)
      × (content_of d (info_path h.name) ≡ none)
  IsSound (some (err e)) d = Downloading h content d
  IsSound (some panicked) d = Downloading h content d

  All-snoc :
      (msgs : List Message) (msg : Message)
      → All MayBring msgs
      → MayBring msg
      → All MayBring (msgs ++ msg ∷ [])
  All-snoc [] msg a b = (b, tt)
  All-snoc (m ∷ msgs) msg a b = (a.0, All-snoc msgs msg a.1 b)

  module _ {Tx : Type 0} (plain : has_slash h.name ≡ false) (cut : IsCut h content)
      (hashed : IsHashed sha1 h content) where
    -- A round of the loop keeps the disk sound.
    abbrev RoundIsSound : Assembler.Step Tx → Type 0
    RoundIsSound (ok finished, a) =
        let (ends, a') = close sha1 h (λ msg. true) a in IsSound (some ends) a'.disk
    RoundIsSound (ok (next resend), a) = IsUnderWay a.disk
    RoundIsSound (err e, a) = Downloading h content a.disk
    RoundIsSound (panicked, a) = Downloading h content a.disk

    accept-IsSound :
        (resends : Message → Bool) (a : Assembly Tx) (i : ℕ)
        → i < length h.pieces
        → Downloading h content a.disk
        → RoundIsSound (accept sha1 h resends a i (piece_of h.piece_length content i))
    accept-IsSound resends a i l v =
        let (d, e, v1, s1, r1) = accept-Downloading sha1 h content resends plain cut a i l v in
        elim (Bool-cases (has_all_pieces (status_in h d))) [
          | inl all ↦
              let (ends, _, found, no_part, no_info) =
                close-IsBuilt sha1 h content (λ msg. true) plain cut (record a { disk = d }) v1 r1
                  all in
              rw (e, all, ends) (found, no_part, no_info)
          | inr not_all ↦ rw (e, not_all) (v1, not_all)
        ]

    either_IsSound :
        (b : Bool) (x y : Assembler.Step Tx)
        → RoundIsSound x
        → RoundIsSound y
        → RoundIsSound (if b then x else y)
    either_IsSound true x y u v = u
    either_IsSound false x y u v = v

    -- A message for the task of the requests leaves the disk alone.
    ask_again-IsSound :
        (resends : Message → Bool) (a : Assembly Tx) (msg : Message)
        → IsUnderWay a.disk
        → RoundIsSound (ask_again sha1 h resends a msg)
    ask_again-IsSound resends a msg v =
        either_IsSound (resends msg) (ok (next (msg ∷ [])), a) (err (other "channel closed"), a) v
          v.0

    on_cancel-IsSound :
        (resends : Message → Bool) (a : Assembly Tx) (seeder index begin len : ℕ)
        → IsUnderWay a.disk
        → RoundIsSound (on_cancel sha1 h resends a seeder index begin len)
    unfolding on_cancel
    on_cancel-IsSound resends a seeder index begin len v =
        let left = (a.num_connections + u64_mod - 1) % u64_mod in
        let a' : Assembly Tx = record a {
          request_txs = remove_at a.request_txs seeder;
          num_connections = left;
        } in
        let msg = cancel seeder index begin len in
        either_IsSound (ltb seeder (length a.request_txs))
          (if left == 0
            then (err (other "Failed to Retrieve File"), a')
            else ask_again sha1 h resends a' msg)
          (panicked, a)
          (either_IsSound (left == 0) (err (other "Failed to Retrieve File"), a')
            (ask_again sha1 h resends a' msg) v.0 (ask_again-IsSound resends a' msg v))
          v.0

    on_message-IsSound :
        (resends : Message → Bool) (a : Assembly Tx) (msg : Message)
        → MayBring msg
        → IsUnderWay a.disk
        → RoundIsSound (on_message sha1 h resends a msg)
    unfolding on_message
    on_message-IsSound resends a (request seeder index begin len hash) b v = v.0
    on_message-IsSound resends a (cancel seeder index begin len) b v =
        on_cancel-IsSound resends a seeder index begin len v
    on_message-IsSound resends a (piece index block) (inl (l, e)) v =
        rw (e, on_piece-genuine sha1 h content resends a index hashed l)
          (accept-IsSound resends a index l v.0)
    on_message-IsSound resends a (piece index block) (inr c) v =
        rw (on_piece-corrupted sha1 h content resends a index block c)
          (ask_again-IsSound resends a (piece index block) v)

    -- What holds in every state of a download.
    pub record IsSafe (s : Download Tx) : Type 0 where
      pub sound : IsSound s.reassembly s.assembly.disk
      pub brought : All MayBring s.inbox

    module _ (hash : Bytes) (num_connections : ℕ) where
      after_round-IsSafe :
          (s : Download Tx) (r : Assembler.Step Tx)
          → s.reassembly ≡ none
          → RoundIsSound r
          → All MayBring s.inbox
          → IsSafe (after_round sha1 h hash s r)
      after_round-IsSafe s (ok finished, a) e v b = record { sound = v; brought = b }
      after_round-IsSafe s (ok (next resend), a) e v b = record { sound = rw e v; brought = b }
      after_round-IsSafe s (err x, a) e v b = record { sound = v; brought = b }
      after_round-IsSafe s (panicked, a) e v b = record { sound = v; brought = b }

      after_send-IsSafe :
          (s : Download Tx) (phase : Phase) (r : Ends × List (Tx × Message))
          → IsSafe s
          → IsSafe (after_send sha1 h hash s phase r)
      after_send-IsSafe s phase (ok done, sent) v = record { sound = v.sound; brought = v.brought }
      after_send-IsSafe s phase (err e, sent) v = record { sound = v.sound; brought = v.brought }
      after_send-IsSafe s phase (panicked, sent) v = record { sound = v.sound; brought = v.brought }

      reassemble-IsSafe :
          (s : Download Tx) (msg : Message) (msgs : List Message)
          → s.reassembly ≡ none
          → s.inbox ≡ msg ∷ msgs
          → IsSafe s
          → IsSafe (reassemble sha1 h hash msg msgs s)
      unfolding reassemble
      reassemble-IsSafe s msg msgs e i v =
          let sound : IsUnderWay s.assembly.disk = rw e at v.sound in
          let brought : All MayBring (msg ∷ msgs) = rw i at v.brought in
          after_round-IsSafe (record s { inbox = msgs })
            (on_message sha1 h (λ resend. listening s.phase) s.assembly msg) e
            (on_message-IsSound (λ resend. listening s.phase) s.assembly msg brought.0 sound)
            brought.1

      Step-IsSafe :
          {s t : Download Tx} → IsSafe s → Step sha1 h hash MayBring num_connections s t → IsSafe t
      unfolding send_request send_again
      Step-IsSafe v (waits e) = record { sound = v.sound; brought = v.brought }
      Step-IsSafe {s} v (requests deliver i e l) =
          after_send-IsSafe s (requesting (i + 1))
            (initial_requests deliver (λ round. s.assembly.request_txs) h hash num_connections 1 i)
            v
      Step-IsSafe v (listens e) = record { sound = v.sound; brought = v.brought }
      Step-IsSafe {s} v (sends_again deliver i msg msgs e f) =
          after_send-IsSafe (record s { resends = msgs })
            (resending (counted i (renewed deliver h hash 0 msg)))
            (resend_loop deliver h hash i
              ((s.assembly.num_connections, s.assembly.request_txs, msg) ∷ []))
            (record { sound = v.sound; brought = v.brought })
      Step-IsSafe v (finishes i e f g) = record { sound = v.sound; brought = v.brought }
      Step-IsSafe {s} v (arrives msg b) = record {
        sound = v.sound;
        brought = All-snoc s.inbox msg v.brought b;
      }
      Step-IsSafe {s} v (takes msg msgs e i) = reassemble-IsSafe s msg msgs e i v

      -- Every state of a download is safe.
      pub Runs-IsSafe :
          {s t : Download Tx} → IsSafe s → Runs sha1 h hash MayBring num_connections s t → IsSafe t
      unfolding start_requesting
      Runs-IsSafe v begins = v
      Runs-IsSafe v (steps r st) = Step-IsSafe (Runs-IsSafe v r) st
      Runs-IsSafe v (starts r) =
          let u = Runs-IsSafe v r in record { sound = u.sound; brought = u.brought }

      pub begun-IsSafe :
          (a : Assembly Tx)
          → 0 < length h.pieces
          → content_of a.disk (part_path h.name) ≡ none
          → content_of a.disk (info_path h.name) ≡ none
          → content_of a.disk (file_path h.name) ≡ none
          → has_dir a.disk.dirs files_dir ≡ true
          → IsSafe (begun a)
      begun-IsSafe a n p i f d = record {
        sound =
            (fresh h content plain cut a.disk p i f d, rw i (zeros-incomplete (length h.pieces) n));
        brought = tt;
      }

      -- Take a download as in `reassemble_loop-builds`, whose connections bring pieces of the file,
      -- other bytes of a full piece's length whose hash is not the one on record, cancels with any
      -- numbers and requests. In every state that its two tasks and its connections can bring about,
      -- whatever the order of their steps, which sends fail and when the start is given: while
      -- `reassemble_loop` runs, the disk has only pieces marked that it has, and not all; if it has
      -- ended without an error, the finished file has exactly the file's content and the cached
      -- files are gone; if it has ended otherwise, the marked pieces are still right.
      pub Runs-IsSound :
          (a : Assembly Tx) (t : Download Tx)
          → 0 < length h.pieces
          → content_of a.disk (part_path h.name) ≡ none
          → content_of a.disk (info_path h.name) ≡ none
          → content_of a.disk (file_path h.name) ≡ none
          → has_dir a.disk.dirs files_dir ≡ true
          → Runs sha1 h hash MayBring num_connections (begun a) t
          → IsSound t.reassembly t.assembly.disk
      Runs-IsSound a t n p i f d r = (Runs-IsSafe (begun-IsSafe a n p i f d) r).sound
