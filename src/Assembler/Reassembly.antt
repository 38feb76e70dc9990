-- ===== src/Assembler/Reassembly.antt =====
-- `reassemble_loop` from the first message to the finished file.
use bear_torrent_final_proje.Base.{
  ℕ, ◌<◌, ◌≡◌, ◌⊎◌, Bool, true, false, ◌||◌, none, some, List, [], ◌∷◌, ok, arith, ◌==◌, length,
  get_elem?, bytes_eq, map, Bool-cases, inl, inr,
}
use bear_torrent_final_proje.Proto.{Bytes, InfoHash}
use bear_torrent_final_proje.Message.{Message, piece}
use bear_torrent_final_proje.FileHandler.Disk.{has_slash, has_dir, content_of}
use bear_torrent_final_proje.FileHandler.Pieces.{has_all_pieces}
use bear_torrent_final_proje.FileHandler.Store.{files_dir, file_path, part_path, info_path}
use bear_torrent_final_proje.FileHandler.PieceWrite.{status_in}
use bear_torrent_final_proje.FileHandler.Download.{
  IsCut, Downloading, fresh, Downloading-has_all_pieces, counted,
}
use bear_torrent_final_proje.Assembler.{Assembly, on_message, reassemble_loop}
use bear_torrent_final_proje.Assembler.Rounds.{
  Arrival, genuine, corrupted, message_of, AllArrivals, IsHashed, on_piece-corrupted,
  on_piece-genuine, accept-Downloading, IsBuilt, close-IsBuilt, zeros-incomplete,
}

unfoldable pub brings : List Arrival → ℕ → Bool
brings [] i = false
brings (genuine index ∷ arrivals) i = index == i || brings arrivals i
brings (corrupted index block ∷ arrivals) i = brings arrivals i

module _ (sha1 : Bytes → Bytes) (h : InfoHash) (content : Bytes) {Tx : Type 0}
    (resends : Message → Bool) (takes : (msg : Message) → resends msg ≡ true)
    (plain : has_slash h.name ≡ false) (cut : IsCut h content) where
  pub reassemble_loop-from :
      (arrivals : List Arrival) (s : Assembly Tx)
      → IsHashed sha1 h content
      → AllArrivals sha1 h content arrivals
      → Downloading h content s.disk
      → has_all_pieces (status_in h s.disk) ≡ false
      → ((i : ℕ)
          → i < length h.pieces
          → (get_elem? (status_in h s.disk) i ≡ some 1) ⊎ (brings arrivals i ≡ true))
      → IsBuilt sha1 h content resends plain cut
          (reassemble_loop sha1 h resends (map (message_of h content) arrivals) s)
  unfolding reassemble_loop brings on_message
  reassemble_loop-from [] s hashed a v missing covers = absurd (
      ground (
        arith,
        missing,
        Downloading-has_all_pieces h content plain cut s.disk v
            (λ i l. elim (covers i l) [ inl e ↦ e | inr e ↦ ground arith ]),
      ))
  reassemble_loop-from (corrupted index block ∷ arrivals) s hashed a v missing covers =
      rw (on_piece-corrupted sha1 h content resends s index block a.0, takes (piece index block))
        (reassemble_loop-from arrivals s hashed a.1 v missing covers)
  reassemble_loop-from (genuine i ∷ arrivals) s hashed a v missing covers =
      let (d, e, v1, s1, r1) = accept-Downloading sha1 h content resends plain cut s i a.0 v in
      elim (Bool-cases (has_all_pieces (status_in h d))) [
        | inl all ↦
            rw (on_piece-genuine sha1 h content resends s i hashed a.0, e, all)
              (close-IsBuilt sha1 h content resends plain cut (record s { disk = d }) v1 r1 all)
        | inr not_all ↦
            rw (on_piece-genuine sha1 h content resends s i hashed a.0, e, not_all)
              (reassemble_loop-from arrivals (record s { disk = d }) hashed a.1 v1 not_all
                (λ j l. rw s1 (
                  counted (status_in h s.disk) (brings arrivals j) i j (rw v.progress.status_size l)
                    (covers j l))))
      ]

  -- Take a client with the directory of the files, without a `.part`, an `.info` or a finished
  -- file of the name, which has no slash, and a record that has the hashes of the full pieces
  -- of a file of at most 4 GiB with at least one piece. If its connections bring each piece at
  -- least once, in any order, and besides it any number of corrupted pieces of full length,
  -- and the resend channel has its receiver, then `reassemble_loop` returns without an error,
  -- the senders are dropped, the finished file has exactly the file's content, and the two
  -- cached files are gone.
  pub reassemble_loop-builds :
      (arrivals : List Arrival) (s : Assembly Tx)
      → IsHashed sha1 h content
      → AllArrivals sha1 h content arrivals
      → 0 < length h.pieces
      → ((i : ℕ) → i < length h.pieces → brings arrivals i ≡ true)
      → content_of s.disk (part_path h.name) ≡ none
      → content_of s.disk (info_path h.name) ≡ none
      → content_of s.disk (file_path h.name) ≡ none
      → has_dir s.disk.dirs files_dir ≡ true
      → let (ends, resend, s') =
          reassemble_loop sha1 h resends (map (message_of h content) arrivals) s in
        (ends ≡ ok tt)
        × (s'.request_txs ≡ [])
        × (content_of s'.disk (file_path h.name) ≡ some content)
        × (content_of s'.disk (part_path h.name) ≡ none)
        × (content_of s'.disk (info_path h.name) ≡ none)
  reassemble_loop-builds arrivals s hashed a some_piece covers p i t f =
      reassemble_loop-from arrivals s hashed a (fresh h content plain cut s.disk p i t f)
        (rw i (zeros-incomplete (length h.pieces) some_piece)) (λ j l. inr (covers j l))
