-- ===== src/TurnFallback/Exchange.antt =====
-- A leecher and a seeder on the two sides of the relay.
use bear_torrent_final_proje.Base.{
  ℕ, ◌<◌, ◌≡◌, refl, Option, some, List, [], ◌∷◌, ok, arith, length, map,
}
use bear_torrent_final_proje.Proto.{Text, Bytes, InfoHash, turn_piece, turn_request}
use bear_torrent_final_proje.Message.{piece}
use bear_torrent_final_proje.FileHandler.Disk.{Disk}
use bear_torrent_final_proje.FileHandler.Progress.{piece_of}
use bear_torrent_final_proje.FileHandler.Download.{AllBelow}
use bear_torrent_final_proje.FileHandler.Seeding.{Seeds, read-Seeds, Wanted, wanted_request}
use bear_torrent_final_proje.TurnFallback.{serve, goes_on, seeder_loop, to_assembler, to_relay}

module _ (session_id : Text) (file_map : Bytes → Option InfoHash) (h : InfoHash)
    (content hash : Bytes) where
  pub serve-request :
      (d : Disk) (index : ℕ)
      → Seeds file_map h content hash d
      → index < length h.pieces
      → serve session_id file_map (some (turn_request hash index)) d ≡ (
        ok (
            goes_on (
              record {
                session_id = session_id;
                body = some (turn_piece (piece_of h.piece_length content index) index);
              }
              ∷ [])),
        d,
      )
  unfolding serve
  serve-request d index v l =
      rw (v.hash_size, v.known, read-Seeds file_map h content hash d index v l) refl

  -- Take a seeder that knows a hash of twenty bytes and has its finished file, of at most 4 GiB
  -- and cut into pieces. It answers each request for one of these pieces that the leecher's side
  -- puts on the relay, in order: the leecher's side makes of the replies the messages that carry
  -- the requested pieces, each with the exact bytes of the file. The seeder's loop ends without an
  -- error when the stream ends and leaves its disk as it was.
  pub seeder_loop-requests :
      (d : Disk) (wanted : List Wanted)
      → Seeds file_map h content hash d
      → AllBelow (length h.pieces) (map (λ w. w.index) wanted)
      → let (r, replies, d') =
          seeder_loop session_id file_map
            (map (λ w. to_relay session_id (wanted_request hash w)) wanted)
            d in
        (r ≡ ok tt)
        × (map to_assembler replies
            ≡ map (λ w. some (piece w.index (piece_of h.piece_length content w.index))) wanted)
        × (d' ≡ d)
  unfolding seeder_loop to_relay to_assembler
  seeder_loop-requests d [] v b = (refl, refl, refl)
  seeder_loop-requests d (w ∷ wanted) v b =
      let (ends, replies, same) = seeder_loop-requests d wanted v b.1 in
      rw (serve-request d w.index v b.0) (ends, ground (arith, replies), same)
