-- ===== src/Quic/Exchange.antt =====
-- A requester and a seeder on the two ends of a connection.
use bear_torrent_final_proje.Base.{
  length-take, take_all, ℕ, ◌+◌, ◌*◌, ◌<◌, ◌≤◌, ◌≡◌, refl, Bool, true, Option, some, List, [], ◌∷◌,
  ok, arith, length, take, drop, All, map, leb,
}
use bear_torrent_final_proje.Base.Words.{IsU32, AreBytes, AreBytes-take, AreBytes-drop, to_be_bytes}
use bear_torrent_final_proje.Proto.{Bytes, InfoHash}
use bear_torrent_final_proje.Message.{Message, request, piece, cancel, encode}
use bear_torrent_final_proje.Message.RoundTrip.{decode-encode}
use bear_torrent_final_proje.FileHandler.Disk.{Disk}
use bear_torrent_final_proje.FileHandler.Progress.{piece_of}
use bear_torrent_final_proje.FileHandler.Seeding.{Seeds, read-Seeds, Wanted, wanted_request}
use bear_torrent_final_proje.Quic.{
  Event, accepted, Link, opened, serve_stream, read_request, reply_to, send_data, read_task,
  recv_data,
}

-- The sizes on the wire, which the reads of both sides rely on.
pub length-encode-request :
    (seeder index begin len : ℕ) (hash : Bytes)
    → length hash ≡ 20
    → length (encode (request seeder index begin len hash)) ≡ 41
unfolding encode to_be_bytes
length-encode-request seeder index begin len hash h = omega (arith, h)

pub length-encode_piece :
    (index : ℕ) (block : Bytes) → length (encode (piece index block)) ≡ length block + 9
unfolding encode to_be_bytes
length-encode_piece index block = omega arith

pub length-encode_cancel :
    (seeder index begin len : ℕ) → length (encode (cancel seeder index begin len)) ≡ 21
unfolding encode to_be_bytes
length-encode_cancel seeder index begin len = omega arith

-- The stream of a request that arrives whole.
abbrev pub stream_of : Message → Event
stream_of msg = accepted (record { arrived = encode msg; takes = true })

-- The requests, each with the reply that came for it.
abbrev pub with_replies : Bytes → List Wanted → List Bytes → List (Message × Link)
with_replies hash [] replies = []
with_replies hash (w ∷ wanted) [] = []
with_replies hash (w ∷ wanted) (bytes ∷ replies) =
    (wanted_request hash w, opened true (some bytes)) ∷ with_replies hash wanted replies

module _ (file_map : Bytes → Option InfoHash) (h : InfoHash) (content hash : Bytes) where
  -- The fields of a request for a piece of the file are `u32` values, and it asks for enough bytes.
  abbrev pub Asks : Wanted → Type 0
  Asks w =
      IsU32 w.seeder
      × IsU32 w.index
      × IsU32 w.begin
      × IsU32 w.len
      × (w.index < length h.pieces)
      × (h.piece_length ≤ w.len)

  abbrev pub piece_for : Wanted → Message
  piece_for w = piece w.index (piece_of h.piece_length content w.index)

  serve_stream-request :
      (d : Disk) (w : Wanted)
      → Seeds file_map h content hash d
      → AreBytes hash
      → Asks w
      → serve_stream file_map (encode (wanted_request hash w)) d ≡ (ok (piece_for w), d)
  unfolding serve_stream read_request reply_to
  serve_stream-request d w v b a =
      let len = length-encode-request w.seeder w.index w.begin w.len hash v.hash_size in
      let whole = take_all 41 (encode (wanted_request hash w)) (omega (arith, len)) in
      let sent = decode-encode (wanted_request hash w) (a.0, a.1, a.2, a.3, v.hash_size, b) in
      rw (len, whole, sent, v.known, read-Seeds file_map h content hash d w.index v a.4) refl

  send_data-requests :
      (d : Disk) (wanted : List Wanted)
      → Seeds file_map h content hash d
      → AreBytes hash
      → All Asks wanted
      → send_data file_map (map (λ w. stream_of (wanted_request hash w)) wanted) d
        ≡ (ok tt, map (λ w. encode (piece_for w)) wanted, d)
  unfolding send_data
  send_data-requests d [] v b a = refl
  send_data-requests d (w ∷ wanted) v b a =
      rw (serve_stream-request d w v b a.0, send_data-requests d wanted v b a.1) refl

  read_task-piece :
      (deliver : Message → Bool) (w : Wanted)
      → ((msg : Message) → deliver msg ≡ true)
      → IsU32 w.index
      → AreBytes content
      → h.piece_length ≤ w.len
      → read_task deliver w.len (some (encode (piece_for w))) ≡ (ok tt, piece_for w ∷ [])
  unfolding read_task piece_of
  read_task-piece deliver w takes i b l =
      let block = take h.piece_length (drop (w.index * h.piece_length) content) in
      let len = length-encode_piece w.index block in
      let size = length-take h.piece_length (drop (w.index * h.piece_length) content) in
      let fits : leb (length (encode (piece w.index block))) (w.len + 9) ≡ true =
        ground (arith, len, size) in
      let bytes =
        AreBytes-take h.piece_length _ (AreBytes-drop (w.index * h.piece_length) content b) in
      rw (fits, decode-encode (piece w.index block) (i, bytes), takes (piece w.index block)) refl

  recv_data-replies :
      (deliver : Message → Bool) (wanted : List Wanted)
      → ((msg : Message) → deliver msg ≡ true)
      → AreBytes content
      → All Asks wanted
      → recv_data deliver (with_replies hash wanted (map (λ w. encode (piece_for w)) wanted))
        ≡ (ok tt, map piece_for wanted)
  unfolding recv_data
  recv_data-replies deliver [] takes b a = refl
  recv_data-replies deliver (w ∷ wanted) takes b a =
      rw
        (
          read_task-piece deliver w takes a.0.1 b a.0.5,
          recv_data-replies deliver wanted takes b a.1,
        )
        refl

  -- Take a seeder that knows a hash of twenty bytes and has its finished file, of at most 4 GiB and cut
  -- into pieces, a requester whose assembler takes what it hands over, and requests for pieces of that
  -- file, with `u32` fields and for at least the length of a piece. Over a connection that keeps up,
  -- the seeder decodes each request that the requester encodes and replies, both loops end without an
  -- error, the seeder's disk stays as it was, and the requester hands over exactly the requested
  -- pieces, each with the bytes of the file, in the order of the requests.
  pub recv_data-send_data :
      (deliver : Message → Bool) (d : Disk) (wanted : List Wanted)
      → ((msg : Message) → deliver msg ≡ true)
      → Seeds file_map h content hash d
      → AreBytes hash
      → AreBytes content
      → All Asks wanted
      → let (ends, replies, d') =
          send_data file_map (map (λ w. stream_of (wanted_request hash w)) wanted) d in
        (ends ≡ ok tt)
        × (d' ≡ d)
        × (recv_data deliver (with_replies hash wanted replies) ≡ (ok tt, map piece_for wanted))
  recv_data-send_data deliver d wanted takes v b c a =
      rw (send_data-requests d wanted v b a)
        (refl, refl, recv_data-replies deliver wanted takes c a)
