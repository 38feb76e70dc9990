-- ===== src/Quic/Failures.antt =====
-- Requests that a connection cannot carry.
use bear_torrent_final_proje.Base.{
  ℕ, ◌+◌, ◌<◌, ◌≤◌, ◌≡◌, refl, Bool, true, Option, none, some, List, [], ◌∷◌, ok, arith, length,
  map, All, leb,
}
use bear_torrent_final_proje.Base.Words.{IsU32, AreBytes}
use bear_torrent_final_proje.Proto.{Bytes, InfoHash}
use bear_torrent_final_proje.Message.{Message, cancel, encode, decode, IsMessage}
use bear_torrent_final_proje.Message.RoundTrip.{decode-encode}
use bear_torrent_final_proje.FileHandler.Disk.{Disk}
use bear_torrent_final_proje.FileHandler.Seeding.{Wanted, wanted_request}
use bear_torrent_final_proje.Quic.{
  Link, refused, opened, serve_stream, read_request, reply_to, send_data, read_task, recv_data,
}
use bear_torrent_final_proje.Quic.Exchange.{
  stream_of, with_replies, length-encode-request, length-encode_cancel,
}
use bear_torrent_final_proje.Base.{take_all}

-- What becomes of a request: its stream cannot be opened, the stream breaks, the reply is too long or
-- no message, or the peer replies with a message.
pub data Fate : Type 0 where
  lost : Fate
  broken : Fate
  oversized : Bytes → Fate
  garbled : Bytes → Fate
  answered : Message → Fate

abbrev pub link_of : Fate → Link
link_of lost = refused
link_of broken = opened true none
link_of (oversized bytes) = opened true (some bytes)
link_of (garbled bytes) = opened true (some bytes)
link_of (answered msg) = opened true (some (encode msg))

abbrev pub refusal_of : Wanted → Message
refusal_of w = cancel w.seeder w.index w.begin w.len

abbrev pub outcomes_of : List (Wanted × Fate) → List Message
outcomes_of [] = []
outcomes_of ((w, lost) ∷ items) = refusal_of w ∷ outcomes_of items
outcomes_of ((w, broken) ∷ items) = outcomes_of items
outcomes_of ((w, oversized bytes) ∷ items) = outcomes_of items
outcomes_of ((w, garbled bytes) ∷ items) = outcomes_of items
outcomes_of ((w, answered msg) ∷ items) = msg ∷ outcomes_of items

-- What the fates say about the bytes that come.
abbrev pub IsFate : Wanted × Fate → Type 0
IsFate (w, lost) = Unit
IsFate (w, broken) = Unit
IsFate (w, oversized bytes) = w.len + 9 < length bytes
IsFate (w, garbled bytes) = decode bytes ≡ ok none
IsFate (w, answered msg) = IsMessage msg × (length (encode msg) ≤ w.len + 9)

module _ (deliver : Message → Bool) (hash : Bytes) where
  read_task-answered :
      (len : ℕ) (msg : Message)
      → ((msg : Message) → deliver msg ≡ true)
      → IsMessage msg
      → length (encode msg) ≤ len + 9
      → read_task deliver len (some (encode msg)) ≡ (ok tt, msg ∷ [])
  unfolding read_task
  read_task-answered len msg takes m l =
      let fits : leb (length (encode msg)) (len + 9) ≡ true = ground arith in
      rw (fits, decode-encode msg m, takes msg) refl

  abbrev pub linked : List (Wanted × Fate) → List (Message × Link)
  linked = map (λ (w, fate). (wanted_request hash w, link_of fate))

module _ (file_map : Bytes → Option InfoHash) (hash : Bytes) where
  -- The fields of a request are `u32` values, and it asks for at least twelve bytes.
  abbrev pub IsWanted : Wanted → Type 0
  IsWanted w = IsU32 w.seeder × IsU32 w.index × IsU32 w.begin × IsU32 w.len × (12 ≤ w.len)

  serve_stream-unknown :
      (d : Disk) (w : Wanted)
      → file_map hash ≡ none
      → length hash ≡ 20
      → AreBytes hash
      → IsWanted w
      → serve_stream file_map (encode (wanted_request hash w)) d ≡ (ok (refusal_of w), d)
  unfolding serve_stream read_request reply_to
  serve_stream-unknown d w e size b a =
      let len = length-encode-request w.seeder w.index w.begin w.len hash size in
      let whole = take_all 41 (encode (wanted_request hash w)) (omega (arith, len)) in
      let sent = decode-encode (wanted_request hash w) (a.0, a.1, a.2, a.3, size, b) in
      rw (len, whole, sent, e) refl

  send_data-unknown :
      (d : Disk) (wanted : List Wanted)
      → file_map hash ≡ none
      → length hash ≡ 20
      → AreBytes hash
      → All IsWanted wanted
      → send_data file_map (map (λ w. stream_of (wanted_request hash w)) wanted) d
        ≡ (ok tt, map (λ w. encode (refusal_of w)) wanted, d)
  unfolding send_data
  send_data-unknown d [] e size b a = refl
  send_data-unknown d (w ∷ wanted) e size b a =
      rw (serve_stream-unknown d w e size b a.0, send_data-unknown d wanted e size b a.1) refl

  recv_data-refusals :
      (deliver : Message → Bool) (wanted : List Wanted)
      → ((msg : Message) → deliver msg ≡ true)
      → All IsWanted wanted
      → recv_data deliver (with_replies hash wanted (map (λ w. encode (refusal_of w)) wanted))
        ≡ (ok tt, map refusal_of wanted)
  unfolding recv_data
  recv_data-refusals deliver [] takes a = refl
  recv_data-refusals deliver (w ∷ wanted) takes a =
      rw
        (
          read_task-answered deliver hash w.len (refusal_of w) takes (a.0.0, a.0.1, a.0.2, a.0.3)
              (omega (arith, length-encode_cancel w.seeder w.index w.begin w.len)),
          recv_data-refusals deliver wanted takes a.1,
        )
        refl

  -- A seeder that does not know the hash replies to each request for it with a cancel, and the
  -- requester hands over that cancel, with the fields of its request, in order; both loops end without
  -- an error. The requests have `u32` fields and ask for at least twelve bytes.
  pub recv_data-send_data_unknown :
      (deliver : Message → Bool) (d : Disk) (wanted : List Wanted)
      → ((msg : Message) → deliver msg ≡ true)
      → file_map hash ≡ none
      → length hash ≡ 20
      → AreBytes hash
      → All IsWanted wanted
      → let (ends, replies, d') =
          send_data file_map (map (λ w. stream_of (wanted_request hash w)) wanted) d in
        (ends ≡ ok tt)
        × (d' ≡ d)
        × (recv_data deliver (with_replies hash wanted replies) ≡ (ok tt, map refusal_of wanted))
  recv_data-send_data_unknown deliver d wanted takes e size b a =
      rw (send_data-unknown d wanted e size b a)
        (refl, refl, recv_data-refusals deliver wanted takes a)
