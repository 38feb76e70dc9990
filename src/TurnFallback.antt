-- ===== src/TurnFallback.antt =====
-- client/src/turn_fallback.rs: a client's two sides of the relay service. The inbound stream is the
-- list of what it yields; what a side hands to its outbound stream is a list of packets.
pub mod Ids
pub mod Addresses
pub mod Exchange
pub mod Sides
pub mod Headers
pub mod Arms
pub mod Meeting
pub mod Relayed
use Prim.Native.String.{String}
use bear_torrent_final_proje.Base.{
  ℕ, zero, suc, ◌+◌, ◌%◌, Bool, true, false, Option, none, some, List, [], ◌∷◌, ◌++◌, Outcome, ok,
  err, panicked, if◌then◌else◌, ltb, leb, ◌==◌, length,
}
use Prim.Native.Nat.{◌/◌}
use bear_torrent_final_proje.Base.Text.{codes}
use bear_torrent_final_proje.Base.Decimal.{decimal}
use bear_torrent_final_proje.Base.Words.{to_be_bytes}
use bear_torrent_final_proje.Proto.{
  Text, Bytes, PeerId, InfoHash, Body, turn_piece, turn_request, TurnPacket,
}
use bear_torrent_final_proje.Message.{Message, request, piece, cancel}
use bear_torrent_final_proje.FileHandler.Disk.{Disk, IoError}
use bear_torrent_final_proje.FileHandler.Store.{read_piece_from_file}

-- The text of an `Ipv4Addr`: its four bytes with dots between them.
abbrev pub dotted : List ℕ → Text
dotted [] = []
dotted (a ∷ []) = decimal a
dotted (a ∷ b ∷ bytes) = decimal a ++ (codes "." ++ dotted (b ∷ bytes))

unfoldable pub peer_to_string : PeerId → Text
unfolding to_be_bytes
peer_to_string peer =
    dotted (to_be_bytes peer.ipaddr)
    ++ (codes ":"
        ++ (decimal peer.port
            ++ (codes "-"
                ++ (dotted (to_be_bytes peer.priv_ipaddr)
                    ++ (codes ":" ++ decimal peer.priv_port)))))

-- `key_a <= key_b`, the order of tuples.
unfoldable pub key_leb : PeerId → PeerId → Bool
key_leb a b =
    if a.ipaddr == b.ipaddr
    then if a.port == b.port
      then if a.priv_ipaddr == b.priv_ipaddr
        then leb a.priv_port b.priv_port
        else ltb a.priv_ipaddr b.priv_ipaddr
      else ltb a.port b.port
    else ltb a.ipaddr b.ipaddr

unfoldable pub make_session_id : PeerId → PeerId → Text
make_session_id a b =
    if key_leb a b
    then peer_to_string a ++ (codes "|" ++ peer_to_string b)
    else peer_to_string b ++ (codes "|" ++ peer_to_string a)

-- What the seeder's loop does on one packet: it replies or not and goes on, or returns.
pub data Serving : Type 0 where
  goes_on : List TurnPacket → Serving
  returns : Serving

abbrev pub Serves : Type 0
Serves = Outcome IoError Serving × Disk

module _ (session_id : Text) (file_map : Bytes → Option InfoHash) where
  abbrev reply : ℕ → Outcome IoError Bytes × Disk → Serves
  reply index (ok bytes, d) = (
    ok (goes_on (record { session_id = session_id; body = some (turn_piece bytes index) } ∷ [])),
    d,
  )
  reply index (err e, d) = (ok returns, d)
  reply index (panicked, d) = (panicked, d)

  abbrev look_up : Option InfoHash → ℕ → Disk → Serves
  look_up none index d = (ok returns, d)
  look_up (some info_hash) index d = reply index (read_piece_from_file info_hash index d)

  -- The body of the arm `Some(Ok(pkt))`.
  unfoldable pub serve : Option Body → Disk → Serves
  serve none d = (ok (goes_on []), d)
  serve (some (turn_piece payload index)) d = (ok (goes_on []), d)
  serve (some (turn_request hash index)) d =
      if length hash == 20 then look_up (file_map hash) index d else (panicked, d)

  abbrev pub serve_then :
      Serves
      → (Disk → Outcome IoError (Unit {0}) × List TurnPacket × Disk)
      → Outcome IoError (Unit {0}) × List TurnPacket × Disk
  serve_then (ok (goes_on sent), d) rest = let (r, more, d') = rest d in (r, sent ++ more, d')
  serve_then (ok returns, d) rest = (ok tt, [], d)
  serve_then (err e, d) rest = (err e, [], d)
  serve_then (panicked, d) rest = (panicked, [], d)

  -- The seeder's loop, over the stream's items; `none` is an error of the stream, which is skipped.
  unfoldable pub seeder_loop :
      List (Option TurnPacket) → Disk → Outcome IoError (Unit {0}) × List TurnPacket × Disk
  seeder_loop [] d = (ok tt, [], d)
  seeder_loop (none ∷ items) d = seeder_loop items d
  seeder_loop (some pkt ∷ items) d = serve_then (serve pkt.body d) (λ d'. seeder_loop items d')

-- The leecher's two arms: a piece goes to the assembler, a request to the relay.
unfoldable pub to_assembler : TurnPacket → Option Message
to_assembler pkt = elim pkt.body [
  | none ↦ none
  | some body ↦ elim body [
    | turn_piece payload index ↦ some (piece index payload)
    | turn_request hash index ↦ none
  ]
]

unfoldable pub to_relay : Text → Message → Option TurnPacket
to_relay session_id (request seeder index begin len hash) =
    some (record { session_id = session_id; body = some (turn_request hash index) })
to_relay session_id (piece index block) = none
to_relay session_id (cancel seeder index begin len) = none
