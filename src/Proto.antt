-- ===== src/Proto.antt =====
-- protos/connection.proto: the messages of the RPC services, as both sides use them. A text is its
-- list of UTF-8 bytes; `bytes` are lists of numbers below 256. A message with one field is that
-- field.
use bear_torrent_final_proje.Base.{ℕ, ◌≡◌, ◌↔◌, Bool, true, ◌&&◌, List, Option, arith, ◌==◌, Eq}

abbrev pub Text : Type 0
Text = List ℕ

abbrev pub Bytes : Type 0
Bytes = List ℕ

-- `ClientId { uid }`
abbrev pub ClientId : Type 0
ClientId = Text

-- `FileHash { hash }`
abbrev pub FileHash : Type 0
FileHash = Bytes

-- `PieceHash { hash }`
abbrev pub PieceHash : Type 0
PieceHash = Bytes

-- `Cert { certificate }`
abbrev pub Cert : Type 0
Cert = Bytes

pub record PeerId : Type 0 where
  pub ipaddr : ℕ
  pub port : ℕ
  pub priv_ipaddr : ℕ
  pub priv_port : ℕ

pub record InfoHash : Type 0 where
  pub name : Text
  pub file_length : ℕ
  pub piece_length : ℕ
  pub pieces : List PieceHash

pub record CertMessage : Type 0 where
  pub peer_id : Option PeerId
  pub cert : Option Cert

pub record FullId : Type 0 where
  pub self_id : Option ClientId
  pub peer_id : Option PeerId

pub record ConnectionIds : Type 0 where
  pub connection_peer : Option PeerId
  pub self_id : Option PeerId

pub record FileDelete : Type 0 where
  pub id : Option ClientId
  pub hash : Option FileHash

pub record FileMessage : Type 0 where
  pub id : Option ClientId
  pub hash : Option FileHash
  pub info_hash : Option InfoHash

-- `TurnPacket`'s `oneof body`.
pub data Body : Type 0 where
  turn_piece : (payload : Bytes) (index : ℕ) → Body
  turn_request : (hash : Bytes) (index : ℕ) → Body

pub record TurnPacket : Type 0 where
  pub session_id : Text
  pub body : Option Body

-- The derived `PartialEq` of `PeerId`.
unfoldable pub peer_beq : PeerId → PeerId → Bool
peer_beq a b =
    a.ipaddr == b.ipaddr
    && a.port == b.port
    && a.priv_ipaddr == b.priv_ipaddr
    && a.priv_port == b.priv_port

pub peer_beq_iff : (a b : PeerId) → (peer_beq a b ≡ true) ↔ (a ≡ b)
unfolding peer_beq
peer_beq_iff a b = ground arith

instance abbrev pub peer_eq : Eq PeerId
peer_eq = record { is_eq = peer_beq; is_eq_iff = peer_beq_iff }
