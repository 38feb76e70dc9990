-- ===== src/Quic/Endpoints.antt =====
-- The ends of a connection and how they meet. What the crates `rcgen`, `rustls` and `quinn` answer
-- comes in as arguments; so do the calls of the server.
use Prim.Native.String.{String}
use bear_torrent_final_proje.Base.{Option, none, some, Outcome, ok, err, ◌>>=◌, ◌>>◌}
use bear_torrent_final_proje.Proto.{Bytes, PeerId, CertMessage}
use bear_torrent_final_proje.FileHandler.Disk.{IoError, other}

-- How an attempt to meet the peer goes. It is `silent` if no packet of the peer ever comes.
pub data Attempt : Type 0 where
  unavailable : String → Attempt
  silent : Attempt
  elapsed : Attempt
  refused_by : String → Attempt
  connected : Attempt

-- `quic_listener`; a connection that is made goes to a task that runs `send_data`. The four seconds are
-- for the handshake; the wait for the first packet, `accept`, has no limit: `none` is no return.
unfoldable pub quic_listener : Attempt → Option (Outcome IoError (Unit {0}))
quic_listener (unavailable text) = some (err (other "failed to accept"))
quic_listener silent = none
quic_listener elapsed = some (err (other "deadline has elapsed"))
quic_listener (refused_by text) = some (err (other text))
quic_listener connected = some (ok tt)

-- `connect_to_peer_server`; a connection that is made goes to a task that runs `recv_data`.
unfoldable pub connect_to_peer_server : Attempt → Outcome IoError (Unit {0})
connect_to_peer_server (unavailable text) = err (other text)
connect_to_peer_server silent = err (other "deadline has elapsed")
connect_to_peer_server elapsed = err (other "deadline has elapsed")
connect_to_peer_server (refused_by text) = err (other text)
connect_to_peer_server connected = ok tt

module _ {E : Type 0} (endpoint : Bytes → Outcome IoError E) where
  -- `create_quic_server`: the certificate goes to the peer by way of the server.
  unfoldable pub create_quic_server :
      Outcome IoError Bytes
      → (CertMessage → Outcome IoError (Unit {0}))
      → PeerId
      → Outcome IoError E
  create_quic_server generated send_cert peer_id = do
    cert ← generated
    send_cert (record { peer_id = some peer_id; cert = some cert })
    endpoint cert

  -- `create_quic_client`
  unfoldable pub create_quic_client : (PeerId → Outcome IoError Bytes) → PeerId → Outcome IoError E
  create_quic_client get_cert self_addr = do cert ← get_cert self_addr; endpoint cert
