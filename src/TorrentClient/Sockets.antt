-- ===== src/TorrentClient/Sockets.antt =====
-- client/src/torrent_client.rs: the addresses that `register_new_connection` finds for its sockets.
use bear_torrent_final_proje.Base.{ℕ, Outcome, ok, err, ◌>>=◌}
use bear_torrent_final_proje.Proto.{PeerId}
use bear_torrent_final_proje.FileHandler.Disk.{IoError, other}

-- An address: IPv4 as a number, or IPv6.
pub data IpAddr : Type 0 where
  v4 : ℕ → IpAddr
  v6 : IpAddr

-- What the STUN server and the network stack answer when sockets are bound.
pub record Addresses : Type 0 where
  pub external_addr : Outcome IoError (IpAddr × ℕ)
  pub local_ip : Outcome IoError IpAddr
  pub priv_port : Outcome IoError ℕ

abbrev pub to_u32 : IpAddr → Outcome IoError ℕ
to_u32 (v4 ip) = ok ip
to_u32 v6 = err (other "Cannot convert IPv6 to u32")

-- The address under which the client registers.
unfoldable pub address_of : Addresses → Outcome IoError PeerId
address_of sockets = do
  (external_ip, port) ← sockets.external_addr
  ipaddr ← to_u32 external_ip
  local_ip ← sockets.local_ip
  priv_ipaddr ← to_u32 local_ip
  priv_port ← sockets.priv_port
  ok (record { ipaddr = ipaddr; port = port; priv_ipaddr = priv_ipaddr; priv_port = priv_port })
