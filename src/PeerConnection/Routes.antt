-- ===== src/PeerConnection/Routes.antt =====
-- How the two sides of a connection fall back from one route to the next, and where they do not.
use bear_torrent_final_proje.Base.{
  ℕ, zero, suc, ◌+◌, ◌≡◌, ◌≢◌, refl, true, Outcome, ok, err, panicked, arith, ◌==◌, none, some,
}
use bear_torrent_final_proje.Base.Words.{to_be_bytes}
use bear_torrent_final_proje.Proto.{Bytes, PeerId}
use bear_torrent_final_proje.FileHandler.Disk.{IoError, other}
use bear_torrent_final_proje.Quic.Endpoints.{
  silent, quic_listener, connect_to_peer_server, create_quic_server, create_quic_client,
}
use bear_torrent_final_proje.TurnFallback.{dotted}
use bear_torrent_final_proje.PeerConnection.{
  PeerConnection, over_lan, across_nat, over_relay, Network, Meeting, missed, stays, connect_on,
  if_punched, send_task, hole_punch, seeder_connection, requester_connection,
}

send_task-unheard :
    (clock : ℕ → ℕ) (rounds i : ℕ)
    → send_task clock none rounds i ≡ err (other "send task finished without succeeding")
unfolding send_task
send_task-unheard clock zero i = refl
send_task-unheard clock (suc rounds) i = send_task-unheard clock rounds (i + 1)

unheard :
    (c : PeerConnection) (clock : ℕ → ℕ)
    → c.pub_socket ≡ true
    → (e : IoError) × (hole_punch c clock none ≡ err e)
unfolding hole_punch
unheard c clock p =
    (other "send task finished without succeeding", rw (p, send_task-unheard clock 200 0) refl)

missed_by :
    (asked punched : Outcome IoError (Unit {0})) (e : IoError) (rest : Outcome IoError Meeting)
    → asked ≢ panicked
    → punched ≡ err e
    → if_punched asked (if_punched punched rest) ≡ ok missed
missed_by (ok u) punched e rest n same = rw same refl
missed_by (err x) punched e rest n same = refl
missed_by panicked punched e rest n same = absurd (n refl)

-- Two peers with the same public address whose endpoints on the local network can be made, while no
-- packet passes between them there, and of whom the requester hears no punch string, never meet: the
-- seeder stays in its wait on the local network for ever, whatever the other routes would bring it,
-- so that it neither punches nor comes to the relay; the requester gives up the local network and the
-- punching, and its call goes as its wait on the relay does. They have their sockets, the server
-- takes the request for the file, and `init_punch` does not panic.
pub seeder_connection-requester_connection_silent :
    {E : Type 0} (s r : Network E) (a b : PeerConnection) (e e' : E)
    → a.self_addr.ipaddr ≡ b.self_addr.ipaddr
    → (a.priv_socket ≡ true) × (b.priv_socket ≡ true) × (b.pub_socket ≡ true)
    → create_quic_server
        (s.endpoint over_lan)
        (s.generate (dotted (to_be_bytes a.self_addr.priv_ipaddr)))
        (s.send_cert over_lan)
        b.self_addr
      ≡ ok e
    → create_quic_client (r.endpoint over_lan) (r.get_cert over_lan) b.self_addr ≡ ok e'
    → s.meets over_lan e ≡ silent
    → r.meets over_lan e' ≡ silent
    → r.send_file_request
        (record { connection_peer = some a.self_addr; self_id = some b.self_addr })
      ≡ ok tt
    → r.init_punch a.self_addr ≢ panicked
    → r.heard ≡ none
    → (seeder_connection s a b.self_addr ≡ ok (stays over_lan))
      × (requester_connection r b a.self_addr ≡ over_relay r.turn)
unfolding seeder_connection requester_connection quic_listener connect_to_peer_server hole_punch
seeder_connection-requester_connection_silent s r a b e e' same (lan, lan', nat) makes makes' still
      still' asks asked unheard_of =
    let near : (a.self_addr.ipaddr == b.self_addr.ipaddr) ≡ true = ground arith in
    let near' : (b.self_addr.ipaddr == a.self_addr.ipaddr) ≡ true = ground arith in
    let (x, fails) = unheard b r.clock nat in
    let missing =
      missed_by (r.init_punch a.self_addr) (hole_punch b r.clock none) x
        (connect_on r b a.self_addr across_nat) asked fails in
    (
      rw (near, lan, makes, still) refl,
      rw (asks, near', lan', makes', still', unheard_of, missing) refl,
    )

module _ {E : Type 0} (net : Network E) (c : PeerConnection) (peer : PeerId) where
  -- Between peers with the same public address, a certificate that cannot be handed to the server, or
  -- got from it, ends the call in that error: neither hole punching nor the relay is tried, whatever
  -- they would answer.
  pub seeder_connection-no_fallback :
      (cert : Bytes) (e : IoError)
      → c.self_addr.ipaddr ≡ peer.ipaddr
      → c.priv_socket ≡ true
      → net.generate (dotted (to_be_bytes c.self_addr.priv_ipaddr)) ≡ ok cert
      → net.send_cert over_lan (record { peer_id = some peer; cert = some cert }) ≡ err e
      → seeder_connection net c peer ≡ err e
  unfolding seeder_connection create_quic_server
  seeder_connection-no_fallback cert e same socket made lost = ground arith

  -- The same on the requester's side.
  pub requester_connection-no_fallback :
      (e : IoError)
      → c.self_addr.ipaddr ≡ peer.ipaddr
      → c.priv_socket ≡ true
      → net.send_file_request (record { connection_peer = some peer; self_id = some c.self_addr })
        ≡ ok tt
      → net.get_cert over_lan c.self_addr ≡ err e
      → requester_connection net c peer ≡ err e
  unfolding requester_connection create_quic_client
  requester_connection-no_fallback e same socket asked lost = ground arith
