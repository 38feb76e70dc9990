-- ===== src/CommandLine/Leaving.antt =====
-- How a client leaves by its prompt.
use bear_torrent_final_proje.Base.{
  ℕ, ◌≡◌, refl, Option, none, some, List, [], ◌∷◌, ok, bytes_eq, list_beq,
}
use bear_torrent_final_proje.Base.Dict.{Dict}
use bear_torrent_final_proje.Base.Text.{codes}
use bear_torrent_final_proje.Proto.{Text, Bytes, PeerId, FileHash, InfoHash, peer_eq}
use bear_torrent_final_proje.FileHandler.Disk.{Disk}
use bear_torrent_final_proje.FileHandler.Cache.{is_space}
use bear_torrent_final_proje.Server.State.{Deps, peer_of, seeders_of}
use bear_torrent_final_proje.Server.Registry.{get_file_peer_list}
use bear_torrent_final_proje.Server.Files.{or_new, without, delist_client}
use bear_torrent_final_proje.Server.Run.Offers.{peers, get_file_peer_list-delist_client}
use bear_torrent_final_proje.TorrentClient.Sockets.{Addresses}
use bear_torrent_final_proje.TorrentClient.Rpc.{Connector, World, Act, served}
use bear_torrent_final_proje.TorrentClient.{TorrentClient, returns, remove_client}
use bear_torrent_final_proje.CommandLine.{Line, Prompt, Then, left, leaves, command, main_loop}
use bear_torrent_final_proje.CommandLine.Words.{Says, trim-word}

module _ (sha1 : Bytes → Bytes) (D : Deps) (draws : List Text) (tx : D.PeerSender)
    (sockets : ℕ → Addresses) (hex_encode : Bytes → Text) (hex_decode : Text → Option Bytes)
    (listing : Disk → List Text) (values : Dict Bytes InfoHash → List InfoHash)
    (t : TorrentClient) where
  abbrev pub Server : Connector
  Server = served D draws tx

  abbrev pub Typed : Type 0
  Typed = Line sha1 Server sockets hex_encode hex_decode listing values

  abbrev pub prompt : List Typed → ℕ → Act Server Prompt
  prompt = main_loop sha1 Server sockets hex_encode hex_decode listing values t

  abbrev pub commanded : Text → Typed → Act Server Then
  commanded = command sha1 Server sockets hex_encode hex_decode listing values t

  command-exit :
      (line answer : Typed) (w : World Server)
      → Says (codes "exit") line.text
      → commanded line.text answer w
        ≡ (ok leaves, record w { server = delist_client w.server t.uid })
  unfolding command list_beq remove_client is_space
  command-exit line answer w s =
      rw (trim-word (codes "exit") line.text (refl, (refl, (refl, (refl, tt)))) s) refl

  -- When a client leaves by the word `exit` at its prompt, with any white space around it, the loop
  -- ends, whatever lines follow: a server that has registered the client has it in its registry and
  -- in its peer lists no more, each of which keeps the other seeders in their order, and the
  -- client's disk stays as it was.
  pub main_loop-exit :
      (line : Typed) (lines : List Typed) (tasks : ℕ) (p : Option PeerId) (w : World Server)
      → Says (codes "exit") line.text
      → peer_of (line.meanwhile w).server t.uid ≡ some p
      → (w' : World Server) × (prompt (line ∷ lines) tasks w ≡ (ok (left tasks), w'))
        × (peer_of w'.server t.uid ≡ none)
        × ((h : FileHash)
            → get_file_peer_list w'.server h
              ≡ peers
                  (line.meanwhile w).server
                  (without t.uid (or_new (seeders_of (line.meanwhile w).server h))))
        × (w'.disk ≡ (line.meanwhile w).disk)
  unfolding main_loop
  main_loop-exit line [] tasks p w s known = (
    record (line.meanwhile w) { server = delist_client (line.meanwhile w).server t.uid },
    rw
        (command-exit line (record { text = []; meanwhile = λ w. w; ends = λ handle. returns })
          (line.meanwhile w) s)
        refl,
    (get_file_peer_list-delist_client (line.meanwhile w).server t.uid p [] known).0,
    λ h. (get_file_peer_list-delist_client (line.meanwhile w).server t.uid p h known).1,
    refl,
  )
  main_loop-exit line (answer ∷ lines) tasks p w s known = (
    record (line.meanwhile w) { server = delist_client (line.meanwhile w).server t.uid },
    rw (command-exit line answer (line.meanwhile w) s) refl,
    (get_file_peer_list-delist_client (line.meanwhile w).server t.uid p [] known).0,
    λ h. (get_file_peer_list-delist_client (line.meanwhile w).server t.uid p h known).1,
    refl,
  )
