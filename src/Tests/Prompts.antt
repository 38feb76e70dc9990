-- ===== src/Tests/Prompts.antt =====
-- Witnesses for client/src/main.rs.
use bear_torrent_final_proje.Base.{◌≡◌, refl, List, [], ◌∷◌, none, some, ok, ℕ, map}
use bear_torrent_final_proje.Base.Text.{codes}
use bear_torrent_final_proje.Proto.{Text, FileHash, peer_eq}
use bear_torrent_final_proje.FileHandler.Cache.{is_space}
use bear_torrent_final_proje.Server.State.{peer_of, seeders_of}
use bear_torrent_final_proje.Server.Registry.{get_file_peer_list}
use bear_torrent_final_proje.Server.Files.{or_new, without}
use bear_torrent_final_proje.Server.Run.Offers.{peers}
use bear_torrent_final_proje.TorrentClient.Rpc.{Connector, World, Act, served}
use bear_torrent_final_proje.CommandLine.{Prompt, left}
use bear_torrent_final_proje.CommandLine.Words.{Says}
use bear_torrent_final_proje.CommandLine.Leaving.{Typed, prompt, main_loop-exit}
use bear_torrent_final_proje.Tests.Hex.{hex_encode, hex_decode}
use bear_torrent_final_proje.Tests.Service.{numbered, peer_id}
use bear_torrent_final_proje.Tests.Records.{constant, finished}
use bear_torrent_final_proje.Tests.Clients.{client, knows, serving, addresses, known, relay_ends}

abbrev Entered : Type 0
Entered =
    Typed constant numbered [] 0 (λ i. addresses) hex_encode hex_decode (λ d. [])
      (map (λ (_, h). h)) client

abbrev entered : Text → Entered
entered text = record { text = text; meanwhile = λ w. w; ends = relay_ends }

exit_said : Says (codes "exit") (101 ∷ 120 ∷ 105 ∷ 116 ∷ 10 ∷ [])
unfolding is_space
exit_said = record {
  before = [];
  behind = 10 ∷ [];
  blank_before = tt;
  blank_behind = (refl, tt);
  is = refl;
}

-- The prompt over a server with one file on offer.
abbrev Remote : Connector
Remote = served numbered [] 0

abbrev here : World Remote
here = record { server = serving; disk = finished }

abbrev runs : List Entered → ℕ → Act Remote Prompt
runs =
    prompt constant numbered [] 0 (λ i. addresses) hex_encode hex_decode (λ d. [])
      (map (λ (_, h). h)) client

main_loop-exit_example :
    (w' : World Remote) × (runs
        (entered (101 ∷ 120 ∷ 105 ∷ 116 ∷ 10 ∷ []) ∷ [])
        0
        (record { server = knows; disk = finished })
      ≡ (ok (left 0), w'))
    × (peer_of w'.server (7 ∷ []) ≡ none)
    × ((h : FileHash)
        → get_file_peer_list w'.server h
          ≡ peers knows (without (7 ∷ []) (or_new (seeders_of knows h))))
    × (w'.disk ≡ finished)
main_loop-exit_example =
    main_loop-exit constant numbered [] 0 (λ i. addresses) hex_encode hex_decode (λ d. [])
      (map (λ (_, h). h)) client (entered (101 ∷ 120 ∷ 105 ∷ 116 ∷ 10 ∷ [])) [] 0 (some peer_id)
      (record { server = knows; disk = finished }) exit_said known
