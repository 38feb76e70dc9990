-- ===== src/CommandLine/Selecting.antt =====
-- The commands that ask for a file by its number.
use bear_torrent_final_proje.Base.{
  ℕ, ◌^◌, ◌<◌, ◌≤◌, ◌≡◌, refl, Option, none, some, List, ◌∷◌, Outcome, ok, err, panicked, length,
  get_elem?, bytes_eq, Option-cases, inl, inr, list_beq, unwrap,
}
use bear_torrent_final_proje.Base.Dict.{Dict}
use bear_torrent_final_proje.Base.Decimal.{decimal}
use bear_torrent_final_proje.Base.Text.{codes}
use bear_torrent_final_proje.Proto.{Text, Bytes, InfoHash, peer_eq}
use bear_torrent_final_proje.FileHandler.Disk.{Disk}
use bear_torrent_final_proje.FileHandler.Cache.{is_space}
use bear_torrent_final_proje.FileHandler.Records.{get_info_hashes}
use bear_torrent_final_proje.Server.State.{Deps}
use bear_torrent_final_proje.TorrentClient.Sockets.{Addresses}
use bear_torrent_final_proje.TorrentClient.Rpc.{
  Connector, World, Act, Failure, ◌>>=◌, ◌>>◌, pure, continue, served,
}
use bear_torrent_final_proje.TorrentClient.{
  TorrentClient, Started, TaskEnd, Waited, finished, blocked, file_request, delete_file,
}
use bear_torrent_final_proje.CommandLine.{
  Line, Prompt, Then, goes_on_past, downloads, after, choose, command, removal, main_loop,
}
use bear_torrent_final_proje.CommandLine.Choices.{choose-decimal}
use bear_torrent_final_proje.CommandLine.Words.{Says, trim-word}

module _ (sha1 : Bytes → Bytes) (D : Deps) (draws : List Text) (tx : D.PeerSender)
    (sockets : ℕ → Addresses) (hex_encode : Bytes → Text) (hex_decode : Text → Option Bytes)
    (listing : Disk → List Text) (values : Dict Bytes InfoHash → List InfoHash)
    (t : TorrentClient) where
  abbrev pub Server : Connector
  Server = served D draws tx

  abbrev pub Typed : Type 0
  Typed = Line sha1 Server sockets hex_encode hex_decode listing values

  abbrev pub prompt : List Typed → ℕ → Act Server Prompt
  prompt = main_loop sha1 Server sockets hex_encode hex_decode listing values t

  abbrev pub commanded : Text → Typed → Act Server Then
  commanded = command sha1 Server sockets hex_encode hex_decode listing values t

  -- How the loop goes on with a file that was asked for, if there was one.
  abbrev pub with_choice : Option InfoHash → (InfoHash → Act Server Prompt) → Act Server Prompt
  with_choice none act w = (panicked, w)
  with_choice (some file) act w = act file w

  -- A download with these ends of its connections, and the prompt behind it, if it comes back.
  abbrev pub behind : Act Server Prompt → ℕ → Waited → Act Server Prompt
  behind rest tasks finished = rest
  behind rest tasks blocked = pure Server (downloads tasks)

  abbrev pub download : Act Server Prompt → ℕ → (Started → TaskEnd) → InfoHash → Act Server Prompt
  download rest tasks ends file = file_request sha1 Server t sockets ends file >>= behind rest tasks

  deleted_by :
      (r : Outcome Failure (Unit {0})) (w : World Server) (rest past : ℕ → Act Server Prompt)
      (tasks : ℕ)
      → let (r1, w1) = continue (λ x. pure Server goes_on_past) r w in
        continue
          (λ next.
            after sha1 Server sockets hex_encode hex_decode listing values next rest past tasks)
          r1
          w1
        ≡ continue (λ x. past tasks) r w
  deleted_by (ok a) w rest past tasks = refl
  deleted_by (err e) w rest past tasks = refl
  deleted_by panicked w rest past tasks = refl

  removal-decimal :
      (answer : Typed) (k : ℕ) (w : World Server) (d : Disk) (files : Dict Bytes InfoHash)
      → Says (decimal k) answer.text
      → k < 2 ^ 16
      → length (values files) ≤ 2 ^ 16
      → get_info_hashes sha1 hex_encode hex_decode (listing w.disk) w.disk ≡ (ok files, d)
      → (rest past : ℕ → Act Server Prompt) (tasks : ℕ)
      → (removal sha1 Server sockets hex_encode hex_decode listing values t answer >>= λ next.
            after sha1 Server sockets hex_encode hex_decode listing values next rest past tasks)
          w
        ≡ with_choice
            (get_elem? (values files) k)
            (λ file. delete_file sha1 Server t file >> past tasks)
            (answer.meanwhile (record w { disk = d }))
  unfolding removal
  removal-decimal answer k w d files s l few listed rest past tasks =
      let found : choose {E = Failure} answer.text (values files)
          ≡ unwrap (get_elem? (values files) k) =
        rw s.is
          (choose-decimal (values files) k s.before s.behind s.blank_before s.blank_behind l few) in
      elim (Option-cases (get_elem? (values files) k)) [
        | inl e ↦ rw (listed, found, e) refl
        | inr (file, e) ↦
            let (r, w') =
              delete_file sha1 Server t file (answer.meanwhile (record w { disk = d })) in
            rw (listed, found, e) (deleted_by r w' rest past tasks)
      ]

  -- The word `d` and then a number delete the file that stands at the number in the walk over the
  -- records of the files that the client has, if the records can be made and there are at most 65536;
  -- the prompt goes on behind the number, an error of the removal ends it, and without such a file it
  -- panics.
  pub main_loop-removal :
      (line answer : Typed) (lines : List Typed) (tasks k : ℕ) (w : World Server) (d : Disk)
      (files : Dict Bytes InfoHash)
      → Says (codes "d") line.text
      → Says (decimal k) answer.text
      → k < 2 ^ 16
      → length (values files) ≤ 2 ^ 16
      → get_info_hashes sha1 hex_encode hex_decode
          (listing (line.meanwhile w).disk)
          (line.meanwhile w).disk
        ≡ (ok files, d)
      → prompt (line ∷ answer ∷ lines) tasks w
        ≡ with_choice
            (get_elem? (values files) k)
            (λ file. delete_file sha1 Server t file >> prompt lines tasks)
            (answer.meanwhile (record (line.meanwhile w) { disk = d }))
  unfolding main_loop command list_beq is_space
  main_loop-removal line answer lines tasks k w d files s a l few listed =
      rw (trim-word (codes "d") line.text (refl, tt) s)
        (removal-decimal answer k (line.meanwhile w) d files a l few listed _ _ tasks)
