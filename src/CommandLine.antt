-- ===== src/CommandLine.antt =====
-- client/src/main.rs: the prompt of a client. The lines that the terminal gives are an argument, each
-- with what others do to the server and the disk while the prompt waits for it (the tasks that seed
-- among them). Behind the last line the terminal gives empty ones.
pub mod Choices
pub mod Words
pub mod Leaving
pub mod Selecting
use bear_torrent_final_proje.Base.{
  ℕ, ◌+◌, ◌%◌, ◌^◌, Option, none, some, List, [], ◌∷◌, Outcome, ok, panicked, if◌then◌else◌, unwrap,
  eqb, bytes_eq, nat_eq,
}
use bear_torrent_final_proje.Base.Dict.{Dict, lookup, insert}
use bear_torrent_final_proje.Base.Decimal.{parse_uint}
use bear_torrent_final_proje.Base.Text.{codes}
use bear_torrent_final_proje.Proto.{Text, Bytes, InfoHash}
use bear_torrent_final_proje.FileHandler.Cache.{trim_start, trim_end}
use bear_torrent_final_proje.FileHandler.Disk.{Disk}
use bear_torrent_final_proje.FileHandler.Records.{get_info_hashes}
use bear_torrent_final_proje.TorrentClient.Sockets.{Addresses}
use bear_torrent_final_proje.TorrentClient.Rpc.{
  Connector, World, Failure, Act, ◌>>=◌, ◌>>◌, pure, on_disk,
}
use bear_torrent_final_proje.TorrentClient.{
  TorrentClient, Started, TaskEnd, returns, Waited, finished, blocked, new, get_server_files,
  delete_file, remove_client, file_request,
}

-- `str::trim`
abbrev pub trim : Text → Text
trim text = trim_end (trim_start text)

-- What a command does to the prompt: it starts a task that seeds, or leaves, or goes on, with or
-- without a second line that it has read, or never comes back.
pub data Then : Type 0 where
  spawns leaves goes_on goes_on_past never_returns : Then

-- How the prompt stands when the lines are used up, or when it stays in a download for ever, with the
-- number of tasks that it has started.
pub data Prompt : Type 0 where
  left : (tasks : ℕ) → Prompt
  waits : (tasks : ℕ) → Prompt
  downloads : (tasks : ℕ) → Prompt

-- `file_selection`, from option `i` on: the counter is a `u16`.
unfoldable pub file_selection : List InfoHash → ℕ → Dict ℕ InfoHash → Dict ℕ InfoHash
file_selection [] i selection = selection
file_selection (file ∷ files) i selection =
    file_selection files ((i + 1) % 2 ^ 16) (insert i file selection)

-- `input.trim().parse().expect(…)`, and `file_selection.remove(&command).unwrap()`
abbrev pub chosen : {E : Type 0} → Option ℕ → List InfoHash → Outcome E InfoHash
chosen none files = panicked
chosen (some number) files = unwrap (lookup number (file_selection files 0 []))

unfoldable pub choose : {E : Type 0} → Text → List InfoHash → Outcome E InfoHash
choose input files = chosen (parse_uint (2 ^ 16) (trim input)) files

-- Behind the wait of `file_request`.
abbrev pub then_of : Waited → Then
then_of finished = goes_on_past
then_of blocked = never_returns

module _ (sha1 : Bytes → Bytes) (C : Connector) (sockets : ℕ → Addresses)
    (hex_encode : Bytes → Text) (hex_decode : Text → Option Bytes) (listing : Disk → List Text)
    (values : Dict Bytes InfoHash → List InfoHash) where
  -- A line of the terminal. `ends` is how the connections end that a download starts at this line.
  pub record Line : Type 0 where
    pub text : Text
    pub meanwhile : World C → World C
    pub ends : Started → TaskEnd

  abbrev pub line_end : Line
  line_end = record { text = []; meanwhile = λ w. w; ends = λ handle. returns }

  abbrev pub read_line : Line → Act C Text
  read_line line w = (ok line.text, line.meanwhile w)

  -- A result, or the panic of the prompt.
  abbrev pub outcome : {A : Type 0} → Outcome Failure A → Act C A
  outcome r w = (r, w)

  -- The command `r`.
  unfoldable pub request : TorrentClient → Line → Act C Then
  request torrent_client answer = do
    files ← get_server_files sha1 C
    input ← read_line answer
    if eqb (trim input) (codes "q") then pure C goes_on_past else (do
      file_requested ← outcome (choose input files)
      waited ← file_request sha1 C torrent_client sockets answer.ends file_requested
      pure C (then_of waited))

  -- The command `d`: `values` is the order in which a walk over the map of records comes to them.
  unfoldable pub removal : TorrentClient → Line → Act C Then
  removal torrent_client answer = do
    files ← λ w. on_disk C (get_info_hashes sha1 hex_encode hex_decode (listing w.disk)) w
    input ← read_line answer
    file_requested ← outcome (choose input (values files))
    delete_file sha1 C torrent_client file_requested
    pure C goes_on_past

  unfoldable pub command : TorrentClient → Text → Line → Act C Then
  command torrent_client input answer =
      if eqb (trim input) (codes "s")
      then pure C spawns
      else if eqb (trim input) (codes "r")
      then request torrent_client answer
      else if eqb (trim input) (codes "d")
      then removal torrent_client answer
      else if eqb (trim input) (codes "exit")
      then (do remove_client sha1 C torrent_client; pure C leaves)
      else pure C goes_on

  abbrev pub after : Then → (ℕ → Act C Prompt) → (ℕ → Act C Prompt) → ℕ → Act C Prompt
  after spawns rest past tasks = rest (tasks + 1)
  after leaves rest past tasks = pure C (left tasks)
  after never_returns rest past tasks = pure C (downloads tasks)
  after goes_on rest past tasks = rest tasks
  after goes_on_past rest past tasks = past tasks

  -- The loop of `main`, which has started so many tasks.
  unfoldable pub main_loop : TorrentClient → List Line → ℕ → Act C Prompt
  main_loop torrent_client [] tasks = pure C (waits tasks)
  main_loop torrent_client (line ∷ []) tasks = do
    input ← read_line line
    next ← command torrent_client input line_end
    after next (λ n. pure C (waits n)) (λ n. pure C (waits n)) tasks
  main_loop torrent_client (line ∷ answer ∷ lines) tasks = do
    input ← read_line line
    next ← command torrent_client input answer
    after next (main_loop torrent_client (answer ∷ lines)) (main_loop torrent_client lines) tasks

  -- `main`, behind the set-up of its cryptography. `found` are the files at the start.
  unfoldable pub main : List Text → List Line → Act C Prompt
  main found lines = do
    torrent_client ← new sha1 C hex_encode hex_decode found
    main_loop torrent_client lines 0
