-- ===== src/Assembler/System/Finishing.antt =====
-- That a download can always go on to its end.
use bear_torrent_final_proje.Base.{
  ℕ, zero, suc, ◌+◌, ◌<◌, ◌≤◌, ◌≡◌, inr, refl, sym, ◌∙◌, ap, Bool, true, false, none, some, List,
  [], ◌∷◌, ◌++◌, ok, err, panicked, length, arith, All, map, get_elem?, ◌%◌, ◌*◌,
}
use mathlib.Core.List.{append_assoc, append-nil}
use bear_torrent_final_proje.Proto.{Bytes, InfoHash}
use bear_torrent_final_proje.Message.{Message}
use bear_torrent_final_proje.FileHandler.Disk.{content_of, has_slash, has_dir}
use bear_torrent_final_proje.FileHandler.Store.{file_path, part_path, info_path, files_dir}
use bear_torrent_final_proje.FileHandler.Download.{IsCut}
use bear_torrent_final_proje.FileHandler.Seeding.{Wanted, wanted_request}
use bear_torrent_final_proje.Base.Words.{u32_mod}
use bear_torrent_final_proje.Assembler.Transfer.{index_fits}
use bear_torrent_final_proje.Assembler.Requests.{initial_requests-spread}
use bear_torrent_final_proje.Assembler.System.Starting.{start_requesting-initial_requests}
use bear_torrent_final_proje.Assembler.{
  initial_requests, request_for, Assembly, next, finished, on_message, proceed, reassemble_loop,
}
use bear_torrent_final_proje.Assembler
use bear_torrent_final_proje.Assembler.Rounds.{Arrival, genuine, message_of, AllArrivals, IsHashed}
use bear_torrent_final_proje.Assembler.Reassembly.{brings, reassemble_loop-from}
use bear_torrent_final_proje.Assembler.System.{
  waiting, resending, start_requesting, Download, begun, listening, Step, Steps, here, later, Runs,
  arrives, takes, reassemble, after_round,
}
use bear_torrent_final_proje.Assembler.System.Safety.{MayBring, Runs-IsSafe, begun-IsSafe}

-- The pieces of a file from piece `i` on.
abbrev pieces_from : ℕ → ℕ → List Arrival
pieces_from zero i = []
pieces_from (suc left) i = genuine i ∷ pieces_from left (i + 1)

brings-pieces_from : (left i j : ℕ) → i ≤ j → j < i + left → brings (pieces_from left i) j ≡ true
unfolding brings
brings-pieces_from zero i j a b = absurd (omega arith)
brings-pieces_from (suc left) i j a b = ground (arith, brings-pieces_from left (i + 1) j)

module _ {Tx : Type 0} (sha1 : Bytes → Bytes) (h : InfoHash) (hash : Bytes)
    (Brings : Message → Type 0) (num_connections : ℕ) where
  abbrev pub Goes : Download Tx → Download Tx → Type 0
  Goes = Steps sha1 h hash Brings num_connections

  Goes-trans : {s t u : Download Tx} → Goes s t → Goes t u → Goes s u
  Goes-trans r here = r
  Goes-trans r (later q st) = later (Goes-trans r q) st

  arrive_all :
      (msgs : List Message) (s : Download Tx)
      → All Brings msgs
      → Goes s (record s { inbox = s.inbox ++ msgs })
  arrive_all [] s b = rw (append-nil s.inbox) here
  arrive_all (msg ∷ msgs) s b =
      let s' : Download Tx = record s { inbox = s.inbox ++ msg ∷ [] } in
      Goes-trans (later here (arrives msg b.0))
        (rw (append_assoc s.inbox (msg ∷ []) msgs) at (arrive_all msgs s' b.1))

  -- The task of the reassembly can end without an error, with this result.
  abbrev EndsWith : Download Tx → Assembly Tx → Type 0
  EndsWith s a = (t : Download Tx) × Goes s t × (t.reassembly ≡ some (ok tt)) × (t.assembly ≡ a)

  taken :
      (s : Download Tx) (msg : Message) (msgs : List Message) (r : Assembler.Step Tx)
      → s.reassembly ≡ none
      → s.inbox ≡ msg ∷ msgs
      → on_message sha1 h (λ resend. listening s.phase) s.assembly msg ≡ r
      → Goes s (after_round sha1 h hash (record s { inbox = msgs }) r)
  taken s msg msgs r none_yet i e =
      let same : reassemble sha1 h hash msg msgs s
          ≡ after_round sha1 h hash (record s { inbox = msgs }) r =
        unfold reassemble in rw e refl in
      let step : Step sha1 h hash Brings num_connections s (reassemble sha1 h hash msg msgs s) =
        takes msg msgs none_yet i in
      let one : Goes s (reassemble sha1 h hash msg msgs s) = later here step in rw same at one

  module _ (resends : Message → Bool) where
    take_round :
        (s : Download Tx) (msg : Message) (msgs : List Message) (r : Assembler.Step Tx)
        → s.reassembly ≡ none
        → s.inbox ≡ msg ∷ msgs
        → resends ≡ (λ resend. listening s.phase)
        → on_message sha1 h resends s.assembly msg ≡ r
        → ((s' : Download Tx)
            → s'.reassembly ≡ none
            → s'.inbox ≡ msgs
            → s'.phase ≡ s.phase
            → (reassemble_loop sha1 h resends msgs s'.assembly).0 ≡ ok tt
            → EndsWith s' (reassemble_loop sha1 h resends msgs s'.assembly).2)
        → let (ends, resend, a) =
            proceed sha1 h resends r (λ a. reassemble_loop sha1 h resends msgs a) in
          ends ≡ ok tt → EndsWith s a
    take_round s msg msgs (ok finished, a) none_yet i p e more done =
        (_, taken s msg msgs (ok finished, a) none_yet i (rw p at e), ap some done, refl)
    take_round s msg msgs (ok (next resend), a) none_yet i p e more done =
        let s' : Download Tx = record s {
          inbox = msgs;
          assembly = a;
          resends = s.resends ++ resend;
        } in
        let (t, g, ends, same) = more s' none_yet refl refl done in
        (
          t,
          Goes-trans (taken s msg msgs (ok (next resend), a) none_yet i (rw p at e)) g,
          ends,
          same,
        )
    take_round s msg msgs (err x, a) none_yet i p e more done = absurd cc
    take_round s msg msgs (panicked, a) none_yet i p e more done = absurd cc

    -- What `reassemble_loop` does to the messages of the channel, the steps of the task do as well.
    take_all :
        (msgs : List Message) (s : Download Tx)
        → resends ≡ (λ resend. listening s.phase)
        → s.reassembly ≡ none
        → s.inbox ≡ msgs
        → (reassemble_loop sha1 h resends msgs s.assembly).0 ≡ ok tt
        → EndsWith s (reassemble_loop sha1 h resends msgs s.assembly).2
    unfolding reassemble_loop
    take_all [] s p none_yet i done = absurd cc
    take_all (msg ∷ msgs) s p none_yet i done =
        take_round s msg msgs (on_message sha1 h resends s.assembly msg) none_yet i p refl
          (λ s' none_then i' same.
            take_all msgs s' (p ∙ ap (λ phase resend. listening phase) (sym same)) none_then i')
          done

module _ (sha1 : Bytes → Bytes) (h : InfoHash) (content : Bytes) where
  pieces-AllArrivals :
      (left i : ℕ) → i + left ≤ length h.pieces → AllArrivals sha1 h content (pieces_from left i)
  pieces-AllArrivals zero i l = tt
  pieces-AllArrivals (suc left) i l =
      (omega (arith, l), pieces-AllArrivals left (i + 1) (omega (arith, l)))

  -- The piece of the file that is asked for by one of the requests that were sent.
  abbrev pub Answers : {Tx : Type 0} → Bytes → List (Tx × Message) → Message → Type 0
  Answers {Tx} hash sent msg =
      (j : ℕ) × (tx : Tx) × (w : Wanted) × (get_elem? sent j ≡ some (tx, wanted_request hash w))
      × (msg ≡ message_of h content (genuine w.index))

  module _ (cut : IsCut h content) {Tx : Type 0} (hash : Bytes) (sent : List (Tx × Message)) (n : ℕ)
      (asked : (j : ℕ)
        → j < length h.pieces
        → (tx : Tx) × (get_elem? sent j
            ≡ some (tx, request_for h.piece_length hash (j % n) j))) where
    piece-Answers :
        (j : ℕ) → j < length h.pieces → Answers hash sent (message_of h content (genuine j))
    unfolding request_for
    piece-Answers j l =
        let (tx, e) = asked j l in
        let fits = index_fits sha1 h content hash cut j l in
        (
          j,
          tx,
          record {
            seeder = j % n % u32_mod;
            index = j % u32_mod;
            begin = h.piece_length * (j % u32_mod) % u32_mod;
            len = h.piece_length;
          },
          e,
          ap (λ k. message_of h content (genuine k)) (sym fits),
        )

    pieces-Answers :
        (left i : ℕ)
        → i + left ≤ length h.pieces
        → All (Answers hash sent) (map (message_of h content) (pieces_from left i))
    pieces-Answers zero i l = tt
    pieces-Answers (suc left) i l =
        (piece-Answers i (omega (arith, l)), pieces-Answers left (i + 1) (omega (arith, l)))

module _ (sha1 : Bytes → Bytes) (h : InfoHash) (content : Bytes) {Tx : Type 0}
    (plain : has_slash h.name ≡ false) (cut : IsCut h content) (hashed : IsHashed sha1 h content)
    (hash : Bytes) (num_connections : ℕ) where
  -- A start in time lets a download finish, on nothing but the answers to its requests. Take a
  -- download as in `Runs-IsSound`, in any state that it can come into in which its task of the
  -- requests waits for the start, nothing has been sent, no message waits for `reassemble_loop` and
  -- that still runs; there is at least one connection, and each takes its requests. If
  -- `start_requesting` is called then, there are steps in which no message comes, after them steps in
  -- which the connections bring only pieces of the file that a sent request asks for, and at their
  -- end `reassemble_loop` has ended without an error and the finished file has exactly the file's
  -- content.
  pub start_requesting-Steps :
      (a : Assembly Tx) (s : Download Tx) (deliver : Tx → Message → Bool)
      → 0 < length h.pieces
      → content_of a.disk (part_path h.name) ≡ none
      → content_of a.disk (info_path h.name) ≡ none
      → content_of a.disk (file_path h.name) ≡ none
      → has_dir a.disk.dirs files_dir ≡ true
      → Runs sha1 h hash (MayBring sha1 h content) num_connections (begun a) s
      → s.phase ≡ waiting
      → s.sent ≡ []
      → s.reassembly ≡ none
      → s.inbox ≡ []
      → num_connections ≡ length s.assembly.request_txs
      → 0 < num_connections
      → ((tx : Tx) (msg : Message) → deliver tx msg ≡ true)
      → (u t : Download Tx) × Steps sha1 h hash (λ msg. ⊥) num_connections (start_requesting s) u
        × Steps sha1 h hash (Answers sha1 h content hash u.sent) num_connections u t
        × (t.reassembly ≡ some (ok tt))
        × (content_of t.assembly.disk (file_path h.name) ≡ some content)
  start_requesting-Steps a s deliver n p i f d r wait unsent none_yet empty same_count some_tx all =
      let v =
        Runs-IsSafe sha1 h content plain cut hashed hash num_connections
          (begun-IsSafe sha1 h content plain cut hashed hash num_connections a n p i f d) r in
      let under_way = rw none_yet at v.sound in
      let txs = s.assembly.request_txs in
      let run =
        initial_requests deliver (λ round. txs) h hash num_connections (length h.pieces) 0 in
      let spread : (j : ℕ)
          → j < length h.pieces
          → (tx : Tx) × (get_elem? run.1 j
              ≡ some (tx, request_for h.piece_length hash (j % num_connections) j)) =
        λ j l.
          let (ends, count, (tx, found, asked)) =
            initial_requests-spread deliver txs h hash (length h.pieces) j
              (omega (arith, same_count, some_tx)) all l in
          (tx, rw same_count asked) in
      let u : Download Tx = record s { phase = resending 0; sent = s.sent ++ run.1 } in
      let go_out =
        start_requesting-initial_requests sha1 h hash (λ msg. ⊥) num_connections s deliver wait
          same_count some_tx all in
      let arrivals = pieces_from (length h.pieces) 0 in
      let msgs = map (message_of h content) arrivals in
      let u' : Download Tx = record u { inbox = u.inbox ++ msgs } in
      let Brings = Answers sha1 h content hash u.sent in
      let come = arrive_all sha1 h hash Brings num_connections msgs u (
        rw unsent (
          pieces-Answers sha1 h content cut hash run.1 num_connections spread (length h.pieces) 0
            (omega arith))) in
      let built =
        reassemble_loop-from sha1 h content (λ resend. true) (λ msg. refl) plain cut arrivals
          s.assembly hashed (pieces-AllArrivals sha1 h content (length h.pieces) 0 (omega arith))
          under_way.0 under_way.1
          (λ j l.
            inr (brings-pieces_from (length h.pieces) 0 j (omega arith) (omega (arith, l)))) in
      let (t, go, ends, same) =
        take_all sha1 h hash Brings num_connections (λ resend. true) msgs u' refl none_yet
          (rw empty refl) built.0 in
      (u, t, go_out, Goes-trans sha1 h hash Brings num_connections come go, ends, rw same built.2)
