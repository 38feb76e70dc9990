-- ===== src/Assembler/Requests.antt =====
-- `send_requests`: where the requests of a download go.
use bear_torrent_final_proje.Base.{
  ℕ, zero, suc, ◌+◌, ◌%◌, ◌<◌, ◌≡◌, refl, Bool, true, some, List, [], ◌∷◌, ok, panicked, arith,
  length, get_elem?, get_elem?-some,
}
use native.Mathlib.Nat.{mod-lt}
use bear_torrent_final_proje.Proto.{Bytes, InfoHash}
use bear_torrent_final_proje.Message.{Message}
use bear_torrent_final_proje.Assembler.{request_for, initial_requests}

module _ {Tx : Type 0} (deliver : Tx → Message → Bool) (txs : List Tx) (h : InfoHash)
    (hash : Bytes) where
  -- The request `j` places after piece `i`.
  abbrev IsSpread : ℕ → List (Tx × Message) → ℕ → Type 0
  IsSpread i sent j =
      (tx : Tx) × (get_elem? txs ((i + j) % length txs) ≡ some tx)
      × (get_elem? sent j
          ≡ some (tx, request_for h.piece_length hash ((i + j) % length txs) (i + j)))

  initial_requests-suc :
      (pieces i : ℕ) (tx : Tx)
      → 0 < length txs
      → ((tx : Tx) (msg : Message) → deliver tx msg ≡ true)
      → get_elem? txs (i % length txs) ≡ some tx
      → let (ends, sent) = initial_requests deliver (λ i. txs) h hash (length txs) pieces (i + 1) in
        initial_requests deliver (λ i. txs) h hash (length txs) (suc pieces) i
        ≡ (ends, (tx, request_for h.piece_length hash (i % length txs) i) ∷ sent)
  unfolding initial_requests
  initial_requests-suc pieces i tx some_tx all e =
      ground (arith, all tx (request_for h.piece_length hash (i % length txs) i))

  IsSpread-suc :
      (i : ℕ) (tx : Tx) (sent : List (Tx × Message)) (pieces : ℕ)
      → get_elem? txs (i % length txs) ≡ some tx
      → ((j : ℕ) → j < pieces → IsSpread (i + 1) sent j)
      → (j : ℕ) → j < suc pieces
      → IsSpread i ((tx, request_for h.piece_length hash (i % length txs) i) ∷ sent) j
  IsSpread-suc i tx sent pieces e spread zero l = (tx, ground arith, ground arith)
  IsSpread-suc i tx sent pieces e spread (suc j) l =
      let same : i + 1 + j ≡ i + suc j = omega arith in rw same at (spread j (omega arith))

  pub initial_requests-from :
      (pieces i : ℕ)
      → 0 < length txs
      → ((tx : Tx) (msg : Message) → deliver tx msg ≡ true)
      → let (ends, sent) = initial_requests deliver (λ i. txs) h hash (length txs) pieces i in
        (ends ≡ ok tt) × (length sent ≡ pieces) × ((j : ℕ) → j < pieces → IsSpread i sent j)
  unfolding initial_requests
  initial_requests-from zero i some_tx all = (refl, refl, λ j l. elim l [ ])
  initial_requests-from (suc pieces) i some_tx all =
      let (tx, e) = get_elem?-some txs (i % length txs) (mod-lt i some_tx) in
      let (ends, count, spread) = initial_requests-from pieces (i + 1) some_tx all in
      rw (initial_requests-suc pieces i tx some_tx all e)
        (ends, ground (arith, count), IsSpread-suc i tx _ pieces e spread)

  -- Every piece is requested once, in order, piece `j` from the connection `j` modulo their number,
  -- if the assembler has a connection and each of them takes its requests.
  pub initial_requests-spread :
      (pieces j : ℕ)
      → 0 < length txs
      → ((tx : Tx) (msg : Message) → deliver tx msg ≡ true)
      → j < pieces
      → let (ends, sent) = initial_requests deliver (λ i. txs) h hash (length txs) pieces 0 in
        (ends ≡ ok tt)
        × (length sent ≡ pieces)
        × ((tx : Tx) × (get_elem? txs (j % length txs) ≡ some tx)
            × (get_elem? sent j ≡ some (tx, request_for h.piece_length hash (j % length txs) j)))
  initial_requests-spread pieces j some_tx all l =
      let (ends, count, spread) = initial_requests-from pieces 0 some_tx all in
      let same : 0 + j ≡ j = omega arith in (ends, count, rw same at (spread j l))

  -- With no connection, a download of a file with pieces ends in a panic before any request.
  pub initial_requests-no_connection :
      (pieces : ℕ) (i : ℕ)
      → 0 < pieces
      → initial_requests deliver (λ i. txs) h hash 0 pieces i ≡ (panicked, [])
  unfolding initial_requests
  initial_requests-no_connection zero i l = elim l [ ]
  initial_requests-no_connection (suc pieces) i l = refl
