-- ===== src/Assembler/Cancels.antt =====
-- What a `Cancel` does to the connections of `reassemble_loop`.
use bear_torrent_final_proje.Base.{
  Bool, true, ℕ, zero, suc, ◌+◌, ◌<◌, ◌≡◌, List, [], ◌∷◌, panicked, arith, length, remove_at,
}
use bear_torrent_final_proje.Base.Words.{wrapping_pred, u64_mod}
use bear_torrent_final_proje.Proto.{Bytes, InfoHash}
use bear_torrent_final_proje.Message.{Message, request, piece, cancel}
use bear_torrent_final_proje.Assembler.{
  Assembly, on_cancel, on_piece, accept, verify, on_message, reassemble_loop,
}

length-remove_at {ℓ} :
    {A : Type ℓ} (xs : List A) (i : ℕ) → i < length xs → length (remove_at xs i) + 1 ≡ length xs
length-remove_at [] i l = elim l [ ]
length-remove_at (x ∷ xs) zero l = omega arith
length-remove_at (x ∷ xs) (suc i) l = omega (arith, length-remove_at xs i (omega arith))

module _ {Tx : Type 0} where
  -- The count of connections is the number of senders.
  abbrev pub Synced : Assembly Tx → Type 0
  Synced s = (s.num_connections ≡ length s.request_txs) × (length s.request_txs < u64_mod)

  module _ (sha1 : Bytes → Bytes) (h : InfoHash) (resends : Message → Bool) where
    accept-keeps :
        (s : Assembly Tx) (i : ℕ) (block : Bytes)
        → let s' = (accept sha1 h resends s i block).1 in
          (s'.num_connections ≡ s.num_connections) × (s'.request_txs ≡ s.request_txs)
    unfolding accept
    accept-keeps s i block = ground arith

    on_piece-keeps :
        (s : Assembly Tx) (i : ℕ) (block : Bytes)
        → let s' = (on_piece sha1 h resends s i block).1 in
          (s'.num_connections ≡ s.num_connections) × (s'.request_txs ≡ s.request_txs)
    unfolding on_piece verify
    on_piece-keeps s i block = ground (arith, accept-keeps s i block)

    on_cancel-Synced :
        (s : Assembly Tx) (seeder index begin len : ℕ)
        → Synced s
        → Synced (on_cancel sha1 h resends s seeder index begin len).1
    unfolding on_cancel
    on_cancel-Synced s seeder index begin len v =
        ground (arith, wrapping_pred s.num_connections, length-remove_at s.request_txs seeder)

    -- If the count of connections is the number of senders, and below 2 ^ 64, it still is after
    -- any message.
    pub on_message-Synced :
        (s : Assembly Tx) (msg : Message) → Synced s → Synced (on_message sha1 h resends s msg).1
    unfolding on_message
    on_message-Synced s (piece i block) v = ground (arith, on_piece-keeps s i block)
    on_message-Synced s (cancel seeder index begin len) v =
        on_cancel-Synced s seeder index begin len v
    on_message-Synced s (request seeder index begin len hash) v = v

    -- If the resend channel has its receiver and the count of connections is the number of
    -- senders: after the cancel of a connection that is not the last, a cancel of the last one, by
    -- the number that its request carried, ends the task in a panic.
    pub reassemble_loop-two_cancels :
        (s : Assembly Tx) (a b i j begin len : ℕ) (msgs : List Message)
        → ((msg : Message) → resends msg ≡ true)
        → Synced s
        → a < b
        → b + 1 ≡ length s.request_txs
        → (reassemble_loop sha1 h resends (cancel a i begin len ∷ cancel b j begin len ∷ msgs) s).0
          ≡ panicked
    unfolding reassemble_loop on_message on_cancel
    reassemble_loop-two_cancels s a b i j begin len msgs takes v l last = ground (
      arith,
      takes (cancel a i begin len),
      wrapping_pred s.num_connections,
      length-remove_at s.request_txs a,
    )
