-- ===== src/Assembler/Setup.antt =====
-- client/src/file_assembler.rs: the assembler before its tasks start requesting. A channel of requests
-- goes by the number of its subscription.
use bear_torrent_final_proje.Base.{ℕ, List, [], ◌∷◌, ◌++◌, length}
use bear_torrent_final_proje.Proto.{InfoHash}

-- `FileAssembler`, without the handle that starts the requests.
pub record FileAssembler : Type 0 where
  pub file_hash : InfoHash
  pub num_connections : ℕ
  pub request_txs : List ℕ

-- `FileAssembler::new`
abbrev pub new_assembler : InfoHash → ℕ → FileAssembler
new_assembler file_hash num_connection = record {
  file_hash = file_hash;
  num_connections = num_connection;
  request_txs = [];
}

-- `subscribe_new_connection`: the receiver, and the assembler with the sender.
abbrev pub subscribe_new_connection : FileAssembler → ℕ × FileAssembler
subscribe_new_connection a =
    (length a.request_txs, record a { request_txs = a.request_txs ++ length a.request_txs ∷ [] })
