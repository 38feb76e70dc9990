-- ===== src/Lib.antt =====
-- BearTorrent: a peer-to-peer file sharing system. A server keeps track of clients and of the files
-- that they seed, and relays data between peers that cannot reach each other. A client asks the server
-- for the seeders of a file, requests pieces from all of them, checks the pieces, collects them on disk
-- and builds the file.
--
-- The modules and the code that they are about:
--   Base           no code: the shared names, lists over the native numbers, dictionaries, results
--                  (a value, an error or a panic), decimal numbers and machine words
--   Proto          protos/connection.proto: the messages of the RPC services
--   Message        client/src/message.rs: the messages between peers. Message.RoundTrip
--                  and Message.Totality are about encode and decode
--   FileHandler    client/src/file_handler.rs. Disk is the file system as a set of directories and a
--                  table of files; Pieces has the geometry and the hashes, Store the operations on the
--                  .part, .info and finished files, Cache the text of a .filecache file, Records
--                  InfoHash::new, get_info_hashes and delete_file. The other modules hold the proofs
--   Assembler      client/src/file_assembler.rs: send_requests (initial_requests, resend_loop) and
--                  reassemble_loop, with Requests, Rounds, Reassembly and Cancels; Setup has the
--                  constructor and subscribe_new_connection; Transfer and Sharing put the two tasks and
--                  the two ends of a connection together, OverRelay both ends of the relay. System has the
--                  two tasks as a step relation, with start_requesting and the resend channel; Safety, Finishing and Starting are
--                  about its states
--   TurnFallback   client/src/turn_fallback.rs: the seeder's loop (seeder_loop), the arms of the
--                  leecher's loop (to_assembler, to_relay) and make_session_id; Sides has
--                  start_seeding and start_leeching, Relayed puts them and the service of Turn
--                  together; Addresses and Ids are about session identifiers
--   Quic           client/src/quic_p2p_sender.rs: the seeder's loop (send_data) and the requester's
--                  (recv_data) over the streams of a connection; Quic.Endpoints has the making of a
--                  connection, Exchange and Failures the proofs
--   PeerConnection client/src/peer_connection.rs: hole_punch, seeder_connection and
--                  requester_connection, with PeerConnection.Routes and PeerConnection.Punching
--   TorrentClient  client/src/torrent_client.rs: the operations of TorrentClient. Rpc is the interface
--                  to the server, with the handlers of Server as its implementation (served), Sockets
--                  the addresses; the other modules hold the proofs
--   CommandLine    client/src/main.rs: the prompt (main_loop) with its commands; Choices is about the
--                  numbers of the options, Leaving and Selecting about the commands
--   Server         server/src/main.rs: ConnectionService. State is its six maps; Registry, Files and
--                  Signals have the handlers under their names; Run has histories of calls, and
--                  Run.Directory what the service promises without its maps, which Run.Spec compares
--   Turn           server/src/turn.rs: sessions, register (up to the barrier) and send
--   Tests          the theorems at concrete inputs
--
-- How the code is modelled. Arithmetic is that of a release build on a 64-bit machine: u32, u64 and
-- usize wrap around, written out as a remainder; an index out of range, a failed unwrap and a
-- remainder by zero are the result `panicked`. A handler of the server is a function from the state
-- and the request to the reply and the new state. A handler that sleeps or waits is cut there:
-- `poll` takes what the other calls do during each sleep as the argument `others`, and Server.Run
-- has one step for each part of a handler, so that a list of steps is an interleaving; two handlers
-- on two threads inside one such part are not modelled. A step of a download is the code of a task
-- between two waits. Streams and channels are the lists of what
-- they yield. A send on a channel asks the argument `deliver` whether the receiver is there.
--
-- Fuel: `poll` has the five rounds of the loop; `hash_loop` has one round more than the file has bytes;
-- `digits` has twenty rounds, and a u64 has at most twenty digits.
--
-- Parameters stand for the code that is not in the repository: the maps of `dashmap` with their
-- documented laws (the record DashMap; Server.Maps.table has them), the senders of `tokio`, the
-- identifiers that `uuid` draws, the hash of `sha1`, the codec of `hex` with its laws (Tests.Hex has
-- them), the streams and endpoints of `quinn`, and, for a connection, all that the network and the
-- server answer (the record Network). The listener's wait for a first packet has no time limit, so an
-- attempt can be silent (quic_listener gives none then), as the loop of the relay may never return; a
-- connection that stays in such a wait is `stays`, a prompt that waits for it `downloads`. The rounds
-- of hole punching have the times at which they look at their token as an argument, in milliseconds.
--
-- Not modelled: the start of the server, the channel from the client to the server, the bounds of the
-- channels (a full channel only makes its sender wait), what a task that seeds does beside the prompt
-- (the prompt takes it as an argument), and the generated code. Files that change under the program from outside, and file permissions, are not in the disk.
pub mod Base
pub mod CommandLine
pub mod Message
pub mod FileHandler
pub mod Assembler
pub mod Proto
pub mod Server
pub mod Turn
pub mod Tests
pub mod TurnFallback
pub mod Quic
pub mod PeerConnection
pub mod TorrentClient
