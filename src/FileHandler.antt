-- ===== src/FileHandler.antt =====
-- client/src/file_handler.rs: the files of a client and the pieces of a download.
pub mod Disk
pub mod Pieces
pub mod Store
pub mod Progress
pub mod Views
pub mod PieceWrite
pub mod Build
pub mod Download
pub mod Finish
pub mod Reading
pub mod Hashes
pub mod Seeding
pub mod Cache
pub mod Records
pub mod Coverage
