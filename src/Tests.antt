-- ===== src/Tests.antt =====
-- The theorems applied to small concrete messages, disks and histories.
pub mod Wire
pub mod Service
pub mod Storage
pub mod Download
pub mod Relaying
pub mod Transfers
pub mod OverRelay
pub mod Systems
pub mod Prompts
pub mod Sample
pub mod Hex
pub mod Records
pub mod Connections
pub mod Clients
pub mod Sharing
