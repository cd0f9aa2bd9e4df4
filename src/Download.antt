-- ===== src/Download.antt =====
-- src/download: what is exchanged with a peer.
pub mod Util
pub mod Bitfield
pub mod Message
pub mod Socket
pub mod Downloader
mod Examples
