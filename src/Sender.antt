-- ===== src/Sender.antt =====
-- The Android sender's native code, mobile/app/src/main/cpp.
pub mod Queue
pub mod Demux
pub mod Muxer
pub mod Native
pub mod Bridge
