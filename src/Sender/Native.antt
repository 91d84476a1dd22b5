-- ===== src/Sender/Native.antt =====
-- mobile/app/src/main/cpp/native_sender.{h,cpp}: the sender that owns the muxer, the queue and the thread
-- that sends over SRT. SRT and the waiting are parameters.
pub mod Config
pub mod State
pub mod Media
pub mod Worker
pub mod Staging
pub mod Retries
pub mod Exhaustion
pub mod Connect
