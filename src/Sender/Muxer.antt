-- ===== src/Sender/Muxer.antt =====
-- mobile/app/src/main/cpp/mpeg_ts_muxer.{h,cpp}: encoded video and audio into an MPEG transport stream.
pub mod Crc
pub mod Adts
pub mod State
pub mod Tables
pub mod Pes
pub mod Write
pub mod Packet
pub mod Loop
pub mod Psi
pub mod Unit
pub mod Stamp
