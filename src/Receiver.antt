-- ===== src/Receiver.antt =====
-- The OBS receiver for Windows, pc/src and pc/include/local_camera_receiver.
pub mod Queue
pub mod Bytes
pub mod Config
pub mod Credential
pub mod Store
pub mod TsGroup
pub mod StreamId
pub mod Status
pub mod Control
pub mod Listener
pub mod Sink
pub mod Pairing
pub mod Network
pub mod Link
pub mod Source
pub mod Window
