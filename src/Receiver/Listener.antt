-- ===== src/Receiver/Listener.antt =====
-- pc/src/srt_listener.cpp: the listener's thread as a machine. SRT, the clock, the pipe's sink and the
-- video decoder are parameters: each event carries what the calls of one round answer.
pub mod State
pub mod Steps
pub mod Encryption
pub mod Options
pub mod Invariant
pub mod Admission
