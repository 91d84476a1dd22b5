-- ===== src/Lib.antt =====
-- A verification library for the native code of android2pc-stream, which sends a phone's camera to a PC:
-- the Android sender (mobile/app/src/main/cpp) and the OBS receiver (pc/src, pc/include). The sender cuts
-- encoded frames into an MPEG transport stream, queues it and sends it over SRT. The receiver lets paired
-- phones in, tests each payload, queues it and writes it into a named pipe that OBS decodes.
--
-- Parts and files:
-- Prelude holds the shared names: tests and conditionals, lists, options, texts as character codes, words
--   (Prelude/Bits) and signed integers (Prelude/Int). Packets and Platform hold what several parts share:
--   packets and std::size_t, and the operating systems' text and address functions as parameters.
-- Sender/Queue is mobile/app/src/main/cpp/bounded_packet_queue.{h,cpp}: BoundedPacketQueue.
-- Sender/Muxer is mpeg_ts_muxer.{h,cpp} beside it: State the fields, clocks and counters; Crc and Adts the
--   checksum and the audio header; Tables, Pes and Write emit_tables, emit_pes, group_packets, write_video
--   and write_audio. Psi, Packet, Loop, Unit, Stamp and Adts/Header read its bytes back; Sender/Demux is
--   the independent reader that they use.
-- Sender/Native is native_sender.{h,cpp} beside it: Config the configuration and its test, State the
--   fields, start and stop, Media write_video and write_audio, Worker the rounds of worker_main, Connect
--   connect_socket, whose end is an argument of a round.
-- Receiver/Bytes, Receiver/Config, Receiver/Credential and Receiver/Pairing are
--   pc/src/credential_codec.cpp and receiver_config.hpp: integers and strings, validate_config,
--   serialize_config and deserialize_config, new_uuid and percent_encode.
-- Receiver/Link is the rest of that file, generate_config and build_pairing_payload, with a reader of the
--   pairing link; Base64 is its base64url, which srt_listener.cpp and native_sender.cpp have too.
-- Receiver/Store is pc/src/credential_store.cpp.
-- Receiver/Network is pc/src/network_addresses.cpp and network_addresses.hpp.
-- Receiver/Queue is pc/src/bounded_packet_queue.cpp, Receiver/Sink is pc/src/named_pipe_sink.cpp.
-- Receiver/Listener, Receiver/TsGroup and Receiver/Status are pc/src/srt_listener.{cpp,hpp}, with the
--   options of its socket in Listener/Options; Srt is the vocabulary of socket options that both ends
--   share; Receiver/Status/Text is receiver_status_text.hpp, Receiver/StreamId is device_stream_id.hpp.
-- Receiver/Control is pairing_control_protocol.hpp and pairing_launch.hpp.
-- Receiver/Source is pc/src/receiver_source.cpp: the source with its constructor, its settings and its
--   audio; Watch the rounds of watch_config with the destructor, Watching the events that reach a source.
--   It drives Receiver/Store, Receiver/Listener and Receiver/Sink.
-- Sender/Bridge is mobile/app/src/main/cpp/jni_bridge.cpp: the registry of senders and the native calls.
-- Receiver/Window is pc/src/pairing_app.cpp: load_or_create_config and create_pairing_qr; Messages the
--   window's making and window_proc. It drives Receiver/Network, Receiver/Link and Receiver/Store, and its
--   status comes from Receiver/Source by Receiver/Control.
-- Grouping and Delivery follow a frame from the muxer's entry points to the receiver's test. Session puts
--   the calls of the encoders, the worker's rounds, starts and stops in one sequence, and
--   Session/Application does so for every sender of the registry, under any calls of the application.
-- Agreement relates the sender's options, the listener's and the link.
-- Checks holds the concrete inputs.
--
-- State is passed explicitly: an operation takes the state and returns it with the result, and a method
-- under a mutex is one such function. The worker threads, the thread that watches the
-- configuration and the window are machines: an event, a round or a message carries what the calls of SRT,
-- of the clock, of the pipe or of the system answer, and calls from other threads come between the rounds.
-- Bytes are numbers below 256, texts are lists of them; words keep their wrap-around; std::size_t
-- has 64 bits. A std::int64_t time is an integer without a bound, and so is the jlong that counts the
-- handles.
--
-- Fuel: the loop of emit_pes has the length of the PES packet as fuel, and each round copies a byte at
-- least. std::to_string has twenty digits, which every std::uint64_t fits. The loop of base64url has as
-- many rounds as there are bits, of which a round takes six. percent_decode has the length of the text.
-- The other loops are structural.
--
-- Not modelled: the painting and the launch of the pairing window, the life of its pipe server, the
-- registration with OBS and the lookup of its functions, the Kotlin application, and vendored code, whose
-- calls are parameters.
pub mod Prelude
pub mod Packets
pub mod Platform
pub mod Base64
pub mod Srt
pub mod Sender
pub mod Receiver
pub mod Grouping
pub mod Delivery
pub mod Session
pub mod Agreement
pub mod Checks
