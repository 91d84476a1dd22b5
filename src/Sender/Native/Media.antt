-- ===== src/Sender/Native/Media.antt =====
-- NativeSender::write_video and write_audio: an access unit is muxed into a copy, which is kept only if
-- the queue takes the whole batch.
use android2pc_stream.Prelude.{ℕ, Bool, true, false, not, ◌||◌, List, [], is_empty, if◌then◌else◌}
use android2pc_stream.Prelude.Int.{ℤ, is_negative}
use android2pc_stream.Packets.{PacketBatch}
use android2pc_stream.Sender.Queue.{push_batch}
use android2pc_stream.Sender.Muxer.State.{Muxer, reset}
use android2pc_stream.Sender.Muxer.Write
use android2pc_stream.Sender.Native.State.{Sender, SenderStatus, SenderError}

-- The states in which both functions refuse every unit.
abbrev pub is_terminal : SenderStatus → Bool
is_terminal SenderStatus.stopped = true
is_terminal SenderStatus.failed = true
is_terminal SenderStatus.authentication_failed = true
is_terminal _ = false

-- The states in which video is dropped.
abbrev pub is_connecting : SenderStatus → Bool
is_connecting SenderStatus.connecting = true
is_connecting SenderStatus.reconnecting = true
is_connecting _ = false

abbrev pub is_connected : SenderStatus → Bool
is_connected SenderStatus.connected = true
is_connected _ = false

-- The end of both functions: the batch of the staged muxer goes in whole, or not at all.
unfoldable pub commit : Sender → Muxer × PacketBatch × Bool → Bool → Sender × Bool
commit s (staged, packets, muxed) started =
    let (queue, queued) = push_batch s.queue packets in
    if not muxed
    then (record s { error = SenderError.mux }, false)
    else if not queued
    then (record s { error = SenderError.backpressure }, false)
    else (record s { queue = queue; muxer = staged; video_started = started }, true)

-- The part of `write_video` under the muxer's mutex; `begun` is `video_started_`.
unfoldable pub mux_video : Sender → Bool → List ℕ → ℤ → Bool → Sender × Bool
unfolding commit
mux_video s true access_unit time key_frame =
    commit s (Write.write_video s.muxer access_unit time key_frame []) true
mux_video s false access_unit time key_frame =
    if not key_frame
    then (record s { status = SenderStatus.needs_key_frame }, false)
    else (let origin = record s { muxer = reset s.muxer time } in
        commit origin (Write.write_video origin.muxer access_unit time key_frame []) true)

unfoldable pub write_video : Sender → List ℕ → ℤ → Bool → Sender × Bool
unfolding mux_video
write_video s access_unit time key_frame =
    if s.stopping || is_terminal s.status || is_negative time || is_empty access_unit
    then (s, false)
    else if is_connecting s.status
    then (s, true)
    else mux_video s s.video_started access_unit time key_frame

unfoldable pub write_audio : Sender → List ℕ → ℤ → Sender × Bool
unfolding commit
write_audio s access_unit time =
    if s.stopping || is_terminal s.status || is_negative time || is_empty access_unit
    then (s, false)
    else if not (is_connected s.status)
    then (s, true)
    else if not s.video_started
    then (s, true)
    else commit s (Write.write_audio s.muxer access_unit time []) true
