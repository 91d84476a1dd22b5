-- ===== src/Sender/Bridge.antt =====
-- mobile/app/src/main/cpp/jni_bridge.cpp: the handles that the Kotlin application holds, and the calls on them.
-- What Java passes is a parameter. A call is one step; the rounds of the workers come between calls, and
-- those that a call waits for are its argument.
pub mod Invariant
pub mod Handles
pub mod Creation
use android2pc_stream.Prelude.{
  ℕ, ◌+◌, ◌*◌, ◌≤◌, Bool, true, false, not, ◌&&◌, ◌||◌, Option, none, some, List, [], ◌∷◌, map,
  length, is_empty, replicate, ltb, leb, ◌==◌, if◌then◌else◌,
}
use android2pc_stream.Prelude.Int.{ℤ, pos, negsuc, is_number}
use android2pc_stream.Platform.{Platform}
use android2pc_stream.Sender.Muxer.State.{
  VideoCodec, maximum_video_access_unit_bytes, maximum_audio_access_unit_bytes,
}
use android2pc_stream.Sender.Native.Config.{SenderConfig, validate_config}
use android2pc_stream.Sender.Native.State
use android2pc_stream.Sender.Native.State.{
  Sender, SenderStatus, SenderError, new_sender, request_stop, finish_stop, queue_percent,
}
use android2pc_stream.Sender.Native.Media
use android2pc_stream.Sender.Native.Worker.{Round, run_worker}

-- `senders` and `next_handle`, which is a jlong in the source: its overflow is not modelled.
pub record Registry : Type 0 where
  pub senders : List (ℕ × Sender)
  pub next_handle : ℕ

abbrev pub empty_registry : Registry
empty_registry = record { senders = []; next_handle = 1 }

-- A handle may be any jlong; the keys are the handles that were given out.
unfoldable pub find : ℤ → List (ℕ × Sender) → Option Sender
find handle [] = none
find handle ((key, s) ∷ rest) = if is_number handle key then some s else find handle rest

unfoldable pub find_sender : Registry → ℤ → Option Sender
unfolding find
find_sender r handle = find handle r.senders

-- The sender of a handle is changed, by a call on it or by its worker.
unfoldable pub put : ℤ → Sender → List (ℕ × Sender) → List (ℕ × Sender)
put handle s [] = []
put handle s ((key, old) ∷ rest) =
    if is_number handle key then (key, s) ∷ rest else (key, old) ∷ put handle s rest

unfoldable pub erase : ℤ → List (ℕ × Sender) → List (ℕ × Sender)
erase handle [] = []
erase handle ((key, s) ∷ rest) = if is_number handle key then rest else (key, s) ∷ erase handle rest

-- A jstring: its bytes in modified UTF-8, which has no zero byte, and whether GetStringUTFChars gives them.
pub record JavaString : Type 0 where
  pub bytes : List ℕ
  pub available : Bool

unfoldable pub copy_utf8 : Option JavaString → ℕ → List ℕ
copy_utf8 none maximum_bytes = []
copy_utf8 (some value) maximum_bytes =
    if is_empty value.bytes || ltb maximum_bytes (length value.bytes)
    then []
    else if not value.available
    then []
    else value.bytes

-- A jbyteArray, and whether GetByteArrayRegion throws.
pub record JavaBytes : Type 0 where
  pub bytes : List ℕ
  pub throws : Bool

unfoldable pub copy_bytes : Option JavaBytes → ℕ → List ℕ
copy_bytes none maximum_bytes = []
copy_bytes (some value) maximum_bytes =
    if is_empty value.bytes || ltb maximum_bytes (length value.bytes)
    then []
    else if value.throws
    then []
    else value.bytes

-- The arguments of nativeCreate.
pub record CreateArguments : Type 0 where
  pub host : Option JavaString
  pub device_name : Option JavaString
  pub port : ℤ
  pub secret : Option JavaBytes
  pub latency_milliseconds : ℤ
  pub video_codec : ℤ
  pub audio_enabled : Bool
  pub audio_sample_rate : ℤ
  pub audio_channels : ℤ

-- `port >= 0 && port <= 65'535 ? port : 0`.
abbrev pub port_of : ℤ → ℕ
port_of (pos n) = if leb n 65535 then n else 0
port_of (negsuc n) = 0

abbrev pub secret_of : List ℕ → List ℕ
secret_of bytes = if length bytes == 32 then bytes else replicate 32 0

unfoldable pub config_of : CreateArguments → SenderConfig
unfolding copy_utf8 copy_bytes
config_of a = record {
  host = copy_utf8 a.host 15;
  device_name = copy_utf8 a.device_name 48;
  port = port_of a.port;
  secret = secret_of (copy_bytes a.secret 32);
  latency_milliseconds = a.latency_milliseconds;
  video_codec = if is_number a.video_codec 1 then VideoCodec.hevc else VideoCodec.avc;
  audio_enabled = a.audio_enabled;
  audio_sample_rate = a.audio_sample_rate;
  audio_channels = a.audio_channels;
}

abbrev pub codec_known : ℤ → Bool
codec_known codec = is_number codec 1 || is_number codec 2

-- The handle is 0 where no sender is made.
unfoldable pub native_create : Platform → Registry → CreateArguments → Registry × ℕ
native_create platform r a =
    if not (codec_known a.video_codec) || not (validate_config platform (config_of a))
    then (r, 0)
    else (
      record {
        senders = (r.next_handle, new_sender (config_of a)) ∷ r.senders;
        next_handle = r.next_handle + 1;
      },
      r.next_handle,
    )

-- NativeSender::stop, with the rounds that the worker still makes before it is joined.
unfoldable pub stop : Sender → List Round → Sender
stop s rounds = finish_stop (run_worker (request_stop s) rounds)

abbrev pub replace : Registry → ℤ → Sender → Registry
replace r handle s = record r { senders = put handle s r.senders }

-- A call that answers, on the sender of a handle; an unknown handle answers false.
abbrev pub on_sender : Registry → ℤ → Option Sender → (Sender → Sender × Bool) → Registry × Bool
on_sender r handle none call = (r, false)
on_sender r handle (some s) call =
    let (changed, answer) = call s in (replace r handle changed, answer)

unfoldable pub native_start : Platform → Registry → ℤ → Registry × Bool
native_start platform r handle = on_sender r handle (find_sender r handle) (State.start platform)

unfoldable pub native_stop : Registry → ℤ → List Round → Registry
native_stop r handle rounds =
    (on_sender r handle (find_sender r handle) (λ s. (stop s rounds, true))).0

abbrev stopped_of : Option Sender → List Round → Option Sender
stopped_of none rounds = none
stopped_of (some s) rounds = some (stop s rounds)

-- The sender is taken out of the registry and then stopped; it is returned as it is when it is freed.
unfoldable pub native_destroy : Registry → ℤ → List Round → Registry × Option Sender
native_destroy r handle rounds =
    (record r { senders = erase handle r.senders }, stopped_of (find_sender r handle) rounds)

-- The end of both write calls: an empty copy reaches no sender.
abbrev pub write_bytes : Registry → ℤ → List ℕ → (Sender → Sender × Bool) → Registry × Bool
write_bytes r handle [] call = (r, false)
write_bytes r handle (byte ∷ bytes) call = on_sender r handle (find_sender r handle) call

unfoldable pub native_write_video : Registry → ℤ → Option JavaBytes → ℤ → Bool → Registry × Bool
native_write_video r handle access_unit time key_frame =
    let bytes = copy_bytes access_unit maximum_video_access_unit_bytes in
    write_bytes r handle bytes (λ s. Media.write_video s bytes time key_frame)

unfoldable pub native_write_audio : Registry → ℤ → Option JavaBytes → ℤ → Registry × Bool
native_write_audio r handle access_unit time =
    let bytes = copy_bytes access_unit maximum_audio_access_unit_bytes in
    write_bytes r handle bytes (λ s. Media.write_audio s bytes time)

abbrev pub status_value : SenderStatus → ℕ
status_value SenderStatus.stopped = 0
status_value SenderStatus.connecting = 1
status_value SenderStatus.connected = 2
status_value SenderStatus.reconnecting = 3
status_value SenderStatus.authentication_failed = 4
status_value SenderStatus.failed = 5
status_value SenderStatus.needs_key_frame = 6

abbrev pub error_value : SenderError → ℕ
error_value SenderError.no_error = 0
error_value SenderError.invalid_configuration = 1
error_value SenderError.socket_configuration = 2
error_value SenderError.connection = 3
error_value SenderError.encryption_rejected = 4
error_value SenderError.send = 5
error_value SenderError.reconnect_exhausted = 6
error_value SenderError.mux = 7
error_value SenderError.backpressure = 8

abbrev status_of : Option Sender → ℕ
status_of none = status_value SenderStatus.stopped
status_of (some s) = status_value s.status

abbrev error_of : Option Sender → ℕ
error_of none = error_value SenderError.invalid_configuration
error_of (some s) = error_value s.error

abbrev percent_of : Option Sender → ℕ
percent_of none = 0
percent_of (some s) = queue_percent s

unfoldable pub native_status : Registry → ℤ → ℕ
native_status r handle = status_of (find_sender r handle)

unfoldable pub native_error : Registry → ℤ → ℕ
native_error r handle = error_of (find_sender r handle)

unfoldable pub native_queue_percent : Registry → ℤ → ℕ
native_queue_percent r handle = percent_of (find_sender r handle)

-- `JNI_OnUnload`: every sender is taken out and then stopped; `rounds` are those of each worker.
unfoldable pub on_unload : Registry → (ℕ → List Round) → Registry × List Sender
on_unload r rounds = (
  record r { senders = [] },
  map (λ (entry : ℕ × Sender). stop entry.1 (rounds entry.0)) r.senders,
)

-- The calls of the application, and the rounds of a sender's worker.
pub data Call : Type 0 where
  create : CreateArguments → Call
  start : ℤ → Call
  stopping destroy : ℤ → List Round → Call
  video : ℤ → Option JavaBytes → ℤ → Bool → Call
  audio : ℤ → Option JavaBytes → ℤ → Call
  work : ℤ → List Round → Call
  unload : (ℕ → List Round) → Call

unfoldable pub step : Platform → Registry → Call → Registry
step platform r (Call.create arguments) = (native_create platform r arguments).0
step platform r (Call.start handle) = (native_start platform r handle).0
step platform r (Call.destroy handle rounds) = (native_destroy r handle rounds).0
step platform r (Call.stopping handle rounds) = native_stop r handle rounds
step platform r (Call.video handle unit time key_frame) =
    (native_write_video r handle unit time key_frame).0
step platform r (Call.audio handle unit time) = (native_write_audio r handle unit time).0
step platform r (Call.work handle rounds) =
    (on_sender r handle (find_sender r handle) (λ s. (run_worker s rounds, true))).0
step platform r (Call.unload rounds) = (on_unload r rounds).0

unfoldable pub run_calls : Platform → Registry → List Call → Registry
unfolding step
run_calls platform r [] = r
run_calls platform r (call ∷ calls) = run_calls platform (step platform r call) calls
