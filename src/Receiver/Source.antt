-- ===== src/Receiver/Source.antt =====
-- pc/src/receiver_source.cpp: the OBS source that owns the sink, the listener and the media child, and the
-- thread that watches the configuration file. OBS, the file system and the helper's pipe are parameters: a
-- call carries what they answer.
pub mod Watch
pub mod Stopping
pub mod Watching
pub mod Listening
pub mod Recovery
pub mod Created
use android2pc_stream.Prelude.{
  ℕ, zero, suc, ◌+◌, ◌/◌, ◌%◌, ◌^◌, Bool, true, false, not, ◌&&◌, ◌||◌, Option, none, some, List,
  [], ◌∷◌, ◌++◌, codes, if◌then◌else◌, ◌==◌, bool_eqb, ltb,
}
use android2pc_stream.Platform.{Platform}
use android2pc_stream.Receiver.Config.{is_canonical_uuid}
use android2pc_stream.Receiver.Pairing.{new_uuid}
use android2pc_stream.Receiver.Sink
use android2pc_stream.Receiver.Sink.{Sink, pipe_prefix}
use android2pc_stream.Receiver.Listener.State.{Listener, new_listener}

-- The settings that OBS keeps for the source.
pub record Settings : Type 0 where
  pub pipe_id : List ℕ
  pub listen_when_hidden : Bool
  pub hardware_decode : Bool
  pub software_decoder_migration : Bool

-- The source, with the local variables of `watch_config`. A file time is none where it could not be read.
-- `commands` are the messages that the pairing helper got from `watch_config`; those that the listener's
-- callback sends with each new status are not among them.
pub record Source : Type 0 where
  pub sink : Sink
  pub listener : Listener
  pub has_child : Bool
  pub child_active : Bool
  pub child_hardware_decode : Bool
  pub active : Bool
  pub listen_when_hidden : Bool
  pub hardware_decode : Bool
  pub decoded_ready_cache : Bool
  pub stopping : Bool
  pub watching : Bool
  pub listener_started : Bool
  pub last_write : Option ℕ
  pub expires : ℕ
  pub commands : List (List ℕ)

-- What the calls in the constructor answer. `uuid_bytes` are those of the random generator.
pub record Creation : Type 0 where
  pub uuid_bytes : Option (List ℕ)
  pub settings_made : Bool
  pub child_made : Bool
  pub child_added : Bool

-- The identifier of the pipe, which is kept in the settings once it is canonical.
unfoldable pub choose_pipe_id : List ℕ → Option (List ℕ) → List ℕ
choose_pipe_id saved uuid_bytes = if is_canonical_uuid saved then saved else new_uuid uuid_bytes

-- The decoder is set to software once.
unfoldable pub migrate : Settings → Settings
migrate settings =
    if not settings.software_decoder_migration
    then record settings { hardware_decode = false; software_decoder_migration = true }
    else settings

abbrev pub pipe_name : List ℕ → List ℕ
pipe_name pipe_id = pipe_prefix ++ pipe_id

abbrev pub new_source : Sink → Settings → Source
new_source sink settings = record {
  sink = sink;
  listener = new_listener;
  has_child = true;
  child_active = true;
  child_hardware_decode = settings.hardware_decode;
  active = false;
  listen_when_hidden = settings.listen_when_hidden;
  hardware_decode = settings.hardware_decode;
  decoded_ready_cache = false;
  stopping = false;
  watching = true;
  listener_started = false;
  last_write = some 0;
  expires = 0;
  commands = [];
}

-- The constructor, with `source_create`: the settings behind it, and the source if it is valid; one that is
-- not is destroyed at once. `idle` is the new sink.
unfoldable pub source_create : Sink → Settings → Creation → Settings × Option Source
unfolding choose_pipe_id migrate
source_create idle settings c =
    let pipe_id = choose_pipe_id settings.pipe_id c.uuid_bytes in
    if not (is_canonical_uuid pipe_id)
    then (settings, none)
    else (let migrated = migrate (record settings { pipe_id = pipe_id }) in
        let (sink, started) = Sink.start idle (pipe_name pipe_id) in
        if not started || not c.settings_made || not c.child_made || not c.child_added
        then (migrated, none)
        else (migrated, some (new_source sink migrated)))

unfoldable pub activate : Source → Source
activate s = record s { active = true }

unfoldable pub deactivate : Source → Source
deactivate s = record s { active = false }

-- The two sizes that OBS reports of the child.
unfoldable pub tick : Source → ℕ → ℕ → Source
tick s width height = record s {
  decoded_ready_cache = if not s.has_child then false else ltb 0 width && ltb 0 height;
}

-- `settings_found` says that OBS gives the child's settings.
unfoldable pub update : Source → Settings → Bool → Source
update s settings settings_found =
    let read = record s {
      listen_when_hidden = settings.listen_when_hidden;
      hardware_decode = settings.hardware_decode;
    } in
    if bool_eqb settings.hardware_decode s.hardware_decode || not s.has_child
    then read
    else if not settings_found
    then read
    else record read { child_hardware_decode = settings.hardware_decode }

-- The answers of OBS in one `audio_render`: whether the child's audio is pending, its time stamp, and its
-- samples by mix and channel.
pub record ChildAudio : Type 0 where
  pub pending : Bool
  pub timestamp : ℕ
  pub samples : ℕ → ℕ → List ℕ

-- What is written into the output, by mix and channel.
abbrev pub Mix : Type 0
Mix = ℕ → ℕ → List ℕ

-- `memcpy` of one channel of one mix.
abbrev pub copy_channel : Mix → Mix → ℕ → ℕ → Mix
copy_channel child output mix channel =
    λ m c. if m == mix && c == channel then child mix channel else output m c

-- The inner loop, over the channels below `channels`.
unfoldable pub copy_channels : Mix → ℕ → ℕ → Mix → Mix
copy_channels child mix zero output = output
copy_channels child mix (suc channels) output =
    copy_channel child (copy_channels child mix channels output) mix channels

-- The outer loop, over the mixes below `mixes`; `(mixers & (1U << mix)) == 0U` skips one.
unfoldable pub copy_mixes : Mix → ℕ → ℕ → ℕ → Mix → Mix
unfolding copy_channels
copy_mixes child mixers channels zero output = output
copy_mixes child mixers channels (suc mixes) output =
    let before = copy_mixes child mixers channels mixes output in
    if mixers / 2 ^ mixes % 2 == 0 then before else copy_channels child mixes channels before

-- `maximum_mixes` is MAX_AUDIO_MIXES of OBS. The answer is the time stamp and the output, where there is one.
unfoldable pub audio_render : ℕ → Source → ChildAudio → ℕ → ℕ → Mix → Option (ℕ × Mix)
unfolding copy_mixes
audio_render maximum_mixes s audio mixers channels output =
    if not s.has_child
    then none
    else if audio.pending
    then none
    else if audio.timestamp == 0
    then none
    else some (audio.timestamp, copy_mixes audio.samples mixers channels maximum_mixes output)
