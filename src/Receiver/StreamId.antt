-- ===== src/Receiver/StreamId.antt =====
-- pc/include/local_camera_receiver/device_stream_id.hpp: the device name that a phone sends as its SRT
-- stream id.
pub mod Labels
use android2pc_stream.Prelude.{
  ℕ, ◌+◌, Bool, true, false, not, ◌&&◌, ◌||◌, Option, none, some, List, [], ◌∷◌, ◌++◌, length, drop,
  is_empty, ltb, ◌==◌, if◌then◌else◌, codes, between, front_is, back_is, starts_with, all,
}

-- "lcr/1/".
abbrev pub device_stream_id_prefix : List ℕ
device_stream_id_prefix = codes "lcr/1/"

abbrev pub maximum_device_label_bytes : ℕ
maximum_device_label_bytes = 48

-- The characters that the loop of `is_safe_device_label` lets pass.
abbrev pub is_label_character : ℕ → Bool
is_label_character c =
    between b'A' b'Z' c
    || between b'a' b'z' c
    || between b'0' b'9' c
    || c == b' '
    || c == b'.'
    || c == b'_'
    || c == b'-'

unfoldable pub is_safe_device_label : List ℕ → Bool
is_safe_device_label label =
    if is_empty label || ltb maximum_device_label_bytes (length label)
    then false
    else if not (all is_label_character label)
    then false
    else not (front_is b' ' label) && not (back_is b' ' label)

unfoldable pub parse_device_stream_id : List ℕ → Option (List ℕ)
parse_device_stream_id stream_id =
    let label = drop (length device_stream_id_prefix) stream_id in
    if not (starts_with stream_id device_stream_id_prefix)
    then none
    else if not (is_safe_device_label label)
    then none
    else some label
