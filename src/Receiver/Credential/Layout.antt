-- ===== src/Receiver/Credential/Layout.antt =====
-- The bytes that `serialize_config` writes, field by field, and their reading.
use android2pc_stream.Prelude.{
  ℕ, ◌-◌, ◌^◌, ◌≤◌, ◌<◌, ◌≡◌, some, List, ◌∷◌, ◌++◌, length, append_assoc, arith,
}
use android2pc_stream.Platform.{Platform}
use android2pc_stream.Receiver.Bytes.{take_u16, take_u64}
use android2pc_stream.Receiver.Bytes.Laws.{
  to_le, append_u16-to_le, append_u64-to_le, take_u64-from_le,
}
use android2pc_stream.Receiver.Bytes.Fields.{
  counted, append_string-counted, take_string-counted, read-to_le, take_u16-Reads,
}
use android2pc_stream.Receiver.Config.{ReceiverConfig, WellTyped}
use android2pc_stream.Receiver.Credential.{
  plain_magic, format_version, serialize_config, read_fields,
}

abbrev pub numbers : ReceiverConfig → List ℕ
numbers c =
    to_le 2 c.port
    ++ (to_le 2 c.latency_ms ++ (to_le 8 c.credential_expires_epoch_seconds ++ c.secret))

abbrev pub fields : ReceiverConfig → List ℕ
fields c = counted c.receiver_id ++ (counted c.label ++ (counted c.host ++ numbers c))

-- The texts are short enough for their counts.
pub record Short (c : ReceiverConfig) : Type 0 where
  pub id_short : length c.receiver_id < 2 ^ 32
  pub label_short : length c.label < 2 ^ 32
  pub host_short : length c.host < 2 ^ 32

pub serialize_config-fields :
    (c : ReceiverConfig) → Short c → serialize_config c ≡ plain_magic ++ format_version ∷ fields c
unfolding serialize_config
serialize_config-fields c s =
    rw
      (
        append_u64-to_le,
        append_u16-to_le,
        append_u16-to_le,
        append_string-counted _ c.host s.host_short,
        append_string-counted _ c.label s.label_short,
        append_string-counted _ c.receiver_id s.id_short,
      )
      (simp append_assoc)

module _ (platform : Platform) where
  pub read_fields-fields :
      (c : ReceiverConfig)
      → WellTyped c
      → Short c
      → length c.receiver_id ≤ 36
      → length c.label ≤ 192
      → length c.host ≤ platform.inet_addrstrlen - 1
      → read_fields platform (fields c) ≡ some c
  unfolding read_fields
  read_fields-fields c w s hi hl hh = ground (
    arith,
    take_string-counted c.receiver_id (counted c.label ++ (counted c.host ++ numbers c)) 36 hi
        s.id_short,
    take_string-counted c.label (counted c.host ++ numbers c) 192 hl s.label_short,
    take_string-counted c.host (numbers c) (platform.inet_addrstrlen - 1) hh s.host_short,
    read-to_le 2 take_u16 c.port
        (to_le 2 c.latency_ms ++ (to_le 8 c.credential_expires_epoch_seconds ++ c.secret))
        take_u16-Reads (omega arith),
    read-to_le 2 take_u16 c.latency_ms (to_le 8 c.credential_expires_epoch_seconds ++ c.secret)
        take_u16-Reads (omega arith),
    read-to_le 8 take_u64 c.credential_expires_epoch_seconds c.secret take_u64-from_le
        (omega arith),
  )
