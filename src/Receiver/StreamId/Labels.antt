-- ===== src/Receiver/StreamId/Labels.antt =====
-- Which stream ids name a device.
use android2pc_stream.Prelude.{
  ℕ, ◌≡◌, refl, ◌↔◌, true, some, List, [], ◌∷◌, ◌++◌, length, drop, starts_with, arith,
}
use android2pc_stream.Receiver.StreamId.{
  device_stream_id_prefix, is_safe_device_label, parse_device_stream_id,
}

starts_with-append : (p rest : List ℕ) → starts_with (p ++ rest) p ≡ true
starts_with-append [] rest = refl
starts_with-append (c ∷ p) rest = ground (arith, starts_with-append p rest)

pub starts_with-split :
    (text p : List ℕ) → starts_with text p ≡ true → text ≡ p ++ drop (length p) text
starts_with-split text [] h = refl
starts_with-split [] (c ∷ p) h = cc
starts_with-split (x ∷ text) (c ∷ p) h = ground (arith, starts_with-split text p)

-- A stream id names a device exactly when it is the prefix followed by a safe label, which is the name.
pub parse_device_stream_id_iff :
    (stream_id label : List ℕ)
    → (parse_device_stream_id stream_id ≡ some label)
      ↔ (stream_id ≡ device_stream_id_prefix ++ label) × (is_safe_device_label label ≡ true)
unfolding parse_device_stream_id
parse_device_stream_id_iff stream_id label = (
  λ h. ground (arith, starts_with-split stream_id device_stream_id_prefix),
  λ (e, safe). rw e (ground arith),
)
