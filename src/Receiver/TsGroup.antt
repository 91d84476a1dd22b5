-- ===== src/Receiver/TsGroup.antt =====
-- pc/src/srt_listener.cpp, lines 112 to 123: the test that each received message passes.
use android2pc_stream.Prelude.{
  ℕ, zero, suc, ◌%◌, Bool, true, false, not, ◌&&◌, ◌||◌, List, [], ◌∷◌, length, is_empty, ltb, ◌==◌,
  if◌then◌else◌,
}

-- The loop over the offsets that are multiples of 188: `skip` bytes come before the next of them.
unfoldable pub sync_from : ℕ → List ℕ → Bool
sync_from skip [] = true
sync_from zero (b ∷ bs) = b == 0x47 && sync_from 187 bs
sync_from (suc skip) (b ∷ bs) = sync_from skip bs

unfoldable pub valid_ts_group : List ℕ → Bool
unfolding sync_from
valid_ts_group bytes =
    if is_empty bytes || ltb 1316 (length bytes) || not (length bytes % 188 == 0)
    then false
    else sync_from 0 bytes
