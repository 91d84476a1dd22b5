-- ===== src/Receiver/Store/Atomic.antt =====
-- write_atomic of credential_store.cpp under every outcome of its system calls.
use android2pc_stream.Prelude.{
  ℕ, ◌≡◌, refl, ap, ◌⊎◌, true, false, none, some, List, [], ◌∷◌, length, take, arith,
}
use android2pc_stream.Receiver.Store.{Disk, WriteOutcome, write_atomic}

pub take-length : (bytes : List ℕ) → take (length bytes) bytes ≡ bytes
take-length [] = refl
take-length (b ∷ bs) = ap (◌∷◌ b) (take-length bs)

-- From a disk with no temporary file, and however the system calls go: either `write_atomic`
-- answers true, the file holds the given bytes whole and no temporary file is left, or it answers
-- false, the file is as it was, and a temporary file is left only where its deletion failed.
pub write_atomic-atomic :
    (w : WriteOutcome) (disk : Disk) (bytes : List ℕ)
    → disk.temporary ≡ none
    → ((write_atomic w disk bytes ≡ (record { target = some bytes; temporary = none }, true)))
      ⊎ ((write_atomic w disk bytes).1 ≡ false)
        × ((write_atomic w disk bytes).0.target ≡ disk.target)
        × (((write_atomic w disk bytes).0.temporary ≡ none) ⊎ (w.deleted ≡ false))
unfolding write_atomic
write_atomic-atomic w disk bytes h = ground (arith, take-length bytes)
