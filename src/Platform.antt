-- ===== src/Platform.antt =====
-- The calls of the operating systems that the validation code makes, as parameters: their sources
-- are not in the repository.
use android2pc_stream.Prelude.{ℕ, ◌^◌, ◌<◌, ◌≤◌, ◌≡◌, Option, some, List, length, All}

pub record Platform : Type 0 where
  -- MultiByteToWideChar(CP_UTF8, MB_ERR_INVALID_CHARS, ...): the UTF-16 units, or none where the
  -- count is not positive.
  pub utf8_to_wide : List ℕ → Option (List ℕ)
  -- inet_pton and InetPtonA for AF_INET, the address in host order; none where the result is not 1.
  pub inet_pton : List ℕ → Option ℕ
  -- inet_ntop and InetNtopA for AF_INET, of an address in host order; none for a null result.
  pub inet_ntop : ℕ → Option (List ℕ)
  -- INET_ADDRSTRLEN, the size of the buffer that inet_ntop fills, its final NUL included.
  pub inet_addrstrlen : ℕ

-- Documented behaviour: an IPv4 address is a word of 32 bits.
abbrev pub PtonIsWord : Platform → Type 0
PtonIsWord p = (host : List ℕ) (address : ℕ) → p.inet_pton host ≡ some address → address < 2 ^ 32

-- Documented behaviour: the text fits the buffer with its NUL, and the buffer is a short one.
abbrev pub NtopFits : Platform → Type 0
NtopFits p =
    (p.inet_addrstrlen ≤ 64)
    × ((address : ℕ) (text : List ℕ)
        → p.inet_ntop address ≡ some text
        → length text < p.inet_addrstrlen)

-- Documented behaviour: the text of an address is decimal numbers and dots.
abbrev pub NtopDotted : Platform → Type 0
NtopDotted p =
    (address : ℕ) (text : List ℕ)
    → p.inet_ntop address ≡ some text
    → All (λ c. (b'.' ≤ c) × (c ≤ b'9')) text
