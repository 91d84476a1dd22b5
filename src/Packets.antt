-- ===== src/Packets.antt =====
-- What the sender's and the receiver's packet queues share: std::vector<std::uint8_t> packets, their
-- sizes, and std::size_t arithmetic of a 64-bit build.
use android2pc_stream.Prelude.{
  ℕ, ◌+◌, ◌-◌, ◌%◌, ◌^◌, ◌≤◌, ◌<◌, ◌≡◌, Option, none, some, List, [], ◌∷◌, ◌++◌, length, arith,
}

abbrev pub Packet : Type 0
Packet = List ℕ

abbrev pub PacketBatch : Type 0
PacketBatch = List Packet

-- `std::numeric_limits<std::size_t>::max()`.
abbrev pub size_max : ℕ
size_max = 2 ^ 64 - 1

-- `a += b` and `a -= b` on std::size_t.
unfoldable pub add_size : ℕ → ℕ → ℕ
add_size a b = (a + b) % 2 ^ 64

unfoldable pub sub_size : ℕ → ℕ → ℕ
sub_size a b = (a + 2 ^ 64 - b) % 2 ^ 64

abbrev pub total : List Packet → ℕ
total [] = 0
total (p ∷ ps) = length p + total ps

-- A packet that the transport can carry.
abbrev pub Sendable : Packet → Type 0
Sendable p = (0 < length p) × (length p ≤ 1316)

pub total-append : (ps qs : List Packet) → total (ps ++ qs) ≡ total ps + total qs
total-append [] qs = omega arith
total-append (p ∷ ps) qs = omega (arith, total-append ps qs)

unfoldable pub given_out : Option Packet → List Packet
given_out none = []
given_out (some packet) = packet ∷ []
