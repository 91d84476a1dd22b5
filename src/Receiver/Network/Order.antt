-- ===== src/Receiver/Network/Order.antt =====
-- The comparator of sort_network_addresses as the order of the dictionary on a list of numbers.
use android2pc_stream.Prelude.{ℕ, ◌≡◌, refl, Bool, true, false, not, List, [], ◌∷◌, arith}
use android2pc_stream.Receiver.Network.{NetworkAddress, string_lt, network_before, is_physical}

pub string_lt_irrefl : (xs : List ℕ) → string_lt xs xs ≡ false
unfolding string_lt
string_lt_irrefl [] = refl
string_lt_irrefl (x ∷ xs) = ground (arith, string_lt_irrefl xs)

pub string_lt_trans :
    (xs ys zs : List ℕ) → string_lt xs ys ≡ true → string_lt ys zs ≡ true → string_lt xs zs ≡ true
unfolding string_lt
string_lt_trans xs [] zs h k = cc
string_lt_trans xs (y ∷ ys) [] h k = cc
string_lt_trans [] (y ∷ ys) (z ∷ zs) h k = refl
string_lt_trans (x ∷ xs) (y ∷ ys) (z ∷ zs) h k = ground (arith, string_lt_trans xs ys zs)

string_lt-asymm : (xs ys : List ℕ) → string_lt xs ys ≡ true → string_lt ys xs ≡ false
unfolding string_lt
string_lt-asymm xs [] h = cc
string_lt-asymm [] (y ∷ ys) h = refl
string_lt-asymm (x ∷ xs) (y ∷ ys) h = ground (arith, string_lt-asymm xs ys)

pub string_lt-total : (xs ys : List ℕ) → string_lt xs ys ≡ false → string_lt ys xs ≡ false → xs ≡ ys
unfolding string_lt
string_lt-total [] [] h k = refl
string_lt-total [] (y ∷ ys) h k = cc
string_lt-total (x ∷ xs) [] h k = cc
string_lt-total (x ∷ xs) (y ∷ ys) h k = ground (arith, string_lt-total xs ys)

-- "Not after" is transitive, as a sort needs.
pub string_lt-connected :
    (xs ys zs : List ℕ)
    → string_lt ys xs ≡ false
    → string_lt zs ys ≡ false
    → string_lt zs xs ≡ false
unfolding string_lt
string_lt-connected [] ys [] h k = refl
string_lt-connected [] ys (z ∷ zs) h k = refl
string_lt-connected (x ∷ xs) [] zs h k = cc
string_lt-connected (x ∷ xs) (y ∷ ys) [] h k = cc
string_lt-connected (x ∷ xs) (y ∷ ys) (z ∷ zs) h k = ground (arith, string_lt-connected xs ys zs)

-- 0 before 1.
abbrev pub last_if : Bool → ℕ
last_if true = 1
last_if false = 0

-- The criteria in the order of their weight: adapters that seem real, then those with a gateway, then
-- Ethernet and Wi-Fi, then the lower metric, then Ethernet, then the address.
abbrev pub rank : NetworkAddress → List ℕ
rank a =
    last_if a.likely_virtual
    ∷ last_if (not a.has_default_gateway)
    ∷ last_if (not (is_physical a))
    ∷ a.metric
    ∷ last_if (not a.ethernet)
    ∷ a.address

-- The comparator answers true exactly where the first number in which the two ranks differ is the
-- smaller one on the left, or where the left rank ends first.
pub network_before-string_lt :
    (left right : NetworkAddress) → network_before left right ≡ string_lt (rank left) (rank right)
unfolding network_before string_lt
network_before-string_lt left right = ground arith

pub network_before-connected :
    (a b c : NetworkAddress)
    → network_before b a ≡ false
    → network_before c b ≡ false
    → network_before c a ≡ false
network_before-connected a b c h k = rw (network_before-string_lt c a) (
    string_lt-connected (rank a) (rank b) (rank c) (rw (← network_before-string_lt b a) h)
      (rw (← network_before-string_lt c b) k))

pub network_before-asymm :
    (a b : NetworkAddress) → network_before a b ≡ true → network_before b a ≡ false
network_before-asymm a b h =
    rw (network_before-string_lt b a)
      (string_lt-asymm (rank a) (rank b) (rw (← network_before-string_lt a b) h))
