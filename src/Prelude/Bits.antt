-- ===== src/Prelude/Bits.antt =====
-- Words as native numbers: shifts by `/` and `*`, masks by `%`, and the laws of `|` and `^` on
-- numbers that share no bit, or whose upper bits cancel.
use Prim.Native.Nat.{
  ℕ, zero, suc, ◌+◌, ◌*◌, ◌/◌, ◌%◌, ◌^◌, ◌≤◌, ◌<◌, max, differ, bit_or, bit_xor, digits,
  bit_or-bitwise, bit_xor-bitwise,
}
use mathlib.Core.Path.{◌≡◌, refl, ◌∙◌}
use native.Mathlib.Omega.{arith}
use native.Mathlib.Nat.{pow-suc, add-zero}

-- `x >> k`.
abbrev pub shr : ℕ → ℕ → ℕ
shr x k = x / 2 ^ k

-- `x & (2 ^ k - 1)`, which is also a cast to a word of k bits.
abbrev pub low : ℕ → ℕ → ℕ
low x k = x % 2 ^ k

-- `x << k` before the result is cut to its word.
abbrev pub shl : ℕ → ℕ → ℕ
shl x k = x * 2 ^ k

-- The two operations share their recursion, so its fuel is treated once.
module _ (f : ℕ → ℕ → ℕ) (f_low : (b : ℕ) → f 0 (b % 2) ≡ b % 2) where
  fuelled : ℕ → ℕ → ℕ → ℕ
  fuelled n a b = digits (λ b. b) f n a b

  fuelled_enough : (n m a b : ℕ) → a ≤ n → a ≤ m → fuelled n a b ≡ fuelled m a b
  unfolding fuelled
  fuelled_enough zero zero a b p q = refl
  fuelled_enough zero (suc m) zero b p q = refl
  fuelled_enough zero (suc m) (suc a) b p q = absurd (omega arith)
  fuelled_enough (suc n) zero zero b p q = refl
  fuelled_enough (suc n) zero (suc a) b p q = absurd (omega arith)
  fuelled_enough (suc n) (suc m) zero b p q = refl
  fuelled_enough (suc n) (suc m) (suc a) b p q =
      omega (arith, fuelled_enough n m (suc a / 2) (b / 2) (omega arith) (omega arith))

  fuelled_step : (a b : ℕ) → fuelled a a b ≡ fuelled (a / 2) (a / 2) (b / 2) * 2 + f (a % 2) (b % 2)
  unfolding fuelled
  fuelled_step zero b = omega (arith, f_low b)
  fuelled_step (suc a) b =
      omega (arith, fuelled_enough a (suc a / 2) (suc a / 2) (b / 2) (omega arith) (omega arith))

bit_or_step : (a b : ℕ) → bit_or a b ≡ bit_or (a / 2) (b / 2) * 2 + max (a % 2) (b % 2)
unfolding fuelled
bit_or_step a b = omega (
  arith,
  bit_or-bitwise a b,
  bit_or-bitwise (a / 2) (b / 2),
  fuelled_step max (λ n. omega arith) a b,
)

bit_xor_step : (a b : ℕ) → bit_xor a b ≡ bit_xor (a / 2) (b / 2) * 2 + differ (a % 2) (b % 2)
unfolding fuelled
bit_xor_step a b = omega (
  arith,
  bit_xor-bitwise a b,
  bit_xor-bitwise (a / 2) (b / 2),
  fuelled_step differ (λ n. refl) a b,
)

pub zero-bit_or : (b : ℕ) → bit_or 0 b ≡ b
zero-bit_or b = bit_or-bitwise 0 b

zero-bit_xor : (b : ℕ) → bit_xor 0 b ≡ b
zero-bit_xor b = bit_xor-bitwise 0 b

bit_or-zero_fuel : (n a : ℕ) → a ≤ n → bit_or a 0 ≡ a
bit_or-zero_fuel n zero h = refl
bit_or-zero_fuel zero (suc a) h = absurd (omega arith)
bit_or-zero_fuel (suc n) (suc a) h =
    omega (arith, bit_or_step (suc a) 0, bit_or-zero_fuel n (suc a / 2) (omega arith))

pub bit_or-zero : (a : ℕ) → bit_or a 0 ≡ a
bit_or-zero a = bit_or-zero_fuel a a (omega arith)

differ_self : (d : ℕ) → differ d d ≡ 0
differ_self zero = refl
differ_self (suc d) = differ_self d

differ-zero : (d : ℕ) → differ d 0 ≡ d
differ-zero zero = refl
differ-zero (suc d) = refl

halve : (y : ℕ) → y * 2 / 2 ≡ y
halve y = omega arith

halve_sum : (y a : ℕ) → (y * 2 + a) / 2 ≡ y + a / 2
halve_sum y a = omega arith

last_digit : (a y : ℕ) → a / 2 * 2 + differ ((y * 2 + a) % 2) (y * 2 % 2) ≡ a
last_digit a y =
    let e : y * 2 % 2 ≡ 0 = omega arith in
    let f : (y * 2 + a) % 2 ≡ a % 2 = omega arith in rw (e, f, differ-zero (a % 2)) (omega arith)

doubled : (b k : ℕ) → b * 2 ^ suc k ≡ b * 2 ^ k * 2
doubled b k = rw (pow-suc 2 k) (omega arith)

even-bit_or : (y a : ℕ) → bit_or (y * 2) a ≡ bit_or y (a / 2) * 2 + a % 2
even-bit_or y a = bit_or_step (y * 2) a ∙ rw (halve y) (omega arith)

bit_or-even : (a y : ℕ) → bit_or a (y * 2) ≡ bit_or (a / 2) y * 2 + a % 2
bit_or-even a y = bit_or_step a (y * 2) ∙ rw (halve y) (omega arith)

-- A shifted word takes the low bits of another as a sum.
pub shl-bit_or : (k b a : ℕ) → a < 2 ^ k → bit_or (b * 2 ^ k) a ≡ b * 2 ^ k + a
shl-bit_or zero b a h = ground (arith, bit_or-zero (b * 1))
shl-bit_or (suc k) b a h =
    rw (doubled b k, even-bit_or (b * 2 ^ k) a)
      (omega (arith, shl-bit_or k b (a / 2) (omega (arith, pow-suc 2 k))))

-- So does a word that takes the shifted one.
pub bit_or-shl : (k a b : ℕ) → a < 2 ^ k → bit_or a (b * 2 ^ k) ≡ a + b * 2 ^ k
bit_or-shl zero a b h = ground (arith, zero-bit_or (b * 1))
bit_or-shl (suc k) a b h =
    rw (doubled b k, bit_or-even a (b * 2 ^ k))
      (omega (arith, bit_or-shl k (a / 2) b (omega (arith, pow-suc 2 k))))

bit_xor-self_fuel : (n a : ℕ) → a ≤ n → bit_xor a a ≡ 0
bit_xor-self_fuel n zero h = refl
bit_xor-self_fuel zero (suc a) h = absurd (omega arith)
bit_xor-self_fuel (suc n) (suc a) h = omega (
  arith,
  bit_xor_step (suc a) (suc a),
  bit_xor-self_fuel n (suc a / 2) (omega arith),
  differ_self (suc a % 2),
)

-- Upper bits that agree cancel under `^`.
pub bit_xor-shl : (k b a : ℕ) → a < 2 ^ k → bit_xor (b * 2 ^ k + a) (b * 2 ^ k) ≡ a
bit_xor-shl zero b a h =
    let e : a ≡ 0 = omega arith in
    rw (e, add-zero (b * 1)) (bit_xor-self_fuel (b * 1) (b * 1) (omega arith))
bit_xor-shl (suc k) b a h = rw (doubled b k) (
    bit_xor_step (b * 2 ^ k * 2 + a) (b * 2 ^ k * 2)
    ∙ rw
        (
          halve (b * 2 ^ k),
          halve_sum (b * 2 ^ k) a,
          bit_xor-shl k b (a / 2) (omega (arith, pow-suc 2 k)),
        )
        (last_digit a (b * 2 ^ k)))

differ-lt : (x y : ℕ) → x < 2 → y < 2 → differ x y < 2
differ-lt zero y h k = k
differ-lt (suc x) zero h k = h
differ-lt (suc zero) (suc zero) h k = omega arith
differ-lt (suc zero) (suc (suc y)) h k = absurd (omega arith)
differ-lt (suc (suc x)) (suc y) h k = absurd (omega arith)

-- `^` of two words of k bits is one.
pub bit_xor-lt : (k a b : ℕ) → a < 2 ^ k → b < 2 ^ k → bit_xor a b < 2 ^ k
bit_xor-lt zero a b h l =
    let a_zero : a ≡ 0 = omega arith in
    let b_zero : b ≡ 0 = omega arith in rw (a_zero, b_zero) (omega (arith, zero-bit_xor 0))
bit_xor-lt (suc k) a b h l = omega (
  arith,
  pow-suc 2 k,
  bit_xor_step a b,
  differ-lt (a % 2) (b % 2) (omega arith) (omega arith),
  bit_xor-lt k (a / 2) (b / 2) (omega (arith, pow-suc 2 k)) (omega (arith, pow-suc 2 k)),
)
