-- ===== src/Receiver/Link/Decimal.antt =====
-- std::to_string, with a reader of decimal numbers.
use native.Mathlib.Nat.{pow-suc}
use android2pc_stream.Prelude.{
  ℕ, zero, suc, ◌+◌, ◌-◌, ◌*◌, ◌/◌, ◌%◌, ◌^◌, ◌≤◌, ◌<◌, ◌≡◌, refl, ap, ◌∙◌, List, [], ◌∷◌, ◌==◌,
  All, length, arith, Bool-cases, inl, inr,
}
use android2pc_stream.Receiver.Link.{decimal, to_string}

-- The number that a text's digits stand for, behind the number `n`.
abbrev pub read_from : ℕ → List ℕ → ℕ
read_from n [] = n
read_from n (c ∷ text) = read_from (n * 10 + (c - b'0')) text

abbrev pub IsDecimal : ℕ → Type 0
IsDecimal c = (b'0' ≤ c) × (c ≤ b'9')

read_from-decimal :
    (fuel n : ℕ) (after : List ℕ)
    → n < 10 ^ fuel
    → read_from 0 (decimal fuel n after) ≡ read_from n after
unfolding decimal
read_from-decimal zero n after h = let e : n ≡ 0 = omega arith in rw e refl
read_from-decimal (suc fuel) n after h = elim (Bool-cases (n / 10 == 0)) [
  | inl last ↦
      let e : n / 10 ≡ 0 = ground arith in rw last (ap (λ (x : ℕ). read_from x after) (omega arith))
  | inr more ↦ rw more (
      read_from-decimal fuel (n / 10) _ (omega (arith, pow-suc 10 fuel))
      ∙ ap (λ (x : ℕ). read_from x after) (omega arith))
]

decimal-IsDecimal :
    (fuel n : ℕ) (after : List ℕ) → All IsDecimal after → All IsDecimal (decimal fuel n after)
unfolding decimal
decimal-IsDecimal zero n after h = h
decimal-IsDecimal (suc fuel) n after h = elim (Bool-cases (n / 10 == 0)) [
  | inl last ↦ rw last ((omega arith, omega arith), h)
  | inr more ↦ rw more (decimal-IsDecimal fuel (n / 10) _ ((omega arith, omega arith), h))
]

pub read_from-to_string : (n : ℕ) → n < 10 ^ 20 → read_from 0 (to_string n) ≡ n
unfolding to_string
read_from-to_string n h = read_from-decimal 20 n [] h

pub to_string-IsDecimal : (n : ℕ) → All IsDecimal (to_string n)
unfolding to_string
to_string-IsDecimal n = decimal-IsDecimal 20 n [] tt

decimal-length :
    (fuel n : ℕ) (after : List ℕ)
    → (length after ≤ length (decimal fuel n after))
      × (length (decimal fuel n after) ≤ fuel + length after)
unfolding decimal
decimal-length zero n after = (omega arith, omega arith)
decimal-length (suc fuel) n after = elim (Bool-cases (n / 10 == 0)) [
  | inl last ↦ rw last (omega arith, omega arith)
  | inr more ↦
      let (h, k) = decimal-length fuel (n / 10) ((b'0' + n % 10) ∷ after) in
      rw more (omega (arith, h), omega (arith, k))
]

-- A number prints as one to twenty digits.
pub to_string-length : (n : ℕ) → (0 < length (to_string n)) × (length (to_string n) ≤ 20)
unfolding to_string decimal
to_string-length n = elim (Bool-cases (n / 10 == 0)) [
  | inl last ↦ rw last (omega arith, omega arith)
  | inr more ↦
      let (h, k) = decimal-length 19 (n / 10) ((b'0' + n % 10) ∷ []) in
      rw more (omega (arith, h), omega (arith, k))
]
