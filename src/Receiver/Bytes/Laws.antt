-- ===== src/Receiver/Bytes/Laws.antt =====
-- The little-endian readers and writers of credential_codec.cpp, one after the other.
use android2pc_stream.Prelude.{
  ℕ, zero, suc, ◌+◌, ◌*◌, ◌/◌, ◌%◌, ◌^◌, ◌≤◌, ◌<◌, ◌≡◌, refl, sym, ap, ◌∙◌, some, List, [], ◌∷◌,
  ◌++◌, length, length-append, All, IsByte, arith, append_assoc,
}
use android2pc_stream.Prelude.Bits.{shr, shl, low, bit_or-shl}
use native.Mathlib.Nat.{
  pow-suc, div-one, mul_comm, pow-le-pow_right, div-div-eq-div-mul, mod-eq_of_lt,
}
use native.Mathlib.Numerals.{towards_suc}
use android2pc_stream.Receiver.Bytes.{
  append_loop, take_loop, append_u16, append_u32, append_u64, take_u16, take_u32, take_u64,
}

-- The number that bytes stand for, lowest first, and the bytes of a number.
abbrev pub from_le : List ℕ → ℕ
from_le [] = 0
from_le (b ∷ bs) = b + 256 * from_le bs

abbrev pub to_le : ℕ → ℕ → List ℕ
to_le zero v = []
to_le (suc n) v = v % 256 ∷ to_le n (v / 256)

pub length-to_le : (n v : ℕ) → length (to_le n v) ≡ n
length-to_le zero v = refl
length-to_le (suc n) v = ap suc (length-to_le n (v / 256))

pub to_le-IsByte : (n v : ℕ) → All IsByte (to_le n v)
to_le-IsByte zero v = tt
to_le-IsByte (suc n) v = (omega arith, to_le-IsByte n (v / 256))

pub from_le-to_le : (n v : ℕ) → v < 256 ^ n → from_le (to_le n v) ≡ v
from_le-to_le zero v h = omega arith
from_le-to_le (suc n) v h =
    omega (arith, pow-suc 256 n, from_le-to_le n (v / 256) (omega (arith, pow-suc 256 n)))

pub to_le-from_le : (bs : List ℕ) → All IsByte bs → to_le (length bs) (from_le bs) ≡ bs
to_le-from_le [] h = refl
to_le-from_le (b ∷ bs) h =
    let low_part : (b + 256 * from_le bs) % 256 ≡ b = omega arith in
    let rest : (b + 256 * from_le bs) / 256 ≡ from_le bs = omega arith in
    rw (low_part, rest) (ap (λ (t : List ℕ). b ∷ t) (to_le-from_le bs h.1))

pub from_le-lt : (bs : List ℕ) → All IsByte bs → from_le bs < 256 ^ length bs
from_le-lt [] h = omega arith
from_le-lt (b ∷ bs) h = omega (arith, pow-suc 256 (length bs), from_le-lt bs h.1)

pow_eight : (s : ℕ) → 2 ^ (s + 8) ≡ 256 * 2 ^ s
pow_eight s = simp towards_suc (omega arith)

next_shift : (v s : ℕ) → v / 2 ^ (s + 8) ≡ v / 2 ^ s / 256
next_shift v s =
    ap (λ (t : ℕ). v / t) (pow_eight s ∙ mul_comm 256 (2 ^ s))
    ∙ sym (div-div-eq-div-mul v (2 ^ s) 256)

pow-pos : (s : ℕ) → 0 < 2 ^ s
pow-pos zero = omega arith
pow-pos (suc s) = omega (arith, pow-suc 2 s, pow-pos s)

shl_fits : (b s w : ℕ) → b < 256 → s + 8 ≤ w → low (shl b s) w ≡ b * 2 ^ s
shl_fits b s w h k =
    let room : 2 ^ (s + 8) ≤ 2 ^ w = pow-le-pow_right {n = 2} (omega arith) k in
    mod-eq_of_lt (below room)
  where
    below : 2 ^ (s + 8) ≤ 2 ^ w → b * 2 ^ s < 2 ^ w
    below room = grind (arith, pow_eight s, pow-pos s)

append_loop-to_le :
    (rounds shift value : ℕ) → append_loop rounds shift value ≡ to_le rounds (value / 2 ^ shift)
unfolding append_loop
append_loop-to_le zero shift value = refl
append_loop-to_le (suc rounds) shift value =
    let byte : low (low (shr value shift) 8) 8 ≡ value / 2 ^ shift % 256 = omega arith in
    rw (byte, append_loop-to_le rounds (shift + 8) value, next_shift value shift)

regroup : (value b t s : ℕ) → value + b * 2 ^ s + t * 2 ^ (s + 8) ≡ value + (b + 256 * t) * 2 ^ s
regroup value b t s = omega (arith, ap (λ (p : ℕ). t * p) (pow_eight s))

take_loop-from_le :
    (w : ℕ) (bs : List ℕ) (shift value : ℕ) (rest : List ℕ)
    → All IsByte bs
    → value < 2 ^ shift
    → shift + 8 * length bs ≤ w
    → take_loop w (length bs) shift value (bs ++ rest) ≡ (value + from_le bs * 2 ^ shift, rest)
unfolding take_loop
take_loop-from_le w [] shift value rest h k m = ground arith
take_loop-from_le w (b ∷ bs) shift value rest h k m =
    rw (shl_fits b shift w h.0 (omega arith), bit_or-shl shift value b k)
      (take_loop-from_le w bs (shift + 8) (value + b * 2 ^ shift) rest h.1
          (grind (arith, pow_eight shift)) (omega arith)
        ∙ ap (λ (t : ℕ). (t, rest)) (regroup value b (from_le bs) shift))

-- The integers are written and read as `to_le` and `from_le`, whatever stands around them.
pub append_u16-to_le : (out : List ℕ) (v : ℕ) → append_u16 out v ≡ out ++ to_le 2 v
unfolding append_u16
append_u16-to_le out v = append_assoc out _ _ ∙ ap (◌++◌ out) (two v)
  where
    two : (v : ℕ) → low (low v 8) 8 ∷ low (low (shr v 8) 8) 8 ∷ [] ≡ to_le 2 v
    two v = ground arith

pub append_u32-to_le : (out : List ℕ) (v : ℕ) → append_u32 out v ≡ out ++ to_le 4 v
unfolding append_u32
append_u32-to_le out v = rw (append_loop-to_le 4 0 v, div-one v)

pub append_u64-to_le : (out : List ℕ) (v : ℕ) → append_u64 out v ≡ out ++ to_le 8 v
unfolding append_u64
append_u64-to_le out v = rw (append_loop-to_le 8 0 v, div-one v)

pub take_u16-from_le :
    (b c : ℕ) (rest : List ℕ)
    → IsByte b
    → IsByte c
    → take_u16 (b ∷ c ∷ rest) ≡ some (from_le (b ∷ c ∷ []), rest)
unfolding take_u16
take_u16-from_le b c rest hb hc = ground (arith, bit_or-shl 8 b c hb)

pub take_u32-from_le :
    (bs rest : List ℕ)
    → length bs ≡ 4
    → All IsByte bs
    → take_u32 (bs ++ rest) ≡ some (from_le bs, rest)
unfolding take_u32
take_u32-from_le bs rest e h =
    ground (arith, length-append bs rest, take_loop-from_le 32 bs 0 0 rest h)

pub take_u64-from_le :
    (bs rest : List ℕ)
    → length bs ≡ 8
    → All IsByte bs
    → take_u64 (bs ++ rest) ≡ some (from_le bs, rest)
unfolding take_u64
take_u64-from_le bs rest e h =
    ground (arith, length-append bs rest, take_loop-from_le 64 bs 0 0 rest h)
