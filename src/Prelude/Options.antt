-- ===== src/Prelude/Options.antt =====
-- Chains of results that may be missing, and tests over lists.
use Prim.Native.Nat.{ℕ, zero, suc, ◌+◌, ◌<◌}
use mathlib.Core.Path.{◌≡◌, refl, sym, ap, ◌∙◌}
use mathlib.Core.Bool.{Bool, true, false, ◌&&◌, ◌||◌}
use mathlib.Core.Logic.{◌⊎◌, ◌≢◌}
use mathlib.Core.Option.{Option, none, some}
use mathlib.Core.List.{List, [], ◌∷◌, ◌++◌}
use native.Mathlib.Omega.{arith}
use android2pc_stream.Prelude.Tests.{◌==◌}

infixl 5 ◌>>=◌ ◌>>◌
abbrev pub ◌>>=◌ {ℓ κ} : {A : Type ℓ} {B : Type κ} → Option A → (A → Option B) → Option B
none >>= f = none
some a >>= f = f a

abbrev pub ◌>>◌ {ℓ} : {B : Type ℓ} → Option (Unit {0}) → Option B → Option B
m >> k = m >>= λ _. k

abbrev pub guard : Bool → Option (Unit {0})
guard true = some tt
guard false = none

module _ {ℓ} {A : Type ℓ} where
  abbrev pub All {κ} : (A → Type κ) → List A → Type κ
  All P [] = Unit {κ}
  All P (x ∷ xs) = P x × All P xs

  -- `std::all_of`.
  abbrev pub all : (A → Bool) → List A → Bool
  all p [] = true
  all p (x ∷ xs) = p x && all p xs

  -- `std::any_of`, and the statement that one element has a property.
  abbrev pub any : (A → Bool) → List A → Bool
  any p [] = false
  any p (x ∷ xs) = p x || any p xs

  abbrev pub Any : (A → Type 0) → List A → Type 0
  Any P [] = ⊥
  Any P (x ∷ xs) = P x ⊎ Any P xs

  abbrev pub is_empty : List A → Bool
  is_empty [] = true
  is_empty (x ∷ xs) = false

  pub All-append {κ} : (P : A → Type κ) (xs ys : List A) → All P xs → All P ys → All P (xs ++ ys)
  All-append P [] ys h k = k
  All-append P (x ∷ xs) ys h k = (h.0, All-append P xs ys h.1 k)

pub any-append {ℓ} :
    {A : Type ℓ} (p : A → Bool) (xs ys : List A) → any p (xs ++ ys) ≡ (any p xs || any p ys)
any-append p [] ys = refl
any-append p (x ∷ xs) ys = ground (arith, any-append p xs ys)

-- `count` numbers from `start` on pass a test.
unfoldable pub range_passes : (ℕ → Bool) → ℕ → ℕ → Bool
range_passes test start zero = true
range_passes test start (suc count) = test start && range_passes test (start + 1) count

range_passes-at :
    (test : ℕ → Bool) (count start offset : ℕ)
    → range_passes test start count ≡ true
    → offset < count
    → test (offset + start) ≡ true
unfolding range_passes
range_passes-at test zero start offset h below = absurd (omega arith)
range_passes-at test (suc count) start zero h below = ground arith
range_passes-at test (suc count) start (suc offset) h below =
    let next : offset + (start + 1) ≡ suc offset + start = omega arith in
    rw (← next) (range_passes-at test count (start + 1) offset (ground arith) (omega arith))

pub range_passes-below :
    (test : ℕ → Bool) (count x : ℕ) → range_passes test 0 count ≡ true → x < count → test x ≡ true
range_passes-below test count x h below =
    let same : x + 0 ≡ x = omega arith in
    ap test (sym same) ∙ range_passes-at test count 0 x h below

-- `==` on bool.
abbrev pub bool_eqb : Bool → Bool → Bool
bool_eqb true b = b
bool_eqb false true = false
bool_eqb false false = true

-- A byte is a number below 256.
abbrev pub IsByte : ℕ → Type 0
IsByte b = b < 256

-- `std::equal` of two whole ranges.
abbrev pub list_eqb : List ℕ → List ℕ → Bool
list_eqb [] [] = true
list_eqb [] (y ∷ ys) = false
list_eqb (x ∷ xs) [] = false
list_eqb (x ∷ xs) (y ∷ ys) = x == y && list_eqb xs ys

pub list_eqb_self : (xs : List ℕ) → list_eqb xs xs ≡ true
list_eqb_self [] = refl
list_eqb_self (x ∷ xs) = ground (arith, list_eqb_self xs)

pub list_eqb→eq : (xs ys : List ℕ) → list_eqb xs ys ≡ true → xs ≡ ys
list_eqb→eq [] [] h = refl
list_eqb→eq [] (y ∷ ys) h = cc
list_eqb→eq (x ∷ xs) [] h = cc
list_eqb→eq (x ∷ xs) (y ∷ ys) h = ground (arith, list_eqb→eq xs ys)

pub ne_of_list_eqb : (xs ys : List ℕ) → list_eqb xs ys ≡ false → xs ≢ ys
ne_of_list_eqb xs ys h = λ e. cc (list_eqb_self xs)

-- Inversion of a chain that gave a result.
pub >>=-eq-some {ℓ κ} :
    {A : Type ℓ} {B : Type κ} (m : Option A) (f : A → Option B) {b : B}
    → (m >>= f) ≡ some b
    → (a : A) × (m ≡ some a) × (f a ≡ some b)
>>=-eq-some none f h = cc
>>=-eq-some (some a) f h = (a, refl, h)
