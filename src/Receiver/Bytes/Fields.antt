-- ===== src/Receiver/Bytes/Fields.antt =====
-- Reading a field back: after writing it, and from any bytes on which the reader succeeds.
use android2pc_stream.Prelude.{
  ℕ, zero, suc, ◌%◌, ◌^◌, ◌≤◌, ◌<◌, ◌≡◌, sym, ap, ◌∙◌, Option, some, List, [], ◌∷◌, ◌++◌, length,
  length-append, length-take, All, IsByte, take, drop, take-append-drop, take-length_append,
  drop-length_append, arith, append_assoc, Option-cases, inl, inr,
}
use android2pc_stream.Receiver.Bytes.{append_string, take_u16, take_u32, take_u64, take_string}
use android2pc_stream.Receiver.Bytes.Laws.{
  from_le, to_le, length-to_le, to_le-IsByte, from_le-to_le, to_le-from_le, from_le-lt,
  append_u32-to_le, take_u16-from_le, take_u32-from_le, take_u64-from_le,
}

pub take-IsByte : (n : ℕ) (bs : List ℕ) → All IsByte bs → All IsByte (take n bs)
take-IsByte zero bs h = tt
take-IsByte (suc n) [] h = tt
take-IsByte (suc n) (b ∷ bs) h = (h.0, take-IsByte n bs h.1)

pub drop-IsByte : (n : ℕ) (bs : List ℕ) → All IsByte bs → All IsByte (drop n bs)
drop-IsByte zero bs h = h
drop-IsByte (suc n) [] h = tt
drop-IsByte (suc n) (b ∷ bs) h = drop-IsByte n bs h.1

-- The fields of a value that is written in `n` bytes.
abbrev pub Reads : ℕ → (List ℕ → Option (ℕ × List ℕ)) → Type 0
Reads n reader =
    (bs rest : List ℕ)
    → length bs ≡ n
    → All IsByte bs
    → reader (bs ++ rest) ≡ some (from_le bs, rest)

-- A successful read splits the input.
abbrev pub Split : ℕ → List ℕ → ℕ → List ℕ → Type 0
Split n bytes v rest = (bytes ≡ to_le n v ++ rest) × (v < 256 ^ n) × All IsByte rest

front-Split :
    (n : ℕ) (bytes : List ℕ)
    → n ≤ length bytes
    → All IsByte bytes
    → Split n bytes (from_le (take n bytes)) (drop n bytes)
front-Split n bytes long h =
    let sized : length (take n bytes) ≡ n = omega (arith, length-take n bytes) in
    let whole : to_le n (from_le (take n bytes)) ≡ take n bytes =
      rw sized at (to_le-from_le (take n bytes) (take-IsByte n bytes h)) in
    let small : from_le (take n bytes) < 256 ^ n =
      rw sized at (from_le-lt (take n bytes) (take-IsByte n bytes h)) in
    (rw whole (sym (take-append-drop n bytes)), small, drop-IsByte n bytes h)

read-Split :
    (n : ℕ) (reader : List ℕ → Option (ℕ × List ℕ)) (bytes : List ℕ) (v : ℕ) (rest : List ℕ)
    → Reads n reader
    → n ≤ length bytes
    → All IsByte bytes
    → reader bytes ≡ some (v, rest)
    → Split n bytes v rest
read-Split n reader bytes v rest reads long h e =
    let sized : length (take n bytes) ≡ n = omega (arith, length-take n bytes) in
    let found : reader bytes ≡ some (from_le (take n bytes), drop n bytes) =
      rw (take-append-drop n bytes) at
        (reads (take n bytes) (drop n bytes) sized (take-IsByte n bytes h)) in
    let first : from_le (take n bytes) ≡ v = cc in
    let second : drop n bytes ≡ rest = cc in rw (← first, ← second) (front-Split n bytes long h)

pub take_u16-Reads : Reads 2 take_u16
take_u16-Reads (b ∷ c ∷ []) rest e h = take_u16-from_le b c rest h.0 h.1.0
take_u16-Reads [] rest e h = absurd (omega arith)
take_u16-Reads (b ∷ []) rest e h = absurd (omega arith)
take_u16-Reads (b ∷ c ∷ d ∷ bs) rest e h = absurd (omega arith)

-- A reader that succeeds splits its input into the bytes of the integer and the rest.
pub take_u16-Split :
    (bytes : List ℕ) (v : ℕ) (rest : List ℕ)
    → All IsByte bytes
    → take_u16 bytes ≡ some (v, rest)
    → Split 2 bytes v rest
unfolding take_u16
take_u16-Split [] v rest h e = cc
take_u16-Split (b ∷ []) v rest h e = cc
take_u16-Split (b ∷ c ∷ bs) v rest h e =
    read-Split 2 take_u16 (b ∷ c ∷ bs) v rest take_u16-Reads (omega arith) h e

pub take_u32-Split :
    (bytes : List ℕ) (v : ℕ) (rest : List ℕ)
    → All IsByte bytes
    → take_u32 bytes ≡ some (v, rest)
    → Split 4 bytes v rest
take_u32-Split bytes v rest h e =
    read-Split 4 take_u32 bytes v rest take_u32-from_le (unfold take_u32 in ground arith) h e

pub take_u64-Split :
    (bytes : List ℕ) (v : ℕ) (rest : List ℕ)
    → All IsByte bytes
    → take_u64 bytes ≡ some (v, rest)
    → Split 8 bytes v rest
take_u64-Split bytes v rest h e =
    read-Split 8 take_u64 bytes v rest take_u64-from_le (unfold take_u64 in ground arith) h e

-- An integer written is read back.
pub read-to_le :
    (n : ℕ) (reader : List ℕ → Option (ℕ × List ℕ)) (v : ℕ) (rest : List ℕ)
    → Reads n reader
    → v < 256 ^ n
    → reader (to_le n v ++ rest) ≡ some (v, rest)
read-to_le n reader v rest reads h =
    reads (to_le n v) rest (length-to_le n v) (to_le-IsByte n v)
    ∙ ap (λ (t : ℕ). some (t, rest)) (from_le-to_le n v h)

-- A counted string: four bytes of length, then the text.
abbrev pub counted : List ℕ → List ℕ
counted text = to_le 4 (length text) ++ text

pub append_string-counted :
    (out text : List ℕ) → length text < 2 ^ 32 → append_string out text ≡ out ++ counted text
unfolding append_string
append_string-counted out text h =
    let e : length text % 2 ^ 32 ≡ length text = omega arith in
    rw (e, append_u32-to_le out (length text)) (append_assoc out _ text)

pub take_string-counted :
    (text rest : List ℕ) (maximum : ℕ)
    → length text ≤ maximum
    → length text < 2 ^ 32
    → take_string (counted text ++ rest) maximum ≡ some (text, rest)
unfolding take_string
take_string-counted text rest maximum h k = ground (
  arith,
  append_assoc (to_le 4 (length text)) text rest,
  read-to_le 4 take_u32 (length text) (text ++ rest) take_u32-from_le (omega arith),
  length-append text rest,
  take-length_append text rest,
  drop-length_append text rest,
)

abbrev pub StringSplit : List ℕ → ℕ → List ℕ → List ℕ → Type 0
StringSplit bytes maximum text rest =
    (bytes ≡ counted text ++ rest)
    × (length text ≤ maximum)
    × (length text < 2 ^ 32)
    × All IsByte text
    × All IsByte rest

text-Split :
    (bytes : List ℕ) (maximum size : ℕ) (tail text rest : List ℕ)
    → Split 4 bytes size tail
    → size ≤ maximum
    → size ≤ length tail
    → take size tail ≡ text
    → drop size tail ≡ rest
    → StringSplit bytes maximum text rest
text-Split bytes maximum size tail text rest (whole, small, h) fits long e f =
    let sized : length text ≡ size = omega (arith, ap length (sym e), length-take size tail) in
    (
      rw (sized, ← e, ← f, take-append-drop size tail) whole,
      omega arith,
      omega arith,
      rw (← e) (take-IsByte size tail h),
      rw (← f) (drop-IsByte size tail h),
    )

pub take_string-Split :
    (bytes : List ℕ) (maximum : ℕ) (text rest : List ℕ)
    → All IsByte bytes
    → take_string bytes maximum ≡ some (text, rest)
    → StringSplit bytes maximum text rest
unfolding take_string
take_string-Split bytes maximum text rest h e = elim (Option-cases (take_u32 bytes)) [
  | inl missing ↦ absurd (ground arith)
  | inr ((size, tail), found) ↦
      text-Split bytes maximum size tail text rest (take_u32-Split bytes size tail h found)
        (ground arith) (ground arith) (ground arith) (ground arith)
]
