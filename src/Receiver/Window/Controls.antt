-- ===== src/Receiver/Window/Controls.antt =====
-- What a control holds after a saved configuration is restored reads as that configuration again.
use android2pc_stream.Prelude.{
  ℕ, ◌+◌, ◌-◌, ◌*◌, ◌^◌, ◌≤◌, ◌<◌, ◌≡◌, refl, ap, ◌∙◌, inl, inr, true, false, ◌==◌, Option, some,
  List, [], ◌∷◌, length, is_empty, between, ltb, arith, All, list_eqb, list_eqb→eq, Option-cases,
  Bool-cases,
}
use android2pc_stream.Platform.{Platform}
use android2pc_stream.Receiver.Config.{valid_utf8_label}
use android2pc_stream.Receiver.Link.{to_string}
use android2pc_stream.Receiver.Link.Decimal.{
  read_from, IsDecimal, read_from-to_string, to_string-IsDecimal, to_string-length,
}
use android2pc_stream.Receiver.Network.{NetworkAddress, find_host, saved_network_index}
use android2pc_stream.Receiver.Window.{
  address_at, window_text, utf8, int_max, read_digits, parse_digits, parse_u16,
}
use android2pc_stream.Receiver.Window.Messages.{wide}

-- Documented behaviour: UTF-8 text converts to UTF-16 and back, and ASCII text is the same in both.
pub record Converts (platform : Platform) (wide_to_utf8 : List ℕ → Option (List ℕ)) : Type 0 where
  pub back :
      (text units : List ℕ)
      → platform.utf8_to_wide text ≡ some units
      → wide_to_utf8 units ≡ some text
  pub ascii : (text : List ℕ) → All (λ c. c < 128) text → wide_to_utf8 text ≡ some text

read_digits-decimal :
    (n : ℕ) (text : List ℕ) → All IsDecimal text → read_digits n text ≡ (read_from n text, [])
unfolding read_digits
read_digits-decimal n [] h = refl
read_digits-decimal n (c ∷ text) h =
    let digit : between b'0' b'9' c ≡ true = ground (arith, h.0) in
    rw digit (read_digits-decimal (n * 10 + (c - b'0')) text h.1)

parse_digits-decimal :
    (text : List ℕ)
    → All IsDecimal text
    → 0 < length text
    → read_from 0 text ≤ 65535
    → parse_digits text ≡ some (read_from 0 text)
unfolding parse_digits
parse_digits-decimal [] h some_digit small = absurd (omega arith)
parse_digits-decimal (c ∷ text) h some_digit small =
    let digit : between b'0' b'9' c ≡ true = ground (arith, h.0) in
    let e = read_digits-decimal 0 (c ∷ text) h in
    let in_range : ltb (2 ^ 32 - 1) (read_from 0 (c ∷ text)) ≡ false = ground arith in
    let in_word : ltb 65535 (read_from 0 (c ∷ text)) ≡ false = ground arith in
    rw (e, digit, in_range, in_word) refl

decimal-ascii : (text : List ℕ) → All IsDecimal text → All (λ c. c < 128) text
decimal-ascii [] h = tt
decimal-ascii (c ∷ text) h = (omega (arith, h.0.1), decimal-ascii text h.1)

window_text-short : (text : List ℕ) → length text ≤ 512 → window_text text ≡ text
window_text-short [] h = refl
window_text-short (c ∷ text) h =
    let e : ltb 512 (length (c ∷ text)) ≡ false = ground arith in rw e refl

utf8-some :
    (wide_to_utf8 : List ℕ → Option (List ℕ)) (input made : List ℕ)
    → 0 < length input
    → length input ≤ 512
    → wide_to_utf8 input ≡ some made
    → utf8 wide_to_utf8 input ≡ made
unfolding utf8
utf8-some wide_to_utf8 [] made h k e = absurd (omega arith)
utf8-some wide_to_utf8 (c ∷ input) made h k e =
    let f : ltb int_max (length (c ∷ input)) ≡ false = ground arith in rw (f, e) refl

pub parse_u16-to_string :
    (wide_to_utf8 : List ℕ → Option (List ℕ)) (n : ℕ)
    → ((text : List ℕ) → All (λ c. c < 128) text → wide_to_utf8 text ≡ some text)
    → n ≤ 65535
    → parse_u16 wide_to_utf8 (to_string n) ≡ some n
unfolding parse_u16
parse_u16-to_string wide_to_utf8 n ascii small =
    let text = to_string n in
    let (longer, shorter) = to_string-length n in
    let digits = to_string-IsDecimal n in
    let value : read_from 0 text ≡ n = read_from-to_string n (omega (arith, small)) in
    let filled : is_empty text ≡ false = ground (arith, longer) in
    let short : ltb 512 (length text) ≡ false = ground (arith, shorter) in
    let below : ltb int_max (length text) ≡ false = ground (arith, shorter) in
    let same = ascii text (decimal-ascii text digits) in
    let parsed = parse_digits-decimal text digits longer (rw value small) in
    rw (filled, short, filled, below, same) (parsed ∙ ap (λ (k : ℕ). some k) value)

module _ (platform : Platform) where
  -- The label of a valid configuration comes back from its control.
  pub label-restored :
      (wide_to_utf8 : List ℕ → Option (List ℕ)) (label : List ℕ)
      → Converts platform wide_to_utf8
      → valid_utf8_label platform label ≡ true
      → utf8 wide_to_utf8 (window_text (wide platform label)) ≡ label
  unfolding wide valid_utf8_label
  label-restored wide_to_utf8 label converts h = elim (Option-cases (platform.utf8_to_wide label)) [
    | inl e ↦ absurd (ground (arith, e, h))
    | inr (units, e) ↦
        let filled : is_empty label ≡ false = ground (arith, e, h) in
        let short : ltb int_max (length label) ≡ false = ground (arith, e, h) in
        let units_filled : 0 < length units = ground (arith, e, h) in
        let units_short : length units ≤ 96 = ground (arith, e, h) in
        rw (filled, short, e, window_text-short units (omega (arith, units_short)))
          (utf8-some wide_to_utf8 units label units_filled (omega (arith, units_short))
            (converts.back label units e))
  ]

-- The index that the saved host selects is one of that host.
address_at-index :
    (addresses : List NetworkAddress) (host : List ℕ) (index : ℕ) (found : NetworkAddress)
    → find_host addresses host ≡ some (index, found)
    → address_at addresses (some index) ≡ some host
unfolding find_host
address_at-index [] host index found h = cc
address_at-index (a ∷ rest) host index found h = elim (Bool-cases (list_eqb a.address host)) [
  | inl same ↦
      let first : 0 ≡ index = ground (arith, h, same) in
      rw (← first) (ap (λ (t : List ℕ). some t) (list_eqb→eq a.address host same))
  | inr other ↦ elim (Option-cases (find_host rest host)) [
    | inl e ↦ absurd (ground (arith, h, other, e))
    | inr ((i, g), e) ↦
        let next : i + 1 ≡ index = ground (arith, h, other, e) in
        let nonzero : (index == 0) ≡ false = ground arith in
        let before : index - 1 ≡ i = omega arith in
        rw (nonzero, before) (address_at-index rest host i g e)
  ]
]

not_empty :
    (addresses : List NetworkAddress) (host : List ℕ) (found : ℕ × NetworkAddress)
    → find_host addresses host ≡ some found
    → is_empty addresses ≡ false
unfolding find_host
not_empty [] host found h = cc
not_empty (a ∷ rest) host found h = refl

pub selected-host :
    (addresses : List NetworkAddress) (host : List ℕ) (index : ℕ)
    → saved_network_index addresses host ≡ some index
    → (address_at addresses (some index) ≡ some host) × (is_empty addresses ≡ false)
unfolding saved_network_index
selected-host addresses host index h = elim (Option-cases (find_host addresses host)) [
  | inl e ↦ absurd (ground (arith, e, h))
  | inr ((i, found), e) ↦
      let same : i ≡ index = ground (arith, e, h) in
      (
        rw (← same) (address_at-index addresses host i found e),
        not_empty addresses host (i, found) e,
      )
]
