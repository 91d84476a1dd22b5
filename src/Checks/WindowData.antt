-- ===== src/Checks/WindowData.antt =====
-- The inputs of the checks of the pairing window: a protection, a conversion, a network and an attempt.
use android2pc_stream.Prelude.{
  ℕ, ◌≤◌, ◌≡◌, refl, inl, inr, Bool, true, false, ◌&&◌, Option, none, some, List, [], ◌∷◌, codes,
  replicate, length, arith, ltb, leb, all, All, IsByte, if◌then◌else◌, Bool-cases,
}
use android2pc_stream.Receiver.Config.{ReceiverConfig}
use android2pc_stream.Receiver.Store.{Dpapi, Recovers}
use android2pc_stream.Receiver.Store.Saved.{GivesBytes}
use android2pc_stream.Receiver.Network.{NetworkAddress}
use android2pc_stream.Receiver.Link.Fresh.{fresh_config}
use android2pc_stream.Receiver.Window.{Window, Attempt, extend_expiry}
use android2pc_stream.Receiver.Window.Messages.{new_window}
use android2pc_stream.Receiver.Window.Typed.{Behaves, Fills}
use android2pc_stream.Checks.Data.{desk, desk_address, desk-NtopFits, desk-NtopDotted, all_well}

-- A protection that changes nothing, on texts of bytes that are not too long.
abbrev pub is_small_text : List ℕ → Bool
is_small_text text = all (λ b. ltb b 256) text && leb (length text) 65527

abbrev pub byte_dpapi : Dpapi
byte_dpapi = record {
  protect = λ plain. if is_small_text plain then some plain else none;
  unprotect = λ blob. if is_small_text blob then some blob else none;
}

all_bytes : (text : List ℕ) → all (λ (b : ℕ). ltb b 256) text ≡ true → All IsByte text
all_bytes [] h = tt
all_bytes (b ∷ text) h = (ground arith, all_bytes text (ground arith))

byte_dpapi-Recovers : Recovers byte_dpapi
byte_dpapi-Recovers plain blob h = elim (Bool-cases (is_small_text plain)) [
  | inl e ↦
      let same : plain ≡ blob = ground (arith, h, e) in
      (rw (← same, e) refl, rw (← same) (all_bytes plain (ground (arith, e))))
  | inr e ↦ absurd (ground (arith, h, e))
]

byte_dpapi-GivesBytes : GivesBytes byte_dpapi
byte_dpapi-GivesBytes blob plain h = elim (Bool-cases (is_small_text blob)) [
  | inl e ↦
      let same : blob ≡ plain = ground (arith, h, e) in
      rw (← same) (all_bytes blob (ground (arith, e)))
  | inr e ↦ absurd (ground (arith, h, e))
]

-- No blob is larger than the reader takes.
pub byte_dpapi_small :
    (plain blob : List ℕ) → byte_dpapi.protect plain ≡ some blob → length blob ≤ 65527
byte_dpapi_small plain blob h = elim (Bool-cases (is_small_text plain)) [
  | inl e ↦ let same : plain ≡ blob = ground (arith, h, e) in rw (← same) (ground (arith, e))
  | inr e ↦ absurd (ground (arith, h, e))
]

-- A conversion that knows texts of bytes only.
abbrev pub plain_utf8 : List ℕ → Option (List ℕ)
plain_utf8 text = if all (λ b. ltb b 256) text then some text else none

plain_utf8-bytes : (text bytes : List ℕ) → plain_utf8 text ≡ some bytes → All IsByte bytes
plain_utf8-bytes text bytes h = elim (Bool-cases (all (λ (b : ℕ). ltb b 256) text)) [
  | inl e ↦ let same : text ≡ bytes = ground (arith, h, e) in rw (← same) (all_bytes text e)
  | inr e ↦ absurd (ground (arith, h, e))
]

pub desk-Behaves : Behaves desk byte_dpapi plain_utf8
desk-Behaves = record {
  fits = desk-NtopFits;
  dotted = desk-NtopDotted;
  recovers = byte_dpapi-Recovers;
  gives_bytes = byte_dpapi-GivesBytes;
  utf8_bytes = plain_utf8-bytes;
}

abbrev pub encodes_all : List ℕ → Bool
encodes_all text = true

abbrev pub home : NetworkAddress
home = record {
  address = desk_address;
  display_name = codes "Wi-Fi";
  ethernet = false;
  wifi = true;
  has_default_gateway = true;
  likely_virtual = false;
  metric = 25;
}

abbrev pub attempt : Attempt
attempt = record {
  now = 1000;
  readable = true;
  uuid_bytes = some (replicate 16 0x5A);
  secret = some (replicate 32 7);
  path_known = true;
  save_now = 1000;
  outcome = all_well 119;
  qr_now = 1000;
}

pub attempt-Fills : Fills attempt.secret
attempt-Fills bytes h =
    let same : replicate 32 7 ≡ bytes = ground (arith, h) in rw (← same) (refl, ground arith)

abbrev pub window : Window
window = new_window (home ∷ [])

abbrev pub new_config : ReceiverConfig
new_config =
    extend_expiry
      (fresh_config desk (codes "My PC") desk_address 9000 120 1000 (some (replicate 16 0x5A))
        (replicate 32 7))
      1000
