-- ===== src/Sender/Bridge/Invariant.antt =====
-- The registry's keys, and any property of senders that the calls keep.
use android2pc_stream.Prelude.{
  ℕ, ◌+◌, ◌<◌, ◌≡◌, ◌≢◌, inl, inr, Bool, true, not, ◌||◌, some, List, [], ◌∷◌, All, arith,
  Bool-cases, Option-cases,
}
use android2pc_stream.Prelude.Int.{ℤ, is_number}
use android2pc_stream.Platform.{Platform}
use android2pc_stream.Sender.Muxer.State.{
  maximum_video_access_unit_bytes, maximum_audio_access_unit_bytes,
}
use android2pc_stream.Sender.Native.Config.{SenderConfig, validate_config}
use android2pc_stream.Sender.Native.State
use android2pc_stream.Sender.Native.State.{Sender, new_sender}
use android2pc_stream.Sender.Native.Media
use android2pc_stream.Sender.Native.Worker.{Round, run_worker}
use android2pc_stream.Sender.Bridge.{
  Registry, CreateArguments, find, find_sender, put, erase, write_bytes, stop, on_sender, replace,
  config_of, codec_known, Call, step, run_calls, native_create, native_start, native_stop,
  native_destroy, native_write_video, native_write_audio, on_unload, copy_bytes, empty_registry,
}

abbrev pub Entries : Type 0
Entries = List (ℕ × Sender)

-- No two entries have one key.
abbrev pub Distinct : Entries → Type 0
Distinct [] = Unit {0}
Distinct ((key, s) ∷ rest) = All (λ e. e.0 ≢ key) rest × Distinct rest

-- A property of senders that a new one has and every call keeps.
pub record Kept (platform : Platform) (P : Sender → Type 0) : Type 0 where
  pub created : (c : SenderConfig) → validate_config platform c ≡ true → P (new_sender c)
  pub started : (s : Sender) → P s → P (State.start platform s).0
  pub stopped : (s : Sender) (rounds : List Round) → P s → P (stop s rounds)
  pub worked : (s : Sender) (rounds : List Round) → P s → P (run_worker s rounds)
  pub wrote_video :
      (s : Sender) (unit : List ℕ) (time : ℤ) (key_frame : Bool)
      → P s
      → P (Media.write_video s unit time key_frame).0
  pub wrote_audio :
      (s : Sender) (unit : List ℕ) (time : ℤ) → P s → P (Media.write_audio s unit time).0

pub record IsValid (P : Sender → Type 0) (r : Registry) : Type 0 where
  pub next_positive : 0 < r.next_handle
  pub keys_given : All (λ e. (0 < e.0) × (e.0 < r.next_handle)) r.senders
  pub distinct : Distinct r.senders
  pub each : All (λ e. P e.1) r.senders

module _ (K : ℕ → Type 0) where
  keys-put :
      (handle : ℤ) (s : Sender) (entries : Entries)
      → All (λ e. K e.0) entries
      → All (λ e. K e.0) (put handle s entries)
  unfolding put
  keys-put handle s [] h = tt
  keys-put handle s ((key, old) ∷ rest) h = elim (Bool-cases (is_number handle key)) [
    | inl e ↦ rw e (h.0, h.1)
    | inr e ↦ rw e (h.0, keys-put handle s rest h.1)
  ]

module _ (Q : ℕ × Sender → Type 0) where
  All-erase : (handle : ℤ) (entries : Entries) → All Q entries → All Q (erase handle entries)
  unfolding erase
  All-erase handle [] h = tt
  All-erase handle ((key, s) ∷ rest) h = elim (Bool-cases (is_number handle key)) [
    | inl e ↦ rw e h.1
    | inr e ↦ rw e (h.0, All-erase handle rest h.1)
  ]

Distinct-put :
    (handle : ℤ) (s : Sender) (entries : Entries)
    → Distinct entries
    → Distinct (put handle s entries)
unfolding put
Distinct-put handle s [] h = tt
Distinct-put handle s ((key, old) ∷ rest) h = elim (Bool-cases (is_number handle key)) [
  | inl e ↦ rw e (h.0, h.1)
  | inr e ↦ rw e (keys-put (λ k. k ≢ key) handle s rest h.0, Distinct-put handle s rest h.1)
]

Distinct-erase :
    (handle : ℤ) (entries : Entries) → Distinct entries → Distinct (erase handle entries)
unfolding erase
Distinct-erase handle [] h = tt
Distinct-erase handle ((key, s) ∷ rest) h = elim (Bool-cases (is_number handle key)) [
  | inl e ↦ rw e h.1
  | inr e ↦ rw e (All-erase (λ e. e.0 ≢ key) handle rest h.0, Distinct-erase handle rest h.1)
]

keys-new :
    (next : ℕ) (entries : Entries)
    → All (λ e. (0 < e.0) × (e.0 < next)) entries
    → All (λ e. e.0 ≢ next) entries
keys-new next [] h = tt
keys-new next ((key, s) ∷ rest) h = (λ e. omega (arith, h.0.1), keys-new next rest h.1)

keys-grow :
    (next : ℕ) (entries : Entries)
    → All (λ e. (0 < e.0) × (e.0 < next)) entries
    → All (λ e. (0 < e.0) × (e.0 < next + 1)) entries
keys-grow next [] h = tt
keys-grow next ((key, s) ∷ rest) h = ((h.0.0, omega (arith, h.0.1)), keys-grow next rest h.1)

module _ (P : Sender → Type 0) where
  each-put :
      (handle : ℤ) (s : Sender) (entries : Entries)
      → P s
      → All (λ e. P e.1) entries
      → All (λ e. P e.1) (put handle s entries)
  unfolding put
  each-put handle s [] p h = tt
  each-put handle s ((key, old) ∷ rest) p h = elim (Bool-cases (is_number handle key)) [
    | inl e ↦ rw e (p, h.1)
    | inr e ↦ rw e (h.0, each-put handle s rest p h.1)
  ]

  pub each-find :
      (handle : ℤ) (s : Sender) (entries : Entries)
      → All (λ e. P e.1) entries
      → find handle entries ≡ some s
      → P s
  unfolding find
  each-find handle s [] h e = cc
  each-find handle s ((key, t) ∷ rest) h e = elim (Bool-cases (is_number handle key)) [
    | inl here ↦ let same : t ≡ s = ground arith in rw (← same) h.0
    | inr there ↦ each-find handle s rest h.1 (ground arith)
  ]

  replace-IsValid :
      (r : Registry) (handle : ℤ) (s : Sender) → P s → IsValid P r → IsValid P (replace r handle s)
  replace-IsValid r handle s p v = record {
    next_positive = v.next_positive;
    keys_given = keys-put (λ k. (0 < k) × (k < r.next_handle)) handle s r.senders v.keys_given;
    distinct = Distinct-put handle s r.senders v.distinct;
    each = each-put handle s r.senders p v.each;
  }

  on_sender-IsValid :
      (r : Registry) (handle : ℤ) (call : Sender → Sender × Bool)
      → ((s : Sender) → P s → P (call s).0)
      → IsValid P r
      → IsValid P (on_sender r handle (find_sender r handle) call).0
  unfolding find_sender
  on_sender-IsValid r handle call keep v = elim (Option-cases (find handle r.senders)) [
    | inl e ↦ rw e v
    | inr (s, e) ↦
        rw e
          (replace-IsValid r handle (call s).0 (keep s (each-find handle s r.senders v.each e)) v)
  ]

  write_bytes-IsValid :
      (r : Registry) (handle : ℤ) (bytes : List ℕ) (call : Sender → Sender × Bool)
      → ((s : Sender) → P s → P (call s).0)
      → IsValid P r
      → IsValid P (write_bytes r handle bytes call).0
  write_bytes-IsValid r handle [] call keep v = v
  write_bytes-IsValid r handle (byte ∷ bytes) call keep v = on_sender-IsValid r handle call keep v

  module _ (platform : Platform) (kept : Kept platform P) where
    create-IsValid :
        (r : Registry) (a : CreateArguments)
        → IsValid P r
        → IsValid P (native_create platform r a).0
    unfolding native_create
    create-IsValid r a v =
        elim (Bool-cases
          (not (codec_known a.video_codec) || not (validate_config platform (config_of a)))) [
            | inl refused ↦ rw refused v
            | inr taken ↦ rw taken (record {
              next_positive = omega (arith, v.next_positive);
              keys_given =
                  ((v.next_positive, omega arith), keys-grow r.next_handle r.senders v.keys_given);
              distinct = (keys-new r.next_handle r.senders v.keys_given, v.distinct);
              each = (kept.created (config_of a) (ground arith), v.each);
            })
          ]

    step-IsValid : (r : Registry) (call : Call) → IsValid P r → IsValid P (step platform r call)
    unfolding step native_start native_stop native_destroy native_write_video native_write_audio
        on_unload
    step-IsValid r (Call.create a) v = create-IsValid r a v
    step-IsValid r (Call.start handle) v =
        on_sender-IsValid r handle (State.start platform) kept.started v
    step-IsValid r (Call.stopping handle rounds) v =
        on_sender-IsValid r handle (λ s. (stop s rounds, true)) (λ s p. kept.stopped s rounds p) v
    step-IsValid r (Call.destroy handle rounds) v = record {
      next_positive = v.next_positive;
      keys_given = All-erase (λ e. (0 < e.0) × (e.0 < r.next_handle)) handle r.senders v.keys_given;
      distinct = Distinct-erase handle r.senders v.distinct;
      each = All-erase (λ e. P e.1) handle r.senders v.each;
    }
    step-IsValid r (Call.video handle unit time key_frame) v =
        let bytes = copy_bytes unit maximum_video_access_unit_bytes in
        write_bytes-IsValid r handle bytes (λ s. Media.write_video s bytes time key_frame)
          (λ s p. kept.wrote_video s bytes time key_frame p) v
    step-IsValid r (Call.audio handle unit time) v =
        let bytes = copy_bytes unit maximum_audio_access_unit_bytes in
        write_bytes-IsValid r handle bytes (λ s. Media.write_audio s bytes time)
          (λ s p. kept.wrote_audio s bytes time p) v
    step-IsValid r (Call.work handle rounds) v =
        on_sender-IsValid r handle (λ s. (run_worker s rounds, true))
          (λ s p. kept.worked s rounds p) v
    step-IsValid r (Call.unload rounds) v = record {
      next_positive = v.next_positive;
      keys_given = tt;
      distinct = tt;
      each = tt;
    }

    -- A property that a new sender of a valid configuration has and that every call on a sender keeps holds of
    -- every registered sender after any calls, whatever handles they name; and no two senders have one
    -- handle, each of which is positive and was given out before.
    pub run_calls-IsValid :
        (r : Registry) (calls : List Call) → IsValid P r → IsValid P (run_calls platform r calls)
    unfolding run_calls
    run_calls-IsValid r [] v = v
    run_calls-IsValid r (call ∷ calls) v =
        run_calls-IsValid (step platform r call) calls (step-IsValid r call v)

  pub empty_registry-IsValid : IsValid P empty_registry
  empty_registry-IsValid = record {
    next_positive = omega arith;
    keys_given = tt;
    distinct = tt;
    each = tt;
  }
