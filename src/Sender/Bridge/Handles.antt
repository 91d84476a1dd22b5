-- ===== src/Sender/Bridge/Handles.antt =====
-- What a handle that was destroyed still means, and what a call on one handle does to the others.
use mathlib.Core.Path.{subst}
use android2pc_stream.Prelude.{
  ℕ, ◌<◌, ◌≡◌, ◌≢◌, refl, inl, inr, Bool, true, false, not, ◌||◌, ◌==◌, Option, none, List, [], ◌∷◌,
  replicate, length, all, All, arith, Bool-cases, Option-cases, zero, suc,
}
use android2pc_stream.Prelude.Int.{ℤ, pos}
use android2pc_stream.Platform.{Platform}
use android2pc_stream.Sender.Native.Config.{SenderConfig, validate_config}
use android2pc_stream.Sender.Native.State
use android2pc_stream.Sender.Native.State.{Sender, SenderStatus, Stage, finish_stop, request_stop}
use android2pc_stream.Sender.Native.Worker.{Round, run_worker}
use android2pc_stream.Sender.Bridge.{
  Registry, JavaBytes, CreateArguments, codec_known, config_of, write_bytes, find, find_sender, put,
  erase, stop, on_sender, Call, step, run_calls, native_create, native_start, native_stop,
  native_destroy, native_write_video, native_write_audio, native_status, native_error,
  native_queue_percent, on_unload,
}
use android2pc_stream.Sender.Bridge.Invariant.{Entries, Distinct, IsValid}

find-put-none :
    (h other : ℤ) (s : Sender) (entries : Entries)
    → find h entries ≡ none
    → find h (put other s entries) ≡ none
unfolding find put
find-put-none h other s [] e = refl
find-put-none h other s ((key, old) ∷ rest) e = ground (arith, find-put-none h other s rest)

find-erase-none :
    (h other : ℤ) (entries : Entries) → find h entries ≡ none → find h (erase other entries) ≡ none
unfolding find erase
find-erase-none h other [] e = refl
find-erase-none h other ((key, old) ∷ rest) e = ground (arith, find-erase-none h other rest)

none_of_keys :
    (k : ℕ) (entries : Entries) → All (λ e. e.0 ≢ k) entries → find (pos k) entries ≡ none
unfolding find
none_of_keys k [] h = refl
none_of_keys k ((key, s) ∷ rest) h = ground (arith, h.0, none_of_keys k rest h.1)

find-erase_self :
    (k : ℕ) (entries : Entries) → Distinct entries → find (pos k) (erase (pos k) entries) ≡ none
unfolding find erase
find-erase_self k [] d = refl
find-erase_self k ((key, s) ∷ rest) d = elim (Bool-cases (k == key)) [
  | inl e ↦
      let same : key ≡ k = ground arith in
      rw e (none_of_keys k rest (subst (λ (x : ℕ). All (λ e. e.0 ≢ x) rest) same d.0))
  | inr e ↦ rw (e, find, e) (find-erase_self k rest d.1)
]

-- A handle that was given out and is not registered.
pub record Gone (k : ℕ) (r : Registry) : Type 0 where
  pub given : k < r.next_handle
  pub missing : find_sender r (pos k) ≡ none

module _ (k : ℕ) (platform : Platform) where
  on_sender-Gone :
      (r : Registry) (handle : ℤ) (call : Sender → Sender × Bool)
      → Gone k r
      → Gone k (on_sender r handle (find_sender r handle) call).0
  unfolding find_sender
  on_sender-Gone r handle call g = elim (Option-cases (find handle r.senders)) [
    | inl e ↦ rw e g
    | inr (s, e) ↦ rw e (record {
      given = g.given;
      missing = find-put-none (pos k) handle (call s).0 r.senders g.missing;
    })
  ]

  write_bytes-Gone :
      (r : Registry) (handle : ℤ) (bytes : List ℕ) (call : Sender → Sender × Bool)
      → Gone k r
      → Gone k (write_bytes r handle bytes call).0
  write_bytes-Gone r handle [] call g = g
  write_bytes-Gone r handle (byte ∷ bytes) call g = on_sender-Gone r handle call g

  create-Gone :
      (r : Registry) (a : CreateArguments) → Gone k r → Gone k (native_create platform r a).0
  unfolding native_create find_sender find
  create-Gone r a g =
      elim (Bool-cases
        (not (codec_known a.video_codec) || not (validate_config platform (config_of a)))) [
          | inl refused ↦ rw refused g
          | inr taken ↦ rw taken (record {
            given = omega (arith, g.given);
            missing = ground (arith, g.missing, g.given);
          })
        ]

  step-Gone : (r : Registry) (call : Call) → Gone k r → Gone k (step platform r call)
  unfolding step native_start native_stop native_destroy native_write_video native_write_audio
      on_unload find_sender find
  step-Gone r (Call.create a) g = create-Gone r a g
  step-Gone r (Call.start handle) g = on_sender-Gone r handle _ g
  step-Gone r (Call.stopping handle rounds) g =
      on_sender-Gone r handle (λ s. (stop s rounds, true)) g
  step-Gone r (Call.destroy handle rounds) g = record {
    given = g.given;
    missing = find-erase-none (pos k) handle r.senders g.missing;
  }
  step-Gone r (Call.video handle unit time key_frame) g = write_bytes-Gone r handle _ _ g
  step-Gone r (Call.audio handle unit time) g = write_bytes-Gone r handle _ _ g
  step-Gone r (Call.work handle rounds) g = on_sender-Gone r handle _ g
  step-Gone r (Call.unload rounds) g = record { given = g.given; missing = refl }

  pub run_calls-Gone :
      (r : Registry) (calls : List Call) → Gone k r → Gone k (run_calls platform r calls)
  unfolding run_calls
  run_calls-Gone r [] g = g
  run_calls-Gone r (call ∷ calls) g =
      run_calls-Gone (step platform r call) calls (step-Gone r call g)

  -- What a handle answers that is not registered.
  pub record Answers (r : Registry) : Type 0 where
    pub status_stopped : native_status r (pos k) ≡ 0
    pub error_invalid : native_error r (pos k) ≡ 1
    pub percent_zero : native_queue_percent r (pos k) ≡ 0
    pub start_refused : native_start platform r (pos k) ≡ (r, false)
    pub video_refused :
        (unit : Option JavaBytes) (time : ℤ) (key_frame : Bool)
        → native_write_video r (pos k) unit time key_frame ≡ (r, false)
    pub audio_refused :
        (unit : Option JavaBytes) (time : ℤ) → native_write_audio r (pos k) unit time ≡ (r, false)

  write_bytes_missing :
      (r : Registry) (bytes : List ℕ) (call : Sender → Sender × Bool)
      → find_sender r (pos k) ≡ none
      → write_bytes r (pos k) bytes call ≡ (r, false)
  write_bytes_missing r [] call e = refl
  write_bytes_missing r (byte ∷ bytes) call e = rw e refl

  Gone-Answers : (r : Registry) → Gone k r → Answers r
  unfolding native_status native_error native_queue_percent native_start native_write_video
      native_write_audio
  Gone-Answers r g = record {
    status_stopped = rw g.missing refl;
    error_invalid = rw g.missing refl;
    percent_zero = rw g.missing refl;
    start_refused = rw g.missing refl;
    video_refused = λ unit time key_frame. write_bytes_missing r _ _ g.missing;
    audio_refused = λ unit time. write_bytes_missing r _ _ g.missing;
  }

  -- After a handle that was given out is destroyed, and whatever calls follow, it answers as an unknown one:
  -- stopped, with the error of an invalid configuration, an empty queue, and false for a start and for each
  -- unit, which change nothing. It is never given out again.
  pub native_destroy-Answers :
      (P : Sender → Type 0) (r : Registry) (rounds : List Round) (calls : List Call)
      → IsValid P r
      → k < r.next_handle
      → (let after = run_calls platform (native_destroy r (pos k) rounds).0 calls in
          Answers after × (k < after.next_handle))
  unfolding native_destroy find_sender
  native_destroy-Answers P r rounds calls v given =
      let g =
        run_calls-Gone (native_destroy r (pos k) rounds).0 calls
          (record { given = given; missing = find-erase_self k r.senders v.distinct }) in
      (Gone-Answers _ g, g.given)

all_zero : (n : ℕ) → all (λ byte. byte == 0) (replicate n 0) ≡ true
all_zero zero = refl
all_zero (suc n) = all_zero n

zero_secret :
    (platform : Platform) (c : SenderConfig)
    → all (λ byte. byte == 0) c.secret ≡ true
    → validate_config platform c ≡ false
unfolding validate_config
zero_secret platform c h = ground arith

-- Whatever rounds its worker still makes, a stopped sender cannot be started again: its secret is gone, so a
-- start answers false and leaves it failed with the error of an invalid configuration.
pub start-stop :
    (platform : Platform) (s : Sender) (rounds : List Round)
    → ((State.start platform (stop s rounds)).1 ≡ false)
      × ((State.start platform (stop s rounds)).0.status ≡ SenderStatus.failed)
      × ((State.start platform (stop s rounds)).0.stage ≡ Stage.no_worker)
unfolding State.start stop finish_stop
start-stop platform s rounds =
    let e =
      zero_secret platform (stop s rounds).config
        (all_zero (length (run_worker (request_stop s) rounds).config.secret)) in
    rw e (refl, refl, refl)
