-- ===== src/Receiver/Source/Created.antt =====
-- The source's constructor, and the audio that it passes on.
use android2pc_stream.Prelude.{
  ℕ, zero, suc, ◌+◌, ◌/◌, ◌%◌, ◌^◌, ◌<◌, ◌≡◌, refl, ap, ◌∙◌, inl, inr, ◌⊎◌, true, false, not, ◌&&◌,
  ◌||◌, Option, none, some, List, [], ◌∷◌, ◌++◌, length, ltb, ◌==◌, length-append, starts_with,
  if◌then◌else◌, arith, if_ind, Bool-cases,
}
use android2pc_stream.Receiver.Config.{is_canonical_uuid}
use android2pc_stream.Receiver.Sink
use android2pc_stream.Receiver.Sink.{Sink, is_pipe_name, pipe_prefix}
use android2pc_stream.Receiver.Source.{
  Settings, Creation, Source, Mix, ChildAudio, choose_pipe_id, migrate, source_create, pipe_name,
  copy_channels, copy_mixes, audio_render,
}

starts_with_self : (front rest : List ℕ) → starts_with (front ++ rest) front ≡ true
starts_with_self [] [] = refl
starts_with_self [] (c ∷ rest) = refl
starts_with_self (c ∷ front) rest = ground (arith, starts_with_self front rest)

pipe_name-length : (id : List ℕ) → length (pipe_name id) ≡ 31 + length id
pipe_name-length id = length-append pipe_prefix id ∙ refl

uuid-length : (id : List ℕ) → is_canonical_uuid id ≡ true → length id ≡ 36
unfolding is_canonical_uuid
uuid-length id h = ground arith

pipe_name-accepted :
    (id : List ℕ) → is_canonical_uuid id ≡ true → is_pipe_name (pipe_name id) ≡ true
unfolding is_pipe_name
pipe_name-accepted id h =
    let sized : length (pipe_name id) ≡ 67 = omega (arith, pipe_name-length id, uuid-length id h) in
    rw (sized, starts_with_self pipe_prefix id) refl

migrate_twice : (s : Settings) → migrate (migrate s) ≡ migrate s
unfolding migrate
migrate_twice s = elim (Bool-cases s.software_decoder_migration) [
  | inl e ↦ rw e refl
  | inr e ↦ rw e refl
]

-- The settings that a construction leaves.
settings_made :
    (idle : Sink) (settings : Settings) (c : Creation)
    → is_canonical_uuid (choose_pipe_id settings.pipe_id c.uuid_bytes) ≡ true
    → (source_create idle settings c).0
      ≡ migrate (record settings { pipe_id = choose_pipe_id settings.pipe_id c.uuid_bytes })
unfolding source_create
settings_made idle settings c h =
    let pipe_id = choose_pipe_id settings.pipe_id c.uuid_bytes in
    let migrated = migrate (record settings { pipe_id = pipe_id }) in
    let sink = Sink.start idle (pipe_name pipe_id) in
    if_ind (λ (made : Settings × Option Source). made.0 ≡ migrated)
      (not (is_canonical_uuid pipe_id)) (settings, none) _ (λ e. absurd (ground arith))
      (λ e.
        if_ind (λ (made : Settings × Option Source). made.0 ≡ migrated)
          (not sink.1 || not c.settings_made || not c.child_made || not c.child_added)
          (migrated, none) _ (λ f. refl) (λ f. refl))

chosen_kept :
    (id : List ℕ) (uuid_bytes : Option (List ℕ))
    → is_canonical_uuid id ≡ true
    → choose_pipe_id id uuid_bytes ≡ id
unfolding choose_pipe_id
chosen_kept id uuid_bytes h = rw h refl

migrate-id : (s : Settings) → (migrate s).pipe_id ≡ s.pipe_id
unfolding migrate
migrate-id s = ground arith

migrate-software :
    (s : Settings)
    → ((migrate s).software_decoder_migration ≡ true)
      × ((migrate s).hardware_decode ≡ (s.software_decoder_migration && s.hardware_decode))
unfolding migrate
migrate-software s = ground arith

-- Where a canonical identifier is saved or made, a construction leaves settings with a canonical identifier
-- that makes a pipe name that the sink accepts, marked as migrated, and with hardware decoding only where it
-- was set after an earlier migration; and a later construction from them leaves them as they are.
pub source_create-settings :
    (idle : Sink) (settings : Settings) (c : Creation)
    → is_canonical_uuid (choose_pipe_id settings.pipe_id c.uuid_bytes) ≡ true
    → (let made = (source_create idle settings c).0 in
        (is_canonical_uuid made.pipe_id ≡ true)
        × (is_pipe_name (pipe_name made.pipe_id) ≡ true)
        × (made.software_decoder_migration ≡ true)
        × (made.hardware_decode ≡ (settings.software_decoder_migration && settings.hardware_decode))
        × ((idle' : Sink) (c' : Creation) → (source_create idle' made c').0 ≡ made))
source_create-settings idle settings c h =
    let named = record settings { pipe_id = choose_pipe_id settings.pipe_id c.uuid_bytes } in
    let canonical : is_canonical_uuid (migrate named).pipe_id ≡ true = rw (migrate-id named) h in
    rw (settings_made idle settings c h) (
      canonical,
      pipe_name-accepted (migrate named).pipe_id canonical,
      (migrate-software named).0,
      (migrate-software named).1,
      λ idle' c'.
          let kept = chosen_kept (migrate named).pipe_id c'.uuid_bytes canonical in
          settings_made idle' (migrate named) c' (rw kept canonical)
          ∙ ap (λ id. migrate (record (migrate named) { pipe_id = id })) kept
          ∙ migrate_twice named,
    )

copy_channels_lem :
    (child output : Mix) (mix channels m c : ℕ)
    → copy_channels child mix channels output m c
      ≡ (if m == mix && ltb c channels then child m c else output m c)
unfolding copy_channels
copy_channels_lem child output mix zero m c = ground arith
copy_channels_lem child output mix (suc channels) m c =
    ground (arith, copy_channels_lem child output mix channels m c)

copy_mixes_lem :
    (child output : Mix) (mixers channels mixes m c : ℕ)
    → copy_mixes child mixers channels mixes output m c ≡ (
        if ltb m mixes && not (mixers / 2 ^ m % 2 == 0) && ltb c channels
        then child m c
        else output m c)
unfolding copy_mixes
copy_mixes_lem child output mixers channels zero m c = ground arith
copy_mixes_lem child output mixers channels (suc mixes) m c =
    let before = copy_mixes child mixers channels mixes output in
    let rest = copy_mixes_lem child output mixers channels mixes m c in
    if_ind
      (λ (made : Mix). made m c ≡ (
        if ltb m (suc mixes) && not (mixers / 2 ^ m % 2 == 0) && ltb c channels
        then child m c
        else output m c))
      (mixers / 2 ^ mixes % 2 == 0) before (copy_channels child mixes channels before)
      (λ e. elim (Bool-cases (m == mixes)) [
        | inl same ↦
            let f : m ≡ mixes = ground arith in
            let g = ap (λ (k : ℕ). mixers / 2 ^ k % 2) f in ground (arith, rest, g)
        | inr other ↦ ground (arith, rest)
      ])
      (λ e. elim (Bool-cases (m == mixes)) [
        | inl same ↦
            let f : m ≡ mixes = ground arith in
            let g = ap (λ (k : ℕ). mixers / 2 ^ k % 2) f in
            ground (arith, rest, g, copy_channels_lem child before mixes channels m c)
        | inr other ↦ ground (arith, rest, copy_channels_lem child before mixes channels m c)
      ])

-- Where the source has its child, and the child's audio is not pending and has a time stamp, the render answers
-- with that time stamp, and its output has the child's samples in each channel that OBS counts of each mix
-- that is selected, and nothing else changed; otherwise it answers false.
pub audio_render_cases :
    (maximum_mixes : ℕ) (s : Source) (audio : ChildAudio) (mixers channels : ℕ) (output : Mix)
    → ((audio_render maximum_mixes s audio mixers channels output ≡ none)
        × ((s.has_child ≡ false) ⊎ (audio.pending ≡ true) ⊎ (audio.timestamp ≡ 0)))
      ⊎ ((made : Mix) × (audio_render maximum_mixes s audio mixers channels output
            ≡ some (audio.timestamp, made))
          × (s.has_child ≡ true)
          × (audio.pending ≡ false)
          × (0 < audio.timestamp)
          × ((m c : ℕ)
              → made m c ≡ (
                  if ltb m maximum_mixes && not (mixers / 2 ^ m % 2 == 0) && ltb c channels
                  then audio.samples m c
                  else output m c)))
unfolding audio_render
audio_render_cases maximum_mixes s audio mixers channels output = elim (Bool-cases s.has_child) [
  | inr gone ↦ inl (rw gone refl, inl gone)
  | inl child ↦ elim (Bool-cases audio.pending) [
    | inl waits ↦ inl (rw (child, waits) refl, inr (inl waits))
    | inr ready ↦ elim (Bool-cases (audio.timestamp == 0)) [
      | inl zero_time ↦ inl (rw (child, ready, zero_time) refl, inr (inr (ground arith)))
      | inr timed ↦ inr (
        copy_mixes audio.samples mixers channels maximum_mixes output,
        rw (child, ready, timed) refl,
        child,
        ready,
        ground arith,
        copy_mixes_lem audio.samples output mixers channels maximum_mixes,
      )
    ]
  ]
]
