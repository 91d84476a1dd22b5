-- ===== src/Checks/BridgeChecks.antt =====
-- The theorems on the handles of the JNI bridge at concrete calls.
use android2pc_stream.Prelude.{
  ◌<◌, ◌≡◌, ◌≢◌, refl, true, false, some, List, [], ◌∷◌, codes, All, replicate, arith, ◌⊎◌,
}
use android2pc_stream.Prelude.Int.{ℤ, pos}
use android2pc_stream.Sender.Muxer.Psi.{Counters}
use android2pc_stream.Sender.Native.Config.{validate_config, is_private_ipv4}
use android2pc_stream.Sender.Native.State.{Sender, new_sender}
use android2pc_stream.Sender.Bridge.{
  Registry, CreateArguments, Call, find_sender, native_create, native_destroy, config_of,
  codec_known, run_calls, erase, empty_registry,
}
use android2pc_stream.Sender.Bridge.Invariant.{IsValid, empty_registry-IsValid}
use android2pc_stream.Sender.Bridge.Handles.{Answers, native_destroy-Answers}
use android2pc_stream.Sender.Bridge.Creation.{native_create_cases}
use android2pc_stream.Delivery.{Passes}
use android2pc_stream.Session.Application.{run_calls-Sound}
use android2pc_stream.Checks.Data.{desk, desk_address}

abbrev arguments : CreateArguments
arguments = record {
  host = some (record { bytes = desk_address; available = true });
  device_name = some (record { bytes = codes "phone"; available = true });
  port = pos 49152;
  secret = some (record { bytes = replicate 32 7; throws = false });
  latency_milliseconds = pos 120;
  video_codec = pos 2;
  audio_enabled = false;
  audio_sample_rate = pos 48000;
  audio_channels = pos 2;
}

abbrev application_calls : List Call
application_calls = Call.create arguments ∷ Call.create arguments ∷ Call.destroy (pos 2) [] ∷ []

created :
    find_sender (run_calls desk empty_registry application_calls) (pos 1)
    ≡ some (new_sender (config_of arguments))
unfolding find_sender run_calls native_create validate_config is_private_ipv4 config_of
    native_destroy erase
created = refl

application_example :
    Counters (new_sender (config_of arguments)).muxer
    × All Passes (new_sender (config_of arguments)).queue.packets
application_example =
    run_calls-Sound desk application_calls (pos 1) (new_sender (config_of arguments)) created

abbrev one_sender : Registry
one_sender = record { senders = (1, new_sender (config_of arguments)) ∷ []; next_handle = 2 }

one_sender-IsValid : IsValid (λ s. Unit {0}) one_sender
one_sender-IsValid = record {
  next_positive = omega arith;
  keys_given = ((omega arith, omega arith), tt);
  distinct = (tt, tt);
  each = (tt, tt);
}

destroyed_example :
    (let after =
        run_calls desk
          (native_destroy one_sender (pos 1) []).0
          (Call.start (pos 1) ∷ Call.create arguments ∷ []) in
      Answers 1 desk after × (1 < after.next_handle))
destroyed_example =
    native_destroy-Answers 1 desk (λ s. Unit {0}) one_sender []
      (Call.start (pos 1) ∷ Call.create arguments ∷ []) one_sender-IsValid (omega arith)

create_example :
    (let (after, handle) = native_create desk empty_registry arguments in
      ((codec_known arguments.video_codec ≡ true)
        × (validate_config desk (config_of arguments) ≡ true)
        × (0 < handle)
        × ((s : Sender) → find_sender empty_registry (pos handle) ≢ some s)
        × (find_sender after (pos handle) ≡ some (new_sender (config_of arguments)))
        × ((other : ℤ)
            → other ≢ pos handle
            → find_sender after other ≡ find_sender empty_registry other))
      ⊎ (((codec_known arguments.video_codec ≡ false)
            ⊎ (validate_config desk (config_of arguments) ≡ false))
          × (handle ≡ 0)
          × (after ≡ empty_registry)))
create_example =
    native_create_cases desk (λ s. Unit {0}) empty_registry arguments
      (empty_registry-IsValid (λ s. Unit {0}))
