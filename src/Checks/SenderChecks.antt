-- ===== src/Checks/SenderChecks.antt =====
-- The sender's theorems at concrete inputs.
use android2pc_stream.Prelude.{ℕ, ◌≡◌, ◌↔◌, true, List, [], ◌∷◌, ◌++◌, replicate, arith, All}
use android2pc_stream.Prelude.{codes}
use android2pc_stream.Prelude.Int.{pos}
use android2pc_stream.Sender.Queue.{new_queue}
use android2pc_stream.Sender.Queue.Invariant.{Op}
use android2pc_stream.Sender.Queue.Fifo.{Call, all_delivered, all_accepted, final, delivered-final}
use android2pc_stream.Sender.Muxer.Crc.{crc32_mpeg, append_crc}
use android2pc_stream.Sender.Muxer.Crc.Residue.{crc32_mpeg-append_crc}
use android2pc_stream.Sender.Muxer.State.{VideoCodec, new_muxer, video_pid}
use android2pc_stream.Sender.Muxer.Pes.{PesJob, pes_loop}
use android2pc_stream.Sender.Muxer.Loop.{Done, pes_loop-Done}
use android2pc_stream.Sender.Muxer.Write.{group_packets}
use android2pc_stream.Sender.Native.Config.{
  is_private_ipv4, is_private_word, validate_config, stream_id,
  is_private_ipv4-is_canonical_private_ipv4, parse_device_stream_id-stream_id,
}
use android2pc_stream.Sender.Native.State.{Sender, SenderStatus, Stage, new_sender}
use android2pc_stream.Sender.Native.Worker.{Attempt, Round, run_worker}
use android2pc_stream.Sender.Native.Retries
use android2pc_stream.Sender.Native.Retries.{run_worker-IsValid}
use android2pc_stream.Sender.Native.Exhaustion.{failing, GaveUp, run_worker-GaveUp}
use android2pc_stream.Receiver.Config.{is_canonical_private_ipv4}
use android2pc_stream.Receiver.StreamId.{parse_device_stream_id}
use android2pc_stream.Sender.Native.Connect.{Answers, Safe, connect_socket, connect_socket-Safe}
use android2pc_stream.Checks.Data.{desk, desk_address, desk-PtonIsWord, phone_config}
use android2pc_stream.Prelude.{front_is, back_is, false, some, refl}
use android2pc_stream.Grouping.{Group, concat, group_packets-groups}

abbrev two_batches : List Op
two_batches = Op.pushes ((1 ∷ []) ∷ (2 ∷ 3 ∷ []) ∷ []) ∷ Op.pops ∷ []

abbrev calls : List Call
calls = Call.push ((1 ∷ []) ∷ (2 ∷ []) ∷ []) ∷ Call.pop ∷ []

delivered_example :
    all_delivered (new_queue 4 8) calls ++ (final (new_queue 4 8) calls).packets
    ≡ [] ++ all_accepted (new_queue 4 8) calls
unfolding new_queue
delivered_example = delivered-final (new_queue 4 8) calls

crc_example : crc32_mpeg (append_crc (1 ∷ 2 ∷ 3 ∷ [])) ≡ 0
crc_example = crc32_mpeg-append_crc (1 ∷ 2 ∷ 3 ∷ [])

abbrev key_frame_job : PesJob
key_frame_job = record {
  pid = video_pid;
  key_frame = true;
  include_pcr = true;
  discont = true;
  pcr = 27000000;
}

pes_loop_example :
    Done key_frame_job true (new_muxer VideoCodec.avc true (pos 48000) (pos 2)) (replicate 400 7) (
      pes_loop 400 key_frame_job true
        (new_muxer VideoCodec.avc true (pos 48000) (pos 2))
        (replicate 400 7))
unfolding new_muxer
pes_loop_example =
    pes_loop-Done 400 key_frame_job true (new_muxer VideoCodec.avc true (pos 48000) (pos 2))
      (replicate 400 7) (omega arith) (omega arith) (omega arith)

abbrev null_packet : List ℕ
null_packet = 0x47 ∷ replicate 187 0xFF

group_packets_example :
    All Group (group_packets (replicate 9 null_packet))
    × (concat (group_packets (replicate 9 null_packet)) ≡ concat (replicate 9 null_packet))
group_packets_example = group_packets-groups (replicate 9 null_packet) (ground arith)

abbrev lost_phone : Sender
lost_phone = record (new_sender phone_config) {
  status = SenderStatus.connecting;
  stage = Stage.attempting;
}

abbrev attempts : List Attempt
attempts = replicate 11 Attempt.not_connected

exhausted_example : GaveUp (run_worker lost_phone (failing attempts))
unfolding new_sender
exhausted_example =
    run_worker-GaveUp attempts lost_phone refl refl (ground arith) (omega arith) (omega arith)

lost_phone-IsValid : Retries.IsValid lost_phone
unfolding new_sender
lost_phone-IsValid = ground arith

run_worker_example : Retries.IsValid (
    run_worker lost_phone (
      Round.connect Attempt.made true
      ∷ Round.transmit true false true
      ∷ Round.connect Attempt.not_encrypted true
      ∷ []))
run_worker_example =
    run_worker-IsValid lost_phone
      (Round.connect Attempt.made true
        ∷ Round.transmit true false true
        ∷ Round.connect Attempt.not_encrypted true
        ∷ [])
      lost_phone-IsValid

private_example : is_private_ipv4 desk desk_address ≡ is_canonical_private_ipv4 desk desk_address
private_example =
    is_private_ipv4-is_canonical_private_ipv4 desk desk_address desk-PtonIsWord (omega arith)

phone_config_valid : validate_config desk phone_config ≡ true
unfolding validate_config is_private_ipv4 is_private_word
phone_config_valid = refl

stream_id_example :
    (parse_device_stream_id (stream_id desk phone_config) ≡ some (codes "Pixel-7"))
    ↔ (front_is b' ' (codes "Pixel-7") ≡ false) × (back_is b' ' (codes "Pixel-7") ≡ false)
stream_id_example = parse_device_stream_id-stream_id desk phone_config phone_config_valid

abbrev answers : Answers
answers = record {
  created = true;
  accepts = λ option. true;
  connects = true;
  crypto_mode = some 2;
  polls = some (1, 2) ∷ some (2, 2) ∷ [];
}

connect_example : Safe desk 2 3 phone_config answers (connect_socket desk 2 3 phone_config answers)
connect_example = connect_socket-Safe desk 2 3 phone_config answers (omega arith)
