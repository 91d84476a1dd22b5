-- ===== src/Receiver/Status/Text.antt =====
-- pc/include/local_camera_receiver/receiver_status_text.hpp: the status line of the source's properties.
use android2pc_stream.Prelude.{ℕ, not, ◌&&◌, List, ◌++◌, is_empty, ltb, if◌then◌else◌, codes}
use android2pc_stream.Receiver.Status.{ReceiverStatus, ReceiverState, ReceiverError}

-- The default line, which no branch takes for the states that have one of their own.
abbrev waiting_text : List ℕ
waiting_text = codes "Waiting for receiver setup. Show the pairing QR to connect your phone."

abbrev streaming_text : ReceiverStatus → List ℕ
streaming_text s =
    let message = codes "Connected phone: " ++ s.connected_device in
    if not (is_empty s.peer_address)
    then message ++ codes " (" ++ s.peer_address ++ codes ")"
    else message

abbrev pub checking_text : List ℕ
checking_text = codes "Phone found. Checking the secure pairing..."

abbrev authenticating_text : ReceiverStatus → List ℕ
authenticating_text s =
    if not (is_empty s.connected_device) && ltb 0 s.accepted_packets_this_peer
    then if not s.pipe_connected
      then codes "Phone connected securely. Valid TS arriving; waiting for decoder pipe..."
      else if not s.decoder_ready
      then codes
          "Phone connected securely. Media is arriving; waiting for OBS to decode the first video frame..."
      else checking_text
    else checking_text

abbrev reconnecting_text : ReceiverStatus → List ℕ
reconnecting_text s =
    if is_empty s.connected_device
    then codes "Phone disconnected. Reconnecting automatically..."
    else codes "Reconnecting to " ++ s.connected_device ++ codes " automatically..."

abbrev listening_text : ReceiverError → List ℕ
listening_text ReceiverError.authentication =
    codes "A phone was rejected. Show a new pairing QR and scan it again."
listening_text ReceiverError.encryption_downgrade =
    codes "A phone was rejected because the secure connection did not match."
listening_text _ =
    codes "Waiting for your paired phone. Scanning the QR starts streaming automatically."

abbrev failed_text : ReceiverError → List ℕ
failed_text ReceiverError.bind =
    codes
      "Receiver error: port 9000 is unavailable. Close any duplicate receiver source, then refresh."
failed_text ReceiverError.invalid_config =
    codes "Receiver setup is missing or expired. Show a new pairing QR."
failed_text ReceiverError.startup =
    codes "Receiver could not start. Restart OBS, then refresh this status."
failed_text ReceiverError.listen =
    codes "Receiver could not start. Restart OBS, then refresh this status."
failed_text _ = codes "Receiver stopped after a connection error. Refresh this status to try again."

abbrev text_of : ReceiverState → ReceiverStatus → List ℕ
text_of ReceiverState.streaming s =
    if not (is_empty s.connected_device) then streaming_text s else waiting_text
text_of ReceiverState.authenticating s = authenticating_text s
text_of ReceiverState.reconnecting s = reconnecting_text s
text_of ReceiverState.listening s = listening_text s.error
text_of ReceiverState.failed s = failed_text s.error
text_of ReceiverState.stopped s = waiting_text
text_of ReceiverState.waiting_for_pairing s = waiting_text

unfoldable pub receiver_status_text : ReceiverStatus → List ℕ
receiver_status_text s = text_of s.state s
