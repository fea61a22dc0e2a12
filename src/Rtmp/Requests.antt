-- ===== src/Rtmp/Requests.antt =====
-- The commands of class RtmpMessageTransport of rtmp_transport.cc: the requests that wait for a
-- response, and the part of decode_msg that makes a packet of a command or data message.
pub mod Laws
pub mod Dispatch
pub mod Commands
mod Tests
use librtmp_client.Prelude.{
  ℕ, ◌+◌, Bool, true, false, List, [], ◌∷◌, ◌==◌, ◌||◌, if◌then◌else◌, drop, Option, none, some,
  Result, ok, err, ◌>>=◌, bytes_eq,
}
use librtmp_client.Amf0.Read.{rtmp_amf0_read_string, rtmp_amf0_read_number}
use librtmp_client.Rtmp.Command.{
  RtmpCommand, connect, create_stream, fmle_start, codes, double_eq, new_connect,
  new_connect_response, new_call, new_create_stream_response, new_close_stream, new_fmle_start,
  new_fmle_start_response, new_publish, new_pause, new_play, new_on_meta_data,
  rtmp_msg_amf3_command_message, rtmp_msg_amf0_command_message, rtmp_msg_amf0_data_message,
  rtmp_msg_amf3_data_message,
}
use librtmp_client.Rtmp.Command.Decode.{decode_command}

-- requestsMap_: a transaction number and the name of the command. Its keys are doubles, of which a NaN
-- is never found.
abbrev pub Requests : Type 0
Requests = List (ℕ × List ℕ)

unfoldable pub find_request : ℕ → Requests → Option (List ℕ)
unfolding double_eq
find_request number [] = none
find_request number ((n, name) ∷ requests) =
    if double_eq n number then some name else find_request number requests

-- `requestsMap_[number] = name`
unfoldable pub put_request : ℕ → List ℕ → Requests → Requests
unfolding double_eq
put_request number name [] = (number, name) ∷ []
put_request number name ((n, old) ∷ requests) =
    let rest = put_request number name requests in
    if double_eq n number then (n, name) ∷ requests else (n, old) ∷ rest

-- on_send_message, on the packets of commands.
unfoldable pub remember : RtmpCommand → Requests → Requests
unfolding put_request
remember (connect name number obj) requests = put_request number name requests
remember (create_stream name number) requests = put_request number name requests
remember (fmle_start name number stream) requests = put_request number name requests
remember _ requests = requests

-- The object for the response to a request.
unfoldable pub response_packet : List ℕ → Result RtmpCommand
unfolding new_connect_response new_create_stream_response new_fmle_start_response
response_packet name =
    if bytes_eq name (codes "connect")
    then ok new_connect_response
    else if bytes_eq name (codes "createStream")
    then ok (new_create_stream_response 0 0)
    else if bytes_eq name (codes "releaseStream")
    then ok (new_fmle_start_response 0)
    else if bytes_eq name (codes "FCPublish")
    then ok (new_fmle_start_response 0)
    else if bytes_eq name (codes "FCUnpublish")
    then ok (new_fmle_start_response 0)
    else err 2

-- The object for any other command, in a message of that type.
unfoldable pub command_packet : ℕ → List ℕ → Result RtmpCommand
unfolding new_connect new_close_stream new_play new_pause new_fmle_start new_publish
    new_on_meta_data new_call
command_packet type command =
    if bytes_eq command (codes "connect")
    then ok new_connect
    else if bytes_eq command (codes "createStream")
    then ok new_close_stream
    else if bytes_eq command (codes "play")
    then ok new_play
    else if bytes_eq command (codes "pause")
    then ok new_pause
    else if bytes_eq command (codes "releaseStream")
    then ok new_fmle_start
    else if bytes_eq command (codes "FCPublish")
    then ok new_fmle_start
    else if bytes_eq command (codes "publish")
    then ok new_publish
    else if bytes_eq command (codes "FCUnpublish")
    then ok new_fmle_start
    else if bytes_eq command (codes "@setDataFrame")
    then ok new_on_meta_data
    else if bytes_eq command (codes "onMetaData")
    then ok new_on_meta_data
    else if bytes_eq command (codes "closeStream")
    then ok new_close_stream
    else if type == rtmp_msg_amf0_command_message || type == rtmp_msg_amf3_command_message
    then ok new_call
    else err 2

abbrev pub found : Option (List ℕ) → Result (List ℕ)
found (some name) = ok name
found none = err 2

unfoldable pub request_name : ℕ → Requests → Result (List ℕ)
unfolding find_request
request_name number requests = found (find_request number requests)

-- An AMF3 command message has one byte in front of its AMF0 values.
unfoldable pub body_offset : ℕ → ℕ
body_offset type = if type == rtmp_msg_amf3_command_message then 1 else 0

-- The object that decode is called on, by the first values of the message.
unfoldable pub packet_for : Requests → ℕ → List ℕ → Result RtmpCommand
unfolding request_name response_packet command_packet
packet_for requests type data' = do
  (a, command) ← rtmp_amf0_read_string data' []
  if bytes_eq command (codes "_result") || bytes_eq command (codes "_error")
      then (do
        (b, number) ← rtmp_amf0_read_number (drop a data')
        name ← request_name number requests
        response_packet name)
      else command_packet type command

-- decode_msg, on the types of command and data messages: what it returns, and the packet.
unfoldable pub decode_command_msg : Requests → ℕ → List ℕ → Result (ℕ × RtmpCommand)
unfolding packet_for body_offset decode_command
decode_command_msg requests type body = do
  fresh ← packet_for requests type (drop (body_offset type) body)
  (n, packet) ← decode_command fresh (drop (body_offset type) body)
  ok (body_offset type + n, packet)

unfoldable pub is_command_msg : ℕ → Bool
is_command_msg type =
    type == rtmp_msg_amf0_command_message
    || (type == rtmp_msg_amf3_command_message
        || (type == rtmp_msg_amf0_data_message || type == rtmp_msg_amf3_data_message))
