-- ===== src/Client/Packets.antt =====
-- The packets of the program as one type, and what recvRtmpMessage and sendRtmpMessage of
-- rtmp_transport.cc do with them.
use librtmp_client.Prelude.{
  ℕ, List, ◌==◌, ◌||◌, if◌then◌else◌, Option, none, some, Result, ok, err, fault, out_of_fuel,
  ◌>>=◌,
}
use librtmp_client.Rtmp.Control.{RtmpPacket, decode_msg}
use librtmp_client.Rtmp.Header.{init}
use librtmp_client.Rtmp.Send.{do_send_message}
use librtmp_client.Rtmp.Command.{RtmpCommand}
use librtmp_client.Rtmp.Command.Size.{command_cs_id, command_msg_type, command_len}
use librtmp_client.Rtmp.Command.Encode.{encode_command_packet}
use librtmp_client.Rtmp.Media.{
  RtmpMedia, audio, avc, video, decode_media_msg, media_cs_id, media_msg_type, media_len,
  encode_media, rtmp_msg_audio_message, rtmp_msg_video_message,
}
use librtmp_client.Rtmp.Requests.{Requests, remember, decode_command_msg, is_command_msg}
use librtmp_client.Rtmp.Transport.{RtmpMessageTransport, RtmpMessage, send_rtmp_message}
use librtmp_client.Rtmp.Transport.Receive.{recv_rtmp_message}

pub data RtmpBasePacket : Type 0 where
  control : RtmpPacket → RtmpBasePacket
  command : RtmpCommand → RtmpBasePacket
  media : RtmpMedia → RtmpBasePacket

-- The packet that is stored; a negative result of decode_msg stores none, and is not looked at.
unfoldable pub command_or_none : Result (ℕ × RtmpCommand) → Result (Option RtmpBasePacket)
command_or_none (ok (n, p)) = ok (some (command p))
command_or_none (err n) = ok none
command_or_none fault = fault
command_or_none out_of_fuel = out_of_fuel

unfoldable pub media_or_none : Option RtmpMedia → Option RtmpBasePacket
media_or_none none = none
media_or_none (some p) = some (media p)

unfoldable pub control_or_none : Option RtmpPacket → Option RtmpBasePacket
control_or_none none = none
control_or_none (some p) = some (control p)

unfoldable pub packet_of : Requests → RtmpMessage → Result (Option RtmpBasePacket)
unfolding command_or_none media_or_none control_or_none decode_media_msg decode_command_msg
    decode_msg is_command_msg
packet_of requests msg =
    let type = msg.rtmp_header.msg_type_id in
    if type == rtmp_msg_audio_message || type == rtmp_msg_video_message
    then (decode_media_msg type msg.rtmp_header.timestamp msg.rtmp_body >>= λ p.
        ok (media_or_none p))
    else if is_command_msg type
    then command_or_none (decode_command_msg requests type msg.rtmp_body)
    else ok (control_or_none ((decode_msg type msg.rtmp_body).1))

-- The members of the transport: those of RtmpMessageTransport, and requestsMap_.
abbrev pub Transport : Type 0
Transport = RtmpMessageTransport × Requests

unfoldable pub packet_received :
    Requests → Result (ℕ × Option RtmpMessage) → Result (ℕ × Option RtmpBasePacket)
unfolding packet_of
packet_received requests (ok (n, some msg)) = packet_of requests msg >>= λ p. ok (n, p)
packet_received requests (ok (n, none)) = ok (n, none)
packet_received requests (err n) = err n
packet_received requests fault = fault
packet_received requests out_of_fuel = out_of_fuel

-- recvRtmpMessage with its packet; `garbage` is what an unset member may hold.
unfoldable pub recv_packet : ℕ → Transport → List ℕ → Transport × Result (ℕ × Option RtmpBasePacket)
unfolding recv_rtmp_message packet_received
recv_packet garbage (t, requests) data' =
    let (t', r) = recv_rtmp_message garbage t data' in ((t', requests), packet_received requests r)

-- sendRtmpMessage for a payload.
unfoldable pub send_payload :
    RtmpMessageTransport → ℕ → ℕ → ℕ → ℕ → ℕ → List ℕ → Result (List (List ℕ))
unfolding do_send_message init
send_payload t cs_id msg_type streamid msg_length timestamp payload =
    do_send_message t.out_chunk_size
      (record init {
        chunk_stream_id = cs_id;
        msg_type_id = msg_type;
        msg_stream_id = streamid;
        msg_length = msg_length;
        timestamp = timestamp;
      })
      payload

unfoldable pub media_time : RtmpMedia → ℕ
media_time (audio flag t data') = t
media_time (avc sps pps) = 0
media_time (video t keyframe nalus) = t

-- sendRtmpMessage, by the kind of packet.
unfoldable pub send_packet : Transport → RtmpBasePacket → ℕ → Result (Transport × List (List ℕ))
unfolding send_rtmp_message send_payload remember encode_command_packet encode_media media_len
    command_cs_id command_msg_type command_len media_cs_id media_msg_type media_time
send_packet (t, requests) (control p) streamid = do
  (t', blocks) ← send_rtmp_message t p streamid
  ok ((t', requests), blocks)
send_packet (t, requests) (command p) streamid = do
  payload ← encode_command_packet p
  blocks ← send_payload t (command_cs_id p) (command_msg_type p) streamid (command_len p) 0 payload
  ok ((t, remember p requests), blocks)
send_packet (t, requests) (media p) streamid = do
  size ← media_len p
  payload ← encode_media p size
  blocks ← send_payload t (media_cs_id p) (media_msg_type p) streamid size (media_time p) payload
  ok ((t, requests), blocks)
