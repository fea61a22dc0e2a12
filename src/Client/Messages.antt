-- ===== src/Client/Messages.antt =====
-- The packets that the client of rtmpclient.cc sends: connectApp, createStream, publish and play.
use librtmp_client.Prelude.{
  ℕ, zero, suc, ◌+◌, ◌/◌, ◌%◌, true, List, [], ◌∷◌, ◌++◌, ◌==◌, ltb, if◌then◌else◌, none, some,
}
use librtmp_client.Amf0.Value.{Properties, string, null, no_properties}
use librtmp_client.Amf0.Hashtable.{set}
use librtmp_client.Amf0.Copy.{c_string}
use librtmp_client.Rtmp.Control.{
  set_window_ack_size, set_chunk_size, user_control, set_buffer_length,
}
use librtmp_client.Rtmp.Command.{
  connect, call, create_stream, publish, play, codes, double_one, double_two, double_three,
  double_minus_one, create_release_stream, create_fc_publish,
}
use librtmp_client.Client.Packets.{RtmpBasePacket, control, command}
use librtmp_client.Client.State.{RtmpClient}

-- std::to_string of a number below 10 ^ 10.
unfoldable pub digits : ℕ → ℕ → List ℕ
digits zero n = []
digits (suc f) n =
    let front = digits f (n / 10) in if ltb n 10 then (48 + n) ∷ [] else front ++ (48 + n % 10) ∷ []

-- A message that the client sends: the packet and its stream.
abbrev pub Outgoing : Type 0
Outgoing = RtmpBasePacket × ℕ

-- connectApp: the packets.
unfoldable pub connect_object : List ℕ → List ℕ → ℕ → Properties
unfolding set digits
connect_object stream ip port =
    set (codes "tcUrl")
      (some (
        string
          (c_string (codes "rtmp://" ++ ip ++ codes ":" ++ digits 10 port ++ codes "/" ++ stream))))
      (set (codes "flashVer") (some (string (codes "Jack He Rtmp Client(v0.0.1)"))) (
        set (codes "type") (some (string (codes "nonprivate")))
          (set (codes "app") (some (string (c_string stream))) no_properties)))

unfoldable pub connect_packets : {T : Type 0} → RtmpClient T → List Outgoing
unfolding connect_object
connect_packets c =
    (command (connect (codes "connect") double_one (connect_object c.rtmp_stream c.ip c.port)), 0)
    ∷ (control (set_window_ack_size 2500000), 0)
    ∷ []

abbrev pub double_four : ℕ
double_four = 0x4010000000000000

abbrev pub double_five : ℕ
double_five = 0x4014000000000000

-- createStream: the packets.
unfoldable pub create_packets : ℕ → List ℕ → List Outgoing
unfolding create_release_stream create_fc_publish
create_packets dir stream =
    if dir == 0
    then (command (create_release_stream stream), 0)
      ∷ (command (create_fc_publish stream), 0)
      ∷ (command (create_stream (codes "createStream") double_four), 0)
      ∷ []
    else (command (create_stream (codes "createStream") double_two), 0)
      ∷ (command (call (codes "_checkbw") double_three (some null) none), 0)
      ∷ []

-- RtmpPublishClient::publish and RtmpPlayClient::play: the packets.
unfoldable pub publish_packets : List ℕ → ℕ → List Outgoing
publish_packets stream streamid =
    (control (set_chunk_size 60000), 0)
    ∷ (command (publish (codes "publish") 0 stream (codes "live")), streamid)
    ∷ []

unfoldable pub play_packets : List ℕ → List ℕ → ℕ → List Outgoing
unfolding c_string
play_packets app stream streamid =
    (
      command
          (call (codes "getStreamLength") double_four (some null) (some (string (c_string app)))),
      0,
    )
    ∷ (
      command (play (codes "play") double_five stream double_minus_one double_minus_one true),
      streamid,
    )
    ∷ (control (user_control set_buffer_length 0 3), 0)
    ∷ []
