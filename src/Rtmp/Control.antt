-- ===== src/Rtmp/Control.antt =====
-- The packets of the protocol control messages of net/app_protocol/rtmp/rtmp_stack_packet.cc. Each
-- constructor is a class with its fields, which are integers as bit patterns.
pub mod Codec
use librtmp_client.Prelude.{
  ℕ, ◌+◌, ◌≤◌, ◌<◌, List, [], ◌∷◌, ◌++◌, ltb, ◌==◌, if◌then◌else◌, length, drop, Result, ok, err,
  fault, ◌>>=◌, out_of_fuel, Option, some, none,
}
use librtmp_client.NetIo.{write_int8, write_int16, write_int32, read_int8, read_int32}

pub data RtmpPacket : Type 0 where
  set_window_ack_size : (window_ack_size : ℕ) → RtmpPacket
  acknowledgement : (sequence_number : ℕ) → RtmpPacket
  set_chunk_size : (chunk_size : ℕ) → RtmpPacket
  set_peer_bandwidth : (bandwidth type : ℕ) → RtmpPacket
  user_control : (event_type event_data extra_data : ℕ) → RtmpPacket

abbrev pub set_buffer_length : ℕ
set_buffer_length = 0x03

abbrev pub fms_event0 : ℕ
fms_event0 = 0x1a

abbrev pub rtmp_cid_protocol_control : ℕ
rtmp_cid_protocol_control = 0x02

abbrev pub rtmp_msg_set_chunk_size : ℕ
rtmp_msg_set_chunk_size = 0x01

abbrev pub rtmp_msg_acknowledgement : ℕ
rtmp_msg_acknowledgement = 0x03

abbrev pub rtmp_msg_user_control_message : ℕ
rtmp_msg_user_control_message = 0x04

abbrev pub rtmp_msg_window_acknowledgement_size : ℕ
rtmp_msg_window_acknowledgement_size = 0x05

abbrev pub rtmp_msg_set_peer_bandwidth : ℕ
rtmp_msg_set_peer_bandwidth = 0x06

unfoldable pub get_cs_id : RtmpPacket → ℕ
get_cs_id p = rtmp_cid_protocol_control

unfoldable pub get_msg_type : RtmpPacket → ℕ
get_msg_type (set_window_ack_size n) = rtmp_msg_window_acknowledgement_size
get_msg_type (acknowledgement n) = rtmp_msg_acknowledgement
get_msg_type (set_chunk_size n) = rtmp_msg_set_chunk_size
get_msg_type (set_peer_bandwidth n t) = rtmp_msg_set_peer_bandwidth
get_msg_type (user_control t d x) = rtmp_msg_user_control_message

unfoldable pub get_pkg_len : RtmpPacket → ℕ
get_pkg_len (set_window_ack_size n) = 4
get_pkg_len (acknowledgement n) = 4
get_pkg_len (set_chunk_size n) = 4
get_pkg_len (set_peer_bandwidth n t) = 5
get_pkg_len (user_control t d x) =
    2 + (if t == fms_event0 then 1 else 4) + (if t == set_buffer_length then 4 else 0)

-- The bytes written at `payload`, with `size` bytes of room.
unfoldable pub encode_pkg : RtmpPacket → ℕ → Result (List ℕ)
unfolding get_pkg_len
encode_pkg (set_window_ack_size n) size = if ltb size 4 then err 1 else ok (write_int32 n)
encode_pkg (acknowledgement n) size = if ltb size 4 then err 1 else ok (write_int32 n)
encode_pkg (set_chunk_size n) size = if ltb size 4 then err 1 else ok (write_int32 n)
encode_pkg (set_peer_bandwidth n t) size =
    if ltb size 5 then err 1 else ok (write_int32 n ++ write_int8 t)
encode_pkg (user_control t d x) size =
    if ltb size (get_pkg_len (user_control t d x))
    then err 1
    else ok (
        write_int16 t
        ++ ((if t == fms_event0 then write_int8 d else write_int32 d)
            ++ (if t == set_buffer_length then write_int32 x else [])))

-- The `decode` of the classes that hold one 32-bit field.
unfoldable pub decode_int32 : (ℕ → RtmpPacket) → List ℕ → Result (ℕ × RtmpPacket)
decode_int32 p data' =
    if ltb (length data') 4 then err 1 else (do n ← read_int32 data'; ok (4, p n))

-- The `decode` of RtmpSetPeerBandwidthPacket.
unfoldable pub decode_bandwidth : List ℕ → Result (ℕ × RtmpPacket)
decode_bandwidth data' =
    if ltb (length data') 5
    then err 1
    else (do n ← read_int32 data'; t ← read_int8 (drop 4 data'); ok (5, set_peer_bandwidth n t))

-- `decode` of an object of the class: the bytes taken, and the fields afterwards.
unfoldable pub decode_pkg : RtmpPacket → List ℕ → Result (ℕ × RtmpPacket)
unfolding decode_int32 decode_bandwidth
decode_pkg (set_window_ack_size n) data' = decode_int32 set_window_ack_size data'
decode_pkg (acknowledgement n) data' = decode_int32 acknowledgement data'
decode_pkg (set_chunk_size n) data' = decode_int32 set_chunk_size data'
decode_pkg (set_peer_bandwidth n t) data' = decode_bandwidth data'
decode_pkg (user_control t d x) data' = ok (0, user_control t d x)

-- The object that decode_msg makes for the type of a message, of the control messages, before it calls
-- its decode.
unfoldable pub new_packet : ℕ → Option RtmpPacket
new_packet t =
    if t == rtmp_msg_user_control_message
    then some (user_control 0 0 0)
    else if t == rtmp_msg_window_acknowledgement_size
    then some (set_window_ack_size 0)
    else if t == rtmp_msg_acknowledgement
    then some (acknowledgement 0)
    else if t == rtmp_msg_set_chunk_size
    then some (set_chunk_size 128)
    else if t == rtmp_msg_set_peer_bandwidth
    then some (set_peer_bandwidth 0 0)
    else none

-- What decode_msg returns and the object that it stores, which it does after a failure as well.
unfoldable pub store_packet : RtmpPacket → Result (ℕ × RtmpPacket) → Result ℕ × Option RtmpPacket
store_packet p (ok (n, p')) = (ok n, some p')
store_packet p (err n) = (err n, some p)
store_packet p fault = (fault, none)
store_packet p out_of_fuel = (out_of_fuel, none)

unfoldable pub decode_into : Option RtmpPacket → List ℕ → Result ℕ × Option RtmpPacket
unfolding decode_pkg store_packet
decode_into none body = (err 2, none)
decode_into (some p) body = store_packet p (decode_pkg p body)

-- decode_msg, on the control messages.
unfoldable pub decode_msg : ℕ → List ℕ → Result ℕ × Option RtmpPacket
unfolding new_packet decode_into
decode_msg t body = decode_into (new_packet t) body
