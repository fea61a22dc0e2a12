-- ===== src/Rtmp/Control/Codec.antt =====
-- The codecs of the control packets of net/app_protocol/rtmp/rtmp_stack_packet.cc.
use librtmp_client.Prelude.{
  ℕ, ◌+◌, ◌^◌, ◌≤◌, ◌<◌, ◌≡◌, refl, List, [], ◌++◌, ltb, ◌==◌, if◌then◌else◌, length, arith, ok,
  err, Bool, true, false, some, ◌∙◌, if-false, le→ltb,
}
use librtmp_client.NetIo.{write_int8, write_int16, write_int32}
use librtmp_client.NetIo.Laws.{read_int8-write_int8, read_int32-write_int32}
use librtmp_client.Rtmp.Control.{
  RtmpPacket, set_window_ack_size, acknowledgement, set_chunk_size, set_peer_bandwidth,
  user_control, get_msg_type, get_pkg_len, encode_pkg, decode_pkg, new_packet, decode_msg,
  decode_into, store_packet, decode_int32, decode_bandwidth, set_buffer_length, fms_event0,
}

-- The bytes of a packet.
abbrev pub packet_bytes : RtmpPacket → List ℕ
packet_bytes (set_window_ack_size n) = write_int32 n
packet_bytes (acknowledgement n) = write_int32 n
packet_bytes (set_chunk_size n) = write_int32 n
packet_bytes (set_peer_bandwidth n t) = write_int32 n ++ write_int8 t
packet_bytes (user_control t d x) =
    write_int16 t
    ++ ((if t == fms_event0 then write_int8 d else write_int32 d)
        ++ (if t == set_buffer_length then write_int32 x else []))

user_control_size :
    (a b : Bool) (t d x : ℕ)
    → length (
        write_int16 t
        ++ ((if a then write_int8 d else write_int32 d) ++ (if b then write_int32 x else [])))
      ≡ 2 + (if a then 1 else 4) + (if b then 4 else 0)
unfolding write_int8 write_int16 write_int32
user_control_size true true t d x = refl
user_control_size true false t d x = refl
user_control_size false true t d x = refl
user_control_size false false t d x = refl

-- `encode_pkg` succeeds where there is room for get_pkg_len bytes, and then writes exactly that many;
-- otherwise it answers -1.
pub encode_pkg-get_pkg_len :
    (p : RtmpPacket) (size : ℕ)
    → (encode_pkg p size ≡ (if ltb size (get_pkg_len p) then err 1 else ok (packet_bytes p)))
      × (length (packet_bytes p) ≡ get_pkg_len p)
unfolding encode_pkg get_pkg_len write_int8 write_int16 write_int32
encode_pkg-get_pkg_len (set_window_ack_size n) size = (refl, refl)
encode_pkg-get_pkg_len (acknowledgement n) size = (refl, refl)
encode_pkg-get_pkg_len (set_chunk_size n) size = (refl, refl)
encode_pkg-get_pkg_len (set_peer_bandwidth n t) size = (refl, refl)
encode_pkg-get_pkg_len (user_control t d x) size =
    (refl, user_control_size (t == fms_event0) (t == set_buffer_length) t d x)

-- The packet is of a class whose `decode` reads anything, and its fields fit their types.
abbrev pub IsDecodable : RtmpPacket → Type 0
IsDecodable (set_window_ack_size n) = n < 2 ^ 32
IsDecodable (acknowledgement n) = n < 2 ^ 32
IsDecodable (set_chunk_size n) = n < 2 ^ 32
IsDecodable (set_peer_bandwidth n t) = (n < 2 ^ 32) × (t < 2 ^ 8)
IsDecodable (user_control t d x) = ⊥

write_int32_ge : (n : ℕ) (rest : List ℕ) → 4 ≤ length (write_int32 n ++ rest)
unfolding write_int32
write_int32_ge n rest = omega arith

decode_int32-write_int32 :
    (p : ℕ → RtmpPacket) (n : ℕ) (rest : List ℕ)
    → n < 2 ^ 32
    → decode_int32 p (write_int32 n ++ rest) ≡ ok (4, p n)
unfolding decode_int32
decode_int32-write_int32 p n rest h =
    if-false _ _ (le→ltb (length (write_int32 n ++ rest)) 4 (write_int32_ge n rest))
    ∙ rw (read_int32-write_int32 n rest h) refl

bandwidth_bytes_ge :
    (n t : ℕ) (rest : List ℕ) → 5 ≤ length ((write_int32 n ++ write_int8 t) ++ rest)
unfolding write_int32 write_int8
bandwidth_bytes_ge n t rest = omega arith

decode_bandwidth-write :
    (n t : ℕ) (rest : List ℕ)
    → n < 2 ^ 32
    → t < 2 ^ 8
    → decode_bandwidth ((write_int32 n ++ write_int8 t) ++ rest) ≡ ok (5, set_peer_bandwidth n t)
unfolding decode_bandwidth write_int32 write_int8
decode_bandwidth-write n t rest hn ht =
    if-false _ _ (le→ltb _ 5 (bandwidth_bytes_ge n t rest))
    ∙ rw (read_int32-write_int32 n (write_int8 t ++ rest) hn, read_int8-write_int8 t rest ht) refl

decode_into_ok :
    (p p' : RtmpPacket) (n : ℕ) (body : List ℕ)
    → decode_pkg p body ≡ ok (n, p')
    → decode_into (some p) body ≡ (ok n, some p')
unfolding decode_into store_packet
decode_into_ok p p' n body e = rw (e, decode_into, store_packet) refl

pub decode_msg-packet_bytes :
    (p : RtmpPacket) (rest : List ℕ)
    → IsDecodable p
    → decode_msg (get_msg_type p) (packet_bytes p ++ rest) ≡ (ok (get_pkg_len p), some p)
unfolding decode_msg decode_pkg get_msg_type get_pkg_len new_packet
decode_msg-packet_bytes (set_window_ack_size n) rest h =
    decode_into_ok (set_window_ack_size 0) (set_window_ack_size n) 4 (write_int32 n ++ rest)
      (decode_int32-write_int32 set_window_ack_size n rest h)
decode_msg-packet_bytes (acknowledgement n) rest h =
    decode_into_ok (acknowledgement 0) (acknowledgement n) 4 (write_int32 n ++ rest)
      (decode_int32-write_int32 acknowledgement n rest h)
decode_msg-packet_bytes (set_chunk_size n) rest h =
    decode_into_ok (set_chunk_size 128) (set_chunk_size n) 4 (write_int32 n ++ rest)
      (decode_int32-write_int32 set_chunk_size n rest h)
decode_msg-packet_bytes (set_peer_bandwidth n t) rest h =
    decode_into_ok (set_peer_bandwidth 0 0) (set_peer_bandwidth n t) 5
      ((write_int32 n ++ write_int8 t) ++ rest) (decode_bandwidth-write n t rest h.0 h.1)
decode_msg-packet_bytes (user_control t d x) rest h = absurd h

-- A packet of any class but RtmpUserControlPacket is written by `encode_pkg` into any buffer with room
-- for get_pkg_len bytes, and what is written, whatever follows it, is decoded into the same packet, all
-- of it, by the object that decode_msg makes for the type of its message.
pub decode_msg-encode_pkg :
    (p : RtmpPacket) (size : ℕ) (rest : List ℕ)
    → IsDecodable p
    → get_pkg_len p ≤ size
    → (written : List ℕ) × (encode_pkg p size ≡ ok written)
      × (decode_msg (get_msg_type p) (written ++ rest) ≡ (ok (get_pkg_len p), some p))
decode_msg-encode_pkg p size rest h room = (
  packet_bytes p,
  (encode_pkg-get_pkg_len p size).0 ∙ if-false _ _ (le→ltb size (get_pkg_len p) room),
  decode_msg-packet_bytes p rest h,
)
