-- ===== src/Rtmp/Header.antt =====
-- class RtmpHeader of net/app_protocol/rtmp/rtmp_stack_packet.cc: the header of a chunk. The fields
-- are uint8_t and uint32_t values; `size` and `len` are the room and the bytes at the pointer.
pub mod Encoding
pub mod Decoding
use librtmp_client.Prelude.{
  ℕ, ◌+◌, ◌*◌, ◌/◌, ◌%◌, ◌^◌, List, [], ◌∷◌, ◌++◌, ltb, leb, ◌==◌, if◌then◌else◌, length, drop,
  bit_and, bit_or, Result, ok, err, fault, ◌>>=◌,
}

pub record RtmpHeader : Type 0 where
  pub chunk_type : ℕ
  pub chunk_stream_id : ℕ
  pub timestamp : ℕ
  pub msg_length : ℕ
  pub msg_type_id : ℕ
  pub msg_stream_id : ℕ

abbrev pub rtmp_extended_timestamp : ℕ
rtmp_extended_timestamp = 0xffffff

abbrev pub rtmp_cid_over_connection : ℕ
rtmp_cid_over_connection = 0x03

unfoldable pub init : RtmpHeader
init = record {
  chunk_type = 0;
  chunk_stream_id = rtmp_cid_over_connection;
  timestamp = 0;
  msg_length = 0;
  msg_type_id = 0;
  msg_stream_id = 0;
}

-- q[3], q[2], q[1], q[0] of a uint32_t on a little-endian host.
abbrev pub byte : ℕ → ℕ → ℕ
byte n i = n / 256 ^ i % 256

-- `fmt | ((uint8_t)chunk_stream_id & 0x3f)`
unfoldable pub base_header : ℕ → RtmpHeader → ℕ
base_header fmt h = bit_or fmt (bit_and (h.chunk_stream_id % 256) 0x3f)

unfoldable pub timestamp_bytes : RtmpHeader → List ℕ
timestamp_bytes h =
    if leb rtmp_extended_timestamp h.timestamp
    then 0xff ∷ 0xff ∷ 0xff ∷ []
    else byte h.timestamp 2 ∷ byte h.timestamp 1 ∷ byte h.timestamp 0 ∷ []

unfoldable pub length_and_type : RtmpHeader → List ℕ
length_and_type h =
    byte h.msg_length 2 ∷ byte h.msg_length 1 ∷ byte h.msg_length 0 ∷ h.msg_type_id ∷ []

-- Lowest byte first.
unfoldable pub stream_id_bytes : RtmpHeader → List ℕ
stream_id_bytes h =
    byte h.msg_stream_id 0
    ∷ byte h.msg_stream_id 1
    ∷ byte h.msg_stream_id 2
    ∷ byte h.msg_stream_id 3
    ∷ []

unfoldable pub extended_bytes : RtmpHeader → List ℕ
extended_bytes h =
    if leb rtmp_extended_timestamp h.timestamp
    then byte h.timestamp 3 ∷ byte h.timestamp 2 ∷ byte h.timestamp 1 ∷ byte h.timestamp 0 ∷ []
    else []

unfoldable pub encode_fmt0_chunk_header : RtmpHeader → ℕ → Result (List ℕ)
unfolding base_header timestamp_bytes length_and_type stream_id_bytes extended_bytes
encode_fmt0_chunk_header h size =
    if ltb size 16
    then err 1
    else ok (
        base_header 0x00 h
        ∷ (timestamp_bytes h ++ (length_and_type h ++ (stream_id_bytes h ++ extended_bytes h))))

unfoldable pub encode_fmt1_chunk_header : RtmpHeader → ℕ → Result (List ℕ)
unfolding base_header timestamp_bytes length_and_type extended_bytes
encode_fmt1_chunk_header h size =
    if ltb size 12
    then err 1
    else ok (base_header 0x40 h ∷ (timestamp_bytes h ++ (length_and_type h ++ extended_bytes h)))

unfoldable pub encode_fmt2_chunk_header : RtmpHeader → ℕ → Result (List ℕ)
unfolding base_header timestamp_bytes extended_bytes
encode_fmt2_chunk_header h size =
    if ltb size 8 then err 1 else ok (base_header 0x80 h ∷ (timestamp_bytes h ++ extended_bytes h))

unfoldable pub encode_fmt3_chunk_header : RtmpHeader → ℕ → Result (List ℕ)
unfolding base_header extended_bytes
encode_fmt3_chunk_header h size =
    if ltb size 5 then err 1 else ok (base_header 0xc0 h ∷ extended_bytes h)

unfoldable pub encode : RtmpHeader → ℕ → Result (List ℕ)
unfolding encode_fmt0_chunk_header encode_fmt1_chunk_header encode_fmt2_chunk_header
    encode_fmt3_chunk_header
encode h size =
    if h.chunk_type == 0
    then encode_fmt0_chunk_header h size
    else if h.chunk_type == 1
    then encode_fmt1_chunk_header h size
    else if h.chunk_type == 2
    then encode_fmt2_chunk_header h size
    else if h.chunk_type == 3
    then encode_fmt3_chunk_header h size
    else err 1

-- The second and the third form of the base header, for the ids from 64 on.
unfoldable pub two_byte_form : ℕ → List ℕ → Result (ℕ × ℕ × ℕ)
two_byte_form fmt (a ∷ _) = ok (2, fmt, a + 64)
two_byte_form fmt _ = err 1

unfoldable pub three_byte_form : ℕ → List ℕ → Result (ℕ × ℕ × ℕ)
three_byte_form fmt (a ∷ b ∷ _) = ok (3, fmt, a + b * 256 + 64)
three_byte_form fmt _ = err 1

-- The offset, `fmt` and `cs_id`. The first byte is read before any test of the length.
unfoldable pub decode_base_header : List ℕ → Result (ℕ × ℕ × ℕ)
unfolding two_byte_form three_byte_form
decode_base_header [] = fault
decode_base_header (value ∷ rest) =
    let fmt = bit_and value 0x03 / 2 ^ 6 in
    let cs_id = bit_and value 0x3f in
    if ltb 1 cs_id
    then ok (1, fmt, cs_id)
    else if cs_id == 0
    then two_byte_form fmt rest
    else three_byte_form fmt rest

-- `x += a << 16; x += b << 8; x += c;` on a uint32_t.
abbrev pub add_three : ℕ → ℕ → ℕ → ℕ → ℕ
add_three x a b c = (x + a * 2 ^ 16 + b * 2 ^ 8 + c) % 2 ^ 32

-- `x += a << 24; … x += d;` on a uint32_t.
abbrev pub add_four : ℕ → ℕ → ℕ → ℕ → ℕ → ℕ
add_four x a b c d = (x + a * 2 ^ 24 + b * 2 ^ 16 + c * 2 ^ 8 + d) % 2 ^ 32

unfoldable pub decode_fmt0 : RtmpHeader → List ℕ → Result (ℕ × RtmpHeader)
decode_fmt0 h (t2 ∷ t1 ∷ t0 ∷ l2 ∷ l1 ∷ l0 ∷ m ∷ s3 ∷ s2 ∷ s1 ∷ s0 ∷ _) = ok (
  11,
  record h {
    timestamp = add_three h.timestamp t2 t1 t0;
    msg_length = add_three h.msg_length l2 l1 l0;
    msg_type_id = m;
    msg_stream_id = add_four h.msg_stream_id s3 s2 s1 s0;
  },
)
decode_fmt0 h _ = err 1

unfoldable pub decode_fmt1 : RtmpHeader → List ℕ → Result (ℕ × RtmpHeader)
decode_fmt1 h (t2 ∷ t1 ∷ t0 ∷ l2 ∷ l1 ∷ l0 ∷ m ∷ _) = ok (
  7,
  record h {
    timestamp = add_three h.timestamp t2 t1 t0;
    msg_length = add_three h.msg_length l2 l1 l0;
    msg_type_id = m;
  },
)
decode_fmt1 h _ = err 1

unfoldable pub decode_fmt2 : RtmpHeader → List ℕ → Result (ℕ × RtmpHeader)
decode_fmt2 h (t2 ∷ t1 ∷ t0 ∷ _) = ok (3, record h { timestamp = add_three h.timestamp t2 t1 t0 })
decode_fmt2 h _ = err 1

unfoldable pub decode_msg_header : RtmpHeader → List ℕ → Result (ℕ × RtmpHeader)
unfolding decode_fmt0 decode_fmt1 decode_fmt2
decode_msg_header h data' =
    if h.chunk_type == 0
    then decode_fmt0 h data'
    else if h.chunk_type == 1
    then decode_fmt1 h data'
    else if h.chunk_type == 2
    then decode_fmt2 h data'
    else ok (0, h)

unfoldable pub decode : RtmpHeader → List ℕ → Result (ℕ × RtmpHeader)
unfolding decode_base_header decode_msg_header
decode h data' = do
  (a, fmt, cs_id) ← decode_base_header data'
  (b, h') ←
      decode_msg_header (record h { chunk_type = fmt; chunk_stream_id = cs_id }) (drop a data')
  ok (a + b, h')
