-- ===== src/Rtmp/Tests.antt =====
-- The theorems on the RTMP chunk layer at concrete inputs, and runs of its definitions.
use librtmp_client.Prelude.{
  ℕ, ◌≤◌, ◌≡◌, refl, List, [], ◌∷◌, ◌++◌, if◌then◌else◌, ltb, length, replicate, length-replicate,
  arith, ok, err, fault, out_of_fuel, ◌>>=◌, Returns,
}
use librtmp_client.Rtmp.Header.{
  RtmpHeader, init, base_header, timestamp_bytes, length_and_type, stream_id_bytes, extended_bytes,
  encode_fmt0_chunk_header, encode, decode_base_header, decode_fmt0, decode_msg_header, decode,
}
use librtmp_client.Rtmp.Header.Encoding.{chunk_header, by_type, encode-chunk_header}
use librtmp_client.Rtmp.Header.Decoding.{decode-Returns, decode-encode}
use librtmp_client.Rtmp.Send.{send_loop, do_send_message}
use librtmp_client.Rtmp.Send.Stream.{Chunked, done, chunk, do_send_message-Chunked, Sends}
use librtmp_client.Rtmp.Send.Capacity.{do_send_message_short}
use librtmp_client.Rtmp.Send.Overflow.{do_send_message_default, send_loop_endless}

-- A message of 5 bytes on the chunk stream 3.
abbrev message : RtmpHeader
message = record {
  chunk_type = 0;
  chunk_stream_id = 3;
  timestamp = 0x010203;
  msg_length = 5;
  msg_type_id = 20;
  msg_stream_id = 1;
}

encode-message : encode message 16 ≡ ok (3 ∷ 1 ∷ 2 ∷ 3 ∷ 0 ∷ 0 ∷ 5 ∷ 20 ∷ 1 ∷ 0 ∷ 0 ∷ 0 ∷ [])
unfolding encode encode_fmt0_chunk_header base_header timestamp_bytes length_and_type
    stream_id_bytes extended_bytes
encode-message = refl

-- A header of type 3 is read as one of type 0 that takes the payload for the message header.
decode_type_3 :
    decode init (0xc3 ∷ 1 ∷ 2 ∷ 3 ∷ 4 ∷ 5 ∷ 6 ∷ 7 ∷ 0 ∷ 0 ∷ 0 ∷ 9 ∷ [])
    ≡ ok (
      12,
      record {
        chunk_type = 0;
        chunk_stream_id = 3;
        timestamp = 0x010203;
        msg_length = 0x040506;
        msg_type_id = 7;
        msg_stream_id = 9;
      },
    )
unfolding decode decode_base_header decode_msg_header decode_fmt0 init
decode_type_3 = refl

encode-chunk_header_example :
    (encode message 16
      ≡ (if ltb 16 (by_type 0 16 12 8 5) then err 1 else ok (chunk_header message)))
    × (length (chunk_header message) ≡ 12)
encode-chunk_header_example = encode-chunk_header message 16 (omega arith)

decode-Returns_example :
    Returns
      (λ (n, h'). (12 ≤ n) × (n ≤ 14) × (n ≤ 12) × (h'.chunk_type ≡ 0))
      (decode init (0xc3 ∷ 1 ∷ 2 ∷ 3 ∷ 4 ∷ 5 ∷ 6 ∷ 7 ∷ 0 ∷ 0 ∷ 0 ∷ 9 ∷ []))
decode-Returns_example =
    decode-Returns init 0xc3 (1 ∷ 2 ∷ 3 ∷ 4 ∷ 5 ∷ 6 ∷ 7 ∷ 0 ∷ 0 ∷ 0 ∷ 9 ∷ []) (omega arith)

decode-encode_example :
    (encode message 16 >>= λ bytes. decode init (bytes ++ (7 ∷ 8 ∷ [])))
    ≡ ok (12, record message { msg_stream_id = 0x01000000 })
decode-encode_example =
    decode-encode message 16 (7 ∷ 8 ∷ []) refl
      (omega arith, omega arith, omega arith, omega arith, omega arith, omega arith) (omega arith)

-- In chunks of 2 bytes: 2, 2 and 1 behind headers of 12, 1 and 1.
abbrev tail_header : List ℕ
tail_header = chunk_header (record message { chunk_type = 3 })

abbrev wire : List ℕ
wire = chunk_header message ++ (1 ∷ 2 ∷ (tail_header ++ (3 ∷ 4 ∷ (tail_header ++ (5 ∷ [])))))

wire-Chunked : Chunked 2 message 0 (1 ∷ 2 ∷ 3 ∷ 4 ∷ 5 ∷ []) wire
wire-Chunked = chunk (omega arith) (chunk (omega arith) (chunk (omega arith) done refl) refl) refl

wire_size : length wire ≤ 32768
unfolding chunk_header
wire_size = omega arith

do_send_message-Chunked_example : Sends (do_send_message 2 message (1 ∷ 2 ∷ 3 ∷ 4 ∷ 5 ∷ [])) wire
do_send_message-Chunked_example =
    do_send_message-Chunked 2 message (1 ∷ 2 ∷ 3 ∷ 4 ∷ 5 ∷ []) wire (omega arith) wire-Chunked
      wire_size

abbrev zeros : ℕ → List ℕ
zeros n = replicate n 0

length-zeros : (n : ℕ) → length (zeros n) ≡ n
length-zeros n = length-replicate n _

do_send_message_default_example : do_send_message 128 message (zeros 32504) ≡ fault
do_send_message_default_example =
    let size = length-zeros 32504 in
    do_send_message_default message (zeros 32504) (omega arith) (omega arith)

send_loop_endless_example : send_loop 1000 0 message 2 (7 ∷ 8 ∷ []) [] ≡ out_of_fuel
send_loop_endless_example = send_loop_endless 1000 message (7 ∷ 8 ∷ []) (omega arith)

do_send_message_short_example :
    (w : List ℕ) × Chunked 128 message 0 (zeros 30000) w
    × Sends (do_send_message 128 message (zeros 30000)) w
do_send_message_short_example =
    let size = length-zeros 30000 in
    do_send_message_short 128 message (zeros 30000) (omega arith) (omega arith)
