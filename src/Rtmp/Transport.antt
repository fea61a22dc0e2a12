-- ===== src/Rtmp/Transport.antt =====
-- class RtmpMessageTransport of rtmp_transport.cc, on the messages of the control packets: sending,
-- the reassembly of messages from chunks, and the reactions to a message.
pub mod Sending
pub mod Receive
mod Tests
use librtmp_client.Prelude.{
  ℕ, zero, suc, ◌+◌, ◌-◌, ◌%◌, ◌^◌, min, List, [], ◌∷◌, ◌++◌, ltb, leb, ◌==◌, ◌&&◌, ◌||◌, not, Bool,
  true, false, if◌then◌else◌, length, take, drop, Result, ok, err, fault, out_of_fuel, ◌>>=◌,
  Option, some, none,
}
use librtmp_client.Rtmp.Header.{RtmpHeader, init, decode, rtmp_extended_timestamp, add_four}
use librtmp_client.Rtmp.Send.{do_send_message}
use librtmp_client.Rtmp.Control.{
  RtmpPacket, set_window_ack_size, acknowledgement, set_chunk_size, set_peer_bandwidth,
  user_control, get_cs_id, get_msg_type, get_pkg_len, encode_pkg, decode_msg, set_buffer_length,
  rtmp_msg_set_chunk_size, rtmp_msg_user_control_message, rtmp_msg_window_acknowledgement_size,
}

-- `payload` is the bytes copied so far, of which current_payload_len is the number, and `capacity` the
-- size of the memory behind them.
pub record RtmpChunkData : Type 0 where
  pub h : RtmpHeader
  pub time_delta : ℕ
  pub payload : List ℕ
  pub capacity : ℕ

-- The members that the messages modelled here read or write.
pub record RtmpMessageTransport : Type 0 where
  pub in_buffer_length : ℕ
  pub in_chunk_size : ℕ
  pub in_window : ℕ
  pub chunk_cache : List (ℕ × RtmpChunkData)
  pub out_chunk_size : ℕ
  pub out_window : ℕ

pub record RtmpMessage : Type 0 where
  pub rtmp_header : RtmpHeader
  pub rtmp_body : List ℕ

abbrev pub rtmp_default_chunksize : ℕ
rtmp_default_chunksize = 128

-- RtmpBasePacket::encode: the payload, of get_pkg_len bytes.
unfoldable pub encode_packet : RtmpPacket → Result (List ℕ)
unfolding get_pkg_len encode_pkg
encode_packet p =
    let length' = get_pkg_len p in
    if ltb 0 length' then elim (encode_pkg p length') [ err n ↦ err 1 | r ↦ r ] else ok []

unfoldable pub on_send_message : RtmpMessageTransport → RtmpPacket → RtmpMessageTransport
on_send_message t (set_chunk_size n) = record t { out_chunk_size = n }
on_send_message t (set_window_ack_size n) = record t { out_window = n }
on_send_message t _ = t

-- The header that sendRtmpMessage makes.
unfoldable pub message_header_of : RtmpPacket → ℕ → RtmpHeader
unfolding init get_cs_id get_msg_type get_pkg_len
message_header_of p streamid = record init {
  chunk_stream_id = get_cs_id p;
  msg_type_id = get_msg_type p;
  msg_stream_id = streamid;
  msg_length = get_pkg_len p;
  timestamp = 0;
}

-- The transport after the call, and the blocks handed to the socket.
unfoldable pub send_rtmp_message :
    RtmpMessageTransport → RtmpPacket → ℕ → Result (RtmpMessageTransport × List (List ℕ))
unfolding encode_packet on_send_message message_header_of do_send_message
send_rtmp_message t p streamid = do
  payload ← encode_packet p
  blocks ← do_send_message t.out_chunk_size (message_header_of p streamid) payload
  ok (on_send_message t p, blocks)

unfoldable pub find_chunk : ℕ → List (ℕ × RtmpChunkData) → Option RtmpChunkData
find_chunk id [] = none
find_chunk id ((i, chunk) ∷ cache) = if id == i then some chunk else find_chunk id cache

-- The table with the chunk stream after a call; a new one is inserted.
unfoldable pub store_chunk : ℕ → RtmpChunkData → List (ℕ × RtmpChunkData) → List (ℕ × RtmpChunkData)
store_chunk id chunk [] = (id, chunk) ∷ []
store_chunk id chunk ((i, old) ∷ cache) =
    let rest = store_chunk id chunk cache in if id == i then (i, chunk) ∷ cache else (i, old) ∷ rest

-- A new RtmpChunkData; its `time_delta` is whatever the memory held.
unfoldable pub new_chunk : ℕ → RtmpChunkData
unfolding init
new_chunk garbage = record { h = init; time_delta = garbage; payload = []; capacity = 0 }

-- The chunk streams from `id` on that the constructor puts into the table.
unfoldable pub new_chunks : ℕ → ℕ → ℕ → List (ℕ × RtmpChunkData)
unfolding new_chunk
new_chunks garbage id zero = []
new_chunks garbage id (suc n) = (id, new_chunk garbage) ∷ new_chunks garbage (suc id) n

-- The constructor.
unfoldable pub new_transport : ℕ → RtmpMessageTransport
unfolding new_chunks
new_transport garbage = record {
  in_buffer_length = 0;
  in_chunk_size = rtmp_default_chunksize;
  in_window = 0;
  chunk_cache = new_chunks garbage 0 16;
  out_chunk_size = rtmp_default_chunksize;
  out_window = 0;
}

unfoldable pub first_recv_msg : RtmpChunkData → Bool
first_recv_msg chunk = length chunk.payload == 0

-- The times, for a header of type 0, 1 or 2.
unfoldable pub update_time : RtmpHeader → RtmpChunkData → RtmpChunkData
update_time header chunk =
    let time =
      if ltb header.timestamp rtmp_extended_timestamp
      then if header.chunk_type == 0
        then header.timestamp
        else (chunk.h.timestamp + header.timestamp) % 2 ^ 32
      else chunk.h.timestamp in
    record chunk { h = record (chunk.h) { timestamp = time }; time_delta = header.timestamp }

-- The length, the type and the stream id, for a header of type 0 or 1; false where the length of a
-- message would change while it is read.
unfoldable pub update_message : RtmpHeader → RtmpChunkData → RtmpChunkData × Bool
unfolding first_recv_msg
update_message header chunk =
    if not (first_recv_msg chunk) && not (header.msg_length == chunk.h.msg_length)
    then (chunk, false)
    else (
      record chunk {
        h = record (chunk.h) {
          msg_length = header.msg_length;
          msg_type_id = header.msg_type_id;
          msg_stream_id =
              if header.chunk_stream_id == 0 then header.msg_stream_id else chunk.h.msg_stream_id;
        };
      },
      true,
    )

-- What the header of the next chunk does to the chunk stream.
unfoldable pub apply_header : RtmpHeader → RtmpChunkData → RtmpChunkData × Bool
unfolding first_recv_msg update_time update_message
apply_header header chunk =
    let c = record chunk {
      h = record (chunk.h) {
        chunk_type = header.chunk_type;
        chunk_stream_id = header.chunk_stream_id;
      };
    } in
    if leb header.chunk_type 2
    then if leb header.chunk_type 1
      then update_message header (update_time header c)
      else (update_time header c, true)
    else if first_recv_msg c && ltb c.time_delta rtmp_extended_timestamp
    then (
      record c { h = record (c.h) { timestamp = (c.h.timestamp + c.time_delta) % 2 ^ 32 } },
      true,
    )
    else (c, true)

-- The extended timestamp, of which 31 bits are used: the bytes taken.
unfoldable pub read_extended : RtmpChunkData → List ℕ → RtmpChunkData × Result ℕ
read_extended chunk data' =
    if ltb chunk.time_delta rtmp_extended_timestamp then (chunk, ok 0) else elim data' [
      | a ∷ b ∷ c ∷ d ∷ _ ↦
          (record chunk { h = record (chunk.h) { timestamp = add_four 0 a b c d % 2 ^ 31 } }, ok 4)
      | _ ↦ (chunk, err 1)
    ]

unfoldable pub create_payload : RtmpChunkData → RtmpChunkData
create_payload chunk = record chunk { payload = []; capacity = chunk.h.msg_length }

unfoldable pub copy_payload : RtmpChunkData → List ℕ → Result RtmpChunkData
copy_payload chunk bytes =
    if leb (length chunk.payload + length bytes) chunk.capacity
    then ok (record chunk { payload = chunk.payload ++ bytes })
    else fault

-- The chunk stream, the bytes taken and `finish`. The subtraction is one of uint32_t values, and its
-- result an int.
unfoldable pub do_recv_payload : ℕ → RtmpChunkData → List ℕ → Result (RtmpChunkData × ℕ × Bool)
unfolding first_recv_msg create_payload copy_payload
do_recv_payload in_chunk_size chunk data' =
    let payload_len =
      min ((chunk.h.msg_length + 2 ^ 32 - length chunk.payload) % 2 ^ 32) in_chunk_size in
    if leb (2 ^ 31) payload_len
    then fault
    else if ltb (length data') payload_len
    then err 1
    else (do
      chunk' ←
          copy_payload (if first_recv_msg chunk then create_payload chunk else chunk)
            (take payload_len data')
      ok (chunk', payload_len, length chunk'.payload == chunk'.h.msg_length))
