-- ===== src/Rtmp/Transport/Receive.antt =====
-- recvRtmpMessage and on_recv_message of rtmp_transport.cc.
pub mod Laws
pub mod Reactions
pub mod Chunks
pub mod Safety
use librtmp_client.Prelude.{
  ℕ, ◌+◌, ◌-◌, ◌%◌, ◌^◌, List, [], ◌∷◌, ltb, ◌==◌, ◌&&◌, ◌||◌, Bool, true, false, if◌then◌else◌,
  length, drop, Result, ok, err, fault, out_of_fuel, Option, some, none,
}
use librtmp_client.Rtmp.Header.{RtmpHeader, init, decode}
use librtmp_client.Rtmp.Control.{
  RtmpPacket, set_window_ack_size, set_chunk_size, user_control, decode_msg, set_buffer_length,
  rtmp_msg_set_chunk_size, rtmp_msg_user_control_message, rtmp_msg_window_acknowledgement_size,
}
use librtmp_client.Rtmp.Transport.{
  RtmpChunkData, RtmpMessageTransport, RtmpMessage, rtmp_default_chunksize, find_chunk, store_chunk,
  new_chunk, apply_header, read_extended, do_recv_payload,
}

-- What a decoded control packet changes. A window_ack_size is an int, which has to be positive; the
-- chunk size is compared as an unsigned integer.
unfoldable pub react : RtmpMessageTransport → RtmpPacket → RtmpMessageTransport × Result (Unit {0})
react t (user_control e d x) =
    (if e == set_buffer_length then record t { in_buffer_length = d } else t, ok tt)
react t (set_window_ack_size n) =
    (if ltb 0 n && ltb n (2 ^ 31) then record t { in_window = n } else t, ok tt)
react t (set_chunk_size n) =
    if ltb n rtmp_default_chunksize then (t, err 2) else (record t { in_chunk_size = n }, ok tt)
react t _ = (t, ok tt)

unfoldable pub react_decoded :
    RtmpMessageTransport → Result ℕ × Option RtmpPacket → RtmpMessageTransport × Result (Unit {0})
unfolding react
react_decoded t (ok n, some p) = react t p
react_decoded t (ok n, none) = (t, err 1)
react_decoded t (err n, p) = (t, err n)
react_decoded t (fault, p) = (t, fault)
react_decoded t (out_of_fuel, p) = (t, out_of_fuel)

unfoldable pub on_recv_message :
    RtmpMessageTransport → RtmpMessage → RtmpMessageTransport × Result (Unit {0})
unfolding react_decoded decode_msg
on_recv_message t msg =
    let type = msg.rtmp_header.msg_type_id in
    if type == rtmp_msg_set_chunk_size
      || (type == rtmp_msg_user_control_message || type == rtmp_msg_window_acknowledgement_size)
    then react_decoded t (decode_msg type msg.rtmp_body)
    else (t, ok tt)

-- The chunk stream after a chunk, and the bytes taken with the message that it completes.
abbrev pub Received : Type 0
Received = RtmpChunkData × Result (ℕ × Option RtmpMessage)

-- A failed call takes the time of the chunk back.
unfoldable pub take_time_back : RtmpChunkData → RtmpChunkData
take_time_back chunk = record chunk {
  h = record (chunk.h) { timestamp = (chunk.h.timestamp + 2 ^ 32 - chunk.time_delta) % 2 ^ 32 };
}

unfoldable pub finish_chunk : ℕ → RtmpChunkData → Result (RtmpChunkData × ℕ × Bool) → Received
unfolding take_time_back
finish_chunk offset chunk (ok (chunk', n, true)) = (
  record chunk' { payload = []; capacity = 0 },
  ok (offset + n, some (record { rtmp_header = chunk'.h; rtmp_body = chunk'.payload })),
)
finish_chunk offset chunk (ok (chunk', n, false)) = (chunk', ok (offset + n, none))
finish_chunk offset chunk (err n) = (take_time_back chunk, err n)
finish_chunk offset chunk fault = (chunk, fault)
finish_chunk offset chunk out_of_fuel = (chunk, out_of_fuel)

-- After the extended timestamp, if there is one: the payload.
unfoldable pub recv_extended : ℕ → ℕ → List ℕ → RtmpChunkData × Result ℕ → Received
unfolding do_recv_payload finish_chunk
recv_extended in_chunk_size offset data' (chunk, ok n) =
    finish_chunk (offset + n) chunk (do_recv_payload in_chunk_size chunk (drop n data'))
recv_extended in_chunk_size offset data' (chunk, err n) = (chunk, err n)
recv_extended in_chunk_size offset data' (chunk, fault) = (chunk, fault)
recv_extended in_chunk_size offset data' (chunk, out_of_fuel) = (chunk, out_of_fuel)

-- After the header, of `offset` bytes: the extended timestamp and the payload.
unfoldable pub recv_payload : ℕ → ℕ → RtmpChunkData → List ℕ → Received
unfolding read_extended recv_extended
recv_payload in_chunk_size offset chunk data' =
    recv_extended in_chunk_size offset data' (read_extended chunk data')

unfoldable pub recv_chunk : ℕ → ℕ → RtmpHeader → RtmpChunkData → List ℕ → Received
unfolding apply_header recv_payload
recv_chunk in_chunk_size offset header chunk data' =
    let (chunk', applied) = apply_header header chunk in
    if applied then recv_payload in_chunk_size offset chunk' data' else (chunk', err 2)

-- The reaction to a completed message; its result is not looked at.
unfoldable pub handle :
    RtmpMessageTransport
    → Result (ℕ × Option RtmpMessage)
    → RtmpMessageTransport × Result (ℕ × Option RtmpMessage)
unfolding on_recv_message
handle t (ok (n, some msg)) = ((on_recv_message t msg).0, ok (n, some msg))
handle t r = (t, r)

-- The chunk stream of the header, or a new one.
unfoldable pub chunk_of : ℕ → RtmpMessageTransport → ℕ → RtmpChunkData
unfolding find_chunk new_chunk
chunk_of garbage t id = elim (find_chunk id t.chunk_cache) [
  | some chunk ↦ chunk
  | none ↦ new_chunk garbage
]

-- With the header, of `offset` bytes.
unfoldable pub recv_header :
    ℕ
    → RtmpMessageTransport
    → List ℕ
    → Result (ℕ × RtmpHeader)
    → RtmpMessageTransport × Result (ℕ × Option RtmpMessage)
unfolding chunk_of recv_chunk store_chunk handle
recv_header garbage t data' (ok (offset, header)) =
    let id = header.chunk_stream_id in
    let (chunk, r) =
      recv_chunk t.in_chunk_size offset header (chunk_of garbage t id) (drop offset data') in
    handle (record t { chunk_cache = store_chunk id chunk t.chunk_cache }) r
recv_header garbage t data' (err n) = (t, err n)
recv_header garbage t data' fault = (t, fault)
recv_header garbage t data' out_of_fuel = (t, out_of_fuel)

-- The message is what decode_msg or decode_media_msg makes a packet of.
unfoldable pub recv_rtmp_message :
    ℕ → RtmpMessageTransport → List ℕ → RtmpMessageTransport × Result (ℕ × Option RtmpMessage)
unfolding decode init recv_header
recv_rtmp_message garbage t data' = recv_header garbage t data' (decode init data')
