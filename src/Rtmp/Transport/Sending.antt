-- ===== src/Rtmp/Transport/Sending.antt =====
-- sendRtmpMessage of rtmp_transport.cc, and what recvRtmpMessage makes of its bytes.
use librtmp_client.Prelude.{
  ℕ, ◌+◌, ◌^◌, ◌≤◌, ◌<◌, ◌≡◌, refl, sym, ap, ap₂, append_assoc, some, ◌∙◌, subst, List, [], ◌++◌,
  ltb, length, take, arith, ok, take_all, drop_all, append-nil, length-append, lt→ltb, le→ltb,
  false,
}
use librtmp_client.NetIo.{write_int32}
use librtmp_client.Rtmp.Header.{RtmpHeader, init}
use librtmp_client.Rtmp.Header.Encoding.{chunk_header}
use librtmp_client.Rtmp.Header.Decoding.{IsShort}
use librtmp_client.Rtmp.Send.{do_send_message}
use librtmp_client.Rtmp.Send.Stream.{Chunked, chunk, done, Sends, concat, do_send_message-Chunked}
use librtmp_client.Rtmp.Send.Overflow.{header_le}
use librtmp_client.Rtmp.Control.{
  RtmpPacket, set_chunk_size, set_window_ack_size, acknowledgement, set_peer_bandwidth,
  user_control, get_pkg_len, get_cs_id, get_msg_type,
}
use librtmp_client.Rtmp.Control.Codec.{packet_bytes, encode_pkg-get_pkg_len}
use librtmp_client.Rtmp.Transport.{
  RtmpMessageTransport, RtmpChunkData, encode_packet, on_send_message, message_header_of,
  send_rtmp_message,
}
use librtmp_client.Rtmp.Transport.Receive.{on_recv_message, chunk_of, recv_rtmp_message}
use librtmp_client.Rtmp.Transport.Receive.Laws.{
  recv_rtmp_message-chunk_header, delivered, settled, returned,
}
use librtmp_client.Rtmp.Transport.Receive.Reactions.{on_recv_message_chunk_size}

-- A payload of one chunk.
Chunked-one :
    (c : ℕ) (h : RtmpHeader) (payload : List ℕ)
    → h.chunk_type ≡ 0
    → 1 ≤ length payload
    → length payload ≤ c
    → Chunked c h 0 payload (chunk_header h ++ payload)
Chunked-one c h payload type long le =
    let all : take c payload ++ [] ≡ payload =
      append-nil (take c payload) ∙ take_all c payload le in
    let same : record h { chunk_type = 0 } ≡ h =
      ap (λ (n : ℕ). record h { chunk_type = n }) (sym type) in
    chunk long (subst (λ rest. Chunked c h 3 rest []) (sym (drop_all c payload le)) done)
      (sym (ap₂ (λ (k : RtmpHeader) (p : List ℕ). chunk_header k ++ p) same all))

do_send_message-one :
    (c : ℕ) (h : RtmpHeader) (payload : List ℕ)
    → h.chunk_type ≡ 0
    → 1 ≤ length payload
    → length payload ≤ c
    → 16 + length payload ≤ 32768
    → Sends (do_send_message c h payload) (chunk_header h ++ payload)
do_send_message-one c h payload type long le fits =
    do_send_message-Chunked c h payload (chunk_header h ++ payload) (omega arith)
      (Chunked-one c h payload type long le)
      (omega (arith, length-append (chunk_header h) payload, header_le h (omega arith)))

-- A message of at most 32752 bytes that is no longer than the chunks which the one side sends and the
-- other reads, with a short header, arrives at an idle chunk stream, whatever follows it: it is sent, and
-- from the bytes sent recvRtmpMessage returns its payload.
pub recv_rtmp_message-do_send_message :
    (c garbage : ℕ) (t : RtmpMessageTransport) (h : RtmpHeader) (payload rest : List ℕ)
    → h.chunk_type ≡ 0
    → IsShort h
    → h.msg_length ≡ length payload
    → 1 ≤ length payload
    → length payload ≤ c
    → length payload ≤ t.in_chunk_size
    → length payload ≤ 32752
    → (chunk_of garbage t h.chunk_stream_id).payload ≡ []
    → (blocks : List (List ℕ)) × (do_send_message c h payload ≡ ok blocks)
      × ((recv_rtmp_message garbage t (concat blocks ++ rest)).1
          ≡ ok (
            12 + length payload,
            some (delivered h (chunk_of garbage t h.chunk_stream_id) payload),
          ))
recv_rtmp_message-do_send_message c garbage t h payload rest type short len long le le' fits empty =
    let sends = do_send_message-one c h payload type long le (omega arith) in
    (
      sends.0,
      sends.1,
      ap (λ b. (recv_rtmp_message garbage t (b ++ rest)).1) sends.2
          ∙ ap (λ b. (recv_rtmp_message garbage t b).1) (append_assoc (chunk_header h) payload rest)
          ∙ ap (λ r. r.1)
              (recv_rtmp_message-chunk_header garbage t h payload rest type short len le' empty),
    )

get_pkg_len-bounds : (p : RtmpPacket) → (1 ≤ get_pkg_len p) × (get_pkg_len p ≤ 10)
unfolding get_pkg_len
get_pkg_len-bounds (set_window_ack_size n) = (omega arith, omega arith)
get_pkg_len-bounds (acknowledgement n) = (omega arith, omega arith)
get_pkg_len-bounds (set_chunk_size n) = (omega arith, omega arith)
get_pkg_len-bounds (set_peer_bandwidth n t) = (omega arith, omega arith)
get_pkg_len-bounds (user_control t d x) = (ground arith, ground arith)

encode_packet-bytes : (p : RtmpPacket) → encode_packet p ≡ ok (packet_bytes p)
unfolding encode_packet
encode_packet-bytes p =
    let room : ltb (get_pkg_len p) (get_pkg_len p) ≡ false = ground arith in
    let e = (encode_pkg-get_pkg_len p (get_pkg_len p)).0 in
    rw (lt→ltb 0 (get_pkg_len p) (omega (arith, get_pkg_len-bounds p)), e, room) refl

type_of_header : (p : RtmpPacket) (streamid : ℕ) → (message_header_of p streamid).chunk_type ≡ 0
unfolding message_header_of init
type_of_header p streamid = refl

-- Every control packet is sent, where the chunk size is at least 10: the blocks handed to the socket are
-- the chunk header and the bytes of the packet, and on_send_message has seen it.
pub send_rtmp_message_lem :
    (t : RtmpMessageTransport) (p : RtmpPacket) (streamid : ℕ)
    → 10 ≤ t.out_chunk_size
    → (blocks : List (List ℕ)) × (send_rtmp_message t p streamid ≡ ok (on_send_message t p, blocks))
      × (concat blocks ≡ chunk_header (message_header_of p streamid) ++ packet_bytes p)
unfolding send_rtmp_message
send_rtmp_message_lem t p streamid le =
    let h = message_header_of p streamid in
    let size = (encode_pkg-get_pkg_len p 0).1 in
    let bounds = get_pkg_len-bounds p in
    let sends =
      do_send_message-one t.out_chunk_size h (packet_bytes p) (type_of_header p streamid)
        (omega (arith, size, bounds)) (omega (arith, size, bounds)) (omega (arith, size, bounds)) in
    (sends.0, rw (encode_packet-bytes p, sends.1) refl, sends.2)

header-IsShort :
    (n streamid : ℕ) → streamid < 2 ^ 32 → IsShort (message_header_of (set_chunk_size n) streamid)
unfolding message_header_of init get_cs_id get_msg_type get_pkg_len
header-IsShort n streamid h = (omega arith, omega arith, omega arith, omega arith, omega arith, h)

module _ (n streamid : ℕ) where
  chunk_size_header :
      ((message_header_of (set_chunk_size n) streamid).msg_length
        ≡ length (packet_bytes (set_chunk_size n)))
      × ((message_header_of (set_chunk_size n) streamid).chunk_stream_id ≡ 2)
      × ((message_header_of (set_chunk_size n) streamid).msg_type_id
          ≡ get_msg_type (set_chunk_size n))
      × (length (packet_bytes (set_chunk_size n)) ≡ 4)
  unfolding message_header_of init get_pkg_len get_cs_id get_msg_type write_int32
  chunk_size_header = (refl, refl, refl, refl)

  -- The reaction of the side that reads.
  chunk_size_reaction :
      (t : RtmpMessageTransport) (c : RtmpChunkData)
      → 128 ≤ n
      → n < 2 ^ 32
      → ((on_recv_message t (
          delivered
            (message_header_of (set_chunk_size n) streamid)
            c
            (packet_bytes (set_chunk_size n)))).0
        ).in_chunk_size
        ≡ n
  chunk_size_reaction t c big small =
      let h = returned (message_header_of (set_chunk_size n) streamid) c in
      ap (λ b. ((on_recv_message t (record { rtmp_header = h; rtmp_body = b })).0).in_chunk_size)
        (sym (append-nil (packet_bytes (set_chunk_size n))))
      ∙ ap (λ r. (r.0).in_chunk_size)
          (on_recv_message_chunk_size t h n [] chunk_size_header.2 small)
      ∙ rw (le→ltb n 128 big) refl

-- A chunk size from 128 on that one side announces to the other, over an idle control stream, is the
-- size that it then sends with, and the one that the other reads with.
pub send_rtmp_message-chunk_size :
    (a b : RtmpMessageTransport) (garbage n streamid : ℕ) (rest : List ℕ)
    → 10 ≤ a.out_chunk_size
    → 4 ≤ b.in_chunk_size
    → (chunk_of garbage b 2).payload ≡ []
    → 128 ≤ n
    → n < 2 ^ 32
    → streamid < 2 ^ 32
    → (a' : RtmpMessageTransport) × (blocks : List (List ℕ)) × (send_rtmp_message a
          (set_chunk_size n)
          streamid
        ≡ ok (a', blocks))
      × (a'.out_chunk_size ≡ n)
      × ((recv_rtmp_message garbage b (concat blocks ++ rest)).0.in_chunk_size ≡ n)
unfolding on_send_message
send_rtmp_message-chunk_size a b garbage n streamid rest le le' empty big small sid =
    let p = set_chunk_size n in
    let h = message_header_of p streamid in
    let sends = send_rtmp_message_lem a p streamid le in
    let facts = chunk_size_header n streamid in
    (
      on_send_message a p,
      sends.0,
      sends.1,
      refl,
      ap (λ b'. (recv_rtmp_message garbage b (b' ++ rest)).0.in_chunk_size) sends.2
          ∙ ap (λ b'. (recv_rtmp_message garbage b b').0.in_chunk_size)
              (append_assoc (chunk_header h) (packet_bytes p) rest)
          ∙ ap (λ r. r.0.in_chunk_size)
              (recv_rtmp_message-chunk_header garbage b h (packet_bytes p) rest
                (type_of_header p streamid) (header-IsShort n streamid sid) facts.0
                (omega (arith, facts.3))
                (ap (λ (id : ℕ). (chunk_of garbage b id).payload) facts.1 ∙ empty))
          ∙ chunk_size_reaction n streamid (settled b h (chunk_of garbage b h.chunk_stream_id))
              (chunk_of garbage b h.chunk_stream_id) big small,
    )
