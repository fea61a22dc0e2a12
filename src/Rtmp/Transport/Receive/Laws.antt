-- ===== src/Rtmp/Transport/Receive/Laws.antt =====
-- What recvRtmpMessage and on_recv_message of rtmp_transport.cc do with a message.
use librtmp_client.Prelude.{
  ℕ, ◌+◌, ◌-◌, ◌%◌, ◌^◌, ◌≤◌, ◌<◌, min, ◌≡◌, refl, sym, ap, ◌∙◌, List, [], ◌++◌, ltb, leb, ◌==◌,
  Bool, true, false, if◌then◌else◌, if-false, length, take, drop, arith, ok, err, ◌>>=◌, some,
  le→ltb, lt→ltb, lt→leb, le→leb, take-append, drop-append, length-append,
}
use librtmp_client.Rtmp.Header.{RtmpHeader, init, encode, decode, rtmp_extended_timestamp}
use librtmp_client.Rtmp.Header.Encoding.{chunk_header, encode-chunk_header, by_type}
use librtmp_client.Rtmp.Header.Decoding.{IsShort, swapped, decode-encode, type_0}
use librtmp_client.Rtmp.Transport.{
  RtmpChunkData, RtmpMessageTransport, RtmpMessage, store_chunk, apply_header, update_time,
  update_message, first_recv_msg, create_payload, copy_payload, read_extended, do_recv_payload,
}
use librtmp_client.Rtmp.Transport.Receive.{
  Received, on_recv_message, finish_chunk, recv_extended, recv_header, recv_payload, recv_chunk,
  handle, chunk_of, recv_rtmp_message,
}

-- The chunk stream and the message after a message that came as one chunk of type 0.
abbrev pub received_chunk : ℕ → ℕ → ℕ → ℕ → ℕ → RtmpChunkData
received_chunk cs t l m s = record {
  h = type_0 cs t l m s;
  time_delta = t;
  payload = [];
  capacity = 0;
}

abbrev pub received_message : ℕ → ℕ → ℕ → ℕ → ℕ → List ℕ → RtmpMessage
received_message cs t l m s payload = record {
  rtmp_header = type_0 cs t l m s;
  rtmp_body = payload;
}

module _ (cs t l m s : ℕ) (h₀ : RtmpHeader) (td cap : ℕ) where
  abbrev idle : RtmpChunkData
  idle = record { h = h₀; time_delta = td; payload = []; capacity = cap }

  abbrev started : RtmpChunkData
  started = record {
    h = type_0 cs t l m (h₀.msg_stream_id);
    time_delta = t;
    payload = [];
    capacity = cap;
  }

  apply_header-type_0 :
      2 ≤ cs → t < rtmp_extended_timestamp → apply_header (type_0 cs t l m s) idle ≡ (started, true)
  unfolding apply_header update_time update_message first_recv_msg
  apply_header-type_0 hcs ht =
      let no : (cs == 0) ≡ false = ground arith in rw (lt→ltb t rtmp_extended_timestamp ht, no) refl

  do_recv_payload-all :
      (ics : ℕ) (payload rest : List ℕ)
      → l ≡ length payload
      → l ≤ ics
      → l < 2 ^ 24
      → do_recv_payload ics started (payload ++ rest)
        ≡ ok (record started { payload = payload; capacity = l }, l, true)
  unfolding do_recv_payload create_payload copy_payload first_recv_msg
  do_recv_payload-all ics payload rest hl le small =
      let all : min ((l + 2 ^ 32 - 0) % 2 ^ 32) ics ≡ l = omega arith in
      let size = length-append payload rest in
      let piece : take l (payload ++ rest) ≡ payload = rw hl (take-append payload rest) in
      let fits : leb (0 + length payload) l ≡ true = le→leb _ _ (omega arith) in
      let done : (length payload == l) ≡ true = ground arith in
      rw
        (
          all,
          lt→leb (2 ^ 31) l (omega arith),
          le→ltb (length (payload ++ rest)) l (omega arith),
          piece,
          fits,
          done,
        )
        refl

  read_extended-none :
      (data' : List ℕ) → t < rtmp_extended_timestamp → read_extended started data' ≡ (started, ok 0)
  unfolding read_extended
  read_extended-none data' ht = rw (lt→ltb t rtmp_extended_timestamp ht) refl

  recv_payload-all :
      (ics offset : ℕ) (payload rest : List ℕ)
      → t < rtmp_extended_timestamp
      → l ≡ length payload
      → l ≤ ics
      → l < 2 ^ 24
      → recv_payload ics offset started (payload ++ rest) ≡ (
        received_chunk cs t l m h₀.msg_stream_id,
        ok (offset + l, some (received_message cs t l m h₀.msg_stream_id payload)),
      )
  unfolding recv_payload recv_extended finish_chunk
  recv_payload-all ics offset payload rest ht hl le small =
      let e : offset + 0 ≡ offset = omega arith in
      ap (recv_extended ics offset (payload ++ rest)) (read_extended-none (payload ++ rest) ht)
      ∙ ap (finish_chunk (offset + 0) started) (do_recv_payload-all ics payload rest hl le small)
      ∙ rw e refl

  recv_chunk-all :
      (ics offset : ℕ) (payload rest : List ℕ)
      → 2 ≤ cs
      → t < rtmp_extended_timestamp
      → l ≡ length payload
      → l ≤ ics
      → l < 2 ^ 24
      → recv_chunk ics offset (type_0 cs t l m s) idle (payload ++ rest) ≡ (
        received_chunk cs t l m h₀.msg_stream_id,
        ok (offset + l, some (received_message cs t l m h₀.msg_stream_id payload)),
      )
  unfolding recv_chunk
  recv_chunk-all ics offset payload rest hcs ht hl le small =
      ap
        (λ (p : RtmpChunkData × Bool).
          if p.1 then recv_payload ics offset p.0 (payload ++ rest) else (p.0, err 2))
        (apply_header-type_0 hcs ht)
      ∙ recv_payload-all ics offset payload rest ht hl le small

room : (h : RtmpHeader) → h.chunk_type ≡ 0 → ltb 16 (by_type h.chunk_type 16 12 8 5) ≡ false
room h type = rw type refl

encode_16 : (h : RtmpHeader) → h.chunk_type ≡ 0 → encode h 16 ≡ ok (chunk_header h)
encode_16 h type = (encode-chunk_header h 16 (omega arith)).0 ∙ if-false _ _ (room h type)

decode-chunk_header :
    (h : RtmpHeader) (rest : List ℕ)
    → h.chunk_type ≡ 0
    → IsShort h
    → decode init (chunk_header h ++ rest)
      ≡ ok (12, record h { msg_stream_id = swapped h.msg_stream_id })
decode-chunk_header h rest type short =
    sym (ap (λ r. r >>= λ bytes. decode init (bytes ++ rest)) (encode_16 h type))
    ∙ decode-encode h 16 rest type short (omega arith)

length-chunk_header :
    (h : RtmpHeader)
    → h.chunk_type ≡ 0
    → h.timestamp < rtmp_extended_timestamp
    → length (chunk_header h) ≡ 12
length-chunk_header h type short =
    (encode-chunk_header h 16 (omega arith)).1
    ∙ rw (type, lt→leb rtmp_extended_timestamp h.timestamp short) refl

drop-chunk_header :
    (h : RtmpHeader) (rest : List ℕ)
    → h.chunk_type ≡ 0
    → h.timestamp < rtmp_extended_timestamp
    → drop 12 (chunk_header h ++ rest) ≡ rest
drop-chunk_header h rest type short =
    ap (λ (n : ℕ). drop n (chunk_header h ++ rest)) (sym (length-chunk_header h type short))
    ∙ drop-append (chunk_header h) rest

-- The header that comes back: the stream id is that of the chunk stream.
abbrev pub returned : RtmpHeader → RtmpChunkData → RtmpHeader
returned h chunk = record h { msg_stream_id = chunk.h.msg_stream_id }

abbrev pub delivered : RtmpHeader → RtmpChunkData → List ℕ → RtmpMessage
delivered h chunk payload = record { rtmp_header = returned h chunk; rtmp_body = payload }

-- The transport when on_recv_message is called: the chunk stream is idle again.
abbrev pub settled : RtmpMessageTransport → RtmpHeader → RtmpChunkData → RtmpMessageTransport
settled t h chunk = record t {
  chunk_cache =
      store_chunk h.chunk_stream_id
        (record { h = returned h chunk; time_delta = h.timestamp; payload = []; capacity = 0 })
        t.chunk_cache;
}

recv_chunk-type_0 :
    (ics : ℕ) (h : RtmpHeader) (chunk : RtmpChunkData) (payload rest : List ℕ) (s : ℕ)
    → h.chunk_type ≡ 0
    → IsShort h
    → h.msg_length ≡ length payload
    → length payload ≤ ics
    → chunk.payload ≡ []
    → recv_chunk ics 12 (record h { msg_stream_id = s }) chunk (payload ++ rest) ≡ (
      record { h = returned h chunk; time_delta = h.timestamp; payload = []; capacity = 0 },
      ok (12 + length payload, some (delivered h chunk payload)),
    )
recv_chunk-type_0 ics h chunk payload rest s type short len le empty =
    rw (type, empty)
      (recv_chunk-all h.chunk_stream_id h.timestamp h.msg_length h.msg_type_id s (chunk.h)
          chunk.time_delta chunk.capacity ics 12 payload rest short.1 short.0 len (omega arith)
          short.3
        ∙ rw len refl)

-- A message of one chunk of type 0, which is no longer than the chunks that are read, on an idle chunk
-- stream, whatever follows: exactly its bytes are taken, the message comes back with its payload, and
-- with its header but for the stream id, which stays that of the chunk stream; on_recv_message sees the
-- message, and the chunk stream is idle again.
pub recv_rtmp_message-chunk_header :
    (garbage : ℕ) (t : RtmpMessageTransport) (h : RtmpHeader) (payload rest : List ℕ)
    → h.chunk_type ≡ 0
    → IsShort h
    → h.msg_length ≡ length payload
    → length payload ≤ t.in_chunk_size
    → (chunk_of garbage t h.chunk_stream_id).payload ≡ []
    → recv_rtmp_message garbage t (chunk_header h ++ (payload ++ rest)) ≡ (
      (on_recv_message
          (settled t h (chunk_of garbage t h.chunk_stream_id))
          (delivered h (chunk_of garbage t h.chunk_stream_id) payload)).0,
      ok (12 + length payload, some (delivered h (chunk_of garbage t h.chunk_stream_id) payload)),
    )
unfolding recv_rtmp_message recv_header handle
recv_rtmp_message-chunk_header garbage t h payload rest type short len le empty =
    let id = h.chunk_stream_id in
    let chunk = chunk_of garbage t id in
    let all = payload ++ rest in
    ap (recv_header garbage t (chunk_header h ++ all)) (decode-chunk_header h all type short)
    ∙ ap
        (λ d.
          let r =
            recv_chunk t.in_chunk_size 12 (record h { msg_stream_id = swapped h.msg_stream_id })
              chunk d in
          handle (record t { chunk_cache = store_chunk id r.0 t.chunk_cache }) r.1)
        (drop-chunk_header h all type short.0)
    ∙ ap
        (λ (r : Received). handle (record t { chunk_cache = store_chunk id r.0 t.chunk_cache }) r.1)
        (recv_chunk-type_0 t.in_chunk_size h chunk payload rest (swapped h.msg_stream_id) type short
          len le empty)
