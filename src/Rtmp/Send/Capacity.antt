-- ===== src/Rtmp/Send/Capacity.antt =====
-- The messages that do_send_message of rtmp_transport.cc sends whatever their times are.
use librtmp_client.Prelude.{
  ℕ, zero, suc, ◌+◌, ◌*◌, ◌≤◌, ◌<◌, min, ◌≡◌, refl, List, ◌++◌, length, take, drop, compare_cases,
  inl, inr, length-append, length-take, length-drop, arith,
}
use librtmp_client.Rtmp.Header.{RtmpHeader}
use librtmp_client.Rtmp.Header.Encoding.{chunk_header, encode-chunk_header}
use librtmp_client.Rtmp.Send.{do_send_message}
use librtmp_client.Rtmp.Send.Stream.{
  Chunked, chunk, done, Sends, Chunked-exists, do_send_message-Chunked,
}
use librtmp_client.Rtmp.Send.Overflow.{header_le}

short_header_le : (h : RtmpHeader) → length (chunk_header (record h { chunk_type = 3 })) ≤ 5
short_header_le h =
    rw ((encode-chunk_header (record h { chunk_type = 3 }) 16 (omega arith)).1) (ground arith)

Chunked-nil :
    (c : ℕ) (h : RtmpHeader) (fmt : ℕ) (payload wire : List ℕ)
    → Chunked c h fmt payload wire
    → length payload ≡ 0
    → length wire ≡ 0
Chunked-nil c h fmt payload wire (done) e = refl
Chunked-nil c h fmt payload wire (chunk some w eq) e = absurd (omega arith)

wire_size :
    (c : ℕ) (h : RtmpHeader) (fmt : ℕ) (payload wire rest : List ℕ)
    → wire ≡ chunk_header (record h { chunk_type = fmt }) ++ (take c payload ++ rest)
    → length wire
      ≡ length (chunk_header (record h { chunk_type = fmt }))
        + (min c (length payload) + length rest)
wire_size c h fmt payload wire rest eq = rw eq (
    omega (
      arith,
      length-append (chunk_header (record h { chunk_type = fmt })) (take c payload ++ rest),
      length-append (take c payload) rest,
      length-take c payload,
    ))

-- Each chunk costs five bytes at most, and all but the last one hold 128 bytes or more.
later_chunks_le :
    (c : ℕ) (h : RtmpHeader) (f : ℕ) (payload wire : List ℕ)
    → 128 ≤ c
    → length payload < f
    → Chunked c h 3 payload wire
    → 128 * length wire ≤ 133 * length payload + 640
later_chunks_le c h zero payload wire le lt w = absurd (omega arith)
later_chunks_le c h (suc f) payload wire le lt (done) = omega arith
later_chunks_le c h (suc f) payload wire le lt (chunk {rest} some w eq) =
    let size = wire_size c h 3 payload wire rest eq in
    let header = short_header_le h in
    let left = length-drop c payload in
    elim (compare_cases c (length payload)) [
      | inl more ↦ omega (arith, later_chunks_le c h f (drop c payload) rest le (omega arith) w)
      | inr (inl e) ↦ omega (arith, Chunked-nil c h 3 (drop c payload) rest w (omega arith))
      | inr (inr all) ↦ omega (arith, Chunked-nil c h 3 (drop c payload) rest w (omega arith))
    ]

first_chunk_le :
    (c : ℕ) (h : RtmpHeader) (payload wire : List ℕ)
    → 128 ≤ c
    → Chunked c h 0 payload wire
    → 128 * length wire ≤ 133 * length payload + 2048
first_chunk_le c h payload wire le (done) = omega arith
first_chunk_le c h payload wire le (chunk {rest} some w eq) =
    let size = wire_size c h 0 payload wire rest eq in
    let header = header_le (record h { chunk_type = 0 }) (omega arith) in
    let left = length-drop c payload in
    let more =
      later_chunks_le c h (suc (length (drop c payload))) (drop c payload) rest le (omega arith)
        w in
    elim (compare_cases c (length payload)) [
      | inl longer ↦ omega arith
      | inr (inl e) ↦ omega (arith, Chunked-nil c h 3 (drop c payload) rest w (omega arith))
      | inr (inr all) ↦ omega (arith, Chunked-nil c h 3 (drop c payload) rest w (omega arith))
    ]

-- With a chunk size of 128 or more, every message of at most 31520 bytes is sent, whatever its header
-- says: the call ends, stays inside the cache, and hands over the chunk stream of the message.
pub do_send_message_short :
    (c : ℕ) (h : RtmpHeader) (payload : List ℕ)
    → 128 ≤ c
    → length payload ≤ 31520
    → (wire : List ℕ) × Chunked c h 0 payload wire × Sends (do_send_message c h payload) wire
do_send_message_short c h payload le short =
    let stream = Chunked-exists c h (omega arith) (suc (length payload)) 0 payload (omega arith) in
    (
      stream.0,
      stream.1,
      do_send_message-Chunked c h payload stream.0 (omega arith) stream.1
          (omega (arith, first_chunk_le c h payload stream.0 le stream.1)),
    )
