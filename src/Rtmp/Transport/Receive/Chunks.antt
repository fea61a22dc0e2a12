-- ===== src/Rtmp/Transport/Receive/Chunks.antt =====
-- The steps of recvRtmpMessage of rtmp_transport.cc on one chunk stream: its memory and its bytes.
use librtmp_client.Prelude.{
  ℕ, ◌+◌, ◌-◌, ◌%◌, ◌^◌, ◌≤◌, ◌<◌, min, ◌≡◌, refl, sym, ◌∙◌, List, [], ◌∷◌, ltb, leb, ◌==◌, ◌&&◌,
  not, Bool, true, false, Bool-cases, inl, inr, if◌then◌else◌, if_both, length, take, drop, arith,
  Result, ok, err, fault, out_of_fuel, Returns, gives, refuses, Returns-if, Returns->>=, ==→eq,
  ltb→le, leb→le, length-append, length-take, length-drop,
}
use librtmp_client.Rtmp.Header.{RtmpHeader}
use librtmp_client.Rtmp.Transport.{
  RtmpChunkData, apply_header, update_time, update_message, first_recv_msg, create_payload,
  copy_payload, read_extended, do_recv_payload,
}
use librtmp_client.Rtmp.Transport.Receive.{
  Received, take_time_back, finish_chunk, recv_extended, recv_payload, recv_chunk,
}

-- The payload lies inside its memory, which is as long as the message while one is being read.
abbrev pub IsSound : RtmpChunkData → Type 0
IsSound chunk =
    (length chunk.payload ≤ chunk.capacity)
    × (chunk.h.msg_length < 2 ^ 24)
    × (1 ≤ length chunk.payload → chunk.capacity ≡ chunk.h.msg_length)

update_time-IsSound :
    (header : RtmpHeader) (chunk : RtmpChunkData)
    → IsSound chunk
    → IsSound (update_time header chunk)
unfolding update_time
update_time-IsSound header chunk h = h

update_message-IsSound :
    (header : RtmpHeader) (chunk : RtmpChunkData)
    → header.msg_length < 2 ^ 24
    → IsSound chunk
    → IsSound (update_message header chunk).0
unfolding update_message first_recv_msg
update_message-IsSound header chunk lt h =
    elim (Bool-cases
      (not (length chunk.payload == 0) && not (header.msg_length == chunk.h.msg_length))) [
        | inl e ↦ rw e h
        | inr e ↦ rw e (h.0, lt, λ long. ground (arith, h.2))
      ]

copy_payload-Returns :
    (chunk : RtmpChunkData) (bytes : List ℕ)
    → chunk.h.msg_length < 2 ^ 24
    → chunk.capacity ≡ chunk.h.msg_length
    → length chunk.payload + length bytes ≤ chunk.capacity
    → Returns IsSound (copy_payload chunk bytes)
unfolding copy_payload
copy_payload-Returns chunk bytes lt e fits =
    Returns-if (leb (length chunk.payload + length bytes) chunk.capacity)
      (λ _. gives (omega (arith, length-append chunk.payload bytes), lt, λ _. e))
      (λ no. absurd (ground arith))

-- The chunk stream that the bytes are copied into.
abbrev Ready : RtmpChunkData → RtmpChunkData → Type 0
Ready chunk c =
    (c.h.msg_length ≡ chunk.h.msg_length)
    × (c.capacity ≡ chunk.h.msg_length)
    × (length c.payload ≡ length chunk.payload)

ready :
    (chunk : RtmpChunkData)
    → IsSound chunk
    → Ready chunk (if first_recv_msg chunk then create_payload chunk else chunk)
unfolding first_recv_msg create_payload
ready chunk h = elim (Bool-cases (length chunk.payload == 0)) [
  | inl e ↦ rw e (refl, refl, sym (==→eq (length chunk.payload) 0 e))
  | inr e ↦ rw e (refl, h.2 (ground arith), refl)
]

payload_le : (chunk : RtmpChunkData) → IsSound chunk → length chunk.payload ≤ chunk.h.msg_length
payload_le chunk h = elim (Bool-cases (length chunk.payload == 0)) [
  | inl e ↦ omega (arith, ==→eq (length chunk.payload) 0 e)
  | inr e ↦ let long : 1 ≤ length chunk.payload = ground arith in omega (arith, h.0, h.2 long)
]

do_recv_payload-Returns :
    (ics : ℕ) (chunk : RtmpChunkData) (data' : List ℕ)
    → IsSound chunk
    → Returns (λ (c, n, finish). IsSound c × (n ≤ length data')) (do_recv_payload ics chunk data')
unfolding do_recv_payload
do_recv_payload-Returns ics chunk data' h =
    let n = min ((chunk.h.msg_length + 2 ^ 32 - length chunk.payload) % 2 ^ 32) ics in
    let le = payload_le chunk h in
    let lt = h.1 in
    let bound : n + length chunk.payload ≤ chunk.h.msg_length = omega arith in
    let c = if first_recv_msg chunk then create_payload chunk else chunk in
    let r = ready chunk h in
    Returns-if (leb (2 ^ 31) n) (λ big. absurd (omega (arith, leb→le (2 ^ 31) n big, bound)))
      λ _.
        Returns-if (ltb (length data') n) (λ _. refuses 1)
          λ enough.
            Returns->>=
              (copy_payload-Returns c (take n data') (omega (arith, r.0)) (r.1 ∙ sym r.0)
                (omega (arith, r.1, r.2, bound, length-take n data')))
              λ c' sound. gives (sound, ltb→le (length data') n enough)

-- The chunk stream stays sound, and what is taken is at most `total`.
abbrev pub Safe : ℕ → Received → Type 0
Safe total (chunk, r) = IsSound chunk × Returns (λ (n, msg). n ≤ total) r

finish_chunk-Safe :
    (offset k total : ℕ) (chunk : RtmpChunkData) (r : Result (RtmpChunkData × ℕ × Bool))
    → offset + k ≤ total
    → IsSound chunk
    → Returns (λ (c, n, finish). IsSound c × (n ≤ k)) r
    → Safe total (finish_chunk offset chunk r)
unfolding finish_chunk take_time_back
finish_chunk-Safe offset k total chunk (ok (c, n, true)) le h (gives w) =
    ((omega arith, w.0.1, λ long. absurd (omega arith)), gives (omega (arith, w.1)))
finish_chunk-Safe offset k total chunk (ok (c, n, false)) le h (gives w) =
    (w.0, gives (omega (arith, w.1)))
finish_chunk-Safe offset k total chunk (err n) le h (refuses _) = (h, refuses n)
finish_chunk-Safe offset k total chunk fault le h w = elim w [ ]
finish_chunk-Safe offset k total chunk out_of_fuel le h w = elim w [ ]

abbrev Extended : ℕ → RtmpChunkData × Result ℕ → Type 0
Extended k (chunk, r) = IsSound chunk × Returns (λ n. n ≤ k) r

read_extended-Extended :
    (chunk : RtmpChunkData) (data' : List ℕ)
    → IsSound chunk
    → Extended (length data') (read_extended chunk data')
unfolding read_extended
read_extended-Extended chunk [] h =
    if_both (Extended 0) _ _ _ (h, gives (omega arith)) (h, refuses 1)
read_extended-Extended chunk (a ∷ []) h =
    if_both (Extended 1) _ _ _ (h, gives (omega arith)) (h, refuses 1)
read_extended-Extended chunk (a ∷ b ∷ []) h =
    if_both (Extended 2) _ _ _ (h, gives (omega arith)) (h, refuses 1)
read_extended-Extended chunk (a ∷ b ∷ c ∷ []) h =
    if_both (Extended 3) _ _ _ (h, gives (omega arith)) (h, refuses 1)
read_extended-Extended chunk (a ∷ b ∷ c ∷ d ∷ rest) h =
    if_both (Extended (length (a ∷ b ∷ c ∷ d ∷ rest))) _ _ _ (h, gives (omega arith))
      (h, gives (omega arith))

recv_extended-Safe :
    (ics offset : ℕ) (data' : List ℕ) (e : RtmpChunkData × Result ℕ)
    → Extended (length data') e
    → Safe (offset + length data') (recv_extended ics offset data' e)
unfolding recv_extended
recv_extended-Safe ics offset data' (chunk, ok n) (h, gives le) =
    finish_chunk-Safe (offset + n) (length (drop n data')) (offset + length data') chunk _
      (omega (arith, length-drop n data')) h (do_recv_payload-Returns ics chunk (drop n data') h)
recv_extended-Safe ics offset data' (chunk, err n) (h, refuses _) = (h, refuses n)
recv_extended-Safe ics offset data' (chunk, fault) (h, w) = elim w [ ]
recv_extended-Safe ics offset data' (chunk, out_of_fuel) (h, w) = elim w [ ]

apply_header-IsSound :
    (header : RtmpHeader) (chunk : RtmpChunkData)
    → header.msg_length < 2 ^ 24
    → IsSound chunk
    → IsSound (apply_header header chunk).0
unfolding apply_header
apply_header-IsSound header chunk lt h =
    let c : RtmpChunkData = record chunk {
      h = record (chunk.h) {
        chunk_type = header.chunk_type;
        chunk_stream_id = header.chunk_stream_id;
      };
    } in
    if_both (λ (p : RtmpChunkData × Bool). IsSound (p.0)) (leb header.chunk_type 2) _ _
      (if_both (λ (p : RtmpChunkData × Bool). IsSound (p.0)) (leb header.chunk_type 1) _ _
        (update_message-IsSound header (update_time header c) lt (update_time-IsSound header c h))
        (update_time-IsSound header c h))
      (if_both (λ (p : RtmpChunkData × Bool). IsSound (p.0)) _ _ _ h h)

pub recv_chunk-Safe :
    (ics offset : ℕ) (header : RtmpHeader) (chunk : RtmpChunkData) (data' : List ℕ)
    → header.msg_length < 2 ^ 24
    → IsSound chunk
    → Safe (offset + length data') (recv_chunk ics offset header chunk data')
unfolding recv_chunk recv_payload
recv_chunk-Safe ics offset header chunk data' lt h =
    let sound = apply_header-IsSound header chunk lt h in
    if_both (Safe (offset + length data')) (apply_header header chunk).1 _ _
      (recv_extended-Safe ics offset data' _
        (read_extended-Extended (apply_header header chunk).0 data' sound))
      (sound, refuses 2)
