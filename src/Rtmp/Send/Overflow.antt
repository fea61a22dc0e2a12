-- ===== src/Rtmp/Send/Overflow.antt =====
-- The messages for which do_send_message of rtmp_transport.cc writes behind `send_cache_buf`, or does
-- not end.
use librtmp_client.Prelude.{
  ℕ, zero, suc, ◌+◌, ◌-◌, ◌*◌, ◌≤◌, ◌<◌, min, ◌≡◌, refl, ap, ◌∙◌, Bool-cases, inl, inr, List, [],
  ◌++◌, leb, if-false, length, take, drop, length-append, length-take, length-drop, arith, ok,
  fault, out_of_fuel, lt→leb,
}
use librtmp_client.Rtmp.Header.{RtmpHeader, rtmp_extended_timestamp}
use librtmp_client.Rtmp.Header.Encoding.{chunk_header, encode-chunk_header}
use librtmp_client.Rtmp.Send.{
  append_to_cache, send_when_full, type_of_chunk, send_chunk, send_loop, do_send_message,
}
use librtmp_client.Rtmp.Send.Stream.{
  send_loop_step, send_chunk_round, header_bytes-chunk_header, append_to_cache_fits, fmt_le,
  first_fmt, later_fmt,
}

-- The sizes of a chunk header.
pub header_le : (h : RtmpHeader) → h.chunk_type ≤ 3 → length (chunk_header h) ≤ 16
header_le h le = rw ((encode-chunk_header h 16 le).1) (ground arith)

long_header_ge : (h : RtmpHeader) → 12 ≤ length (chunk_header (record h { chunk_type = 0 }))
long_header_ge h =
    rw ((encode-chunk_header (record h { chunk_type = 0 }) 16 (omega arith)).1) (omega arith)

long_header :
    (h : RtmpHeader)
    → h.timestamp < rtmp_extended_timestamp
    → length (chunk_header (record h { chunk_type = 0 })) ≡ 12
long_header h lt =
    (encode-chunk_header (record h { chunk_type = 0 }) 16 (omega arith)).1
    ∙ rw (lt→leb rtmp_extended_timestamp h.timestamp lt) refl

short_header :
    (h : RtmpHeader)
    → h.timestamp < rtmp_extended_timestamp
    → length (chunk_header (record h { chunk_type = 3 })) ≡ 1
short_header h lt =
    (encode-chunk_header (record h { chunk_type = 3 }) 16 (omega arith)).1
    ∙ rw (lt→leb rtmp_extended_timestamp h.timestamp lt) refl

append_to_cache_overflows :
    (cache bytes : List ℕ)
    → 32768 < length cache + length bytes
    → append_to_cache cache bytes ≡ fault
unfolding append_to_cache
append_to_cache_overflows cache bytes lt = if-false _ _ (lt→leb _ _ lt)

-- One round, where the header fits and the bytes behind it do not.
send_chunk_overflows :
    (len : ℕ) (h : RtmpHeader) (start cache : List ℕ)
    → h.chunk_type ≤ 3
    → length cache + length (chunk_header h) ≤ 32768
    → 32768 < length cache + (length (chunk_header h) + length (take len start))
    → send_chunk len h start cache ≡ fault
unfolding send_chunk
send_chunk_overflows len h start cache le fits lt =
    rw
      (
        header_bytes-chunk_header h le,
        append_to_cache_fits cache (chunk_header h) fits,
        append_to_cache_overflows (cache ++ chunk_header h) (take len start)
            (omega (arith, length-append cache (chunk_header h))),
      )
      refl

send_loop_overflows :
    (f c : ℕ) (h : RtmpHeader) (size fmt : ℕ) (start cache : List ℕ)
    → 1 ≤ length start
    → fmt ≡ type_of_chunk (length start) size
    → length cache + 16 ≤ 32768
    → 32768
      < length cache
        + (length (chunk_header (record h { chunk_type = fmt })) + min c (length start))
    → send_loop (suc f) c h size start cache ≡ fault
send_loop_overflows f c h size fmt start cache some e room lt =
    let le = fmt_le (length start) size fmt e in
    let h' = record h { chunk_type = fmt } in
    send_loop_step f c h size fmt start cache some e
    ∙ rw
        (send_chunk_overflows (min c (length start)) h' start cache le
          (omega (arith, header_le h' le))
          (omega (arith, length-take (min c (length start)) start)))
        refl

-- A chunk size of at least the size of a message of 32757 bytes or more makes one chunk of it, and the
-- chunk is written behind the end of the cache.
pub do_send_message_one_chunk :
    (c : ℕ) (h : RtmpHeader) (payload : List ℕ)
    → length payload ≤ c
    → 32757 ≤ length payload
    → do_send_message c h payload ≡ fault
unfolding do_send_message
do_send_message_one_chunk c h payload le long =
    send_loop_overflows (length payload) c h (length payload) 0 payload [] (omega arith)
      (first_fmt (length payload)) (omega arith) (omega (arith, long_header_ge h))

send_chunk_fits_unsent :
    (c : ℕ) (h : RtmpHeader) (start cache : List ℕ)
    → h.chunk_type ≤ 3
    → length cache + (length (chunk_header h) + length (take c start)) < 32752
    → send_chunk (min c (length start)) h start cache
      ≡ ok ([], cache ++ (chunk_header h ++ take c start))
unfolding send_when_full
send_chunk_fits_unsent c h start cache le lt =
    send_chunk_round c h start cache le (omega arith)
    ∙ ap ok (
        if-false _ _ (
          lt→leb (32768 - length (cache ++ (chunk_header h ++ take c start))) 16 (
            omega (
              arith,
              length-append cache (chunk_header h ++ take c start),
              length-append (chunk_header h) (take c start),
            ))))

-- From 253 chunks of 128 bytes on the cache has 120 bytes left, which is not few enough to send it; `m`
-- counts the chunks up to there.
send_loop_default :
    (m f : ℕ) (h : RtmpHeader) (size : ℕ) (start cache : List ℕ)
    → h.timestamp < rtmp_extended_timestamp
    → length start < size
    → m < f
    → length cache + 129 * m ≡ 32648
    → 128 * m + 120 ≤ length start
    → send_loop f 128 h size start cache ≡ fault
send_loop_default m zero h size start cache short lt fuel full long = absurd (omega arith)
send_loop_default zero (suc f) h size start cache short lt fuel full long =
    send_loop_overflows f 128 h size 3 start cache (omega arith) (later_fmt (length start) size lt)
      (omega arith) (omega (arith, short_header h short))
send_loop_default (suc m) (suc f) h size start cache short lt fuel full long =
    let one = short_header h short in
    let piece = length-take 128 start in
    let header = chunk_header (record h { chunk_type = 3 }) in
    let all = length-append cache (header ++ take 128 start) in
    let both = length-append header (take 128 start) in
    let rest =
      send_loop_default m f h size (drop 128 start) (cache ++ (header ++ take 128 start)) short
        (omega (arith, length-drop 128 start)) (omega arith) (omega arith)
        (omega (arith, length-drop 128 start)) in
    send_loop_step f 128 h size 3 start cache (omega arith) (later_fmt (length start) size lt)
    ∙ rw
        (
          send_chunk_fits_unsent 128 (record h { chunk_type = 3 }) start cache (omega arith)
              (omega arith),
          rest,
        )
        refl

-- With the default chunk size of 128, and a time that needs no extended timestamp, every message of
-- 32504 bytes or more is written behind the end of the cache.
pub do_send_message_default :
    (h : RtmpHeader) (payload : List ℕ)
    → h.timestamp < rtmp_extended_timestamp
    → 32504 ≤ length payload
    → do_send_message 128 h payload ≡ fault
unfolding do_send_message
do_send_message_default h payload short long =
    let twelve = long_header h short in
    let piece = length-take 128 payload in
    let header = chunk_header (record h { chunk_type = 0 }) in
    let both = length-append header (take 128 payload) in
    let rest =
      send_loop_default 252 (length payload) h (length payload) (drop 128 payload)
        (header ++ take 128 payload) short (omega (arith, length-drop 128 payload)) (omega arith)
        (omega arith) (omega (arith, length-drop 128 payload)) in
    send_loop_step (length payload) 128 h (length payload) 0 payload [] (omega arith)
      (first_fmt (length payload))
    ∙ rw
        (
          send_chunk_fits_unsent 128 (record h { chunk_type = 0 }) payload [] (omega arith)
              (omega arith),
          rest,
        )
        refl

send_when_full_small :
    (cache : List ℕ) → length cache ≤ 32768 → length (send_when_full cache).1 < 32752
unfolding send_when_full
send_when_full_small cache le = elim (Bool-cases (leb (32768 - length cache) 16)) [
  | inl e ↦ rw e (omega arith)
  | inr e ↦ rw e (ground arith)
]

-- A chunk size of 0 takes nothing off the payload: no number of rounds is enough.
send_loop_zero :
    (f : ℕ) (h : RtmpHeader) (payload cache : List ℕ)
    → 1 ≤ length payload
    → length cache < 32752
    → send_loop f 0 h (length payload) payload cache ≡ out_of_fuel
unfolding send_loop
send_loop_zero zero h payload cache some lt = refl
send_loop_zero (suc f) h payload cache some lt =
    let h' = record h { chunk_type = 0 } in
    let full = cache ++ (chunk_header h' ++ []) in
    let small = header_le h' (omega arith) in
    let size = length-append cache (chunk_header h' ++ []) in
    let header_size = length-append (chunk_header h') [] in
    send_loop_step f 0 h (length payload) 0 payload cache some (first_fmt (length payload))
    ∙ rw
        (
          send_chunk_round 0 h' payload cache (omega arith) (omega arith),
          send_loop_zero f h payload (send_when_full full).1 some
              (send_when_full_small full (omega arith)),
        )
        refl

-- With a chunk size of 0 the call does not end: a message that is not empty is not sent in any number
-- of rounds.
pub send_loop_endless :
    (f : ℕ) (h : RtmpHeader) (payload : List ℕ)
    → 1 ≤ length payload
    → send_loop f 0 h (length payload) payload [] ≡ out_of_fuel
send_loop_endless f h payload some = send_loop_zero f h payload [] some (omega arith)
