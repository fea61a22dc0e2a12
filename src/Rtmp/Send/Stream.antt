-- ===== src/Rtmp/Send/Stream.antt =====
-- What do_send_message of rtmp_transport.cc hands to the socket, against the chunk stream of a message.
use librtmp_client.Prelude.{
  ℕ, zero, suc, ◌+◌, ◌-◌, ◌≤◌, ◌<◌, min, ◌≡◌, refl, sym, ap, ◌∙◌, Bool-cases, inl, inr, List, [],
  ◌∷◌, ◌++◌, leb, if-true, if-false, length, take, drop, length-append, length-drop, append_assoc,
  append-nil, arith, Result, ok, ◌>>=◌, leb→le, le→leb, le→ltb, ap₂, take_all, drop_all,
}
use librtmp_client.Rtmp.Header.{RtmpHeader, encode}
use librtmp_client.Rtmp.Header.Encoding.{chunk_header, encode-chunk_header, by_type}
use librtmp_client.Rtmp.Send.{
  append_to_cache, header_bytes, send_when_full, send_rest, type_of_chunk, send_chunk, send_loop,
  do_send_message,
}

abbrev pub concat : List (List ℕ) → List ℕ
concat [] = []
concat (b ∷ bs) = b ++ concat bs

-- A payload as chunks of `c` bytes, the last one of what is left: a header of the type `fmt` before
-- the first, of type 3 before the others.
pub data Chunked (c : ℕ) (h : RtmpHeader) : ℕ → List ℕ → List ℕ → Type 0 where
  done : {fmt : ℕ} → Chunked c h fmt [] []
  chunk :
      {fmt : ℕ} {payload wire rest : List ℕ}
      → 1 ≤ length payload
      → Chunked c h 3 (drop c payload) rest
      → wire ≡ chunk_header (record h { chunk_type = fmt }) ++ (take c payload ++ rest)
      → Chunked c h fmt payload wire

by_type_le : (t : ℕ) → by_type t 16 12 8 5 ≤ 16
by_type_le t = ground arith

pub header_bytes-chunk_header :
    (h : RtmpHeader) → h.chunk_type ≤ 3 → header_bytes (encode h 16) ≡ ok (chunk_header h)
unfolding header_bytes
header_bytes-chunk_header h le =
    ap header_bytes
      ((encode-chunk_header h 16 le).0 ∙ if-false _ _ (le→ltb 16 _ (by_type_le h.chunk_type)))

pub append_to_cache_fits :
    (cache bytes : List ℕ)
    → length cache + length bytes ≤ 32768
    → append_to_cache cache bytes ≡ ok (cache ++ bytes)
unfolding append_to_cache
append_to_cache_fits cache bytes le = if-true _ _ (le→leb _ _ le)

pub take-min : (n : ℕ) (xs : List ℕ) → take (min n (length xs)) xs ≡ take n xs
take-min n xs = elim (Bool-cases (leb n (length xs))) [
  | inl e ↦
      ap (λ (k : ℕ). take k xs)
        (let m : min n (length xs) ≡ n = omega (arith, leb→le n (length xs) e) in m)
  | inr e ↦
      let m : min n (length xs) ≡ length xs = ground arith in
      rw m (take_all (length xs) xs (omega arith) ∙ sym (take_all n xs (ground arith)))
]

drop-min : (n : ℕ) (xs : List ℕ) → drop (min n (length xs)) xs ≡ drop n xs
drop-min n xs = elim (Bool-cases (leb n (length xs))) [
  | inl e ↦
      ap (λ (k : ℕ). drop k xs)
        (let m : min n (length xs) ≡ n = omega (arith, leb→le n (length xs) e) in m)
  | inr e ↦
      let m : min n (length xs) ≡ length xs = ground arith in
      rw m (drop_all (length xs) xs (omega arith) ∙ sym (drop_all n xs (ground arith)))
]

-- One round, where the chunk fits: it is appended to the cache.
pub send_chunk_fits :
    (len : ℕ) (h : RtmpHeader) (start cache : List ℕ)
    → h.chunk_type ≤ 3
    → length cache + (length (chunk_header h) + length (take len start)) ≤ 32768
    → send_chunk len h start cache
      ≡ ok (send_when_full (cache ++ (chunk_header h ++ take len start)))
unfolding send_chunk
send_chunk_fits len h start cache le fits =
    rw
      (
        header_bytes-chunk_header h le,
        append_to_cache_fits cache (chunk_header h) (omega arith),
        append_to_cache_fits (cache ++ chunk_header h) (take len start)
            (omega (arith, length-append cache (chunk_header h))),
        append_assoc cache (chunk_header h) (take len start),
      )
      refl

send_when_full-concat :
    (cache : List ℕ) → concat (send_when_full cache).0 ++ (send_when_full cache).1 ≡ cache
unfolding send_when_full
send_when_full-concat cache = elim (Bool-cases (leb (32768 - length cache) 16)) [
  | inl e ↦ rw e (append-nil (cache ++ []) ∙ append-nil cache)
  | inr e ↦ rw e refl
]

send_when_full_le : (cache : List ℕ) → length (send_when_full cache).1 ≤ length cache
unfolding send_when_full
send_when_full_le cache = elim (Bool-cases (leb (32768 - length cache) 16)) [
  | inl e ↦ rw e (omega arith)
  | inr e ↦ rw e (omega arith)
]

send_rest-concat : (cache : List ℕ) → concat (send_rest cache) ≡ cache
unfolding send_rest
send_rest-concat [] = refl
send_rest-concat (b ∷ cache) = append-nil (b ∷ cache)

concat-append : (xs ys : List (List ℕ)) → concat (xs ++ ys) ≡ concat xs ++ concat ys
concat-append [] ys = refl
concat-append (x ∷ xs) ys =
    ap (λ t. x ++ t) (concat-append xs ys) ∙ sym (append_assoc x (concat xs) (concat ys))

-- The blocks that a call sends are the bytes `w`.
abbrev pub Sends : Result (List (List ℕ)) → List ℕ → Type 0
Sends r w = (blocks : List (List ℕ)) × (r ≡ ok blocks) × (concat blocks ≡ w)

Sends->>= :
    {r : Result (List (List ℕ))} {w : List ℕ} (sent : List (List ℕ))
    → Sends r w
    → Sends (r >>= λ blocks. ok (sent ++ blocks)) (concat sent ++ w)
Sends->>= sent s = (
  sent ++ s.0,
  ap (λ r. r >>= λ blocks. ok (sent ++ blocks)) s.1,
  concat-append sent s.0 ∙ ap (λ t. concat sent ++ t) s.2,
)

-- A round of the loop and what follows it.
pub send_loop_step :
    (f c : ℕ) (h : RtmpHeader) (size fmt : ℕ) (start cache : List ℕ)
    → 1 ≤ length start
    → fmt ≡ type_of_chunk (length start) size
    → send_loop (suc f) c h size start cache ≡ (
        send_chunk (min c (length start)) (record h { chunk_type = fmt }) start cache
        >>= λ (sent, left).
            send_loop f c h size (drop c start) left >>= λ blocks. ok (sent ++ blocks))
unfolding send_loop
send_loop_step f c h size fmt [] cache some e = absurd (omega arith)
send_loop_step f c h size fmt (x ∷ xs) cache some e =
    let start = x ∷ xs in
    ap₂
      (λ (t : ℕ) (rest : List ℕ).
        send_chunk (min c (length start)) (record h { chunk_type = t }) start cache
        >>= λ (sent, left). send_loop f c h size rest left >>= λ blocks. ok (sent ++ blocks))
      (sym e) (drop-min c start)

pub first_fmt : (n : ℕ) → 0 ≡ type_of_chunk n n
first_fmt n = ground arith

pub later_fmt : (n m : ℕ) → n < m → 3 ≡ type_of_chunk n m
later_fmt n m lt = ground arith

pub fmt_le : (n m fmt : ℕ) → fmt ≡ type_of_chunk n m → fmt ≤ 3
fmt_le n m fmt e = ground arith

pub send_chunk_round :
    (c : ℕ) (h : RtmpHeader) (start cache : List ℕ)
    → h.chunk_type ≤ 3
    → length cache + (length (chunk_header h) + length (take c start)) ≤ 32768
    → send_chunk (min c (length start)) h start cache
      ≡ ok (send_when_full (cache ++ (chunk_header h ++ take c start)))
send_chunk_round c h start cache le fits =
    let size = ap length (take-min c start) in
    send_chunk_fits (min c (length start)) h start cache le (omega (arith, size))
    ∙ ap (λ p. ok (send_when_full (cache ++ (chunk_header h ++ p)))) (take-min c start)

send_loop_end :
    (f c : ℕ) (h : RtmpHeader) (size : ℕ) (cache : List ℕ)
    → Sends (send_loop (suc f) c h size [] cache) (cache ++ [])
unfolding send_loop
send_loop_end f c h size cache =
    (send_rest cache, refl, send_rest-concat cache ∙ sym (append-nil cache))

send_loop-Chunked :
    (f c : ℕ) (h : RtmpHeader) (size fmt : ℕ) (start cache wire : List ℕ)
    → 1 ≤ c
    → fmt ≡ type_of_chunk (length start) size
    → length start ≤ size
    → length start < f
    → length cache + length wire ≤ 32768
    → Chunked c h fmt start wire
    → Sends (send_loop f c h size start cache) (cache ++ wire)
send_loop-Chunked zero c h size fmt start cache wire some e le lt fits w = absurd (omega arith)
send_loop-Chunked (suc f) c h size fmt start cache _ some e le lt fits (done) =
    send_loop_end f c h size cache
send_loop-Chunked (suc f) c h size fmt start cache wire some e le lt fits (chunk {rest} long w eq) =
    let header = chunk_header (record h { chunk_type = fmt }) in
    let piece = take c start in
    let full = cache ++ (header ++ piece) in
    let left = length-drop c start in
    let wire_size : length wire ≡ length header + (length piece + length rest) =
      rw eq (omega (arith, length-append header (piece ++ rest), length-append piece rest)) in
    let full_size = length-append cache (header ++ piece) in
    let chunk_size = length-append header piece in
    let round =
      send_chunk_round c (record h { chunk_type = fmt }) start cache
        (fmt_le (length start) size fmt e) (omega arith) in
    let sends = Sends->>= (send_when_full full).0 (
      send_loop-Chunked f c h size 3 (drop c start) (send_when_full full).1 rest some
        (later_fmt _ size (omega arith)) (omega arith) (omega arith)
        (omega (arith, send_when_full_le full)) w) in
    (
      sends.0,
      send_loop_step f c h size fmt start cache long e ∙ rw round sends.1,
      sends.2
          ∙ sym (append_assoc (concat (send_when_full full).0) (send_when_full full).1 rest)
          ∙ ap (λ t. t ++ rest) (send_when_full-concat full)
          ∙ append_assoc cache (header ++ piece) rest
          ∙ ap (λ t. cache ++ t) (append_assoc header piece rest ∙ sym eq),
    )

-- Every payload has a chunk stream, where a chunk holds at least one byte.
pub Chunked-exists :
    (c : ℕ) (h : RtmpHeader)
    → 1 ≤ c
    → (f fmt : ℕ) (payload : List ℕ) → length payload < f
    → (wire : List ℕ) × Chunked c h fmt payload wire
Chunked-exists c h some zero fmt payload lt = absurd (omega arith)
Chunked-exists c h some (suc f) fmt [] lt = ([], done)
Chunked-exists c h some (suc f) fmt (x ∷ xs) lt =
    let rest =
      Chunked-exists c h some f 3 (drop c (x ∷ xs)) (omega (arith, length-drop c (x ∷ xs))) in
    (_, chunk (omega arith) rest.1 refl)

-- With a chunk size of at least 1, a message whose chunk stream is no longer than the cache of 32768
-- bytes is sent: the call ends, stays inside the cache, and the blocks handed to the socket are the
-- chunk stream.
pub do_send_message-Chunked :
    (c : ℕ) (h : RtmpHeader) (payload wire : List ℕ)
    → 1 ≤ c
    → Chunked c h 0 payload wire
    → length wire ≤ 32768
    → Sends (do_send_message c h payload) wire
unfolding do_send_message
do_send_message-Chunked c h payload wire some w fits =
    send_loop-Chunked (suc (length payload)) c h (length payload) 0 payload [] wire some
      (first_fmt (length payload)) (omega arith) (omega arith) (omega arith) w
