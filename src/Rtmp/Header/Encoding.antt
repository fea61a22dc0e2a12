-- ===== src/Rtmp/Header/Encoding.antt =====
-- The bytes that RtmpHeader::encode writes, against the chunk header of the protocol: a base header, a
-- message header of 11, 7, 3 or 0 bytes, each a prefix of the longest, and the extended timestamp.
use librtmp_client.Prelude.{
  ℕ, ◌+◌, ◌*◌, ◌/◌, ◌%◌, ◌^◌, ◌≤◌, ◌<◌, ◌≡◌, refl, ap, ◌∙◌, List, [], ◌∷◌, ◌++◌, ltb, leb, ◌==◌,
  if◌then◌else◌, length, take, arith, bit_or, Bool, true, false, Bool-cases, inl, inr, min, ok, err,
  leb→le, compare_cases,
}
use librtmp_client.Prelude.Bits.{low_six_bits, set_0x00, set_0x40, set_0x80, set_0xc0}
use librtmp_client.Rtmp.Header.{
  RtmpHeader, byte, base_header, timestamp_bytes, length_and_type, stream_id_bytes, extended_bytes,
  encode_fmt0_chunk_header, encode_fmt1_chunk_header, encode_fmt2_chunk_header,
  encode_fmt3_chunk_header, encode, rtmp_extended_timestamp,
}

abbrev pub by_type : ℕ → ℕ → ℕ → ℕ → ℕ → ℕ
by_type t a b c d = if t == 0 then a else if t == 1 then b else if t == 2 then c else d

abbrev pub three_bytes : ℕ → List ℕ
three_bytes n = n / 2 ^ 16 % 256 ∷ n / 2 ^ 8 % 256 ∷ n % 256 ∷ []

abbrev pub four_bytes : ℕ → List ℕ
four_bytes n = n / 2 ^ 24 % 256 ∷ three_bytes n

abbrev pub is_extended : RtmpHeader → Bool
is_extended h = leb rtmp_extended_timestamp h.timestamp

-- The stream id is the one field with its lowest byte first.
unfoldable pub message_header : RtmpHeader → List ℕ
message_header h =
    three_bytes (min h.timestamp rtmp_extended_timestamp)
    ++ (three_bytes h.msg_length
        ++ (h.msg_type_id
            ∷ h.msg_stream_id % 256
            ∷ h.msg_stream_id / 2 ^ 8 % 256
            ∷ h.msg_stream_id / 2 ^ 16 % 256
            ∷ h.msg_stream_id / 2 ^ 24 % 256
            ∷ []))

unfoldable pub chunk_header : RtmpHeader → List ℕ
unfolding message_header
chunk_header h =
    (64 * h.chunk_type + h.chunk_stream_id % 64)
    ∷ (take (by_type h.chunk_type 11 7 3 0) (message_header h)
        ++ (if is_extended h then four_bytes h.timestamp else []))

base_header-or :
    (fmt n : ℕ) (h : RtmpHeader)
    → ((x : ℕ) → x < 64 → bit_or fmt x ≡ n + x)
    → base_header fmt h ≡ n + h.chunk_stream_id % 64
unfolding base_header
base_header-or fmt n h set =
    let e : h.chunk_stream_id % 256 % 64 ≡ h.chunk_stream_id % 64 = omega arith in
    ap (bit_or fmt) (low_six_bits (h.chunk_stream_id % 256) (omega arith) ∙ e)
    ∙ set (h.chunk_stream_id % 64) (omega arith)

byte_zero : (n : ℕ) → byte n 0 ≡ n % 256
byte_zero n = omega arith

timestamp_bytes-min :
    (h : RtmpHeader) → timestamp_bytes h ≡ three_bytes (min h.timestamp rtmp_extended_timestamp)
unfolding timestamp_bytes
timestamp_bytes-min h = elim (Bool-cases (is_extended h)) [
  | inl e ↦
      let m : min h.timestamp rtmp_extended_timestamp ≡ rtmp_extended_timestamp =
        omega (arith, leb→le rtmp_extended_timestamp h.timestamp e) in
      rw (e, m) refl
  | inr e ↦
      let m : min h.timestamp rtmp_extended_timestamp ≡ h.timestamp = ground arith in
      rw (e, m, byte_zero h.timestamp) refl
]

extended_bytes-four :
    (h : RtmpHeader) → extended_bytes h ≡ (if is_extended h then four_bytes h.timestamp else [])
unfolding extended_bytes
extended_bytes-four h = rw (byte_zero h.timestamp) refl

extended_length :
    (b : Bool) (n : ℕ) → length (if b then four_bytes n else []) ≡ (if b then 4 else 0)
extended_length true n = refl
extended_length false n = refl

abbrev chunk_header_size : RtmpHeader → ℕ
chunk_header_size h = by_type h.chunk_type 12 8 4 1 + (if is_extended h then 4 else 0)

-- A header of type `t` is written where there is the room.
abbrev Encodes : ℕ → Type 0
Encodes t =
    (h : RtmpHeader) (size : ℕ)
    → h.chunk_type ≡ t
    → (encode h size
        ≡ (if ltb size (by_type h.chunk_type 16 12 8 5) then err 1 else ok (chunk_header h)))
      × (length (chunk_header h) ≡ chunk_header_size h)

Encodes-0 : Encodes 0
unfolding chunk_header message_header encode encode_fmt0_chunk_header length_and_type
    stream_id_bytes
Encodes-0 h size t = (
  rw
      (
        t,
        base_header-or 0 0 h (λ x lt. set_0x00 x lt ∙ (let e : x ≡ 0 + x = omega arith in e)),
        timestamp_bytes-min h,
        extended_bytes-four h,
        byte_zero h.msg_length,
        byte_zero h.msg_stream_id,
      )
      refl,
  rw t (omega (arith, extended_length (is_extended h) h.timestamp)),
)

Encodes-1 : Encodes 1
unfolding chunk_header message_header encode encode_fmt1_chunk_header length_and_type
    stream_id_bytes
Encodes-1 h size t = (
  rw
      (
        t,
        base_header-or 0x40 64 h set_0x40,
        timestamp_bytes-min h,
        extended_bytes-four h,
        byte_zero h.msg_length,
      )
      refl,
  rw t (omega (arith, extended_length (is_extended h) h.timestamp)),
)

Encodes-2 : Encodes 2
unfolding chunk_header message_header encode encode_fmt2_chunk_header
Encodes-2 h size t = (
  rw (t, base_header-or 0x80 128 h set_0x80, timestamp_bytes-min h, extended_bytes-four h) refl,
  rw t (omega (arith, extended_length (is_extended h) h.timestamp)),
)

Encodes-3 : Encodes 3
unfolding chunk_header message_header encode encode_fmt3_chunk_header
Encodes-3 h size t = (
  rw (t, base_header-or 0xc0 192 h set_0xc0, extended_bytes-four h) refl,
  rw t (omega (arith, extended_length (is_extended h) h.timestamp)),
)

-- `encode` refuses, with -1, a buffer of less than 16, 12, 8 or 5 bytes, by the type of the chunk, and
-- otherwise writes the chunk header, which is no longer than that: 12, 8, 4 or 1 bytes, and four more
-- for a time from 0xffffff on.
pub encode-chunk_header :
    (h : RtmpHeader) (size : ℕ)
    → h.chunk_type ≤ 3
    → (encode h size
        ≡ (if ltb size (by_type h.chunk_type 16 12 8 5) then err 1 else ok (chunk_header h)))
      × (length (chunk_header h) ≡ by_type h.chunk_type 12 8 4 1 + (if is_extended h then 4 else 0))
encode-chunk_header h size le = elim (compare_cases h.chunk_type 1) [
  | inl e ↦ Encodes-0 h size (omega arith)
  | inr (inl e) ↦ Encodes-1 h size e
  | inr (inr e) ↦ elim (compare_cases h.chunk_type 2) [
    | inl f ↦ absurd (omega arith)
    | inr (inl f) ↦ Encodes-2 h size f
    | inr (inr f) ↦ Encodes-3 h size (omega arith)
  ]
]
