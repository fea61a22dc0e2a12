-- ===== src/Rtmp/Header/Decoding.antt =====
-- What RtmpHeader::decode makes of any bytes, and of the bytes that RtmpHeader::encode writes.
use librtmp_client.Prelude.{
  ℕ, zero, suc, All, Returns-map, ◌+◌, ◌*◌, ◌%◌, ◌^◌, ◌≤◌, ◌<◌, ◌≡◌, refl, sym, ap, ◌∙◌, subst,
  if-true, if-false, le→ltb, List, [], ◌∷◌, ◌++◌, ltb, ◌==◌, length, drop, arith, bit_and, bit_or,
  true, ok, ◌>>=◌, Returns, gives, refuses, Returns->>=, Returns-if, length-drop, lt→leb, lt→ltb,
}
use librtmp_client.Prelude.Bits.{low_two_bits_high, low_six_bits, set_0x00}
use librtmp_client.NetIo.Laws.{IsByte}
use librtmp_client.Rtmp.Header.{
  RtmpHeader, init, byte, base_header, timestamp_bytes, length_and_type, stream_id_bytes,
  extended_bytes, encode_fmt0_chunk_header, encode, two_byte_form, three_byte_form,
  decode_base_header, decode_fmt0, decode_msg_header, decode, add_three, add_four,
  rtmp_extended_timestamp,
}

abbrev BaseHeader : List ℕ → ℕ × ℕ × ℕ → Type 0
BaseHeader d (n, fmt, cs_id) = (1 ≤ n) × (n ≤ 3) × (n ≤ length d) × (fmt ≡ 0)

two_byte_form-Returns :
    (v fmt : ℕ) (d : List ℕ) → fmt ≡ 0 → Returns (BaseHeader (v ∷ d)) (two_byte_form fmt d)
unfolding two_byte_form
two_byte_form-Returns v fmt [] h = refuses 1
two_byte_form-Returns v fmt (a ∷ d) h = gives (omega arith, omega arith, omega arith, h)

three_byte_form-Returns :
    (v fmt : ℕ) (d : List ℕ) → fmt ≡ 0 → Returns (BaseHeader (v ∷ d)) (three_byte_form fmt d)
unfolding three_byte_form
three_byte_form-Returns v fmt [] h = refuses 1
three_byte_form-Returns v fmt (a ∷ []) h = refuses 1
three_byte_form-Returns v fmt (a ∷ b ∷ d) h = gives (omega arith, omega arith, omega arith, h)

BaseHeader-Returns :
    (v : ℕ) (d : List ℕ) → IsByte v → Returns (BaseHeader (v ∷ d)) (decode_base_header (v ∷ d))
unfolding decode_base_header
BaseHeader-Returns v d h =
    let none_set = low_two_bits_high v h in
    Returns-if (ltb 1 (bit_and v 0x3f))
      (λ _. gives (omega arith, omega arith, omega arith, none_set))
      λ _.
        Returns-if (bit_and v 0x3f == 0) (λ _. two_byte_form-Returns v _ d none_set)
          (λ _. three_byte_form-Returns v _ d none_set)

-- Three bytes are a length below 2 ^ 24.
abbrev ReadsLength : RtmpHeader → List ℕ → RtmpHeader → Type 0
ReadsLength h d h' = All IsByte d → h.msg_length ≡ 0 → h'.msg_length < 2 ^ 24

abbrev MessageHeader : RtmpHeader → List ℕ → ℕ × RtmpHeader → Type 0
MessageHeader h d (n, h') = (n ≡ 11) × (11 ≤ length d) × (h'.chunk_type ≡ 0) × ReadsLength h d h'

decode_fmt0-Returns :
    (h : RtmpHeader) (d : List ℕ) → h.chunk_type ≡ 0 → Returns (MessageHeader h d) (decode_fmt0 h d)
unfolding decode_fmt0
decode_fmt0-Returns h [] t = refuses 1
decode_fmt0-Returns h (a ∷ []) t = refuses 1
decode_fmt0-Returns h (a ∷ b ∷ []) t = refuses 1
decode_fmt0-Returns h (a ∷ b ∷ c ∷ []) t = refuses 1
decode_fmt0-Returns h (a ∷ b ∷ c ∷ e ∷ []) t = refuses 1
decode_fmt0-Returns h (a ∷ b ∷ c ∷ e ∷ f ∷ []) t = refuses 1
decode_fmt0-Returns h (a ∷ b ∷ c ∷ e ∷ f ∷ g ∷ []) t = refuses 1
decode_fmt0-Returns h (a ∷ b ∷ c ∷ e ∷ f ∷ g ∷ i ∷ []) t = refuses 1
decode_fmt0-Returns h (a ∷ b ∷ c ∷ e ∷ f ∷ g ∷ i ∷ j ∷ []) t = refuses 1
decode_fmt0-Returns h (a ∷ b ∷ c ∷ e ∷ f ∷ g ∷ i ∷ j ∷ k ∷ []) t = refuses 1
decode_fmt0-Returns h (a ∷ b ∷ c ∷ e ∷ f ∷ g ∷ i ∷ j ∷ k ∷ l ∷ []) t = refuses 1
decode_fmt0-Returns h (a ∷ b ∷ c ∷ e ∷ f ∷ g ∷ i ∷ j ∷ k ∷ l ∷ m ∷ d) t =
    gives (refl, omega arith, t, λ bytes zero_length. omega (arith, bytes, zero_length))

msg_header-Returns :
    (h : RtmpHeader) (d : List ℕ)
    → h.chunk_type ≡ 0
    → Returns (MessageHeader h d) (decode_msg_header h d)
unfolding decode_msg_header
msg_header-Returns h d t =
    subst (Returns (MessageHeader h d))
      (sym (if-true _ _ (let e : (h.chunk_type == 0) ≡ true = ground arith in e)))
      (decode_fmt0-Returns h d t)

All-drop : (n : ℕ) (d : List ℕ) → All IsByte d → All IsByte (drop n d)
All-drop zero d h = h
All-drop (suc n) [] h = h
All-drop (suc n) (x ∷ d) h = All-drop n d h.1

abbrev pub Decoded : RtmpHeader → List ℕ → ℕ × RtmpHeader → Type 0
Decoded h d (n, h') =
    ((12 ≤ n) × (n ≤ 14) × (n ≤ length d) × (h'.chunk_type ≡ 0)) × ReadsLength h d h'

pub decode-Decoded :
    (h : RtmpHeader) (v : ℕ) (d : List ℕ)
    → IsByte v
    → Returns (Decoded h (v ∷ d)) (decode h (v ∷ d))
unfolding decode
decode-Decoded h v d hv = Returns->>= (BaseHeader-Returns v d hv) λ (n, fmt, cs_id) w.
    Returns->>=
      (msg_header-Returns (record h { chunk_type = fmt; chunk_stream_id = cs_id }) (drop n (v ∷ d))
        w.3)
      λ (m, h') u. gives (
        (
          omega (arith, u.0, w.0),
          omega (arith, u.0, w.1),
          omega (arith, u.0, u.1, w.2, length-drop n (v ∷ d)),
          u.2,
        ),
        (λ bytes. u.3 (All-drop n (v ∷ d) bytes)),
      )

-- On any non-empty bytes RtmpHeader::decode stays inside the buffer, and what it reports is always a
-- chunk of type 0: at least 12 bytes are consumed, whatever the two top bits of the first byte say.
pub decode-Returns :
    (h : RtmpHeader) (v : ℕ) (d : List ℕ)
    → IsByte v
    → Returns
        (λ (n, h'). (12 ≤ n) × (n ≤ 14) × (n ≤ length (v ∷ d)) × (h'.chunk_type ≡ 0))
        (decode h (v ∷ d))
decode-Returns h v d hv = Returns-map (decode-Decoded h v d hv) λ _ w. w.0

-- The stream id that a reader of the highest byte first finds in four bytes that were written lowest
-- byte first.
abbrev pub swapped : ℕ → ℕ
swapped n = byte n 0 * 2 ^ 24 + byte n 1 * 2 ^ 16 + byte n 2 * 2 ^ 8 + byte n 3

-- The fields fit the wire: a time that needs no extended timestamp, an id of the one-byte form, a
-- length of three bytes.
abbrev pub IsShort : RtmpHeader → Type 0
IsShort h =
    (h.timestamp < rtmp_extended_timestamp)
    × (2 ≤ h.chunk_stream_id)
    × (h.chunk_stream_id < 64)
    × (h.msg_length < 2 ^ 24)
    × (h.msg_type_id < 256)
    × (h.msg_stream_id < 2 ^ 32)

base_header_short :
    (h : RtmpHeader) → h.chunk_stream_id < 64 → base_header 0x00 h ≡ h.chunk_stream_id
unfolding base_header
base_header_short h lt =
    ap (bit_or 0x00) (low_six_bits (h.chunk_stream_id % 256) (omega arith))
    ∙ set_0x00 (h.chunk_stream_id % 256 % 64) (omega arith)
    ∙ (let e : h.chunk_stream_id % 256 % 64 ≡ h.chunk_stream_id = omega arith in e)

decode_base_header-short :
    (v : ℕ) (rest : List ℕ) → 2 ≤ v → v < 64 → decode_base_header (v ∷ rest) ≡ ok (1, 0, v)
unfolding decode_base_header
decode_base_header-short v rest le lt =
    rw
      (
        low_six_bits v (omega arith),
        low_two_bits_high v (omega arith),
        (let e : v % 64 ≡ v = omega arith in e),
        lt→ltb 1 v le,
      )
      refl

decode_base_header-encoded :
    (h : RtmpHeader) (rest : List ℕ)
    → 2 ≤ h.chunk_stream_id
    → h.chunk_stream_id < 64
    → decode_base_header (base_header 0x00 h ∷ rest) ≡ ok (1, 0, h.chunk_stream_id)
decode_base_header-encoded h rest le lt =
    rw (base_header_short h lt) (decode_base_header-short h.chunk_stream_id rest le lt)

-- The twelve bytes of a type 0 header.
abbrev twelve : RtmpHeader → List ℕ
twelve h =
    base_header 0x00 h
    ∷ byte h.timestamp 2
    ∷ byte h.timestamp 1
    ∷ byte h.timestamp 0
    ∷ byte h.msg_length 2
    ∷ byte h.msg_length 1
    ∷ byte h.msg_length 0
    ∷ h.msg_type_id
    ∷ byte h.msg_stream_id 0
    ∷ byte h.msg_stream_id 1
    ∷ byte h.msg_stream_id 2
    ∷ byte h.msg_stream_id 3
    ∷ []

encode-twelve :
    (h : RtmpHeader) (size : ℕ)
    → h.chunk_type ≡ 0
    → h.timestamp < rtmp_extended_timestamp
    → 16 ≤ size
    → encode h size ≡ ok (twelve h)
unfolding encode encode_fmt0_chunk_header timestamp_bytes length_and_type stream_id_bytes
    extended_bytes
encode-twelve h size t short room =
    if-true _ _ (let e : (h.chunk_type == 0) ≡ true = ground arith in e)
    ∙ if-false _ _ (le→ltb size 16 room)
    ∙ rw (lt→leb rtmp_extended_timestamp h.timestamp short) refl

abbrev pub type_0 : ℕ → ℕ → ℕ → ℕ → ℕ → RtmpHeader
type_0 cs t l m s = record {
  chunk_type = 0;
  chunk_stream_id = cs;
  timestamp = t;
  msg_length = l;
  msg_type_id = m;
  msg_stream_id = s;
}

add_three-bytes : (n : ℕ) → n < 2 ^ 24 → add_three 0 (byte n 2) (byte n 1) (byte n 0) ≡ n
add_three-bytes n h = omega arith

add_four-bytes : (n : ℕ) → add_four 0 (byte n 0) (byte n 1) (byte n 2) (byte n 3) ≡ swapped n
add_four-bytes n = omega arith

type_0_eq :
    (cs : ℕ) {t t' l l' m s s' : ℕ}
    → t ≡ t'
    → l ≡ l'
    → s ≡ s'
    → type_0 cs t l m s ≡ type_0 cs t' l' m s'
type_0_eq cs ht hl hs = rw (ht, hl, hs) refl

decode-twelve :
    (h : RtmpHeader) (rest : List ℕ)
    → h.chunk_type ≡ 0
    → IsShort h
    → decode init (twelve h ++ rest) ≡ ok (12, record h { msg_stream_id = swapped h.msg_stream_id })
unfolding decode decode_msg_header decode_fmt0 init
decode-twelve h rest t short = rw (decode_base_header-encoded h _ short.1 short.2) (
    ap (λ r. ok (12, r))
      (type_0_eq h.chunk_stream_id (add_three-bytes h.timestamp (omega (arith, short.0)))
          (add_three-bytes h.msg_length short.3) (add_four-bytes h.msg_stream_id)
        ∙ ap (λ (n : ℕ). record h { chunk_type = n; msg_stream_id = swapped h.msg_stream_id })
            (sym t)))

-- A type 0 header, encoded and then decoded into a new header, whatever follows: twelve bytes are
-- taken and every field comes back, but for the stream id, whose four bytes come back in reverse.
pub decode-encode :
    (h : RtmpHeader) (size : ℕ) (rest : List ℕ)
    → h.chunk_type ≡ 0
    → IsShort h
    → 16 ≤ size
    → (encode h size >>= λ bytes. decode init (bytes ++ rest))
      ≡ ok (12, record h { msg_stream_id = swapped h.msg_stream_id })
decode-encode h size rest t short room =
    ap (λ r. r >>= λ bytes. decode init (bytes ++ rest)) (encode-twelve h size t short.0 room)
    ∙ decode-twelve h rest t short
