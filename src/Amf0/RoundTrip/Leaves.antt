-- ===== src/Amf0/RoundTrip/Leaves.antt =====
-- The readers of rtmp_stack_amf0.cc for values without parts, on what the writers write.
use librtmp_client.Prelude.{
  ℕ, suc, ◌+◌, ◌-◌, ◌/◌, ◌≤◌, ◌<◌, ◌^◌, ◌≡◌, ◌≢◌, refl, Bool, true, false, List, [], ◌∷◌, ◌++◌, ltb,
  ◌==◌, if◌then◌else◌, length, drop, arith, length-append, take-append, append_assoc, le→ltb,
  lt→leb, ok,
}
use librtmp_client.NetIo.{write_int16, write_int64, read_int8, read_int16}
use librtmp_client.NetIo.Laws.{read_int16-write_int16, read_int64-write_int64}
use librtmp_client.Amf0.Value.{size_utf8}
use librtmp_client.Amf0.Encoding.{IsShort, encode_utf8}
use librtmp_client.Amf0.Read.{
  read_marker, rtmp_amf0_is_object_eof, rtmp_amf0_read_utf8, rtmp_amf0_read_string,
  rtmp_amf0_read_number, read_date, discovery, blank, read_object_eof, rtmp_amf0_read_boolean,
  rtmp_amf0_read_null, rtmp_amf0_read_undefined,
}

pub not_eof_head : (m : ℕ) (rest : List ℕ) → 1 ≤ m → rtmp_amf0_is_object_eof (m ∷ rest) ≡ false
unfolding rtmp_amf0_is_object_eof
not_eof_head m [] h = refl
not_eof_head m (a ∷ []) h = refl
not_eof_head m (a ∷ b ∷ rest) h = ground arith

pub discovery_head : (m : ℕ) (rest : List ℕ) → 1 ≤ m → discovery (m ∷ rest) ≡ blank m
unfolding discovery
discovery_head m rest h = rw (not_eof_head m rest h)

read_utf8_step :
    (data' s rest : List ℕ)
    → read_int16 data' ≡ ok (length s)
    → length data' ≡ 2 + length s + length rest
    → drop 2 data' ≡ s ++ rest
    → IsShort s
    → rtmp_amf0_read_utf8 data' [] ≡ ok (size_utf8 s, s)
unfolding rtmp_amf0_read_utf8 size_utf8
read_utf8_step data' [] rest e l d h = rw (le→ltb (length data') 2 (omega (arith, l)), e)
read_utf8_step data' (x ∷ s) rest e l d h =
    rw
      (
        le→ltb (length data') 2 (omega (arith, l)),
        e,
        lt→leb (2 ^ 15) (suc (length s)) h,
        le→ltb (length data' - 2) (suc (length s)) (omega (arith, l)),
        d,
      )
      (ground (arith, take-append s rest))

pub read_utf8-encode_utf8 :
    (s rest : List ℕ)
    → IsShort s
    → rtmp_amf0_read_utf8 (encode_utf8 s ++ rest) [] ≡ ok (size_utf8 s, s)
read_utf8-encode_utf8 s rest h = rw part (
    read_utf8_step (write_int16 (length s) ++ (s ++ rest)) s rest
      (read_int16-write_int16 (length s) (s ++ rest) (omega arith)) size
      (unfold write_int16 in refl) h)
  where
    part : encode_utf8 s ++ rest ≡ write_int16 (length s) ++ (s ++ rest)
    part = unfold encode_utf8 in append_assoc (write_int16 (length s)) s rest

    size : length (write_int16 (length s) ++ (s ++ rest)) ≡ 2 + length s + length rest
    size = unfold write_int16 in omega (arith, length-append s rest)

pub read_string_lem :
    (s rest : List ℕ)
    → IsShort s
    → rtmp_amf0_read_string (2 ∷ encode_utf8 s ++ rest) [] ≡ ok (1 + size_utf8 s, s)
unfolding rtmp_amf0_read_string read_int8
read_string_lem s rest h =
    rw (le→ltb (length (2 ∷ encode_utf8 s ++ rest)) 1 (omega arith), read_utf8-encode_utf8 s rest h)

-- A string that is read over `value`, which an empty one leaves as it is.
abbrev pub or_kept : List ℕ → List ℕ → List ℕ
or_kept [] value = value
or_kept (x ∷ s) value = x ∷ s

read_utf8_over :
    (x : ℕ) (s rest value : List ℕ)
    → IsShort (x ∷ s)
    → rtmp_amf0_read_utf8 (encode_utf8 (x ∷ s) ++ rest) value
      ≡ rtmp_amf0_read_utf8 (encode_utf8 (x ∷ s) ++ rest) []
unfolding rtmp_amf0_read_utf8 encode_utf8
read_utf8_over x s rest value h =
    let counted : (suc (length s) == 0) ≡ false = ground arith in
    rw (
      append_assoc (write_int16 (length (x ∷ s))) (x ∷ s) rest,
      read_int16-write_int16 (length (x ∷ s)) (x ∷ s ++ rest) (omega arith),
      lt→leb (2 ^ 15) (suc (length s)) h,
      counted,
    )

pub read_string_over :
    (s rest value : List ℕ)
    → IsShort s
    → or_kept s value ≡ s
    → rtmp_amf0_read_string (2 ∷ encode_utf8 s ++ rest) value ≡ ok (1 + size_utf8 s, s)
unfolding rtmp_amf0_read_string
read_string_over [] rest value h e = rw e (read_string_lem [] rest h)
read_string_over (x ∷ s) rest value h e =
    rw (read_utf8_over x s rest value h) (read_string_lem (x ∷ s) rest h)

pub read_number_lem :
    (n : ℕ) (rest : List ℕ)
    → n < 2 ^ 64
    → rtmp_amf0_read_number (0 ∷ write_int64 n ++ rest) ≡ ok (9, n)
unfolding rtmp_amf0_read_number read_int8
read_number_lem n rest h = rw (size, read_int64-write_int64 n rest h)
  where
    size : ltb (length (0 ∷ write_int64 n ++ rest)) 9 ≡ false
    size = unfold write_int64 in ground arith

pub not_eof_number :
    (n : ℕ) (rest : List ℕ)
    → n / 2 ^ 48 ≢ 9
    → n < 2 ^ 64
    → rtmp_amf0_is_object_eof (0 ∷ write_int64 n ++ rest) ≡ false
unfolding rtmp_amf0_is_object_eof write_int64
not_eof_number n rest h k = ground (arith, h)

pub read_date_lem :
    (d z : ℕ) (rest : List ℕ)
    → d < 2 ^ 64
    → z < 2 ^ 16
    → read_date (11 ∷ (write_int64 d ++ write_int16 z) ++ rest) ≡ ok (11, (d, z))
unfolding read_date read_int8
read_date_lem d z rest h k = rw (
  append_assoc (write_int64 d) (write_int16 z) rest,
  size,
  read_int64-write_int64 d (write_int16 z ++ rest) h,
  behind,
  read_int16-write_int16 z rest k,
)
  where
    size : ltb (length (11 ∷ write_int64 d ++ (write_int16 z ++ rest))) 11 ≡ false
    size = unfold write_int64 write_int16 in ground arith

    behind : drop 9 (11 ∷ write_int64 d ++ (write_int16 z ++ rest)) ≡ write_int16 z ++ rest
    behind = unfold write_int64 in refl

pub read_marker_lem : (m n : ℕ) (rest : List ℕ) → m < 256 → read_marker m n (m ∷ rest) ≡ ok tt
unfolding read_marker read_int8
read_marker_lem m n rest h = ground arith

pub read_object_eof_lem : (rest : List ℕ) → read_object_eof (0 ∷ 0 ∷ 9 ∷ rest) ≡ ok 3
unfolding read_object_eof read_marker read_int16 read_int8
read_object_eof_lem rest = rw (le→ltb (length (0 ∷ 0 ∷ 9 ∷ rest)) 3 (omega arith))

pub read_boolean_lem :
    (b : Bool) (rest : List ℕ)
    → rtmp_amf0_read_boolean (1 ∷ (if b then 1 else 0) ∷ rest) ≡ ok (2, b)
unfolding rtmp_amf0_read_boolean read_marker read_int8
read_boolean_lem true rest = rw (le→ltb (length (1 ∷ 1 ∷ rest)) 2 (omega arith))
read_boolean_lem false rest = rw (le→ltb (length (1 ∷ 0 ∷ rest)) 2 (omega arith))

pub read_null_lem : (rest : List ℕ) → rtmp_amf0_read_null (5 ∷ rest) ≡ ok 1
unfolding rtmp_amf0_read_null read_marker read_int8
read_null_lem rest = rw (le→ltb (length (5 ∷ rest)) 1 (omega arith))

pub read_undefined_lem : (rest : List ℕ) → rtmp_amf0_read_undefined (6 ∷ rest) ≡ ok 1
unfolding rtmp_amf0_read_undefined read_marker read_int8
read_undefined_lem rest = rw (le→ltb (length (6 ∷ rest)) 1 (omega arith))
