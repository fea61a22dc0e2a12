-- ===== src/NetIo/Laws.antt =====
-- Reading back what base/netio.c wrote, and the widths.
use librtmp_client.Prelude.{ℕ, ◌/◌, ◌%◌, ◌^◌, ◌<◌, List, [], ◌∷◌, ◌++◌, ok, ◌≡◌, ap, arith}
use librtmp_client.NetIo.{
  write_int8, write_int16, write_int32, write_int64, read_int8, read_int16, read_int32, read_int64,
}

abbrev pub IsByte : ℕ → Type 0
IsByte b = b < 256

-- An integer written in network order and read back, whatever follows it in the buffer.
pub read_int8-write_int8 :
    (d : ℕ) (rest : List ℕ) → d < 256 → read_int8 (write_int8 d ++ rest) ≡ ok d
unfolding read_int8 write_int8
read_int8-write_int8 d rest h = ap ok (omega arith)

pub read_int16-write_int16 :
    (d : ℕ) (rest : List ℕ) → d < 2 ^ 16 → read_int16 (write_int16 d ++ rest) ≡ ok d
unfolding read_int16 write_int16
read_int16-write_int16 d rest h = ap ok (omega arith)

pub read_int32-write_int32 :
    (d : ℕ) (rest : List ℕ) → d < 2 ^ 32 → read_int32 (write_int32 d ++ rest) ≡ ok d
unfolding read_int32 write_int32
read_int32-write_int32 d rest h = ap ok (omega arith)

pub read_int64-write_int64 :
    (d : ℕ) (rest : List ℕ) → d < 2 ^ 64 → read_int64 (write_int64 d ++ rest) ≡ ok d
unfolding read_int64 write_int64
read_int64-write_int64 d rest h = ap ok (omega arith)

-- The first byte on the wire is the most significant one.
pub write_int16_big_endian : (d : ℕ) → d < 2 ^ 16 → write_int16 d ≡ d / 256 ∷ d % 256 ∷ []
unfolding write_int16
write_int16_big_endian d h = ap (λ (t : ℕ). t ∷ d % 256 ∷ []) (omega arith)

-- Reading back what was written gives the same integer, whatever follows it, at every width.
pub read_int-write_int :
    (d : ℕ) (rest : List ℕ)
    → (d < 2 ^ 8 → read_int8 (write_int8 d ++ rest) ≡ ok d)
      × (d < 2 ^ 16 → read_int16 (write_int16 d ++ rest) ≡ ok d)
      × (d < 2 ^ 32 → read_int32 (write_int32 d ++ rest) ≡ ok d)
      × (d < 2 ^ 64 → read_int64 (write_int64 d ++ rest) ≡ ok d)
read_int-write_int d rest = (
  read_int8-write_int8 d rest,
  read_int16-write_int16 d rest,
  read_int32-write_int32 d rest,
  read_int64-write_int64 d rest,
)
