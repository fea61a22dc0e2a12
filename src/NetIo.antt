-- ===== src/NetIo.antt =====
-- base/netio.c: integers in network byte order. A buffer is the list of its bytes from the pointer on.
pub mod Laws
mod Tests
use librtmp_client.Prelude.{ℕ, zero, suc, ◌+◌, ◌*◌, ◌/◌, ◌%◌, List, [], ◌∷◌, Result, ok, fault}

-- The object representation of an unsigned integer of `k` bytes on a little-endian host, and the
-- integer that it stands for. A signed integer is its bit pattern.
unfoldable pub memory : ℕ → ℕ → List ℕ
memory zero d = []
memory (suc k) d = d % 256 ∷ memory k (d / 256)

unfoldable pub value : List ℕ → ℕ
value [] = 0
value (b ∷ bs) = b + 256 * value bs

-- The four copying routines, in the branch for a little-endian host: the destination's bytes.
unfoldable pub rawio_netdata_8 : List ℕ → List ℕ
rawio_netdata_8 (a ∷ rest) = a ∷ []
rawio_netdata_8 _ = []

unfoldable pub rawio_netdata_16 : List ℕ → List ℕ
rawio_netdata_16 (a ∷ b ∷ rest) = b ∷ a ∷ []
rawio_netdata_16 _ = []

unfoldable pub rawio_netdata_32 : List ℕ → List ℕ
rawio_netdata_32 (a ∷ b ∷ c ∷ d ∷ rest) = d ∷ c ∷ b ∷ a ∷ []
rawio_netdata_32 _ = []

unfoldable pub rawio_netdata_64 : List ℕ → List ℕ
rawio_netdata_64 (a ∷ b ∷ c ∷ d ∷ e ∷ f ∷ g ∷ h ∷ rest) = h ∷ g ∷ f ∷ e ∷ d ∷ c ∷ b ∷ a ∷ []
rawio_netdata_64 _ = []

-- The bytes that a write puts at `buffer`. The signed and the unsigned writes are the same copy.
unfoldable pub write_int8 : ℕ → List ℕ
unfolding rawio_netdata_8 memory
write_int8 d = rawio_netdata_8 (memory 1 d)

unfoldable pub write_int16 : ℕ → List ℕ
unfolding rawio_netdata_16 memory
write_int16 d = rawio_netdata_16 (memory 2 d)

unfoldable pub write_int32 : ℕ → List ℕ
unfolding rawio_netdata_32 memory
write_int32 d = rawio_netdata_32 (memory 4 d)

unfoldable pub write_int64 : ℕ → List ℕ
unfolding rawio_netdata_64 memory
write_int64 d = rawio_netdata_64 (memory 8 d)

-- The integer that a read stores, as its bit pattern; a buffer that is too short is read past its
-- end.
unfoldable pub read_int8 : List ℕ → Result ℕ
unfolding rawio_netdata_8 value
read_int8 (a ∷ rest) = ok (value (rawio_netdata_8 (a ∷ rest)))
read_int8 _ = fault

unfoldable pub read_int16 : List ℕ → Result ℕ
unfolding rawio_netdata_16 value
read_int16 (a ∷ b ∷ rest) = ok (value (rawio_netdata_16 (a ∷ b ∷ rest)))
read_int16 _ = fault

unfoldable pub read_int32 : List ℕ → Result ℕ
unfolding rawio_netdata_32 value
read_int32 (a ∷ b ∷ c ∷ d ∷ rest) = ok (value (rawio_netdata_32 (a ∷ b ∷ c ∷ d ∷ rest)))
read_int32 _ = fault

unfoldable pub read_int64 : List ℕ → Result ℕ
unfolding rawio_netdata_64 value
read_int64 (a ∷ b ∷ c ∷ d ∷ e ∷ f ∷ g ∷ h ∷ rest) =
    ok (value (rawio_netdata_64 (a ∷ b ∷ c ∷ d ∷ e ∷ f ∷ g ∷ h ∷ rest)))
read_int64 _ = fault
