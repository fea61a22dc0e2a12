-- ===== src/NetIo/Tests.antt =====
-- Runs of base/netio.c, and its theorem at an integer.
use librtmp_client.Prelude.{◌<◌, ◌^◌, [], ◌∷◌, ◌++◌, ok, ◌≡◌, refl}
use librtmp_client.NetIo.{
  write_int8, write_int16, write_int32, write_int64, read_int8, read_int16, read_int32, read_int64,
}
use librtmp_client.NetIo.Laws.{read_int-write_int}

write_wire_order : write_int32 0x01020304 ≡ 1 ∷ 2 ∷ 3 ∷ 4 ∷ []
unfolding write_int32
write_wire_order = refl

read_int-write_int_example :
    (700 < 2 ^ 8 → read_int8 (write_int8 700 ++ 9 ∷ []) ≡ ok 700)
    × (700 < 2 ^ 16 → read_int16 (write_int16 700 ++ 9 ∷ []) ≡ ok 700)
    × (700 < 2 ^ 32 → read_int32 (write_int32 700 ++ 9 ∷ []) ≡ ok 700)
    × (700 < 2 ^ 64 → read_int64 (write_int64 700 ++ 9 ∷ []) ≡ ok 700)
read_int-write_int_example = read_int-write_int 700 (9 ∷ [])
