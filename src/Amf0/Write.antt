-- ===== src/Amf0/Write.antt =====
-- The writers of net/app_protocol/rtmp/rtmp_stack_amf0.cc. The argument `len` is the room at `data`;
-- the result is the bytes written, so that their number is the returned offset. What an unsuccessful
-- call has left in the buffer is not modelled.
use librtmp_client.Prelude.{
  ℕ, ◌+◌, ◌-◌, ◌%◌, ◌^◌, Bool, List, [], ◌∷◌, ◌++◌, ltb, leb, if◌then◌else◌, length, take, Result,
  ok, err, fault, out_of_fuel, ◌>>=◌,
}
use librtmp_client.NetIo.{write_int8, write_int16, write_int32, write_int64}
use librtmp_client.Amf0.Value.{
  RtmpAmf0Any, Properties, Elements, string, boolean, number, null, undefined, object, object_eof,
  ecma_array, strict_array, date, no_properties, property, no_elements, element,
}

-- `valuelen` is an int16_t: from 2 ^ 15 on its pattern stands for `valuelen - 2 ^ 16`, and then only
-- the length is written, without a check that there is room for it.
unfoldable pub rtmp_amf0_write_utf8 : ℕ → List ℕ → Result (List ℕ)
rtmp_amf0_write_utf8 len value =
    let valuelen = length value % 2 ^ 16 in
    if leb (2 ^ 15) valuelen
    then if ltb (len + 2 ^ 16) (2 + valuelen)
      then err 1
      else if ltb len 2
      then fault
      else ok (write_int16 valuelen)
    else if ltb len (2 + valuelen)
    then err 1
    else ok (write_int16 valuelen ++ take valuelen value)

unfoldable pub rtmp_amf0_write_string : ℕ → List ℕ → Result (List ℕ)
unfolding rtmp_amf0_write_utf8
rtmp_amf0_write_string len value =
    if ltb len 1
    then err 1
    else (do written ← rtmp_amf0_write_utf8 (len - 1) value; ok (0x02 ∷ written))

unfoldable pub rtmp_amf0_write_boolean : ℕ → Bool → Result (List ℕ)
rtmp_amf0_write_boolean len value =
    if ltb len 2
    then err 1
    else ok (write_int8 0x01 ++ (if value then write_int8 0x01 else write_int8 0x00))

unfoldable pub rtmp_amf0_write_number : ℕ → ℕ → Result (List ℕ)
rtmp_amf0_write_number len value =
    if ltb len 9 then err 1 else ok (write_int8 0x00 ++ write_int64 value)

unfoldable pub rtmp_amf0_write_null : ℕ → Result (List ℕ)
rtmp_amf0_write_null len = if ltb len 1 then err 1 else ok (write_int8 0x05)

unfoldable pub rtmp_amf0_write_undefined : ℕ → Result (List ℕ)
rtmp_amf0_write_undefined len = if ltb len 1 then err 1 else ok (0x06 ∷ [])

-- RtmpAmf0ObjectEOF::write and RtmpAmf0Date::write.
unfoldable pub write_object_eof : ℕ → Result (List ℕ)
write_object_eof len = if ltb len 3 then err 1 else ok (0x00 ∷ 0x00 ∷ 0x09 ∷ [])

unfoldable pub write_date : ℕ → ℕ → ℕ → Result (List ℕ)
write_date len date_value time_zone =
    if ltb len 11
    then err 1
    else ok (write_int8 0x0b ++ (write_int64 date_value ++ write_int16 time_zone))

-- `if (ret < 0) return -1;`
abbrev pub minus_one {ℓ} : {A : Type ℓ} → Result A → Result A
minus_one (ok a) = ok a
minus_one (err n) = err 1
minus_one fault = fault
minus_one out_of_fuel = out_of_fuel

-- The methods `write` of the classes with entries, over the loop that writes the entries.
unfoldable pub object_write : (ℕ → Result (List ℕ)) → ℕ → Result (List ℕ)
object_write loop len =
    if ltb len 1 then err 1 else (do written ← loop (len - 1); ok (write_int8 0x03 ++ written))

unfoldable pub ecma_array_write : (ℕ → Result (List ℕ)) → ℕ → ℕ → Result (List ℕ)
ecma_array_write loop count len =
    if ltb len 5
    then err 1
    else (do written ← loop (len - 5); ok (write_int8 0x08 ++ (write_int32 count ++ written)))

unfoldable pub strict_array_write : (ℕ → Result (List ℕ)) → ℕ → ℕ → Result (List ℕ)
strict_array_write loop count len =
    if ltb len 5
    then err 1
    else (do written ← loop (len - 5); ok (write_int8 0x0a ++ (write_int32 count ++ written)))

unfoldable mutual
  unfolding rtmp_amf0_write_utf8 rtmp_amf0_write_string rtmp_amf0_write_boolean
      rtmp_amf0_write_number rtmp_amf0_write_null rtmp_amf0_write_undefined write_object_eof
      write_date object_write ecma_array_write strict_array_write

  -- The virtual method `write`.
  pub write : ℕ → RtmpAmf0Any → Result (List ℕ)
  write len (string s) = rtmp_amf0_write_string len s
  write len (boolean b) = rtmp_amf0_write_boolean len b
  write len (number n) = rtmp_amf0_write_number len n
  write len null = rtmp_amf0_write_null len
  write len undefined = rtmp_amf0_write_undefined len
  write len (object ps) = object_write (λ room. write_properties room ps) len
  write len object_eof = write_object_eof len
  write len (ecma_array n ps) = ecma_array_write (λ room. write_properties room ps) n len
  write len (strict_array n xs) = strict_array_write (λ room. write_elements room xs) n len
  write len (date d z) = write_date len d z

  -- The loop over the entries of an object or an ECMA array, and the end marker behind it.
  pub write_properties : ℕ → Properties → Result (List ℕ)
  write_properties len no_properties = write_object_eof len
  write_properties len (property k v ps) = do
    name ← rtmp_amf0_write_utf8 len k
    value ← write (len - length name) v
    rest ← write_properties (len - length name - length value) ps
    ok (name ++ (value ++ rest))

  pub write_elements : ℕ → Elements → Result (List ℕ)
  write_elements len no_elements = ok []
  write_elements len (element v xs) = do
    value ← minus_one (write len v)
    rest ← write_elements (len - length value) xs
    ok (value ++ rest)
