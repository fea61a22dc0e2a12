-- ===== src/Amf0/Read.antt =====
-- The readers of net/app_protocol/rtmp/rtmp_stack_amf0.cc. A buffer is the list of the `len` bytes at
-- `data`; a reader returns the offset behind what it read, and the object as it has left it. Nested
-- values are read on fuel.
use librtmp_client.Prelude.{
  ℕ, zero, suc, ◌+◌, ◌-◌, ◌*◌, ◌^◌, Bool, true, false, List, [], ◌∷◌, not, ◌||◌, ltb, leb, ◌==◌,
  if◌then◌else◌, length, take, drop, some, Result, ok, err, fault, out_of_fuel, ◌>>=◌,
}
use librtmp_client.NetIo.{read_int8, read_int16, read_int32, read_int64}
use librtmp_client.Amf0.Value.{
  RtmpAmf0Any, Properties, Elements, string, boolean, number, null, undefined, object, object_eof,
  ecma_array, strict_array, date, no_properties, no_elements, element,
}
use librtmp_client.Amf0.Hashtable.{set}
use librtmp_client.Amf0.Write.{minus_one}

-- An offset and what was read before it.
abbrev pub Read {ℓ} : Type ℓ → Type ℓ
Read A = Result (ℕ × A)

-- `data[0] << 16 | data[1] << 8 | data[2]` is 0x09 when the three bytes are 0, 0 and 9.
unfoldable pub rtmp_amf0_is_object_eof : List ℕ → Bool
rtmp_amf0_is_object_eof (a ∷ b ∷ c ∷ rest) = a * 2 ^ 16 + b * 2 ^ 8 + c == 0x09
rtmp_amf0_is_object_eof _ = false

-- An empty string leaves `value` as it was.
unfoldable pub rtmp_amf0_read_utf8 : List ℕ → List ℕ → Read (List ℕ)
rtmp_amf0_read_utf8 data' value = if ltb (length data') 2 then err 1 else (do
  n ← read_int16 data'
  if n == 0 || leb (2 ^ 15) n
      then ok (2, value)
      else if ltb (length data' - 2) n
      then err 1
      else ok (2 + n, take n (drop 2 data')))

-- Reads the marker, compares it with `m`, and returns -n where they differ.
unfoldable pub read_marker : ℕ → ℕ → List ℕ → Result (Unit {0})
read_marker m n data' = do marker ← read_int8 data'; if marker == m then ok tt else err n

unfoldable pub rtmp_amf0_read_string : List ℕ → List ℕ → Read (List ℕ)
unfolding read_marker rtmp_amf0_read_utf8
rtmp_amf0_read_string data' value = if ltb (length data') 1 then err 1 else (do
  _ ← read_marker 0x02 1 data'
  (n, s) ← rtmp_amf0_read_utf8 (drop 1 data') value
  ok (1 + n, s))

unfoldable pub rtmp_amf0_read_boolean : List ℕ → Read Bool
unfolding read_marker
rtmp_amf0_read_boolean data' =
    if ltb (length data') 2
    then err 1
    else (do _ ← read_marker 0x01 2 data'; val ← read_int8 (drop 1 data'); ok (2, not (val == 0)))

unfoldable pub rtmp_amf0_read_number : List ℕ → Read ℕ
unfolding read_marker
rtmp_amf0_read_number data' =
    if ltb (length data') 9
    then err 1
    else (do _ ← read_marker 0x00 1 data'; temp ← read_int64 (drop 1 data'); ok (9, temp))

unfoldable pub rtmp_amf0_read_null : List ℕ → Result ℕ
unfolding read_marker
rtmp_amf0_read_null data' =
    if ltb (length data') 1 then err 1 else (do _ ← read_marker 0x05 2 data'; ok 1)

unfoldable pub rtmp_amf0_read_undefined : List ℕ → Result ℕ
unfolding read_marker
rtmp_amf0_read_undefined data' =
    if ltb (length data') 1 then err 1 else (do _ ← read_marker 0x06 2 data'; ok 1)

-- RtmpAmf0ObjectEOF::read
unfoldable pub read_object_eof : List ℕ → Result ℕ
unfolding read_marker
read_object_eof data' = if ltb (length data') 3 then err 1 else (do
  temp ← read_int16 data'
  if temp == 0 then (do _ ← read_marker 0x09 2 (drop 2 data'); ok 3) else err 2)

-- RtmpAmf0Date::read
unfoldable pub read_date : List ℕ → Read (ℕ × ℕ)
unfolding read_marker
read_date data' = if ltb (length data') 11 then err 1 else (do
  _ ← read_marker 0x0b 2 data'
  date_value ← read_int64 (drop 1 data')
  time_zone ← read_int16 (drop 9 data')
  ok (11, (date_value, time_zone)))

-- The object that `discovery` makes for a marker.
unfoldable pub blank : ℕ → Result RtmpAmf0Any
blank m =
    if m == 0x02
    then ok (string [])
    else if m == 0x01
    then ok (boolean false)
    else if m == 0x00
    then ok (number 0)
    else if m == 0x05
    then ok null
    else if m == 0x06
    then ok undefined
    else if m == 0x03
    then ok (object no_properties)
    else if m == 0x08
    then ok (ecma_array 0 no_properties)
    else if m == 0x0a
    then ok (strict_array 0 no_elements)
    else if m == 0x0b
    then ok (date 0 0)
    else err 2

unfoldable pub discovery : List ℕ → Result RtmpAmf0Any
unfolding rtmp_amf0_is_object_eof blank
discovery [] = err 1
discovery (m ∷ rest) = if rtmp_amf0_is_object_eof (m ∷ rest) then ok object_eof else blank m

-- `rtmp_amf0_read_any`, over the method `read`. A call that fails leaves `*ppvalue` alone where
-- `discovery` fails, and otherwise pointing to an object that it has deleted.
unfoldable pub read_any_by : (RtmpAmf0Any → List ℕ → Read RtmpAmf0Any) → List ℕ → Read RtmpAmf0Any
read_any_by read data' = do fresh ← minus_one (discovery data'); minus_one (read fresh data')

abbrev pub succeeds {ℓ} : {A : Type ℓ} → Result A → Bool
succeeds (ok a) = true
succeeds _ = false

unfoldable pub points_to_deleted : List ℕ → Bool
points_to_deleted data' = succeeds (discovery data')

-- `if (property_value) delete property_value`, after a call that failed: a second delete.
unfoldable pub delete_again {ℓ} : {A : Type ℓ} → Result A → Bool → Result A
delete_again (ok a) deleted = ok a
delete_again (err n) deleted = if deleted then fault else err n
delete_again fault deleted = fault
delete_again out_of_fuel deleted = out_of_fuel

-- The value of a property of an object.
unfoldable pub read_value_by : (RtmpAmf0Any → List ℕ → Read RtmpAmf0Any) → List ℕ → Read RtmpAmf0Any
read_value_by read data' = delete_again (read_any_by read data') (points_to_deleted data')

unfoldable pub read_entry_by :
    Bool → (RtmpAmf0Any → List ℕ → Read RtmpAmf0Any) → List ℕ → Read RtmpAmf0Any
read_entry_by true read data' = read_value_by read data'
read_entry_by false read data' = read_any_by read data'

unfoldable pub push_back : Elements → RtmpAmf0Any → Elements
push_back no_elements v = element v no_elements
push_back (element w xs) v = element w (push_back xs v)

-- How often `for (i = 0; i < count; i++)` may go round, `count` being an int32_t.
unfoldable pub rounds : ℕ → ℕ
rounds count = if ltb count (2 ^ 31) then count else 0

-- The methods `read` of the classes with entries, over the loop that reads the entries.
unfoldable pub object_read :
    (Properties → List ℕ → Read Properties) → Properties → List ℕ → Read RtmpAmf0Any
object_read loop ps data' =
    let entries = do
      _ ← read_marker 0x03 2 data'
      (n, ps') ← loop ps (drop 1 data')
      ok (1 + n, object ps')
    in if ltb (length data') 1 then ok (1, object ps) else entries

unfoldable pub ecma_array_read :
    (Properties → List ℕ → Read Properties) → Properties → List ℕ → Read RtmpAmf0Any
ecma_array_read loop ps data' =
    let entries = do
      _ ← read_marker 0x08 2 data'
      count ← read_int32 (drop 1 data')
      (n, ps') ← loop ps (drop 5 data')
      ok (5 + n, ecma_array count ps')
    in if ltb (length data') 5 then err 1 else entries

unfoldable pub strict_array_read :
    (ℕ → Elements → List ℕ → Read Elements) → Elements → List ℕ → Read RtmpAmf0Any
strict_array_read loop xs data' =
    let entries = do
      _ ← read_marker 0x0a 2 data'
      count ← read_int32 (drop 1 data')
      (n, xs') ← loop (rounds count) xs (drop 5 data')
      ok (5 + n, strict_array count xs')
    in if ltb (length data') 5 then err 1 else entries

unfoldable mutual
  unfolding object_read ecma_array_read strict_array_read

  -- The virtual method `read`, on the object as it is before the call.
  pub read : ℕ → RtmpAmf0Any → List ℕ → Read RtmpAmf0Any
  read zero v data' = out_of_fuel
  read (suc f) (string s) data' = do (n, s') ← rtmp_amf0_read_string data' s; ok (n, string s')
  read (suc f) (boolean b) data' = do (n, b') ← rtmp_amf0_read_boolean data'; ok (n, boolean b')
  read (suc f) (number d) data' = do (n, d') ← rtmp_amf0_read_number data'; ok (n, number d')
  read (suc f) null data' = do n ← rtmp_amf0_read_null data'; ok (n, null)
  read (suc f) undefined data' = do n ← rtmp_amf0_read_undefined data'; ok (n, undefined)
  read (suc f) (object ps) data' = object_read (λ qs d. read_properties true f qs d) ps data'
  read (suc f) object_eof data' = do n ← read_object_eof data'; ok (n, object_eof)
  read (suc f) (ecma_array c ps) data' =
      ecma_array_read (λ qs d. read_properties false f qs d) ps data'
  read (suc f) (strict_array c xs) data' =
      strict_array_read (λ left ys d. read_elements f left ys d) xs data'
  read (suc f) (date d z) data' = do (n, (d', z')) ← read_date data'; ok (n, date d' z')

  -- `while (offset < len)` of an object and, without the second delete, of an ECMA array; the end
  -- marker breaks the loop.
  pub read_properties : Bool → ℕ → Properties → List ℕ → Read Properties
  read_properties in_object zero ps data' = out_of_fuel
  read_properties in_object (suc f) ps data' =
      let ended = do n ← read_object_eof data'; ok (n, ps)
      in let more = do
        (a, name) ← rtmp_amf0_read_utf8 data' []
        (b, value) ← read_entry_by in_object (λ v d. read f v d) (drop a data')
        (n, ps') ← read_properties in_object f (set name (some value) ps) (drop (a + b) data')
        ok (a + b + n, ps')
        in if length data' == 0
          then ok (0, ps)
          else if rtmp_amf0_is_object_eof data'
          then ended
          else more

  -- The loop of a strict array, with the rounds that are left.
  pub read_elements : ℕ → ℕ → Elements → List ℕ → Read Elements
  read_elements zero left xs data' = out_of_fuel
  read_elements (suc f) left xs data' =
      let more = do
        (a, value) ← read_any_by (λ v d. read f v d) data'
        (n, xs') ← read_elements f (left - 1) (push_back xs value) (drop a data')
        ok (a + n, xs')
      in if left == 0 || length data' == 0 then ok (0, xs) else more

-- One more unit of fuel than there are bytes is enough for the nesting and the entries of those bytes.
unfoldable pub rtmp_amf0_read_any : List ℕ → Read RtmpAmf0Any
rtmp_amf0_read_any data' = read_any_by (λ v d. read (suc (length data')) v d) data'
