-- ===== src/Amf0/Tests.antt =====
-- Runs of rtmp_stack_amf0.cc, and its theorems at concrete values.
use librtmp_client.Prelude.{
  ReturnsUnless, suc, length, err, fault, ℕ, ◌+◌, ◌*◌, ◌^◌, ◌≡◌, refl, true, List, [], ◌∷◌, ◌++◌,
  length, arith, ok, err, some, bytes_eq, if◌then◌else◌, leb, replicate, length-replicate,
}
use librtmp_client.NetIo.{write_int8, write_int16, write_int32}
use librtmp_client.Amf0.Value.{
  RtmpAmf0Any, Properties, string, boolean, number, null, object, object_eof, strict_array,
  no_properties, property, no_elements, element, total_size,
}
use librtmp_client.Amf0.Hashtable.{set, get_property}
use librtmp_client.Amf0.Hashtable.Laws.{IsDistinct, get_property-set}
use librtmp_client.Amf0.Write.{write}
use librtmp_client.Amf0.Encoding.{encode, write-encode, encode_utf8}
use librtmp_client.Amf0.Read.{read_any_by, rtmp_amf0_read_utf8, rtmp_amf0_read_any}
use librtmp_client.Amf0.RoundTrip.{IsEncodable, read_any-write, read_any-write_nine, count_elements}
use librtmp_client.NetIo.{read_int16}
use librtmp_client.Amf0.Truncated.{read_any-truncated}
use librtmp_client.Amf0.Reader.Once.{read_once}
use librtmp_client.Amf0.Reader.{HasDistinct, Done, read_any-Returns}

-- { a: "bc", d: [true, null] }
abbrev sample : RtmpAmf0Any
sample = object (
    property (97 ∷ []) (string (98 ∷ 99 ∷ [])) (
      property (100 ∷ []) (strict_array 2 (element (boolean true) (element null no_elements)))
        no_properties))

sample-HasDistinct : HasDistinct sample
unfolding get_property bytes_eq
sample-HasDistinct = ((refl, (refl, tt)), (tt, ((tt, (tt, tt)), tt)))

sample-IsEncodable : IsEncodable sample
unfolding count_elements get_property bytes_eq
sample-IsEncodable = (
  (omega arith, omega arith, (omega arith, (omega arith, refl, (tt, (tt, tt))), tt)),
  (refl, (refl, tt)),
)

sample_wire :
    write 64 sample
    ≡ ok (
        3 ∷ 0 ∷ 1 ∷ 97 ∷ 2 ∷ 0 ∷ 2 ∷ 98 ∷ 99 ∷ 0 ∷ 1 ∷ 100 ∷ 10 ∷ 0 ∷ 0 ∷ 0 ∷ 2 ∷ 1 ∷ 1 ∷ 5 ∷ 0 ∷ 0
        ∷ 9 ∷ [])
unfolding write write_int8 write_int16 write_int32
sample_wire = refl

read_any-write_example :
    (written : List ℕ) × (write 64 sample ≡ ok written)
    × (length written ≡ total_size sample)
    × (rtmp_amf0_read_any (written ++ 1 ∷ 2 ∷ []) ≡ ok (total_size sample, sample))
read_any-write_example =
    read_any-write sample 64 (1 ∷ 2 ∷ []) sample-IsEncodable (unfold total_size in omega arith)

write-encode_example :
    (write 4 sample ≡ (if leb (total_size sample) 4 then ok (encode sample) else err 1))
    × (length (encode sample) ≡ total_size sample)
write-encode_example = write-encode 4 sample (omega arith)

-- 32768 bytes, one more than an int16_t counts.
long_name : List ℕ
long_name = replicate (2 ^ 15) 65

length-long_name : length long_name ≡ 2 ^ 15
unfolding long_name
length-long_name = length-replicate {A = ℕ} (2 ^ 15) 65

-- The bits of a double whose first bytes are 0 and 9.
abbrev tiny : ℕ
tiny = 9 * 2 ^ 48 + 5

read_any-write_nine_example :
    (written : List ℕ) × (write 20 (number tiny) ≡ ok written)
    × (rtmp_amf0_read_any (written ++ []) ≡ ok (3, object_eof))
read_any-write_nine_example =
    read_any-write_nine tiny 20 [] (omega arith) (omega arith) (omega arith)

-- A truncated object.
abbrev cut : List ℕ
cut = 3 ∷ 0 ∷ 1 ∷ 97 ∷ 2 ∷ 0 ∷ 2 ∷ 98 ∷ []

read_any-Returns_example :
    ReturnsUnless
      ((rtmp_amf0_read_any cut ≡ fault)
        × (n : ℕ) × (read_any_by (λ v e. read_once (suc (length cut)) v e) cut ≡ err n))
      (Done cut)
      (rtmp_amf0_read_any cut)
read_any-Returns_example = read_any-Returns cut

read_any-truncated_example :
    rtmp_amf0_read_any (3 ∷ (encode_utf8 (97 ∷ []) ++ (2 ∷ 0 ∷ 2 ∷ 98 ∷ []))) ≡ fault
read_any-truncated_example =
    read_any-truncated (97 ∷ []) (0 ∷ 2 ∷ 98 ∷ []) 1 (omega arith)
      (unfold rtmp_amf0_read_utf8 read_int16 in refl)

abbrev table : Properties
table = property (97 ∷ []) null (property (98 ∷ []) (boolean true) no_properties)

table-IsDistinct : IsDistinct table
unfolding get_property bytes_eq
table-IsDistinct = (refl, (refl, tt))

get_property-set_example :
    get_property (98 ∷ []) (set (97 ∷ []) (some (number 1)) table)
    ≡ (if bytes_eq (97 ∷ []) (98 ∷ []) then some (number 1) else get_property (98 ∷ []) table)
get_property-set_example =
    get_property-set (98 ∷ []) (97 ∷ []) (some (number 1)) table table-IsDistinct
