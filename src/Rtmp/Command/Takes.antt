-- ===== src/Rtmp/Command/Takes.antt =====
-- The calls that the methods `decode` of net/app_protocol/rtmp/rtmp_stack_packet.cc make, on what the
-- AMF0 writers wrote.
use librtmp_client.Prelude.{
  ℕ, ◌≤◌, ◌<◌, ◌^◌, ◌≡◌, refl, Bool, true, false, List, [], ◌++◌, ◌==◌, length, arith,
  length-append, append_assoc, drop-append, ok,
}
use librtmp_client.Amf0.Value.{
  RtmpAmf0Any, Properties, string, number, boolean, null, undefined, object, total_size,
  no_properties,
}
use librtmp_client.NetIo.{write_int64}
use librtmp_client.Amf0.Read.{rtmp_amf0_read_number, rtmp_amf0_read_boolean, rtmp_amf0_read_any}
use librtmp_client.Amf0.Encoding.{encode, IsShort, length-encode}
use librtmp_client.Amf0.RoundTrip.{IsEncodable, read_any_lem, read_object_lem, discovery-read}
use librtmp_client.Amf0.RoundTrip.Leaves.{
  or_kept, read_string_over, read_number_lem, read_boolean_lem, read_null_lem, read_undefined_lem,
}
use librtmp_client.Rtmp.Command.Reader.{Reader, ◌>>=◌, pure, check, if_more, skip, or_minus_one}
use librtmp_client.Rtmp.Command.Decode.{
  read_string, read_null, read_undefined, read_object, read_discovered,
}

-- The reader takes exactly `bytes` from the front of what is there, and returns `a`.
pub data Takes {A : Type 0} (r : Reader A) (bytes : List ℕ) (a : A) (rest : List ℕ) : Type 0 where
  takes : r (bytes ++ rest) ≡ ok (length bytes, a) → Takes r bytes a rest

pub Takes->>= :
    {A B : Type 0} {r : Reader A} (k : A → Reader B) {bytes bytes' rest : List ℕ} {a : A} {b : B}
    → Takes r bytes a (bytes' ++ rest)
    → Takes (k a) bytes' b rest
    → Takes (r >>= k) (bytes ++ bytes') b rest
Takes->>= k {bytes} {bytes'} {rest} (takes h) (takes h') = takes (
    unfold ◌>>=◌ in
    rw (
      append_assoc bytes bytes' rest,
      h,
      drop-append bytes (bytes' ++ rest),
      h',
      length-append bytes bytes',
    ))

pub Takes-pure : {A : Type 0} {a : A} {rest : List ℕ} → Takes (pure a) [] a rest
Takes-pure = takes (unfold pure in refl)

Takes-check : {b : Bool} (n : ℕ) {rest : List ℕ} → b ≡ true → Takes (check b n) [] tt rest
Takes-check n e = takes (unfold check in rw e refl)

pub Takes-string :
    (value s : List ℕ) {rest : List ℕ}
    → IsShort s
    → or_kept s value ≡ s
    → Takes (read_string value) (encode (string s)) s rest
Takes-string value s {rest} h e = takes (
    unfold encode read_string total_size in
    rw (length-encode (string s), read_string_over s rest value h e))

pub Takes-number :
    {rest : List ℕ} (n : ℕ) → n < 2 ^ 64 → Takes rtmp_amf0_read_number (encode (number n)) n rest
Takes-number n h = takes (unfold encode write_int64 in read_number_lem n _ h)

pub Takes-null : {rest : List ℕ} → Takes read_null (encode null) tt rest
Takes-null {rest} = takes (unfold encode read_null skip in rw (read_null_lem rest))

pub Takes-undefined : {rest : List ℕ} → Takes read_undefined (encode undefined) tt rest
Takes-undefined {rest} = takes (unfold encode read_undefined skip in rw (read_undefined_lem rest))

pub Takes-boolean :
    {rest : List ℕ} (b : Bool) → Takes rtmp_amf0_read_boolean (encode (boolean b)) b rest
Takes-boolean b = takes (unfold encode in read_boolean_lem b _)

pub Takes-any :
    {rest : List ℕ} (v : RtmpAmf0Any) → IsEncodable v → Takes rtmp_amf0_read_any (encode v) v rest
Takes-any v h = takes (rw (length-encode v) (read_any_lem v _ h))

pub Takes-object :
    {rest : List ℕ} (ps : Properties)
    → IsEncodable (object ps)
    → Takes (read_object no_properties) (encode (object ps)) ps rest
Takes-object {rest} ps h =
    takes (unfold read_object in rw (length-encode (object ps), read_object_lem ps rest h))

pub Takes-discovered :
    {rest : List ℕ} (v : RtmpAmf0Any) → IsEncodable v → Takes read_discovered (encode v) v rest
Takes-discovered {rest} v h =
    takes (unfold read_discovered in rw (length-encode v) (discovery-read v rest h))

pub Takes-or_minus_one :
    {A : Type 0} {r : Reader A} {bytes rest : List ℕ} {a : A}
    → Takes r bytes a rest
    → Takes (or_minus_one r) bytes a rest
Takes-or_minus_one (takes h) = takes (unfold or_minus_one in rw h refl)

pub Takes-if_more :
    {A : Type 0} (old : A) {r : Reader A} {bytes rest : List ℕ} {a : A}
    → 1 ≤ length bytes
    → Takes r bytes a rest
    → Takes (if_more old r) bytes a rest
Takes-if_more old {bytes} {rest} long (takes h) =
    let more : (length (bytes ++ rest) == 0) ≡ false = ground (arith, length-append bytes rest) in
    takes (unfold if_more in rw more h)

pub Takes-if_none : {A : Type 0} (old : A) (r : Reader A) → Takes (if_more old r) [] old []
Takes-if_none old r = takes (unfold if_more in refl)

-- A test, which takes no bytes.
pub check_then :
    {B : Type 0} (n : ℕ) (k : Unit {0} → Reader B) {b : Bool} {bytes rest : List ℕ} {a : B}
    → b ≡ true
    → Takes (k tt) bytes a rest
    → Takes (check b n >>= k) bytes a rest
check_then n k e h = Takes->>= k {bytes = []} (Takes-check n e) h
