-- ===== src/Amf0/Truncated.antt =====
-- RtmpAmf0Object::read of rtmp_stack_amf0.cc on an object that ends early.
use librtmp_client.Prelude.{
  ℕ, zero, suc, ◌≤◌, length-append, ◌≢◌, ◌≡◌, refl, true, false, List, [], ◌∷◌, ◌++◌, ◌==◌, length,
  arith, err, fault, le→ltb,
}
use librtmp_client.NetIo.{write_int16}
use librtmp_client.Amf0.Value.{no_properties}
use librtmp_client.Amf0.Encoding.{IsShort, encode_utf8}
use librtmp_client.Amf0.Read.{
  rtmp_amf0_is_object_eof, rtmp_amf0_read_utf8, rtmp_amf0_read_string, rtmp_amf0_read_any,
  read_any_by, read_value_by, read_entry_by, delete_again, points_to_deleted, blank, read,
  read_properties,
}
use librtmp_client.Amf0.RoundTrip.{drop_key, key_bytes}
use librtmp_client.Amf0.RoundTrip.Leaves.{read_utf8-encode_utf8, discovery_head, read_marker_lem}

not_eof_string :
    (key e : List ℕ) → IsShort key → rtmp_amf0_is_object_eof (encode_utf8 key ++ (2 ∷ e)) ≡ false
unfolding rtmp_amf0_is_object_eof encode_utf8 write_int16
not_eof_string [] e h = refl
not_eof_string (x ∷ key) e h = ground (arith, h)

some_bytes : (d : List ℕ) → length d ≢ 0 → (length d == 0) ≡ false
some_bytes d h = ground (arith, h)

-- The value, a string, cannot be read, and its object is deleted twice.
string_deleted :
    (f n : ℕ) (e : List ℕ)
    → 1 ≤ f
    → rtmp_amf0_read_utf8 e [] ≡ err n
    → read_entry_by true (λ v d. read f v d) (2 ∷ e) ≡ fault
unfolding read_entry_by read_value_by read_any_by points_to_deleted delete_again read
    rtmp_amf0_read_string blank
string_deleted zero n e long h = absurd (omega arith)
string_deleted (suc f) n e long h =
    rw
      (
        discovery_head 2 e (omega arith),
        le→ltb (length (2 ∷ e)) 1 (omega arith),
        read_marker_lem 2 1 e (omega arith),
        h,
      )
      refl

entries_deleted :
    (f n : ℕ) (key e : List ℕ)
    → IsShort key
    → 1 ≤ f
    → rtmp_amf0_read_utf8 e [] ≡ err n
    → read_properties true (suc f) no_properties (encode_utf8 key ++ (2 ∷ e)) ≡ fault
unfolding read_properties
entries_deleted f n key e short long h =
    rw
      (
        some_bytes (encode_utf8 key ++ (2 ∷ e)) (key_bytes key (2 ∷ e)),
        not_eof_string key e short,
        read_utf8-encode_utf8 key (2 ∷ e) short,
        drop_key key (2 ∷ e),
        string_deleted f n e long h,
      )
      refl

-- An object whose first value is a string that cannot be read, as one that is cut: the object of this
-- string is deleted twice, whatever the key is.
pub read_any-truncated :
    (key e : List ℕ) (n : ℕ)
    → IsShort key
    → rtmp_amf0_read_utf8 e [] ≡ err n
    → rtmp_amf0_read_any (3 ∷ (encode_utf8 key ++ (2 ∷ e))) ≡ fault
unfolding rtmp_amf0_read_any read_any_by read blank
read_any-truncated key e n short h =
    let rest = encode_utf8 key ++ (2 ∷ e) in
    rw
      (
        discovery_head 3 rest (omega arith),
        le→ltb (length (3 ∷ rest)) 1 (omega arith),
        read_marker_lem 3 2 rest (omega arith),
        entries_deleted (length rest) n key e short
            (omega (arith, length-append (encode_utf8 key) (2 ∷ e))) h,
      )
      refl
