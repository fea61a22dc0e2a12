-- ===== src/Amf0/RoundTrip.antt =====
-- Reading back what rtmp_stack_amf0.cc wrote: the values for which that works, and the theorem.
pub mod Leaves
pub mod Tables
mod Steps
use librtmp_client.Prelude.{
  ℕ, zero, suc, ◌+◌, ◌-◌, ◌*◌, ◌/◌, ◌≤◌, ◌<◌, ◌^◌, ◌≡◌, ◌≢◌, refl, sym, ap, ◌∙◌, Bool, true, false,
  List, [], ◌∷◌, ◌++◌, ltb, leb, ◌==◌, ◌||◌, if◌then◌else◌, length, take, drop, arith,
  length-append, drop-append, drop-drop, append_assoc, Bool-cases, inl, inr, le→ltb, lt→ltb, Option,
  none, some, Result, ok, err, fault, out_of_fuel, ◌>>=◌, le→leb,
}
use librtmp_client.Amf0.Write.{write, minus_one}
use librtmp_client.NetIo.{write_int16, write_int32, write_int64}
use librtmp_client.NetIo.Laws.{read_int32-write_int32}
use librtmp_client.Amf0.Value.{
  RtmpAmf0Any, Properties, Elements, string, boolean, number, null, undefined, object, object_eof,
  ecma_array, strict_array, date, no_properties, property, no_elements, element, total_size,
  total_properties, total_elements, size_utf8,
}
use librtmp_client.Amf0.Hashtable.{set, get_property}
use librtmp_client.Amf0.Hashtable
use librtmp_client.Amf0.Hashtable.Laws.{IsDistinct, IsAbsent, erase_first_absent}
use Leaves.{
  not_eof_head, discovery_head, read_utf8-encode_utf8, read_string_lem, read_number_lem,
  not_eof_number, read_date_lem, read_marker_lem, read_object_eof_lem, read_boolean_lem,
  read_null_lem, read_undefined_lem,
}
use Tables.{
  append, append_elements, append-push_back, append_elements-push_back, IsAbsent-append, set_absent,
  append_elements-nil, append-nil,
}
use Steps.{
  method, step_object, step_ecma_array, step_strict_array, step_end, step_entry, step_element,
}
use librtmp_client.Amf0.Encoding.{
  IsShort, encode, encode_utf8, encode_properties, encode_elements, HasShort, HasShortProperties,
  HasShortElements, write-encode, length-encode_utf8, length-encode, length-encode_properties,
  length-encode_elements,
}
use librtmp_client.Amf0.Read.{
  read_marker, read_any_by, read, read_properties, read_elements, rounds, rtmp_amf0_is_object_eof,
  rtmp_amf0_read_utf8, rtmp_amf0_read_any, push_back, discovery, blank,
}

unfoldable pub count_elements : Elements → ℕ
count_elements no_elements = 0
count_elements (element v xs) = suc (count_elements xs)

-- A value that is read back as it was written: its strings are short, its keys distinct, its words
-- within their widths, the count of a strict array is that of its elements, no end marker stands in
-- it, and no double in it begins with the bytes 0 and 9.
abbrev mutual
  pub IsEncodable : RtmpAmf0Any → Type 0
  IsEncodable (string s) = IsShort s
  IsEncodable (boolean b) = Unit {0}
  IsEncodable (number n) = (n < 2 ^ 64) × (n / 2 ^ 48 ≢ 9)
  IsEncodable null = Unit {0}
  IsEncodable undefined = Unit {0}
  IsEncodable (object ps) = AreEncodable ps × IsDistinct ps
  IsEncodable object_eof = ⊥
  IsEncodable (ecma_array n ps) = (n < 2 ^ 32) × AreEncodable ps × IsDistinct ps
  IsEncodable (strict_array n xs) = (n < 2 ^ 31) × (n ≡ count_elements xs) × AllEncodable xs
  IsEncodable (date d z) = (d < 2 ^ 64) × (z < 2 ^ 16)

  pub AreEncodable : Properties → Type 0
  AreEncodable no_properties = Unit {0}
  AreEncodable (property k v ps) = IsShort k × IsEncodable v × AreEncodable ps

  pub AllEncodable : Elements → Type 0
  AllEncodable no_elements = Unit {0}
  AllEncodable (element v xs) = IsEncodable v × AllEncodable xs

no_eof_entry :
    (k : List ℕ) (v : RtmpAmf0Any) (rest : List ℕ)
    → IsShort k
    → IsEncodable v
    → rtmp_amf0_is_object_eof (encode_utf8 k ++ (encode v ++ rest)) ≡ false
unfolding rtmp_amf0_is_object_eof encode_utf8 encode write_int16
no_eof_entry [] (string s) rest h e = refl
no_eof_entry [] object_eof rest h e = absurd e
no_eof_entry [] _ rest h e = refl
no_eof_entry (x ∷ k) v rest h e = ground (arith, h)

read_any_by_lem :
    (r : RtmpAmf0Any → List ℕ → Result (ℕ × RtmpAmf0Any)) (data' : List ℕ) (n : ℕ)
    (v v' : RtmpAmf0Any)
    → discovery data' ≡ ok v
    → r v data' ≡ ok (n, v')
    → read_any_by r data' ≡ ok (n, v')
unfolding read_any_by
read_any_by_lem r data' n v v' d e = rw (d, e)

pub drop_key : (k rest : List ℕ) → drop (size_utf8 k) (encode_utf8 k ++ rest) ≡ rest
drop_key k rest =
    ap (λ (n : ℕ). drop n (encode_utf8 k ++ rest)) (sym (length-encode_utf8 k))
    ∙ drop-append (encode_utf8 k) rest

drop_value : (v : RtmpAmf0Any) (rest : List ℕ) → drop (total_size v) (encode v ++ rest) ≡ rest
drop_value v rest =
    ap (λ (n : ℕ). drop n (encode v ++ rest)) (sym (length-encode v)) ∙ drop-append (encode v) rest

drop_entry :
    (k : List ℕ) (v : RtmpAmf0Any) (rest : List ℕ)
    → drop (size_utf8 k + total_size v) (encode_utf8 k ++ (encode v ++ rest)) ≡ rest
drop_entry k v rest =
    sym (drop-drop (size_utf8 k) (total_size v) _ (encode_utf8 k ++ (encode v ++ rest)) refl)
    ∙ ap (drop (total_size v)) (drop_key k (encode v ++ rest))
    ∙ drop_value v rest

entry_bytes : (xs ys zs rest : List ℕ) → (xs ++ (ys ++ zs)) ++ rest ≡ xs ++ (ys ++ (zs ++ rest))
entry_bytes xs ys zs rest =
    append_assoc xs (ys ++ zs) rest ∙ ap (λ t. xs ++ t) (append_assoc ys zs rest)

pub key_bytes : (k rest : List ℕ) → length (encode_utf8 k ++ rest) ≢ 0
unfolding size_utf8
key_bytes k rest = omega (arith, length-append (encode_utf8 k) rest, length-encode_utf8 k)

pub total_size_pos : (v : RtmpAmf0Any) → 1 ≤ total_size v
unfolding total_size
total_size_pos (string s) = omega arith
total_size_pos _ = omega arith

value_bytes : (v : RtmpAmf0Any) (rest : List ℕ) → length (encode v ++ rest) ≢ 0
value_bytes v rest = omega (arith, length-append (encode v) rest, length-encode v, total_size_pos v)

discovery_number :
    (n : ℕ) (rest : List ℕ)
    → n < 2 ^ 64
    → n / 2 ^ 48 ≢ 9
    → discovery (0 ∷ write_int64 n ++ rest) ≡ ok (number 0)
unfolding discovery
discovery_number n rest h k = rw (not_eof_number n rest k h)

none_left :
    (f : ℕ) (acc : Elements) (rest : List ℕ) → read_elements (suc f) 0 acc rest ≡ ok (0, acc)
unfolding read_elements
none_left f acc rest = refl

mutual
  unfolding read encode total_size blank count_elements

  read_any-encode :
      (v : RtmpAmf0Any)
      → IsEncodable v
      → (f : ℕ) → total_size v < f
      → (rest : List ℕ) → read_any_by (method f) (encode v ++ rest) ≡ ok (total_size v, v)
  read_any-encode v e zero lt rest = absurd (omega arith)
  read_any-encode (string s) e (suc f) lt rest =
      read_any_by_lem _ _ _ (string []) _ (discovery_head 2 _ (omega arith))
        (rw (read_string_lem s rest e))
  read_any-encode (boolean b) e (suc f) lt rest =
      read_any_by_lem _ _ _ (boolean false) _ (discovery_head 1 _ (omega arith))
        (rw (read_boolean_lem b rest))
  read_any-encode (number n) e (suc f) lt rest =
      read_any_by_lem _ _ _ (number 0) _ (discovery_number n rest e.0 e.1)
        (rw (read_number_lem n rest e.0))
  read_any-encode null e (suc f) lt rest =
      read_any_by_lem _ _ _ null _ (discovery_head 5 _ (omega arith)) (rw (read_null_lem rest))
  read_any-encode undefined e (suc f) lt rest =
      read_any_by_lem _ _ _ undefined _ (discovery_head 6 _ (omega arith))
        (rw (read_undefined_lem rest))
  read_any-encode (object ps) e (suc f) lt rest =
      read_any_by_lem _ _ _ (object no_properties) _ (discovery_head 3 _ (omega arith)) (
        step_object f _ ps _
          (read_properties-encode ps e.0 true no_properties e.1 f (omega arith) rest))
  read_any-encode object_eof e (suc f) lt rest = absurd e
  read_any-encode (ecma_array n ps) e (suc f) lt rest =
      read_any_by_lem _ _ _ (ecma_array 0 no_properties) _ (discovery_head 8 _ (omega arith)) (
        rw (append_assoc (write_int32 n) (encode_properties ps) rest) (
          step_ecma_array f n _ ps _ e.0
            (read_properties-encode ps e.1 false no_properties e.2 f (omega arith) rest)))
  read_any-encode (strict_array n xs) e (suc f) lt rest =
      read_any_by_lem _ _ _ (strict_array 0 no_elements) _ (discovery_head 10 _ (omega arith)) (
        rw (append_assoc (write_int32 n) (encode_elements xs) rest) (
          step_strict_array f n _ xs _ e.0
            (rw e.1 (read_elements-encode xs e.2 no_elements f (omega arith) rest))))
  read_any-encode (date d z) e (suc f) lt rest =
      read_any_by_lem _ _ _ (date 0 0) _ (discovery_head 11 _ (omega arith))
        (rw (read_date_lem d z rest e.0 e.1))

  read_properties-encode :
      (ps : Properties)
      → AreEncodable ps
      → (b : Bool) (acc : Properties) → IsDistinct (append acc ps)
      → (f : ℕ) → total_properties ps < f
      → (rest : List ℕ)
      → read_properties b f acc (encode_properties ps ++ rest)
        ≡ ok (total_properties ps, append acc ps)
  read_properties-encode ps e b acc d zero lt rest = absurd (omega arith)
  read_properties-encode no_properties e b acc d (suc f) lt rest =
      rw (append-nil acc) (step_end b f acc rest)
  read_properties-encode (property k v ps) e b acc d (suc f) lt rest =
      rw (entry_bytes (encode_utf8 k) (encode v) (encode_properties ps) rest) (
        step_entry b f (size_utf8 k) (total_size v) (total_properties ps) acc _ k v _
          (key_bytes k _) (no_eof_entry k v _ e.0 e.1) (read_utf8-encode_utf8 k _ e.0)
          (rw (drop_key k (encode v ++ (encode_properties ps ++ rest)))
            (read_any-encode v e.1 f (omega arith) (encode_properties ps ++ rest)))
          (rw
            (
              drop_entry k v (encode_properties ps ++ rest),
              set_absent k v acc (IsAbsent-append acc k v ps d),
              ← append-push_back acc k v ps,
            )
            (read_properties-encode ps e.2 b (Hashtable.push_back acc k v)
              (rw (append-push_back acc k v ps) d) f (omega arith) rest)))

  read_elements-encode :
      (xs : Elements)
      → AllEncodable xs
      → (acc : Elements) → (f : ℕ) → total_elements xs + 1 < f
      → (rest : List ℕ)
      → read_elements f (count_elements xs) acc (encode_elements xs ++ rest)
        ≡ ok (total_elements xs, append_elements acc xs)
  read_elements-encode xs e acc zero lt rest = absurd (omega arith)
  read_elements-encode no_elements e acc (suc f) lt rest =
      rw (append_elements-nil acc) (none_left f acc rest)
  read_elements-encode (element v xs) e acc (suc f) lt rest =
      rw (append_assoc (encode v) (encode_elements xs) rest) (
        step_element f (count_elements xs) (total_size v) (total_elements xs) acc _ v _
          (value_bytes v _) (read_any-encode v e.0 f (omega arith) (encode_elements xs ++ rest))
          (rw (drop_value v (encode_elements xs ++ rest), ← append_elements-push_back acc v xs)
            (read_elements-encode xs e.1 (push_back acc v) f (omega (arith, total_size_pos v))
              rest)))

-- An encodable value, read by the readers that `decode` of a packet calls.
pub read_any_lem :
    (v : RtmpAmf0Any) (rest : List ℕ)
    → IsEncodable v
    → rtmp_amf0_read_any (encode v ++ rest) ≡ ok (total_size v, v)
unfolding rtmp_amf0_read_any
read_any_lem v rest e =
    read_any-encode v e _ (omega (arith, length-append (encode v) rest, length-encode v)) rest

pub read_object_lem :
    (ps : Properties) (rest : List ℕ)
    → IsEncodable (object ps)
    → read
        (suc (length (encode (object ps) ++ rest)))
        (object no_properties)
        (encode (object ps) ++ rest)
      ≡ ok (total_size (object ps), object ps)
unfolding encode total_size
read_object_lem ps rest e =
    step_object (length (encode (object ps) ++ rest)) (total_properties ps) ps _ (
      read_properties-encode ps e.0 true no_properties e.1 (length (encode (object ps) ++ rest))
        (omega (arith, length-append (encode_properties ps) rest, length-encode_properties ps))
        rest)

minus_one-ok {ℓ} : {A : Type ℓ} (r : Result A) (a : A) → minus_one r ≡ ok a → r ≡ ok a
minus_one-ok (ok x) a h = h
minus_one-ok (err n) a h = cc
minus_one-ok fault a h = cc
minus_one-ok out_of_fuel a h = cc

discovered :
    (r : RtmpAmf0Any → List ℕ → Result (ℕ × RtmpAmf0Any)) (fresh : Result RtmpAmf0Any)
    (data' : List ℕ) (x : ℕ × RtmpAmf0Any)
    → (minus_one fresh >>= λ v. minus_one (r v data')) ≡ ok x
    → (fresh >>= λ v. r v data') ≡ ok x
discovered r (ok v) data' x h = minus_one-ok (r v data') x h
discovered r (err n) data' x h = cc
discovered r fault data' x h = cc
discovered r out_of_fuel data' x h = cc

pub discovery-read :
    (v : RtmpAmf0Any) (rest : List ℕ)
    → IsEncodable v
    → (discovery (encode v ++ rest) >>= λ fresh.
        read (suc (length (encode v ++ rest))) fresh (encode v ++ rest))
      ≡ ok (total_size v, v)
unfolding rtmp_amf0_read_any read_any_by
discovery-read v rest e =
    discovered (method (suc (length (encode v ++ rest)))) (discovery (encode v ++ rest)) _ _
      (read_any_lem v rest e)

mutual
  pub IsEncodable-HasShort : (v : RtmpAmf0Any) → IsEncodable v → HasShort v
  IsEncodable-HasShort (string s) e = e
  IsEncodable-HasShort (object ps) e = AreEncodable-HasShort ps e.0
  IsEncodable-HasShort (ecma_array n ps) e = AreEncodable-HasShort ps e.1
  IsEncodable-HasShort (strict_array n xs) e = AllEncodable-HasShort xs e.2
  IsEncodable-HasShort _ e = tt

  AreEncodable-HasShort : (ps : Properties) → AreEncodable ps → HasShortProperties ps
  AreEncodable-HasShort no_properties e = tt
  AreEncodable-HasShort (property k v ps) e =
      (e.0, IsEncodable-HasShort v e.1, AreEncodable-HasShort ps e.2)

  AllEncodable-HasShort : (xs : Elements) → AllEncodable xs → HasShortElements xs
  AllEncodable-HasShort no_elements e = tt
  AllEncodable-HasShort (element v xs) e =
      (IsEncodable-HasShort v e.0, AllEncodable-HasShort xs e.1)

-- Into any buffer with room for its `total_size`, an encodable value is written as that many bytes,
-- and `rtmp_amf0_read_any` reads the same value back from them, whatever follows, and stops behind
-- them.
pub read_any-write :
    (v : RtmpAmf0Any) (len : ℕ) (rest : List ℕ)
    → IsEncodable v
    → total_size v ≤ len
    → (written : List ℕ) × (write len v ≡ ok written)
      × (length written ≡ total_size v)
      × (rtmp_amf0_read_any (written ++ rest) ≡ ok (total_size v, v))
unfolding rtmp_amf0_read_any
read_any-write v len rest e h = (
  encode v,
  (write-encode len v (IsEncodable-HasShort v e)).0 ∙ rw (le→leb (total_size v) len h),
  length-encode v,
  read_any-encode v e _ (omega (arith, length-append (encode v) rest, length-encode v)) rest,
)

nine_bytes :
    (n : ℕ) (rest : List ℕ)
    → n < 2 ^ 64
    → n / 2 ^ 48 ≡ 9
    → write_int64 n ++ rest ≡ 0 ∷ 9 ∷ drop 2 (write_int64 n ++ rest)
unfolding write_int64
nine_bytes n rest h nine = ground (arith, nine)

read_any-end : (rest : List ℕ) → rtmp_amf0_read_any (0 ∷ 0 ∷ 9 ∷ rest) ≡ ok (3, object_eof)
unfolding rtmp_amf0_read_any read discovery rtmp_amf0_is_object_eof
read_any-end rest = read_any_by_lem _ _ _ object_eof _ refl (rw (read_object_eof_lem rest))

-- A double whose first two bytes are 0 and 9 is written like any other, and read back as an end
-- marker: `rtmp_amf0_read_any` stops after three of its nine bytes.
pub read_any-write_nine :
    (n len : ℕ) (rest : List ℕ)
    → n < 2 ^ 64
    → n / 2 ^ 48 ≡ 9
    → 9 ≤ len
    → (written : List ℕ) × (write len (number n) ≡ ok written)
      × (rtmp_amf0_read_any (written ++ rest) ≡ ok (3, object_eof))
unfolding rtmp_amf0_read_any
read_any-write_nine n len rest h nine room = (
  encode (number n),
  (write-encode len (number n) tt).0 ∙ (unfold total_size in rw (le→leb 9 len room)),
  rw (same_bytes) (read_any-end (drop 2 (write_int64 n ++ rest))),
)
  where
    same_bytes : encode (number n) ++ rest ≡ 0 ∷ 0 ∷ 9 ∷ drop 2 (write_int64 n ++ rest)
    same_bytes = unfold encode in ap (λ t. 0 ∷ t) (nine_bytes n rest h nine)
