-- ===== src/Amf0/RoundTrip/Steps.antt =====
-- One round of each loop of the readers of rtmp_stack_amf0.cc, and the headers with a count, over
-- what the calls in it answer.
use librtmp_client.Prelude.{
  Bool, true, false, ap, ◌∙◌, ℕ, suc, ◌+◌, ◌-◌, ◌<◌, ◌^◌, ◌≡◌, ◌≢◌, refl, false, List, [], ◌∷◌,
  ◌++◌, ltb, ◌==◌, length, drop, arith, le→ltb, some, Result, ok,
}
use librtmp_client.NetIo.{write_int32}
use librtmp_client.NetIo.Laws.{read_int32-write_int32}
use librtmp_client.Amf0.Value.{
  RtmpAmf0Any, Properties, Elements, object, ecma_array, strict_array, no_properties, no_elements,
}
use librtmp_client.Amf0.Hashtable.{set}
use librtmp_client.Amf0.Read.{
  read_any_by, read_entry_by, read_value_by, delete_again, points_to_deleted, read, read_properties,
  read_elements, rounds, rtmp_amf0_is_object_eof, rtmp_amf0_read_utf8, push_back,
}
use librtmp_client.Amf0.RoundTrip.Leaves.{read_marker_lem, read_object_eof_lem}

abbrev pub method : ℕ → RtmpAmf0Any → List ℕ → Result (ℕ × RtmpAmf0Any)
method f = λ v d. read f v d

pub step_object :
    (f n : ℕ) (ps : Properties) (rest : List ℕ)
    → read_properties true f no_properties rest ≡ ok (n, ps)
    → read (suc f) (object no_properties) (3 ∷ rest) ≡ ok (1 + n, object ps)
unfolding read
step_object f n ps rest e =
    rw (le→ltb (length (3 ∷ rest)) 1 (omega arith), read_marker_lem 3 2 rest (omega arith), e)

counted_length : (m n : ℕ) (rest : List ℕ) → ltb (length (m ∷ (write_int32 n ++ rest))) 5 ≡ false
unfolding write_int32
counted_length m n rest = ground arith

counted_drop : (m n : ℕ) (rest : List ℕ) → drop 5 (m ∷ (write_int32 n ++ rest)) ≡ rest
unfolding write_int32
counted_drop m n rest = refl

pub step_ecma_array :
    (f c n : ℕ) (ps : Properties) (rest : List ℕ)
    → c < 2 ^ 32
    → read_properties false f no_properties rest ≡ ok (n, ps)
    → read (suc f) (ecma_array 0 no_properties) (8 ∷ (write_int32 c ++ rest))
      ≡ ok (5 + n, ecma_array c ps)
unfolding read
step_ecma_array f c n ps rest h e = rw (
  counted_length 8 c rest,
  read_marker_lem 8 2 (write_int32 c ++ rest) (omega arith),
  read_int32-write_int32 c rest h,
  counted_drop 8 c rest,
  e,
)

pub step_strict_array :
    (f c n : ℕ) (xs : Elements) (rest : List ℕ)
    → c < 2 ^ 31
    → read_elements f c no_elements rest ≡ ok (n, xs)
    → read (suc f) (strict_array 0 no_elements) (10 ∷ (write_int32 c ++ rest))
      ≡ ok (5 + n, strict_array c xs)
unfolding read
step_strict_array f c n xs rest h e = rw (
  counted_length 10 c rest,
  read_marker_lem 10 2 (write_int32 c ++ rest) (omega arith),
  read_int32-write_int32 c rest (omega arith),
  counted_drop 10 c rest,
  all_rounds,
  e,
)
  where
    all_rounds : rounds c ≡ c
    all_rounds = unfold rounds in ground arith

pub step_end :
    (b : Bool) (f : ℕ) (acc : Properties) (rest : List ℕ)
    → read_properties b (suc f) acc (0 ∷ 0 ∷ 9 ∷ rest) ≡ ok (3, acc)
unfolding read_properties rtmp_amf0_is_object_eof
step_end b f acc rest = rw (read_object_eof_lem rest) (ground arith)

-- Reading that succeeds deletes nothing.
entry_value :
    (in_object : Bool) (r : RtmpAmf0Any → List ℕ → Result (ℕ × RtmpAmf0Any)) (data' : List ℕ)
    (x : ℕ × RtmpAmf0Any)
    → read_any_by r data' ≡ ok x
    → read_entry_by in_object r data' ≡ ok x
unfolding read_entry_by read_value_by
entry_value true r data' x e =
    ap (λ t. delete_again t (points_to_deleted data')) e ∙ unfold delete_again in refl
entry_value false r data' x e = e

pub step_entry :
    (in_object : Bool) (f a b n : ℕ) (acc ps : Properties) (name : List ℕ) (value : RtmpAmf0Any)
    (data' : List ℕ)
    → length data' ≢ 0
    → rtmp_amf0_is_object_eof data' ≡ false
    → rtmp_amf0_read_utf8 data' [] ≡ ok (a, name)
    → read_any_by (method f) (drop a data') ≡ ok (b, value)
    → read_properties in_object f (set name (some value) acc) (drop (a + b) data') ≡ ok (n, ps)
    → read_properties in_object (suc f) acc data' ≡ ok (a + b + n, ps)
unfolding read_properties
step_entry in_object f a b n acc ps name value data' some_left no_end key entry others =
    rw (
      unequal,
      no_end,
      key,
      entry_value in_object (method f) (drop a data') (b, value) entry,
      others,
    )
  where
    unequal : (length data' == 0) ≡ false
    unequal = ground (arith, some_left)

pub step_element :
    (f left a n : ℕ) (acc xs : Elements) (value : RtmpAmf0Any) (data' : List ℕ)
    → length data' ≢ 0
    → read_any_by (method f) data' ≡ ok (a, value)
    → read_elements f left (push_back acc value) (drop a data') ≡ ok (n, xs)
    → read_elements (suc f) (suc left) acc data' ≡ ok (a + n, xs)
unfolding read_elements
step_element f left a n acc xs value data' some_left entry others =
    rw (unequal, none_left, entry, one_less, others)
  where
    unequal : (length data' == 0) ≡ false
    unequal = ground (arith, some_left)

    none_left : (suc left == 0) ≡ false
    none_left = ground arith

    one_less : suc left - 1 ≡ left
    one_less = omega arith
