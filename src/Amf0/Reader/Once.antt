-- ===== src/Amf0/Reader/Once.antt =====
-- The readers of rtmp_stack_amf0.cc as they would be if no object were deleted a second time, and what
-- the second delete changes.
use librtmp_client.Prelude.{
  ℕ, zero, suc, ◌+◌, ◌-◌, Bool, true, false, List, [], length, drop, ◌||◌, ltb, ◌==◌, if◌then◌else◌,
  some, Result, ok, err, fault, out_of_fuel, ◌>>=◌,
}
use librtmp_client.NetIo.{read_int32}
use librtmp_client.Amf0.Value.{
  RtmpAmf0Any, Properties, Elements, string, boolean, number, null, undefined, object, object_eof,
  ecma_array, strict_array, date,
}
use librtmp_client.Amf0.Hashtable.{set}
use librtmp_client.Amf0.Write.{minus_one}
use librtmp_client.Amf0.Read.{
  Read, read_marker, rtmp_amf0_read_utf8, rtmp_amf0_read_string, rtmp_amf0_read_boolean,
  rtmp_amf0_read_number, rtmp_amf0_read_null, rtmp_amf0_read_undefined, read_object_eof, read_date,
  discovery, read_any_by, read_entry_by, read_value_by, delete_again, points_to_deleted, rounds,
  object_read, ecma_array_read, strict_array_read, rtmp_amf0_is_object_eof, push_back, read,
  read_properties, read_elements,
}

unfoldable mutual
  unfolding object_read ecma_array_read strict_array_read

  pub read_once : ℕ → RtmpAmf0Any → List ℕ → Read RtmpAmf0Any
  read_once zero v data' = out_of_fuel
  read_once (suc f) (string s) data' = do (n, s') ← rtmp_amf0_read_string data' s; ok (n, string s')
  read_once (suc f) (boolean b) data' = do
    (n, b') ← rtmp_amf0_read_boolean data'
    ok (n, boolean b')
  read_once (suc f) (number d) data' = do (n, d') ← rtmp_amf0_read_number data'; ok (n, number d')
  read_once (suc f) null data' = do n ← rtmp_amf0_read_null data'; ok (n, null)
  read_once (suc f) undefined data' = do n ← rtmp_amf0_read_undefined data'; ok (n, undefined)
  read_once (suc f) (object ps) data' = object_read (λ qs d. properties_once f qs d) ps data'
  read_once (suc f) object_eof data' = do n ← read_object_eof data'; ok (n, object_eof)
  read_once (suc f) (ecma_array c ps) data' =
      ecma_array_read (λ qs d. properties_once f qs d) ps data'
  read_once (suc f) (strict_array c xs) data' =
      strict_array_read (λ left ys d. elements_once f left ys d) xs data'
  read_once (suc f) (date d z) data' = do (n, (d', z')) ← read_date data'; ok (n, date d' z')

  pub properties_once : ℕ → Properties → List ℕ → Read Properties
  properties_once zero ps data' = out_of_fuel
  properties_once (suc f) ps data' =
      let ended = do n ← read_object_eof data'; ok (n, ps)
      in let more = do
        (a, name) ← rtmp_amf0_read_utf8 data' []
        (b, value) ← read_any_by (λ v d. read_once f v d) (drop a data')
        (n, ps') ← properties_once f (set name (some value) ps) (drop (a + b) data')
        ok (a + b + n, ps')
        in if length data' == 0
          then ok (0, ps)
          else if rtmp_amf0_is_object_eof data'
          then ended
          else more

  pub elements_once : ℕ → ℕ → Elements → List ℕ → Read Elements
  elements_once zero left xs data' = out_of_fuel
  elements_once (suc f) left xs data' =
      let more = do
        (a, value) ← read_any_by (λ v d. read_once f v d) data'
        (n, xs') ← elements_once f (left - 1) (push_back xs value) (drop a data')
        ok (a + n, xs')
      in if left == 0 || length data' == 0 then ok (0, xs) else more

-- The same result, or a second delete instead of an error.
pub data Agrees {A : Type 0} : Result A → Result A → Type 0 where
  same : (r : Result A) → Agrees r r
  twice : (n : ℕ) → Agrees fault (err n)

Agrees->>= :
    {A B : Type 0} {m m' : Result A} {g g' : A → Result B}
    → Agrees m m'
    → ((a : A) → Agrees (g a) (g' a))
    → Agrees (m >>= g) (m' >>= g')
Agrees->>= (same (ok a)) k = k a
Agrees->>= (same (err n)) k = (same _)
Agrees->>= (same (fault)) k = (same _)
Agrees->>= (same (out_of_fuel)) k = (same _)
Agrees->>= (twice n) k = twice n

Agrees-if :
    {A : Type 0} (b : Bool) {x x' y y' : Result A}
    → Agrees x x'
    → Agrees y y'
    → Agrees (if b then x else y) (if b then x' else y')
Agrees-if true h k = h
Agrees-if false h k = k

Agrees-minus_one :
    {A : Type 0} {m m' : Result A} → Agrees m m' → Agrees (minus_one m) (minus_one m')
Agrees-minus_one (same r) = same (minus_one r)
Agrees-minus_one (twice n) = twice 1

pub any-Agrees :
    (r r' : RtmpAmf0Any → List ℕ → Read RtmpAmf0Any) (d : List ℕ)
    → ((v : RtmpAmf0Any) → Agrees (r v d) (r' v d))
    → Agrees (read_any_by r d) (read_any_by r' d)
unfolding read_any_by
any-Agrees r r' d k = Agrees->>= (same (minus_one (discovery d))) λ v. Agrees-minus_one (k v)

again-Agrees :
    {A : Type 0} {m m' : Result A} (b : Bool) → Agrees m m' → Agrees (delete_again m b) m'
unfolding delete_again
again-Agrees b (same (ok a)) = (same _)
again-Agrees true (same (err n)) = twice n
again-Agrees false (same (err n)) = (same _)
again-Agrees b (same (fault)) = (same _)
again-Agrees b (same (out_of_fuel)) = (same _)
again-Agrees b (twice n) = twice n

entry-Agrees :
    (in_object : Bool) (r r' : RtmpAmf0Any → List ℕ → Read RtmpAmf0Any) (d : List ℕ)
    → ((v : RtmpAmf0Any) → Agrees (r v d) (r' v d))
    → Agrees (read_entry_by in_object r d) (read_any_by r' d)
unfolding read_entry_by read_value_by
entry-Agrees true r r' d k = again-Agrees (points_to_deleted d) (any-Agrees r r' d k)
entry-Agrees false r r' d k = any-Agrees r r' d k

mutual
  unfolding read read_once

  pub read-Agrees : (f : ℕ) (v : RtmpAmf0Any) (d : List ℕ) → Agrees (read f v d) (read_once f v d)
  read-Agrees zero v d = (same _)
  read-Agrees (suc f) (string s) d = (same _)
  read-Agrees (suc f) (boolean b) d = (same _)
  read-Agrees (suc f) (number n) d = (same _)
  read-Agrees (suc f) null d = (same _)
  read-Agrees (suc f) undefined d = (same _)
  read-Agrees (suc f) object_eof d = (same _)
  read-Agrees (suc f) (date n z) d = (same _)
  read-Agrees (suc f) (object ps) d = Agrees-if (ltb (length d) 1) (same _) (
      Agrees->>= (same (read_marker 0x03 2 d))
        λ _. Agrees->>= (properties-Agrees true f ps (drop 1 d)) λ p. (same _))
  read-Agrees (suc f) (ecma_array c ps) d = Agrees-if (ltb (length d) 5) (same _) (
      Agrees->>= (same (read_marker 0x08 2 d)) λ _.
        Agrees->>= (same (read_int32 (drop 1 d)))
          λ count. Agrees->>= (properties-Agrees false f ps (drop 5 d)) λ p. (same _))
  read-Agrees (suc f) (strict_array c xs) d = Agrees-if (ltb (length d) 5) (same _) (
      Agrees->>= (same (read_marker 0x0a 2 d)) λ _.
        Agrees->>= (same (read_int32 (drop 1 d)))
          λ count. Agrees->>= (elements-Agrees f (rounds count) xs (drop 5 d)) λ p. (same _))

  properties-Agrees :
      (in_object : Bool) (f : ℕ) (ps : Properties) (d : List ℕ)
      → Agrees (read_properties in_object f ps d) (properties_once f ps d)
  properties-Agrees in_object zero ps d = (same _)
  properties-Agrees in_object (suc f) ps d = Agrees-if (length d == 0) (same _) (
      Agrees-if (rtmp_amf0_is_object_eof d) (same _) (
        Agrees->>= (same (rtmp_amf0_read_utf8 d [])) λ (a, name).
          Agrees->>=
            (entry-Agrees in_object (λ v e. read f v e) (λ v e. read_once f v e) (drop a d)
              λ v. read-Agrees f v (drop a d))
            λ (b, value).
              Agrees->>= (properties-Agrees in_object f (set name (some value) ps) (drop (a + b) d))
                λ p. (same _)))

  elements-Agrees :
      (f left : ℕ) (xs : Elements) (d : List ℕ)
      → Agrees (read_elements f left xs d) (elements_once f left xs d)
  elements-Agrees zero left xs d = (same _)
  elements-Agrees (suc f) left xs d = Agrees-if (left == 0 || length d == 0) (same _) (
      Agrees->>= (any-Agrees (λ v e. read f v e) (λ v e. read_once f v e) d λ v. read-Agrees f v d)
        λ (a, value).
          Agrees->>= (elements-Agrees f (left - 1) (push_back xs value) (drop a d)) λ p. (same _))
