-- ===== src/Amf0/Reader.antt =====
-- The readers of rtmp_stack_amf0.cc on any input.
pub mod Leaves
pub mod Once
use librtmp_client.Prelude.{
  ReturnsUnless, yields, declines, breaks, Unless-of, ℕ, zero, suc, ◌+◌, ◌-◌, ◌≤◌, ◌<◌, ◌≡◌, ◌≢◌,
  refl, Bool, true, false, List, [], ◌∷◌, ltb, leb, ◌==◌, ◌||◌, if◌then◌else◌, length, take, drop,
  arith, length-drop, ltb→le, ltb→lt, Option, some, none, Result, ok, err, fault, out_of_fuel,
  ◌>>=◌, Returns, gives, refuses, Returns->>=, Returns-if, Returns-map, Returns-ok,
  Returns-ne-fault, Bool-cases, inl, inr, bytes_eq,
}
use librtmp_client.NetIo.{read_int32}
use librtmp_client.Amf0.Value.{
  RtmpAmf0Any, Properties, Elements, string, boolean, number, null, undefined, object, object_eof,
  ecma_array, strict_array, date, no_properties, property, no_elements, element,
}
use librtmp_client.Amf0.Hashtable
use librtmp_client.Amf0.Hashtable.{set, erase_first}
use librtmp_client.Amf0.Hashtable.Laws.{IsDistinct, set-IsDistinct}
use librtmp_client.Amf0.Write.{minus_one}
use librtmp_client.Amf0.Read.{
  Read, read_any_by, read, read_properties, read_elements, rounds, rtmp_amf0_is_object_eof,
  rtmp_amf0_read_any, push_back, discovery, blank,
}
use Once.{read_once, properties_once, elements_once, Agrees, same, twice, any-Agrees, read-Agrees}
use Leaves.{
  int32-Returns, marker-Returns, Within, utf8-Returns, string-Returns, boolean-Returns,
  number-Returns, null-Returns, undefined-Returns, object_eof-Returns, date-Returns,
}

-- In every table of the value no key stands twice.
abbrev mutual
  pub HasDistinct : RtmpAmf0Any → Type 0
  HasDistinct (object ps) = IsDistinct ps × HasDistinctProperties ps
  HasDistinct (ecma_array n ps) = IsDistinct ps × HasDistinctProperties ps
  HasDistinct (strict_array n xs) = HasDistinctElements xs
  HasDistinct _ = Unit {0}

  pub HasDistinctProperties : Properties → Type 0
  HasDistinctProperties no_properties = Unit {0}
  HasDistinctProperties (property k v ps) = HasDistinct v × HasDistinctProperties ps

  pub HasDistinctElements : Elements → Type 0
  HasDistinctElements no_elements = Unit {0}
  HasDistinctElements (element v xs) = HasDistinct v × HasDistinctElements xs

HasDistinct-erase_first :
    (k : List ℕ) (ps : Properties)
    → HasDistinctProperties ps
    → HasDistinctProperties (erase_first k ps)
unfolding erase_first
HasDistinct-erase_first k no_properties h = h
HasDistinct-erase_first k (property i w ps) h = elim (Bool-cases (bytes_eq k i)) [
  | inl e ↦ rw e h.1
  | inr e ↦ rw e (h.0, HasDistinct-erase_first k ps h.1)
]

HasDistinct-push_back :
    (k : List ℕ) (v : RtmpAmf0Any) (ps : Properties)
    → HasDistinct v
    → HasDistinctProperties ps
    → HasDistinctProperties (Hashtable.push_back ps k v)
unfolding Hashtable.push_back
HasDistinct-push_back k v no_properties hv h = (hv, tt)
HasDistinct-push_back k v (property i w ps) hv h = (h.0, HasDistinct-push_back k v ps hv h.1)

HasDistinct-set :
    (k : List ℕ) (v : RtmpAmf0Any) (ps : Properties)
    → HasDistinct v
    → HasDistinctProperties ps
    → HasDistinctProperties (set k (some v) ps)
unfolding set
HasDistinct-set k v ps hv h = HasDistinct-push_back k v _ hv (HasDistinct-erase_first k ps h)

HasDistinct-push_back_element :
    (xs : Elements) (v : RtmpAmf0Any)
    → HasDistinct v
    → HasDistinctElements xs
    → HasDistinctElements (push_back xs v)
unfolding push_back
HasDistinct-push_back_element no_elements v hv h = (hv, tt)
HasDistinct-push_back_element (element w xs) v hv h =
    (h.0, HasDistinct-push_back_element xs v hv h.1)

-- What a reader has done: it moved on inside the buffer, and left distinct keys.
abbrev pub Done : List ℕ → ℕ × RtmpAmf0Any → Type 0
Done d (n, v) = (1 ≤ n) × (n ≤ length d) × HasDistinct v

abbrev pub DoneProperties : List ℕ → ℕ × Properties → Type 0
DoneProperties d (n, ps) = (n ≤ length d) × IsDistinct ps × HasDistinctProperties ps

abbrev pub DoneElements : List ℕ → ℕ × Elements → Type 0
DoneElements d (n, xs) = (n ≤ length d) × HasDistinctElements xs

pub Returns-minus_one {ℓ κ} :
    {A : Type ℓ} {P : A → Type κ} {r : Result A} → Returns P r → Returns P (minus_one r)
Returns-minus_one (gives h) = gives h
Returns-minus_one (refuses n) = refuses 1

pub Unless-minus_one {ℓ κ ι} :
    {A : Type ℓ} {P : A → Type κ} {B : Type ι} {r : Result A}
    → ReturnsUnless B P r
    → ReturnsUnless B P (minus_one r)
Unless-minus_one (yields h) = yields h
Unless-minus_one (declines n) = declines 1
Unless-minus_one (breaks b) = breaks b

blank-Returns : (m : ℕ) → Returns HasDistinct (blank m)
unfolding blank
blank-Returns m =
    Returns-if (m == 0x02) (λ _. gives tt)
      λ _.
        Returns-if (m == 0x01) (λ _. gives tt)
          λ _.
            Returns-if (m == 0x00) (λ _. gives tt)
              λ _.
                Returns-if (m == 0x05) (λ _. gives tt)
                  λ _.
                    Returns-if (m == 0x06) (λ _. gives tt)
                      λ _.
                        Returns-if (m == 0x03) (λ _. gives (tt, tt))
                          λ _.
                            Returns-if (m == 0x08) (λ _. gives (tt, tt))
                              λ _.
                                Returns-if (m == 0x0a) (λ _. gives tt)
                                  λ _. Returns-if (m == 0x0b) (λ _. gives tt) (λ _. refuses 2)

pub discovery-Returns : (d : List ℕ) → Returns (λ v. HasDistinct v × (1 ≤ length d)) (discovery d)
unfolding discovery
discovery-Returns [] = refuses 1
discovery-Returns (m ∷ d) =
    Returns-if (rtmp_amf0_is_object_eof (m ∷ d)) (λ _. gives (tt, omega arith))
      (λ _. Returns-map (blank-Returns m) λ v h. (h, omega arith))

any_by-Returns :
    (r : RtmpAmf0Any → List ℕ → Read RtmpAmf0Any) (d : List ℕ)
    → ((v : RtmpAmf0Any) → HasDistinct v → 1 ≤ length d → Returns (Done d) (r v d))
    → Returns (Done d) (read_any_by r d)
unfolding read_any_by
any_by-Returns r d k =
    Returns->>= (Returns-minus_one (discovery-Returns d))
      λ v (h, long). Returns-minus_one (k v h long)

-- One induction on the fuel: each nested value starts at least one byte further on.
mutual
  unfolding read_once

  once-Returns :
      (f : ℕ) (v : RtmpAmf0Any) (d : List ℕ)
      → HasDistinct v
      → 1 ≤ length d
      → length d < f
      → Returns (Done d) (read_once f v d)
  once-Returns zero v d h long lt = absurd (omega arith)
  once-Returns (suc f) (string s) d h long lt =
      Returns->>= (string-Returns d s) λ (n, s') w. gives (w.0, w.1, tt)
  once-Returns (suc f) (boolean b) d h long lt =
      Returns->>= (boolean-Returns d) λ (n, b') w. gives (w.0, w.1, tt)
  once-Returns (suc f) (number k) d h long lt =
      Returns->>= (number-Returns d) λ (n, k') w. gives (w.0, w.1, tt)
  once-Returns (suc f) null d h long lt = Returns->>= (null-Returns d) λ n w. gives (w.0, w.1, tt)
  once-Returns (suc f) undefined d h long lt =
      Returns->>= (undefined-Returns d) λ n w. gives (w.0, w.1, tt)
  once-Returns (suc f) (object ps) d h long lt =
      let size = length-drop 1 d in
      Returns-if (ltb (length d) 1) (λ _. gives (omega arith, long, h))
        λ _. Returns->>= (marker-Returns 3 2 d long) λ _ _.
          Returns->>= (properties-Returns f ps (drop 1 d) h (omega (arith, size)))
            λ (n, ps') w. gives (omega arith, omega (arith, w.0, size, long), (w.1, w.2))
  once-Returns (suc f) object_eof d h long lt =
      Returns->>= (object_eof-Returns d) λ n w. gives (w.0, w.1, tt)
  once-Returns (suc f) (ecma_array c ps) d h long lt =
      let size = length-drop 5 d in
      Returns-if (ltb (length d) 5) (λ _. refuses 1)
        λ enough.
          let five = ltb→le (length d) 5 enough in
          Returns->>= (marker-Returns 8 2 d long) λ _ _.
            Returns->>= (int32-Returns (drop 1 d) (omega (arith, length-drop 1 d))) λ count _.
              Returns->>= (properties-Returns f ps (drop 5 d) h (omega (arith, size)))
                λ (n, ps') w. gives (omega arith, omega (arith, w.0, size, five), (w.1, w.2))
  once-Returns (suc f) (strict_array c xs) d h long lt =
      let size = length-drop 5 d in
      Returns-if (ltb (length d) 5) (λ _. refuses 1)
        λ enough.
          let five = ltb→le (length d) 5 enough in
          Returns->>= (marker-Returns 10 2 d long) λ _ _.
            Returns->>= (int32-Returns (drop 1 d) (omega (arith, length-drop 1 d))) λ count _.
              Returns->>= (elements-Returns f (rounds count) xs (drop 5 d) h (omega (arith, size)))
                λ (n, xs') w. gives (omega arith, omega (arith, w.0, size, five), w.1)
  once-Returns (suc f) (date k z) d h long lt =
      Returns->>= (date-Returns d) λ (n, (k', z')) w. gives (w.0, w.1, tt)

  properties-Returns :
      (f : ℕ) (ps : Properties) (d : List ℕ)
      → IsDistinct ps × HasDistinctProperties ps
      → length d < f
      → Returns (DoneProperties d) (properties_once f ps d)
  properties-Returns zero ps d h lt = absurd (omega arith)
  properties-Returns (suc f) ps d h lt =
      Returns-if (length d == 0) (λ _. gives (omega arith, h.0, h.1))
        λ _.
          Returns-if (rtmp_amf0_is_object_eof d)
            (λ _. Returns->>= (object_eof-Returns d) λ n w. gives (w.1, h.0, h.1))
            λ _. Returns->>= (utf8-Returns d []) λ (a, name) wa.
              Returns->>=
                (any_by-Returns _ (drop a d) λ v hv long.
                  once-Returns f v (drop a d) hv long (omega (arith, length-drop a d, wa)))
                λ (b, value) wb.
                  Returns->>=
                    (properties-Returns f (set name (some value) ps) (drop (a + b) d)
                      (
                        set-IsDistinct name (some value) ps h.0,
                        HasDistinct-set name value ps wb.2 h.1,
                      )
                      (omega (arith, length-drop (a + b) d, wa)))
                    λ (n, ps') w.
                      gives (
                        omega (arith, w.0, wa, wb, length-drop a d, length-drop (a + b) d),
                        w.1,
                        w.2,
                      )

  elements-Returns :
      (f left : ℕ) (xs : Elements) (d : List ℕ)
      → HasDistinctElements xs
      → length d + 1 < f
      → Returns (DoneElements d) (elements_once f left xs d)
  elements-Returns zero left xs d h lt = absurd (omega arith)
  elements-Returns (suc f) left xs d h lt =
      Returns-if (left == 0 || length d == 0) (λ _. gives (omega arith, h))
        λ _.
          Returns->>= (any_by-Returns _ d λ v hv long. once-Returns f v d hv long (omega arith))
            λ (a, value) wa.
              Returns->>=
                (elements-Returns f (left - 1) (push_back xs value) (drop a d)
                  (HasDistinct-push_back_element xs value wa.2 h)
                  (omega (arith, length-drop a d, wa)))
                λ (n, xs') w. gives (omega (arith, w.0, wa, length-drop a d), w.1)

-- The call deletes an object twice, where without the second delete it would answer with an error.
abbrev pub IsTwice : ℕ → RtmpAmf0Any → List ℕ → Type 0
IsTwice f v d = (read f v d ≡ fault) × (n : ℕ) × (read_once f v d ≡ err n)

agreed :
    {P : ℕ × RtmpAmf0Any → Type 0} {r r' : Read RtmpAmf0Any}
    → Agrees r r'
    → Returns P r'
    → ReturnsUnless ((r ≡ fault) × (n : ℕ) × (r' ≡ err n)) P r
agreed (same r) h = Unless-of h
agreed (twice n) h = breaks (refl, n, refl)

pub read-Returns :
    (f : ℕ) (v : RtmpAmf0Any) (d : List ℕ)
    → HasDistinct v
    → 1 ≤ length d
    → length d < f
    → ReturnsUnless (IsTwice f v d) (Done d) (read f v d)
read-Returns f v d h long lt = agreed (read-Agrees f v d) (once-Returns f v d h long lt)

-- On any bytes at all `rtmp_amf0_read_any` comes back, in its fuel and without an access outside the
-- buffer: with an error, or with a value behind which it stops inside the buffer, and in whose tables
-- no key stands twice; unless it deletes an object twice, and then it would have answered with an
-- error without the second delete.
pub read_any-Returns :
    (d : List ℕ)
    → ReturnsUnless
        ((rtmp_amf0_read_any d ≡ fault)
          × (n : ℕ) × (read_any_by (λ v e. read_once (suc (length d)) v e) d ≡ err n))
        (Done d)
        (rtmp_amf0_read_any d)
unfolding rtmp_amf0_read_any
read_any-Returns d =
    agreed
      (any-Agrees (λ v e. read (suc (length d)) v e) (λ v e. read_once (suc (length d)) v e) d
        λ v. read-Agrees (suc (length d)) v d)
      (any_by-Returns _ d λ v h long. once-Returns (suc (length d)) v d h long (omega arith))
