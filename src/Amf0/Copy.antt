-- ===== src/Amf0/Copy.antt =====
-- The methods `copy` of rtmp_stack_amf0.cc, which make a deep copy.
use librtmp_client.Prelude.{
  ℕ, ◌≡◌, ◌≢◌, refl, sym, ap, List, [], ◌∷◌, ◌==◌, if◌then◌else◌, some, arith, All,
}
use librtmp_client.Amf0.Value.{
  RtmpAmf0Any, Properties, Elements, string, boolean, number, null, undefined, object, object_eof,
  ecma_array, strict_array, date, no_properties, property, no_elements, element,
}
use librtmp_client.Amf0.Hashtable
use librtmp_client.Amf0.Hashtable.{set}
use librtmp_client.Amf0.Hashtable.Laws.{IsDistinct}
use librtmp_client.Amf0.Read.{push_back}
use librtmp_client.Amf0.Reader.{HasDistinct, HasDistinctProperties, HasDistinctElements}
use librtmp_client.Amf0.RoundTrip.Tables.{
  append, append_elements, append-push_back, append_elements-push_back, append-nil,
  append_elements-nil, IsAbsent-append, set_absent,
}

-- What the constructor from a C string takes of `value.c_str()`: the bytes before the first 0.
unfoldable pub c_string : List ℕ → List ℕ
c_string [] = []
c_string (b ∷ s) = if b == 0 then [] else b ∷ c_string s

unfoldable mutual
  pub copy : RtmpAmf0Any → RtmpAmf0Any
  copy (string s) = string (c_string s)
  copy (boolean b) = boolean b
  copy (number n) = number n
  copy null = null
  copy undefined = undefined
  copy (object ps) = object (copy_properties ps no_properties)
  copy object_eof = object_eof
  copy (ecma_array n ps) = ecma_array n (copy_properties ps no_properties)
  copy (strict_array n xs) = strict_array n (copy_elements xs no_elements)
  copy (date d z) = date d z

  -- UnSortedHashtable::copy: the entries of `src` are set one by one.
  pub copy_properties : Properties → Properties → Properties
  copy_properties no_properties dst = dst
  copy_properties (property k v src) dst = copy_properties src (set k (some (copy v)) dst)

  pub copy_elements : Elements → Elements → Elements
  copy_elements no_elements dst = dst
  copy_elements (element v src) dst = copy_elements src (push_back dst (copy v))

-- No string value holds a 0 byte. Keys may: they are copied as std::strings.
abbrev mutual
  pub HasNoNul : RtmpAmf0Any → Type 0
  HasNoNul (string s) = All (λ b. b ≢ 0) s
  HasNoNul (object ps) = HasNoNulProperties ps
  HasNoNul (ecma_array n ps) = HasNoNulProperties ps
  HasNoNul (strict_array n xs) = HasNoNulElements xs
  HasNoNul _ = Unit {0}

  pub HasNoNulProperties : Properties → Type 0
  HasNoNulProperties no_properties = Unit {0}
  HasNoNulProperties (property k v ps) = HasNoNul v × HasNoNulProperties ps

  pub HasNoNulElements : Elements → Type 0
  HasNoNulElements no_elements = Unit {0}
  HasNoNulElements (element v xs) = HasNoNul v × HasNoNulElements xs

c_string_lem : (s : List ℕ) → All (λ b. b ≢ 0) s → c_string s ≡ s
unfolding c_string
c_string_lem [] h = refl
c_string_lem (b ∷ s) h = ground (arith, h, c_string_lem s h.1)

mutual
  unfolding copy

  copy_same : (v : RtmpAmf0Any) → HasDistinct v → HasNoNul v → copy v ≡ v
  copy_same (string s) d h = ap string (c_string_lem s h)
  copy_same (boolean b) d h = refl
  copy_same (number n) d h = refl
  copy_same null d h = refl
  copy_same undefined d h = refl
  copy_same (object ps) d h = ap object (copy_properties_same ps no_properties d.0 d.1 h)
  copy_same object_eof d h = refl
  copy_same (ecma_array n ps) d h =
      ap (ecma_array n) (copy_properties_same ps no_properties d.0 d.1 h)
  copy_same (strict_array n xs) d h = ap (strict_array n) (copy_elements_same xs no_elements d h)
  copy_same (date k z) d h = refl

  copy_properties_same :
      (ps dst : Properties)
      → IsDistinct (append dst ps)
      → HasDistinctProperties ps
      → HasNoNulProperties ps
      → copy_properties ps dst ≡ append dst ps
  copy_properties_same no_properties dst d e h = sym (append-nil dst)
  copy_properties_same (property k v ps) dst d e h =
      rw
        (
          copy_same v e.0 h.0,
          set_absent k v dst (IsAbsent-append dst k v ps d),
          ← append-push_back dst k v ps,
        )
        (copy_properties_same ps (Hashtable.push_back dst k v) (rw (append-push_back dst k v ps) d)
          e.1 h.1)

  copy_elements_same :
      (xs dst : Elements)
      → HasDistinctElements xs
      → HasNoNulElements xs
      → copy_elements xs dst ≡ append_elements dst xs
  copy_elements_same no_elements dst e h = sym (append_elements-nil dst)
  copy_elements_same (element v xs) dst e h =
      rw (copy_same v e.0 h.0, ← append_elements-push_back dst v xs)
        (copy_elements_same xs (push_back dst v) e.1 h.1)

-- A deep copy is equal to the value, where no key stands twice and no string value holds a 0 byte.
pub copy_lem : (v : RtmpAmf0Any) → HasDistinct v → HasNoNul v → copy v ≡ v
copy_lem v d h = copy_same v d h
