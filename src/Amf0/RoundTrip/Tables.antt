-- ===== src/Amf0/RoundTrip/Tables.antt =====
-- Tables and vectors of rtmp_stack_amf0.cc under concatenation: a reader stores entry after entry
-- behind those that it has.
use librtmp_client.Prelude.{
  ℕ, ◌≡◌, refl, ap, false, List, some, arith, bytes_eq, bytes_eq_comm, Bool-cases, inl, inr,
}
use librtmp_client.Amf0.Value.{
  RtmpAmf0Any, Properties, Elements, no_properties, property, no_elements, element,
}
use librtmp_client.Amf0.Hashtable
use librtmp_client.Amf0.Hashtable.{set, get_property}
use librtmp_client.Amf0.Hashtable.Laws.{IsDistinct, IsAbsent, erase_first_absent}
use librtmp_client.Amf0.Read.{push_back}

abbrev pub append : Properties → Properties → Properties
append no_properties qs = qs
append (property k v ps) qs = property k v (append ps qs)

abbrev pub append_elements : Elements → Elements → Elements
append_elements no_elements ys = ys
append_elements (element v xs) ys = element v (append_elements xs ys)

pub append-push_back :
    (ps : Properties) (k : List ℕ) (v : RtmpAmf0Any) (qs : Properties)
    → append (Hashtable.push_back ps k v) qs ≡ append ps (property k v qs)
unfolding Hashtable.push_back
append-push_back no_properties k v qs = refl
append-push_back (property j w ps) k v qs = ap (property j w) (append-push_back ps k v qs)

pub append-nil : (ps : Properties) → append ps no_properties ≡ ps
append-nil no_properties = refl
append-nil (property j w ps) = ap (property j w) (append-nil ps)

pub append_elements-push_back :
    (xs : Elements) (v : RtmpAmf0Any) (ys : Elements)
    → append_elements (push_back xs v) ys ≡ append_elements xs (element v ys)
unfolding push_back
append_elements-push_back no_elements v ys = refl
append_elements-push_back (element w xs) v ys = ap (element w) (append_elements-push_back xs v ys)

pub append_elements-nil : (xs : Elements) → append_elements xs no_elements ≡ xs
append_elements-nil no_elements = refl
append_elements-nil (element w xs) = ap (element w) (append_elements-nil xs)

-- A key that stands behind a table in a distinct whole is not in that table.
differs :
    (i k : List ℕ) (v : RtmpAmf0Any) (ps qs : Properties)
    → IsAbsent i (append ps (property k v qs))
    → bytes_eq i k ≡ false
unfolding get_property
differs i k v no_properties qs h = ground (arith, h, bytes_eq_comm k i)
differs i k v (property j w ps) qs h = elim (Bool-cases (bytes_eq j i)) [
  | inl e ↦ cc (rw e at h)
  | inr e ↦ differs i k v ps qs (rw e at h)
]

pub IsAbsent-append :
    (ps : Properties) (k : List ℕ) (v : RtmpAmf0Any) (qs : Properties)
    → IsDistinct (append ps (property k v qs))
    → IsAbsent k ps
unfolding get_property
IsAbsent-append no_properties k v qs d = refl
IsAbsent-append (property i w ps) k v qs (absent, rest) =
    rw (differs i k v ps qs absent) (IsAbsent-append ps k v qs rest)

pub set_absent :
    (k : List ℕ) (v : RtmpAmf0Any) (ps : Properties)
    → IsAbsent k ps
    → set k (some v) ps ≡ Hashtable.push_back ps k v
unfolding set
set_absent k v ps h = rw (erase_first_absent k ps h)
