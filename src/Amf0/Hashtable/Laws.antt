-- ===== src/Amf0/Hashtable/Laws.antt =====
-- UnSortedHashtable of net/app_protocol/rtmp/rtmp_stack_amf0.cc as a map that remembers the order of
-- its keys.
use librtmp_client.Prelude.{
  ℕ, ◌≡◌, refl, ◌∙◌, List, Option, none, some, arith, if◌then◌else◌, bytes_eq, bytes_eq→eq,
  bytes_eq_self, bytes_eq_comm, Bool-cases, inl, inr,
}
use librtmp_client.Amf0.Value.{RtmpAmf0Any, Properties, no_properties, property}
use librtmp_client.Amf0.Hashtable.{push_back, erase_first, set, get_property, remove}

abbrev pub IsAbsent : List ℕ → Properties → Type 0
IsAbsent key ps = get_property key ps ≡ none

-- No key stands twice.
abbrev pub IsDistinct : Properties → Type 0
IsDistinct no_properties = Unit {0}
IsDistinct (property k v ps) = IsAbsent k ps × IsDistinct ps

pub get_property-push_back :
    (j k : List ℕ) (v : RtmpAmf0Any) (ps : Properties)
    → get_property j (push_back ps k v) ≡ (elim (get_property j ps) [
      | some w ↦ some w
      | none ↦ if bytes_eq k j then some v else none
    ])
unfolding get_property push_back
get_property-push_back j k v no_properties = refl
get_property-push_back j k v (property i w ps) = ground (arith, get_property-push_back j k v ps)

pub erase_first_absent : (k : List ℕ) (ps : Properties) → IsAbsent k ps → erase_first k ps ≡ ps
unfolding erase_first get_property
erase_first_absent k no_properties h = refl
erase_first_absent k (property i w ps) h =
    ground (arith, h, bytes_eq_comm k i, erase_first_absent k ps)

pub get_property-erase_first :
    (j k : List ℕ) (ps : Properties)
    → IsDistinct ps
    → get_property j (erase_first k ps) ≡ (if bytes_eq k j then none else get_property j ps)
unfolding erase_first get_property
get_property-erase_first j k no_properties h = ground arith
get_property-erase_first j k (property i w ps) (absent, rest) = elim (Bool-cases (bytes_eq k i)) [
  | inl e ↦
      let same = bytes_eq→eq k i e in
      rw (e, same)
        (elim (Bool-cases (bytes_eq i j)) [
          | inl f ↦ rw f (rw (bytes_eq→eq i j f) at absent)
          | inr f ↦ rw f
        ])
  | inr e ↦ rw e (elim (Bool-cases (bytes_eq i j)) [
    | inl f ↦ rw (f, ← bytes_eq→eq i j f, e)
    | inr f ↦ rw f (get_property-erase_first j k ps rest)
  ])
]

IsAbsent-erase_first :
    (j k : List ℕ) (ps : Properties) → IsAbsent j ps → IsAbsent j (erase_first k ps)
unfolding erase_first get_property
IsAbsent-erase_first j k no_properties h = refl
IsAbsent-erase_first j k (property i w ps) h = ground (arith, h, IsAbsent-erase_first j k ps)

erase_first-IsDistinct :
    (k : List ℕ) (ps : Properties) → IsDistinct ps → IsDistinct (erase_first k ps)
unfolding erase_first
erase_first-IsDistinct k no_properties h = h
erase_first-IsDistinct k (property i w ps) (absent, rest) = elim (Bool-cases (bytes_eq k i)) [
  | inl e ↦ rw e rest
  | inr e ↦ rw e (IsAbsent-erase_first i k ps absent, erase_first-IsDistinct k ps rest)
]

pub push_back-IsDistinct :
    (k : List ℕ) (v : RtmpAmf0Any) (ps : Properties)
    → IsAbsent k ps
    → IsDistinct ps
    → IsDistinct (push_back ps k v)
unfolding push_back get_property
push_back-IsDistinct k v no_properties a d = (refl, tt)
push_back-IsDistinct k v (property i w ps) a (absent, rest) = elim (Bool-cases (bytes_eq i k)) [
  | inl e ↦ cc (rw e at a)
  | inr e ↦ (
    rw (get_property-push_back i k v ps, absent, bytes_eq_comm k i, e),
    push_back-IsDistinct k v ps (rw e at a) rest,
  )
]

erased-IsAbsent : (k : List ℕ) (ps : Properties) → IsDistinct ps → IsAbsent k (erase_first k ps)
erased-IsAbsent k ps d = get_property-erase_first k k ps d ∙ rw (bytes_eq_self k)

-- `set` keeps the keys distinct, whether it stores a value or erases.
pub set-IsDistinct :
    (k : List ℕ) (o : Option RtmpAmf0Any) (ps : Properties)
    → IsDistinct ps
    → IsDistinct (set k o ps)
unfolding set
set-IsDistinct k none ps d = erase_first-IsDistinct k ps d
set-IsDistinct k (some v) ps d =
    push_back-IsDistinct k v _ (erased-IsAbsent k ps d) (erase_first-IsDistinct k ps d)

-- Where the keys are distinct, `set` changes what is found under its key and nothing else.
pub get_property-set :
    (j k : List ℕ) (o : Option RtmpAmf0Any) (ps : Properties)
    → IsDistinct ps
    → get_property j (set k o ps) ≡ (if bytes_eq k j then o else get_property j ps)
unfolding set
get_property-set j k none ps d = get_property-erase_first j k ps d
get_property-set j k (some v) ps d =
    ground
      (arith, get_property-push_back j k v (erase_first k ps), get_property-erase_first j k ps d)

-- `remove` leaves nothing under its key, and everything else, whether or not the keys are distinct.
pub get_property-remove :
    (j k : List ℕ) (ps : Properties)
    → get_property j (remove k ps) ≡ (if bytes_eq k j then none else get_property j ps)
unfolding remove get_property
get_property-remove j k no_properties = ground arith
get_property-remove j k (property i w ps) = elim (Bool-cases (bytes_eq i k)) [
  | inl e ↦ rw (bytes_eq→eq i k e, bytes_eq_self k) (ground (arith, get_property-remove j k ps))
  | inr e ↦ rw e (elim (Bool-cases (bytes_eq i j)) [
    | inl f ↦ rw (f, ← bytes_eq→eq i j f, bytes_eq_comm k i, e)
    | inr f ↦ rw f (get_property-remove j k ps)
  ])
]
