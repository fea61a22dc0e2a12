-- ===== src/Amf0/Hashtable.antt =====
-- class UnSortedHashtable of net/app_protocol/rtmp/rtmp_stack_amf0.cc: a vector of entries.
pub mod Laws
use librtmp_client.Prelude.{
  ℕ, zero, suc, Bool, true, false, List, Option, none, some, if◌then◌else◌, bytes_eq, Result, ok,
  fault,
}
use librtmp_client.Amf0.Value.{
  RtmpAmf0Any, Properties, no_properties, property, is_string, is_number,
}

unfoldable pub count : Properties → ℕ
count no_properties = 0
count (property k v ps) = suc (count ps)

-- `properties[index]`; an index outside the vector is undefined.
unfoldable pub key_at : Properties → ℕ → Result (List ℕ)
key_at no_properties i = fault
key_at (property k v ps) zero = ok k
key_at (property k v ps) (suc i) = key_at ps i

unfoldable pub value_at : Properties → ℕ → Result RtmpAmf0Any
value_at no_properties i = fault
value_at (property k v ps) zero = ok v
value_at (property k v ps) (suc i) = value_at ps i

-- `push_back`
unfoldable pub push_back : Properties → List ℕ → RtmpAmf0Any → Properties
push_back no_properties k v = property k v no_properties
push_back (property j w ps) k v = property j w (push_back ps k v)

-- The loop of `set`: the first entry of that key goes, and the loop breaks.
unfoldable pub erase_first : List ℕ → Properties → Properties
erase_first key no_properties = no_properties
erase_first key (property k v ps) = if bytes_eq key k then ps else property k v (erase_first key ps)

-- `none` is the null pointer, with which `set` only erases.
unfoldable pub set : List ℕ → Option RtmpAmf0Any → Properties → Properties
unfolding erase_first push_back
set key (some v) ps = push_back (erase_first key ps) key v
set key none ps = erase_first key ps

unfoldable pub get_property : List ℕ → Properties → Option RtmpAmf0Any
get_property name no_properties = none
get_property name (property k v ps) = if bytes_eq k name then some v else get_property name ps

-- The filter that `ensure_property_string` and `ensure_property_number` share.
unfoldable pub ensure : (RtmpAmf0Any → Bool) → Option RtmpAmf0Any → Option RtmpAmf0Any
ensure test none = none
ensure test (some v) = if test v then some v else none

unfoldable pub ensure_property_string : List ℕ → Properties → Option RtmpAmf0Any
unfolding ensure get_property is_string
ensure_property_string name ps = ensure is_string (get_property name ps)

unfoldable pub ensure_property_number : List ℕ → Properties → Option RtmpAmf0Any
unfolding ensure get_property is_number
ensure_property_number name ps = ensure is_number (get_property name ps)

-- `remove` erases every entry of that key.
unfoldable pub remove : List ℕ → Properties → Properties
remove name no_properties = no_properties
remove name (property k v ps) =
    let rest = remove name ps in if bytes_eq k name then rest else property k v rest
