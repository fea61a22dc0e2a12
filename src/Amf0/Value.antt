-- ===== src/Amf0/Value.antt =====
-- The classes of net/app_protocol/rtmp/rtmp_stack_amf0.cc as one type of values. A std::string is
-- the list of its bytes; a double, an int64_t and an int16_t are their bit patterns.
use librtmp_client.Prelude.{ℕ, ◌+◌, Bool, List, ◌==◌, length}

-- `Properties` is the vector of an UnSortedHashtable, `Elements` that of a RtmpAmf0StrictArray.
-- ecma_array and strict_array hold `_count` before their vectors, date its value and time zone.
mutual
  pub data RtmpAmf0Any : Type 0 where
    string : List ℕ → RtmpAmf0Any
    boolean : Bool → RtmpAmf0Any
    number : ℕ → RtmpAmf0Any
    null : RtmpAmf0Any
    undefined : RtmpAmf0Any
    object : Properties → RtmpAmf0Any
    object_eof : RtmpAmf0Any
    ecma_array : ℕ → Properties → RtmpAmf0Any
    strict_array : ℕ → Elements → RtmpAmf0Any
    date : ℕ → ℕ → RtmpAmf0Any

  pub data Properties : Type 0 where
    no_properties : Properties
    property : List ℕ → RtmpAmf0Any → Properties → Properties

  pub data Elements : Type 0 where
    no_elements : Elements
    element : RtmpAmf0Any → Elements → Elements

-- The field `marker`, which the constructors of the classes set.
unfoldable pub marker : RtmpAmf0Any → ℕ
marker (number n) = 0x00
marker (boolean b) = 0x01
marker (string s) = 0x02
marker (object ps) = 0x03
marker null = 0x05
marker undefined = 0x06
marker (ecma_array n ps) = 0x08
marker object_eof = 0x09
marker (strict_array n xs) = 0x0a
marker (date d z) = 0x0b

unfoldable pub is_string : RtmpAmf0Any → Bool
unfolding marker
is_string v = marker v == 0x02

unfoldable pub is_number : RtmpAmf0Any → Bool
unfolding marker
is_number v = marker v == 0x00

unfoldable pub is_object : RtmpAmf0Any → Bool
unfolding marker
is_object v = marker v == 0x03

-- RtmpAmf0Size and the methods `total_size`.
unfoldable pub size_utf8 : List ℕ → ℕ
size_utf8 value = 2 + length value

unfoldable pub size_str : List ℕ → ℕ
unfolding size_utf8
size_str value = 1 + size_utf8 value

unfoldable mutual
  unfolding size_utf8 size_str

  pub total_size : RtmpAmf0Any → ℕ
  total_size (string s) = size_str s
  total_size (boolean b) = 1 + 1
  total_size (number n) = 1 + 8
  total_size null = 1
  total_size undefined = 1
  total_size (object ps) = 1 + total_properties ps
  total_size object_eof = 2 + 1
  total_size (ecma_array n ps) = 1 + 4 + total_properties ps
  total_size (strict_array n xs) = 1 + 4 + total_elements xs
  total_size (date d z) = 1 + 8 + 2

  -- The loop over a table's entries, and the end marker.
  pub total_properties : Properties → ℕ
  total_properties no_properties = 2 + 1
  total_properties (property k v ps) = size_utf8 k + total_size v + total_properties ps

  pub total_elements : Elements → ℕ
  total_elements no_elements = 0
  total_elements (element v xs) = total_size v + total_elements xs
