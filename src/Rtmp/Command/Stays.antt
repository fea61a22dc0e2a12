-- ===== src/Rtmp/Command/Stays.antt =====
-- The calls that the methods decode of net/app_protocol/rtmp/rtmp_stack_packet.cc make, on any bytes.
use librtmp_client.Prelude.{
  ReturnsUnless, yields, declines, Unless->>=, Unless-of, Unless-if, Unless-map, drop-drop, sym, ap,
  ◌∙◌, ℕ, suc, ◌+◌, ◌≤◌, Bool, List, [], ◌∷◌, ◌==◌, length, drop, length-drop, arith, Returns-map,
}
use librtmp_client.Amf0.Value.{
  RtmpAmf0Any, Properties, object, ecma_array, boolean, number, string, null, undefined, object_eof,
  strict_array, date,
}
use librtmp_client.Amf0.Read.{
  rtmp_amf0_read_number, rtmp_amf0_read_boolean, rtmp_amf0_read_any, read_any_by, read,
}
use librtmp_client.Amf0.Reader.{
  IsTwice, Unless-minus_one, discovery-Returns, read-Returns, Returns-minus_one, HasDistinct,
  HasDistinctProperties,
}
use librtmp_client.Amf0.Reader.Once.{read_once}
use librtmp_client.Amf0.Reader.Leaves.{
  string-Returns, number-Returns, boolean-Returns, null-Returns, undefined-Returns,
}
use librtmp_client.Amf0.Hashtable.Laws.{IsDistinct}
use librtmp_client.Rtmp.Command.Reader.{Reader, ◌>>=◌, pure, check, if_more, skip, or_minus_one}
use librtmp_client.Rtmp.Command.Decode.{
  read_string, read_null, read_undefined, read_object, read_discovered, reset_of,
}

-- Somewhere in the bytes the `read` of a value deletes an object twice, and would answer with an error
-- without the second delete.
abbrev pub Broken : List ℕ → Type 0
Broken d = (k : ℕ) × (f : ℕ) × (v : RtmpAmf0Any) × IsTwice f v (drop k d)

pub Broken-drop : (n : ℕ) (d : List ℕ) → Broken (drop n d) → Broken d
Broken-drop n d (k, f, v, (deleted, e, failed)) =
    let same = drop-drop n k (n + k) d (omega arith) in
    (n + k, f, v, (ap (read f v) (sym same) ∙ deleted, e, ap (read_once f v) (sym same) ∙ failed))

-- The reader comes back, and is then at most `over` bytes behind the end of the buffer, unless it
-- deletes an object twice.
abbrev pub Stays : {A : Type 0} → ℕ → Reader A → Type 0
Stays {A} over r =
    (d : List ℕ) → ReturnsUnless (Broken d) (λ (p : ℕ × A). p.0 ≤ length d + over) (r d)

pub then_Stays :
    {A B : Type 0} (over : ℕ) (r : Reader A) (k : A → Reader B)
    → Stays 0 r
    → ((a : A) → Stays over (k a))
    → Stays over (r >>= k)
then_Stays over r k h hk d =
    unfold ◌>>=◌ in
    Unless->>= (h d) λ (n, a) w.
      Unless->>= (Unless-map (hk a (drop n d)) (Broken-drop n d) λ _ w'. w')
        λ (m, b) w'. yields (omega (arith, w, w', length-drop n d))

pub pure-Stays : {A : Type 0} (over : ℕ) (a : A) → Stays over (pure a)
pure-Stays over a d = unfold pure in yields {a = (0, a)} (omega arith)

pub check-Stays : (b : Bool) (n : ℕ) → Stays 0 (check b n)
check-Stays b n d = unfold check in Unless-if b (λ _. yields (omega arith)) (λ _. declines n)

pub if_more-Stays : {A : Type 0} (old : A) (r : Reader A) → Stays 0 r → Stays 0 (if_more old r)
if_more-Stays old r h d =
    unfold if_more in Unless-if (length d == 0) (λ _. yields (omega arith)) (λ _. h d)

pub or_minus_one-Stays : {A : Type 0} (r : Reader A) → Stays 0 r → Stays 0 (or_minus_one r)
or_minus_one-Stays r h d = unfold or_minus_one in Unless-minus_one (h d)

pub string-Stays : (value : List ℕ) → Stays 0 (read_string value)
string-Stays value d =
    unfold read_string in
    Unless-of (Returns-map (string-Returns d value) λ (n, s) w. omega (arith, w))

pub number-Stays : Stays 0 rtmp_amf0_read_number
number-Stays d = Unless-of (Returns-map (number-Returns d) λ (n, s) w. omega (arith, w))

pub boolean-Stays : Stays 0 rtmp_amf0_read_boolean
boolean-Stays d = Unless-of (Returns-map (boolean-Returns d) λ (n, s) w. omega (arith, w))

pub null-Stays : Stays 0 read_null
null-Stays d =
    unfold read_null skip in
    Unless->>= (Unless-of (null-Returns d)) λ n w. yields (omega (arith, w))

pub undefined-Stays : Stays 0 read_undefined
undefined-Stays d =
    unfold read_undefined skip in
    Unless->>= (Unless-of (undefined-Returns d)) λ n w. yields (omega (arith, w))

-- The object that `discovery` has made.
read_Stays :
    (fresh : RtmpAmf0Any) (d : List ℕ)
    → HasDistinct fresh
    → 1 ≤ length d
    → ReturnsUnless
        (Broken d)
        (λ (p : ℕ × RtmpAmf0Any). p.0 ≤ length d + 0)
        (read (suc (length d)) fresh d)
read_Stays fresh d h long =
    Unless-map (read-Returns (suc (length d)) fresh d h long (omega arith))
      (λ b. (0, suc (length d), fresh, b)) λ (n, v) w. omega (arith, w.1)

pub any-Stays : Stays 0 rtmp_amf0_read_any
any-Stays d =
    unfold rtmp_amf0_read_any read_any_by in
    Unless->>= (Unless-of (Returns-minus_one (discovery-Returns d)))
      λ fresh (h, long). Unless-minus_one (read_Stays fresh d h long)

pub discovered-Stays : Stays 0 read_discovered
discovered-Stays d =
    unfold read_discovered in
    Unless->>= (Unless-of (discovery-Returns d)) λ fresh (h, long). read_Stays fresh d h long

-- In the table no key stands twice, nor in the tables in it.
abbrev pub IsTable : Properties → Type 0
IsTable ps = IsDistinct ps × HasDistinctProperties ps

-- Nothing left: the object counts one byte all the same.
pub object-Stays : (ps : Properties) → IsTable ps → Stays 1 (read_object ps)
object-Stays ps h [] = unfold read_object read in yields {a = (1, ps)} (omega arith)
object-Stays ps h (x ∷ d) =
    unfold read_object in
    Unless->>=
      (Unless-map (read-Returns _ (object ps) (x ∷ d) h (omega arith) (omega arith))
        (λ b. (0, _, object ps, b)) λ _ w. w)
      λ (n, v) w. yields (omega (arith, w.1))

pub reset-Stays : (v : RtmpAmf0Any) → Stays 0 (reset_of v)
reset-Stays (boolean b) d = unfold reset_of in pure-Stays 0 b d
reset-Stays (number n) d = unfold reset_of in pure-Stays 0 _ d
reset-Stays (string s) d = unfold reset_of in declines 2
reset-Stays null d = unfold reset_of in declines 2
reset-Stays undefined d = unfold reset_of in declines 2
reset-Stays (object ps) d = unfold reset_of in declines 2
reset-Stays object_eof d = unfold reset_of in declines 2
reset-Stays (ecma_array n ps) d = unfold reset_of in declines 2
reset-Stays (strict_array n xs) d = unfold reset_of in declines 2
reset-Stays (date x z) d = unfold reset_of in declines 2

-- A command name, the test of it, and a number.
pub named_Stays :
    {A : Type 0} (over : ℕ) (name : List ℕ) (test : List ℕ → Bool) (k : List ℕ → ℕ → Reader A)
    → ((name' : List ℕ) (n : ℕ) → Stays over (k name' n))
    → Stays over (do
      name' ← read_string name
      _ ← check (test name') 2
      n ← rtmp_amf0_read_number
      k name' n)
named_Stays over name test k h = then_Stays over _ _ (string-Stays name) λ name'.
    then_Stays over _ _ (check-Stays (test name') 2)
      λ _. then_Stays over _ _ number-Stays λ n. h name' n
