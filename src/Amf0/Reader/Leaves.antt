-- ===== src/Amf0/Reader/Leaves.antt =====
-- The readers of rtmp_stack_amf0.cc for values without parts, on any input: they stay inside the buffer.
use librtmp_client.Prelude.{
  ℕ, ◌-◌, ◌≤◌, ◌^◌, List, [], ◌∷◌, ltb, leb, ◌==◌, ◌||◌, length, drop, arith, length-drop, ltb→le,
  Returns, gives, refuses, Returns->>=, Returns-if,
}
use librtmp_client.NetIo.{read_int8, read_int16, read_int32, read_int64}
use librtmp_client.Amf0.Read.{
  read_marker, rtmp_amf0_read_utf8, rtmp_amf0_read_string, rtmp_amf0_read_boolean,
  rtmp_amf0_read_number, rtmp_amf0_read_null, rtmp_amf0_read_undefined, read_object_eof, read_date,
}

abbrev Any {ℓ} : {A : Type ℓ} → A → Type 0
Any a = Unit {0}

int8-Returns : (d : List ℕ) → 1 ≤ length d → Returns Any (read_int8 d)
unfolding read_int8
int8-Returns [] h = absurd (omega arith)
int8-Returns (a ∷ d) h = gives tt

int16-Returns : (d : List ℕ) → 2 ≤ length d → Returns Any (read_int16 d)
unfolding read_int16
int16-Returns [] h = absurd (omega arith)
int16-Returns (a ∷ []) h = absurd (omega arith)
int16-Returns (a ∷ b ∷ d) h = gives tt

pub int32-Returns : (d : List ℕ) → 4 ≤ length d → Returns Any (read_int32 d)
unfolding read_int32
int32-Returns [] h = absurd (omega arith)
int32-Returns (a ∷ []) h = absurd (omega arith)
int32-Returns (a ∷ b ∷ []) h = absurd (omega arith)
int32-Returns (a ∷ b ∷ c ∷ []) h = absurd (omega arith)
int32-Returns (a ∷ b ∷ c ∷ e ∷ d) h = gives tt

int64-Returns : (d : List ℕ) → 8 ≤ length d → Returns Any (read_int64 d)
unfolding read_int64
int64-Returns [] h = absurd (omega arith)
int64-Returns (a ∷ []) h = absurd (omega arith)
int64-Returns (a ∷ b ∷ []) h = absurd (omega arith)
int64-Returns (a ∷ b ∷ c ∷ []) h = absurd (omega arith)
int64-Returns (a ∷ b ∷ c ∷ e ∷ []) h = absurd (omega arith)
int64-Returns (a ∷ b ∷ c ∷ e ∷ f ∷ []) h = absurd (omega arith)
int64-Returns (a ∷ b ∷ c ∷ e ∷ f ∷ g ∷ []) h = absurd (omega arith)
int64-Returns (a ∷ b ∷ c ∷ e ∷ f ∷ g ∷ i ∷ []) h = absurd (omega arith)
int64-Returns (a ∷ b ∷ c ∷ e ∷ f ∷ g ∷ i ∷ j ∷ d) h = gives tt

pub marker-Returns : (m n : ℕ) (d : List ℕ) → 1 ≤ length d → Returns Any (read_marker m n d)
unfolding read_marker
marker-Returns m n d h =
    Returns->>= (int8-Returns d h) λ k _. Returns-if (k == m) (λ _. gives tt) (λ _. refuses n)

-- A reader has moved on, and not past the end of the buffer.
abbrev pub Within {ℓ} : {A : Type ℓ} → List ℕ → ℕ × A → Type 0
Within d (n, a) = (1 ≤ n) × (n ≤ length d)

pub utf8-Returns :
    (d value : List ℕ)
    → Returns (λ (p : ℕ × List ℕ). (2 ≤ p.0) × (p.0 ≤ length d)) (rtmp_amf0_read_utf8 d value)
unfolding rtmp_amf0_read_utf8
utf8-Returns d value =
    Returns-if (ltb (length d) 2) (λ _. refuses 1)
      λ long. Returns->>= (int16-Returns d (ltb→le _ _ long)) λ n _.
        Returns-if (n == 0 || leb (2 ^ 15) n) (λ _. gives (omega (arith, ltb→le _ _ long)))
          λ _.
            Returns-if (ltb (length d - 2) n) (λ _. refuses 1)
              λ enough. gives (omega (arith, ltb→le _ _ long, ltb→le _ _ enough))

pub string-Returns : (d value : List ℕ) → Returns (Within d) (rtmp_amf0_read_string d value)
unfolding rtmp_amf0_read_string
string-Returns d value =
    Returns-if (ltb (length d) 1) (λ _. refuses 1)
      λ long. Returns->>= (marker-Returns 2 1 d (ltb→le _ _ long)) λ _ _.
        Returns->>= (utf8-Returns (drop 1 d) value)
          λ (n, s) h. gives (omega (arith, h, length-drop 1 d))

pub boolean-Returns : (d : List ℕ) → Returns (Within d) (rtmp_amf0_read_boolean d)
unfolding rtmp_amf0_read_boolean
boolean-Returns d =
    Returns-if (ltb (length d) 2) (λ _. refuses 1)
      λ long.
        let two = ltb→le (length d) 2 long in
        Returns->>= (marker-Returns 1 2 d (omega arith)) λ _ _.
          Returns->>= (int8-Returns (drop 1 d) (omega (arith, length-drop 1 d)))
            λ val _. gives (omega arith)

pub number-Returns : (d : List ℕ) → Returns (Within d) (rtmp_amf0_read_number d)
unfolding rtmp_amf0_read_number
number-Returns d =
    Returns-if (ltb (length d) 9) (λ _. refuses 1)
      λ long.
        let nine = ltb→le (length d) 9 long in
        Returns->>= (marker-Returns 0 1 d (omega arith)) λ _ _.
          Returns->>= (int64-Returns (drop 1 d) (omega (arith, length-drop 1 d)))
            λ val _. gives (omega arith)

abbrev Moved : List ℕ → ℕ → Type 0
Moved d n = (1 ≤ n) × (n ≤ length d)

pub null-Returns : (d : List ℕ) → Returns (Moved d) (rtmp_amf0_read_null d)
unfolding rtmp_amf0_read_null
null-Returns d =
    Returns-if (ltb (length d) 1) (λ _. refuses 1)
      λ long.
        let one = ltb→le (length d) 1 long in
        Returns->>= (marker-Returns 5 2 d one) λ _ _. gives (omega arith)

pub undefined-Returns : (d : List ℕ) → Returns (Moved d) (rtmp_amf0_read_undefined d)
unfolding rtmp_amf0_read_undefined
undefined-Returns d =
    Returns-if (ltb (length d) 1) (λ _. refuses 1)
      λ long.
        let one = ltb→le (length d) 1 long in
        Returns->>= (marker-Returns 6 2 d one) λ _ _. gives (omega arith)

pub object_eof-Returns : (d : List ℕ) → Returns (Moved d) (read_object_eof d)
unfolding read_object_eof
object_eof-Returns d =
    Returns-if (ltb (length d) 3) (λ _. refuses 1)
      λ long.
        let three = ltb→le (length d) 3 long in
        Returns->>= (int16-Returns d (omega arith)) λ temp _.
          Returns-if (temp == 0)
            (λ _.
              Returns->>= (marker-Returns 9 2 (drop 2 d) (omega (arith, length-drop 2 d)))
                λ _ _. gives (omega arith))
            (λ _. refuses 2)

pub date-Returns : (d : List ℕ) → Returns (Within d) (read_date d)
unfolding read_date
date-Returns d =
    Returns-if (ltb (length d) 11) (λ _. refuses 1)
      λ long.
        let eleven = ltb→le (length d) 11 long in
        Returns->>= (marker-Returns 11 2 d (omega arith)) λ _ _.
          Returns->>= (int64-Returns (drop 1 d) (omega (arith, length-drop 1 d))) λ date_value _.
            Returns->>= (int16-Returns (drop 9 d) (omega (arith, length-drop 9 d)))
              λ time_zone _. gives (omega arith)
