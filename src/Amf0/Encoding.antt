-- ===== src/Amf0/Encoding.antt =====
-- The wire format that rtmp_stack_amf0.cc writes, and the writers against it.
use librtmp_client.Prelude.{
  ℕ, ◌+◌, ◌-◌, ◌≤◌, ◌<◌, ◌^◌, ◌%◌, ◌≡◌, refl, sym, true, false, List, [], ◌∷◌, ◌++◌, ltb, leb,
  if◌then◌else◌, length, arith, length-append, take_all, Bool-cases, inl, inr, leb→le, le→leb,
  lt→leb, Result, ok, err, ◌>>=◌,
}
use librtmp_client.NetIo.{write_int8, write_int16, write_int32, write_int64}
use librtmp_client.Amf0.Value.{
  RtmpAmf0Any, Properties, Elements, string, boolean, number, null, undefined, object, object_eof,
  ecma_array, strict_array, date, no_properties, property, no_elements, element, total_size,
  total_properties, total_elements, size_utf8,
}
use librtmp_client.Amf0.Write.{rtmp_amf0_write_utf8, write, write_properties, write_elements}

-- A string whose length an int16_t holds.
abbrev pub IsShort : List ℕ → Type 0
IsShort s = length s < 2 ^ 15

unfoldable pub encode_utf8 : List ℕ → List ℕ
encode_utf8 s = write_int16 (length s) ++ s

unfoldable mutual
  unfolding encode_utf8

  pub encode : RtmpAmf0Any → List ℕ
  encode (string s) = 2 ∷ encode_utf8 s
  encode (boolean b) = 1 ∷ (if b then 1 else 0) ∷ []
  encode (number n) = 0 ∷ write_int64 n
  encode null = 5 ∷ []
  encode undefined = 6 ∷ []
  encode (object ps) = 3 ∷ encode_properties ps
  encode object_eof = 0 ∷ 0 ∷ 9 ∷ []
  encode (ecma_array n ps) = 8 ∷ (write_int32 n ++ encode_properties ps)
  encode (strict_array n xs) = 10 ∷ (write_int32 n ++ encode_elements xs)
  encode (date d z) = 11 ∷ (write_int64 d ++ write_int16 z)

  pub encode_properties : Properties → List ℕ
  encode_properties no_properties = 0 ∷ 0 ∷ 9 ∷ []
  encode_properties (property k v ps) = encode_utf8 k ++ (encode v ++ encode_properties ps)

  pub encode_elements : Elements → List ℕ
  encode_elements no_elements = []
  encode_elements (element v xs) = encode v ++ encode_elements xs

-- Every string and key in the value is short.
abbrev mutual
  pub HasShort : RtmpAmf0Any → Type 0
  HasShort (string s) = IsShort s
  HasShort (object ps) = HasShortProperties ps
  HasShort (ecma_array n ps) = HasShortProperties ps
  HasShort (strict_array n xs) = HasShortElements xs
  HasShort _ = Unit {0}

  pub HasShortProperties : Properties → Type 0
  HasShortProperties no_properties = Unit {0}
  HasShortProperties (property k v ps) = IsShort k × HasShort v × HasShortProperties ps

  pub HasShortElements : Elements → Type 0
  HasShortElements no_elements = Unit {0}
  HasShortElements (element v xs) = HasShort v × HasShortElements xs

pub length-encode_utf8 : (s : List ℕ) → length (encode_utf8 s) ≡ size_utf8 s
unfolding encode_utf8 size_utf8 write_int16
length-encode_utf8 s = omega arith

mutual
  unfolding encode total_size write_int16 write_int32 write_int64

  pub length-encode : (v : RtmpAmf0Any) → length (encode v) ≡ total_size v
  length-encode (string s) = omega (arith, length-encode_utf8 s)
  length-encode (boolean b) = refl
  length-encode (number n) = refl
  length-encode null = refl
  length-encode undefined = refl
  length-encode (object ps) = omega (arith, length-encode_properties ps)
  length-encode object_eof = refl
  length-encode (ecma_array n ps) = omega (arith, length-encode_properties ps)
  length-encode (strict_array n xs) = omega (arith, length-encode_elements xs)
  length-encode (date d z) = refl

  pub length-encode_properties :
      (ps : Properties) → length (encode_properties ps) ≡ total_properties ps
  length-encode_properties no_properties = refl
  length-encode_properties (property k v ps) = omega (
    arith,
    length-append (encode_utf8 k) (encode v ++ encode_properties ps),
    length-append (encode v) (encode_properties ps),
    length-encode_utf8 k,
    length-encode v,
    length-encode_properties ps,
  )

  pub length-encode_elements : (xs : Elements) → length (encode_elements xs) ≡ total_elements xs
  length-encode_elements no_elements = refl
  length-encode_elements (element v xs) = omega (
    arith,
    length-append (encode v) (encode_elements xs),
    length-encode v,
    length-encode_elements xs,
  )

-- The answer of a writer of `bytes`, `size` of them, into `len` bytes of room.
abbrev pub fits : ℕ → ℕ → List ℕ → Result (List ℕ)
fits size len bytes = if leb size len then ok bytes else err 1

write_utf8_lem :
    (len : ℕ) (s : List ℕ)
    → IsShort s
    → rtmp_amf0_write_utf8 len s ≡ fits (size_utf8 s) len (encode_utf8 s)
unfolding rtmp_amf0_write_utf8 size_utf8 encode_utf8
write_utf8_lem len s h =
    let m : length s % 2 ^ 16 ≡ length s = omega arith in
    rw (m, lt→leb (2 ^ 15) (length s) h, take_all (length s) s (omega arith)) (ground arith)

leb-cases_fits :
    (size len : ℕ) (bytes : List ℕ)
    → (if ltb len size then err 1 else ok bytes) ≡ fits size len bytes
leb-cases_fits size len bytes = ground arith

-- A header of `n` bytes in front of what another writer answers.
header_fits :
    (n size len : ℕ) (header bytes : List ℕ)
    → (if ltb len n then err 1 else (fits size (len - n) bytes >>= λ w. ok (header ++ w)))
      ≡ fits (n + size) len (header ++ bytes)
header_fits n size len header bytes = ground arith

-- A writer of `a` bytes into room for `room`, and what is done after it: it is enough that the whole
-- does not fit where the first part does not, and to follow what comes after a first part that fits.
pub bind_fits :
    (a room total len : ℕ) (first whole : List ℕ) (f : List ℕ → Result (List ℕ))
    → (room < a → len < total)
    → (a ≤ room → f first ≡ fits total len whole)
    → (fits a room first >>= f) ≡ fits total len whole
bind_fits a room total len first whole f small next = elim (Bool-cases (leb a room)) [
  | inl e ↦ rw e (next (leb→le _ _ e))
  | inr e ↦ rw (e, lt→leb total len (small (ground (arith, e))))
]

mutual
  unfolding write encode total_size write_int8

  write-fits :
      (len : ℕ) (v : RtmpAmf0Any) → HasShort v → write len v ≡ fits (total_size v) len (encode v)
  write-fits len (string s) h = rw (write_utf8_lem (len - 1) s h) (header_fits 1 _ len (2 ∷ []) _)
  write-fits len (boolean true) h = leb-cases_fits _ len _
  write-fits len (boolean false) h = leb-cases_fits _ len _
  write-fits len (number n) h = leb-cases_fits _ len _
  write-fits len null h = leb-cases_fits _ len _
  write-fits len undefined h = leb-cases_fits _ len _
  write-fits len (object ps) h =
      rw (write_properties-fits (len - 1) ps h) (header_fits 1 _ len (3 ∷ []) _)
  write-fits len object_eof h = leb-cases_fits _ len _
  write-fits len (ecma_array n ps) h =
      rw (write_properties-fits (len - 5) ps h) (header_fits 5 _ len (8 ∷ write_int32 n) _)
  write-fits len (strict_array n xs) h =
      rw (write_elements-fits (len - 5) xs h) (header_fits 5 _ len (10 ∷ write_int32 n) _)
  write-fits len (date d z) h = leb-cases_fits _ len _

  write_properties-fits :
      (len : ℕ) (ps : Properties)
      → HasShortProperties ps
      → write_properties len ps ≡ fits (total_properties ps) len (encode_properties ps)
  write_properties-fits len no_properties h = ground arith
  write_properties-fits len (property k v ps) h =
      let la = length-encode_utf8 k in
      let lb = length-encode v in
      let room = len - length (encode_utf8 k) in
      rw (write_utf8_lem len k h.0) (
        bind_fits (size_utf8 k) len _ len _ _ _ (λ lt. omega arith)
          λ fit. rw (write-fits room v h.1) (
            bind_fits (total_size v) room _ len _ _ _ (λ lt. omega (arith, la, fit))
              λ fit'. rw (write_properties-fits (room - length (encode v)) ps h.2) (
                bind_fits (total_properties ps) (room - length (encode v)) _ len _ _ _
                  (λ lt. omega (arith, la, lb, fit, fit'))
                  λ fit''. sym (
                    rw (
                      le→leb _ len (
                        let g : size_utf8 k + total_size v + total_properties ps ≤ len =
                          omega (arith, la, lb, fit, fit', fit'') in
                        g))))))

  write_elements-fits :
      (len : ℕ) (xs : Elements)
      → HasShortElements xs
      → write_elements len xs ≡ fits (total_elements xs) len (encode_elements xs)
  write_elements-fits len no_elements h = ground arith
  write_elements-fits len (element v xs) h =
      let lb = length-encode v in
      rw (write-fits len v h.0) (elim (Bool-cases (leb (total_size v) len)) [
        | inl e ↦
            let fit = leb→le _ len e in
            rw (e, write_elements-fits (len - length (encode v)) xs h.1)
              (bind_fits (total_elements xs) (len - length (encode v)) _ len _ _ _
                (λ lt. omega (arith, lb, fit))
                λ fit'. sym (
                  rw (
                    le→leb _ len (
                      let g : total_size v + total_elements xs ≤ len =
                        omega (arith, lb, fit, fit') in
                      g))))
        | inr e ↦ rw (e, lt→leb (total_size v + total_elements xs) len (ground (arith, e)))
      ])

-- Where every string is below 32768 bytes, `write` succeeds exactly when there is room for
-- `total_size` bytes; it then writes the encoding, which has that size, and otherwise answers -1.
pub write-encode :
    (len : ℕ) (v : RtmpAmf0Any)
    → HasShort v
    → (write len v ≡ (if leb (total_size v) len then ok (encode v) else err 1))
      × (length (encode v) ≡ total_size v)
write-encode len v h = (write-fits len v h, length-encode v)
