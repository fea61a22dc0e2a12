-- ===== src/Rtmp/Media/Truncated.antt =====
-- The media packets of net/app_protocol/rtmp/rtmp_stack_packet.cc on bodies that end early.
use librtmp_client.Prelude.{
  ℕ, suc, ◌+◌, ◌-◌, ◌≤◌, ◌<◌, ◌^◌, ◌≡◌, refl, ap, ◌∙◌, false, List, [], ◌∷◌, ◌++◌, ◌==◌, length,
  take, drop, arith, length-take, min, take-append_ge, compare_cases, inl, inr, if-false, lt→leb,
  fault,
}
use librtmp_client.NetIo.{write_int32, read_int32}
use librtmp_client.NetIo.Laws.{read_int32-write_int32}
use librtmp_client.Rtmp.Media.{copy_out, copy_nalu, decode_nalus, decode_video}

read_int32_short : (d : List ℕ) → length d < 4 → read_int32 d ≡ fault
unfolding read_int32
read_int32_short [] h = refl
read_int32_short (a ∷ []) h = refl
read_int32_short (a ∷ b ∷ []) h = refl
read_int32_short (a ∷ b ∷ c ∷ []) h = refl
read_int32_short (a ∷ b ∷ c ∷ e ∷ d) h = absurd (omega arith)

copy_nalu_short : (n : ℕ) (d : List ℕ) → n < 2 ^ 31 → length d < n → copy_nalu n d ≡ fault
unfolding copy_nalu copy_out
copy_nalu_short n d h lt = if-false _ _ (lt→leb _ _ h) ∙ if-false _ _ (lt→leb n (length d) lt)

cut_length :
    (k : ℕ) (nalu : List ℕ)
    → length (take k (write_int32 (length nalu) ++ nalu)) ≡ min k (4 + length nalu)
unfolding write_int32
cut_length k nalu = length-take k (write_int32 (length nalu) ++ nalu) ∙ ap (min k) (omega arith)

not_empty : (d : List ℕ) → 1 ≤ length d → (length d == 0) ≡ false
not_empty d h = ground arith

-- The cut goes through the length.
short_length :
    (f : ℕ) (nalu : List ℕ) (k : ℕ)
    → 1 ≤ k
    → k < 4
    → decode_nalus (suc f) (take k (write_int32 (length nalu) ++ nalu)) ≡ fault
unfolding decode_nalus
short_length f nalu k pos lt =
    let size = cut_length k nalu in
    rw (
      not_empty (take k (write_int32 (length nalu) ++ nalu)) (omega (arith, size)),
      read_int32_short (take k (write_int32 (length nalu) ++ nalu)) (omega (arith, size)),
    )

-- The cut goes through the unit.
short_unit :
    (f : ℕ) (nalu : List ℕ) (k : ℕ)
    → length nalu < 2 ^ 31
    → k < length nalu
    → decode_nalus (suc f) (write_int32 (length nalu) ++ take k nalu) ≡ fault
unfolding decode_nalus
short_unit f nalu k h lt = rw (
  some_left (take k nalu),
  read_int32-write_int32 (length nalu) (take k nalu) (omega arith),
  behind (take k nalu),
  copy_nalu_short (length nalu) (take k nalu) h (omega (arith, length-take k nalu)),
)
  where
    some_left : (d : List ℕ) → (length (write_int32 (length nalu) ++ d) == 0) ≡ false
    some_left d = unfold write_int32 in ground arith

    behind : (d : List ℕ) → drop 4 (write_int32 (length nalu) ++ d) ≡ d
    behind d = unfold write_int32 in refl

cut_unit :
    (k : ℕ) (nalu : List ℕ)
    → 4 ≤ k
    → take k (write_int32 (length nalu) ++ nalu) ≡ write_int32 (length nalu) ++ take (k - 4) nalu
unfolding write_int32
cut_unit k nalu h = take-append_ge k (write_int32 (length nalu)) nalu (omega arith)

decode_nalus_short :
    (f : ℕ) (nalu : List ℕ) (k : ℕ)
    → length nalu < 2 ^ 31
    → 1 ≤ k
    → k < 4 + length nalu
    → decode_nalus (suc f) (take k (write_int32 (length nalu) ++ nalu)) ≡ fault
decode_nalus_short f nalu k h pos lt = elim (compare_cases k 4) [
  | inl small ↦ short_length f nalu k pos small
  | inr (inl e) ↦
      ap (decode_nalus (suc f)) (cut_unit k nalu (omega (arith, e)))
      ∙ short_unit f nalu (k - 4) h (omega (arith, e))
  | inr (inr big) ↦
      ap (decode_nalus (suc f)) (cut_unit k nalu (omega (arith, big)))
      ∙ short_unit f nalu (k - 4) h (omega (arith, big))
]

-- A video packet of one NAL unit whose body ends behind the first byte of the length and before the
-- end of the unit is read beyond the end of its body.
pub decode_video_short :
    (t val a b c d : ℕ) (nalu : List ℕ) (k : ℕ)
    → length nalu < 2 ^ 31
    → 1 ≤ k
    → k < 4 + length nalu
    → decode_video t (val ∷ a ∷ b ∷ c ∷ d ∷ take k (write_int32 (length nalu) ++ nalu)) ≡ fault
unfolding decode_video
decode_video_short t val a b c d nalu k h pos lt = rw (decode_nalus_short _ nalu k h pos lt) refl
