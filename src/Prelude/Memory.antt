-- ===== src/Prelude/Memory.antt =====
-- `memcpy` into the middle of a buffer, and what the parts of the buffer are afterwards.
use Prim.Native.Nat.{ℕ, ◌+◌, ◌-◌, ◌≤◌}
use mathlib.Core.Path.{◌≡◌, refl, sym, ap, ◌∙◌}
use mathlib.Core.List.{List, ◌++◌}
use native.Mathlib.Omega.{arith}
use librtmp_client.Prelude.Lists.{
  length, take, drop, length-append, length-take, length-drop, take-append_le, take-append,
  drop-append, drop-drop, take-take, append_assoc,
}

module _ {ℓ} {A : Type ℓ} where
  -- `memcpy(dst + pos, src, length src)`
  unfoldable pub memcpy : List A → ℕ → List A → List A
  memcpy dst pos src = take pos dst ++ (src ++ drop (pos + length src) dst)

module _ {ℓ} {A : Type ℓ} (dst : List A) (pos : ℕ) (src : List A) where
  pub length-memcpy : pos + length src ≤ length dst → length (memcpy dst pos src) ≡ length dst
  unfolding memcpy
  length-memcpy h = omega (
    arith,
    length-append (take pos dst) (src ++ drop (pos + length src) dst),
    length-append src (drop (pos + length src) dst),
    length-take pos dst,
    length-drop (pos + length src) dst,
  )

  -- What lies before the write is unchanged.
  pub take-memcpy_le :
      (k : ℕ) → k ≤ pos → pos ≤ length dst → take k (memcpy dst pos src) ≡ take k dst
  unfolding memcpy
  take-memcpy_le k h hp =
      take-append_le k (take pos dst) _ (omega (arith, length-take pos dst)) ∙ take-take k pos dst h

  -- Up to its end, the buffer is what was there before followed by what was written.
  pub take-memcpy_end :
      (k : ℕ)
      → k ≡ pos + length src
      → pos ≤ length dst
      → take k (memcpy dst pos src) ≡ take pos dst ++ src
  unfolding memcpy
  take-memcpy_end k h hp = rw (← append_assoc (take pos dst) src (drop (pos + length src) dst)) (
      ap (λ (j : ℕ). take j ((take pos dst ++ src) ++ drop (pos + length src) dst)) size
      ∙ take-append (take pos dst ++ src) (drop (pos + length src) dst))
    where
      size : k ≡ length (take pos dst ++ src)
      size = omega (arith, length-append (take pos dst) src, length-take pos dst)

  -- What lies behind the write is unchanged.
  pub drop-memcpy_ge :
      (k : ℕ) → pos + length src ≤ k → pos ≤ length dst → drop k (memcpy dst pos src) ≡ drop k dst
  unfolding memcpy
  drop-memcpy_ge k h hp =
      let n = pos + length src in
      sym (drop-drop n (k - n) k (memcpy dst pos src) (omega arith))
      ∙ ap (drop (k - n)) (tail_part n refl)
      ∙ drop-drop n (k - n) k dst (omega arith)
    where
      tail_part : (n : ℕ) → n ≡ pos + length src → drop n (memcpy dst pos src) ≡ drop n dst
      tail_part n e =
          rw (e, ← append_assoc (take pos dst) src (drop (pos + length src) dst))
            (ap (λ (j : ℕ). drop j ((take pos dst ++ src) ++ drop (pos + length src) dst))
                (let f : pos + length src ≡ length (take pos dst ++ src) =
                    omega (arith, length-append (take pos dst) src, length-take pos dst) in
                  f)
              ∙ drop-append (take pos dst ++ src) (drop (pos + length src) dst))
