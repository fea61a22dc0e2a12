-- ===== src/Prelude/Bits.antt =====
-- Masks on one byte as arithmetic: each is a table, checked by evaluation.
use Prim.Native.Nat.{ℕ, zero, suc, ◌+◌, ◌/◌, ◌%◌, ◌<◌, bit_and, bit_or}
use mathlib.Core.Path.{◌≡◌, refl}
use mathlib.Core.Bool.{Bool, true, ◌&&◌}
use native.Mathlib.Omega.{arith}
use librtmp_client.Prelude.Tests.{◌==◌, ==→eq}

-- `p` holds of every number below `n`.
holds_below : ℕ → (ℕ → Bool) → Bool
holds_below zero p = true
holds_below (suc n) p = p n && holds_below n p

holds_below→holds : (n : ℕ) (p : ℕ → Bool) → holds_below n p ≡ true → (x : ℕ) → x < n → p x ≡ true
unfolding holds_below
holds_below→holds zero p h x lt = absurd (omega arith)
holds_below→holds (suc n) p h x lt = ground (arith, holds_below→holds n p (ground arith) x)

module _ (f g : ℕ → ℕ) (n : ℕ) where
  by_table : holds_below n (λ x. f x == g x) ≡ true → (x : ℕ) → x < n → f x ≡ g x
  by_table h x lt = ==→eq (f x) (g x) (holds_below→holds n (λ y. f y == g y) h x lt)

pub low_six_bits : (x : ℕ) → x < 256 → bit_and x 0x3f ≡ x % 64
unfolding holds_below
low_six_bits = by_table _ _ 256 refl

-- The two low bits have nothing at bit 6 and above.
pub low_two_bits_high : (x : ℕ) → x < 256 → bit_and x 0x03 / 64 ≡ 0
unfolding holds_below
low_two_bits_high = by_table _ _ 256 refl

pub set_0x00 : (x : ℕ) → x < 64 → bit_or 0x00 x ≡ x
unfolding holds_below
set_0x00 = by_table _ _ 64 refl

pub set_0x40 : (x : ℕ) → x < 64 → bit_or 0x40 x ≡ 64 + x
unfolding holds_below
set_0x40 = by_table _ _ 64 refl

pub set_0x80 : (x : ℕ) → x < 64 → bit_or 0x80 x ≡ 128 + x
unfolding holds_below
set_0x80 = by_table _ _ 64 refl

pub set_0xc0 : (x : ℕ) → x < 64 → bit_or 0xc0 x ≡ 192 + x
unfolding holds_below
set_0xc0 = by_table _ _ 64 refl
