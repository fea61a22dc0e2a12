-- ===== src/DataBuf/Ring/Contents.antt =====
-- The abstract view of DataRingBuf of net/DataBuf.cc: a bounded queue of bytes.
use librtmp_client.Prelude.{
  ℕ, ◌+◌, ◌-◌, ◌≤◌, ◌≡◌, ap, List, [], ◌++◌, ltb, if◌then◌else◌, length, take, drop, arith,
  length-append, length-take, length-drop, length-replicate, drop_all, replicate, Bool-cases, inl,
  inr, ltb→lt, le→ltb, ◌==◌,
}
use librtmp_client.DataBuf.Ring.{DataRingBuf, init, fresh, clear, max_data_len}

-- The bytes not yet read, oldest first. Equal positions mean a full buffer.
abbrev pub contents : DataRingBuf → List ℕ
contents b =
    if ltb b.r_pos b.w_pos
    then drop b.r_pos (take b.w_pos b.buf)
    else drop b.r_pos b.buf ++ take b.w_pos b.buf

-- An object and the answer of a call, seen abstractly.
abbrev pub view {ℓ} : {A : Type ℓ} → DataRingBuf × A → List ℕ × A
view (b, answer) = (contents b, answer)

-- The reader is never at the start of the memory: there it would be mistaken for a full buffer.
pub record IsValid (b : DataRingBuf) : Type 0 where
  pub sized : length b.buf ≡ b.length_
  pub reader_pos : 1 ≤ b.r_pos
  pub reader : b.r_pos ≤ b.length_
  pub writer : b.w_pos ≤ b.length_

pub fresh-IsValid : (n : ℕ) → 1 ≤ n → IsValid (fresh n)
unfolding fresh
fresh-IsValid n h = omega (arith, length-replicate {0} n (let z : ℕ = 0 in z))

pub contents-fresh : (n : ℕ) → contents (fresh n) ≡ []
unfolding fresh
contents-fresh n = rw (le→ltb n 0 (omega arith)) (
    ap (λ t. t ++ [])
      (drop_all n (replicate n 0) (omega (arith, length-replicate {0} n (let z : ℕ = 0 in z)))))

pub init-IsValid : (size : ℕ) → IsValid (init size)
unfolding init
init-IsValid size = ground (arith, fresh-IsValid size, fresh-IsValid max_data_len)

pub contents-init : (size : ℕ) → contents (init size) ≡ []
unfolding init
contents-init size = elim (Bool-cases (size == 0)) [
  | inl e ↦ rw e (contents-fresh max_data_len)
  | inr e ↦ rw e (contents-fresh size)
]

pub length-contents :
    (b : DataRingBuf)
    → IsValid b
    → length (contents b)
      ≡ (if ltb b.r_pos b.w_pos then b.w_pos - b.r_pos else b.length_ - b.r_pos + b.w_pos)
length-contents b v = elim (Bool-cases (ltb b.r_pos b.w_pos)) [
  | inl e ↦ rw e (
      omega (
        arith,
        v,
        length-drop b.r_pos (take b.w_pos b.buf),
        length-take b.w_pos b.buf,
        ltb→lt _ _ e,
      ))
  | inr e ↦ rw e (
      omega (
        arith,
        v,
        length-append (drop b.r_pos b.buf) (take b.w_pos b.buf),
        length-drop b.r_pos b.buf,
        length-take b.w_pos b.buf,
      ))
]

pub contents-clear : (b : DataRingBuf) → IsValid b → contents (clear b) ≡ []
unfolding clear
contents-clear b v =
    rw (le→ltb b.length_ 0 (omega arith))
      (ap (λ t. t ++ []) (drop_all b.length_ b.buf (omega (arith, v))))

pub clear-IsValid : (b : DataRingBuf) → IsValid b → IsValid (clear b)
unfolding clear
clear-IsValid b v = ground (arith, v)
