-- ===== src/DataBuf/Cache/Laws.antt =====
-- DataCacheBuf of net/DataBuf.cc is a queue of bytes without a bound.
use librtmp_client.Prelude.{
  ℕ, ◌+◌, ◌-◌, ◌≤◌, ◌≡◌, refl, sym, ap, ◌∙◌, true, false, List, ◌++◌, ltb, length, take, drop,
  arith, length-take, length-drop, length-replicate, length-memcpy, take-memcpy_end, memcpy,
  drop-take, Bool-cases, inl, inr, ltb→le, le→ltb, leb→le, drop-append, ok, fault, pos,
}
use librtmp_client.DataBuf.Cache.{
  DataCacheBuf, max_cache_len, sized, init, contents, require, push_data, pop_data,
}

pub record IsValid (b : DataCacheBuf) : Type 0 where
  pub allocated : length b.bytes ≡ b.nbytes
  pub within : b.length_ ≤ b.nbytes

length-sized : (n : ℕ) → length (sized n).bytes ≡ n
unfolding sized
length-sized n = length-replicate n 0

pub init-IsValid : IsValid init
unfolding init sized
init-IsValid = record { allocated = length-replicate {A = ℕ} max_cache_len 0; within = omega arith }

module _ (b : DataCacheBuf) (v : IsValid b) where
  -- Popping takes bytes off the front, exactly when there are so many, and keeps the invariant.
  pub pop_data_lem :
      (n : ℕ)
      → n ≤ b.length_
      → (b' : DataCacheBuf) × (pop_data b n ≡ ok b')
        × (contents b' ≡ drop n (contents b))
        × IsValid b'
  unfolding pop_data
  pop_data_lem n h =
      let kept = take (b.length_ - n) (drop n b.bytes) in
      let size : length kept ≡ b.length_ - n =
        omega (arith, v, length-take (b.length_ - n) (drop n b.bytes), length-drop n b.bytes) in
      (
        record b { bytes = memcpy b.bytes 0 kept; length_ = b.length_ - n },
        rw (le→ltb b.length_ n h),
        take-memcpy_end b.bytes 0 kept (b.length_ - n) (omega (arith, size)) (omega arith)
            ∙ sym (drop-take n b.length_ b.bytes),
        record {
          allocated = length-memcpy b.bytes 0 kept (omega (arith, v, size)) ∙ v.allocated;
          within = omega (arith, v);
        },
      )

module _ (b : DataCacheBuf) (v : IsValid b) where
  pub length-contents : length (contents b) ≡ b.length_
  length-contents = omega (arith, v, length-take b.length_ b.bytes)

  -- The reallocation of `push_data`, before the new bytes are copied in.
  temp : ℕ → List ℕ
  temp n = memcpy (sized n).bytes 0 (contents b)

  length-temp : (n : ℕ) → b.length_ ≤ n → length (temp n) ≡ n
  unfolding temp
  length-temp n h =
      length-memcpy (sized n).bytes 0 (contents b) (omega (arith, length-sized n, length-contents))
      ∙ length-sized n

  contents-temp : (n : ℕ) → b.length_ ≤ n → take b.length_ (temp n) ≡ contents b
  unfolding temp
  contents-temp n h =
      take-memcpy_end (sized n).bytes 0 (contents b) b.length_ (omega (arith, length-contents))
        (omega arith)

  -- Pushing appends to the bytes held, whether or not the memory has to grow, and keeps the
  -- invariant.
  pub push_data_lem :
      (d : List ℕ) → (contents (push_data b d) ≡ contents b ++ d) × IsValid (push_data b d)
  unfolding push_data
  push_data_lem d = elim (Bool-cases (ltb b.nbytes (b.length_ + length d))) [
    | inl e ↦
        let n = b.length_ + length d + 2048 in
        let size = length-temp n (omega arith) in
        rw e (
          unfold temp in
          (
            take-memcpy_end (temp n) b.length_ d _ refl (omega (arith, size))
                ∙ ap (λ s. s ++ d) (contents-temp n (omega arith)),
            record {
              allocated = length-memcpy (temp n) b.length_ d (omega (arith, size)) ∙ size;
              within = omega arith;
            },
          ))
    | inr e ↦ rw e (
      take-memcpy_end b.bytes b.length_ d _ refl (omega (arith, v)),
      record {
        allocated =
            length-memcpy b.bytes b.length_ d (omega (arith, v, ltb→le _ _ e)) ∙ v.allocated;
        within = ltb→le _ _ e;
      },
    )
  ]

  -- `require` says exactly when a pop stays inside the buffer: then the pop removes that many bytes
  -- from the front and keeps the invariant, and otherwise it moves memory outside the buffer.
  pub require-pop_data :
      (n : ℕ)
      → (require b (pos n) ≡ true
          → (b' : DataCacheBuf) × (pop_data b n ≡ ok b')
            × (contents b' ≡ drop n (contents b))
            × IsValid b')
        × (require b (pos n) ≡ false → pop_data b n ≡ fault)
  unfolding require
  require-pop_data n =
      ((λ h. pop_data_lem b v n (leb→le _ _ h)), λ h. unfold pop_data in ground (arith, h))

  -- After a push, popping what was there before leaves exactly what was pushed.
  pub pop_data-push_data :
      (d : List ℕ)
      → (b' : DataCacheBuf) × (pop_data (push_data b d) b.length_ ≡ ok b')
        × (contents b' ≡ d)
        × IsValid b'
  pop_data-push_data d =
      let (c, v') = push_data_lem d in
      let size : b.length_ ≤ (push_data b d).length_ = unfold push_data in ground arith in
      let (b', e, c', w) = pop_data_lem (push_data b d) v' b.length_ size in
      (
        b',
        e,
        c'
            ∙ ap (drop b.length_) c
            ∙ ap (λ (k : ℕ). drop k (contents b ++ d)) (sym length-contents)
            ∙ drop-append (contents b) d,
        w,
      )
