-- ===== src/DataBuf/Ring/Grow.antt =====
-- `getUsed`, `addRingBufSpace` and the state of equal positions of net/DataBuf.cc.
use librtmp_client.Prelude.{
  ℕ, ◌+◌, ◌≤◌, ◌<◌, ◌≡◌, refl, sym, ap, ◌∙◌, true, false, List, [], ◌++◌, ltb, if◌then◌else◌,
  length, arith, Bool-cases, inl, inr, ok, err, ltb→le, ==→eq, take_all, length-zero, length-append,
}
use librtmp_client.DataBuf.Ring.{
  DataRingBuf, fresh, write_data, read_data, get_used, get_write_ptr_and_left, is_full, drain,
  add_ring_buf_space, error_not_have_data, error_not_have_space,
}
use librtmp_client.DataBuf.Ring.Contents.{
  contents, IsValid, length-contents, fresh-IsValid, contents-fresh,
}
use librtmp_client.DataBuf.Ring.Write.{
  write_data-enqueue, contents-write_data, length_-write_data, write_refused, write_data_answer,
}
use librtmp_client.DataBuf.Ring.Read.{read_data_out, read_data-full, length-contents_full}

is_full_of_length :
    (b : DataRingBuf) → IsValid b → length (contents b) ≡ b.length_ → is_full b ≡ true
unfolding is_full
is_full_of_length b v e = ground (arith, e, v, length-contents b v)

module _ (b : DataRingBuf) (v : IsValid b) where
  -- `getUsed` counts the unread bytes of a buffer that is not full, and says 0 of a full one.
  pub get_used_lem : get_used b ≡ (if is_full b then 0 else length (contents b))
  unfolding get_used is_full
  get_used_lem = ground (arith, v, length-contents b v)

  length-contents_le : length (contents b) ≤ b.length_
  length-contents_le = ground (arith, v, length-contents b v)

  length-contents_lt : is_full b ≡ false → length (contents b) < b.length_
  unfolding is_full
  length-contents_lt h = ground (arith, h, v, length-contents b v)

  get_used-length : is_full b ≡ false → get_used b ≡ length (contents b)
  get_used-length h = rw h at get_used_lem

  drain_lem : is_full b ≡ false → drain b ≡ contents b
  unfolding drain
  drain_lem h =
      rw (read_data_out b v (get_used b) (length-contents_lt h), drain)
        (take_all (get_used b) (contents b) (omega (arith, get_used-length h)))

  refilled :
      (n : ℕ) (d : List ℕ)
      → length d < n
      → (contents (write_data (fresh n) d).0 ≡ d)
        × ((write_data (fresh n) d).0.length_ ≡ n)
        × IsValid (write_data (fresh n) d).0
  refilled n d h =
      let f = fresh-IsValid n (omega arith) in
      let size : (fresh n).length_ ≡ n = unfold fresh in refl in
      let zero_in : length (contents (fresh n)) ≡ 0 = ap length (contents-fresh n) in
      (
        contents-write_data (fresh n) d f (omega (arith, size, zero_in))
              (omega (arith, size, zero_in))
            ∙ ap (λ q. q ++ d) (contents-fresh n),
        length_-write_data (fresh n) d f ∙ size,
        (write_data-enqueue (fresh n) d f).1,
      )

  -- Growing a buffer that is not full keeps the unread bytes, in their order, adds the new space to
  -- its size and keeps the invariant.
  pub add_ring_buf_space_lem :
      (add_size : ℕ)
      → is_full b ≡ false
      → (contents (add_ring_buf_space b add_size) ≡ contents b)
        × ((add_ring_buf_space b add_size).length_ ≡ b.length_ + add_size)
        × IsValid (add_ring_buf_space b add_size)
  unfolding add_ring_buf_space
  add_ring_buf_space_lem add_size h = elim (Bool-cases (ltb 0 (get_used b))) [
    | inl e ↦
        let (c, l, v') =
          refilled (b.length_ + add_size) (drain b)
            (omega (arith, ap length (drain_lem h), length-contents_lt h)) in
        rw e (c ∙ drain_lem h, l, v')
    | inr e ↦
        let none_used : length (contents b) ≡ 0 =
          omega (arith, get_used-length h, ltb→le 0 (get_used b) e) in
        rw e (
          contents-fresh (b.length_ + add_size) ∙ sym (length-zero (contents b) none_used),
          (unfold fresh in refl),
          fresh-IsValid (b.length_ + add_size) (omega (arith, v)),
        )
  ]

  -- A full buffer is a dead end: every read answers that there is no data and every write that there
  -- is no space, both leaving the buffer as it is; the fill level is reported as 0 and all of the
  -- memory as free; and growing it loses all its bytes.
  pub full_is_stuck :
      is_full b ≡ true
      → (length (contents b) ≡ b.length_)
        × ((size : ℕ) → read_data b size ≡ (b, err error_not_have_data))
        × ((d : List ℕ) → write_data b d ≡ (b, err error_not_have_space))
        × (get_used b ≡ 0)
        × (get_write_ptr_and_left b ≡ (b.w_pos, b.length_))
        × ((add_size : ℕ) → contents (add_ring_buf_space b add_size) ≡ [])
  unfolding add_ring_buf_space get_write_ptr_and_left
  full_is_stuck h =
      let e : b.r_pos ≡ b.w_pos = unfold is_full in ==→eq _ _ h in
      let unused : get_used b ≡ 0 = rw h at get_used_lem in
      (
        length-contents_full b v e,
        read_data-full b v e,
        (λ d. write_refused b d v (inr e)),
        unused,
        rw unused (ap (λ (k : ℕ). (b.w_pos, k)) (omega arith)),
        λ add_size. rw unused (contents-fresh (b.length_ + add_size)),
      )

  -- Filling the last free byte is accepted, and leaves the buffer full.
  pub fills :
      (d : List ℕ)
      → is_full b ≡ false
      → length (contents b) + length d ≡ b.length_
      → ((write_data b d).1 ≡ ok (length d)) × (is_full (write_data b d).0 ≡ true)
  fills d h e =
      let b' = (write_data b d).0 in
      let lt = length-contents_lt h in
      let held : length (contents b') ≡ length (contents b) + length d =
        ap length (contents-write_data b d v lt (omega (arith, e)))
        ∙ length-append (contents b) d in
      (
        write_data_answer b d v lt (omega (arith, e)),
        is_full_of_length b' (write_data-enqueue b d v).1
            (held ∙ e ∙ sym (length_-write_data b d v)),
      )
