-- ===== src/DataBuf/Ring/Read.antt =====
-- `readData` of net/DataBuf.cc against a bounded queue.
use librtmp_client.Prelude.{
  ℕ, ◌+◌, ◌-◌, ◌≤◌, ◌<◌, ◌≡◌, refl, sym, ap, ap₂, ◌∙◌, List, [], ◌++◌, ltb, leb, if◌then◌else◌,
  length, take, drop, arith, length-take, length-drop, take-append_le, drop-append_le,
  take-append_ge, drop-append_ge, take-take, drop-take, drop-drop, take_all, drop_all, Bool-cases,
  inl, inr, lt→ltb, le→ltb, leb→le, compare_cases, Result, ok, err,
}
use librtmp_client.DataBuf.Ring.{
  DataRingBuf, reset_if_drained, read_out, read_data, at_most, error_not_have_data, clear,
}
use librtmp_client.DataBuf.Ring.Contents.{contents, view, IsValid, length-contents, contents-clear}

-- A queue that gives what it has of `size` bytes, but nothing once it is full.
unfoldable pub dequeue : ℕ → List ℕ → ℕ → List ℕ × Result (List ℕ)
dequeue cap q size =
    if ltb (length q) cap then (drop size q, ok (take size q)) else (q, err error_not_have_data)

take-at_most : (q : List ℕ) (n : ℕ) → take (at_most (length q) n) q ≡ take n q
take-at_most q n = elim (Bool-cases (leb n (length q))) [
  | inl e ↦ rw e
  | inr e ↦ rw e (take_all (length q) q (omega arith) ∙ sym (take_all n q (ground (arith, e))))
]

drop-at_most : (q : List ℕ) (n : ℕ) → drop (at_most (length q) n) q ≡ drop n q
drop-at_most q n = elim (Bool-cases (leb n (length q))) [
  | inl e ↦ rw e
  | inr e ↦ rw e (drop_all (length q) q (omega arith) ∙ sym (drop_all n q (ground (arith, e))))
]

at_most-le : (used n : ℕ) → at_most used n ≤ used
at_most-le used n = ground arith

-- The reader moved to `r`, and the buffer started afresh if that drained it.
abbrev moved : DataRingBuf → ℕ → DataRingBuf
moved b r = reset_if_drained (record b { r_pos = r })

module _ (b : DataRingBuf) (v : IsValid b) where
  moved-IsValid : (r : ℕ) → 1 ≤ r → r ≤ b.length_ → IsValid (moved b r)
  unfolding reset_if_drained
  moved-IsValid r h k = ground (arith, v.sized, v.writer)

  contents-moved_drained : (r : ℕ) → r ≡ b.w_pos → contents (moved b r) ≡ []
  unfolding reset_if_drained clear
  contents-moved_drained r e =
      let drained : moved b r ≡ clear b = ground (arith, e) in
      ap (λ c. contents c) drained ∙ contents-clear b v

  contents-moved_ahead : (r : ℕ) → r < b.w_pos → contents (moved b r) ≡ drop r (take b.w_pos b.buf)
  unfolding reset_if_drained
  contents-moved_ahead r lt = ground (arith, lt)

  contents-moved_behind :
      (r : ℕ) → b.w_pos < r → contents (moved b r) ≡ drop r b.buf ++ take b.w_pos b.buf
  unfolding reset_if_drained
  contents-moved_behind r lt = ground (arith, lt)

  -- Up to the writer: what is left is the rest of the queue.
  contents-moved_tail :
      (r n : ℕ) (q : List ℕ)
      → r ≤ b.w_pos
      → drop r (take b.w_pos b.buf) ≡ drop n q
      → contents (moved b r) ≡ drop n q
  contents-moved_tail r n q le e = elim (compare_cases r b.w_pos) [
    | inl lt ↦ contents-moved_ahead r lt ∙ e
    | inr (inl eq) ↦
        contents-moved_drained r eq
        ∙ sym (drop_all r (take b.w_pos b.buf) (omega (arith, length-take b.w_pos b.buf)))
        ∙ e
    | inr (inr gt) ↦ absurd (omega arith)
  ]

  -- The three reads that succeed.
  ahead_drop :
      b.r_pos < b.w_pos
      → (n : ℕ) → n ≤ b.w_pos - b.r_pos
      → contents (moved b (b.r_pos + n)) ≡ drop n (contents b)
  ahead_drop lt n h =
      contents-moved_tail (b.r_pos + n) n (contents b) (omega (arith, lt))
        (rw (lt→ltb _ _ lt) (sym (drop-drop b.r_pos n (b.r_pos + n) (take b.w_pos b.buf) refl)))

  ahead_take :
      b.r_pos < b.w_pos
      → (n : ℕ) → n ≤ b.w_pos - b.r_pos
      → take n (drop b.r_pos b.buf) ≡ take n (contents b)
  ahead_take lt n h =
      rw (lt→ltb _ _ lt, drop-take b.r_pos b.w_pos b.buf)
        (sym (take-take n (b.w_pos - b.r_pos) (drop b.r_pos b.buf) h))

  pub contents_behind : b.w_pos ≤ b.r_pos → contents b ≡ drop b.r_pos b.buf ++ take b.w_pos b.buf
  contents_behind le = rw (le→ltb b.r_pos b.w_pos le)

  read_out_lem :
      b.w_pos < b.r_pos
      → (n : ℕ) → n ≤ b.length_ - (b.r_pos - b.w_pos)
      → ((read_out b n).0 ≡ take n (contents b))
        × (contents (moved b (read_out b n).1) ≡ drop n (contents b))
        × IsValid (moved b (read_out b n).1)
  unfolding read_out
  read_out_lem lt n h =
      let t = b.length_ - b.r_pos in
      let old = drop b.r_pos b.buf in
      let new = take b.w_pos b.buf in
      let size : length old ≡ t = omega (arith, v, length-drop b.r_pos b.buf) in
      rw (contents_behind (omega arith)) (elim (Bool-cases (leb n t)) [
        | inl e ↦
            let le = leb→le n t e in
            rw e (
              sym (take-append_le n old new (omega arith)),
              contents-moved_behind (b.r_pos + n) (omega arith)
                  ∙ ap (λ s. s ++ new) (sym (drop-drop b.r_pos n (b.r_pos + n) b.buf refl))
                  ∙ sym (drop-append_le n old new (omega arith)),
              moved-IsValid (b.r_pos + n) (omega (arith, v)) (omega (arith, v)),
            )
        | inr e ↦
            let over : t < n = ground (arith, e) in
            let rest : n - length old ≡ n - t = omega (arith, size) in
            rw e (
              ap₂ (λ s u. s ++ u) (take_all t old (omega arith))
                    (sym (take-take (n - t) b.w_pos b.buf (omega arith))
                      ∙ ap (λ (k : ℕ). take k new) (sym rest))
                  ∙ sym (take-append_ge n old new (omega arith)),
              contents-moved_tail (n - t) n (old ++ new) (omega arith) (
                  ap (λ (k : ℕ). drop k new) (sym rest)
                  ∙ sym (drop-append_ge n old new (omega arith))),
              moved-IsValid (n - t) (omega arith) (omega (arith, v)),
            )
      ])

  Refines : ℕ → Type 0
  Refines size =
      (view (read_data b size) ≡ dequeue b.length_ (contents b) size) × IsValid (read_data b size).0

  accepted :
      (size used : ℕ) (b' : DataRingBuf) (out : List ℕ)
      → used ≡ length (contents b)
      → read_data b size ≡ (b', ok out)
      → out ≡ take (at_most used size) (contents b)
      → contents b' ≡ drop (at_most used size) (contents b)
      → IsValid b'
      → length (contents b) < b.length_
      → Refines size
  unfolding Refines dequeue
  accepted size used b' out eu e eo ec v' h =
      let q = contents b in
      let all_out : out ≡ take size q =
        eo ∙ ap (λ (k : ℕ). take (at_most k size) q) eu ∙ take-at_most q size in
      let all_left : contents b' ≡ drop size q =
        ec ∙ ap (λ (k : ℕ). drop (at_most k size) q) eu ∙ drop-at_most q size in
      rw (e, lt→ltb _ _ h) (ap₂ (λ s t. (s, ok t)) all_left all_out, v')

  ahead_case : (size : ℕ) → b.r_pos < b.w_pos → Refines size
  ahead_case size lt =
      let used = b.w_pos - b.r_pos in
      let n = at_most used size in
      let le = at_most-le used size in
      let count : length (contents b) ≡ used = ground (arith, lt, length-contents b v) in
      accepted size used (moved b (b.r_pos + n)) (take n (drop b.r_pos b.buf)) (sym count)
        (unfold read_data in rw (lt→ltb _ _ lt)) (ahead_take lt n le) (ahead_drop lt n le)
        (moved-IsValid (b.r_pos + n) (omega (arith, v)) (omega (arith, v, le)))
        (omega (arith, v, count))

  behind_case : (size : ℕ) → b.w_pos < b.r_pos → Refines size
  behind_case size lt =
      let used = b.length_ - (b.r_pos - b.w_pos) in
      let n = at_most used size in
      let count : length (contents b) ≡ used = ground (arith, lt, v, length-contents b v) in
      let (o, c, v') = read_out_lem lt n (at_most-le used size) in
      accepted size used (moved b (read_out b n).1) (read_out b n).0 (sym count)
        (unfold read_data in rw (le→ltb b.r_pos b.w_pos (omega arith), lt→ltb _ _ lt)) o c v'
        (omega (arith, v, count))

  pub read_data-full :
      b.r_pos ≡ b.w_pos → (size : ℕ) → read_data b size ≡ (b, err error_not_have_data)
  unfolding read_data
  read_data-full e size = ground (arith, e)

  pub length-contents_full : b.r_pos ≡ b.w_pos → length (contents b) ≡ b.length_
  length-contents_full e = ground (arith, e, v, length-contents b v)

  -- A read does to the unread bytes exactly what the queue does, its answer included, and keeps the
  -- invariant.
  pub read_data-dequeue :
      (size : ℕ)
      → (view (read_data b size) ≡ dequeue b.length_ (contents b) size)
        × IsValid (read_data b size).0
  unfolding Refines dequeue
  read_data-dequeue size = elim (compare_cases b.r_pos b.w_pos) [
    | inl lt ↦ ahead_case size lt
    | inr (inl e) ↦
        rw
          (
            read_data-full e size,
            le→ltb (length (contents b)) b.length_ (omega (arith, length-contents_full e)),
          )
          (refl, v)
    | inr (inr gt) ↦ behind_case size gt
  ]

  pub read_data_out :
      (size : ℕ)
      → length (contents b) < b.length_
      → (read_data b size).1 ≡ ok (take size (contents b))
  read_data_out size h = ap (λ p. p.1) ((read_data-dequeue size).0 ∙ dequeued)
    where
      dequeued :
          dequeue b.length_ (contents b) size
          ≡ (drop size (contents b), ok (take size (contents b)))
      dequeued = unfold dequeue in rw (lt→ltb _ _ h)
