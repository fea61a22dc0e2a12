-- ===== src/DataBuf/Ring/Write.antt =====
-- `writeData` of net/DataBuf.cc against a bounded queue.
use librtmp_client.Prelude.{
  ℕ, ◌+◌, ◌-◌, ◌≤◌, ◌<◌, ◌≡◌, refl, sym, ap, ap₂, ◌∙◌, ◌&&◌, List, ◌++◌, ltb, leb, if◌then◌else◌,
  length, take, drop, arith, length-take, length-drop, take-append-drop, drop-append_le,
  append_assoc, Bool-cases, inl, inr, ltb→lt, ltb→le, lt→ltb, le→ltb, leb→le, le→leb, ◌⊎◌,
  compare_cases, memcpy, length-memcpy, take-memcpy_end, drop-memcpy_ge, take_all, Result, ok, err,
}
use librtmp_client.DataBuf.Ring.{DataRingBuf, write_wrapping, write_data, error_not_have_space}
use librtmp_client.DataBuf.Ring.Contents.{contents, view, IsValid, length-contents}

-- A queue of at most `cap` bytes that takes a block whole or not at all, and nothing once it is full.
unfoldable pub enqueue : ℕ → List ℕ → List ℕ → List ℕ × Result ℕ
enqueue cap q d =
    if ltb (length q) cap && leb (length q + length d) cap
    then (q ++ d, ok (length d))
    else (q, err error_not_have_space)

module _ (b : DataRingBuf) (d : List ℕ) (v : IsValid b) where
  -- The writer is ahead of the reader and the block fits behind it.
  ahead : DataRingBuf
  ahead = record b { buf = memcpy b.buf b.w_pos d; w_pos = b.w_pos + length d }

  contents-ahead :
      b.r_pos < b.w_pos → b.w_pos + length d ≤ b.length_ → contents ahead ≡ contents b ++ d
  unfolding ahead
  contents-ahead lt fits =
      rw (lt→ltb _ _ lt, lt→ltb b.r_pos (b.w_pos + length d) (omega arith))
        (ap (drop b.r_pos) (take-memcpy_end b.buf b.w_pos d _ refl (omega (arith, v)))
          ∙ drop-append_le b.r_pos (take b.w_pos b.buf) d
              (omega (arith, v, length-take b.w_pos b.buf)))

  -- The writer is behind the reader.
  contents-behind :
      b.w_pos < b.r_pos → b.w_pos + length d ≤ b.r_pos → contents ahead ≡ contents b ++ d
  unfolding ahead
  contents-behind lt fits =
      rw (le→ltb b.r_pos b.w_pos (omega arith), le→ltb b.r_pos (b.w_pos + length d) fits)
        (ap₂ (λ s t. s ++ t) (drop-memcpy_ge b.buf b.w_pos d b.r_pos fits (omega (arith, v)))
            (take-memcpy_end b.buf b.w_pos d _ refl (omega (arith, v)))
          ∙ sym (append_assoc (drop b.r_pos b.buf) (take b.w_pos b.buf) d))

  -- The block is split at the end of the memory: `first` is behind the writer, the rest in front.
  room : ℕ
  room = b.length_ - b.w_pos

  first : List ℕ
  unfolding room
  first = memcpy b.buf b.w_pos (take room d)

  length-first : room ≤ length d → length first ≡ b.length_
  unfolding first
  length-first h =
      length-memcpy b.buf b.w_pos (take room d) (omega (arith, v, length-take room d)) ∙ v.sized

  first_lem : room ≤ length d → first ≡ take b.w_pos b.buf ++ take room d
  unfolding first
  first_lem h =
      sym (take_all b.length_ first (omega (arith, length-first h)))
      ∙ take-memcpy_end b.buf b.w_pos (take room d) b.length_ (omega (arith, v, length-take room d))
          (omega (arith, v))

  wrapped : DataRingBuf
  unfolding first
  wrapped = record b { buf = memcpy first 0 (drop room d); w_pos = length d - room }

  contents-wrapped :
      b.r_pos < b.w_pos
      → b.length_ < b.w_pos + length d
      → length d ≤ b.length_ - (b.w_pos - b.r_pos)
      → contents wrapped ≡ contents b ++ d
  unfolding wrapped room
  contents-wrapped lt over fits =
      rw (lt→ltb _ _ lt, le→ltb b.r_pos (length d - room) (omega arith))
        (ap₂ (λ s t. s ++ t) behind front
          ∙ append_assoc (drop b.r_pos (take b.w_pos b.buf)) _ _
          ∙ ap (λ t. drop b.r_pos (take b.w_pos b.buf) ++ t) (take-append-drop room d))
    where
      behind :
          drop b.r_pos (memcpy first 0 (drop room d))
          ≡ drop b.r_pos (take b.w_pos b.buf) ++ take room d
      behind =
          drop-memcpy_ge first 0 (drop room d) b.r_pos (omega (arith, length-drop room d))
            (omega arith)
          ∙ ap (drop b.r_pos) (first_lem (omega arith))
          ∙ drop-append_le b.r_pos (take b.w_pos b.buf) (take room d)
              (omega (arith, v, length-take b.w_pos b.buf))

      front : take (length d - room) (memcpy first 0 (drop room d)) ≡ drop room d
      front =
          take-memcpy_end first 0 (drop room d) _ (omega (arith, length-drop room d)) (omega arith)

  wrapped-IsValid :
      b.r_pos < b.w_pos
      → b.length_ < b.w_pos + length d
      → length d ≤ b.length_ - (b.w_pos - b.r_pos)
      → IsValid wrapped
  unfolding wrapped room
  wrapped-IsValid lt over fits = record {
    sized =
        length-memcpy first 0 (drop room d) (omega (arith, v, length-first, length-drop room d))
        ∙ length-first (omega arith);
    reader_pos = v.reader_pos;
    reader = v.reader;
    writer = omega (arith, v);
  }

  ahead-IsValid : b.w_pos + length d ≤ b.length_ → IsValid ahead
  unfolding ahead
  ahead-IsValid fits = record {
    sized = length-memcpy b.buf b.w_pos d (omega (arith, v)) ∙ v.sized;
    reader_pos = v.reader_pos;
    reader = v.reader;
    writer = fits;
  }

module _ (b : DataRingBuf) (d : List ℕ) (v : IsValid b) where
  write_wrapping_lem :
      b.r_pos < b.w_pos
      → length d ≤ b.length_ - (b.w_pos - b.r_pos)
      → (contents (write_wrapping b d) ≡ contents b ++ d) × IsValid (write_wrapping b d)
  unfolding write_wrapping
  write_wrapping_lem lt fits = elim (Bool-cases (leb (length d) (b.length_ - b.w_pos))) [
    | inl e ↦
        let le = leb→le _ _ e in
        rw e (
          unfold ahead in
          (contents-ahead b d v lt (omega (arith, v)), ahead-IsValid b d v (omega (arith, v))))
    | inr e ↦
        let over : b.length_ < b.w_pos + length d = ground (arith, e, v.writer) in
        rw e (
          unfold wrapped first room in
          (contents-wrapped b d v lt over fits, wrapped-IsValid b d v lt over fits))
  ]

  write_accepted_ahead :
      b.r_pos < b.w_pos
      → length d ≤ b.length_ - (b.w_pos - b.r_pos)
      → write_data b d ≡ (write_wrapping b d, ok (length d))
  unfolding write_data
  write_accepted_ahead lt fits =
      rw (lt→ltb _ _ lt, le→ltb (b.length_ - (b.w_pos - b.r_pos)) (length d) fits)

  write_accepted_behind :
      b.w_pos < b.r_pos
      → length d ≤ b.r_pos - b.w_pos
      → write_data b d ≡ (ahead b d v, ok (length d))
  unfolding write_data ahead
  write_accepted_behind lt fits = rw (
    le→ltb b.r_pos b.w_pos (omega arith),
    lt→ltb _ _ lt,
    le→ltb (b.r_pos - b.w_pos) (length d) fits,
  )

  pub write_refused :
      b.length_ < length (contents b) + length d ⊎ (b.r_pos ≡ b.w_pos)
      → write_data b d ≡ (b, err error_not_have_space)
  unfolding write_data
  write_refused h = ground (arith, h, length-contents b v, v.reader, v.writer)

  enqueue_accept :
      (cap : ℕ) (q : List ℕ)
      → length q < cap
      → length q + length d ≤ cap
      → enqueue cap q d ≡ (q ++ d, ok (length d))
  unfolding enqueue
  enqueue_accept cap q h k = rw (lt→ltb _ _ h, le→leb _ _ k)

  enqueue_refuse :
      (cap : ℕ) (q : List ℕ)
      → cap < length q + length d ⊎ (length q ≡ cap)
      → enqueue cap q d ≡ (q, err error_not_have_space)
  unfolding enqueue
  enqueue_refuse cap q h = ground (arith, h)

  length_ahead : b.r_pos < b.w_pos → length (contents b) ≡ b.w_pos - b.r_pos
  length_ahead lt = ground (arith, lt, length-contents b v)

  length_behind : b.w_pos ≤ b.r_pos → length (contents b) ≡ b.length_ - b.r_pos + b.w_pos
  length_behind le = ground (arith, le, length-contents b v)

  Refines : Type 0
  Refines = (view (write_data b d) ≡ enqueue b.length_ (contents b) d) × IsValid (write_data b d).0

  accepted :
      (b' : DataRingBuf)
      → write_data b d ≡ (b', ok (length d))
      → contents b' ≡ contents b ++ d
      → IsValid b'
      → length (contents b) < b.length_
      → length (contents b) + length d ≤ b.length_
      → Refines
  unfolding Refines
  accepted b' e c v' h k =
      rw (e, enqueue_accept b.length_ (contents b) h k) (ap (λ q. (q, ok (length d))) c, v')

  refused :
      b.length_ < length (contents b) + length d ⊎ (b.r_pos ≡ b.w_pos)
      → b.length_ < length (contents b) + length d ⊎ (length (contents b) ≡ b.length_)
      → Refines
  unfolding Refines
  refused h k = rw (write_refused h, enqueue_refuse b.length_ (contents b) k) (refl, v)

  ahead_case : b.r_pos < b.w_pos → Refines
  ahead_case lt = elim (Bool-cases (ltb (b.length_ - (b.w_pos - b.r_pos)) (length d))) [
    | inl e ↦
        let over : b.length_ < length (contents b) + length d =
          omega (arith, v, length_ahead lt, ltb→lt _ _ e) in
        refused (inl over) (inl over)
    | inr e ↦
        let fits = ltb→le _ _ e in
        let (c, v') = write_wrapping_lem lt fits in
        accepted _ (write_accepted_ahead lt fits) c v' (omega (arith, v, length_ahead lt))
          (omega (arith, v, length_ahead lt))
  ]

  behind_case : b.w_pos < b.r_pos → Refines
  behind_case lt = elim (Bool-cases (ltb (b.r_pos - b.w_pos) (length d))) [
    | inl e ↦
        let over : b.length_ < length (contents b) + length d =
          omega (arith, v, length_behind, ltb→lt _ _ e) in
        refused (inl over) (inl over)
    | inr e ↦
        let fits = ltb→le _ _ e in
        accepted _ (write_accepted_behind lt fits) (contents-behind b d v lt (omega (arith, fits)))
          (ahead-IsValid b d v (omega (arith, v))) (omega (arith, v, length_behind))
          (omega (arith, v, length_behind))
  ]

  -- A write does to the unread bytes exactly what a bounded queue does, its answer included, and
  -- keeps the invariant.
  pub write_data-enqueue :
      (view (write_data b d) ≡ enqueue b.length_ (contents b) d) × IsValid (write_data b d).0
  unfolding Refines
  write_data-enqueue = elim (compare_cases b.r_pos b.w_pos) [
    | inl lt ↦ ahead_case lt
    | inr (inl e) ↦ refused (inr e) (inr (omega (arith, v, length_behind)))
    | inr (inr gt) ↦ behind_case gt
  ]

  pub contents-write_data :
      length (contents b) < b.length_
      → length (contents b) + length d ≤ b.length_
      → contents (write_data b d).0 ≡ contents b ++ d
  contents-write_data h k =
      ap (λ p. p.0) (write_data-enqueue.0 ∙ enqueue_accept b.length_ (contents b) h k)

  pub write_data_answer :
      length (contents b) < b.length_
      → length (contents b) + length d ≤ b.length_
      → (write_data b d).1 ≡ ok (length d)
  write_data_answer h k =
      ap (λ p. p.1) (write_data-enqueue.0 ∙ enqueue_accept b.length_ (contents b) h k)

  pub length_-write_data : (write_data b d).0.length_ ≡ b.length_
  unfolding write_data write_wrapping
  length_-write_data = ground arith
