-- ===== src/Rtmp/Handshake/Blocks.antt =====
-- The blocks of c1 and S1 of net/app_protocol/rtmp/rtmp_stack_handshake.cc, made and parsed.
use librtmp_client.Prelude.{
  ℕ, zero, suc, ◌+◌, ◌-◌, ◌%◌, ◌≤◌, ◌<◌, ◌^◌, ◌≡◌, refl, sym, ap, ◌∙◌, true, List, [], ◌∷◌, ◌++◌,
  ltb, min, length, take, drop, arith, length-append, length-take, length-drop, append_assoc,
  append-nil, drop-append, take-append, if-true, le→leb, lt→ltb, ok,
}
use librtmp_client.NetIo.{write_int32}
use librtmp_client.NetIo.Laws.{read_int32-write_int32}
use librtmp_client.Rtmp.Handshake.{
  HandshakeKey, HandshakeDigest, calc_offset, max_key_offset, max_digest_offset, random_generate,
  print_signature, random_block, signature, new_handshake_key, new_handshake_digest, copy_from,
  parse_key, parse_digest, build_key, build_digest,
}

length-random_generate : (rand : ℕ → ℕ) (i size : ℕ) → length (random_generate rand i size) ≡ size
unfolding random_generate
length-random_generate rand i zero = refl
length-random_generate rand i (suc size) = ap suc (length-random_generate rand (suc i) size)

length-print_signature : (bytes : List ℕ) → length (print_signature bytes) ≡ length bytes
unfolding print_signature
length-print_signature [] = refl
length-print_signature (b ∷ bytes) =
    let n = min (length bytes) (length signature) in
    omega (
      arith,
      length-append (take n signature) (0 ∷ drop (suc n) (b ∷ bytes)),
      length-take n signature,
      length-drop (suc n) (b ∷ bytes),
    )

pub calc_offset_lt : (m offset : ℕ) → 1 ≤ m → calc_offset m offset < m
unfolding calc_offset
calc_offset_lt m offset h = omega arith

-- The sizes that the offset of a block prescribes.
pub record IsKey (k : HandshakeKey) : Type 0 where
  pub random0_size : length k.random0 ≡ calc_offset max_key_offset k.offset
  pub key_size : length k.key_ ≡ 128
  pub random1_size : length k.random1 ≡ max_key_offset - calc_offset max_key_offset k.offset
  pub offset_size : k.offset < 2 ^ 32

pub record IsDigest (d : HandshakeDigest) : Type 0 where
  pub random0_size : length d.random0 ≡ calc_offset max_digest_offset d.offset
  pub digest_size : length d.digest_ ≡ 32
  pub random1_size : length d.random1 ≡ max_digest_offset - calc_offset max_digest_offset d.offset
  pub offset_size : d.offset < 2 ^ 32

length-random_block : (rand : ℕ → ℕ) (i size : ℕ) → length (random_block rand i size) ≡ size
unfolding random_block
length-random_block rand i size =
    length-print_signature (random_generate rand i size) ∙ length-random_generate rand i size

pub new_handshake_key-IsKey : (rand : ℕ → ℕ) (i : ℕ) → IsKey (new_handshake_key rand i)
unfolding new_handshake_key
new_handshake_key-IsKey rand i =
    let n = calc_offset max_key_offset (rand i % 2 ^ 32) in
    record {
      random0_size = length-random_block rand (i + 1) n;
      key_size = length-random_generate rand (i + 1 + n) 128;
      random1_size = length-random_block rand (i + 129 + n) (764 - n - 128 - 4) ∙ omega arith;
      offset_size = omega arith;
    }

pub new_handshake_digest-IsDigest : (rand : ℕ → ℕ) (i : ℕ) → IsDigest (new_handshake_digest rand i)
unfolding new_handshake_digest
new_handshake_digest-IsDigest rand i =
    let n = calc_offset max_digest_offset (rand i % 2 ^ 32) in
    record {
      random0_size = length-random_block rand (i + 1) n;
      digest_size = length-random_generate rand (i + 1 + n) 32;
      random1_size = length-random_block rand (i + 33 + n) (764 - 4 - n - 32) ∙ omega arith;
      offset_size = omega arith;
    }

-- Copying a part `s` out of bytes that hold it at `at`.
copy_part :
    (before s rest data' : List ℕ) (at n : ℕ)
    → data' ≡ before ++ (s ++ rest)
    → at ≡ length before
    → n ≡ length s
    → copy_from data' at n ≡ ok s
unfolding copy_from
copy_part before s rest data' at n e here size =
    rw (e, here, size)
      (if-true _ _ (
          le→leb (length before + length s) (length (before ++ (s ++ rest)))
            (omega (arith, length-append before (s ++ rest), length-append s rest)))
        ∙ ap ok (ap (take (length s)) (drop-append before (s ++ rest)) ∙ take-append s rest))

drop_at :
    (before rest data' : List ℕ) (n : ℕ)
    → data' ≡ before ++ rest
    → n ≡ length before
    → drop n data' ≡ rest
drop_at before rest data' n e here = rw (e, here) (drop-append before rest)

-- The parts of a key block, and what follows it.
key_layout :
    (k : HandshakeKey) (rest : List ℕ)
    → build_key k ++ rest ≡ k.random0 ++ (k.key_ ++ (k.random1 ++ (write_int32 k.offset ++ rest)))
unfolding build_key
key_layout k rest =
    append_assoc k.random0 (k.key_ ++ (k.random1 ++ write_int32 k.offset)) rest
    ∙ ap (λ t. k.random0 ++ t)
        (append_assoc k.key_ (k.random1 ++ write_int32 k.offset) rest
          ∙ ap (λ t. k.key_ ++ t) (append_assoc k.random1 (write_int32 k.offset) rest))

-- A key block that is built is parsed into the same key, whatever follows it.
pub parse_key-build_key :
    (k : HandshakeKey) (rest : List ℕ) → IsKey k → parse_key (build_key k ++ rest) ≡ ok (764, k)
unfolding parse_key
parse_key-build_key k rest h =
    let data' = k.random0 ++ (k.key_ ++ (k.random1 ++ (write_int32 k.offset ++ rest))) in
    let n = calc_offset max_key_offset k.offset in
    let lt = calc_offset_lt max_key_offset k.offset (omega arith) in
    let s0 = h.random0_size in
    let s1 = h.key_size in
    let s2 = h.random1_size in
    let tail = write_int32 k.offset ++ rest in
    let at_offset : drop 760 data' ≡ tail =
      drop_at (k.random0 ++ (k.key_ ++ k.random1)) tail data' 760
        (sym (
          append_assoc k.random0 (k.key_ ++ k.random1) tail
          ∙ ap (λ t. k.random0 ++ t) (append_assoc k.key_ k.random1 tail)))
        (omega (
          arith,
          length-append k.random0 (k.key_ ++ k.random1),
          length-append k.key_ k.random1,
          s0,
          s1,
          s2,
          lt,
        )) in
    rw
      (
        key_layout k rest,
        at_offset,
        read_int32-write_int32 k.offset rest h.offset_size,
        copy_part [] k.random0 (k.key_ ++ (k.random1 ++ tail)) data' 0 n refl refl (sym s0),
        copy_part k.random0 k.key_ (k.random1 ++ tail) data' n 128 refl (sym s0) (sym s1),
        copy_part (k.random0 ++ k.key_) k.random1 tail data' (n + 128) (764 - n - 128 - 4)
            (sym (append_assoc k.random0 k.key_ (k.random1 ++ tail)))
            (omega (arith, length-append k.random0 k.key_, s0, s1)) (omega (arith, s2, lt)),
      )
      (ap (λ (m : ℕ). ok (m, k)) (omega (arith, s0, s1, s2, lt)))

digest_layout :
    (k : HandshakeKey) (d : HandshakeDigest) (rest : List ℕ)
    → IsKey k
    → build_digest k d true ++ rest
      ≡ write_int32 d.offset ++ (d.random0 ++ (d.digest_ ++ (d.random1 ++ rest)))
unfolding build_digest
digest_layout k d rest h =
    let lt = calc_offset_lt max_key_offset k.offset (omega arith) in
    let s2 = h.random1_size in
    let there : ltb 0 (length k.random1) ≡ true =
      lt→ltb 0 (length k.random1) (omega (arith, s2, lt)) in
    rw there (
      append_assoc (write_int32 d.offset) (d.random0 ++ (d.digest_ ++ d.random1)) rest
      ∙ ap (λ t. write_int32 d.offset ++ t)
          (append_assoc d.random0 (d.digest_ ++ d.random1) rest
            ∙ ap (λ t. d.random0 ++ t) (append_assoc d.digest_ d.random1 rest)))

length-write_int32 : (n : ℕ) → length (write_int32 n) ≡ 4
unfolding write_int32
length-write_int32 n = refl

-- A digest block that is built with its digest is parsed into the same digest, whatever follows it.
pub parse_digest-build_digest :
    (k : HandshakeKey) (d : HandshakeDigest) (rest : List ℕ)
    → IsKey k
    → IsDigest d
    → parse_digest (build_digest k d true ++ rest) ≡ ok (764, d)
unfolding parse_digest
parse_digest-build_digest k d rest hk h =
    let w = write_int32 d.offset in
    let data' = w ++ (d.random0 ++ (d.digest_ ++ (d.random1 ++ rest))) in
    let n = calc_offset max_digest_offset d.offset in
    let lt = calc_offset_lt max_digest_offset d.offset (omega arith) in
    let s0 = h.random0_size in
    let s1 = h.digest_size in
    let s2 = h.random1_size in
    let sw = length-write_int32 d.offset in
    rw
      (
        digest_layout k d rest hk,
        read_int32-write_int32 d.offset (d.random0 ++ (d.digest_ ++ (d.random1 ++ rest)))
            h.offset_size,
        copy_part w d.random0 (d.digest_ ++ (d.random1 ++ rest)) data' 4 n refl (sym sw) (sym s0),
        copy_part (w ++ d.random0) d.digest_ (d.random1 ++ rest) data' (4 + n) 32
            (sym (append_assoc w d.random0 (d.digest_ ++ (d.random1 ++ rest))))
            (omega (arith, length-append w d.random0, sw, s0)) (sym s1),
        copy_part (w ++ (d.random0 ++ d.digest_)) d.random1 rest data' (36 + n) (764 - 4 - n - 32)
            (sym (
              append_assoc w (d.random0 ++ d.digest_) (d.random1 ++ rest)
              ∙ ap (λ t. w ++ t) (append_assoc d.random0 d.digest_ (d.random1 ++ rest))))
            (omega (
              arith,
              length-append w (d.random0 ++ d.digest_),
              length-append d.random0 d.digest_,
              sw,
              s0,
              s1,
            ))
            (omega (arith, s2, lt)),
      )
      (ap (λ (m : ℕ). ok (m, d)) (omega (arith, s0, s1, s2, lt)))

-- The sizes of the two blocks.
pub length-build_key : (k : HandshakeKey) → IsKey k → length (build_key k) ≡ 764
unfolding build_key
length-build_key k h =
    let lt = calc_offset_lt max_key_offset k.offset (omega arith) in
    omega (
      arith,
      length-append k.random0 (k.key_ ++ (k.random1 ++ write_int32 k.offset)),
      length-append k.key_ (k.random1 ++ write_int32 k.offset),
      length-append k.random1 (write_int32 k.offset),
      length-write_int32 k.offset,
      h.random0_size,
      h.key_size,
      h.random1_size,
      lt,
    )

pub length-build_digest :
    (k : HandshakeKey) (d : HandshakeDigest)
    → IsKey k
    → IsDigest d
    → length (build_digest k d true) ≡ 764
length-build_digest k d hk h =
    let lt = calc_offset_lt max_digest_offset d.offset (omega arith) in
    let w = write_int32 d.offset in
    let e = digest_layout k d [] hk in
    omega (
      arith,
      append-nil (build_digest k d true),
      e,
      length-append w (d.random0 ++ (d.digest_ ++ (d.random1 ++ []))),
      length-append d.random0 (d.digest_ ++ (d.random1 ++ [])),
      length-append d.digest_ (d.random1 ++ []),
      length-append d.random1 [],
      length-append (build_digest k d true) [],
      ap length e,
      length-write_int32 d.offset,
      h.random0_size,
      h.digest_size,
      h.random1_size,
      lt,
    )
