-- ===== src/Rtmp/Handshake/Exchange.antt =====
-- c0c1, and what is made of S0, S1 and S2, in
-- net/app_protocol/rtmp/rtmp_stack_handshake.cc.
use librtmp_client.Prelude.{
  ℕ, ◌+◌, ◌-◌, ◌≤◌, ◌≡◌, refl, sym, ap, ◌∙◌, true, false, List, [], ◌∷◌, ◌++◌, length, take, drop,
  arith, length-append, length-take, length-drop, append-nil, drop-append, drop-drop, if-true,
  le→leb, le→ltb, ok, Option, some, none,
}
use librtmp_client.NetIo.{write_int32, read_int32, read_int8}
use librtmp_client.Rtmp.Handshake.{
  HandshakeKey, HandshakeDigest, RtmpHandshake, calc_offset, max_key_offset, max_digest_offset,
  copy_from, parse_key, parse_digest, build_key, build_digest, calc_c1_digest, general_c0c1,
  create_c0c1, create_c2, process_s1, process_s0s1s2, fp_key,
}
use librtmp_client.Rtmp.Handshake.Blocks.{
  IsKey, IsDigest, parse_key-build_key, parse_digest-build_digest, length-build_key,
  length-build_digest, calc_offset_lt,
}

-- OpenSSL's HMAC-SHA256 of a message has 32 bytes.
abbrev pub IsSha256 : (List ℕ → List ℕ → Option (List ℕ)) → Type 0
IsSha256 hmac = (message bytes : List ℕ) → hmac fp_key message ≡ some bytes → length bytes ≡ 32

calc_c1_digest-IsDigest :
    (hmac : List ℕ → List ℕ → Option (List ℕ)) (d : HandshakeDigest) (message : List ℕ)
    → IsSha256 hmac
    → IsDigest d
    → IsDigest (calc_c1_digest hmac d message)
unfolding calc_c1_digest
calc_c1_digest-IsDigest hmac d message sha h = by_result (hmac fp_key message) refl
  where
    by_result :
        (r : Option (List ℕ))
        → hmac fp_key message ≡ r
        → IsDigest (elim r [ some c1_digest ↦ record d { digest_ = take 32 c1_digest } | none ↦ d ])
    by_result none e = h
    by_result (some bytes) e = record {
      random0_size = h.random0_size;
      digest_size = omega (arith, length-take 32 bytes, sha message bytes e);
      random1_size = h.random1_size;
      offset_size = h.offset_size;
    }

c1_blocks :
    (h : RtmpHandshake)
    → drop 9 (general_c0c1 false h) ≡ build_digest h.key h.digest true ++ build_key h.key
unfolding general_c0c1 write_int32
c1_blocks h = refl

c1_key :
    (h : RtmpHandshake)
    → IsKey h.key
    → IsDigest h.digest
    → drop 773 (general_c0c1 false h) ≡ build_key h.key
c1_key h hk hd =
    sym (drop-drop 9 764 773 (general_c0c1 false h) (omega arith))
    ∙ ap (drop 764) (c1_blocks h)
    ∙ ap (λ (n : ℕ). drop n (build_digest h.key h.digest true ++ build_key h.key))
        (sym (length-build_digest h.key h.digest hk hd))
    ∙ drop-append (build_digest h.key h.digest true) (build_key h.key)

length-general_c0c1 :
    (h : RtmpHandshake) → IsKey h.key → IsDigest h.digest → length (general_c0c1 false h) ≡ 1537
unfolding general_c0c1 write_int32
length-general_c0c1 h hk hd = omega (
  arith,
  length-append (build_digest h.key h.digest true) (build_key h.key),
  length-build_digest h.key h.digest hk hd,
  length-build_key h.key hk,
)

-- c0c1, as the client makes it with blocks of the sizes that their offsets prescribe, is 1537
-- bytes. A server finds the digest, which is that of the handshake after the call, behind the time and
-- the version, and the key in the 764 bytes behind the digest's.
pub create_c0c1-parse :
    (hmac : List ℕ → List ℕ → Option (List ℕ)) (now : ℕ) (h : RtmpHandshake)
    → IsSha256 hmac
    → IsKey h.key
    → IsDigest h.digest
    → (bytes : List ℕ) × ((create_c0c1 hmac now false h).c0c1 ≡ some bytes)
      × (length bytes ≡ 1537)
      × (parse_digest (drop 9 bytes) ≡ ok (764, (create_c0c1 hmac now false h).digest))
      × (parse_key (drop (9 + 764) bytes) ≡ ok (764, (create_c0c1 hmac now false h).key))
unfolding create_c0c1
create_c0c1-parse hmac now h sha hk hd =
    let h' = create_c0c1 hmac now false h in
    let hd' : IsDigest h'.digest = calc_c1_digest-IsDigest hmac h.digest _ sha hd in
    (
      general_c0c1 false h',
      refl,
      length-general_c0c1 h' hk hd',
      ap parse_digest (c1_blocks h') ∙ parse_digest-build_digest h'.key h'.digest _ hk hd',
      ap parse_key (c1_key h' hk hd' ∙ sym (append-nil (build_key h'.key)))
          ∙ parse_key-build_key h'.key [] hk,
    )

some_int32 : (d : List ℕ) → 4 ≤ length d → (n : ℕ) × (read_int32 d ≡ ok n)
unfolding read_int32
some_int32 [] h = absurd (omega arith)
some_int32 (a ∷ []) h = absurd (omega arith)
some_int32 (a ∷ b ∷ []) h = absurd (omega arith)
some_int32 (a ∷ b ∷ c ∷ []) h = absurd (omega arith)
some_int32 (a ∷ b ∷ c ∷ e ∷ d) h = (_, refl)

some_copy :
    (d : List ℕ) (at n : ℕ)
    → at + n ≤ length d
    → (copy_from d at n ≡ ok (take n (drop at d))) × (length (take n (drop at d)) ≡ n)
unfolding copy_from
some_copy d at n h = (
  if-true _ _ (le→leb (at + n) (length d) h),
  omega (arith, length-take n (drop at d), length-drop at d),
)

-- On 764 bytes or more both blocks are parsed, whatever the bytes are.
parse_digest-some :
    (d : List ℕ) → 764 ≤ length d → (g : HandshakeDigest) × (parse_digest d ≡ ok (764, g))
unfolding parse_digest
parse_digest-some d h =
    let (o, e) = some_int32 d (omega arith) in
    let n = calc_offset max_digest_offset o in
    let lt = calc_offset_lt max_digest_offset o (omega arith) in
    let c0 = some_copy d 4 n (omega (arith, lt)) in
    let c1 = some_copy d (4 + n) 32 (omega (arith, lt)) in
    let c2 = some_copy d (36 + n) (764 - 4 - n - 32) (omega (arith, lt)) in
    let g : HandshakeDigest = record {
      random0 = take n (drop 4 d);
      digest_ = take 32 (drop (4 + n) d);
      random1 = take (764 - 4 - n - 32) (drop (36 + n) d);
      offset = o;
    } in
    (g, rw (e, c0.0, c1.0, c2.0) (ap (λ (m : ℕ). ok (m, g)) (omega (arith, c0.1, c2.1, lt))))

parse_key-some : (d : List ℕ) → 764 ≤ length d → (k : HandshakeKey) × (parse_key d ≡ ok (764, k))
unfolding parse_key
parse_key-some d h =
    let (o, e) = some_int32 (drop 760 d) (omega (arith, length-drop 760 d)) in
    let n = calc_offset max_key_offset o in
    let lt = calc_offset_lt max_key_offset o (omega arith) in
    let c0 = some_copy d 0 n (omega (arith, lt)) in
    let c1 = some_copy d n 128 (omega (arith, lt)) in
    let c2 = some_copy d (n + 128) (764 - n - 128 - 4) (omega (arith, lt)) in
    let k : HandshakeKey = record {
      random0 = take n (drop 0 d);
      key_ = take 128 (drop n d);
      random1 = take (764 - n - 128 - 4) (drop (n + 128) d);
      offset = o;
    } in
    (k, rw (e, c0.0, c1.0, c2.0) (ap (λ (m : ℕ). ok (m, k)) (omega (arith, c0.1, c2.1, lt))))

-- S0, S1 and S2, of the right version and size, whatever else is in them: process_s0s1s2 returns 1537;
-- the digest is the block behind the version of S1, but the key is what stands behind S1, in S2; and
-- c2 is then S1.
pub process_s0s1s2-create_c2 :
    (rest : List ℕ) (h : RtmpHandshake)
    → length rest ≡ 3072
    → (h' : RtmpHandshake) × (process_s0s1s2 (0x03 ∷ rest) h ≡ ok (h', ok 1537))
      × (parse_digest (drop 8 rest) ≡ ok (764, h'.digest))
      × (parse_key (drop 1536 rest) ≡ ok (764, h'.key))
      × (create_c2 h' ≡ ok (record h' { c2 = some (take 1536 rest) }))
unfolding process_s0s1s2 create_c2 process_s1 read_int8
process_s0s1s2-create_c2 rest h size =
    let (t, et) = some_int32 rest (omega (arith, size)) in
    let (v, ev) = some_int32 (drop 4 rest) (omega (arith, size, length-drop 4 rest)) in
    let (g, eg) = parse_digest-some (drop 8 rest) (omega (arith, size, length-drop 8 rest)) in
    let (k, ek) = parse_key-some (drop 1536 rest) (omega (arith, size, length-drop 1536 rest)) in
    (
      record h { s0s1s2 = some (0x03 ∷ rest); time = t; version = v; digest = g; key = k },
      rw
          (
            le→ltb (length (0x03 ∷ rest)) 3073 (omega (arith, size)),
            le→ltb 3073 (length (0x03 ∷ rest)) (omega (arith, size)),
            et,
            ev,
            eg,
            ek,
          )
          refl,
      eg,
      ek,
      rw ((some_copy (0x03 ∷ rest) 1 1536 (omega (arith, size))).0) refl,
    )
