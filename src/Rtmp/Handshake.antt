-- ===== src/Rtmp/Handshake.antt =====
-- The client's handshake, net/app_protocol/rtmp/rtmp_stack_handshake.cc. Parameters stand for what
-- is outside the program: `rand` for the values that rand() returns, `hmac` for OpenSSL's HMAC-SHA256,
-- and `now` for the time. A member that is a pointer with a size is the list of its bytes.
pub mod Blocks
pub mod Exchange
pub mod Tests
use librtmp_client.Prelude.{
  ℕ, zero, suc, ◌+◌, ◌-◌, ◌*◌, ◌/◌, ◌%◌, ◌^◌, min, Bool, true, false, List, [], ◌∷◌, ◌++◌, ◌==◌,
  ltb, leb, if◌then◌else◌, length, take, drop, Option, none, some, Result, ok, err, fault,
  out_of_fuel, ◌>>=◌,
}
use librtmp_client.NetIo.{write_int32, read_int8, read_int32}

pub record HandshakeKey : Type 0 where
  pub random0 : List ℕ
  pub key_ : List ℕ
  pub random1 : List ℕ
  pub offset : ℕ

pub record HandshakeDigest : Type 0 where
  pub random0 : List ℕ
  pub digest_ : List ℕ
  pub random1 : List ℕ
  pub offset : ℕ

-- `c0c1`, `s0s1s2` and `c2` are null before they are made.
pub record RtmpHandshake : Type 0 where
  pub c0c1 : Option (List ℕ)
  pub s0s1s2 : Option (List ℕ)
  pub c2 : Option (List ℕ)
  pub time : ℕ
  pub version : ℕ
  pub key : HandshakeKey
  pub digest : HandshakeDigest

-- `calc_offset`: the sum of the four bytes of `offset`, below a limit.
unfoldable pub calc_offset : ℕ → ℕ → ℕ
calc_offset max_offset_size offset =
    (offset % 2 ^ 8 + offset / 2 ^ 8 % 2 ^ 8 + offset / 2 ^ 16 % 2 ^ 8 + offset / 2 ^ 24 % 2 ^ 8)
    % max_offset_size

abbrev pub max_key_offset : ℕ
max_key_offset = 764 - 128 - 4

abbrev pub max_digest_offset : ℕ
max_digest_offset = 764 - 32 - 4

-- `random_generate`, from the value of rand() at `i` on.
unfoldable pub random_generate : (ℕ → ℕ) → ℕ → ℕ → List ℕ
random_generate rand i zero = []
random_generate rand i (suc size) =
    (0x0f + rand i % (256 - 0x0f - 0x0f)) ∷ random_generate rand (suc i) size

-- RTMP_SIG_HANDSHAKR
abbrev pub signature : List ℕ
signature = 82 ∷ 84 ∷ 77 ∷ 80 ∷ 95 ∷ 76 ∷ 73 ∷ 66 ∷ 40 ∷ 48 ∷ 46 ∷ 48 ∷ 46 ∷ 49 ∷ 41 ∷ []

-- `snprintf(random, size, "%s", ...)`: the text as far as it fits, and a 0 byte.
unfoldable pub print_signature : List ℕ → List ℕ
print_signature [] = []
print_signature (b ∷ bytes) =
    let n = min (length bytes) (length signature) in
    take n signature ++ (0 ∷ drop (suc n) (b ∷ bytes))

unfoldable pub random_block : (ℕ → ℕ) → ℕ → ℕ → List ℕ
unfolding random_generate print_signature
random_block rand i size = print_signature (random_generate rand i size)

-- The constructors; rand() goes on from `i`.
unfoldable pub new_handshake_key : (ℕ → ℕ) → ℕ → HandshakeKey
unfolding calc_offset random_block
new_handshake_key rand i =
    let offset = rand i % 2 ^ 32 in
    let valid_offset = calc_offset max_key_offset offset in
    record {
      random0 = random_block rand (i + 1) valid_offset;
      key_ = random_generate rand (i + 1 + valid_offset) 128;
      random1 = random_block rand (i + 129 + valid_offset) (764 - valid_offset - 128 - 4);
      offset = offset;
    }

unfoldable pub new_handshake_digest : (ℕ → ℕ) → ℕ → HandshakeDigest
unfolding calc_offset random_block
new_handshake_digest rand i =
    let offset = rand i % 2 ^ 32 in
    let valid_offset = calc_offset max_digest_offset offset in
    record {
      random0 = random_block rand (i + 1) valid_offset;
      digest_ = random_generate rand (i + 1 + valid_offset) 32;
      random1 = random_block rand (i + 33 + valid_offset) (764 - 4 - valid_offset - 32);
      offset = offset;
    }

-- memcpy of `n` bytes from `data + at`.
unfoldable pub copy_from : List ℕ → ℕ → ℕ → Result (List ℕ)
copy_from data' at n = if leb (at + n) (length data') then ok (take n (drop at data')) else fault

-- `parse_key(data, 764)`, with what follows the 764 bytes in `data`.
unfoldable pub parse_key : List ℕ → Result (ℕ × HandshakeKey)
unfolding calc_offset copy_from
parse_key data' = do
  offset ← read_int32 (drop 760 data')
  random0 ← copy_from data' 0 (calc_offset max_key_offset offset)
  key_ ← copy_from data' (calc_offset max_key_offset offset) 128
  random1 ←
      copy_from data' (calc_offset max_key_offset offset + 128)
        (764 - calc_offset max_key_offset offset - 128 - 4)
  ok (
    length random0 + 128 + length random1 + 4,
    record { random0 = random0; key_ = key_; random1 = random1; offset = offset },
  )

-- `parse_digest(data, 764)`
unfoldable pub parse_digest : List ℕ → Result (ℕ × HandshakeDigest)
unfolding calc_offset copy_from
parse_digest data' = do
  offset ← read_int32 data'
  random0 ← copy_from data' 4 (calc_offset max_digest_offset offset)
  digest_ ← copy_from data' (4 + calc_offset max_digest_offset offset) 32
  random1 ←
      copy_from data' (36 + calc_offset max_digest_offset offset)
        (764 - 4 - calc_offset max_digest_offset offset - 32)
  ok (
    4 + length random0 + 32 + length random1,
    record { random0 = random0; digest_ = digest_; random1 = random1; offset = offset },
  )

unfoldable pub build_key : HandshakeKey → List ℕ
build_key k = k.random0 ++ (k.key_ ++ (k.random1 ++ write_int32 k.offset))

-- The last random bytes are written where those of the key are not empty.
unfoldable pub build_digest : HandshakeKey → HandshakeDigest → Bool → List ℕ
build_digest k d with_digest =
    write_int32 d.offset
    ++ (d.random0
        ++ ((if with_digest then d.digest_ else [])
            ++ (if ltb 0 (length k.random1) then d.random1 else [])))

-- The order of the two blocks: schema_type0 is true.
unfoldable pub blocks : Bool → RtmpHandshake → Bool → List ℕ
unfolding build_key build_digest
blocks schema0 h with_digest =
    if schema0
    then build_key h.key ++ build_digest h.key h.digest with_digest
    else build_digest h.key h.digest with_digest ++ build_key h.key

abbrev pub fp_key : List ℕ
fp_key =
    0x47 ∷ 0x65 ∷ 0x6e ∷ 0x75 ∷ 0x69 ∷ 0x6e ∷ 0x65 ∷ 0x20 ∷ 0x41 ∷ 0x64 ∷ 0x6f ∷ 0x62 ∷ 0x65 ∷ 0x20
    ∷ 0x46 ∷ 0x6c ∷ 0x61 ∷ 0x73 ∷ 0x68 ∷ 0x20 ∷ 0x50 ∷ 0x6c ∷ 0x61 ∷ 0x79 ∷ 0x65 ∷ 0x72 ∷ 0x20
    ∷ 0x30 ∷ 0x30 ∷ 0x31 ∷ []

-- A failure of OpenSSL is `none`, and leaves the digest as it was.
unfoldable pub calc_c1_digest :
    (List ℕ → List ℕ → Option (List ℕ)) → HandshakeDigest → List ℕ → HandshakeDigest
calc_c1_digest hmac d joinbytes = elim (hmac fp_key joinbytes) [
  | some c1_digest ↦ record d { digest_ = take 32 c1_digest }
  | none ↦ d
]

unfoldable pub general_c0c1 : Bool → RtmpHandshake → List ℕ
unfolding blocks
general_c0c1 schema0 h =
    0x03 ∷ write_int32 h.time ++ (write_int32 h.version ++ blocks schema0 h true)

unfoldable pub create_c0c1 :
    (List ℕ → List ℕ → Option (List ℕ)) → ℕ → Bool → RtmpHandshake → RtmpHandshake
unfolding calc_c1_digest general_c0c1
create_c0c1 hmac now schema0 h =
    let h' = record h { time = now; version = 0x80000702 } in
    let c1_payload = write_int32 now ++ (write_int32 0x80000702 ++ blocks schema0 h' false) in
    let h'' = record h' { digest = calc_c1_digest hmac h.digest c1_payload } in
    record h'' { c0c1 = some (general_c0c1 schema0 h'') }

unfoldable pub create_c2 : RtmpHandshake → Result RtmpHandshake
unfolding copy_from
create_c2 h = elim (h.s0s1s2) [
  | some s ↦ copy_from s 1 1536 >>= λ bytes. ok (record h { c2 = some bytes })
  | none ↦ fault
]

-- After the version byte of S0.
unfoldable pub process_s1 : List ℕ → RtmpHandshake → Result (RtmpHandshake × ℕ)
unfolding parse_digest parse_key
process_s1 data' h = do
  time ← read_int32 (drop 1 data')
  version ← read_int32 (drop 5 data')
  (n, digest) ← parse_digest (drop 9 data')
  (m, key) ← parse_key (drop (9 + n + 764) data')
  ok (record h { time = time; version = version; digest = digest; key = key }, 9 + n + m)

-- The handshake after the call, and what it returns. The copy to `s0s1s2`, which has 3073 bytes, is
-- of all the bytes given.
unfoldable pub process_s0s1s2 : List ℕ → RtmpHandshake → Result (RtmpHandshake × Result ℕ)
unfolding process_s1
process_s0s1s2 data' h =
    if ltb (length data') 3073
    then ok (h, err 1)
    else if ltb 3073 (length data')
    then fault
    else (do
      ver ← read_int8 data'
      let h' = record h { s0s1s2 = some data' } in
          if ver == 0x03
          then (do (h'', n) ← process_s1 data' h'; ok (h'', ok n))
          else ok (h', err 2))
