-- ===== src/Rtmp/Handshake/Tests.antt =====
-- Runs of the handshake on fixed random values.
use librtmp_client.Prelude.{
  ℕ, ◌+◌, ◌*◌, ◌≡◌, sym, ap, ◌∙◌, false, List, ◌∷◌, drop, take, length, replicate, length-replicate,
  Option, none, some, ok,
}
use librtmp_client.Rtmp.Handshake.{
  RtmpHandshake, new_handshake_key, new_handshake_digest, parse_digest, parse_key, create_c0c1,
  create_c2, process_s0s1s2,
}
use librtmp_client.Rtmp.Handshake.Blocks.{new_handshake_key-IsKey, new_handshake_digest-IsDigest}
use librtmp_client.Rtmp.Handshake.Exchange.{IsSha256, create_c0c1-parse, process_s0s1s2-create_c2}

abbrev counting : ℕ → ℕ
counting i = i * 37

abbrev constant_hmac : List ℕ → List ℕ → Option (List ℕ)
constant_hmac fp message = some (replicate 32 171)

constant_hmac-IsSha256 : IsSha256 constant_hmac
constant_hmac-IsSha256 message bytes e =
    ap (λ (r : Option (List ℕ)). elim r [ some b ↦ length b | none ↦ 32 ]) (sym e)
    ∙ length-replicate {A = ℕ} 32 171

abbrev pub new_handshake : RtmpHandshake
new_handshake = record {
  c0c1 = none;
  s0s1s2 = none;
  c2 = none;
  time = 0;
  version = 0;
  key = new_handshake_key counting 0;
  digest = new_handshake_digest counting 900;
}

create_c0c1-parse_example :
    (bytes : List ℕ) × ((create_c0c1 constant_hmac 7 false new_handshake).c0c1 ≡ some bytes)
    × (length bytes ≡ 1537)
    × (parse_digest (drop 9 bytes)
        ≡ ok (764, (create_c0c1 constant_hmac 7 false new_handshake).digest))
    × (parse_key (drop (9 + 764) bytes)
        ≡ ok (764, (create_c0c1 constant_hmac 7 false new_handshake).key))
create_c0c1-parse_example =
    create_c0c1-parse constant_hmac 7 new_handshake constant_hmac-IsSha256
      (new_handshake_key-IsKey counting 0) (new_handshake_digest-IsDigest counting 900)

process_s0s1s2-create_c2_example :
    (h' : RtmpHandshake) × (process_s0s1s2 (0x03 ∷ replicate 3072 7) new_handshake
      ≡ ok (h', ok 1537))
    × (parse_digest (drop 8 (replicate 3072 7)) ≡ ok (764, h'.digest))
    × (parse_key (drop 1536 (replicate 3072 7)) ≡ ok (764, h'.key))
    × (create_c2 h' ≡ ok (record h' { c2 = some (take 1536 (replicate 3072 7)) }))
process_s0s1s2-create_c2_example =
    process_s0s1s2-create_c2 (replicate 3072 7) new_handshake (length-replicate {A = ℕ} 3072 7)
