-- ===== src/Rtmp/Command/RoundTrip.antt =====
-- Reading back the command packets of net/app_protocol/rtmp/rtmp_stack_packet.cc.
use librtmp_client.Prelude.{
  ℕ, ◌≤◌, ◌<◌, ◌^◌, ◌≡◌, ◌≢◌, refl, true, false, List, [], ◌∷◌, not, length, arith, append-nil,
  Option, none, some, bytes_eq, bytes_eq_self,
}
use librtmp_client.Amf0.Value.{RtmpAmf0Any, Properties, string, object, no_properties}
use librtmp_client.Amf0.Encoding.{encode, IsShort, length-encode}
use librtmp_client.Amf0.RoundTrip.{IsEncodable, total_size_pos}
use librtmp_client.Amf0.RoundTrip.Leaves.{or_kept}
use librtmp_client.Rtmp.Command.{
  RtmpCommand, connect, connect_response, call, create_stream, create_stream_response, fmle_start,
  fmle_start_response, publish, play, on_meta_data, codes, double_one,
}
use librtmp_client.Rtmp.Command.Takes.{
  Takes, Takes->>=, Takes-pure, Takes-string, Takes-number, Takes-null, Takes-undefined, Takes-any,
  Takes-object, Takes-discovered, Takes-or_minus_one, Takes-if_more, Takes-if_none, check_then,
}
use librtmp_client.Rtmp.Command.Reader.{◌>>=◌, pure, if_more}
use librtmp_client.Rtmp.Command.Fields.{fields, encode_fields}
use librtmp_client.Rtmp.Command.Decode.{
  decode_connect_response, decode_call, decode_create_stream_response, decode_fmle_start,
  decode_fmle_start_response, decode_publish, is_fmle_name, read_discovered, decode_create_stream,
}

abbrev pub IsWord : ℕ → Type 0
IsWord n = n < 2 ^ 64

abbrev IsEncodableField : Option RtmpAmf0Any → Type 0
IsEncodableField none = Unit {0}
IsEncodableField (some v) = IsEncodable v

-- A packet that `decode` of its class is for: it has the class's command name, and its fields can be
-- read back.
abbrev pub IsDecodable : RtmpCommand → Type 0
IsDecodable (connect name n obj) =
    (name ≡ codes "connect") × (n ≡ double_one) × IsEncodable (object obj)
IsDecodable (connect_response name n obj info) =
    (name ≡ codes "_result") × IsWord n × IsEncodable (object obj) × IsEncodable (object info)
IsDecodable (call name n none args) = ⊥
IsDecodable (call name n (some obj) args) =
    IsShort name × (name ≢ []) × IsWord n × IsEncodable obj × IsEncodableField args
IsDecodable (create_stream name n) = (name ≡ codes "createStream") × IsWord n
IsDecodable (create_stream_response name n streamid) =
    (name ≡ codes "_result") × IsWord n × IsWord streamid
IsDecodable (fmle_start name n stream) =
    IsShort name × (is_fmle_name name ≡ true) × IsWord n × IsShort stream
IsDecodable (fmle_start_response name n) = (name ≡ codes "_result") × IsWord n
IsDecodable (publish name n stream type) =
    (name ≡ codes "publish") × IsWord n × IsShort stream × IsShort type × (type ≢ [])
IsDecodable (play name n stream start duration reset) =
    (name ≡ codes "play") × IsWord n × IsShort stream × IsWord start × IsWord duration
IsDecodable (on_meta_data name metadata) =
    IsShort name
    × (name ≢ [])
    × (bytes_eq name (codes "@setDataFrame") ≡ false)
    × IsEncodable (object metadata)
IsDecodable _ = ⊥

pub or_kept_other : (s value : List ℕ) → s ≢ [] → or_kept s value ≡ s
or_kept_other [] value h = absurd (h refl)
or_kept_other (x ∷ s) value h = refl

pub kept : (s : List ℕ) → or_kept s [] ≡ s
kept [] = refl
kept (x ∷ s) = refl

pub encode_long : (v : RtmpAmf0Any) → 1 ≤ length (encode v)
encode_long v = omega (arith, length-encode v, total_size_pos v)

pub connect_response-Takes :
    (n : ℕ) (obj info : Properties)
    → IsWord n
    → IsEncodable (object obj)
    → IsEncodable (object info)
    → Takes
        (decode_connect_response (codes "_result") no_properties no_properties)
        (encode_fields (fields (connect_response (codes "_result") n obj info)))
        (connect_response (codes "_result") n obj info)
        []
unfolding decode_connect_response
connect_response-Takes n obj info hn ho hi =
    Takes->>= _ (Takes-or_minus_one (Takes-string _ (codes "_result") (omega arith) refl)) (
      check_then _ _ (bytes_eq_self (codes "_result")) (
        Takes->>= _ (Takes-or_minus_one (Takes-number n hn)) (
          Takes->>= _
            (Takes-if_more _ (encode_long (object obj)) (
              rw (← append-nil (encode (object obj)))
                (Takes->>= _ (Takes-or_minus_one (Takes-any (object obj) ho)) Takes-pure)))
            (Takes->>= _ (Takes-object info hi) Takes-pure))))

pub call-Takes :
    (name : List ℕ) (n : ℕ) (obj : RtmpAmf0Any) (args : Option RtmpAmf0Any)
    → IsDecodable (call name n (some obj) args)
    → Takes
        (decode_call [] none)
        (encode_fields (fields (call name n (some obj) args)))
        (call name n (some obj) args)
        []
unfolding decode_call
call-Takes name n obj args h = Takes->>= _ (Takes-string _ name h.0 (or_kept_other name [] h.1)) (
    check_then _ _ (named name h.1) (
      Takes->>= _ (Takes-or_minus_one (Takes-number n h.2))
        (Takes->>= _ (Takes-discovered obj h.3) (rest args h.4))))
  where
    named : (s : List ℕ) → s ≢ [] → not (bytes_eq s []) ≡ true
    named [] e = absurd (e refl)
    named (x ∷ s) e = unfold bytes_eq in refl

    rest :
        (f : Option RtmpAmf0Any)
        → IsEncodableField f
        → Takes
            (if_more none (read_discovered >>= λ v. pure (some v)) >>= λ args'.
              pure (call name n (some obj) args'))
            (encode_fields (f ∷ []))
            (call name n (some obj) f)
            []
    rest none e = Takes->>= _ {bytes = []} (Takes-if_none none _) Takes-pure
    rest (some w) e =
        Takes->>= _
          (Takes-if_more _ (encode_long w)
            (rw (← append-nil (encode w)) (Takes->>= _ (Takes-discovered w e) Takes-pure)))
          Takes-pure

pub create_stream-Takes :
    (n : ℕ)
    → IsWord n
    → Takes
        (decode_create_stream (codes "createStream"))
        (encode_fields (fields (create_stream (codes "createStream") n)))
        (create_stream (codes "createStream") n)
        []
unfolding decode_create_stream
create_stream-Takes n h = Takes->>= _ (Takes-string _ (codes "createStream") (omega arith) refl) (
    check_then _ _ (bytes_eq_self (codes "createStream"))
      (Takes->>= _ (Takes-number n h) (Takes->>= _ Takes-null Takes-pure)))

pub create_stream_response-Takes :
    (n streamid : ℕ)
    → IsWord n
    → IsWord streamid
    → Takes
        (decode_create_stream_response (codes "_result"))
        (encode_fields (fields (create_stream_response (codes "_result") n streamid)))
        (create_stream_response (codes "_result") n streamid)
        []
unfolding decode_create_stream_response
create_stream_response-Takes n streamid h hs =
    Takes->>= _ (Takes-string _ (codes "_result") (omega arith) refl) (
      check_then _ _ (bytes_eq_self (codes "_result")) (
        Takes->>= _ (Takes-number n h)
          (Takes->>= _ Takes-null (Takes->>= _ (Takes-number streamid hs) Takes-pure))))

pub fmle_start-Takes :
    (name : List ℕ) (n : ℕ) (stream : List ℕ)
    → IsDecodable (fmle_start name n stream)
    → Takes
        (decode_fmle_start (codes "releaseStream") [])
        (encode_fields (fields (fmle_start name n stream)))
        (fmle_start name n stream)
        []
unfolding decode_fmle_start
fmle_start-Takes name n stream h =
    Takes->>= _ (Takes-string _ name h.0 (or_kept_other name _ (nonempty name h.1))) (
      check_then _ _ h.1 (
        Takes->>= _ (Takes-number n h.2) (
          Takes->>= _ Takes-null
            (Takes->>= _ (Takes-string _ stream h.3 (kept stream)) Takes-pure))))
  where
    nonempty : (s : List ℕ) → is_fmle_name s ≡ true → s ≢ []
    nonempty [] e = unfold bytes_eq in cc
    nonempty (x ∷ s) e = λ p. cc

pub fmle_start_response-Takes :
    (n : ℕ)
    → IsWord n
    → Takes
        (decode_fmle_start_response (codes "_result"))
        (encode_fields (fields (fmle_start_response (codes "_result") n)))
        (fmle_start_response (codes "_result") n)
        []
unfolding decode_fmle_start_response
fmle_start_response-Takes n h = Takes->>= _ (Takes-string _ (codes "_result") (omega arith) refl) (
    check_then _ _ (bytes_eq_self (codes "_result")) (
      Takes->>= _ (Takes-number n h)
        (Takes->>= _ Takes-null (Takes->>= _ Takes-undefined Takes-pure))))

pub publish-Takes :
    (n : ℕ) (stream type : List ℕ)
    → IsDecodable (publish (codes "publish") n stream type)
    → Takes
        (decode_publish (codes "publish") [] (codes "live"))
        (encode_fields (fields (publish (codes "publish") n stream type)))
        (publish (codes "publish") n stream type)
        []
unfolding decode_publish
publish-Takes n stream type h = Takes->>= _ (Takes-string _ (codes "publish") (omega arith) refl) (
    check_then _ _ (bytes_eq_self (codes "publish")) (
      Takes->>= _ (Takes-number n h.1) (
        Takes->>= _ Takes-null (
          Takes->>= _ (Takes-string _ stream h.2 (kept stream)) (
            Takes->>= _
              (Takes-if_more _ (encode_long (string type))
                (Takes-string _ type h.3 (or_kept_other type _ h.4)))
              Takes-pure)))))
