-- ===== src/Rtmp/Requests/Laws.antt =====
-- What decode_msg of rtmp_transport.cc makes of responses and of any command message.
use librtmp_client.Prelude.{
  ℕ, ◌+◌, ◌<◌, ◌^◌, ◌≡◌, refl, sym, ◌∙◌, true, false, List, [], ◌∷◌, ◌++◌, if◌then◌else◌, length,
  drop-append, arith, some, ok, bytes_eq, bytes_eq_self, bytes_eq→eq, Bool-cases, inl, inr, ==_self,
  if-true,
}
use librtmp_client.Amf0.Value.{Properties, string, number}
use librtmp_client.Amf0.Encoding.{IsShort, encode}
use librtmp_client.Rtmp.Command.Takes.{Takes-string, Takes-number}
use librtmp_client.Rtmp.Command.RoundTrip.{IsDecodable, kept}
use librtmp_client.Rtmp.Command.Size.{command_len}
use librtmp_client.Rtmp.Command.Fields.{fields, encode_fields}
use librtmp_client.Rtmp.Command.Codec.{taken, decode_command-fields}
use librtmp_client.Amf0.Read.{rtmp_amf0_read_string}
use librtmp_client.Rtmp.Command.{
  RtmpCommand, connect, connect_response, create_stream, create_stream_response, fmle_start,
  fmle_start_response, codes, double_eq, is_ordered, new_connect_response,
  new_create_stream_response, new_fmle_start_response,
}
use librtmp_client.Rtmp.Command.Decode.{decode_command, read_string, is_fmle_name}
use librtmp_client.Rtmp.Requests.{
  Requests, find_request, put_request, remember, response_packet, command_packet, request_name,
  body_offset, packet_for, decode_command_msg,
}

double_eq_cong : (m n k : ℕ) → double_eq m n ≡ true → double_eq m k ≡ double_eq n k
unfolding double_eq
double_eq_cong m n k h = ground arith

double_eq_comm : (m n : ℕ) → double_eq m n ≡ double_eq n m
unfolding double_eq
double_eq_comm m n = ground arith

-- What is found under a number after a request was stored is its name, if the numbers are equal
-- doubles, and otherwise what was there before.
pub find_request-put_request :
    (k n : ℕ) (name : List ℕ) (requests : Requests)
    → find_request k (put_request n name requests)
      ≡ (if double_eq n k then some name else find_request k requests)
unfolding find_request put_request
find_request-put_request k n name [] = refl
find_request-put_request k n name ((m, old) ∷ requests) = elim (Bool-cases (double_eq m n)) [
  | inl same ↦ rw (same, double_eq_cong m n k same) (ground arith)
  | inr other ↦
      rw (other, find_request-put_request k n name requests)
        (elim (Bool-cases (double_eq m k)) [
          | inl e ↦
              let e' : double_eq n k ≡ false =
                double_eq_comm n k ∙ sym (double_eq_cong m k n e) ∙ other in
              rw (e, e') refl
          | inr e ↦ rw e refl
        ])
]

-- The first value of a message, and the second.
name_there :
    (name rest : List ℕ)
    → IsShort name
    → rtmp_amf0_read_string (encode (string name) ++ rest) []
      ≡ ok (length (encode (string name)), name)
name_there name rest h = unfold read_string in taken (Takes-string [] name h (kept name))

packet_for-response :
    (requests : Requests) (type n : ℕ) (name rest : List ℕ) (fresh : RtmpCommand)
    → n < 2 ^ 64
    → find_request n requests ≡ some name
    → response_packet name ≡ ok fresh
    → packet_for requests type (encode (string (codes "_result")) ++ (encode (number n) ++ rest))
      ≡ ok fresh
unfolding packet_for request_name
packet_for-response requests type n name rest fresh h there new = rw (
  name_there (codes "_result") (encode (number n) ++ rest) (omega arith),
  bytes_eq_self (codes "_result"),
  drop-append (encode (string (codes "_result"))) (encode (number n) ++ rest),
  taken (Takes-number n h),
  there,
  new,
)

pub packet_for-command :
    (requests : Requests) (type : ℕ) (name rest : List ℕ)
    → IsShort name
    → bytes_eq name (codes "_result") ≡ false
    → bytes_eq name (codes "_error") ≡ false
    → packet_for requests type (encode (string name) ++ rest) ≡ command_packet type name
unfolding packet_for
packet_for-command requests type name rest h r e = rw (name_there name rest h, r, e) refl

-- Once the object is chosen, the message is decoded into the packet that was written.
pub decoded_by :
    (requests : Requests) (type : ℕ) (lead : List ℕ) (p fresh : RtmpCommand) (bytes : List ℕ)
    (n : ℕ)
    → length lead ≡ body_offset type
    → packet_for requests type bytes ≡ ok fresh
    → decode_command fresh bytes ≡ ok (n, p)
    → decode_command_msg requests type (lead ++ bytes) ≡ ok (body_offset type + n, p)
unfolding decode_command_msg
decoded_by requests type lead p fresh bytes n size new e =
    rw (← size, drop-append lead bytes, new, e) refl

-- The response to a request: of the class that belongs to it, with its number.
pub data Answers : RtmpCommand → RtmpCommand → Type 0 where
  to_connect :
      (n : ℕ) (obj object info : Properties)
      → Answers (connect (codes "connect") n obj) (connect_response (codes "_result") n object info)
  to_create_stream :
      (n streamid : ℕ)
      → Answers
          (create_stream (codes "createStream") n)
          (create_stream_response (codes "_result") n streamid)
  to_fmle_start :
      (name : List ℕ) (n : ℕ) (stream : List ℕ)
      → is_fmle_name name ≡ true
      → Answers (fmle_start name n stream) (fmle_start_response (codes "_result") n)

abbrev pub number_of : RtmpCommand → ℕ
number_of (connect name n obj) = n
number_of (create_stream name n) = n
number_of (fmle_start name n stream) = n
number_of _ = 0

stored :
    (n : ℕ) (name : List ℕ) (requests : Requests)
    → is_ordered n ≡ true
    → find_request n (put_request n name requests) ≡ some name
stored n name requests h =
    find_request-put_request n n name requests
    ∙ if-true _ _ (let e : double_eq n n ≡ true = unfold double_eq in rw (h, ==_self n) refl in e)

fmle_response :
    (name : List ℕ)
    → is_fmle_name name ≡ true
    → response_packet name ≡ ok (new_fmle_start_response 0)
unfolding response_packet
fmle_response name h = elim (Bool-cases (bytes_eq name (codes "releaseStream"))) [
  | inl e ↦ rw (bytes_eq→eq name (codes "releaseStream") e) (unfold bytes_eq in refl)
  | inr e ↦ elim (Bool-cases (bytes_eq name (codes "FCPublish"))) [
    | inl e' ↦ rw (bytes_eq→eq name (codes "FCPublish") e') (unfold bytes_eq in refl)
    | inr e' ↦
        let e'' : bytes_eq name (codes "FCUnpublish") ≡ true = sym (rw (← h, e, e') refl) in
        rw (bytes_eq→eq name (codes "FCUnpublish") e'') (unfold bytes_eq in refl)
  ]
]

-- A request of the client, of which the number is no NaN, makes the transport decode the response to
-- it, in a message of any type with what stands in front of its values, into the packet that was
-- written: its class is the one that belongs to the request, and all bytes are taken.
pub decode_command_msg-remember :
    (request p : RtmpCommand) (requests : Requests) (type : ℕ) (lead : List ℕ)
    → Answers request p
    → IsDecodable p
    → is_ordered (number_of request) ≡ true
    → length lead ≡ body_offset type
    → decode_command_msg (remember request requests) type (lead ++ encode_fields (fields p))
      ≡ ok (body_offset type + command_len p, p)
unfolding remember
decode_command_msg-remember _ _ requests type lead (to_connect n obj object info) h o size =
    decoded_by _ type lead _ new_connect_response _ _ size
      (packet_for-response _ type n (codes "connect") _ _ h.1
        (stored n (codes "connect") requests o) (unfold response_packet bytes_eq in refl))
      (decode_command-fields (connect_response (codes "_result") n object info) h)
decode_command_msg-remember _ _ requests type lead (to_create_stream n streamid) h o size =
    decoded_by _ type lead _ (new_create_stream_response 0 0) _ _ size
      (packet_for-response _ type n (codes "createStream") _ _ h.1
        (stored n (codes "createStream") requests o) (unfold response_packet bytes_eq in refl))
      (decode_command-fields (create_stream_response (codes "_result") n streamid) h)
decode_command_msg-remember _ _ requests type lead (to_fmle_start name n stream a) h o size =
    decoded_by _ type lead _ (new_fmle_start_response 0) _ _ size
      (packet_for-response _ type n name _ _ h.1 (stored n name requests o) (fmle_response name a))
      (decode_command-fields (fmle_start_response (codes "_result") n) h)
