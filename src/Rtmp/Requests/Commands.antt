-- ===== src/Rtmp/Requests/Commands.antt =====
-- decode_msg of rtmp_transport.cc on commands that are no responses, and on any bytes.
use librtmp_client.Prelude.{
  le→leb, ReturnsUnless, yields, Unless->>=, Unless-of, Unless-map, ℕ, ◌+◌, ◌≤◌, ◌<◌, ◌^◌, ◌≡◌,
  refl, sym, ap, ◌∙◌, append-nil, List, [], ◌++◌, ◌==◌, ◌||◌, length, drop, length-drop, arith,
  Option, none, some, ok, bytes_eq, Returns, gives, refuses, Returns->>=, Returns-if,
}
use librtmp_client.Amf0.Value.{string}
use librtmp_client.Amf0.Encoding.{IsShort, encode}
use librtmp_client.Amf0.Reader.Leaves.{string-Returns, number-Returns}
use librtmp_client.Rtmp.Command.{
  RtmpCommand, connect, connect_response, call, call_response, create_stream,
  create_stream_response, close_stream, fmle_start, fmle_start_response, publish, pause_stream,
  play, play_response, on_bw_done, on_status_call, on_status_data, sample_access, on_meta_data,
  codes, rtmp_msg_amf3_command_message, rtmp_msg_amf0_command_message, new_close_stream,
}
use librtmp_client.Rtmp.Command.Size.{command_len}
use librtmp_client.Rtmp.Command.Fields.{fields, encode_fields, encode_command-fields}
use librtmp_client.Rtmp.Command.RoundTrip.{IsDecodable}
use librtmp_client.Rtmp.Command.Decode.{decode_command, decode_close_stream}
use librtmp_client.Rtmp.Command.Takes.{
  Takes, Takes->>=, Takes-pure, Takes-string, Takes-number, Takes-null,
}
use librtmp_client.Rtmp.Command.Encode.{encode_command}
use librtmp_client.Rtmp.Command.Codec.{
  IsDecodable-AreShort, taken, decode_command-fields, fresh_of, decoded_len,
}
use librtmp_client.Rtmp.Command.Stays.{Broken, Broken-drop}
use librtmp_client.Rtmp.Command.Safety.{HasTables, excess, decode_command-Returns}
use librtmp_client.Rtmp.Requests.{
  Requests, request_name, found, response_packet, command_packet, find_request, body_offset,
  packet_for, decode_command_msg,
}
use librtmp_client.Rtmp.Requests.Dispatch.{name_of, IsRequest, request-IsChosen}
use librtmp_client.Rtmp.Requests.Laws.{packet_for-command, decoded_by}

-- A packet begins with its name.
begins :
    (p : RtmpCommand)
    → IsDecodable p
    → (rest : List ℕ) × (encode_fields (fields p) ≡ encode (string (name_of p)) ++ rest)
      × IsShort (name_of p)
begins (connect name n obj) h = (_, refl, rw h.0 (omega arith))
begins (connect_response name n obj info) h = (_, refl, rw h.0 (omega arith))
begins (call name n none args) h = absurd h
begins (call name n (some obj) args) h = (_, refl, h.0)
begins (create_stream name n) h = (_, refl, rw h.0 (omega arith))
begins (create_stream_response name n streamid) h = (_, refl, rw h.0 (omega arith))
begins (fmle_start name n stream) h = (_, refl, h.0)
begins (fmle_start_response name n) h = (_, refl, rw h.0 (omega arith))
begins (publish name n stream type) h = (_, refl, rw h.0 (omega arith))
begins (play name n stream start duration reset) h = (_, refl, rw h.0 (omega arith))
begins (on_meta_data name metadata) h = (_, refl, h.0)
begins (call_response name n obj response) h = absurd h
begins (close_stream name n) h = absurd h
begins (pause_stream name n pause time) h = absurd h
begins (play_response name n desc) h = absurd h
begins (on_bw_done name n) h = absurd h
begins (on_status_call name n data') h = absurd h
begins (on_status_data name data') h = absurd h
begins (sample_access name video audio) h = absurd h

-- A packet that `decode` reads, of the class that the protocol has for its name, is written into enough
-- room, and from what is written decode_msg makes the packet again: in a message of any type with what
-- stands in front of its values, whatever requests wait for a response.
pub decode_command_msg-command :
    (p : RtmpCommand) (requests : Requests) (type size : ℕ) (lead : List ℕ)
    → IsDecodable p
    → IsRequest type p
    → command_len p ≤ size
    → length lead ≡ body_offset type
    → (written : List ℕ) × (encode_command p size ≡ ok written)
      × (decode_command_msg requests type (lead ++ written)
          ≡ ok (body_offset type + decoded_len p, p))
decode_command_msg-command p requests type size lead h request room offset =
    let (rest, e, short) = begins p h in
    let chosen = request-IsChosen type p h request in
    (
      encode_fields (fields p),
      (encode_command-fields p size (IsDecodable-AreShort p h)).0
          ∙ rw (le→leb (command_len p) size room) refl,
      decoded_by requests type lead p (fresh_of p) (encode_fields (fields p)) (decoded_len p) offset
          (rw e
            (packet_for-command requests type (name_of p) rest short chosen.1 chosen.2 ∙ chosen.0))
          (decode_command-fields p h),
    )

create_stream-Takes_close :
    (n : ℕ)
    → n < 2 ^ 64
    → Takes
        (decode_close_stream (codes "closeStream"))
        (encode_fields (fields (create_stream (codes "createStream") n)))
        (close_stream (codes "createStream") n)
        []
unfolding decode_close_stream
create_stream-Takes_close n h =
    Takes->>= _ (Takes-string _ (codes "createStream") (omega arith) refl)
      (Takes->>= _ (Takes-number n h) (Takes->>= _ Takes-null Takes-pure))

-- The request createStream is written by RtmpCreateStreamPacket into enough room, and decode_msg makes
-- a RtmpCloseStreamPacket of what is written, with the name createStream and the same number: in a
-- message of any type with what stands in front of its values, whatever requests wait.
pub decode_command_msg-create_stream :
    (n : ℕ) (requests : Requests) (type size : ℕ) (lead : List ℕ)
    → n < 2 ^ 64
    → command_len (create_stream (codes "createStream") n) ≤ size
    → length lead ≡ body_offset type
    → (written : List ℕ) × (encode_command (create_stream (codes "createStream") n) size
        ≡ ok written)
      × (decode_command_msg requests type (lead ++ written)
          ≡ ok (
            body_offset type + command_len (create_stream (codes "createStream") n),
            close_stream (codes "createStream") n,
          ))
unfolding decode_command
decode_command_msg-create_stream n requests type size lead h room offset =
    let p = create_stream (codes "createStream") n in
    let e = encode_command-fields p size (omega arith, (tt, (tt, tt))) in
    (
      encode_fields (fields p),
      e.0 ∙ rw (le→leb (command_len p) size room) refl,
      decoded_by requests type lead (close_stream (codes "createStream") n) new_close_stream _ _
          offset
          (packet_for-command requests type (codes "createStream") _ (omega arith)
              (unfold bytes_eq in refl) (unfold bytes_eq in refl)
            ∙ (unfold command_packet bytes_eq in refl))
          (unfold new_close_stream in
            ap (λ b. decode_close_stream (codes "closeStream") b) (sym (append-nil _))
            ∙ taken (create_stream-Takes_close n h)
            ∙ ap (λ (k : ℕ). ok (k, close_stream (codes "createStream") n)) e.1),
    )

-- The objects that decode_msg makes have empty tables.
response_packet-Returns : (name : List ℕ) → Returns HasTables (response_packet name)
unfolding response_packet
response_packet-Returns name =
    Returns-if (bytes_eq name (codes "connect")) (λ _. gives (tt, tt))
      λ _.
        Returns-if (bytes_eq name (codes "createStream")) (λ _. gives tt)
          λ _.
            Returns-if (bytes_eq name (codes "releaseStream")) (λ _. gives tt)
              λ _.
                Returns-if (bytes_eq name (codes "FCPublish")) (λ _. gives tt)
                  λ _.
                    Returns-if (bytes_eq name (codes "FCUnpublish")) (λ _. gives tt) λ _. refuses 2

command_packet-Returns :
    (type : ℕ) (command : List ℕ) → Returns HasTables (command_packet type command)
unfolding command_packet
command_packet-Returns type command =
    Returns-if (bytes_eq command (codes "connect")) (λ _. gives (tt, tt))
      λ _.
        Returns-if (bytes_eq command (codes "createStream")) (λ _. gives tt)
          λ _.
            Returns-if (bytes_eq command (codes "play")) (λ _. gives tt)
              λ _.
                Returns-if (bytes_eq command (codes "pause")) (λ _. gives tt)
                  λ _.
                    Returns-if (bytes_eq command (codes "releaseStream")) (λ _. gives tt)
                      λ _.
                        Returns-if (bytes_eq command (codes "FCPublish")) (λ _. gives tt)
                          λ _.
                            Returns-if (bytes_eq command (codes "publish")) (λ _. gives tt)
                              λ _.
                                Returns-if (bytes_eq command (codes "FCUnpublish")) (λ _. gives tt)
                                  λ _.
                                    Returns-if (bytes_eq command (codes "@setDataFrame"))
                                      (λ _. gives tt)
                                      λ _.
                                        Returns-if (bytes_eq command (codes "onMetaData"))
                                          (λ _. gives tt)
                                          λ _.
                                            Returns-if (bytes_eq command (codes "closeStream"))
                                              (λ _. gives tt)
                                              λ _.
                                                Returns-if
                                                  (type == rtmp_msg_amf0_command_message
                                                    || type == rtmp_msg_amf3_command_message)
                                                  (λ _. gives tt) λ _. refuses 2

found-Returns : (r : Option (List ℕ)) → Returns (λ (name : List ℕ). Unit {0}) (found r)
found-Returns (some name) = gives tt
found-Returns none = refuses 2

packet_for-Returns :
    (requests : Requests) (type : ℕ) (d : List ℕ) → Returns HasTables (packet_for requests type d)
unfolding packet_for request_name
packet_for-Returns requests type d = Returns->>= (string-Returns d []) λ (a, command) _.
    Returns-if (bytes_eq command (codes "_result") || bytes_eq command (codes "_error"))
      (λ _. Returns->>= (number-Returns (drop a d)) λ (b, n) _.
        Returns->>= (found-Returns (find_request n requests))
          λ name _. response_packet-Returns name)
      (λ _. command_packet-Returns type command)

excess_le : (p : RtmpCommand) → excess p ≤ 1
excess_le (connect_response name n obj info) = omega arith
excess_le _ = omega arith

body_offset_le : (type : ℕ) → body_offset type ≤ 1
unfolding body_offset
body_offset_le type = ground arith

-- Whatever requests wait, on any body of a command or data message decode_msg comes back without an
-- access outside the body: with an error, or with a packet, and then it counts at most two bytes more
-- than the body has; unless the `read` of a value in the body deletes an object twice, and would
-- answer with an error without the second delete.
pub decode_command_msg-Returns :
    (requests : Requests) (type : ℕ) (body : List ℕ)
    → ReturnsUnless
        (Broken body)
        (λ (r : ℕ × RtmpCommand). r.0 ≤ length body + 2)
        (decode_command_msg requests type body)
unfolding decode_command_msg
decode_command_msg-Returns requests type body =
    let offset = body_offset type in
    Unless->>= (Unless-of (packet_for-Returns requests type (drop offset body))) λ fresh h.
      Unless->>=
        (Unless-map (decode_command-Returns fresh (drop offset body) h) (Broken-drop offset body)
          λ _ w. w)
        λ (n, p) w.
          yields (omega (arith, w, excess_le fresh, body_offset_le type, length-drop offset body))
