-- ===== src/Rtmp/Command/Codec.antt =====
-- encode_pkg and decode of the command packets of net/app_protocol/rtmp/rtmp_stack_packet.cc together.
use librtmp_client.Prelude.{
  ℕ, suc, ◌+◌, ◌≤◌, ◌≡◌, refl, sym, ap, ◌∙◌, Bool, true, false, List, [], ◌∷◌, ◌++◌, not,
  if◌then◌else◌, length, drop, arith, append-nil, append_assoc, length-append, drop-append,
  drop-drop, Option, none, some, Result, ok, bytes_eq, bytes_eq_self, ==_self, le→leb,
}
use librtmp_client.Amf0.Value.{
  RtmpAmf0Any, boolean, string, number, object, Properties, no_properties,
}
use librtmp_client.Amf0.Encoding.{encode, HasShort}
use librtmp_client.Amf0.Read.{read, rtmp_amf0_read_string}
use librtmp_client.Rtmp.Command.Reader.{Reader}
use librtmp_client.Prelude
use librtmp_client.Amf0.RoundTrip.{IsEncodable, IsEncodable-HasShort}
use librtmp_client.Rtmp.Command.{
  RtmpCommand, connect, connect_response, call, call_response, create_stream,
  create_stream_response, close_stream, fmle_start, fmle_start_response, publish, pause_stream,
  play, play_response, on_bw_done, on_status_call, on_status_data, sample_access, on_meta_data,
  codes, double_one, new_connect, new_connect_response, new_call, new_create_stream,
  new_create_stream_response, new_fmle_start, new_fmle_start_response, new_publish, new_play,
  new_on_meta_data,
}
use librtmp_client.Rtmp.Command.Encode.{encode_command}
use librtmp_client.Rtmp.Command.Size.{has_start, has_duration, command_len}
use librtmp_client.Rtmp.Command.Fields.{
  Field, AreShort, fields, encode_fields, encode_command-fields,
}
use librtmp_client.Rtmp.Command.Decode.{
  properties_of, decode_command, decode_connect, read_object, read_string,
}
use librtmp_client.Rtmp.Command.Takes.{Takes, takes, Takes-string, Takes-number, Takes-object}
use librtmp_client.Rtmp.Command.RoundTrip.{
  IsDecodable, connect_response-Takes, call-Takes, create_stream-Takes,
  create_stream_response-Takes, fmle_start-Takes, fmle_start_response-Takes, publish-Takes,
}
use librtmp_client.Rtmp.Command.PlayRoundTrip.{play-Takes, on_meta_data-Takes}

-- The object that decode_msg makes for a packet of this class.
abbrev pub fresh_of : RtmpCommand → RtmpCommand
fresh_of (connect name n obj) = new_connect
fresh_of (connect_response name n obj info) = new_connect_response
fresh_of (call name n obj args) = new_call
fresh_of (create_stream name n) = new_create_stream
fresh_of (create_stream_response name n streamid) = new_create_stream_response 0 0
fresh_of (fmle_start name n stream) = new_fmle_start
fresh_of (fmle_start_response name n) = new_fmle_start_response 0
fresh_of (publish name n stream type) = new_publish
fresh_of (play name n stream start duration reset) = new_play
fresh_of (on_meta_data name metadata) = new_on_meta_data
fresh_of p = p

-- What `decode` returns: the bytes taken, but for RtmpConnectPacket.
abbrev pub decoded_len : RtmpCommand → ℕ
decoded_len (connect name n obj) = 0
decoded_len p = command_len p

-- A value that is there on a condition.
AreShort-when :
    (b : Bool) (v : RtmpAmf0Any) (fs : List Field)
    → HasShort v
    → AreShort fs
    → AreShort ((if b then some v else none) ∷ fs)
AreShort-when true v fs h hs = (h, hs)
AreShort-when false v fs h hs = hs

pub IsDecodable-AreShort : (p : RtmpCommand) → IsDecodable p → AreShort (fields p)
IsDecodable-AreShort (connect name n obj) h =
    (rw h.0 (omega arith), (tt, (IsEncodable-HasShort (object obj) h.2, tt)))
IsDecodable-AreShort (connect_response name n obj info) h = (
  rw h.0 (omega arith),
  (tt, (IsEncodable-HasShort (object obj) h.2, (IsEncodable-HasShort (object info) h.3, tt))),
)
IsDecodable-AreShort (call name n none args) h = absurd h
IsDecodable-AreShort (call name n (some obj) none) h =
    (h.0, (tt, (IsEncodable-HasShort obj h.3, tt)))
IsDecodable-AreShort (call name n (some obj) (some args)) h =
    (h.0, (tt, (IsEncodable-HasShort obj h.3, (IsEncodable-HasShort args h.4, tt))))
IsDecodable-AreShort (create_stream name n) h = (rw h.0 (omega arith), (tt, (tt, tt)))
IsDecodable-AreShort (create_stream_response name n streamid) h =
    (rw h.0 (omega arith), (tt, (tt, (tt, tt))))
IsDecodable-AreShort (fmle_start name n stream) h = (h.0, (tt, (tt, (h.3, tt))))
IsDecodable-AreShort (fmle_start_response name n) h = (rw h.0 (omega arith), (tt, (tt, (tt, tt))))
IsDecodable-AreShort (publish name n stream type) h =
    (rw h.0 (omega arith), (tt, (tt, (h.2, (h.3, tt)))))
IsDecodable-AreShort (play name n stream start duration reset) h = (
  rw h.0 (omega arith),
  (
    tt,
    (
      tt,
      (
        h.2,
        AreShort-when (has_start start duration reset) (number start) _ tt (
            AreShort-when (has_duration duration reset) (number duration) _ tt
              (AreShort-when (not reset) (boolean reset) [] tt tt)),
      ),
    ),
  ),
)
IsDecodable-AreShort (on_meta_data name metadata) h =
    (h.0, (IsEncodable-HasShort (object metadata) h.3, tt))
IsDecodable-AreShort (call_response name n obj response) h = absurd h
IsDecodable-AreShort (close_stream name n) h = absurd h
IsDecodable-AreShort (pause_stream name n pause time) h = absurd h
IsDecodable-AreShort (play_response name n desc) h = absurd h
IsDecodable-AreShort (on_bw_done name n) h = absurd h
IsDecodable-AreShort (on_status_call name n data') h = absurd h
IsDecodable-AreShort (on_status_data name data') h = absurd h
IsDecodable-AreShort (sample_access name video audio) h = absurd h

pub taken :
    {A : Type 0} {r : Reader A} {bytes rest : List ℕ} {a : A}
    → Takes r bytes a rest
    → r (bytes ++ rest) ≡ ok (length bytes, a)
taken (takes h) = h

drop_both : (xs ys rest : List ℕ) → drop (length xs + length ys) (xs ++ (ys ++ rest)) ≡ rest
drop_both xs ys rest =
    sym (drop-drop (length xs) (length ys) _ (xs ++ (ys ++ rest)) refl)
    ∙ ap (drop (length ys)) (drop-append xs (ys ++ rest))
    ∙ drop-append ys rest

-- Three calls after each other, over the bytes that they take.
connect-decode :
    (obj : Properties)
    → IsEncodable (object obj)
    → decode_connect
        (codes "connect")
        double_one
        no_properties
        (encode_fields (fields (connect (codes "connect") double_one obj)))
      ≡ ok (0, connect (codes "connect") double_one obj)
unfolding decode_connect
connect-decode obj h =
    let name = encode (string (codes "connect")) in
    let one = encode (number double_one) in
    rw (
      name_there (one ++ (encode (object obj) ++ [])),
      bytes_eq_self (codes "connect"),
      drop-append name (one ++ (encode (object obj) ++ [])),
      taken (Takes-number {rest = encode (object obj) ++ []} double_one (omega arith)),
      drop_both name one (encode (object obj) ++ []),
      object_there,
    )
  where
    name_there :
        (rest : List ℕ)
        → rtmp_amf0_read_string (encode (string (codes "connect")) ++ rest) (codes "connect")
          ≡ ok (length (encode (string (codes "connect"))), codes "connect")
    name_there rest =
        unfold read_string in
        taken (Takes-string (codes "connect") (codes "connect") (omega arith) refl)

    object_there :
        Prelude.◌>>=◌ {B = ℕ × Properties}
          (read
            (suc (length (encode (object obj) ++ [])))
            (object no_properties)
            (encode (object obj) ++ []))
          (λ (n, v). ok (n, properties_of v))
        ≡ ok (length (encode (object obj)), obj)
    object_there = unfold read_object in taken (Takes-object obj h)

-- What a reader takes when nothing follows, for a packet that is written in `command_len` bytes.
whole :
    {r : Reader RtmpCommand} (p : RtmpCommand)
    → IsDecodable p
    → Takes r (encode_fields (fields p)) p []
    → r (encode_fields (fields p)) ≡ ok (command_len p, p)
whole {r} p h t =
    ap r (sym (append-nil (encode_fields (fields p))))
    ∙ taken t
    ∙ ap (λ (n : ℕ). ok (n, p)) (encode_command-fields p 0 (IsDecodable-AreShort p h)).1

pub decode_command-fields :
    (p : RtmpCommand)
    → IsDecodable p
    → decode_command (fresh_of p) (encode_fields (fields p)) ≡ ok (decoded_len p, p)
unfolding decode_command new_connect new_connect_response new_call new_create_stream
    new_create_stream_response new_fmle_start new_fmle_start_response new_publish new_play
    new_on_meta_data
decode_command-fields (connect name n obj) h = rw (h.0, h.1) (connect-decode obj h.2)
decode_command-fields (connect_response name n obj info) h =
    rw h.0 (whole _ (refl, h.1, h.2, h.3) (connect_response-Takes n obj info h.1 h.2 h.3))
decode_command-fields (call name n none args) h = absurd h
decode_command-fields (call name n (some obj) args) h = whole _ h (call-Takes name n obj args h)
decode_command-fields (create_stream name n) h =
    rw h.0 (whole _ (refl, h.1) (create_stream-Takes n h.1))
decode_command-fields (create_stream_response name n streamid) h =
    rw h.0 (whole _ (refl, h.1, h.2) (create_stream_response-Takes n streamid h.1 h.2))
decode_command-fields (fmle_start name n stream) h = whole _ h (fmle_start-Takes name n stream h)
decode_command-fields (fmle_start_response name n) h =
    rw h.0 (whole _ (refl, h.1) (fmle_start_response-Takes n h.1))
decode_command-fields (publish name n stream type) h =
    rw h.0
      (whole _ (refl, h.1, h.2, h.3, h.4) (publish-Takes n stream type (refl, h.1, h.2, h.3, h.4)))
decode_command-fields (play name n stream start duration reset) h = rw h.0 (
    whole _ (refl, h.1, h.2, h.3, h.4)
      (play-Takes n stream start duration reset (refl, h.1, h.2, h.3, h.4)))
decode_command-fields (on_meta_data name metadata) h =
    whole _ h (on_meta_data-Takes name metadata h)
decode_command-fields (call_response name n obj response) h = absurd h
decode_command-fields (close_stream name n) h = absurd h
decode_command-fields (pause_stream name n pause time) h = absurd h
decode_command-fields (play_response name n desc) h = absurd h
decode_command-fields (on_bw_done name n) h = absurd h
decode_command-fields (on_status_call name n data') h = absurd h
decode_command-fields (on_status_data name data') h = absurd h
decode_command-fields (sample_access name video audio) h = absurd h

-- The packets whose `decode` reads: written by `encode_pkg` into enough room, such a packet is read
-- back from exactly the bytes written by a new object of its class, which then has the fields of the
-- packet. RtmpConnectPacket::decode returns 0, the others the number of those bytes.
pub decode_command-encode_command :
    (p : RtmpCommand) (size : ℕ)
    → IsDecodable p
    → command_len p ≤ size
    → (written : List ℕ) × (encode_command p size ≡ ok written)
      × (length written ≡ command_len p)
      × (decode_command (fresh_of p) written ≡ ok (decoded_len p, p))
decode_command-encode_command p size h room =
    let e = encode_command-fields p size (IsDecodable-AreShort p h) in
    (
      encode_fields (fields p),
      e.0 ∙ rw (le→leb (command_len p) size room) refl,
      e.1,
      decode_command-fields p h,
    )
