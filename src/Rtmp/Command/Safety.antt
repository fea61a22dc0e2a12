-- ===== src/Rtmp/Command/Safety.antt =====
-- The methods `decode` of the command packets of net/app_protocol/rtmp/rtmp_stack_packet.cc on any bytes.
use librtmp_client.Rtmp.Command.Stays.{
  IsTable, Broken, Broken-drop, Stays, any-Stays, boolean-Stays, check-Stays, discovered-Stays,
  if_more-Stays, named_Stays, null-Stays, number-Stays, object-Stays, or_minus_one-Stays,
  pure-Stays, reset-Stays, string-Stays, then_Stays, undefined-Stays,
}
use librtmp_client.Prelude
use librtmp_client.Prelude.{
  ReturnsUnless, yields, declines, Unless->>=, Unless-of, Unless-if, Unless-map, ℕ, suc, ◌+◌, ◌-◌,
  ◌≤◌, ◌<◌, ◌≡◌, refl, Bool, true, false, List, [], ◌∷◌, ◌==◌, not, if◌then◌else◌, length, drop,
  length-drop, arith, Option, none, some, Result, ok, err, bytes_eq, Returns, gives, refuses,
  Returns->>=, Returns-if, Returns-map, if_both,
}
use librtmp_client.Amf0.Value.{RtmpAmf0Any, Properties, object}
use librtmp_client.Amf0.Read.{read}
use librtmp_client.Amf0.Reader.Leaves.{string-Returns, number-Returns}
use librtmp_client.Rtmp.Command.{
  RtmpCommand, connect, connect_response, call, call_response, create_stream,
  create_stream_response, close_stream, fmle_start, fmle_start_response, publish, pause_stream,
  play, play_response, on_bw_done, on_status_call, on_status_data, sample_access, on_meta_data,
  codes, double_one, double_eq,
}
use librtmp_client.Rtmp.Command.Reader.{Reader, ◌>>=◌, pure}
use librtmp_client.Rtmp.Command.Decode.{
  read_string, read_object, is_name, properties_of, decode_command, decode_connect,
  decode_connect_response, decode_call, decode_create_stream, decode_create_stream_response,
  decode_close_stream, decode_fmle_start, decode_fmle_start_response, decode_publish, decode_pause,
  decode_play, decode_on_meta_data,
}

connect-Stays :
    (name : List ℕ) (n : ℕ) (obj : Properties) → IsTable obj → Stays 0 (decode_connect name n obj)
unfolding decode_connect read_object
connect-Stays name n obj h d = Unless->>= (Unless-of (string-Returns d name)) λ (a, name') wa.
    Unless-if (not (is_name name' (codes "connect"))) (λ _. yields (omega (arith, wa)))
      λ _. Unless->>= (Unless-of (number-Returns (drop a d))) λ (b, n') wb.
        Unless-if (not (double_eq n' double_one))
          (λ _. yields (omega (arith, wa, wb, length-drop a d)))
          λ _.
            Unless->>= (Unless-map (object_there (drop (a + b) d)) (Broken-drop (a + b) d) λ _ w. w)
              λ (c, obj') wc. yields (omega arith)
  where
    object_there :
        (e : List ℕ)
        → ReturnsUnless
            (Broken e)
            (λ (p : ℕ × Properties). p.0 ≤ length e + 1)
            (Prelude.◌>>=◌ {B = ℕ × Properties}
              (read (suc (length e)) (object obj) e)
              (λ (m, v). ok (m, properties_of v)))
    object_there e = unfold read_object in object-Stays obj h e

-- The last call may end behind the buffer.
then_Stays_last :
    {A B : Type 0} (over : ℕ) (r : Reader A) (f : A → B)
    → Stays over r
    → Stays over (r >>= λ a. pure (f a))
then_Stays_last over r f h d =
    unfold ◌>>=◌ pure in Unless->>= (h d) λ (n, a) w. yields (omega (arith, w))

connect_response-Stays :
    (name : List ℕ) (obj info : Properties)
    → IsTable info
    → Stays 1 (decode_connect_response name obj info)
unfolding decode_connect_response
connect_response-Stays name obj info h =
    then_Stays 1 _ _ (or_minus_one-Stays _ (string-Stays name)) λ name'.
      then_Stays 1 _ _ (check-Stays _ 2) λ _.
        then_Stays 1 _ _ (or_minus_one-Stays _ number-Stays) λ n.
          then_Stays 1 _ _
            (if_more-Stays obj _ (then_Stays_last 0 _ _ (or_minus_one-Stays _ any-Stays)))
            λ obj'. then_Stays_last 1 _ _ (object-Stays info h)

call-Stays : (name : List ℕ) (args : Option RtmpAmf0Any) → Stays 0 (decode_call name args)
unfolding decode_call
call-Stays name args = then_Stays 0 _ _ (string-Stays name) λ name'.
    then_Stays 0 _ _ (check-Stays _ 2) λ _.
      then_Stays 0 _ _ (or_minus_one-Stays _ number-Stays) λ n.
        then_Stays 0 _ _ discovered-Stays λ obj.
          then_Stays_last 0 _ _ (if_more-Stays args _ (then_Stays_last 0 _ _ discovered-Stays))

create_stream-Stays : (name : List ℕ) → Stays 0 (decode_create_stream name)
unfolding decode_create_stream
create_stream-Stays name = named_Stays 0 name _ _ λ name' n. then_Stays_last 0 _ _ null-Stays

create_stream_response-Stays : (name : List ℕ) → Stays 0 (decode_create_stream_response name)
unfolding decode_create_stream_response
create_stream_response-Stays name =
    named_Stays 0 name _ _
      λ name' n. then_Stays 0 _ _ null-Stays λ _. then_Stays_last 0 _ _ number-Stays

close_stream-Stays : (name : List ℕ) → Stays 0 (decode_close_stream name)
unfolding decode_close_stream
close_stream-Stays name =
    then_Stays 0 _ _ (string-Stays name)
      λ name'. then_Stays 0 _ _ number-Stays λ n. then_Stays_last 0 _ _ null-Stays

fmle_start-Stays : (name stream : List ℕ) → Stays 0 (decode_fmle_start name stream)
unfolding decode_fmle_start
fmle_start-Stays name stream =
    named_Stays 0 name _ _
      λ name' n. then_Stays 0 _ _ null-Stays λ _. then_Stays_last 0 _ _ (string-Stays stream)

fmle_start_response-Stays : (name : List ℕ) → Stays 0 (decode_fmle_start_response name)
unfolding decode_fmle_start_response
fmle_start_response-Stays name =
    named_Stays 0 name _ _
      λ name' n. then_Stays 0 _ _ null-Stays λ _. then_Stays_last 0 _ _ undefined-Stays

publish-Stays : (name stream type : List ℕ) → Stays 0 (decode_publish name stream type)
unfolding decode_publish
publish-Stays name stream type = named_Stays 0 name _ _ λ name' n. then_Stays 0 _ _ null-Stays λ _.
    then_Stays 0 _ _ (string-Stays stream)
      λ stream'. then_Stays_last 0 _ _ (if_more-Stays type _ (string-Stays type))

pause-Stays : (name : List ℕ) → Stays 0 (decode_pause name)
unfolding decode_pause
pause-Stays name = named_Stays 0 name _ _ λ name' n.
    then_Stays 0 _ _ null-Stays
      λ _. then_Stays 0 _ _ boolean-Stays λ b. then_Stays_last 0 _ _ number-Stays

play-Stays :
    (name stream : List ℕ) (start duration : ℕ) (reset : Bool)
    → Stays 0 (decode_play name stream start duration reset)
unfolding decode_play
play-Stays name stream start duration reset = named_Stays 0 name _ _ λ name' n.
    then_Stays 0 _ _ null-Stays λ _. then_Stays 0 _ _ (string-Stays stream) λ stream'.
      then_Stays 0 _ _ (if_more-Stays start _ number-Stays) λ start'.
        then_Stays 0 _ _ (if_more-Stays duration _ number-Stays) λ duration'.
          then_Stays_last 0 _ _
            (if_more-Stays reset _ (then_Stays 0 _ _ any-Stays λ v. reset-Stays v))

on_meta_data-Stays :
    (name : List ℕ) (metadata : Properties) → Stays 0 (decode_on_meta_data name metadata)
unfolding decode_on_meta_data
on_meta_data-Stays name metadata = then_Stays 0 _ _ (string-Stays name) λ first.
    then_Stays 0 _ _
      (if_both (Stays 0) (bytes_eq first (codes "@setDataFrame")) (read_string first) (pure first)
        (string-Stays first) (pure-Stays 0 first))
      λ name'. then_Stays_last 0 _ _ (if_more-Stays metadata _ (then_Stays_last 0 _ _ any-Stays))

-- The tables that `decode` adds to hold no key twice.
abbrev pub HasTables : RtmpCommand → Type 0
HasTables (connect name n obj) = IsTable obj
HasTables (connect_response name n obj info) = IsTable info
HasTables _ = Unit {0}

-- How far behind the end of the buffer what is counted may be.
abbrev pub excess : RtmpCommand → ℕ
excess (connect_response name n obj info) = 1
excess _ = 0

-- On any bytes at all, `decode` of a command packet, on an object in whose tables no key stands twice,
-- comes back without an access outside the buffer: with an error, or with at most as many bytes counted
-- as there are, and one more for RtmpConnectResponsePacket; unless the `read` of a value in the bytes
-- deletes an object twice.
pub decode_command-Returns :
    (p : RtmpCommand) (d : List ℕ)
    → HasTables p
    → ReturnsUnless
        (Broken d)
        (λ (r : ℕ × RtmpCommand). r.0 ≤ length d + excess p)
        (decode_command p d)
unfolding decode_command
decode_command-Returns (connect name n obj) d h = connect-Stays name n obj h d
decode_command-Returns (connect_response name n obj info) d h =
    connect_response-Stays name obj info h d
decode_command-Returns (call name n obj args) d h = call-Stays name args d
decode_command-Returns (create_stream name n) d h = create_stream-Stays name d
decode_command-Returns (create_stream_response name n streamid) d h =
    create_stream_response-Stays name d
decode_command-Returns (close_stream name n) d h = close_stream-Stays name d
decode_command-Returns (fmle_start name n stream) d h = fmle_start-Stays name stream d
decode_command-Returns (fmle_start_response name n) d h = fmle_start_response-Stays name d
decode_command-Returns (publish name n stream type) d h = publish-Stays name stream type d
decode_command-Returns (pause_stream name n pause time) d h = pause-Stays name d
decode_command-Returns (play name n stream start duration reset) d h =
    play-Stays name stream start duration reset d
decode_command-Returns (on_meta_data name metadata) d h = on_meta_data-Stays name metadata d
decode_command-Returns (call_response name n obj response) d h = pure-Stays 0 _ d
decode_command-Returns (play_response name n desc) d h = pure-Stays 0 _ d
decode_command-Returns (on_bw_done name n) d h = pure-Stays 0 _ d
decode_command-Returns (on_status_call name n data') d h = pure-Stays 0 _ d
decode_command-Returns (on_status_data name data') d h = pure-Stays 0 _ d
decode_command-Returns (sample_access name video audio) d h = pure-Stays 0 _ d
