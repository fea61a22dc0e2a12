-- ===== src/Rtmp/Command/Fields.antt =====
-- The command packets of net/app_protocol/rtmp/rtmp_stack_packet.cc as sequences of AMF0 values, and
-- their sizes and encoders against that.
use librtmp_client.Prelude.{
  ℕ, ◌+◌, ◌-◌, ◌≡◌, refl, sym, ap, ◌∙◌, Bool, true, false, List, [], ◌∷◌, ◌++◌, leb, not,
  if◌then◌else◌, length, map, arith, length-append, le→leb, Option, none, some, ok, err, ◌>>=◌,
}
use librtmp_client.Amf0.Value.{
  RtmpAmf0Any, string, number, boolean, null, undefined, object, total_size,
}
use librtmp_client.Amf0.Write.{write, minus_one}
use librtmp_client.Amf0.Encoding.{encode, HasShort, write-encode, length-encode, fits, bind_fits}
use librtmp_client.Rtmp.Command.{
  RtmpCommand, connect, connect_response, call, call_response, create_stream,
  create_stream_response, close_stream, fmle_start, fmle_start_response, publish, pause_stream,
  play, play_response, on_bw_done, on_status_call, on_status_data, sample_access, on_meta_data,
}
use librtmp_client.Rtmp.Command.Encode.{
  write_all, write_any, write_if, write_number, write_boolean, writers, encode_command,
}
use librtmp_client.Rtmp.Command.Size.{command_len, has_start, has_duration, size_any}

abbrev pub Field : Type 0
Field = Option RtmpAmf0Any

abbrev when : Bool → RtmpAmf0Any → Field
when b v = if b then some v else none

-- The values of a packet, in the order of the protocol.
abbrev pub fields : RtmpCommand → List Field
fields (connect name n obj) = some (string name) ∷ some (number n) ∷ some (object obj) ∷ []
fields (connect_response name n obj info) =
    some (string name) ∷ some (number n) ∷ some (object obj) ∷ some (object info) ∷ []
fields (call name n obj args) = some (string name) ∷ some (number n) ∷ obj ∷ args ∷ []
fields (call_response name n obj response) =
    some (string name) ∷ some (number n) ∷ obj ∷ response ∷ []
fields (create_stream name n) = some (string name) ∷ some (number n) ∷ some null ∷ []
fields (create_stream_response name n streamid) =
    some (string name) ∷ some (number n) ∷ some null ∷ some (number streamid) ∷ []
fields (close_stream name n) = []
fields (fmle_start name n stream) =
    some (string name) ∷ some (number n) ∷ some null ∷ some (string stream) ∷ []
fields (fmle_start_response name n) =
    some (string name) ∷ some (number n) ∷ some null ∷ some undefined ∷ []
fields (publish name n stream type) =
    some (string name)
    ∷ some (number n)
    ∷ some null
    ∷ some (string stream)
    ∷ some (string type)
    ∷ []
fields (pause_stream name n pause time) = []
fields (play name n stream start duration reset) =
    some (string name)
    ∷ some (number n)
    ∷ some null
    ∷ some (string stream)
    ∷ when (has_start start duration reset) (number start)
    ∷ when (has_duration duration reset) (number duration)
    ∷ when (not reset) (boolean reset)
    ∷ []
fields (play_response name n desc) =
    some (string name) ∷ some (number n) ∷ some null ∷ some (object desc) ∷ []
fields (on_bw_done name n) = some (string name) ∷ some (number n) ∷ some null ∷ []
fields (on_status_call name n data') =
    some (string name) ∷ some (number n) ∷ some null ∷ some (object data') ∷ []
fields (on_status_data name data') = some (string name) ∷ some (object data') ∷ []
fields (sample_access name video audio) =
    some (string name) ∷ some (boolean video) ∷ some (boolean audio) ∷ []
fields (on_meta_data name metadata) = some (string name) ∷ some (object metadata) ∷ []

abbrev pub encode_fields : List Field → List ℕ
encode_fields [] = []
encode_fields (none ∷ fs) = encode_fields fs
encode_fields (some v ∷ fs) = encode v ++ encode_fields fs

abbrev pub total_fields : List Field → ℕ
total_fields [] = 0
total_fields (none ∷ fs) = total_fields fs
total_fields (some v ∷ fs) = total_size v + total_fields fs

-- Every string and key in the values is short.
abbrev pub AreShort : List Field → Type 0
AreShort [] = Unit {0}
AreShort (none ∷ fs) = AreShort fs
AreShort (some v ∷ fs) = HasShort v × AreShort fs

pub length-encode_fields : (fs : List Field) → length (encode_fields fs) ≡ total_fields fs
length-encode_fields [] = refl
length-encode_fields (none ∷ fs) = length-encode_fields fs
length-encode_fields (some v ∷ fs) =
    omega
      (arith, length-append (encode v) (encode_fields fs), length-encode v, length-encode_fields fs)

write_all-map :
    (fs : List Field) (size : ℕ)
    → AreShort fs
    → write_all (map write_any fs) size ≡ fits (total_fields fs) size (encode_fields fs)
unfolding write_all
write_all-map [] size h = ground arith
write_all-map (none ∷ fs) size h =
    ap (λ r. r >>= λ rest. ok rest) (write_all-map fs (size - 0) h) ∙ ground arith
write_all-map (some v ∷ fs) size h =
    let lv = length-encode v in
    let room = size - length (encode v) in
    rw ((write-encode size v h.0).0) (
      bind_fits (total_size v) size (total_size v + total_fields fs) size _ _ _ (λ lt. omega arith)
        λ fit. rw (write_all-map fs room h.1) (
          bind_fits (total_fields fs) room (total_size v + total_fields fs) size _ _ _
            (λ lt. omega (arith, lv, fit))
            λ fit'.
              sym
                (rw (le→leb (total_size v + total_fields fs) size (omega (arith, lv, fit, fit'))))))

write_if-number : (b : Bool) (n : ℕ) → write_if b (write_number n) ≡ write_any (when b (number n))
unfolding write
write_if-number true n = refl
write_if-number false n = refl

write_if-boolean : (b c : Bool) → write_if b (write_boolean c) ≡ write_any (when b (boolean c))
unfolding write
write_if-boolean true c = refl
write_if-boolean false c = refl

writers-fields : (p : RtmpCommand) → writers p ≡ map write_any (fields p)
unfolding writers write
writers-fields (play name n stream start duration reset) = rw (
  write_if-number (has_start start duration reset) start,
  write_if-number (has_duration duration reset) duration,
  write_if-boolean (not reset) reset,
)
writers-fields (connect name n obj) = refl
writers-fields (connect_response name n obj info) = refl
writers-fields (call name n obj args) = refl
writers-fields (call_response name n obj response) = refl
writers-fields (create_stream name n) = refl
writers-fields (create_stream_response name n streamid) = refl
writers-fields (close_stream name n) = refl
writers-fields (fmle_start name n stream) = refl
writers-fields (fmle_start_response name n) = refl
writers-fields (publish name n stream type) = refl
writers-fields (pause_stream name n pause time) = refl
writers-fields (play_response name n desc) = refl
writers-fields (on_bw_done name n) = refl
writers-fields (on_status_call name n data') = refl
writers-fields (on_status_data name data') = refl
writers-fields (sample_access name video audio) = refl
writers-fields (on_meta_data name metadata) = refl

total-any : (f g : Field) → total_fields (f ∷ g ∷ []) ≡ size_any f + size_any g
unfolding size_any
total-any none none = refl
total-any none (some w) = omega arith
total-any (some v) none = omega arith
total-any (some v) (some w) = omega arith

play_total :
    (a b c r : Bool) (start duration : ℕ)
    → total_fields (when a (number start) ∷ when b (number duration) ∷ when c (boolean r) ∷ [])
      ≡ (if a then 9 else 0) + (if b then 9 else 0) + (if c then 2 else 0)
unfolding total_size
play_total true true true r start duration = refl
play_total true true false r start duration = refl
play_total true false true r start duration = refl
play_total true false false r start duration = refl
play_total false true true r start duration = refl
play_total false true false r start duration = refl
play_total false false true r start duration = refl
play_total false false false r start duration = refl

command_len-fields : (p : RtmpCommand) → command_len p ≡ total_fields (fields p)
unfolding command_len total_size size_any
command_len-fields (call name n obj args) = omega (arith, total-any obj args)
command_len-fields (call_response name n obj response) = omega (arith, total-any obj response)
command_len-fields (play name n stream start duration reset) = omega (
  arith,
  play_total (has_start start duration reset) (has_duration duration reset) (not reset) reset start
      duration,
)
command_len-fields (connect name n obj) = omega arith
command_len-fields (connect_response name n obj info) = omega arith
command_len-fields (create_stream name n) = omega arith
command_len-fields (create_stream_response name n streamid) = omega arith
command_len-fields (close_stream name n) = refl
command_len-fields (fmle_start name n stream) = omega arith
command_len-fields (fmle_start_response name n) = omega arith
command_len-fields (publish name n stream type) = omega arith
command_len-fields (pause_stream name n pause time) = refl
command_len-fields (play_response name n desc) = omega arith
command_len-fields (on_bw_done name n) = omega arith
command_len-fields (on_status_call name n data') = omega arith
command_len-fields (on_status_data name data') = omega arith
command_len-fields (sample_access name video audio) = omega arith
command_len-fields (on_meta_data name metadata) = omega arith

write_all-fields :
    (p : RtmpCommand) (size : ℕ)
    → AreShort (fields p)
    → write_all (writers p) size ≡ fits (command_len p) size (encode_fields (fields p))
write_all-fields p size h =
    ap (λ ws. write_all ws size) (writers-fields p)
    ∙ write_all-map (fields p) size h
    ∙ ap (λ (n : ℕ). fits n size (encode_fields (fields p))) (sym (command_len-fields p))

minus_one-fits : (n size : ℕ) (bytes : List ℕ) → minus_one (fits n size bytes) ≡ fits n size bytes
minus_one-fits n size bytes = ground arith

encode_command-fits :
    (p : RtmpCommand) (size : ℕ)
    → AreShort (fields p)
    → encode_command p size ≡ fits (command_len p) size (encode_fields (fields p))
unfolding encode_command
encode_command-fits (call name n obj args) size h =
    ap minus_one (write_all-fields (call name n obj args) size h)
    ∙ minus_one-fits (command_len (call name n obj args)) size _
encode_command-fits (connect name n obj) size h = write_all-fields _ size h
encode_command-fits (connect_response name n obj info) size h = write_all-fields _ size h
encode_command-fits (call_response name n obj response) size h = write_all-fields _ size h
encode_command-fits (create_stream name n) size h = write_all-fields _ size h
encode_command-fits (create_stream_response name n streamid) size h = write_all-fields _ size h
encode_command-fits (close_stream name n) size h = write_all-fields _ size h
encode_command-fits (fmle_start name n stream) size h = write_all-fields _ size h
encode_command-fits (fmle_start_response name n) size h = write_all-fields _ size h
encode_command-fits (publish name n stream type) size h = write_all-fields _ size h
encode_command-fits (pause_stream name n pause time) size h = write_all-fields _ size h
encode_command-fits (play name n stream start duration reset) size h = write_all-fields _ size h
encode_command-fits (play_response name n desc) size h = write_all-fields _ size h
encode_command-fits (on_bw_done name n) size h = write_all-fields _ size h
encode_command-fits (on_status_call name n data') size h = write_all-fields _ size h
encode_command-fits (on_status_data name data') size h = write_all-fields _ size h
encode_command-fits (sample_access name video audio) size h = write_all-fields _ size h
encode_command-fits (on_meta_data name metadata) size h = write_all-fields _ size h

-- A command packet whose strings are below 32768 bytes is written exactly when there is room for
-- get_pkg_len bytes. What is written are its values in the order of the protocol, each in AMF0, and
-- they take get_pkg_len bytes; a smaller buffer is refused with -1.
pub encode_command-fields :
    (p : RtmpCommand) (size : ℕ)
    → AreShort (fields p)
    → (encode_command p size
        ≡ (if leb (command_len p) size then ok (encode_fields (fields p)) else err 1))
      × (length (encode_fields (fields p)) ≡ command_len p)
encode_command-fields p size h =
    (encode_command-fits p size h, length-encode_fields (fields p) ∙ sym (command_len-fields p))
