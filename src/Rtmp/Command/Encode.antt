-- ===== src/Rtmp/Command/Encode.antt =====
-- The methods encode_pkg of the command packets of
-- net/app_protocol/rtmp/rtmp_stack_packet.cc.
use librtmp_client.Rtmp.Command.Size.{command_len, has_duration, has_start}
use librtmp_client.Prelude.{
  ℕ, ◌-◌, Bool, List, [], ◌∷◌, ◌++◌, not, ltb, if◌then◌else◌, length, Option, none, some, Result,
  ok, ◌>>=◌,
}
use librtmp_client.Amf0.Value.{RtmpAmf0Any, Properties, object}
use librtmp_client.Amf0.Write.{
  rtmp_amf0_write_string, rtmp_amf0_write_number, rtmp_amf0_write_boolean, rtmp_amf0_write_null,
  rtmp_amf0_write_undefined, write, minus_one,
}
use librtmp_client.Rtmp.Command.{
  RtmpCommand, connect, connect_response, call, call_response, create_stream,
  create_stream_response, close_stream, fmle_start, fmle_start_response, publish, pause_stream,
  play, play_response, on_bw_done, on_status_call, on_status_data, sample_access, on_meta_data,
}

-- A call that writes at `payload + offset` into `size - offset` bytes.
abbrev pub Writer : Type 0
Writer = ℕ → Result (List ℕ)

-- Calls one after the other; the first that fails is returned.
unfoldable pub write_all : List Writer → Writer
write_all [] size = ok []
write_all (w ∷ ws) size = do
  first ← w size
  rest ← write_all ws (size - length first)
  ok (first ++ rest)

abbrev pub write_string : List ℕ → Writer
write_string s size = rtmp_amf0_write_string size s

abbrev pub write_number : ℕ → Writer
write_number n size = rtmp_amf0_write_number size n

abbrev pub write_boolean : Bool → Writer
write_boolean b size = rtmp_amf0_write_boolean size b

abbrev pub write_null : Writer
write_null size = rtmp_amf0_write_null size

abbrev pub write_object : Properties → Writer
write_object ps size = write size (object ps)

-- Nothing for a null pointer.
abbrev pub write_any : Option RtmpAmf0Any → Writer
write_any none size = ok []
write_any (some v) size = write size v

abbrev pub write_if : Bool → Writer → Writer
write_if b w size = if b then w size else ok []

-- The calls of the methods encode_pkg, which a class has one after the other.
unfoldable pub connect_writers : List ℕ → ℕ → Properties → List Writer
connect_writers name number obj = write_string name ∷ write_number number ∷ write_object obj ∷ []

unfoldable pub connect_response_writers : List ℕ → ℕ → Properties → Properties → List Writer
connect_response_writers name number obj info =
    write_string name ∷ write_number number ∷ write_object obj ∷ write_object info ∷ []

unfoldable pub call_writers : List ℕ → ℕ → Option RtmpAmf0Any → Option RtmpAmf0Any → List Writer
call_writers name number obj args =
    write_string name ∷ write_number number ∷ write_any obj ∷ write_any args ∷ []

unfoldable pub call_response_writers :
    List ℕ → ℕ → Option RtmpAmf0Any → Option RtmpAmf0Any → List Writer
call_response_writers name number obj response =
    write_string name ∷ write_number number ∷ write_any obj ∷ write_any response ∷ []

unfoldable pub create_stream_writers : List ℕ → ℕ → List Writer
create_stream_writers name number = write_string name ∷ write_number number ∷ write_null ∷ []

unfoldable pub create_stream_response_writers : List ℕ → ℕ → ℕ → List Writer
create_stream_response_writers name number streamid =
    write_string name ∷ write_number number ∷ write_null ∷ write_number streamid ∷ []

unfoldable pub fmle_start_writers : List ℕ → ℕ → List ℕ → List Writer
fmle_start_writers name number stream =
    write_string name ∷ write_number number ∷ write_null ∷ write_string stream ∷ []

unfoldable pub fmle_start_response_writers : List ℕ → ℕ → List Writer
fmle_start_response_writers name number =
    write_string name
    ∷ write_number number
    ∷ write_null
    ∷ (λ size. rtmp_amf0_write_undefined size)
    ∷ []

unfoldable pub publish_writers : List ℕ → ℕ → List ℕ → List ℕ → List Writer
publish_writers name number stream type =
    write_string name
    ∷ write_number number
    ∷ write_null
    ∷ write_string stream
    ∷ write_string type
    ∷ []

unfoldable pub play_writers : List ℕ → ℕ → List ℕ → ℕ → ℕ → Bool → List Writer
unfolding has_start has_duration
play_writers name number stream start duration reset =
    write_string name
    ∷ write_number number
    ∷ write_null
    ∷ write_string stream
    ∷ write_if (has_start start duration reset) (write_number start)
    ∷ write_if (has_duration duration reset) (write_number duration)
    ∷ write_if (not reset) (write_boolean reset)
    ∷ []

unfoldable pub play_response_writers : List ℕ → ℕ → Properties → List Writer
play_response_writers name number desc =
    write_string name ∷ write_number number ∷ write_null ∷ write_object desc ∷ []

unfoldable pub on_bw_done_writers : List ℕ → ℕ → List Writer
on_bw_done_writers name number = write_string name ∷ write_number number ∷ write_null ∷ []

unfoldable pub on_status_call_writers : List ℕ → ℕ → Properties → List Writer
on_status_call_writers name number data' =
    write_string name ∷ write_number number ∷ write_null ∷ write_object data' ∷ []

unfoldable pub on_status_data_writers : List ℕ → Properties → List Writer
on_status_data_writers name data' = write_string name ∷ write_object data' ∷ []

unfoldable pub sample_access_writers : List ℕ → Bool → Bool → List Writer
sample_access_writers name video audio =
    write_string name ∷ write_boolean video ∷ write_boolean audio ∷ []

unfoldable pub on_meta_data_writers : List ℕ → Properties → List Writer
on_meta_data_writers name metadata = write_string name ∷ write_object metadata ∷ []

unfoldable pub writers : RtmpCommand → List Writer
unfolding connect_writers connect_response_writers call_writers call_response_writers
    create_stream_writers create_stream_response_writers fmle_start_writers
    fmle_start_response_writers publish_writers play_writers play_response_writers
    on_bw_done_writers on_status_call_writers on_status_data_writers sample_access_writers
    on_meta_data_writers
writers (connect name number obj) = connect_writers name number obj
writers (connect_response name number obj info) = connect_response_writers name number obj info
writers (call name number obj args) = call_writers name number obj args
writers (call_response name number obj response) = call_response_writers name number obj response
writers (create_stream name number) = create_stream_writers name number
writers (create_stream_response name number streamid) =
    create_stream_response_writers name number streamid
writers (close_stream name number) = []
writers (fmle_start name number stream) = fmle_start_writers name number stream
writers (fmle_start_response name number) = fmle_start_response_writers name number
writers (publish name number stream type) = publish_writers name number stream type
writers (pause_stream name number pause time) = []
writers (play name number stream start duration reset) =
    play_writers name number stream start duration reset
writers (play_response name number desc) = play_response_writers name number desc
writers (on_bw_done name number) = on_bw_done_writers name number
writers (on_status_call name number data') = on_status_call_writers name number data'
writers (on_status_data name data') = on_status_data_writers name data'
writers (sample_access name video audio) = sample_access_writers name video audio
writers (on_meta_data name metadata) = on_meta_data_writers name metadata

-- The method encode_pkg: the bytes written at `payload`. Their number is what it returns, but for
-- RtmpConnectPacket, which returns 0. RtmpCallPacket returns -1 for every error.
unfoldable pub encode_command : RtmpCommand → Writer
unfolding write_all writers
encode_command (call name number obj args) size =
    minus_one (write_all (writers (call name number obj args)) size)
encode_command p size = write_all (writers p) size

-- RtmpBasePacket::encode
unfoldable pub encode_command_packet : RtmpCommand → Result (List ℕ)
unfolding command_len encode_command
encode_command_packet p =
    let length' = command_len p in
    if ltb 0 length' then minus_one (encode_command p length') else ok []
