-- ===== src/Rtmp/Command/Size.antt =====
-- The methods get_cs_id, get_msg_type and get_pkg_len of the command packets of
-- net/app_protocol/rtmp/rtmp_stack_packet.cc.
use librtmp_client.Prelude.{ℕ, ◌+◌, Bool, List, ◌==◌, ◌||◌, not, if◌then◌else◌, Option, none, some}
use librtmp_client.Amf0.Value.{RtmpAmf0Any, Properties, object, total_size, size_str}
use librtmp_client.Rtmp.Header.{rtmp_cid_over_connection}
use librtmp_client.Rtmp.Command.{
  RtmpCommand, connect, connect_response, call, call_response, create_stream,
  create_stream_response, close_stream, fmle_start, fmle_start_response, publish, pause_stream,
  play, play_response, on_bw_done, on_status_call, on_status_data, sample_access, on_meta_data,
  double_minus_one, double_minus_two, rtmp_cid_over_connection2, rtmp_cid_over_stream,
  rtmp_msg_amf0_command_message, rtmp_msg_amf0_data_message,
}

unfoldable pub command_cs_id : RtmpCommand → ℕ
command_cs_id (close_stream name number) = 0
command_cs_id (pause_stream name number pause time) = 0
command_cs_id (publish name number stream type) = rtmp_cid_over_stream
command_cs_id (play name number stream start duration reset) = rtmp_cid_over_stream
command_cs_id (play_response name number desc) = rtmp_cid_over_stream
command_cs_id (on_status_data name data') = rtmp_cid_over_stream
command_cs_id (sample_access name video audio) = rtmp_cid_over_stream
command_cs_id (on_meta_data name metadata) = rtmp_cid_over_connection2
command_cs_id _ = rtmp_cid_over_connection

unfoldable pub command_msg_type : RtmpCommand → ℕ
command_msg_type (close_stream name number) = 0
command_msg_type (pause_stream name number pause time) = 0
command_msg_type (on_status_data name data') = rtmp_msg_amf0_data_message
command_msg_type (sample_access name video audio) = rtmp_msg_amf0_data_message
command_msg_type (on_meta_data name metadata) = rtmp_msg_amf0_data_message
command_msg_type _ = rtmp_msg_amf0_command_message

-- RtmpAmf0Size::number, boolean, null and undefined.
abbrev pub size_number : ℕ
size_number = 1 + 8

abbrev pub size_boolean : ℕ
size_boolean = 1 + 1

abbrev pub size_null : ℕ
size_null = 1

abbrev pub size_undefined : ℕ
size_undefined = 1

-- RtmpAmf0Size::object, and RtmpAmf0Size::any on a pointer that may be null.
unfoldable pub size_object : Properties → ℕ
size_object ps = total_size (object ps)

unfoldable pub size_any : Option RtmpAmf0Any → ℕ
size_any none = 0
size_any (some v) = total_size v

-- The tests that RtmpPlayPacket repeats before its optional fields.
unfoldable pub has_start : ℕ → ℕ → Bool → Bool
has_start start duration reset =
    not (start == double_minus_two) || (not (duration == double_minus_one) || not reset)

unfoldable pub has_duration : ℕ → Bool → Bool
has_duration duration reset = not (duration == double_minus_one) || not reset

-- The methods get_pkg_len of the classes.
unfoldable pub connect_len : List ℕ → Properties → ℕ
unfolding size_object
connect_len name obj = size_str name + size_number + size_object obj

unfoldable pub connect_response_len : List ℕ → Properties → Properties → ℕ
unfolding size_object
connect_response_len name obj info =
    size_str name + size_number + size_object obj + size_object info

unfoldable pub call_len : List ℕ → Option RtmpAmf0Any → Option RtmpAmf0Any → ℕ
unfolding size_any
call_len name obj args = size_str name + size_number + size_any obj + size_any args

unfoldable pub call_response_len : List ℕ → Option RtmpAmf0Any → Option RtmpAmf0Any → ℕ
unfolding size_any
call_response_len name obj response = size_str name + size_number + size_any obj + size_any response

unfoldable pub create_stream_len : List ℕ → ℕ
create_stream_len name = size_str name + size_number + size_null

unfoldable pub create_stream_response_len : List ℕ → ℕ
create_stream_response_len name = size_str name + size_number + size_null + size_number

unfoldable pub fmle_start_len : List ℕ → List ℕ → ℕ
fmle_start_len name stream = size_str name + size_number + size_null + size_str stream

unfoldable pub fmle_start_response_len : List ℕ → ℕ
fmle_start_response_len name = size_str name + size_number + size_null + size_undefined

unfoldable pub publish_len : List ℕ → List ℕ → List ℕ → ℕ
publish_len name stream type =
    size_str name + size_number + size_null + size_str stream + size_str type

unfoldable pub play_len : List ℕ → List ℕ → ℕ → ℕ → Bool → ℕ
unfolding has_start has_duration
play_len name stream start duration reset =
    size_str name
    + size_number
    + size_null
    + size_str stream
    + (if has_start start duration reset then size_number else 0)
    + (if has_duration duration reset then size_number else 0)
    + (if not reset then size_boolean else 0)

unfoldable pub play_response_len : List ℕ → Properties → ℕ
unfolding size_object
play_response_len name desc = size_str name + size_number + size_null + size_object desc

unfoldable pub on_bw_done_len : List ℕ → ℕ
on_bw_done_len name = size_str name + size_number + size_null

unfoldable pub on_status_call_len : List ℕ → Properties → ℕ
unfolding size_object
on_status_call_len name data' = size_str name + size_number + size_null + size_object data'

unfoldable pub on_status_data_len : List ℕ → Properties → ℕ
unfolding size_object
on_status_data_len name data' = size_str name + size_object data'

unfoldable pub sample_access_len : List ℕ → ℕ
sample_access_len name = size_str name + size_boolean + size_boolean

unfoldable pub on_meta_data_len : List ℕ → Properties → ℕ
unfolding size_object
on_meta_data_len name metadata = size_str name + size_object metadata

unfoldable pub command_len : RtmpCommand → ℕ
unfolding connect_len connect_response_len call_len call_response_len create_stream_len
    create_stream_response_len fmle_start_len fmle_start_response_len publish_len play_len
    play_response_len on_bw_done_len on_status_call_len on_status_data_len sample_access_len
    on_meta_data_len
command_len (connect name number obj) = connect_len name obj
command_len (connect_response name number obj info) = connect_response_len name obj info
command_len (call name number obj args) = call_len name obj args
command_len (call_response name number obj response) = call_response_len name obj response
command_len (create_stream name number) = create_stream_len name
command_len (create_stream_response name number streamid) = create_stream_response_len name
command_len (close_stream name number) = 0
command_len (fmle_start name number stream) = fmle_start_len name stream
command_len (fmle_start_response name number) = fmle_start_response_len name
command_len (publish name number stream type) = publish_len name stream type
command_len (pause_stream name number pause time) = 0
command_len (play name number stream start duration reset) =
    play_len name stream start duration reset
command_len (play_response name number desc) = play_response_len name desc
command_len (on_bw_done name number) = on_bw_done_len name
command_len (on_status_call name number data') = on_status_call_len name data'
command_len (on_status_data name data') = on_status_data_len name data'
command_len (sample_access name video audio) = sample_access_len name
command_len (on_meta_data name metadata) = on_meta_data_len name metadata
