-- ===== src/Rtmp/Command.antt =====
-- The classes of command and data packets of net/app_protocol/rtmp/rtmp_stack_packet.h as one data
-- type, with what their constructors set. A std::string is the list of its bytes, a double its bit
-- pattern, a RtmpAmf0Object its table, and a pointer that may be null an Option. Members `object` and
-- `args` that only ever hold the null or undefined value of the constructor are left out.
pub mod Size
pub mod Encode
pub mod Fields
pub mod Reader
pub mod Decode
pub mod Takes
pub mod RoundTrip
pub mod PlayRoundTrip
pub mod Codec
pub mod Stays
pub mod Safety
use Prim.Native.Char.{code}
use Prim.Native.String.{String}
use librtmp_client.Prelude.{
  ℕ, ◌*◌, ◌^◌, ◌%◌, ◌<◌, List, [], ◌∷◌, ◌==◌, ◌&&◌, ◌||◌, ltb, not, Bool, true, false, Option, none,
}
use librtmp_client.Amf0.Value.{RtmpAmf0Any, Properties, no_properties}

-- The bytes of an ASCII literal.
abbrev pub codes : String → List ℕ
codes String.[] = []
codes (String.◌∷◌ c s) = code c ∷ codes s

abbrev pub double_one : ℕ
double_one = 0x3ff0000000000000

abbrev pub double_two : ℕ
double_two = 0x4000000000000000

abbrev pub double_three : ℕ
double_three = 0x4008000000000000

abbrev pub double_minus_one : ℕ
double_minus_one = 0xbff0000000000000

abbrev pub double_minus_two : ℕ
double_minus_two = 0xc000000000000000

-- Whether the double is 0 or -0, and whether it is no NaN.
abbrev pub is_zero : ℕ → Bool
is_zero x = x % 2 ^ 63 == 0

abbrev pub is_ordered : ℕ → Bool
is_ordered x = not (ltb (0x7ff * 2 ^ 52) (x % 2 ^ 63))

-- `==` of two doubles.
unfoldable pub double_eq : ℕ → ℕ → Bool
double_eq x y = is_ordered x && (x == y || (is_zero x && is_zero y))

pub data RtmpCommand : Type 0 where
  connect : (command_name : List ℕ) (number : ℕ) (command_object : Properties) → RtmpCommand
  connect_response : (command_name : List ℕ) (number : ℕ) (object info : Properties) → RtmpCommand
  call : (command_name : List ℕ) (number : ℕ) (object args : Option RtmpAmf0Any) → RtmpCommand
  call_response :
      (command_name : List ℕ) (number : ℕ) (object response : Option RtmpAmf0Any) → RtmpCommand
  create_stream : (command_name : List ℕ) (number : ℕ) → RtmpCommand
  create_stream_response : (command_name : List ℕ) (number streamid : ℕ) → RtmpCommand
  close_stream : (command_name : List ℕ) (number : ℕ) → RtmpCommand
  fmle_start : (command_name : List ℕ) (number : ℕ) (stream_name : List ℕ) → RtmpCommand
  fmle_start_response : (command_name : List ℕ) (number : ℕ) → RtmpCommand
  publish : (command_name : List ℕ) (number : ℕ) (stream_name type : List ℕ) → RtmpCommand
  pause_stream : (command_name : List ℕ) (number : ℕ) (pause : Bool) (time : ℕ) → RtmpCommand
  play :
      (command_name : List ℕ) (number : ℕ) (stream_name : List ℕ) (start duration : ℕ)
      (reset : Bool)
      → RtmpCommand
  play_response : (command_name : List ℕ) (number : ℕ) (desc : Properties) → RtmpCommand
  on_bw_done : (command_name : List ℕ) (number : ℕ) → RtmpCommand
  on_status_call : (command_name : List ℕ) (number : ℕ) (data' : Properties) → RtmpCommand
  on_status_data : (command_name : List ℕ) (data' : Properties) → RtmpCommand
  sample_access :
      (command_name : List ℕ) (video_sample_access audio_sample_access : Bool) → RtmpCommand
  on_meta_data : (command_name : List ℕ) (metadata : Properties) → RtmpCommand

-- The constructors of the classes that the client or the transport makes.
unfoldable pub new_connect : RtmpCommand
new_connect = connect (codes "connect") double_one no_properties

unfoldable pub new_connect_response : RtmpCommand
new_connect_response = connect_response (codes "_result") double_one no_properties no_properties

unfoldable pub new_call : RtmpCommand
new_call = call [] 0 none none

unfoldable pub new_create_stream : RtmpCommand
new_create_stream = create_stream (codes "createStream") double_two

unfoldable pub new_create_stream_response : ℕ → ℕ → RtmpCommand
new_create_stream_response id streamid = create_stream_response (codes "_result") id streamid

unfoldable pub new_close_stream : RtmpCommand
new_close_stream = close_stream (codes "closeStream") 0

unfoldable pub new_fmle_start : RtmpCommand
new_fmle_start = fmle_start (codes "releaseStream") 0 []

unfoldable pub create_release_stream : List ℕ → RtmpCommand
create_release_stream stream = fmle_start (codes "releaseStream") double_two stream

unfoldable pub create_fc_publish : List ℕ → RtmpCommand
create_fc_publish stream = fmle_start (codes "FCPublish") double_three stream

unfoldable pub new_fmle_start_response : ℕ → RtmpCommand
new_fmle_start_response id = fmle_start_response (codes "_result") id

unfoldable pub new_publish : RtmpCommand
new_publish = publish (codes "publish") 0 [] (codes "live")

unfoldable pub new_pause : RtmpCommand
new_pause = pause_stream (codes "pause") 0 true 0

unfoldable pub new_play : RtmpCommand
new_play = play (codes "play") 0 [] double_minus_two double_minus_one true

unfoldable pub new_on_meta_data : RtmpCommand
new_on_meta_data = on_meta_data (codes "onMetaData") no_properties

abbrev pub rtmp_cid_over_connection2 : ℕ
rtmp_cid_over_connection2 = 0x04

abbrev pub rtmp_cid_over_stream : ℕ
rtmp_cid_over_stream = 0x05

abbrev pub rtmp_msg_amf3_command_message : ℕ
rtmp_msg_amf3_command_message = 17

abbrev pub rtmp_msg_amf0_command_message : ℕ
rtmp_msg_amf0_command_message = 20

abbrev pub rtmp_msg_amf0_data_message : ℕ
rtmp_msg_amf0_data_message = 18

abbrev pub rtmp_msg_amf3_data_message : ℕ
rtmp_msg_amf3_data_message = 15
