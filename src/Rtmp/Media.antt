-- ===== src/Rtmp/Media.antt =====
-- The classes RtmpAudioPacket, RtmpAVCPacket and RtmpVideoPacket of
-- net/app_protocol/rtmp/rtmp_stack_packet.cc, and decode_media_msg of rtmp_transport.cc. A member that
-- is a pointer with a length is the list of its bytes.
pub mod RoundTrip
pub mod Truncated
mod Tests
use librtmp_client.Prelude.{
  ℕ, zero, suc, ◌+◌, ◌^◌, ◌%◌, Bool, true, false, List, [], ◌∷◌, ◌++◌, ◌==◌, ltb, leb,
  if◌then◌else◌, length, take, drop, Option, none, some, Result, ok, err, fault, out_of_fuel, ◌>>=◌,
}
use librtmp_client.NetIo.{write_int16, write_int32, read_int16, read_int32}

pub data RtmpMedia : Type 0 where
  audio : (flag timestamp : ℕ) (data' : List ℕ) → RtmpMedia
  avc : (sps pps : List ℕ) → RtmpMedia
  video : (timestamp : ℕ) (keyframe : Bool) (nalu_item : List (List ℕ)) → RtmpMedia

abbrev pub rtmp_cid_video : ℕ
rtmp_cid_video = 0x06

abbrev pub rtmp_cid_audio : ℕ
rtmp_cid_audio = 0x07

abbrev pub rtmp_msg_audio_message : ℕ
rtmp_msg_audio_message = 8

abbrev pub rtmp_msg_video_message : ℕ
rtmp_msg_video_message = 9

unfoldable pub media_cs_id : RtmpMedia → ℕ
media_cs_id (audio flag t data') = rtmp_cid_audio
media_cs_id (avc sps pps) = rtmp_cid_video
media_cs_id (video t keyframe nalus) = rtmp_cid_video

unfoldable pub media_msg_type : RtmpMedia → ℕ
media_msg_type (audio flag t data') = rtmp_msg_audio_message
media_msg_type (avc sps pps) = rtmp_msg_video_message
media_msg_type (video t keyframe nalus) = rtmp_msg_video_message

-- `naluItem[0]`
unfoldable pub first_nalu : List (List ℕ) → Result (List ℕ)
first_nalu [] = fault
first_nalu (nalu ∷ nalus) = ok nalu

-- The method get_pkg_len.
unfoldable pub media_len : RtmpMedia → Result ℕ
unfolding first_nalu
media_len (audio flag t data') = ok (1 + length data')
media_len (avc sps pps) = ok (1 + 1 + 3 + 6 + 2 + length sps + 1 + 2 + length pps)
media_len (video t keyframe nalus) = do nalu ← first_nalu nalus; ok (1 + 1 + 3 + 4 + length nalu)

-- The bytes that encode_pkg writes, without a look at `size`.
unfoldable pub audio_bytes : List ℕ → List ℕ
audio_bytes data' = 0x82 ∷ data'

-- `sps[1]`, `sps[2]` and `sps[3]` are part of it.
unfoldable pub profile_of : List ℕ → Result (List ℕ)
profile_of (a ∷ b ∷ c ∷ d ∷ rest) = ok (b ∷ c ∷ d ∷ [])
profile_of _ = fault

unfoldable pub avc_bytes : List ℕ → List ℕ → Result (List ℕ)
unfolding profile_of
avc_bytes sps pps = do
  profile ← profile_of sps
  ok (
      (0x17 ∷ 0 ∷ 0 ∷ 0 ∷ 0 ∷ 1 ∷ profile)
      ++ (0xff
          ∷ 0xe1
          ∷ (write_int16 (length sps % 2 ^ 16)
              ++ (sps ++ (1 ∷ (write_int16 (length pps % 2 ^ 16) ++ pps))))))

unfoldable pub video_bytes : Bool → List (List ℕ) → Result (List ℕ)
unfolding first_nalu
video_bytes keyframe nalus = do
  nalu ← first_nalu nalus
  ok (
      (if keyframe then 0x17 else 0x27) ∷ 1 ∷ 0 ∷ 0 ∷ 0 ∷ write_int32 (length nalu % 2 ^ 32)
      ++ nalu)

unfoldable pub media_bytes : RtmpMedia → Result (List ℕ)
unfolding audio_bytes avc_bytes video_bytes
media_bytes (audio flag t data') = ok (audio_bytes data')
media_bytes (avc sps pps) = avc_bytes sps pps
media_bytes (video t keyframe nalus) = video_bytes keyframe nalus

-- The method encode_pkg, into `size` bytes.
unfoldable pub encode_media : RtmpMedia → ℕ → Result (List ℕ)
unfolding media_bytes
encode_media p size = do bytes ← media_bytes p; if leb (length bytes) size then ok bytes else fault

-- memcpy of `n` bytes from the buffer.
unfoldable pub copy_out : ℕ → List ℕ → Result (List ℕ)
copy_out n data' = if leb n (length data') then ok (take n data') else fault

-- RtmpAudioPacket::decode
unfoldable pub decode_audio : ℕ → List ℕ → Result RtmpMedia
decode_audio t [] = fault
decode_audio t (flag ∷ data') = ok (audio flag t data')

-- RtmpAVCPacket::decode. The lengths are read into the low halves of ints that are 0.
unfoldable pub decode_avc : List ℕ → Result RtmpMedia
unfolding copy_out
decode_avc data' = if ltb (length data') 11 then err 1 else (do
  spslen ← read_int16 (drop 11 data')
  sps ← copy_out spslen (drop 13 data')
  ppslen ← read_int16 (drop (14 + spslen) data')
  pps ← copy_out ppslen (drop (16 + spslen) data')
  ok (avc sps pps))

-- A length of 2^31 or more is negative, which `new` refuses by an exception that nothing catches.
unfoldable pub copy_nalu : ℕ → List ℕ → Result (List ℕ)
unfolding copy_out
copy_nalu nalulen data' = if leb (2 ^ 31) nalulen then fault else copy_out nalulen data'

-- The loop of RtmpVideoPacket::decode.
unfoldable pub decode_nalus : ℕ → List ℕ → Result (List (List ℕ))
unfolding copy_nalu
decode_nalus zero data' = out_of_fuel
decode_nalus (suc f) data' =
    let more = do
      nalulen ← read_int32 data'
      nalu ← copy_nalu nalulen (drop 4 data')
      nalus ← decode_nalus f (drop (4 + nalulen) data')
      ok (nalu ∷ nalus)
    in if length data' == 0 then ok [] else more

-- RtmpVideoPacket::decode
unfoldable pub decode_video : ℕ → List ℕ → Result RtmpMedia
unfolding decode_nalus
decode_video t [] = fault
decode_video t (val ∷ data') = do
  nalus ← decode_nalus (suc (length data')) (drop 4 data')
  ok (video t (val == 0x17) nalus)

-- `body[1]`
unfoldable pub body_kind : List ℕ → Result ℕ
body_kind (a ∷ b ∷ body) = ok b
body_kind _ = fault

-- A failed `decode` leaves a packet without its parts, which is passed on all the same.
unfoldable pub or_blank : Result RtmpMedia → RtmpMedia → Result (Option RtmpMedia)
or_blank (ok p) blank = ok (some p)
or_blank (err n) blank = ok (some blank)
or_blank fault blank = fault
or_blank out_of_fuel blank = out_of_fuel

unfoldable pub decode_video_msg : ℕ → ℕ → List ℕ → Result (Option RtmpMedia)
unfolding decode_avc decode_video or_blank
decode_video_msg t kind body =
    if kind == 0x00
    then or_blank (decode_avc body) (avc [] [])
    else if kind == 0x01
    then or_blank (decode_video t body) (video t false [])
    else ok none

-- decode_media_msg, with the type and the timestamp of the message's header.
unfoldable pub decode_media_msg : ℕ → ℕ → List ℕ → Result (Option RtmpMedia)
unfolding decode_audio body_kind decode_video_msg or_blank
decode_media_msg type t body =
    if type == rtmp_msg_audio_message
    then or_blank (decode_audio t body) (audio 0 t [])
    else (do kind ← body_kind body; decode_video_msg t kind body)
