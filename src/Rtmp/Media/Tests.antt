-- ===== src/Rtmp/Media/Tests.antt =====
-- Runs of the media packets on small frames.
use librtmp_client.Prelude.{ℕ, ◌≡◌, true, List, [], ◌∷◌, ◌++◌, length, take, arith, some, ok, fault}
use librtmp_client.NetIo.{write_int32}
use librtmp_client.Rtmp.Media.{
  RtmpMedia, avc, video, media_msg_type, media_len, encode_media, decode_video, decode_media_msg,
}
use librtmp_client.Rtmp.Media.RoundTrip.{
  time_of, nalu_bytes, decode_media_msg-encode_media, decode_video-nalu_bytes,
}
use librtmp_client.Rtmp.Media.Truncated.{decode_video_short}

abbrev parameter_sets : RtmpMedia
parameter_sets = avc (0x67 ∷ 1 ∷ 2 ∷ 3 ∷ 4 ∷ []) (0x68 ∷ 5 ∷ [])

decode_media_msg-encode_media_example :
    (n : ℕ) × (written : List ℕ) × (media_len parameter_sets ≡ ok n)
    × (encode_media parameter_sets n ≡ ok written)
    × (length written ≡ n)
    × (decode_media_msg (media_msg_type parameter_sets) (time_of parameter_sets) written
        ≡ ok (some parameter_sets))
decode_media_msg-encode_media_example =
    decode_media_msg-encode_media parameter_sets (omega arith, omega arith, omega arith)

abbrev units : List (List ℕ)
units = (0x65 ∷ 7 ∷ []) ∷ (8 ∷ []) ∷ []

decode_video-nalu_bytes_example :
    decode_video 40 (0x17 ∷ 1 ∷ 0 ∷ 0 ∷ 0 ∷ nalu_bytes units) ≡ ok (video 40 true units)
decode_video-nalu_bytes_example =
    decode_video-nalu_bytes 40 0x17 1 0 0 0 units (omega arith, (omega arith, tt))

abbrev unit_of_two : List ℕ
unit_of_two = 0x65 ∷ 7 ∷ []

decode_video_short_example :
    decode_video 40
      (0x17 ∷ 1 ∷ 0 ∷ 0 ∷ 0 ∷ take 5 (write_int32 (length unit_of_two) ++ unit_of_two))
    ≡ fault
decode_video_short_example =
    decode_video_short 40 0x17 1 0 0 0 unit_of_two 5 (omega arith) (omega arith) (omega arith)
