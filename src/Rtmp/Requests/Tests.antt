-- ===== src/Rtmp/Requests/Tests.antt =====
-- Runs of the packets of commands and of decode_msg on small messages.
use librtmp_client.Prelude.{
  ReturnsUnless, ℕ, ◌+◌, ◌≤◌, ◌≡◌, refl, false, List, [], ◌∷◌, ◌++◌, leb, if◌then◌else◌, length,
  arith, ok, err,
}
use librtmp_client.Amf0.Value.{size_str}
use librtmp_client.Rtmp.Command.{
  RtmpCommand, create_stream, create_stream_response, close_stream, play, codes, double_two,
  double_one, double_minus_one,
}
use librtmp_client.Rtmp.Command.Encode.{encode_command}
use librtmp_client.Rtmp.Command.Size.{has_start, has_duration, command_len}
use librtmp_client.Rtmp.Command.Fields.{fields, encode_fields, encode_command-fields}
use librtmp_client.Rtmp.Command.Decode.{decode_command}
use librtmp_client.Rtmp.Command.Codec.{fresh_of, decoded_len, decode_command-encode_command}
use librtmp_client.Rtmp.Requests.{remember, decode_command_msg, body_offset}
use librtmp_client.Rtmp.Requests.Laws.{to_create_stream, decode_command_msg-remember}
use librtmp_client.Rtmp.Command.Stays.{Broken}
use librtmp_client.Rtmp.Requests.Commands.{
  decode_command_msg-command, decode_command_msg-create_stream, decode_command_msg-Returns,
}

-- A pull request of the client: not reset, so that every optional field is written.
abbrev pull : RtmpCommand
pull = play (codes "play") 0 (codes "live") double_minus_one double_minus_one false

encode_command-fields_example :
    (encode_command pull 30
      ≡ (if leb (command_len pull) 30 then ok (encode_fields (fields pull)) else err 1))
    × (length (encode_fields (fields pull)) ≡ command_len pull)
unfolding has_start has_duration
encode_command-fields_example =
    encode_command-fields pull 30 (omega arith, (tt, (tt, (omega arith, (tt, (tt, (tt, tt)))))))

decode_command-encode_command_example :
    (written : List ℕ) × (encode_command pull 64 ≡ ok written)
    × (length written ≡ command_len pull)
    × (decode_command (fresh_of pull) written ≡ ok (decoded_len pull, pull))
decode_command-encode_command_example =
    decode_command-encode_command pull 64 (refl, omega arith, omega arith, omega arith, omega arith)
      (unfold command_len size_str in omega arith)

abbrev answer : RtmpCommand
answer = create_stream_response (codes "_result") double_two double_one

decode_command_msg-remember_example :
    decode_command_msg
      (remember (create_stream (codes "createStream") double_two) [])
      17
      ((0 ∷ []) ++ encode_fields (fields answer))
    ≡ ok (body_offset 17 + command_len answer, answer)
decode_command_msg-remember_example =
    decode_command_msg-remember (create_stream (codes "createStream") double_two) answer [] 17
      (0 ∷ []) (to_create_stream double_two double_one) (refl, omega arith, omega arith) refl
      (unfold body_offset in refl)

decode_command_msg-command_example :
    (written : List ℕ) × (encode_command pull 64 ≡ ok written)
    × (decode_command_msg [] 17 ((0 ∷ []) ++ written)
        ≡ ok (body_offset 17 + decoded_len pull, pull))
decode_command_msg-command_example =
    decode_command_msg-command pull [] 17 64 (0 ∷ [])
      (refl, omega arith, omega arith, omega arith, omega arith) tt
      (unfold command_len size_str in omega arith) (unfold body_offset in refl)

abbrev creating : RtmpCommand
creating = create_stream (codes "createStream") double_two

decode_command_msg-create_stream_example :
    (written : List ℕ) × (encode_command creating 64 ≡ ok written)
    × (decode_command_msg [] 20 ([] ++ written)
        ≡ ok
            (body_offset 20 + command_len creating, close_stream (codes "createStream") double_two))
decode_command_msg-create_stream_example =
    decode_command_msg-create_stream double_two [] 20 64 [] (omega arith)
      (unfold command_len size_str in omega arith) (unfold body_offset in refl)

-- The name "a", the number 0, and an object whose only value is a string that is cut.
abbrev cut_call : List ℕ
cut_call = 2 ∷ 0 ∷ 1 ∷ 97 ∷ 0 ∷ 0 ∷ 0 ∷ 0 ∷ 0 ∷ 0 ∷ 0 ∷ 0 ∷ 0 ∷ 3 ∷ 0 ∷ 1 ∷ 98 ∷ 2 ∷ []

decode_command_msg-Returns_example :
    ReturnsUnless
      (Broken cut_call)
      (λ (r : ℕ × RtmpCommand). r.0 ≤ length cut_call + 2)
      (decode_command_msg [] 20 cut_call)
decode_command_msg-Returns_example = decode_command_msg-Returns [] 20 cut_call
