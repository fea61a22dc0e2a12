-- ===== src/Client/Receiving.antt =====
-- recvRtmpMessage of rtmp_transport.cc ends on any bytes, and what it answers takes one at least.
use librtmp_client.Prelude.{
  ℕ, zero, suc, ◌+◌, Bool, true, false, List, [], ◌∷◌, ◌==◌, if◌then◌else◌, Option, none, some,
  Result, ok, err, fault, out_of_fuel, if_both,
}
use librtmp_client.Client.Packets.{RtmpBasePacket}
use librtmp_client.Client.Handled.{Ends, Then->>=, Then-if, Then, gives_, refuses_, faults, spent}
use librtmp_client.Rtmp.Header.{
  RtmpHeader, rtmp_extended_timestamp, init, decode_fmt0, decode_fmt1, decode_fmt2, two_byte_form,
  three_byte_form, decode_base_header, decode_msg_header, decode,
}
use librtmp_client.Rtmp.Transport.{
  RtmpChunkData, RtmpMessageTransport, RtmpMessage, first_recv_msg, create_payload, copy_payload,
  apply_header, read_extended, do_recv_payload, store_chunk,
}
use librtmp_client.Rtmp.Transport.Receive.{
  finish_chunk, recv_extended, recv_payload, recv_chunk, handle, chunk_of, recv_header,
  recv_rtmp_message,
}
use librtmp_client.NetIo.{read_int16, read_int32}
use librtmp_client.Rtmp.Command.{RtmpCommand}
use librtmp_client.Rtmp.Media.{
  RtmpMedia, audio, avc, video, or_blank, copy_out, copy_nalu, decode_nalus, decode_avc,
  decode_video, decode_audio, body_kind, decode_video_msg, decode_media_msg, rtmp_msg_audio_message,
  rtmp_msg_video_message,
}
use librtmp_client.Rtmp.Requests.{Requests, decode_command_msg, is_command_msg}
use librtmp_client.Rtmp.Requests.Commands.{decode_command_msg-Returns}
use librtmp_client.Prelude.{ReturnsUnless, yields, declines, breaks, length-drop, take, ◌||◌}
use librtmp_client.Client.Packets.{
  Transport, command_or_none, packet_of, packet_received, recv_packet,
}
use librtmp_client.Prelude.{
  ◌-◌, ◌%◌, min, length, leb, ◌/◌, ◌^◌, bit_and, drop, ltb, ◌<◌, ◌≤◌, arith,
}

module _ (S : Type 0) where
  -- A base header that takes a byte or more.
  abbrev TakesBase : Result (ℕ × ℕ × ℕ) → Type 0
  TakesBase = Then S λ ((n, fmt, cs_id) : ℕ × ℕ × ℕ). 1 ≤ n

  fmt0_ends : (h : RtmpHeader) (d : List ℕ) → Ends S (decode_fmt0 h d)
  unfolding decode_fmt0
  fmt0_ends h [] = refuses_ 1
  fmt0_ends h (a0 ∷ []) = refuses_ 1
  fmt0_ends h (a0 ∷ a1 ∷ []) = refuses_ 1
  fmt0_ends h (a0 ∷ a1 ∷ a2 ∷ []) = refuses_ 1
  fmt0_ends h (a0 ∷ a1 ∷ a2 ∷ a3 ∷ []) = refuses_ 1
  fmt0_ends h (a0 ∷ a1 ∷ a2 ∷ a3 ∷ a4 ∷ []) = refuses_ 1
  fmt0_ends h (a0 ∷ a1 ∷ a2 ∷ a3 ∷ a4 ∷ a5 ∷ []) = refuses_ 1
  fmt0_ends h (a0 ∷ a1 ∷ a2 ∷ a3 ∷ a4 ∷ a5 ∷ a6 ∷ []) = refuses_ 1
  fmt0_ends h (a0 ∷ a1 ∷ a2 ∷ a3 ∷ a4 ∷ a5 ∷ a6 ∷ a7 ∷ []) = refuses_ 1
  fmt0_ends h (a0 ∷ a1 ∷ a2 ∷ a3 ∷ a4 ∷ a5 ∷ a6 ∷ a7 ∷ a8 ∷ []) = refuses_ 1
  fmt0_ends h (a0 ∷ a1 ∷ a2 ∷ a3 ∷ a4 ∷ a5 ∷ a6 ∷ a7 ∷ a8 ∷ a9 ∷ []) = refuses_ 1
  fmt0_ends h (a0 ∷ a1 ∷ a2 ∷ a3 ∷ a4 ∷ a5 ∷ a6 ∷ a7 ∷ a8 ∷ a9 ∷ a10 ∷ d) = gives_ tt

  fmt1_ends : (h : RtmpHeader) (d : List ℕ) → Ends S (decode_fmt1 h d)
  unfolding decode_fmt1
  fmt1_ends h [] = refuses_ 1
  fmt1_ends h (a0 ∷ []) = refuses_ 1
  fmt1_ends h (a0 ∷ a1 ∷ []) = refuses_ 1
  fmt1_ends h (a0 ∷ a1 ∷ a2 ∷ []) = refuses_ 1
  fmt1_ends h (a0 ∷ a1 ∷ a2 ∷ a3 ∷ []) = refuses_ 1
  fmt1_ends h (a0 ∷ a1 ∷ a2 ∷ a3 ∷ a4 ∷ []) = refuses_ 1
  fmt1_ends h (a0 ∷ a1 ∷ a2 ∷ a3 ∷ a4 ∷ a5 ∷ []) = refuses_ 1
  fmt1_ends h (a0 ∷ a1 ∷ a2 ∷ a3 ∷ a4 ∷ a5 ∷ a6 ∷ d) = gives_ tt

  fmt2_ends : (h : RtmpHeader) (d : List ℕ) → Ends S (decode_fmt2 h d)
  unfolding decode_fmt2
  fmt2_ends h [] = refuses_ 1
  fmt2_ends h (a ∷ []) = refuses_ 1
  fmt2_ends h (a ∷ b ∷ []) = refuses_ 1
  fmt2_ends h (a ∷ b ∷ c ∷ d) = gives_ tt

  msg_header_ends : (h : RtmpHeader) (d : List ℕ) → Ends S (decode_msg_header h d)
  unfolding decode_msg_header
  msg_header_ends h d = if_both (Ends S) (h.chunk_type == 0) _ _ (fmt0_ends h d) (
      if_both (Ends S) (h.chunk_type == 1) _ _ (fmt1_ends h d)
        (if_both (Ends S) (h.chunk_type == 2) _ _ (fmt2_ends h d) (gives_ tt)))

  copy_ends : (chunk : RtmpChunkData) (bytes : List ℕ) → Ends S (copy_payload chunk bytes)
  unfolding copy_payload
  copy_ends chunk bytes =
      Then-if (leb (length chunk.payload + length bytes) chunk.capacity) (gives_ tt) faults

  payload_ends :
      (size : ℕ) (chunk : RtmpChunkData) (d : List ℕ) → Ends S (do_recv_payload size chunk d)
  unfolding do_recv_payload
  payload_ends size chunk d =
      let n = min ((chunk.h.msg_length + 2 ^ 32 - length chunk.payload) % 2 ^ 32) size in
      Then-if (leb (2 ^ 31) n) faults (
        Then-if (ltb (length d) n) (refuses_ 1) (
          Then->>=
            (copy_ends (if first_recv_msg chunk then create_payload chunk else chunk) (take n d))
            λ c _. gives_ tt))

  abbrev Ended : RtmpChunkData × Result ℕ → Type 0
  Ended r = Ends S r.1

  extended_ends : (chunk : RtmpChunkData) (d : List ℕ) → Ends S (read_extended chunk d).1
  unfolding read_extended
  extended_ends chunk [] =
      if_both Ended (ltb chunk.time_delta rtmp_extended_timestamp) _ _ (gives_ tt) (refuses_ 1)
  extended_ends chunk (a ∷ []) =
      if_both Ended (ltb chunk.time_delta rtmp_extended_timestamp) _ _ (gives_ tt) (refuses_ 1)
  extended_ends chunk (a ∷ b ∷ []) =
      if_both Ended (ltb chunk.time_delta rtmp_extended_timestamp) _ _ (gives_ tt) (refuses_ 1)
  extended_ends chunk (a ∷ b ∷ c ∷ []) =
      if_both Ended (ltb chunk.time_delta rtmp_extended_timestamp) _ _ (gives_ tt) (refuses_ 1)
  extended_ends chunk (a ∷ b ∷ c ∷ e ∷ d) =
      if_both Ended (ltb chunk.time_delta rtmp_extended_timestamp) _ _ (gives_ tt) (gives_ tt)

  from_Unless : {A B : Type 0} {P : A → Type 0} {r : Result A} → ReturnsUnless B P r → Ends S r
  from_Unless (yields h) = gives_ tt
  from_Unless (declines n) = refuses_ n
  from_Unless (breaks b) = faults

  command_or_none_ends : (r : Result (ℕ × RtmpCommand)) → Ends S r → Ends S (command_or_none r)
  unfolding command_or_none
  command_or_none_ends (ok (n, p)) h = gives_ tt
  command_or_none_ends (err n) h = gives_ tt
  command_or_none_ends fault h = faults
  command_or_none_ends out_of_fuel (spent s) = spent s

  or_blank_ends : (r : Result RtmpMedia) (p : RtmpMedia) → Ends S r → Ends S (or_blank r p)
  unfolding or_blank
  or_blank_ends (ok x) p h = gives_ tt
  or_blank_ends (err n) p h = gives_ tt
  or_blank_ends fault p h = faults
  or_blank_ends out_of_fuel p (spent s) = spent s

  int16_ends : (d : List ℕ) → Ends S (read_int16 d)
  unfolding read_int16
  int16_ends [] = faults
  int16_ends (a ∷ []) = faults
  int16_ends (a ∷ b ∷ d) = gives_ tt

  int32_ends : (d : List ℕ) → Then S (λ n. 4 ≤ length d) (read_int32 d)
  unfolding read_int32
  int32_ends [] = faults
  int32_ends (a ∷ []) = faults
  int32_ends (a ∷ b ∷ []) = faults
  int32_ends (a ∷ b ∷ c ∷ []) = faults
  int32_ends (a ∷ b ∷ c ∷ e ∷ d) = gives_ (omega arith)

  copy_out_ends : (n : ℕ) (d : List ℕ) → Ends S (copy_out n d)
  unfolding copy_out
  copy_out_ends n d = Then-if (leb n (length d)) (gives_ tt) faults

  nalu_ends : (n : ℕ) (d : List ℕ) → Ends S (copy_nalu n d)
  unfolding copy_nalu
  nalu_ends n d = Then-if (leb (2 ^ 31) n) faults (copy_out_ends n d)

  nalus_ends : (f : ℕ) (d : List ℕ) → length d < f → Ends S (decode_nalus f d)
  unfolding decode_nalus
  nalus_ends zero d h = absurd (omega arith)
  nalus_ends (suc f) d h = Then-if (length d == 0) (gives_ tt) (
      Then->>= (int32_ends d) λ n four. Then->>= (nalu_ends n (drop 4 d)) λ nalu _.
        Then->>= (nalus_ends f (drop (4 + n) d) (omega (arith, four, h, length-drop (4 + n) d)))
          λ nalus _. gives_ tt)

  avc_ends : (d : List ℕ) → Ends S (decode_avc d)
  unfolding decode_avc
  avc_ends d = Then-if (ltb (length d) 11) (refuses_ 1) (
      Then->>= (int16_ends (drop 11 d)) λ n _. Then->>= (copy_out_ends n (drop 13 d)) λ sps _.
        Then->>= (int16_ends (drop (14 + n) d))
          λ m _. Then->>= (copy_out_ends m (drop (16 + n) d)) λ pps _. gives_ tt)

  video_ends : (t : ℕ) (d : List ℕ) → Ends S (decode_video t d)
  unfolding decode_video
  video_ends t [] = faults
  video_ends t (v ∷ d) =
      Then->>= (nalus_ends (suc (length d)) (drop 4 d) (omega (arith, length-drop 4 d)))
        λ nalus _. gives_ tt

  audio_ends : (t : ℕ) (d : List ℕ) → Ends S (decode_audio t d)
  unfolding decode_audio
  audio_ends t [] = faults
  audio_ends t (v ∷ d) = gives_ tt

  kind_ends : (d : List ℕ) → Ends S (body_kind d)
  unfolding body_kind
  kind_ends [] = faults
  kind_ends (a ∷ []) = faults
  kind_ends (a ∷ b ∷ d) = gives_ tt

  video_msg_ends : (t kind : ℕ) (d : List ℕ) → Ends S (decode_video_msg t kind d)
  unfolding decode_video_msg
  video_msg_ends t kind d =
      Then-if (kind == 0x00) (or_blank_ends (decode_avc d) (avc [] []) (avc_ends d)) (
        Then-if (kind == 0x01)
          (or_blank_ends (decode_video t d) (video t false []) (video_ends t d)) (gives_ tt))

  media_ends : (type t : ℕ) (d : List ℕ) → Ends S (decode_media_msg type t d)
  unfolding decode_media_msg
  media_ends type t d =
      Then-if (type == rtmp_msg_audio_message)
        (or_blank_ends (decode_audio t d) (audio 0 t []) (audio_ends t d))
        (Then->>= (kind_ends d) λ kind _. video_msg_ends t kind d)

  pub packet_of_ends : (requests : Requests) (msg : RtmpMessage) → Ends S (packet_of requests msg)
  unfolding packet_of
  packet_of_ends requests msg =
      let type = msg.rtmp_header.msg_type_id in
      Then-if (type == rtmp_msg_audio_message || type == rtmp_msg_video_message)
        (Then->>= (media_ends type msg.rtmp_header.timestamp msg.rtmp_body) λ p _. gives_ tt)
        (Then-if (is_command_msg type)
          (command_or_none_ends (decode_command_msg requests type msg.rtmp_body)
            (from_Unless (decode_command_msg-Returns requests type msg.rtmp_body)))
          (gives_ tt))

  two_byte_takes : (fmt : ℕ) (d : List ℕ) → TakesBase (two_byte_form fmt d)
  unfolding two_byte_form
  two_byte_takes fmt [] = refuses_ 1
  two_byte_takes fmt (a ∷ d) = gives_ (omega arith)

  three_byte_takes : (fmt : ℕ) (d : List ℕ) → TakesBase (three_byte_form fmt d)
  unfolding three_byte_form
  three_byte_takes fmt [] = refuses_ 1
  three_byte_takes fmt (a ∷ []) = refuses_ 1
  three_byte_takes fmt (a ∷ b ∷ d) = gives_ (omega arith)

  base_header_takes : (d : List ℕ) → TakesBase (decode_base_header d)
  unfolding decode_base_header
  base_header_takes [] = faults
  base_header_takes (v ∷ rest) =
      let fmt = bit_and v 0x03 / 2 ^ 6 in
      if_both TakesBase (ltb 1 (bit_and v 0x3f)) _ _ (gives_ (omega arith)) (
        if_both TakesBase (bit_and v 0x3f == 0) _ _ (two_byte_takes fmt rest)
          (three_byte_takes fmt rest))

  decode_takes :
      (h : RtmpHeader) (d : List ℕ) → Then S (λ ((n, h') : ℕ × RtmpHeader). 1 ≤ n) (decode h d)
  unfolding decode
  decode_takes h d = Then->>= (base_header_takes d) λ (a, fmt, cs_id) w.
      Then->>= (msg_header_ends (record h { chunk_type = fmt; chunk_stream_id = cs_id }) (drop a d))
        λ (b, h') _. gives_ (omega (arith, w))

  -- An answer that takes a byte or more.
  abbrev TakesMessage : Result (ℕ × Option RtmpMessage) → Type 0
  TakesMessage = Then S λ ((n, msg) : ℕ × Option RtmpMessage). 1 ≤ n

  finish_takes :
      (offset : ℕ) (chunk : RtmpChunkData) (r : Result (RtmpChunkData × ℕ × Bool))
      → 1 ≤ offset
      → Ends S r
      → TakesMessage (finish_chunk offset chunk r).1
  unfolding finish_chunk
  finish_takes offset chunk (ok (chunk', n, true)) h w = gives_ (omega (arith, h))
  finish_takes offset chunk (ok (chunk', n, false)) h w = gives_ (omega (arith, h))
  finish_takes offset chunk (err n) h w = refuses_ n
  finish_takes offset chunk fault h w = faults
  finish_takes offset chunk out_of_fuel h (spent s) = spent s

  extended_takes :
      (size offset : ℕ) (d : List ℕ) (r : RtmpChunkData × Result ℕ)
      → 1 ≤ offset
      → Ends S r.1
      → TakesMessage (recv_extended size offset d r).1
  unfolding recv_extended
  extended_takes size offset d (chunk, ok n) h w =
      finish_takes (offset + n) chunk (do_recv_payload size chunk (drop n d)) (omega (arith, h))
        (payload_ends size chunk (drop n d))
  extended_takes size offset d (chunk, err n) h w = refuses_ n
  extended_takes size offset d (chunk, fault) h w = faults
  extended_takes size offset d (chunk, out_of_fuel) h (spent s) = spent s

  chunk_takes :
      (size offset : ℕ) (h : RtmpHeader) (chunk : RtmpChunkData) (d : List ℕ)
      → 1 ≤ offset
      → TakesMessage (recv_chunk size offset h chunk d).1
  unfolding recv_chunk recv_payload
  chunk_takes size offset h chunk d le =
      let (chunk', applied) = apply_header h chunk in
      if_both (λ (r : RtmpChunkData × Result (ℕ × Option RtmpMessage)). TakesMessage r.1) applied _
        _ (extended_takes size offset d (read_extended chunk' d) le (extended_ends chunk' d))
        (refuses_ 2)

  handle_takes :
      (t : RtmpMessageTransport) (r : Result (ℕ × Option RtmpMessage))
      → TakesMessage r
      → TakesMessage (handle t r).1
  unfolding handle
  handle_takes t (ok (n, some msg)) (gives_ h) = gives_ h
  handle_takes t (ok (n, none)) h = h
  handle_takes t (err n) h = h
  handle_takes t fault h = h
  handle_takes t out_of_fuel h = h

  header_takes :
      (garbage : ℕ) (t : RtmpMessageTransport) (d : List ℕ) (r : Result (ℕ × RtmpHeader))
      → Then S (λ ((n, h) : ℕ × RtmpHeader). 1 ≤ n) r
      → TakesMessage (recv_header garbage t d r).1
  unfolding recv_header
  header_takes garbage t d (ok (n, h)) (gives_ le) =
      let id = h.chunk_stream_id in
      let (chunk, r) = recv_chunk t.in_chunk_size n h (chunk_of garbage t id) (drop n d) in
      handle_takes (record t { chunk_cache = store_chunk id chunk t.chunk_cache }) r
        (chunk_takes t.in_chunk_size n h (chunk_of garbage t id) (drop n d) le)
  header_takes garbage t d (err n) h = refuses_ n
  header_takes garbage t d fault h = faults
  header_takes garbage t d out_of_fuel (spent s) = spent s

  packet_takes :
      (requests : Requests) (r : Result (ℕ × Option RtmpMessage))
      → TakesMessage r
      → Then S (λ ((n, p) : ℕ × Option RtmpBasePacket). 1 ≤ n) (packet_received requests r)
  unfolding packet_received
  packet_takes requests (ok (n, some msg)) (gives_ h) =
      Then->>= (packet_of_ends requests msg) λ p _. gives_ h
  packet_takes requests (ok (n, none)) (gives_ h) = gives_ h
  packet_takes requests (err n) h = refuses_ n
  packet_takes requests fault h = faults
  packet_takes requests out_of_fuel (spent s) = spent s

pub recv_packet_takes :
    (S : Type 0) (garbage : ℕ) (t : Transport) (d : List ℕ)
    → Then S (λ ((n, p) : ℕ × Option RtmpBasePacket). 1 ≤ n) (recv_packet garbage t d).1
unfolding recv_packet recv_rtmp_message
recv_packet_takes S garbage (t, requests) d =
    packet_takes S requests (recv_rtmp_message garbage t d).1 (
      unfold recv_rtmp_message in
      header_takes S garbage t d (decode init d) (decode_takes S init d))
