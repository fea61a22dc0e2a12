-- ===== src/Rtmp/Transport/Tests.antt =====
-- The theorems on the transport and the control packets at concrete inputs, and runs of the definitions.
use librtmp_client.Prelude.{ℕ, ◌≡◌, refl, List, [], ◌∷◌, ◌++◌, arith, ok, some}
use librtmp_client.Rtmp.Header.{RtmpHeader}
use librtmp_client.Rtmp.Header.Encoding.{chunk_header}
use librtmp_client.Rtmp.Send.{do_send_message}
use librtmp_client.Rtmp.Send.Stream.{concat}
use librtmp_client.Rtmp.Control.{
  encode_pkg, set_chunk_size, set_peer_bandwidth, get_msg_type, get_pkg_len, decode_msg,
}
use librtmp_client.Rtmp.Control.Codec.{decode_msg-encode_pkg}
use librtmp_client.Rtmp.Transport.{
  RtmpMessageTransport, RtmpMessage, new_transport, send_rtmp_message,
}
use librtmp_client.Rtmp.Transport.Sending.{
  recv_rtmp_message-do_send_message, send_rtmp_message-chunk_size,
}
use librtmp_client.Rtmp.Transport.Receive.{on_recv_message, chunk_of, recv_rtmp_message}
use librtmp_client.Rtmp.Transport.Receive.Laws.{recv_rtmp_message-chunk_header, delivered, settled}
use librtmp_client.Rtmp.Transport.Receive.Reactions.{on_recv_message_buffer_length}

abbrev peer : RtmpMessageTransport
peer = new_transport 77

abbrev video : RtmpHeader
video = record {
  chunk_type = 0;
  chunk_stream_id = 6;
  timestamp = 40;
  msg_length = 3;
  msg_type_id = 9;
  msg_stream_id = 1;
}

stream_6_idle : (chunk_of 77 peer 6).payload ≡ []
unfolding chunk_of new_transport
stream_6_idle = refl

stream_2_idle : (chunk_of 77 peer 2).payload ≡ []
unfolding chunk_of new_transport
stream_2_idle = refl

decode_msg-encode_pkg_example :
    (written : List ℕ) × (encode_pkg (set_peer_bandwidth 2500000 2) 16 ≡ ok written)
    × (decode_msg (get_msg_type (set_peer_bandwidth 2500000 2)) (written ++ (9 ∷ []))
        ≡ (ok (get_pkg_len (set_peer_bandwidth 2500000 2)), some (set_peer_bandwidth 2500000 2)))
decode_msg-encode_pkg_example =
    decode_msg-encode_pkg (set_peer_bandwidth 2500000 2) 16 (9 ∷ []) (omega arith, omega arith)
      (unfold get_pkg_len in omega arith)

abbrev buffer_event : RtmpMessage
buffer_event = record {
  rtmp_header = record video { msg_type_id = 4 };
  rtmp_body = 0 ∷ 3 ∷ 0 ∷ 0 ∷ 1 ∷ 0 ∷ 0 ∷ 0 ∷ 1 ∷ 0 ∷ [];
}

on_recv_message_buffer_length_example :
    ((on_recv_message peer buffer_event).0).in_buffer_length ≡ peer.in_buffer_length
on_recv_message_buffer_length_example = on_recv_message_buffer_length peer buffer_event

recv_rtmp_message-chunk_header_example :
    recv_rtmp_message 77 peer (chunk_header video ++ ((7 ∷ 8 ∷ 9 ∷ []) ++ (1 ∷ []))) ≡ (
      (on_recv_message
          (settled peer video (chunk_of 77 peer 6))
          (delivered video (chunk_of 77 peer 6) (7 ∷ 8 ∷ 9 ∷ []))).0,
      ok (15, some (delivered video (chunk_of 77 peer 6) (7 ∷ 8 ∷ 9 ∷ []))),
    )
unfolding new_transport
recv_rtmp_message-chunk_header_example =
    recv_rtmp_message-chunk_header 77 peer video (7 ∷ 8 ∷ 9 ∷ []) (1 ∷ []) refl
      (omega arith, omega arith, omega arith, omega arith, omega arith, omega arith) refl
      (omega arith) stream_6_idle

recv_rtmp_message-do_send_message_example :
    (blocks : List (List ℕ)) × (do_send_message 128 video (7 ∷ 8 ∷ 9 ∷ []) ≡ ok blocks)
    × ((recv_rtmp_message 77 peer (concat blocks ++ [])).1
        ≡ ok (15, some (delivered video (chunk_of 77 peer 6) (7 ∷ 8 ∷ 9 ∷ []))))
unfolding new_transport
recv_rtmp_message-do_send_message_example =
    recv_rtmp_message-do_send_message 128 77 peer video (7 ∷ 8 ∷ 9 ∷ []) [] refl
      (omega arith, omega arith, omega arith, omega arith, omega arith, omega arith) refl
      (omega arith) (omega arith) (omega arith) (omega arith) stream_6_idle

send_rtmp_message-chunk_size_example :
    (a' : RtmpMessageTransport) × (blocks : List (List ℕ)) × (send_rtmp_message peer
        (set_chunk_size 60000)
        0
      ≡ ok (a', blocks))
    × (a'.out_chunk_size ≡ 60000)
    × ((recv_rtmp_message 77 peer (concat blocks ++ [])).0.in_chunk_size ≡ 60000)
unfolding new_transport
send_rtmp_message-chunk_size_example =
    send_rtmp_message-chunk_size peer peer 77 60000 0 [] (omega arith) (omega arith) stream_2_idle
      (omega arith) (omega arith) (omega arith)
