-- ===== src/Rtmp/Transport/Receive/Reactions.antt =====
-- on_recv_message of rtmp_transport.cc.
use librtmp_client.Prelude.{
  ℕ, ◌^◌, ◌<◌, Returns, gives, refuses, Returns-if, ◌≡◌, refl, List, [], ◌∷◌, ◌++◌, ltb, ◌==◌, ◌&&◌,
  ◌||◌, Bool, true, false, if◌then◌else◌, length, Result, ok, err, fault, out_of_fuel, Option, some,
  none,
}
use librtmp_client.NetIo.{read_int8, read_int32}
use librtmp_client.Rtmp.Header.{RtmpHeader}
use librtmp_client.Rtmp.Control.{
  RtmpPacket, set_window_ack_size, set_chunk_size, set_peer_bandwidth, acknowledgement,
  user_control, decode_msg, decode_into, decode_pkg, decode_int32, decode_bandwidth, store_packet,
  new_packet, get_msg_type,
}
use librtmp_client.Rtmp.Control.Codec.{packet_bytes, decode_msg-packet_bytes}
use librtmp_client.Rtmp.Transport.{RtmpMessageTransport, RtmpMessage, rtmp_default_chunksize}
use librtmp_client.Rtmp.Transport.Receive.{react, react_decoded, on_recv_message}

-- The packet is no SetBufferLength event.
abbrev IsIdle : RtmpPacket → Type 0
IsIdle (user_control e d x) = e ≡ 0
IsIdle _ = Unit {0}

if-in_buffer_length :
    (b : Bool) (t u : RtmpMessageTransport × Result (Unit {0})) {n : ℕ}
    → (t.0).in_buffer_length ≡ n
    → (u.0).in_buffer_length ≡ n
    → ((if b then t else u).0).in_buffer_length ≡ n
if-in_buffer_length true t u ht hu = ht
if-in_buffer_length false t u ht hu = hu

if_window :
    (b : Bool) (t u : RtmpMessageTransport)
    → u.in_buffer_length ≡ t.in_buffer_length
    → (if b then u else t).in_buffer_length ≡ t.in_buffer_length
if_window true t u h = h
if_window false t u h = refl

react_keeps :
    (t : RtmpMessageTransport) (p : RtmpPacket)
    → IsIdle p
    → ((react t p).0).in_buffer_length ≡ t.in_buffer_length
unfolding react
react_keeps t (user_control e d x) h = rw h refl
react_keeps t (set_window_ack_size n) h = if_window (ltb 0 n && ltb n (2 ^ 31)) t _ refl
react_keeps t (set_chunk_size n) h =
    if-in_buffer_length (ltb n rtmp_default_chunksize) _ _ refl refl
react_keeps t (acknowledgement n) h = refl
react_keeps t (set_peer_bandwidth n b) h = refl

decode_int32-Returns :
    (p : ℕ → RtmpPacket) (body : List ℕ)
    → ((n : ℕ) → IsIdle (p n))
    → Returns (λ (n, q). IsIdle q) (decode_int32 p body)
unfolding decode_int32 read_int32
decode_int32-Returns p [] h = refuses 1
decode_int32-Returns p (a ∷ []) h = refuses 1
decode_int32-Returns p (a ∷ b ∷ []) h = refuses 1
decode_int32-Returns p (a ∷ b ∷ c ∷ []) h = refuses 1
decode_int32-Returns p (a ∷ b ∷ c ∷ d ∷ rest) h =
    Returns-if (ltb (length (a ∷ b ∷ c ∷ d ∷ rest)) 4) (λ _. refuses 1) (λ _. gives (h _))

decode_bandwidth-Returns : (body : List ℕ) → Returns (λ (n, q). IsIdle q) (decode_bandwidth body)
unfolding decode_bandwidth read_int32 read_int8
decode_bandwidth-Returns [] = refuses 1
decode_bandwidth-Returns (a ∷ []) = refuses 1
decode_bandwidth-Returns (a ∷ b ∷ []) = refuses 1
decode_bandwidth-Returns (a ∷ b ∷ c ∷ []) = refuses 1
decode_bandwidth-Returns (a ∷ b ∷ c ∷ d ∷ []) = refuses 1
decode_bandwidth-Returns (a ∷ b ∷ c ∷ d ∷ e ∷ rest) =
    Returns-if (ltb (length (a ∷ b ∷ c ∷ d ∷ e ∷ rest)) 5) (λ _. refuses 1) (λ _. gives tt)

decode_pkg-Returns :
    (p : RtmpPacket) (body : List ℕ) → IsIdle p → Returns (λ (n, q). IsIdle q) (decode_pkg p body)
unfolding decode_pkg
decode_pkg-Returns (user_control e d x) body h = gives h
decode_pkg-Returns (set_window_ack_size n) body h =
    decode_int32-Returns set_window_ack_size body (λ _. tt)
decode_pkg-Returns (set_chunk_size n) body h = decode_int32-Returns set_chunk_size body (λ _. tt)
decode_pkg-Returns (acknowledgement n) body h = decode_int32-Returns acknowledgement body (λ _. tt)
decode_pkg-Returns (set_peer_bandwidth n b) body h = decode_bandwidth-Returns body

react_decoded-none :
    (t : RtmpMessageTransport)
    → ((react_decoded t (err 2, none)).0).in_buffer_length ≡ t.in_buffer_length
unfolding react_decoded
react_decoded-none t = refl

react_decoded_keeps :
    (t : RtmpMessageTransport) (p : RtmpPacket) (r : Result (ℕ × RtmpPacket))
    → Returns (λ (n, q). IsIdle q) r
    → ((react_decoded t (store_packet p r)).0).in_buffer_length ≡ t.in_buffer_length
unfolding react_decoded store_packet
react_decoded_keeps t p (ok (n, q)) (gives h) = react_keeps t q h
react_decoded_keeps t p (err n) (refuses _) = refl
react_decoded_keeps t p fault h = elim h [ ]
react_decoded_keeps t p out_of_fuel h = elim h [ ]

abbrev IsIdleOrNone : Option RtmpPacket → Type 0
IsIdleOrNone none = Unit {0}
IsIdleOrNone (some p) = IsIdle p

if-IsIdleOrNone :
    (b : Bool) (o o' : Option RtmpPacket)
    → IsIdleOrNone o
    → IsIdleOrNone o'
    → IsIdleOrNone (if b then o else o')
if-IsIdleOrNone true o o' h h' = h
if-IsIdleOrNone false o o' h h' = h'

new_packet-IsIdleOrNone : (type : ℕ) → IsIdleOrNone (new_packet type)
unfolding new_packet
new_packet-IsIdleOrNone type = if-IsIdleOrNone (type == 4) _ _ refl (
    if-IsIdleOrNone (type == 5) _ _ tt (
      if-IsIdleOrNone (type == 3) _ _ tt
        (if-IsIdleOrNone (type == 1) _ _ tt (if-IsIdleOrNone (type == 6) _ _ tt tt))))

decode_into_keeps :
    (t : RtmpMessageTransport) (o : Option RtmpPacket) (body : List ℕ)
    → IsIdleOrNone o
    → ((react_decoded t (decode_into o body)).0).in_buffer_length ≡ t.in_buffer_length
unfolding decode_into
decode_into_keeps t none body h = react_decoded-none t
decode_into_keeps t (some p) body h =
    react_decoded_keeps t p (decode_pkg p body) (decode_pkg-Returns p body h)

-- No message changes the buffer length that the peer announces: a SetBufferLength event, for which
-- on_recv_message has a branch, is never decoded.
pub on_recv_message_buffer_length :
    (t : RtmpMessageTransport) (msg : RtmpMessage)
    → ((on_recv_message t msg).0).in_buffer_length ≡ t.in_buffer_length
unfolding on_recv_message decode_msg
on_recv_message_buffer_length t msg =
    let type = msg.rtmp_header.msg_type_id in
    if-in_buffer_length (type == 1 || (type == 4 || type == 5)) _ _
      (decode_into_keeps t (new_packet type) msg.rtmp_body (new_packet-IsIdleOrNone type)) refl

-- A SetChunkSize message, as encode_pkg writes it, sets the size of the chunks that are read, from 128
-- on; with a smaller one on_recv_message answers -2 and keeps the size.
pub on_recv_message_chunk_size :
    (t : RtmpMessageTransport) (header : RtmpHeader) (n : ℕ) (rest : List ℕ)
    → header.msg_type_id ≡ get_msg_type (set_chunk_size n)
    → n < 2 ^ 32
    → on_recv_message t
        (record { rtmp_header = header; rtmp_body = packet_bytes (set_chunk_size n) ++ rest })
      ≡ (if ltb n 128 then (t, err 2) else (record t { in_chunk_size = n }, ok tt))
unfolding on_recv_message react_decoded react get_msg_type
on_recv_message_chunk_size t header n rest e small =
    rw (e, decode_msg-packet_bytes (set_chunk_size n) rest small) refl
