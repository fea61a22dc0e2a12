-- ===== src/Rtmp/Transport/Receive/Safety.antt =====
-- recvRtmpMessage of rtmp_transport.cc on any bytes: the memory behind the payload of a chunk stream.
use librtmp_client.Prelude.{
  ℕ, zero, suc, ◌^◌, ◌≤◌, ◌<◌, ◌≡◌, refl, sym, subst, List, [], ◌∷◌, ◌==◌, ◌||◌, if_both, length,
  drop, All, arith, Result, ok, err, fault, out_of_fuel, Returns, gives, refuses, Returns-map,
  Option, some, none, length-drop,
}
use librtmp_client.Rtmp.Header.{RtmpHeader, init, decode}
use librtmp_client.NetIo.Laws.{IsByte}
use librtmp_client.Rtmp.Header.Decoding.{decode-Decoded}
use librtmp_client.Rtmp.Control.{
  RtmpPacket, decode_msg, user_control, set_window_ack_size, set_chunk_size, acknowledgement,
  set_peer_bandwidth,
}
use librtmp_client.Rtmp.Transport.{
  RtmpChunkData, RtmpMessageTransport, RtmpMessage, find_chunk, store_chunk, new_chunk, new_chunks,
  new_transport,
}
use librtmp_client.Rtmp.Transport.Receive.{
  react, react_decoded, on_recv_message, recv_header, recv_chunk, handle, chunk_of,
  recv_rtmp_message,
}
use librtmp_client.Rtmp.Transport.Receive.Chunks.{IsSound, recv_chunk-Safe}

abbrev pub IsSoundCache : List (ℕ × RtmpChunkData) → Type 0
IsSoundCache cache = All (λ (e : ℕ × RtmpChunkData). IsSound (e.1)) cache

store_chunk-IsSoundCache :
    (id : ℕ) (chunk : RtmpChunkData) (cache : List (ℕ × RtmpChunkData))
    → IsSound chunk
    → IsSoundCache cache
    → IsSoundCache (store_chunk id chunk cache)
unfolding store_chunk
store_chunk-IsSoundCache id chunk [] h hs = (h, tt)
store_chunk-IsSoundCache id chunk ((i, old) ∷ cache) h hs =
    if_both IsSoundCache (id == i) _ _ (h, hs.1)
      (hs.0, store_chunk-IsSoundCache id chunk cache h hs.1)

abbrev IsSoundOrNone : Option RtmpChunkData → Type 0
IsSoundOrNone none = Unit {0}
IsSoundOrNone (some chunk) = IsSound chunk

find_chunk-IsSoundOrNone :
    (id : ℕ) (cache : List (ℕ × RtmpChunkData))
    → IsSoundCache cache
    → IsSoundOrNone (find_chunk id cache)
unfolding find_chunk
find_chunk-IsSoundOrNone id [] hs = tt
find_chunk-IsSoundOrNone id ((i, old) ∷ cache) hs =
    if_both IsSoundOrNone (id == i) _ _ hs.0 (find_chunk-IsSoundOrNone id cache hs.1)

new_chunk-IsSound : (garbage : ℕ) → IsSound (new_chunk garbage)
unfolding new_chunk init
new_chunk-IsSound garbage = (omega arith, omega arith, λ long. absurd (omega arith))

chunk_of-IsSound :
    (garbage : ℕ) (t : RtmpMessageTransport) (id : ℕ)
    → IsSoundCache t.chunk_cache
    → IsSound (chunk_of garbage t id)
unfolding chunk_of
chunk_of-IsSound garbage t id hs =
    sound (find_chunk id t.chunk_cache) (find_chunk-IsSoundOrNone id t.chunk_cache hs)
  where
    sound :
        (o : Option RtmpChunkData)
        → IsSoundOrNone o
        → IsSound (elim o [ some c ↦ c | none ↦ new_chunk garbage ])
    sound none h = new_chunk-IsSound garbage
    sound (some c) h = h

react_cache :
    (t : RtmpMessageTransport) (p : RtmpPacket) → ((react t p).0).chunk_cache ≡ t.chunk_cache
unfolding react
react_cache t (user_control e d x) =
    if_both (λ (u : RtmpMessageTransport). u.chunk_cache ≡ t.chunk_cache) _ _ _ refl refl
react_cache t (set_window_ack_size n) =
    if_both (λ (u : RtmpMessageTransport). u.chunk_cache ≡ t.chunk_cache) _ _ _ refl refl
react_cache t (set_chunk_size n) =
    if_both (λ (u : RtmpMessageTransport × Result (Unit {0})). (u.0).chunk_cache ≡ t.chunk_cache) _
      _ _ refl refl
react_cache t (acknowledgement n) = refl
react_cache t (set_peer_bandwidth n b) = refl

react_decoded_cache :
    (t : RtmpMessageTransport) (r : Result ℕ × Option RtmpPacket)
    → ((react_decoded t r).0).chunk_cache ≡ t.chunk_cache
unfolding react_decoded
react_decoded_cache t (ok n, some p) = react_cache t p
react_decoded_cache t (ok n, none) = refl
react_decoded_cache t (err n, p) = refl
react_decoded_cache t (fault, p) = refl
react_decoded_cache t (out_of_fuel, p) = refl

on_recv_message_cache :
    (t : RtmpMessageTransport) (msg : RtmpMessage)
    → ((on_recv_message t msg).0).chunk_cache ≡ t.chunk_cache
unfolding on_recv_message
on_recv_message_cache t msg =
    let type = msg.rtmp_header.msg_type_id in
    let decoded = decode_msg type msg.rtmp_body in
    if_both (λ (u : RtmpMessageTransport × Result (Unit {0})). (u.0).chunk_cache ≡ t.chunk_cache)
      (type == 1 || (type == 4 || type == 5)) (react_decoded t decoded) (t, ok tt)
      (react_decoded_cache t decoded) refl

-- The transport stays sound, and at most `total` bytes are taken.
abbrev SafeReceive : ℕ → RtmpMessageTransport × Result (ℕ × Option RtmpMessage) → Type 0
SafeReceive total (t, r) = IsSoundCache t.chunk_cache × Returns (λ (n, msg). n ≤ total) r

handle-SafeReceive :
    (total : ℕ) (t : RtmpMessageTransport) (r : Result (ℕ × Option RtmpMessage))
    → IsSoundCache t.chunk_cache
    → Returns (λ (n, msg). n ≤ total) r
    → SafeReceive total (handle t r)
unfolding handle
handle-SafeReceive total t (ok (n, some msg)) hs h =
    (subst IsSoundCache (sym (on_recv_message_cache t msg)) hs, h)
handle-SafeReceive total t (ok (n, none)) hs h = (hs, h)
handle-SafeReceive total t (err n) hs h = (hs, h)
handle-SafeReceive total t fault hs h = (hs, h)
handle-SafeReceive total t out_of_fuel hs h = (hs, h)

recv_header-SafeReceive :
    (garbage : ℕ) (t : RtmpMessageTransport) (data' : List ℕ) (r : Result (ℕ × RtmpHeader))
    → IsSoundCache t.chunk_cache
    → Returns (λ (n, h). (n ≤ length data') × (h.msg_length < 2 ^ 24)) r
    → SafeReceive (length data') (recv_header garbage t data' r)
unfolding recv_header
recv_header-SafeReceive garbage t data' (ok (n, h)) hs (gives w) =
    let id = h.chunk_stream_id in
    let chunk = chunk_of garbage t id in
    let rest = drop n data' in
    let safe =
      recv_chunk-Safe t.in_chunk_size n h chunk rest w.1 (chunk_of-IsSound garbage t id hs) in
    let r = recv_chunk t.in_chunk_size n h chunk rest in
    handle-SafeReceive (length data') (record t { chunk_cache = store_chunk id r.0 t.chunk_cache })
      r.1 (store_chunk-IsSoundCache id r.0 t.chunk_cache safe.0 hs)
      (Returns-map safe.1 λ m le. omega (arith, le, w.0, length-drop n data'))
recv_header-SafeReceive garbage t data' (err n) hs (refuses _) = (hs, refuses n)
recv_header-SafeReceive garbage t data' fault hs w = elim w [ ]
recv_header-SafeReceive garbage t data' out_of_fuel hs w = elim w [ ]

-- On any bytes, at least one, and with any table of sound chunk streams, recvRtmpMessage comes to the
-- packet of the message, or comes back, without an access outside the bytes or the memory of a payload: with an error, or with at most as many
-- bytes taken as there are; and every chunk stream is sound again.
pub recv_rtmp_message-Returns :
    (garbage : ℕ) (t : RtmpMessageTransport) (v : ℕ) (d : List ℕ)
    → All IsByte (v ∷ d)
    → IsSoundCache t.chunk_cache
    → IsSoundCache ((recv_rtmp_message garbage t (v ∷ d)).0).chunk_cache
      × Returns (λ (n, msg). n ≤ length (v ∷ d)) (recv_rtmp_message garbage t (v ∷ d)).1
unfolding recv_rtmp_message
recv_rtmp_message-Returns garbage t v d bytes hs =
    recv_header-SafeReceive garbage t (v ∷ d) (decode init (v ∷ d)) hs
      (Returns-map (decode-Decoded init v d bytes.0) λ m w. (w.0.2, w.1 bytes refl))

new_chunks-IsSoundCache : (garbage id n : ℕ) → IsSoundCache (new_chunks garbage id n)
unfolding new_chunks
new_chunks-IsSoundCache garbage id zero = tt
new_chunks-IsSoundCache garbage id (suc n) =
    (new_chunk-IsSound garbage, new_chunks-IsSoundCache garbage (suc id) n)

pub new_transport-IsSoundCache : (garbage : ℕ) → IsSoundCache (new_transport garbage).chunk_cache
unfolding new_transport
new_transport-IsSoundCache garbage = new_chunks-IsSoundCache garbage 0 16
