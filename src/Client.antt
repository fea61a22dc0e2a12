-- ===== src/Client.antt =====
-- class RtmpClient of rtmpclient.cc, with the methods of RtmpPublishClient and RtmpPlayClient that it
-- calls. The transport is a parameter: what its recvRtmpMessage and sendRtmpMessage do.
pub mod Packets
pub mod State
pub mod Messages
pub mod Handled
pub mod Order
pub mod Receiving
pub mod Bounds
pub mod Loop
pub mod Answers
pub mod Address
mod Tests
use librtmp_client.Prelude.{
  ℕ, zero, suc, ◌+◌, ◌-◌, ◌*◌, ◌/◌, ◌%◌, ◌^◌, Bool, true, false, List, [], ◌∷◌, ◌++◌, map, ◌==◌,
  ltb, leb, if◌then◌else◌, length, take, drop, bytes_eq, Option, none, some, Result, ok, err, fault,
  out_of_fuel, ◌>>=◌, pos,
}
use librtmp_client.DataBuf.Cache
use librtmp_client.DataBuf.Cache.{DataCacheBuf, contents, require, push_data, pop_data}
use librtmp_client.Amf0.Value.{RtmpAmf0Any, Properties, string, number, null, object, no_properties}
use librtmp_client.Amf0.Hashtable.{set, get_property}
use librtmp_client.Amf0.Copy.{c_string}
use librtmp_client.Rtmp.Control.{
  RtmpPacket, set_window_ack_size, set_chunk_size, user_control, set_buffer_length,
}
use librtmp_client.Rtmp.Command.{
  RtmpCommand, connect, connect_response, call, create_stream, create_stream_response, publish,
  play, codes, double_one, double_two, double_three, double_minus_one, double_minus_two,
  create_release_stream, create_fc_publish,
}
use librtmp_client.Rtmp.Handshake.{RtmpHandshake, create_c0c1, create_c2, process_s0s1s2}
use librtmp_client.Client.Packets.{RtmpBasePacket, control, command, media}
use librtmp_client.Client.State.{
  HandshakeStatus, client_start, send_c0c1, client_done, PushPullStatus, connecting_app,
  creating_stream, push_or_pull, Action, sent, on_publish_start, on_publish_stop, on_play_start,
  process_play_or_publish_pkg, RtmpClient, Run, then_run,
}
use librtmp_client.Client.Messages.{
  digits, Outgoing, connect_object, connect_packets, double_four, double_five, create_packets,
  publish_packets, play_packets,
}

-- `(int)` of a double; outside the range of an int it is undefined.
unfoldable pub to_int : ℕ → Result ℕ
to_int x =
    let exponent = x / 2 ^ 52 % 2 ^ 11 in
    let size = (2 ^ 52 + x % 2 ^ 52) * 2 ^ (exponent - 1023) / 2 ^ 52 in
    if ltb exponent 1023
    then ok 0
    else if leb (1023 + 31) exponent
    then fault
    else if ltb x (2 ^ 63)
    then ok size
    else ok (2 ^ 32 - size)

-- The value of the property `code` of the object of an onStatus. Anything else there is read through
-- a null or a wrong pointer.
unfoldable pub code_of : Option RtmpAmf0Any → Result (List ℕ)
code_of (some (string value)) = ok value
code_of _ = fault

unfoldable pub status_code : Option RtmpAmf0Any → Result (List ℕ)
unfolding get_property code_of
status_code (some (object ps)) = code_of (get_property (codes "code") ps)
status_code _ = fault

unfoldable pub on_status_actions : List ℕ → List Action
on_status_actions value =
    if bytes_eq value (codes "NetStream.Publish.Start")
    then on_publish_start ∷ []
    else if bytes_eq value (codes "NetStream.Unpublish.Success")
    then on_publish_stop ∷ []
    else if bytes_eq value (codes "NetStream.Play.Start")
    then on_play_start ∷ []
    else []

unfoldable pub stops : List ℕ → Bool → Bool
stops value havestop =
    if bytes_eq value (codes "NetStream.Unpublish.Success") then true else havestop

-- The casts to RtmpConnectResponsePacket, to RtmpCreateStreamResponsePacket, of which the stream id is
-- used, and to RtmpCallPacket, of which the name and the arguments are.
unfoldable pub is_connect_response : RtmpBasePacket → Bool
is_connect_response (command (connect_response name n obj info)) = true
is_connect_response _ = false

unfoldable pub created_stream : RtmpBasePacket → Option ℕ
created_stream (command (create_stream_response name n id)) = some id
created_stream _ = none

unfoldable pub as_call : RtmpBasePacket → Option (List ℕ × Option RtmpAmf0Any)
as_call (command (call name n obj args)) = some (name, args)
as_call _ = none

-- The bytes at a pointer.
unfoldable pub bytes_of : Option (List ℕ) → Result (List ℕ)
bytes_of none = fault
bytes_of (some bytes) = ok bytes

unfoldable pub after_send : {T : Type 0} → RtmpClient T → Result (T × List (List ℕ)) → Run T
after_send c (ok (t, blocks)) = ok (record c { transport = t }, map (λ b. sent b) blocks)
after_send c (err n) = ok (c, [])
after_send c fault = fault
after_send c out_of_fuel = out_of_fuel

module _ {T : Type 0} (recv : T → List ℕ → T × Result (ℕ × Option RtmpBasePacket))
    (send : T → RtmpBasePacket → ℕ → Result (T × List (List ℕ))) where
  -- sendRtmpPacket: a packet that is refused is not sent, and nobody is told.
  unfoldable pub send_rtmp_packet : RtmpClient T → Outgoing → Run T
  unfolding after_send
  send_rtmp_packet c (packet, streamid) = after_send c (send c.transport packet streamid)

  unfoldable pub send_packets : RtmpClient T → List Outgoing → Run T
  unfolding send_rtmp_packet
  send_packets c [] = ok (c, [])
  send_packets c (p ∷ ps) = then_run (send_rtmp_packet c p) λ c'. send_packets c' ps

  unfoldable pub connect_app : RtmpClient T → Run T
  unfolding send_packets connect_packets
  connect_app c = do
    (c', acts) ← send_packets c (connect_packets c)
    ok (record c' { push_pull_status = connecting_app }, acts)

  unfoldable pub create_stream_of : RtmpClient T → Run T
  unfolding send_packets create_packets
  create_stream_of c = do
    (c', acts) ← send_packets c (create_packets c.dir c.rtmp_app)
    ok (record c' { push_pull_status = creating_stream }, acts)

  -- startPushStream of the one client, startPullStream of the other.
  unfoldable pub start_stream : RtmpClient T → Run T
  unfolding send_packets publish_packets play_packets
  start_stream c = do
    (c', acts) ← send_packets c (
        if c.dir == 0
        then publish_packets c.rtmp_stream c.streamid
        else play_packets c.rtmp_app c.rtmp_app c.streamid)
    ok (record c' { push_pull_status = push_or_pull }, acts)

  -- What processData does with a packet, by the state.
  unfoldable pub on_connecting : RtmpClient T → Bool → Run T
  unfolding create_stream_of
  on_connecting c true = create_stream_of c
  on_connecting c false = ok (c, [])

  unfoldable pub on_creating : RtmpClient T → Option ℕ → Run T
  unfolding start_stream to_int
  on_creating c none = ok (c, [])
  on_creating c (some id) =
      to_int id >>= λ streamid. start_stream (record c { streamid = streamid })

  unfoldable pub on_call : RtmpClient T → List ℕ → Option RtmpAmf0Any → Run T
  unfolding status_code on_status_actions stops
  on_call c name args =
      let reaction = do
        value ← status_code args
        ok (record c { havestop = stops value c.havestop }, on_status_actions value)
      in if bytes_eq name (codes "onStatus") then reaction else ok (c, [])

  unfoldable pub on_push_or_pull :
      RtmpClient T → RtmpBasePacket → Option (List ℕ × Option RtmpAmf0Any) → Run T
  unfolding on_call
  on_push_or_pull c packet (some (name, args)) = on_call c name args
  on_push_or_pull c packet none = ok (c, process_play_or_publish_pkg packet ∷ [])

  unfoldable pub on_packet : PushPullStatus → RtmpClient T → RtmpBasePacket → Run T
  unfolding on_connecting on_creating on_push_or_pull is_connect_response created_stream as_call
  on_packet connecting_app c packet = on_connecting c (is_connect_response packet)
  on_packet creating_stream c packet = on_creating c (created_stream packet)
  on_packet push_or_pull c packet = on_push_or_pull c packet (as_call packet)

  unfoldable pub on_packet_if : RtmpClient T → Option RtmpBasePacket → Run T
  unfolding on_packet
  on_packet_if c none = ok (c, [])
  on_packet_if c (some packet) = on_packet c.push_pull_status c packet

  -- A round of the loop of processData, with what recvRtmpMessage answers: a negative answer ends it.
  unfoldable pub received :
      (RtmpClient T → Run T) → RtmpClient T → Result (ℕ × Option RtmpBasePacket) → Run T
  unfolding on_packet_if pop_data
  received next c (ok (n, packet)) = do
    cache ← pop_data c.data_cache n
    then_run (on_packet_if (record c { data_cache = cache }) packet) next
  received next c (err n) = ok (c, [])
  received next c fault = fault
  received next c out_of_fuel = out_of_fuel

  unfoldable pub process_loop : ℕ → RtmpClient T → Run T
  unfolding received
  process_loop zero c = out_of_fuel
  process_loop (suc f) c =
      let (t, r) = recv c.transport (contents c.data_cache) in
      let round = received (λ c'. process_loop f c') (record c { transport = t }) r in
      if c.data_cache.length_ == 0 then ok (c, []) else round

  unfoldable pub process_data : RtmpClient T → List ℕ → Run T
  unfolding push_data process_loop
  process_data c data' =
      let c' = record c { data_cache = push_data c.data_cache data' } in
      process_loop (suc c'.data_cache.length_) c'

  -- doHandshake, behind the test that the 3073 bytes of S0, S1 and S2 are there: the copy made of them
  -- is of everything in the cache.
  unfoldable pub on_s0s1s2 : RtmpClient T → Run T
  unfolding process_s0s1s2 create_c2 pop_data connect_app
  on_s0s1s2 c = do
    (h, ret) ← process_s0s1s2 (contents c.data_cache) c.handshake
    cache ← pop_data c.data_cache 3073
    h' ← create_c2 h
    c2 ← bytes_of h'.c2
    then_run
        (ok (
          record c { data_cache = cache; handshake = h'; status = client_done },
          sent (take 1536 c2) ∷ [],
        ))
        connect_app

  -- doHandshake, by the state.
  unfoldable pub hello : (List ℕ → List ℕ → Option (List ℕ)) → ℕ → RtmpClient T → Run T
  unfolding create_c0c1
  hello hmac now c =
      let h = create_c0c1 hmac now false c.handshake in
      bytes_of h.c0c1 >>= λ c0c1.
      ok (record c { handshake = h; status = send_c0c1 }, sent (take 1537 c0c1) ∷ [])

  unfoldable pub answer : RtmpClient T → List ℕ → Run T
  unfolding push_data require on_s0s1s2
  answer c data' =
      let c' = record c { data_cache = push_data c.data_cache data' } in
      let complete = on_s0s1s2 c' in
      if require c'.data_cache (pos 3073) then complete else ok (c', [])

  unfoldable pub handshake_by :
      (List ℕ → List ℕ → Option (List ℕ)) → ℕ → HandshakeStatus → RtmpClient T → List ℕ → Run T
  unfolding hello answer
  handshake_by hmac now client_start c data' = hello hmac now c
  handshake_by hmac now send_c0c1 c data' = answer c data'
  handshake_by hmac now client_done c data' = ok (c, [])

  unfoldable pub do_handshake :
      (List ℕ → List ℕ → Option (List ℕ)) → ℕ → RtmpClient T → List ℕ → Run T
  unfolding handshake_by
  do_handshake hmac now c data' = handshake_by hmac now c.status c data'

  -- onRecvData
  unfoldable pub recv_data_by :
      (List ℕ → List ℕ → Option (List ℕ)) → ℕ → HandshakeStatus → RtmpClient T → List ℕ → Run T
  unfolding do_handshake process_data
  recv_data_by hmac now client_done c data' = process_data c data'
  recv_data_by hmac now _ c data' = do_handshake hmac now c data'

  unfoldable pub on_recv_data :
      (List ℕ → List ℕ → Option (List ℕ)) → ℕ → RtmpClient T → List ℕ → Run T
  unfolding recv_data_by
  on_recv_data hmac now c data' = recv_data_by hmac now c.status c data'

  -- onConnect, with the status that the socket reports.
  unfoldable pub on_connect : (List ℕ → List ℕ → Option (List ℕ)) → ℕ → RtmpClient T → ℕ → Run T
  unfolding do_handshake
  on_connect hmac now c status' =
      let started = do_handshake hmac now c [] in if status' == 0 then started else ok (c, [])

  -- stop, with stopPushStream of the one client; that of the other does nothing.
  unfoldable pub stop : RtmpClient T → Run T
  unfolding send_packets create_release_stream
  stop c =
      let release =
        send_packets c ((command (create_release_stream c.rtmp_stream), c.streamid) ∷ []) in
      if c.dir == 0 then release else ok (c, [])

-- onClose: the client afterwards, if it is not deleted.
unfoldable pub on_close : {T : Type 0} → RtmpClient T → Option (RtmpClient T) × List Action
on_close c =
    if c.havestop then (none, []) else (some (record c { havestop = true }), on_publish_stop ∷ [])
