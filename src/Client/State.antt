-- ===== src/Client/State.antt =====
-- The states and the members of class RtmpClient of rtmpclient.cc, and what a call does to them.
use librtmp_client.Prelude.{ℕ, Bool, List, ◌++◌, Result, ok, ◌>>=◌}
use librtmp_client.DataBuf.Cache.{DataCacheBuf}
use librtmp_client.Rtmp.Handshake.{RtmpHandshake}
use librtmp_client.Client.Packets.{RtmpBasePacket}

-- RTMP_HANDSHAKE_CLIENT_DONE is RTMP_HANDSHAKE_SEND_C2.
pub data HandshakeStatus : Type 0 where
  client_start : HandshakeStatus
  send_c0c1 : HandshakeStatus
  client_done : HandshakeStatus

pub data PushPullStatus : Type 0 where
  connecting_app : PushPullStatus
  creating_stream : PushPullStatus
  push_or_pull : PushPullStatus

-- What the client does: bytes to the socket, and the calls that reach the devices.
pub data Action : Type 0 where
  sent : List ℕ → Action
  on_publish_start : Action
  on_publish_stop : Action
  on_play_start : Action
  process_play_or_publish_pkg : RtmpBasePacket → Action

-- `dir` is 0 for a client that pushes.
pub record RtmpClient (T : Type 0) : Type 0 where
  pub rtmp_app : List ℕ
  pub rtmp_stream : List ℕ
  pub ip : List ℕ
  pub port : ℕ
  pub dir : ℕ
  pub status : HandshakeStatus
  pub push_pull_status : PushPullStatus
  pub transport : T
  pub data_cache : DataCacheBuf
  pub handshake : RtmpHandshake
  pub streamid : ℕ
  pub havestop : Bool

-- The client afterwards, and what it did, in order.
abbrev pub Run : Type 0 → Type 0
Run T = Result (RtmpClient T × List Action)

abbrev pub then_run : {T : Type 0} → Run T → (RtmpClient T → Run T) → Run T
then_run r k = do (c, done_) ← r; (c', more) ← k c; ok (c', done_ ++ more)
