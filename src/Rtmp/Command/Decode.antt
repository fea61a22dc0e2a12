-- ===== src/Rtmp/Command/Decode.antt =====
-- The methods `decode` of the command packets of net/app_protocol/rtmp/rtmp_stack_packet.cc. A call on
-- an object returns what C++ returns, and the object afterwards. What a failed call leaves in the
-- object is not modelled: its callers drop it.
use librtmp_client.Prelude
use librtmp_client.Prelude.{
  ℕ, suc, ◌+◌, ◌-◌, Bool, List, [], ◌∷◌, ◌==◌, ◌||◌, not, if◌then◌else◌, length, drop, Option, none,
  some, Result, ok, err, bytes_eq,
}
use librtmp_client.Amf0.Value.{
  RtmpAmf0Any, Properties, no_properties, object, ecma_array, boolean, number,
}
use librtmp_client.Amf0.Read.{
  Read, rtmp_amf0_read_string, rtmp_amf0_read_number, rtmp_amf0_read_boolean, rtmp_amf0_read_null,
  rtmp_amf0_read_undefined, rtmp_amf0_read_any, read, discovery,
}
use librtmp_client.Amf0.Copy.{copy_properties}
use librtmp_client.Rtmp.Command.{
  RtmpCommand, connect, connect_response, call, create_stream, create_stream_response, close_stream,
  fmle_start, fmle_start_response, publish, pause_stream, play, on_meta_data, codes, double_one,
  double_eq, is_zero,
}
use librtmp_client.Rtmp.Command.Reader.{Reader, ◌>>=◌, pure, check, if_more, skip, or_minus_one}

unfoldable pub read_string : List ℕ → Reader (List ℕ)
read_string value data' = rtmp_amf0_read_string data' value

unfoldable pub read_null : Reader (Unit {0})
read_null = skip (λ data'. rtmp_amf0_read_null data')

unfoldable pub read_undefined : Reader (Unit {0})
read_undefined = skip (λ data'. rtmp_amf0_read_undefined data')

-- `read` of a RtmpAmf0Object, with the fuel that is enough for what is there.
abbrev pub properties_of : RtmpAmf0Any → Properties
properties_of (object ps) = ps
properties_of _ = no_properties

unfoldable pub read_object : Properties → Reader Properties
read_object ps data' =
    Prelude.◌>>=◌ (read (suc (length data')) (object ps) data') λ (n, v). ok (n, properties_of v)

-- `discovery` and then `read` of the object that it made.
unfoldable pub read_discovered : Reader RtmpAmf0Any
read_discovered data' =
    Prelude.◌>>=◌ (discovery data') λ fresh. read (suc (length data')) fresh data'

-- The command name is there and is this one. (It is never empty: the reader leaves an empty string
-- out, and the object has a name before.)
abbrev pub is_name : List ℕ → List ℕ → Bool
is_name name expected = bytes_eq name expected

-- Its errors go to the label `error`, where `ret` is returned, even when it is not negative.
unfoldable pub decode_connect : List ℕ → ℕ → Properties → List ℕ → Read RtmpCommand
unfolding double_eq read_object
decode_connect name number' obj data' =
    Prelude.◌>>=◌ (rtmp_amf0_read_string data' name) λ (a, name').
      if not (is_name name' (codes "connect"))
      then ok (a, connect name' number' obj)
      else Prelude.◌>>=◌ (rtmp_amf0_read_number (drop a data')) λ (b, number'').
        if not (double_eq number'' double_one)
        then ok (b, connect name' number'' obj)
        else Prelude.◌>>=◌ (read_object obj (drop (a + b) data'))
            λ (c, obj'). ok (0, connect name' number'' obj')

-- What replaces `object` when the value is one.
abbrev pub object_or : Properties → RtmpAmf0Any → Properties
object_or obj (object ps) = ps
object_or obj _ = obj

unfoldable pub decode_connect_response : List ℕ → Properties → Properties → Reader RtmpCommand
unfolding read_object
decode_connect_response name obj info = do
  name' ← or_minus_one (read_string name)
  _ ← check (is_name name' (codes "_result")) 2
  number' ← or_minus_one rtmp_amf0_read_number
  obj' ← if_more obj (or_minus_one rtmp_amf0_read_any >>= λ v. pure (object_or obj v))
  info' ← read_object info
  pure (connect_response name' number' obj' info')

unfoldable pub decode_call : List ℕ → Option RtmpAmf0Any → Reader RtmpCommand
unfolding read_discovered
decode_call name args = do
  name' ← read_string name
  _ ← check (not (bytes_eq name' [])) 2
  number' ← or_minus_one rtmp_amf0_read_number
  obj ← read_discovered
  args' ← if_more args (read_discovered >>= λ v. pure (some v))
  pure (call name' number' (some obj) args')

unfoldable pub decode_create_stream : List ℕ → Reader RtmpCommand
decode_create_stream name = do
  name' ← read_string name
  _ ← check (is_name name' (codes "createStream")) 2
  number' ← rtmp_amf0_read_number
  _ ← read_null
  pure (create_stream name' number')

unfoldable pub decode_create_stream_response : List ℕ → Reader RtmpCommand
decode_create_stream_response name = do
  name' ← read_string name
  _ ← check (is_name name' (codes "_result")) 2
  number' ← rtmp_amf0_read_number
  _ ← read_null
  streamid ← rtmp_amf0_read_number
  pure (create_stream_response name' number' streamid)

unfoldable pub decode_close_stream : List ℕ → Reader RtmpCommand
decode_close_stream name = do
  name' ← read_string name
  number' ← rtmp_amf0_read_number
  _ ← read_null
  pure (close_stream name' number')

-- `!command_name_invalid`
abbrev pub is_fmle_name : List ℕ → Bool
is_fmle_name name =
    bytes_eq name (codes "releaseStream")
    || (bytes_eq name (codes "FCPublish") || bytes_eq name (codes "FCUnpublish"))

unfoldable pub decode_fmle_start : List ℕ → List ℕ → Reader RtmpCommand
decode_fmle_start name stream = do
  name' ← read_string name
  _ ← check (is_fmle_name name') 2
  number' ← rtmp_amf0_read_number
  _ ← read_null
  stream' ← read_string stream
  pure (fmle_start name' number' stream')

unfoldable pub decode_fmle_start_response : List ℕ → Reader RtmpCommand
decode_fmle_start_response name = do
  name' ← read_string name
  _ ← check (is_name name' (codes "_result")) 2
  number' ← rtmp_amf0_read_number
  _ ← read_null
  _ ← read_undefined
  pure (fmle_start_response name' number')

unfoldable pub decode_publish : List ℕ → List ℕ → List ℕ → Reader RtmpCommand
decode_publish name stream type = do
  name' ← read_string name
  _ ← check (is_name name' (codes "publish")) 2
  number' ← rtmp_amf0_read_number
  _ ← read_null
  stream' ← read_string stream
  type' ← if_more type (read_string type)
  pure (publish name' number' stream' type')

unfoldable pub decode_pause : List ℕ → Reader RtmpCommand
decode_pause name = do
  name' ← read_string name
  _ ← check (is_name name' (codes "pause")) 2
  number' ← rtmp_amf0_read_number
  _ ← read_null
  pause' ← rtmp_amf0_read_boolean
  time ← rtmp_amf0_read_number
  pure (pause_stream name' number' pause' time)

-- The last field of RtmpPlayPacket, of one type or another.
unfoldable pub reset_of : RtmpAmf0Any → Reader Bool
reset_of (boolean b) = pure b
reset_of (number n) = pure (not (is_zero n))
reset_of _ = λ data'. err 2

unfoldable pub decode_play : List ℕ → List ℕ → ℕ → ℕ → Bool → Reader RtmpCommand
unfolding reset_of
decode_play name stream start duration reset = do
  name' ← read_string name
  _ ← check (is_name name' (codes "play")) 2
  number' ← rtmp_amf0_read_number
  _ ← read_null
  stream' ← read_string stream
  start' ← if_more start rtmp_amf0_read_number
  duration' ← if_more duration rtmp_amf0_read_number
  reset' ← if_more reset (rtmp_amf0_read_any >>= reset_of)
  pure (play name' number' stream' start' duration' reset')

-- An object replaces `metadata`; the entries of an ECMA array are set in it, copied.
unfoldable pub metadata_of : Properties → RtmpAmf0Any → Properties
metadata_of metadata (object ps) = ps
metadata_of metadata (ecma_array n ps) = copy_properties ps metadata
metadata_of metadata _ = metadata

unfoldable pub decode_on_meta_data : List ℕ → Properties → Reader RtmpCommand
unfolding metadata_of
decode_on_meta_data name metadata = do
  first ← read_string name
  name' ← if bytes_eq first (codes "@setDataFrame") then read_string first else pure first
  metadata' ← if_more metadata (rtmp_amf0_read_any >>= λ v. pure (metadata_of metadata v))
  pure (on_meta_data name' metadata')

-- The virtual method `decode`.
unfoldable pub decode_command : RtmpCommand → Reader RtmpCommand
unfolding decode_connect decode_connect_response decode_call decode_create_stream
    decode_create_stream_response decode_close_stream decode_fmle_start decode_fmle_start_response
    decode_publish decode_pause decode_play decode_on_meta_data
decode_command (connect name n obj) = decode_connect name n obj
decode_command (connect_response name n obj info) = decode_connect_response name obj info
decode_command (call name n obj args) = decode_call name args
decode_command (create_stream name n) = decode_create_stream name
decode_command (create_stream_response name n streamid) = decode_create_stream_response name
decode_command (close_stream name n) = decode_close_stream name
decode_command (fmle_start name n stream) = decode_fmle_start name stream
decode_command (fmle_start_response name n) = decode_fmle_start_response name
decode_command (publish name n stream type) = decode_publish name stream type
decode_command (pause_stream name n pause time) = decode_pause name
decode_command (play name n stream start duration reset) =
    decode_play name stream start duration reset
decode_command (on_meta_data name metadata) = decode_on_meta_data name metadata
decode_command p = pure p
