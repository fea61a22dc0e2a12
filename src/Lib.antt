-- ===== src/Lib.antt =====
-- A model of the RTMP client library, and what is proved of it.
--
-- The program. The client talks RTMP over a socket. Bytes from the socket wait in the buffers of
-- net/DataBuf.cc; the integers of the protocol are read and written in network order by base/netio.c;
-- the commands carry AMF0 values, which net/app_protocol/rtmp/rtmp_stack_amf0.cc sizes, writes, reads,
-- stores in tables and copies. A command or a media frame travels as a message, which rtmp_transport.cc
-- cuts into chunks; class RtmpHeader of net/app_protocol/rtmp/rtmp_stack_packet.cc writes and reads the
-- header of a chunk. Before the first message there is the handshake of
-- net/app_protocol/rtmp/rtmp_stack_handshake.cc. The client of rtmpclient.cc drives all of this: it
-- caches what it receives, goes through the handshake, connects, opens a stream, and then publishes or
-- plays.
--
-- Which file models what.
-- - NetIo: base/netio.c, read_int8 to read_int64 and write_int8 to write_int64 over the copying
--   routines, in the branch for a little-endian host. NetIo/Laws has the laws.
-- - DataBuf/Ring: class DataRingBuf of net/DataBuf.cc, one function for each method (writeData is
--   write_data, addRingBufSpace is add_ring_buf_space). DataBuf/Ring/Contents defines the abstract
--   view, the unread bytes, and the invariant; Write, Read and Grow compare the methods with a bounded
--   queue.
-- - DataBuf/Cache: class DataCacheBuf of net/DataBuf.cc, and its laws.
-- - Amf0: net/app_protocol/rtmp/rtmp_stack_amf0.cc. Amf0/Value has the classes as one data type and
--   the sizes, Amf0/Hashtable the class UnSortedHashtable, Amf0/Write and Amf0/Read the methods write
--   and read, Amf0/Copy the methods copy. Amf0/Encoding states the wire format on its own and compares
--   the writers with it; Amf0/RoundTrip, Amf0/Reader and Amf0/Truncated are about the readers. Amf0/Reader/Once
--   has the readers as they would be without the second delete of RtmpAmf0Object::read.
-- - Rtmp/Header: class RtmpHeader of net/app_protocol/rtmp/rtmp_stack_packet.cc. Header/Encoding states
--   the chunk header of the protocol on its own and compares encode with it, Header/Decoding is about
--   decode on any bytes and on encoded ones.
-- - Rtmp/Send: RtmpMessageTransport::do_send_message of rtmp_transport.cc. Send/Stream states the chunk
--   stream of a message as a relation and compares the blocks sent with it, Send/Capacity and
--   Send/Overflow say which messages are sent and which are written behind send_cache_buf.
-- - Rtmp/Control: the five classes of protocol control packets of
--   net/app_protocol/rtmp/rtmp_stack_packet.cc as one data type, and decode_msg of rtmp_transport.cc on
--   their messages; Control/Codec is about their codecs.
-- - Rtmp/Transport: class RtmpMessageTransport of rtmp_transport.cc, sendRtmpMessage, do_recv_payload and
--   the steps of recvRtmpMessage on a chunk stream; Transport/Receive composes them into recvRtmpMessage
--   and has on_recv_message. Receive/Laws, Reactions, Chunks and Safety are about them,
--   Transport/Sending is about sending and about the two sides together.
-- - Rtmp/Command: the classes of command and data packets of
--   net/app_protocol/rtmp/rtmp_stack_packet.cc as one data type; Size has get_pkg_len, get_cs_id and
--   get_msg_type, Encode encode_pkg and RtmpBasePacket::encode, Decode the methods decode. Fields states
--   the values of a packet on their own and compares the writers with them; Takes, RoundTrip,
--   PlayRoundTrip and Codec are about reading them back, Stays and Safety about any bytes.
-- - Rtmp/Requests: requestsMap_ of rtmp_transport.cc, the part of on_send_message that fills it, and
--   decode_msg on command and data messages; Laws is about responses, Dispatch
--   and Commands about the others.
-- - Rtmp/Media: RtmpAudioPacket, RtmpAVCPacket and RtmpVideoPacket of
--   net/app_protocol/rtmp/rtmp_stack_packet.cc, and decode_media_msg; RoundTrip and Truncated are about
--   their codecs.
-- - Rtmp/Handshake: net/app_protocol/rtmp/rtmp_stack_handshake.cc. Blocks is about the two blocks of c1,
--   Exchange about the calls of the client.
-- - Client: class RtmpClient of rtmpclient.cc, with the methods of the two kinds of client that it calls,
--   over any transport. Client/State has its states and members, Client/Messages what it sends,
--   Client/Packets the packets as one type, with recvRtmpMessage and sendRtmpMessage of
--   rtmp_transport.cc for them, and Client/Address the constructor. Handled is about one packet, Order
--   about the states, Receiving and Bounds about recvRtmpMessage on any bytes, Loop about the loop of
--   processData, Answers about the server's side of the
--   handshake.
-- - Prelude: tests and lists over the native numbers, memcpy, and the type Result of what a call
--   returns.
--
-- How. A buffer is the list of the bytes from a pointer up to the end that the caller names. A call
-- that returns a negative int is err of its absolute value; what C++ leaves undefined is
-- the value fault: an access outside the buffer or through a null pointer, or a second delete. A theorem
-- which excludes it is a statement about memory. Machine integers are kept as
-- bit patterns in ℕ, with their wrap-around written out; a double is its 64 bits. Sizes kept in ints
-- are taken to stay below 2^31.
--
-- Fuel. The readers of nested AMF0 values recurse on fuel, one unit more than the bytes given, which
-- is enough since each nested value and each entry takes at least one byte. The depth of the C++ stack
-- is not modelled. The loop of do_send_message has one unit more than the payload has bytes, and each
-- round takes at least one, where the chunk size is not 0.
--
-- The loop of RtmpVideoPacket::decode has one unit more than the body has bytes, each NAL unit taking
-- four at least; the loop of processData has one more than the cached bytes, each message taking one
-- at least.
--
-- Outside the program. The parameter hmac of the handshake stands for OpenSSL's HMAC-SHA256, rand for the
-- values of rand(), and now for the time. That a digest has 32 bytes is the hypothesis IsSha256.
--
-- Not modelled: the timer, the devices and codecs behind onPublishStart and processPlayOrPublishPkg,
-- the connection, deletion, and main.cc. The actions of the client say what it sends and which of
-- those methods it calls.
--
-- Not modelled either: allocation failure, the bytes an unsuccessful write leaves behind, printing for the
-- log, the sockets and everything behind them; of net/, TLS, WebSocket, STUN, RTP and RTSP, which the
-- client does not use.
pub mod Prelude
pub mod NetIo
pub mod DataBuf
pub mod Amf0
pub mod Rtmp
pub mod Client
