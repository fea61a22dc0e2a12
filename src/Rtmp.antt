-- ===== src/Rtmp.antt =====
-- The RTMP chunk layer: net/app_protocol/rtmp/rtmp_stack_packet.cc and rtmp_transport.cc.
pub mod Header
pub mod Send
pub mod Control
pub mod Command
pub mod Requests
pub mod Media
pub mod Handshake
pub mod Transport
mod Tests
