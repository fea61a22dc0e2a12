-- ===== src/Amf0.antt =====
-- net/app_protocol/rtmp/rtmp_stack_amf0.cc: the AMF0 values of the RTMP commands.
pub mod Value
pub mod Hashtable
pub mod Write
pub mod Read
pub mod Encoding
pub mod Copy
pub mod RoundTrip
pub mod Truncated
pub mod Reader
mod Tests
