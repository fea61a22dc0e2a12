-- ===== src/DataBuf.antt =====
-- net/DataBuf.cc: the ring buffer and the cache buffer behind the sockets.
pub mod Ring
pub mod Cache
mod Tests
