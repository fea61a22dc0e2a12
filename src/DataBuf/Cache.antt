-- ===== src/DataBuf/Cache.antt =====
-- class DataCacheBuf of net/DataBuf.cc: a growing buffer, filled at its end and taken from at its
-- front. Memory is a list of bytes of length nbytes.
pub mod Laws
use librtmp_client.Prelude.{
  ℕ, ◌+◌, ◌-◌, ◌*◌, Bool, false, List, ltb, leb, if◌then◌else◌, length, take, drop, replicate,
  memcpy, Result, ok, fault, ℤ, pos, negsuc,
}

pub record DataCacheBuf : Type 0 where
  pub bytes : List ℕ
  pub nbytes : ℕ
  pub length_ : ℕ

abbrev pub max_cache_len : ℕ
max_cache_len = 8 * 1024

-- What `new char[n]` holds is not determined; zeros stand for it.
unfoldable pub sized : ℕ → DataCacheBuf
sized n = record { bytes = replicate n 0; nbytes = n; length_ = 0 }

unfoldable pub init : DataCacheBuf
init = sized max_cache_len

-- What `data()` and `len()` give the caller.
abbrev pub contents : DataCacheBuf → List ℕ
contents b = take b.length_ b.bytes

unfoldable pub require : DataCacheBuf → ℤ → Bool
require b (pos required_size) = leb required_size b.length_
require b (negsuc n) = false

unfoldable pub push_data : DataCacheBuf → List ℕ → DataCacheBuf
unfolding sized
push_data b data' =
    let size = length data' in
    if ltb b.nbytes (b.length_ + size)
    then (let n = b.length_ + size + 2048 in
        let temp = memcpy (sized n).bytes 0 (take b.length_ b.bytes) in
        record { bytes = memcpy temp b.length_ data'; nbytes = n; length_ = b.length_ + size })
    else record b { bytes = memcpy b.bytes b.length_ data'; length_ = b.length_ + size }

-- `memmove` with a size below 0 is outside every buffer.
unfoldable pub pop_data : DataCacheBuf → ℕ → Result DataCacheBuf
pop_data b len =
    if ltb b.length_ len
    then fault
    else ok (record b {
      bytes = memcpy b.bytes 0 (take (b.length_ - len) (drop len b.bytes));
      length_ = b.length_ - len;
    })
