-- ===== src/Rtmp/Send.antt =====
-- RtmpMessageTransport::do_send_message of rtmp_transport.cc: a message is cut into chunks, which are
-- gathered in `send_cache_buf` and handed to the socket in blocks.
pub mod Stream
pub mod Capacity
pub mod Overflow
use librtmp_client.Prelude.{
  ℕ, zero, suc, ◌+◌, ◌-◌, min, List, [], ◌∷◌, ◌++◌, leb, ◌==◌, if◌then◌else◌, length, take, drop,
  Result, ok, err, fault, out_of_fuel, ◌>>=◌,
}
use librtmp_client.Rtmp.Header.{RtmpHeader, encode}

abbrev pub rtmp_default_cache_buffer_size : ℕ
rtmp_default_cache_buffer_size = 32768

abbrev pub rtmp_chunk_fmt0_header_max_size : ℕ
rtmp_chunk_fmt0_header_max_size = 16

-- `memcpy(send_cache_buf+index, bytes, …); index += …`, where the list is the bytes below `index`.
unfoldable pub append_to_cache : List ℕ → List ℕ → Result (List ℕ)
append_to_cache cache bytes =
    if leb (length cache + length bytes) rtmp_default_cache_buffer_size
    then ok (cache ++ bytes)
    else fault

-- A negative `header_length` would be the size of a `memcpy`.
unfoldable pub header_bytes : Result (List ℕ) → Result (List ℕ)
header_bytes (ok bytes) = ok bytes
header_bytes (err n) = fault
header_bytes fault = fault
header_bytes out_of_fuel = out_of_fuel

-- What is sent when little space is left in the cache, and what the cache then holds.
unfoldable pub send_when_full : List ℕ → List (List ℕ) × List ℕ
send_when_full cache =
    if leb (rtmp_default_cache_buffer_size - length cache) rtmp_chunk_fmt0_header_max_size
    then (cache ∷ [], [])
    else ([], cache)

unfoldable pub send_rest : List ℕ → List (List ℕ)
send_rest [] = []
send_rest (b ∷ cache) = (b ∷ cache) ∷ []

-- One round of the loop: the blocks sent in it, and what the cache holds after it.
unfoldable pub send_chunk : ℕ → RtmpHeader → List ℕ → List ℕ → Result (List (List ℕ) × List ℕ)
unfolding append_to_cache header_bytes send_when_full
send_chunk len header start cache = do
  bytes ← header_bytes (encode header 16)
  cache₁ ← append_to_cache cache bytes
  cache₂ ← append_to_cache cache₁ (take len start)
  ok (send_when_full cache₂)

-- Type 0 for the first chunk, type 3 for the others: `start == payload` compares what is left with the
-- whole length.
abbrev pub type_of_chunk : ℕ → ℕ → ℕ
type_of_chunk left size = if left == size then 0 else 3

-- The loop, with `size` bytes in the payload and those from `start` on in the list; the result is the
-- blocks sent. The fuel counts the rounds.
unfoldable pub send_loop : ℕ → ℕ → RtmpHeader → ℕ → List ℕ → List ℕ → Result (List (List ℕ))
unfolding send_chunk send_rest
send_loop zero out_chunk_size header size start cache = out_of_fuel
send_loop (suc fuel) out_chunk_size header size [] cache = ok (send_rest cache)
send_loop (suc fuel) out_chunk_size header size (x ∷ xs) cache = do
  let start = x ∷ xs
  let fmt = type_of_chunk (length start) size
  let len = min out_chunk_size (length start)
  (sent, left) ← send_chunk len (record header { chunk_type = fmt }) start cache
  blocks ← send_loop fuel out_chunk_size header size (drop len start) left
  ok (sent ++ blocks)

unfoldable pub do_send_message : ℕ → RtmpHeader → List ℕ → Result (List (List ℕ))
unfolding send_loop
do_send_message out_chunk_size header payload =
    send_loop (suc (length payload)) out_chunk_size header (length payload) payload []
