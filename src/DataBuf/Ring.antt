-- ===== src/DataBuf/Ring.antt =====
-- class DataRingBuf of net/DataBuf.cc. A method returns the new object and its result. Positions
-- and sizes are ints that the class keeps between 0 and length_; the caller's sizes are taken to be
-- at least 0. Memory is a list of bytes of length length_.
pub mod Contents
pub mod Write
pub mod Read
pub mod Grow
use librtmp_client.Prelude.{
  ℕ, ◌+◌, ◌-◌, Bool, true, false, ◌&&◌, List, [], ◌++◌, ltb, leb, ◌==◌, if◌then◌else◌, length, take,
  drop, replicate, memcpy, Result, ok, err,
}

pub record DataRingBuf : Type 0 where
  pub buf : List ℕ
  pub r_pos : ℕ
  pub w_pos : ℕ
  pub length_ : ℕ

abbrev pub max_data_len : ℕ
max_data_len = 65535

-- enum RingBufErrorCode, as the return values -2 and -1.
abbrev pub error_not_have_space : ℕ
error_not_have_space = 2

abbrev pub error_not_have_data : ℕ
error_not_have_data = 1

-- What `new char[n]` holds is not determined; zeros stand for it.
unfoldable pub fresh : ℕ → DataRingBuf
fresh n = record { buf = replicate n 0; r_pos = n; w_pos = 0; length_ = n }

-- The constructor.
unfoldable pub init : ℕ → DataRingBuf
init size = if size == 0 then fresh max_data_len else fresh size

-- The copy of `writeData` when the writer is behind the end and may wrap.
unfoldable pub write_wrapping : DataRingBuf → List ℕ → DataRingBuf
write_wrapping b data' =
    let len = length data' in
    let l = b.length_ - b.w_pos in
    if leb len l
    then record b { buf = memcpy b.buf b.w_pos data'; w_pos = b.w_pos + len }
    else record b {
      buf = memcpy (memcpy b.buf b.w_pos (take l data')) 0 (drop l data');
      w_pos = len - l;
    }

unfoldable pub write_data : DataRingBuf → List ℕ → DataRingBuf × Result ℕ
unfolding write_wrapping
write_data b data' =
    let len = length data' in
    if ltb b.r_pos b.w_pos
    then if ltb (b.length_ - (b.w_pos - b.r_pos)) len
      then (b, err error_not_have_space)
      else (write_wrapping b data', ok len)
    else if ltb b.w_pos b.r_pos
    then if ltb (b.r_pos - b.w_pos) len
      then (b, err error_not_have_space)
      else (record b { buf = memcpy b.buf b.w_pos data'; w_pos = b.w_pos + len }, ok len)
    else (b, err error_not_have_space)

-- `if (r_Pos_ == w_Pos_)` at the end of `readData`: a drained buffer starts afresh.
unfoldable pub reset_if_drained : DataRingBuf → DataRingBuf
reset_if_drained b = if b.r_pos == b.w_pos then record b { r_pos = b.length_; w_pos = 0 } else b

-- `(used >= size) ? size : used`
abbrev pub at_most : ℕ → ℕ → ℕ
at_most used size = if leb size used then size else used

-- The bytes that are copied out, and the new reading position.
unfoldable pub read_out : DataRingBuf → ℕ → List ℕ × ℕ
read_out b len =
    let t = b.length_ - b.r_pos in
    if leb len t
    then (take len (drop b.r_pos b.buf), b.r_pos + len)
    else (take t (drop b.r_pos b.buf) ++ take (len - t) b.buf, len - t)

unfoldable pub read_data : DataRingBuf → ℕ → DataRingBuf × Result (List ℕ)
unfolding reset_if_drained read_out
read_data b size =
    if ltb b.r_pos b.w_pos
    then (let len = at_most (b.w_pos - b.r_pos) size in
        (reset_if_drained (record b { r_pos = b.r_pos + len }), ok (take len (drop b.r_pos b.buf))))
    else if ltb b.w_pos b.r_pos
    then (let len = at_most (b.length_ - (b.r_pos - b.w_pos)) size in
        let (out, r) = read_out b len in (reset_if_drained (record b { r_pos = r }), ok out))
    else (b, err error_not_have_data)

unfoldable pub get_used : DataRingBuf → ℕ
get_used b =
    if ltb b.r_pos b.w_pos
    then b.w_pos - b.r_pos
    else if ltb b.w_pos b.r_pos
    then b.length_ - (b.r_pos - b.w_pos)
    else 0

-- The write pointer as an offset into the buffer, and the room that `left` is set to.
unfoldable pub get_write_ptr_and_left : DataRingBuf → ℕ × ℕ
unfolding get_used
get_write_ptr_and_left b = (b.w_pos, b.length_ - get_used b)

unfoldable pub is_full : DataRingBuf → Bool
is_full b = b.r_pos == b.w_pos

unfoldable pub is_empty : DataRingBuf → Bool
is_empty b = b.r_pos == b.length_ && b.w_pos == 0

-- The bytes that `addRingBufSpace` takes out into `tmp`.
unfoldable pub drain : DataRingBuf → List ℕ
drain b = elim ((read_data b (get_used b)).1) [ ok out ↦ out | _ ↦ [] ]

unfoldable pub add_ring_buf_space : DataRingBuf → ℕ → DataRingBuf
unfolding drain
add_ring_buf_space b add_size =
    let grown = fresh (b.length_ + add_size) in
    if ltb 0 (get_used b) then (write_data grown (drain b)).0 else grown

unfoldable pub clear : DataRingBuf → DataRingBuf
clear b = record b { r_pos = b.length_; w_pos = 0 }
