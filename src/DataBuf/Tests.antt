-- ===== src/DataBuf/Tests.antt =====
-- Runs of net/DataBuf.cc, and its theorems at concrete buffers.
use librtmp_client.Prelude.{
  ℕ, ◌≡◌, refl, true, false, List, [], ◌∷◌, length, arith, ok, err, fault, pos, memcpy,
}
use librtmp_client.DataBuf.Ring.{
  DataRingBuf, write_data, read_data, get_used, get_write_ptr_and_left, is_full, add_ring_buf_space,
  error_not_have_data, error_not_have_space,
}
use librtmp_client.DataBuf.Ring.Contents
use librtmp_client.DataBuf.Ring.Contents.{view}
use librtmp_client.DataBuf.Ring.Write.{enqueue, write_data-enqueue}
use librtmp_client.DataBuf.Ring.Read.{dequeue, read_data-dequeue}
use librtmp_client.DataBuf.Ring.Grow.{add_ring_buf_space_lem, full_is_stuck}
use librtmp_client.DataBuf.Cache
use librtmp_client.DataBuf.Cache.{DataCacheBuf, push_data, pop_data, require}
use librtmp_client.DataBuf.Cache.Laws.{push_data_lem, require-pop_data, pop_data-push_data}
use librtmp_client.DataBuf.Cache.Laws

-- Four bytes of memory with two unread bytes, 7 and 8, at positions 2 and 3.
abbrev wrapping : DataRingBuf
wrapping = record { buf = 5 ∷ 6 ∷ 7 ∷ 8 ∷ []; r_pos = 2; w_pos = 4; length_ = 4 }

abbrev wrapping-IsValid : Contents.IsValid wrapping
wrapping-IsValid = record {
  sized = refl;
  reader_pos = omega arith;
  reader = omega arith;
  writer = omega arith;
}

-- The same memory, full: 7, 8, 1, 2.
abbrev full : DataRingBuf
full = record { buf = 1 ∷ 2 ∷ 7 ∷ 8 ∷ []; r_pos = 2; w_pos = 2; length_ = 4 }

abbrev full-IsValid : Contents.IsValid full
full-IsValid = record {
  sized = refl;
  reader_pos = omega arith;
  reader = omega arith;
  writer = omega arith;
}

write_wraps :
    (write_data wrapping (1 ∷ [])).0
    ≡ record { buf = 1 ∷ 6 ∷ 7 ∷ 8 ∷ []; r_pos = 2; w_pos = 1; length_ = 4 }
unfolding write_data memcpy
write_wraps = refl

write_data-enqueue_example :
    (view (write_data wrapping (1 ∷ 2 ∷ [])) ≡ enqueue 4 (7 ∷ 8 ∷ []) (1 ∷ 2 ∷ []))
    × Contents.IsValid (write_data wrapping (1 ∷ 2 ∷ [])).0
write_data-enqueue_example = write_data-enqueue wrapping (1 ∷ 2 ∷ []) wrapping-IsValid

read_data-dequeue_example :
    (view (read_data wrapping 1) ≡ dequeue 4 (7 ∷ 8 ∷ []) 1)
    × Contents.IsValid (read_data wrapping 1).0
read_data-dequeue_example = read_data-dequeue wrapping wrapping-IsValid 1

add_ring_buf_space_lem_example :
    (Contents.contents (add_ring_buf_space wrapping 3) ≡ 7 ∷ 8 ∷ [])
    × ((add_ring_buf_space wrapping 3).length_ ≡ 7)
    × Contents.IsValid (add_ring_buf_space wrapping 3)
add_ring_buf_space_lem_example =
    add_ring_buf_space_lem wrapping wrapping-IsValid 3 (unfold is_full in refl)

full_is_stuck_example :
    (length (Contents.contents full) ≡ 4)
    × ((size : ℕ) → read_data full size ≡ (full, err error_not_have_data))
    × ((d : List ℕ) → write_data full d ≡ (full, err error_not_have_space))
    × (get_used full ≡ 0)
    × (get_write_ptr_and_left full ≡ (2, 4))
    × ((add_size : ℕ) → Contents.contents (add_ring_buf_space full add_size) ≡ [])
full_is_stuck_example = full_is_stuck full full-IsValid (unfold is_full in refl)

-- Three bytes held in four.
abbrev cache : DataCacheBuf
cache = record { bytes = 1 ∷ 2 ∷ 3 ∷ 0 ∷ []; nbytes = 4; length_ = 3 }

abbrev cache-IsValid : Laws.IsValid cache
cache-IsValid = record { allocated = refl; within = omega arith }

require-pop_data_example :
    (require cache (pos 2) ≡ true
      → (b' : DataCacheBuf) × (pop_data cache 2 ≡ ok b')
        × (Cache.contents b' ≡ 3 ∷ [])
        × Laws.IsValid b')
    × (require cache (pos 2) ≡ false → pop_data cache 2 ≡ fault)
require-pop_data_example = require-pop_data cache cache-IsValid 2
