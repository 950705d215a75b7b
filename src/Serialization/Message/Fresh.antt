-- ===== src/Serialization/Message/Fresh.antt =====
-- The first segment of a message (`getSegment` of src/serialization/message.ts).
use capnp_es.Prelude.{ℕ, ◌%◌, ◌≤◌, ◌<◌, ◌≡◌, refl, length, [], ◌∷◌, false, arith}
use capnp_es.Errors.{ok}
use capnp_es.Serialization.Arena.{Heap, buffer_at, single_segment, get_buffer, get_num_segments}
use capnp_es.Serialization.Message.{
  Message, get_segment, first_segment, first_capacity, allocate_in, take_bytes,
}
use capnp_es.Serialization.Message.Valid.{IsValid}

-- A message as `new Message()` makes it: writable, with one buffer and no segment yet. And what it
-- becomes when its first segment is made, with room for the root pointer.
abbrev pub fresh : Heap → ℕ → Message
fresh h r = record { heap = h; arena = single_segment r; segments = []; readonly = false }

abbrev pub with_root : Heap → ℕ → Message
with_root h r = record (fresh h r) { segments = record { buffer = r; byte_length = 8 } ∷ [] }

pub get_segment-fresh :
    (h : Heap) (r : ℕ)
    → 8 ≤ length (buffer_at h r)
    → get_segment 0 (fresh h r) ≡ ok (0, with_root h r)
unfolding get_segment first_segment first_capacity allocate_in take_bytes get_buffer
    get_num_segments
get_segment-fresh h r k = ground arith

-- The segment 0 of a message with no segment yet, over a buffer of whole words and of one word at
-- least, is made with room for the root pointer, and the message is valid then.
pub get_segment-IsValid :
    (h : Heap) (r : ℕ)
    → r < length h
    → length (buffer_at h r) % 8 ≡ 0
    → 8 ≤ length (buffer_at h r)
    → (get_segment 0 (fresh h r) ≡ ok (0, with_root h r)) × IsValid (with_root h r)
get_segment-IsValid h r p whole k = (
  get_segment-fresh h r k,
  record {
    linked = refl;
    in_heaps = (record { in_heap = p; aligned = whole; whole = refl; inside = k }, tt);
  },
)
