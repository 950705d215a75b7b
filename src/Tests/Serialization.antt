-- ===== src/Tests/Serialization.antt =====
-- Arenas, segments and the stream framing of src/serialization on small inputs.
use capnp_es.Serialization.Arena
use capnp_es.Errors.{ok, err, msg_segment_too_small, seg_not_word_aligned}
use capnp_es.Packing.{unpack}
use capnp_es.Prelude.{
  take, drop, ℕ, ◌+◌, ◌-◌, ◌^◌, ◌%◌, ◌≤◌, ◌<◌, ◌≡◌, refl, false, List, [], ◌∷◌, ◌++◌, length, some,
  arith,
}
use capnp_es.Prelude.Int.{pos, negsuc}
use capnp_es.Serialization.Access.{set_uint16, get_uint16}
use capnp_es.Serialization.Access.Store.{get_uint-set_uint}
use capnp_es.Serialization.Arena.{
  buffer_at, Buffer, Heap, zeros, AnyArena, multi_segment, single_segment, Allocation, allocate,
  allocate_multi, allocate_single, copy_buffers, new_multi_segment_arena, new_single_segment_arena,
  all_aligned,
}
use capnp_es.Serialization.Framing.{
  get_framed_segments, to_array_buffer, to_packed_array_buffer, read_message, read_packed_message,
}
use capnp_es.Serialization.Framing.Empty.{read_message-fresh}
use capnp_es.Serialization.Framing.Packed.{unpack-to_packed_array_buffer}
use capnp_es.Serialization.Framing.RoundTrip.{IsFramable, get_framed_segments-to_array_buffer}
use capnp_es.Serialization.Message.{
  capacity, Segment, Message, replace_buffer, place_segment, allocate_segment, allocate_in,
}
use capnp_es.Serialization.Message.Allocate.{Allocated, allocate_in-Allocated}
use capnp_es.Serialization.Message.Fresh.{fresh, with_root}
use capnp_es.Serialization.Message.Valid.{IsValid}
use capnp_es.Serialization.Word.Int32.{pad_to_word_int32, pad_to_word_int32_lem}

abbrev buffer_a : Buffer
buffer_a = 1 ∷ 2 ∷ 3 ∷ 4 ∷ 5 ∷ 6 ∷ 7 ∷ 8 ∷ zeros 8

abbrev buffer_b : Buffer
buffer_b = 9 ∷ zeros 7

abbrev two_buffers : Heap
two_buffers = buffer_a ∷ buffer_b ∷ []

-- An arena with two buffers grows by a third one of the default size.
allocate_example :
    allocate 16 two_buffers [] (multi_segment (0 ∷ 1 ∷ []))
    ≡ ok (record {
      id = 2;
      buffer = 2;
      arena = multi_segment (0 ∷ 1 ∷ 2 ∷ []);
      heap = two_buffers ++ (zeros 256 ∷ []);
    })
unfolding allocate allocate_multi
allocate_example = refl

-- A single segment is replaced by a longer one with the same bytes in front.
allocate_single_example :
    allocate 16 two_buffers (1 ∷ []) (single_segment 0)
    ≡ ok (record {
      id = 0;
      buffer = 2;
      arena = single_segment 2;
      heap = two_buffers ++ ((buffer_b ++ zeros 1024) ∷ []);
    })
unfolding allocate allocate_single
allocate_single_example = refl

copy_example :
    Arena.copy two_buffers (multi_segment (1 ∷ 0 ∷ []))
    ≡ (multi_segment (2 ∷ 3 ∷ []), two_buffers ++ (buffer_b ∷ buffer_a ∷ []))
unfolding Arena.copy copy_buffers
copy_example = refl

new_multi_segment_arena_odd :
    new_multi_segment_arena ((1 ∷ []) ∷ []) (0 ∷ []) ≡ err seg_not_word_aligned
unfolding new_multi_segment_arena all_aligned
new_multi_segment_arena_odd = refl

new_single_segment_arena_odd : new_single_segment_arena ((1 ∷ []) ∷ []) 0 ≡ err seg_not_word_aligned
unfolding new_single_segment_arena
new_single_segment_arena_odd = refl

-- A message of two segments, the first with 8 of its 16 bytes in use.
abbrev two_segments : Message
two_segments = record {
  heap = two_buffers;
  arena = multi_segment (0 ∷ 1 ∷ []);
  segments = record { buffer = 0; byte_length = 8 } ∷ record { buffer = 1; byte_length = 8 } ∷ [];
  readonly = false;
}

allocate_segment_example :
    allocate_segment 8 two_segments
    ≡ ok (
      2,
      record {
        heap = two_buffers ++ (zeros 256 ∷ []);
        arena = multi_segment (0 ∷ 1 ∷ 2 ∷ []);
        segments = two_segments.segments ++ (record { buffer = 2; byte_length = 0 } ∷ []);
        readonly = false;
      },
    )
unfolding allocate_segment place_segment allocate allocate_multi
allocate_segment_example = refl

replace_buffer_example :
    replace_buffer 1 (record { buffer = 0; byte_length = 8 }) two_segments
    ≡ ok (record { buffer = 1; byte_length = 8 })
unfolding replace_buffer
replace_buffer_example = refl

two_segments-IsFramable : IsFramable two_segments
two_segments-IsFramable = record {
  some_segment = omega arith;
  few = omega arith;
  fits = (
    record { whole = refl; inside = omega arith; small = omega arith },
    (record { whole = refl; inside = omega arith; small = omega arith }, tt),
  );
}

get_framed_segments-to_array_buffer_example :
    (bytes : List ℕ) × (to_array_buffer two_segments ≡ ok (bytes, two_segments))
    × (get_framed_segments bytes ≡ ok ((1 ∷ 2 ∷ 3 ∷ 4 ∷ 5 ∷ 6 ∷ 7 ∷ 8 ∷ []) ∷ buffer_b ∷ []))
get_framed_segments-to_array_buffer_example =
    get_framed_segments-to_array_buffer two_segments two_segments-IsFramable

unpack-to_packed_array_buffer_example :
    (packed bytes : List ℕ) × (to_packed_array_buffer two_segments ≡ ok (packed, two_segments))
    × (to_array_buffer two_segments ≡ ok (bytes, two_segments))
    × (unpack packed ≡ some (ok bytes))
    × (read_packed_message packed ≡ some (read_message bytes))
unpack-to_packed_array_buffer_example =
    unpack-to_packed_array_buffer two_segments two_segments-IsFramable (refl, (refl, tt))

read_message-fresh_example :
    (bytes : List ℕ) × (to_array_buffer (fresh (zeros 16 ∷ []) 0)
      ≡ ok (bytes, with_root (zeros 16 ∷ []) 0))
    × (length bytes ≡ 16)
    × (read_message bytes ≡ err msg_segment_too_small)
read_message-fresh_example = read_message-fresh (zeros 16 ∷ []) 0 (omega arith)

pad_to_word_int32_lem_example :
    (12 < 2 ^ 31 - 7 → (pad_to_word_int32 12 ≡ pos 16) × (12 ≤ 16) × (16 < 12 + 8) × (16 % 8 ≡ 0))
    × (2 ^ 31 - 7 ≤ 12 → 12 < 2 ^ 32 - 7 → (k : ℕ) × (pad_to_word_int32 12 ≡ negsuc k))
    × (2 ^ 32 - 7 ≤ 12 → 12 < 2 ^ 32 → pad_to_word_int32 12 ≡ pos 0)
pad_to_word_int32_lem_example = pad_to_word_int32_lem 12

two_segments-IsValid : IsValid two_segments
two_segments-IsValid = record {
  linked = refl;
  in_heaps = (
    record { in_heap = omega arith; aligned = refl; whole = refl; inside = omega arith },
    (record { in_heap = omega arith; aligned = refl; whole = refl; inside = omega arith }, tt),
  );
}

-- Segment 1 is full, so that the arena grows.
allocate_in-Allocated_example : Allocated two_segments 12 (allocate_in 1 12 two_segments)
allocate_in-Allocated_example =
    allocate_in-Allocated 1 12 two_segments two_segments-IsValid refl refl (omega arith)

abbrev first_of_two : Segment
first_of_two = record { buffer = 0; byte_length = 8 }

get_uint-set_uint_example :
    (m' : Message) × (set_uint16 6 513 first_of_two two_segments ≡ ok m')
    × (get_uint16 6 first_of_two m' ≡ ok 513)
    × (capacity m'.heap first_of_two ≡ 16)
    × (take 6 (buffer_at m'.heap 0) ≡ 1 ∷ 2 ∷ 3 ∷ 4 ∷ 5 ∷ 6 ∷ [])
    × (drop 8 (buffer_at m'.heap 0) ≡ zeros 8)
    × (buffer_at m'.heap 1 ≡ buffer_b)
get_uint-set_uint_example =
    get_uint-set_uint 2 6 513 first_of_two two_segments 1 refl (omega arith) (omega arith)
      (omega arith) (omega arith)
