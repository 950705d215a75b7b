-- ===== src/Serialization/Framing.antt =====
-- The stream framing of src/serialization/message.ts: messages to bytes, packed or not, and back.
pub mod Frame
pub mod RoundTrip
pub mod Packed
pub mod Empty
use capnp_es.Prelude.{
  ℕ, zero, suc, ◌+◌, ◌-◌, ◌*◌, ◌/◌, ◌%◌, ◌^◌, ◌==◌, ltb, leb, if◌then◌else◌, Bool, true, false,
  List, [], ◌∷◌, ◌++◌, length, get_elem?, get_or, set, take, drop, replicate, map, Option, none,
  some,
}
use capnp_es.Errors.{
  Error, msg_invalid_frame_header, msg_segment_too_small, msg_pack_not_word_aligned,
  msg_too_many_segments, range_error, Result, ok, err, guard, ◌>>=◌, ◌>>◌,
}
use capnp_es.Prelude.Slices.{flatten}
use capnp_es.Packing.{pack, unpack, uint8_view}
use capnp_es.Prelude.Int.{ℤ, pos, negsuc}
use capnp_es.Serialization.Word.Int32.{pad_to_word_int32}
use capnp_es.Serialization.Arena.{
  Heap, buffer_at, zeros, AnyArena, multi_segment, get_buffer, get_num_segments,
  new_multi_segment_arena,
}
use capnp_es.Serialization.Message.{Segment, Message, get_segment}

abbrev pub max_stream_segments : ℕ
max_stream_segments = 512

-- `setUint32(offset, value, true)`, of a view that holds the four bytes.
abbrev pub set_uint32 : List ℕ → ℕ → ℕ → List ℕ
set_uint32 out offset value =
    set
      (set (set (set out offset (value % 256)) (offset + 1) (value / 256 % 256)) (offset + 2)
        (value / 65536 % 256))
      (offset + 3) (value / 16777216 % 256)

-- `getUint32(offset, true)`
abbrev pub uint32_at : List ℕ → ℕ
uint32_at (a ∷ b ∷ c ∷ d ∷ rest) = a + b * 256 + c * 65536 + d * 16777216
uint32_at bytes = 0

pub get_uint32 : List ℕ → ℕ → Result ℕ
get_uint32 view offset =
    if leb (offset + 4) (length view) then ok (uint32_at (drop offset view)) else err range_error

-- The loop of `getStreamFrame` over the segments from index `i` on.
pub write_lengths : ℕ → List Segment → List ℕ → List ℕ
write_lengths i [] out = out
write_lengths i (s ∷ segments) out =
    write_lengths (i + 1) segments (set_uint32 out (i * 4 + 4) (s.byte_length / 8))

-- `frameLength` for a number of segments.
abbrev pub frame_length : ℕ → ℕ
frame_length n = 4 + n * 4 + (1 - n % 2) * 4

pub get_stream_frame : List Segment → List ℕ
get_stream_frame [] = zeros 8
get_stream_frame (s ∷ segments) =
    let n = length (s ∷ segments) in
    write_lengths 0 (s ∷ segments) (set_uint32 (zeros (frame_length n)) 0 (n - 1))

-- "Make sure the first segment is allocated."
pub with_first_segment : Message → Result Message
with_first_segment m =
    if length m.segments == 0 then (do (id, m') ← get_segment 0 m; ok m') else ok m

-- `new Uint8Array(buffer, 0, segmentLength)`; a negative length throws.
unfoldable pub view_of : List ℕ → ℤ → Result (List ℕ)
view_of buffer (pos byte_length) = uint8_view buffer 0 (some byte_length)
view_of buffer (negsuc k) = err range_error

-- `pack(buffer, 0, byteLength)`, which asks for whole words before it makes that view.
unfoldable pub pack_of : List ℕ → ℤ → Result (List ℕ)
pack_of buffer (pos byte_length) = pack buffer 0 (some byte_length)
pack_of buffer (negsuc k) = do
  guard (length buffer % 8 == 0) msg_pack_not_word_aligned
  err range_error

-- `new Uint8Array(s.buffer, 0, segmentLength)` of each segment, in their order.
pub segment_views : Heap → List Segment → Result (List (List ℕ))
segment_views h [] = ok []
segment_views h (s ∷ segments) = do
  view ← view_of (buffer_at h s.buffer) (pad_to_word_int32 s.byte_length)
  views ← segment_views h segments
  ok (view ∷ views)

-- Each `out.set` starts where the one before it ended, and the length of `out` is the sum. Where a
-- length is negative, a RangeError is thrown in any case, by the views or by the sum.
pub to_array_buffer : Message → Result (List ℕ × Message)
to_array_buffer m = do
  let stream_frame = get_stream_frame m.segments
  m' ← with_first_segment m
  views ← segment_views m'.heap m'.segments
  ok (stream_frame ++ flatten views, m')

-- `pack(s.buffer, 0, padToWord(s.byteLength))` of each segment.
pub packed_segments : Heap → List Segment → Result (List (List ℕ))
packed_segments h [] = ok []
packed_segments h (s ∷ segments) = do
  p ← pack_of (buffer_at h s.buffer) (pad_to_word_int32 s.byte_length)
  ps ← packed_segments h segments
  ok (p ∷ ps)

pub to_packed_array_buffer : Message → Result (List ℕ × Message)
to_packed_array_buffer m = do
  stream_frame ← pack (get_stream_frame m.segments) 0 none
  m' ← with_first_segment m
  ps ← packed_segments m'.heap m'.segments
  ok (stream_frame ++ flatten ps, m')

-- The loop of `getFramedSegments`, with `rounds` segments to go from `i` on.
pub framed_loop : ℕ → ℕ → ℕ → List ℕ → Result (List (List ℕ))
framed_loop zero i byte_offset message = ok []
framed_loop (suc rounds) i byte_offset message = do
  words ← get_uint32 message (4 + i * 4)
  let byte_length = words * 8
  guard (leb (byte_offset + byte_length) (length message)) msg_invalid_frame_header
  segments ← framed_loop rounds (i + 1) (byte_offset + byte_length) message
  ok (take byte_length (drop byte_offset message) ∷ segments)

abbrev pub first_offset : ℕ → ℕ
first_offset segment_count = let o = 4 + segment_count * 4 in o + o % 8

pub get_framed_segments : List ℕ → Result (List (List ℕ))
get_framed_segments message = do
  guard (leb 4 (length message)) msg_invalid_frame_header
  n ← get_uint32 message 0
  let segment_count = n + 1
  guard (leb segment_count max_stream_segments) msg_too_many_segments
  guard (leb (first_offset segment_count) (length message)) msg_invalid_frame_header
  framed_loop segment_count 0 (first_offset segment_count) message

-- The references 0, 1, … to the buffers of a new heap.
abbrev pub refs_from : ℕ → ℕ → List ℕ
refs_from i zero = []
refs_from i (suc n) = i ∷ refs_from (i + 1) n

-- `preallocateSegments`: each segment is as long as its buffer.
pub preallocate : Heap → List ℕ → List Segment
preallocate h [] = []
preallocate h (r ∷ buffers) =
    record { buffer = r; byte_length = length (buffer_at h r) } ∷ preallocate h buffers

pub preallocate_segments : Heap → List ℕ → Result (List Segment)
preallocate_segments h [] = ok []
preallocate_segments h (r ∷ buffers) = do
  guard (leb 8 (length (buffer_at h r))) msg_segment_too_small
  ok (preallocate h (r ∷ buffers))

-- `new Message(src, false)` for bytes with a frame: `initMessage` and `preallocateSegments`.
pub read_message : List ℕ → Result Message
read_message src = do
  buffers ← get_framed_segments src
  let refs = refs_from 0 (length buffers)
  arena ← new_multi_segment_arena buffers refs
  segments ← preallocate_segments buffers refs
  ok (record { heap = buffers; arena = arena; segments = segments; readonly = true })

-- `new Message(src)`, which unpacks first; `none` means that `unpack` ran out of fuel.
pub read_packed_message : List ℕ → Option (Result Message)
read_packed_message src = elim (unpack src) [
  | none ↦ none
  | some (err e) ↦ some (err e)
  | some (ok bytes) ↦ some (read_message bytes)
]
