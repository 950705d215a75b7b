-- ===== src/Serialization/Framing/Empty.antt =====
-- A message that has no segment yet (`toArrayBuffer` of src/serialization/message.ts).
use capnp_es.Prelude.{
  ℕ, ◌≤◌, ◌≡◌, leb, true, List, [], ◌∷◌, ◌++◌, length, length-append, length-take, take, arith,
}
use capnp_es.Errors.{ok, err, msg_segment_too_small}
use capnp_es.Packing.{uint8_view}
use capnp_es.Serialization.Arena.{Heap, buffer_at, zeros, new_multi_segment_arena, all_aligned}
use capnp_es.Serialization.Message.{}
use capnp_es.Serialization.Message.Fresh.{fresh, with_root, get_segment-fresh}
use capnp_es.Serialization.Framing.{
  get_stream_frame, get_framed_segments, framed_loop, get_uint32, with_first_segment, view_of,
  segment_views, to_array_buffer, read_message, preallocate_segments,
}

-- A frame of eight zeros announces one segment of no bytes, whatever stands behind it.
get_framed_segments-zeros : (rest : List ℕ) → get_framed_segments (zeros 8 ++ rest) ≡ ok ([] ∷ [])
unfolding get_framed_segments framed_loop get_uint32
get_framed_segments-zeros rest = ground arith

read_message-zeros : (rest : List ℕ) → read_message (zeros 8 ++ rest) ≡ err msg_segment_too_small
unfolding read_message new_multi_segment_arena all_aligned preallocate_segments
read_message-zeros rest = rw (get_framed_segments-zeros rest)

-- `toArrayBuffer` of a message with no segment yet succeeds, but the frame is made before the first
-- segment is: reading the bytes back throws, since the frame announces an empty segment.
pub read_message-fresh :
    (h : Heap) (r : ℕ)
    → 8 ≤ length (buffer_at h r)
    → (bytes : List ℕ) × (to_array_buffer (fresh h r) ≡ ok (bytes, with_root h r))
      × (length bytes ≡ 16)
      × (read_message bytes ≡ err msg_segment_too_small)
unfolding to_array_buffer with_first_segment get_stream_frame segment_views uint8_view view_of
    capnp_es.Serialization.Word.Int32.pad_to_word_int32
read_message-fresh h r k = (
  zeros 8 ++ (take 8 (buffer_at h r) ++ []),
  let room : leb 8 (length (buffer_at h r)) ≡ true = ground arith in
      rw (get_segment-fresh h r k, room),
  omega (arith, length-append (take 8 (buffer_at h r)) [], length-take 8 (buffer_at h r)),
  read_message-zeros (take 8 (buffer_at h r) ++ []),
)
