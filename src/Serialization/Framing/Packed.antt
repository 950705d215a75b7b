-- ===== src/Serialization/Framing/Packed.antt =====
-- Packed messages (`toPackedArrayBuffer` of src/serialization/message.ts).
use capnp_es.Prelude.{
  ℕ, ◌%◌, ◌≡◌, refl, ==_iff, List, [], ◌∷◌, map, length, Option, some, none, arith,
}
use capnp_es.Prelude.Slices.{All, flatten}
use capnp_es.Errors.{ok}
use capnp_es.Packing.{pack, pack_view, uint8_view, unpack}
use capnp_es.Packing.RoundTrip.{unpack-flatten}
use capnp_es.Serialization.Arena.{Heap, buffer_at}
use capnp_es.Serialization.Message.{Segment, Message, capacity}
use capnp_es.Serialization.Framing.{
  get_stream_frame, pack_of, packed_segments, to_array_buffer, to_packed_array_buffer, read_message,
  read_packed_message,
}
use capnp_es.Serialization.Framing.Frame.{get_stream_frame_of_pos}
use capnp_es.Serialization.Framing.RoundTrip.{
  Fits, pad_to_word_int32_self, content, contents, length-content, uint8_view-content, IsFramable,
  framed, with_first_segment_self, to_array_buffer-framed,
}

-- The buffer of a segment is of whole words.
abbrev pub IsAligned : Heap → Segment → Type 0
IsAligned h s = capacity h s % 8 ≡ 0

pack-view :
    (buffer view : List ℕ) (o : ℕ) (l : Option ℕ)
    → length buffer % 8 ≡ 0
    → uint8_view buffer o l ≡ ok view
    → pack buffer o l ≡ ok (pack_view view)
unfolding pack
pack-view buffer view o l h e = rw ((==_iff _ _).1 h, e)

packed_segments-contents :
    (h : Heap) (segments : List Segment)
    → All (Fits h) segments
    → All (IsAligned h) segments
    → packed_segments h segments ≡ ok (map pack_view (contents h segments))
unfolding packed_segments pack_of
packed_segments-contents h [] f a = refl
packed_segments-contents h (s ∷ segments) f a = rw (
  pad_to_word_int32_self s.byte_length f.0.whole f.0.small,
  pack-view (buffer_at h s.buffer) (content h s) 0 _ a.0 (uint8_view-content h s f.0),
  packed_segments-contents h segments f.1 a.1,
)

contents-whole :
    (h : Heap) (segments : List Segment)
    → All (Fits h) segments
    → All (λ v. length v % 8 ≡ 0) (contents h segments)
contents-whole h [] f = tt
contents-whole h (s ∷ segments) f =
    (omega (arith, length-content h s f.0, f.0.whole), contents-whole h segments f.1)

whole_view : (frame : List ℕ) → uint8_view frame 0 none ≡ ok frame
unfolding uint8_view
whole_view frame = ground arith

-- `toPackedArrayBuffer` of a message that can be framed, with buffers of whole words, succeeds, and
-- unpacking its result gives the bytes of `toArrayBuffer`; so the message that is read from the
-- packed bytes is the one that is read from the plain bytes.
pub unpack-to_packed_array_buffer :
    (m : Message)
    → IsFramable m
    → All (IsAligned m.heap) m.segments
    → (packed bytes : List ℕ) × (to_packed_array_buffer m ≡ ok (packed, m))
      × (to_array_buffer m ≡ ok (bytes, m))
      × (unpack packed ≡ some (ok bytes))
      × (read_packed_message packed ≡ some (read_message bytes))
unfolding to_packed_array_buffer read_packed_message
unpack-to_packed_array_buffer m f a = (
  flatten (map pack_view (frame ∷ views)),
  framed m,
  rw (
    pack-view frame frame 0 none whole (whole_view frame),
    with_first_segment_self m f.some_segment,
    packed_segments-contents m.heap m.segments f.fits a,
  ),
  to_array_buffer-framed m f,
  back,
  rw (back, read_packed_message),
)
  where
    frame : List ℕ
    frame = get_stream_frame m.segments

    views : List (List ℕ)
    views = contents m.heap m.segments

    whole : length frame % 8 ≡ 0
    whole = (get_stream_frame_of_pos m.segments f.some_segment).2

    back : unpack (flatten (map pack_view (frame ∷ views))) ≡ some (ok (framed m))
    back = unpack-flatten (frame ∷ views) (whole, contents-whole m.heap m.segments f.fits)
