-- ===== src/Serialization/Framing/RoundTrip.antt =====
-- Reading a framed message back (`toArrayBuffer` and `getFramedSegments` of
-- src/serialization/message.ts).
use capnp_es.Prelude.{
  ℕ, suc, ◌+◌, ◌-◌, ◌*◌, ◌/◌, ◌%◌, ◌^◌, ◌≤◌, ◌<◌, ◌≡◌, refl, sym, ap, ◌∙◌, leb, ne→==_false, true,
  List, [], ◌∷◌, ◌++◌, append-nil, append_assoc, length, length-append, length-take, take, drop,
  some, arith,
}
use capnp_es.Prelude.Slices.{All, flatten, take-append_at, drop-append_at}
use capnp_es.Errors.{ok}
use capnp_es.Packing.{uint8_view}
use capnp_es.Prelude.Int.{pos}
use capnp_es.Serialization.Word.{pad_to_word}
use capnp_es.Serialization.Word.Int32.{pad_to_word_int32, pad_to_word_int32_lem}
use capnp_es.Serialization.Arena.{Heap, buffer_at}
use capnp_es.Serialization.Message.{Segment, Message, capacity}
use capnp_es.Serialization.Framing.{
  get_stream_frame, frame_length, view_of, segment_views, to_array_buffer, with_first_segment,
  framed_loop, first_offset, get_uint32, get_framed_segments, max_stream_segments,
}
use capnp_es.Serialization.Framing.Frame.{
  u32, get_stream_frame_of_pos, lengths, padding, get_uint32-append,
}

-- A segment of whole words, inside its buffer, and short enough that `padToWord` leaves its length
-- as it is.
pub record Fits (h : Heap) (s : Segment) : Type 0 where
  pub whole : s.byte_length % 8 ≡ 0
  pub inside : s.byte_length ≤ capacity h s
  pub small : s.byte_length < 2 ^ 31 - 7

-- The bytes of a segment, and of all segments.
abbrev pub content : Heap → Segment → List ℕ
content h s = take s.byte_length (buffer_at h s.buffer)

abbrev pub contents : Heap → List Segment → List (List ℕ)
contents h [] = []
contents h (s ∷ segments) = content h s ∷ contents h segments

pub length-content : (h : Heap) (s : Segment) → Fits h s → length (content h s) ≡ s.byte_length
length-content h s f = omega (arith, f.inside, length-take s.byte_length (buffer_at h s.buffer))

pub pad_to_word_int32_self : (n : ℕ) → n % 8 ≡ 0 → n < 2 ^ 31 - 7 → pad_to_word_int32 n ≡ pos n
pad_to_word_int32_self n h small =
    let padded : pad_to_word n ≡ n = omega arith in
    ((pad_to_word_int32_lem n).0 small).0 ∙ ap pos padded

-- The view that is taken of a segment is its content.
pub uint8_view-content :
    (h : Heap) (s : Segment)
    → Fits h s
    → uint8_view (buffer_at h s.buffer) 0 (some s.byte_length) ≡ ok (content h s)
unfolding uint8_view
uint8_view-content h s f = ground (arith, f.inside)

view_of-content :
    (h : Heap) (s : Segment)
    → Fits h s
    → view_of (buffer_at h s.buffer) (pad_to_word_int32 s.byte_length) ≡ ok (content h s)
unfolding view_of
view_of-content h s f =
    rw (pad_to_word_int32_self s.byte_length f.whole f.small) (uint8_view-content h s f)

pub segment_views-contents :
    (h : Heap) (segments : List Segment)
    → All (Fits h) segments
    → segment_views h segments ≡ ok (contents h segments)
unfolding segment_views
segment_views-contents h [] f = refl
segment_views-contents h (s ∷ segments) f =
    rw (view_of-content h s f.0, segment_views-contents h segments f.1)

framed_step :
    (rounds i byte_offset w : ℕ) (message : List ℕ) {rest : List (List ℕ)}
    → get_uint32 message (4 + i * 4) ≡ ok w
    → leb (byte_offset + w * 8) (length message) ≡ true
    → framed_loop rounds (i + 1) (byte_offset + w * 8) message ≡ ok rest
    → framed_loop (suc rounds) i byte_offset message
      ≡ ok (take (w * 8) (drop byte_offset message) ∷ rest)
unfolding framed_loop
framed_step rounds i byte_offset w message e g k = rw (e, g, k)

framed_loop-contents :
    (h : Heap) (segments : List Segment) (message pre post head tail : List ℕ) (i byte_offset : ℕ)
    → All (Fits h) segments
    → message ≡ pre ++ (lengths segments ++ post)
    → length pre ≡ 4 + i * 4
    → message ≡ head ++ (flatten (contents h segments) ++ tail)
    → length head ≡ byte_offset
    → framed_loop (length segments) i byte_offset message ≡ ok (contents h segments)
framed_loop-contents h [] message pre post head tail i byte_offset f e le d ld =
    unfold framed_loop in refl
framed_loop-contents h (s ∷ segments) message pre post head tail i byte_offset f e le d ld =
    framed_step (length segments) i byte_offset w message number room (
      framed_loop-contents h segments message (pre ++ u32 w) post (head ++ here) tail (i + 1)
        (byte_offset + w * 8) f.1 (e ∙ sym (append_assoc pre (u32 w) (lengths segments ++ post)))
        (omega (arith, length-append pre (u32 w))) (split ∙ sym (append_assoc head here rest))
        (omega (arith, length-append head here, size)))
    ∙ ap (λ c. ok (c ∷ contents h segments)) cut
  where
    w : ℕ
    w = s.byte_length / 8

    here : List ℕ
    here = content h s

    rest : List ℕ
    rest = flatten (contents h segments) ++ tail

    size : length here ≡ w * 8
    size = omega (arith, length-content h s f.0, f.0.whole)

    split : message ≡ head ++ (here ++ rest)
    split = d ∙ ap (λ l. head ++ l) (append_assoc here (flatten (contents h segments)) tail)

    number : get_uint32 message (4 + i * 4) ≡ ok w
    number =
        get_uint32-append message pre (lengths segments ++ post) (4 + i * 4) w
          (omega (arith, f.0.small)) e le

    room : leb (byte_offset + w * 8) (length message) ≡ true
    room =
        ground
          (arith, ap length split, length-append head (here ++ rest), length-append here rest, size)

    cut : take (w * 8) (drop byte_offset message) ≡ here
    cut =
        rw (split, drop-append_at byte_offset head (here ++ rest) ld)
          (take-append_at (w * 8) here rest size)

-- A message that can be framed: it has 1 to 512 segments, and each fits.
pub record IsFramable (m : Message) : Type 0 where
  pub some_segment : 0 < length m.segments
  pub few : length m.segments ≤ max_stream_segments
  pub fits : All (Fits m.heap) m.segments

-- The frame of a message and its segments' contents, one behind the other.
abbrev pub framed : Message → List ℕ
framed m = get_stream_frame m.segments ++ flatten (contents m.heap m.segments)

pub with_first_segment_self : (m : Message) → 0 < length m.segments → with_first_segment m ≡ ok m
unfolding with_first_segment
with_first_segment_self m h = rw (ne→==_false (length m.segments) 0 (omega arith))

-- `toArrayBuffer` leaves such a message as it is, and writes the frame and the contents.
pub to_array_buffer-framed : (m : Message) → IsFramable m → to_array_buffer m ≡ ok (framed m, m)
unfolding to_array_buffer
to_array_buffer-framed m f =
    rw (with_first_segment_self m f.some_segment, segment_views-contents m.heap m.segments f.fits)

get_framed_segments-checks :
    (message : List ℕ) (v n : ℕ)
    → v + 1 ≡ n
    → get_uint32 message 0 ≡ ok v
    → leb 4 (length message) ≡ true
    → leb n max_stream_segments ≡ true
    → leb (first_offset n) (length message) ≡ true
    → get_framed_segments message ≡ framed_loop n 0 (first_offset n) message
unfolding get_framed_segments
get_framed_segments-checks message v n e g a b c = rw (a, g, e, b, c)

-- `getFramedSegments` reads the contents of the segments from what `toArrayBuffer` writes for a
-- message of 1 to 512 segments, each of whole words within its buffer and of fewer than 2 ^ 31 - 7
-- bytes.
pub get_framed_segments-to_array_buffer :
    (m : Message)
    → IsFramable m
    → (bytes : List ℕ) × (to_array_buffer m ≡ ok (bytes, m))
      × (get_framed_segments bytes ≡ ok (contents m.heap m.segments))
get_framed_segments-to_array_buffer m f = (framed m, to_array_buffer-framed m f, read)
  where
    n : ℕ
    n = length m.segments

    data_bytes : List ℕ
    data_bytes = flatten (contents m.heap m.segments)

    frame : get_stream_frame m.segments ≡ u32 (n - 1) ++ (lengths m.segments ++ padding n)
    frame = (get_stream_frame_of_pos m.segments f.some_segment).0

    size : length (get_stream_frame m.segments) ≡ frame_length n
    size = (get_stream_frame_of_pos m.segments f.some_segment).1

    total : length (framed m) ≡ frame_length n + length data_bytes
    total = omega (arith, length-append (get_stream_frame m.segments) data_bytes, size)

    layout : framed m ≡ u32 (n - 1) ++ (lengths m.segments ++ (padding n ++ data_bytes))
    layout =
        ap (λ l. l ++ data_bytes) frame
        ∙ ap (λ l. u32 (n - 1) ++ l) (append_assoc (lengths m.segments) (padding n) data_bytes)

    read : get_framed_segments (framed m) ≡ ok (contents m.heap m.segments)
    read =
        get_framed_segments-checks (framed m) (n - 1) n (omega (arith, f.some_segment))
          (get_uint32-append (framed m) [] _ 0 (n - 1) (omega (arith, f.few)) layout refl)
          (ground (arith, total)) (ground (arith, f.few)) (ground (arith, total))
        ∙ framed_loop-contents m.heap m.segments (framed m) (u32 (n - 1)) (padding n ++ data_bytes)
            (get_stream_frame m.segments) [] 0 (first_offset n) f.fits layout refl
            (ap (λ l. get_stream_frame m.segments ++ l) (sym (append-nil data_bytes)))
            (omega (arith, size))
