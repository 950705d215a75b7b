-- ===== src/Serialization/Message/Grow.antt =====
-- `Segment.allocate` and `allocateSegment` (src/serialization/segment.ts, message.ts) where a segment
-- has room, and where the arena has to grow.
use capnp_es.Prelude.{
  ℕ, zero, ◌+◌, ◌-◌, ◌%◌, ◌^◌, max, ◌<◌, ◌≡◌, refl, ap, ◌∙◌, leb, ltb, ◌==◌, if◌then◌else◌, true,
  false, List, [], ◌∷◌, ◌++◌, length, length-append, length-replicate, get_elem?, set, ne→==_false,
  ==_iff, some, arith,
}
use capnp_es.Errors.{ok}
use capnp_es.Serialization.Word.{pad_to_word}
use capnp_es.Serialization.Arena.{
  Buffer, Heap, buffer_at, zeros, AnyArena, multi_segment, single_segment, allocate, allocate_multi,
  allocate_single,
}
use capnp_es.Serialization.Message.{
  Segment, Message, capacity, has_capacity, replace_buffer, place_segment, allocate_segment,
  take_bytes, allocate_in,
}
use capnp_es.Serialization.Message.Heaps.{buffer_at_last}
use capnp_es.Serialization.Message.Valid.{InHeap}

pub take_bytes_lem :
    (id n : ℕ) (m : Message) {s : Segment}
    → get_elem? m.segments id ≡ some s
    → take_bytes id n m
      ≡ ok (
        (id, s.byte_length),
        record m { segments = set m.segments id (record s { byte_length = s.byte_length + n }) },
      )
unfolding take_bytes
take_bytes_lem id n m e = rw (e, take_bytes)

-- A message that may be written.
abbrev pub writable : Heap → AnyArena → List Segment → Message
writable h a segments = record { heap = h; arena = a; segments = segments; readonly = false }

pub allocate_in-room :
    (id size : ℕ) (h : Heap) (a : AnyArena) (segments : List Segment) {s : Segment}
    → size < 2 ^ 31 - 7
    → get_elem? segments id ≡ some s
    → has_capacity h s (pad_to_word size) ≡ true
    → allocate_in id size (writable h a segments)
      ≡ take_bytes id (pad_to_word size) (writable h a segments)
unfolding allocate_in
allocate_in-room id size h a segments small e room =
    let fits : leb (pad_to_word size) (0xffff_ffff - 8) ≡ true = ground arith in rw (fits, e, room)

pub allocate_in_full :
    (id size id' : ℕ) (h : Heap) (a : AnyArena) (segments : List Segment) (m' : Message)
    {s : Segment}
    → size < 2 ^ 31 - 7
    → get_elem? segments id ≡ some s
    → has_capacity h s (pad_to_word size) ≡ false
    → allocate_segment (pad_to_word size) (writable h a segments) ≡ ok (id', m')
    → allocate_in id size (writable h a segments) ≡ take_bytes id' (pad_to_word size) m'
unfolding allocate_in
allocate_in_full id size id' h a segments m' small e full k =
    let fits : leb (pad_to_word size) (0xffff_ffff - 8) ≡ true = ground arith in
    rw (fits, e, full, k)

-- The segment that a new buffer of a multi segment arena gets.
abbrev pub fresh_segment : Heap → Segment
fresh_segment h = record { buffer = length h; byte_length = 0 }

pub allocate_segment_multi :
    (n : ℕ) (h : Heap) (buffers : List ℕ) (segments : List Segment)
    → length buffers ≡ length segments
    → allocate_segment n (writable h (multi_segment buffers) segments)
      ≡ ok (
        length segments,
        writable
            (h ++ (zeros (pad_to_word (max n 256)) ∷ []))
            (multi_segment (buffers ++ (length h ∷ [])))
            (segments ++ (fresh_segment h ∷ [])),
      )
unfolding allocate_segment allocate allocate_multi place_segment
allocate_segment_multi n h buffers segments e =
    let i : length (buffers ++ (length h ∷ [])) - 1 ≡ length segments =
      omega (arith, length-append buffers (length h ∷ [])) in
    rw (i, (==_iff (length segments) (length segments)).1 refl)

abbrev pub growth : ℕ → ℕ
growth n = if ltb n 1024 then 1024 else pad_to_word n

-- The buffer that takes the place of the one of a single segment.
abbrev pub grown : ℕ → Heap → Segment → Buffer
grown n h s = buffer_at h s.buffer ++ zeros (growth n)

pub allocate_segment_single :
    (n : ℕ) (h : Heap) (r : ℕ) (s : Segment)
    → InHeap h s
    → allocate_segment n (writable h (single_segment r) (s ∷ []))
      ≡ ok (
        0,
        writable
            (h ++ (grown n h s ∷ []))
            (single_segment (length h))
            (record s { buffer = length h } ∷ []),
      )
unfolding allocate_segment allocate allocate_single place_segment replace_buffer
allocate_segment_single n h r s i =
    let whole : (capacity h s % 8 == 0) ≡ true = (==_iff _ _).1 i.aligned in
    let other : (s.buffer == length h) ≡ false =
      ne→==_false s.buffer (length h) (λ e. absurd (omega (arith, i.in_heap))) in
    let size : length (buffer_at (h ++ (grown n h s ∷ [])) (length h)) ≡ capacity h s + growth n =
      ap length (buffer_at_last h (grown n h s))
      ∙ length-append (buffer_at h s.buffer) (zeros (growth n))
      ∙ ap (λ k. capacity h s + k) (length-replicate (growth n) zero) in
    let enough : leb s.byte_length (capacity h s + growth n) ≡ true = ground (arith, i.inside) in
    rw (whole, other, size, enough)
