-- ===== src/Serialization/Message.antt =====
-- src/serialization/message.ts and src/serialization/segment.ts: the segments of a message and how
-- space in them is allocated. What the message is like after an error is not modelled.
pub mod Heaps
pub mod Valid
pub mod Grow
pub mod Allocate
pub mod Fresh
use capnp_es.Prelude.{
  ℕ, ◌+◌, ◌-◌, ◌==◌, leb, not, if◌then◌else◌, Bool, List, [], ◌∷◌, ◌++◌, length, get_elem?, set,
  map, none, some,
}
use capnp_es.Errors.{
  msg_segment_out_of_bounds, msg_segment_too_small, seg_size_overflow,
  seg_replacement_buffer_too_small, ptr_write_const_struct, Result, ok, err, guard, ◌>>=◌, ◌>>◌,
}
use capnp_es.Serialization.Word.{pad_to_word}
use capnp_es.Serialization.Arena.{
  Heap, buffer_at, AnyArena, default_buffer_size, Allocation, allocate, get_buffer,
  get_num_segments,
}

-- A `Segment`; its id is its index in the message.
pub record Segment : Type 0 where
  pub buffer : ℕ
  pub byte_length : ℕ

pub record Message : Type 0 where
  pub heap : Heap
  pub arena : AnyArena
  pub segments : List Segment
  pub readonly : Bool

abbrev pub max_segment_length : ℕ
max_segment_length = 0xffff_ffff

abbrev pub capacity : Heap → Segment → ℕ
capacity h s = length (buffer_at h s.buffer)

-- `capacity - allocated >= requested`; the difference may be negative.
abbrev pub has_capacity : Heap → Segment → ℕ → Bool
has_capacity h s byte_length = leb (byte_length + s.byte_length) (capacity h s)

-- `assertWritable`
abbrev pub assert_writable : Message → Result (Unit {0})
assert_writable m = guard (not m.readonly) ptr_write_const_struct

unfoldable pub replace_buffer : ℕ → Segment → Message → Result Segment
replace_buffer buffer s m = if s.buffer == buffer then ok s else (do
  assert_writable m
  guard (leb s.byte_length (length (buffer_at m.heap buffer))) seg_replacement_buffer_too_small
  ok (record s { buffer = buffer }))

-- `allocateSegment` behind `Arena.allocate`: the id of the segment, and the message.
unfoldable pub place_segment : Allocation → Message → Result (ℕ × Message)
place_segment a m =
    let m' : Message = record m { heap = a.heap; arena = a.arena } in
    if a.id == length m.segments
    then ok (
      a.id,
      record m' { segments = m.segments ++ (record { buffer = a.buffer; byte_length = 0 } ∷ []) },
    )
    else elim (get_elem? m.segments a.id) [
      | none ↦ err msg_segment_out_of_bounds
      | some s ↦ elim (replace_buffer a.buffer s m') [
        | err e ↦ err e
        | ok s' ↦ ok (a.id, record m' { segments = set m.segments a.id s' })
      ]
    ]

unfoldable pub allocate_segment : ℕ → Message → Result (ℕ × Message)
allocate_segment byte_length m = do
  a ← allocate byte_length m.heap (map (λ s. s.buffer) m.segments) m.arena
  place_segment a m

-- The end of `Segment.allocate`: take the bytes behind those of the segment `id`. The result is
-- the pointer, a segment and an offset in it.
unfoldable pub take_bytes : ℕ → ℕ → Message → Result ((ℕ × ℕ) × Message)
take_bytes id byte_length m = elim (get_elem? m.segments id) [
  | none ↦ err msg_segment_out_of_bounds
  | some s ↦ ok (
    (id, s.byte_length),
    record m {
      segments = set m.segments id (record s { byte_length = s.byte_length + byte_length });
    },
  )
]

-- `Segment.allocate` of the segment `id`, for sizes below 2 ^ 31 - 7.
unfoldable pub allocate_in : ℕ → ℕ → Message → Result ((ℕ × ℕ) × Message)
allocate_in id size m = do
  assert_writable m
  let byte_length = pad_to_word size
  guard (leb byte_length (max_segment_length - 8)) seg_size_overflow
  elim (get_elem? m.segments id) [
    | none ↦ err msg_segment_out_of_bounds
    | some s ↦
        if has_capacity m.heap s byte_length
        then take_bytes id byte_length m
        else (do (id', m') ← allocate_segment byte_length m; take_bytes id' byte_length m')
  ]

-- `getSegment` for a message with no segment yet, at id 0: make segment 0 and leave room for the
-- root pointer.
unfoldable pub first_segment : Message → Result Message
first_segment m =
    if get_num_segments m.arena == 0
    then (do (id, m') ← allocate_segment default_buffer_size m; ok m')
    else (do
      r ← get_buffer 0 m.arena
      ok (record m { segments = record { buffer = r; byte_length = 0 } ∷ [] }))

unfoldable pub first_capacity : Message → ℕ
first_capacity m = elim (get_elem? m.segments 0) [
  | none ↦ 0
  | some s ↦ capacity m.heap s - s.byte_length
]

-- The id of the segment, and the message.
unfoldable pub get_segment : ℕ → Message → Result (ℕ × Message)
get_segment id m =
    if leb (length m.segments) id
    then (if leb (id + length m.segments) 0
        then (do
          m' ← first_segment m
          guard (leb 8 (first_capacity m')) msg_segment_too_small
          (p, m'') ← allocate_in 0 8 m'
          ok (0, m''))
        else err msg_segment_out_of_bounds)
    else ok (id, m)
