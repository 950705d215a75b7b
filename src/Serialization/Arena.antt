-- ===== src/Serialization/Arena.antt =====
-- src/serialization/arena: where the buffers of a message come from. Array buffers are objects that
-- arenas and segments share: a heap is a list of buffers, and a reference to one is its index.
use capnp_es.Prelude.{
  ℕ, ◌-◌, ◌%◌, max, ◌==◌, ltb, if◌then◌else◌, Bool, true, false, List, [], ◌∷◌, ◌++◌, length,
  get_elem?, replicate, none, some,
}
use capnp_es.Errors.{
  seg_id_out_of_bounds, seg_get_non_zero_single, seg_not_word_aligned, range_error, Result, ok, err,
  guard, ◌>>◌,
}
use capnp_es.Serialization.Word.{pad_to_word}

abbrev pub Buffer : Type 0
Buffer = List ℕ

abbrev pub Heap : Type 0
Heap = List Buffer

abbrev pub buffer_at : Heap → ℕ → Buffer
buffer_at h r = elim (get_elem? h r) [ none ↦ [] | some b ↦ b ]

abbrev pub default_buffer_size : ℕ
default_buffer_size = 256

abbrev pub min_single_segment_growth : ℕ
min_single_segment_growth = 1024

-- The two kinds of arena, by the references that they keep.
pub data AnyArena : Type 0 where
  multi_segment : List ℕ → AnyArena
  single_segment : ℕ → AnyArena

abbrev pub zeros : ℕ → Buffer
zeros n = replicate n 0

-- The constructors, which check each buffer.
unfoldable pub all_aligned : Heap → List ℕ → Bool
all_aligned h [] = true
all_aligned h (r ∷ buffers) =
    if length (buffer_at h r) % 8 == 0 then all_aligned h buffers else false

unfoldable pub new_multi_segment_arena : Heap → List ℕ → Result AnyArena
new_multi_segment_arena h buffers = do
  guard (all_aligned h buffers) seg_not_word_aligned
  ok (multi_segment buffers)

unfoldable pub new_single_segment_arena : Heap → ℕ → Result AnyArena
new_single_segment_arena h r = do
  guard (length (buffer_at h r) % 8 == 0) seg_not_word_aligned
  ok (single_segment r)

-- `ArenaAllocationResult`, with the arena and the heap as `allocate` leaves them.
pub record Allocation : Type 0 where
  pub id : ℕ
  pub buffer : ℕ
  pub arena : AnyArena
  pub heap : Heap

unfoldable pub allocate_multi : ℕ → Heap → List ℕ → Allocation
allocate_multi min_size h buffers = record {
  id = length (buffers ++ (length h ∷ [])) - 1;
  buffer = length h;
  arena = multi_segment (buffers ++ (length h ∷ []));
  heap = h ++ (zeros (pad_to_word (max min_size default_buffer_size)) ∷ []);
}

-- `src` is the buffer of segment 0 if there is one, and that of the arena otherwise. A Float64Array
-- over a buffer that is no number of words throws.
unfoldable pub allocate_single : ℕ → Heap → ℕ → Result Allocation
allocate_single min_size h src = do
  let growth =
      if ltb min_size min_single_segment_growth
      then min_single_segment_growth
      else pad_to_word min_size
  guard (length (buffer_at h src) % 8 == 0) range_error
  ok (record {
    id = 0;
    buffer = length h;
    arena = single_segment (length h);
    heap = h ++ ((buffer_at h src ++ zeros growth) ∷ []);
  })

-- `segments` holds the buffers of the message's segments.
unfoldable pub allocate : ℕ → Heap → List ℕ → AnyArena → Result Allocation
unfolding allocate_multi allocate_single
allocate min_size h segments (multi_segment buffers) = ok (allocate_multi min_size h buffers)
allocate min_size h [] (single_segment r) = allocate_single min_size h r
allocate min_size h (s ∷ segments) (single_segment r) = allocate_single min_size h s

unfoldable pub get_buffer : ℕ → AnyArena → Result ℕ
get_buffer id (multi_segment buffers) = elim (get_elem? buffers id) [
  | none ↦ err seg_id_out_of_bounds
  | some r ↦ ok r
]
get_buffer id (single_segment r) = if id == 0 then ok r else err seg_get_non_zero_single

unfoldable pub get_num_segments : AnyArena → ℕ
get_num_segments (multi_segment buffers) = length buffers
get_num_segments (single_segment r) = 1

-- `copy`: fresh buffers with the same bytes. The loop of the source runs backwards over the
-- indices; its rounds do not meet.
unfoldable pub copy_buffers : Heap → List ℕ → List ℕ × Heap
copy_buffers h [] = ([], h)
copy_buffers h (r ∷ buffers) =
    let (copies, h') = copy_buffers (h ++ (buffer_at h r ∷ [])) buffers in (length h ∷ copies, h')

unfoldable pub copy : Heap → AnyArena → AnyArena × Heap
unfolding copy_buffers
copy h (multi_segment buffers) =
    let (copies, h') = copy_buffers h buffers in (multi_segment copies, h')
copy h (single_segment r) = (single_segment (length h), h ++ (buffer_at h r ∷ []))
