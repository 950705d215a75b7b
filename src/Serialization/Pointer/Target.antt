-- ===== src/Serialization/Pointer/Target.antt =====
-- The content of a struct pointer that is not far (src/serialization/pointers/pointer.utils.ts).
use capnp_es.Prelude.{
  ℕ, ◌+◌, ◌-◌, ◌*◌, ◌^◌, ◌≤◌, ◌<◌, ◌≡◌, ◌⊎◌, ap, ◌∙◌, leb, true, false, ◌++◌, length, none, arith,
}
use capnp_es.Prelude.Int.{ℤ, pos, add_scaled, uint32_shifted}
use capnp_es.Errors.{ok}
use capnp_es.Serialization.Message.{Segment}
use capnp_es.Serialization.ObjectSize.{ObjectSize}
use capnp_es.Serialization.Context.{Context, track_pointer_allocation}
use capnp_es.Serialization.Context.Words.{Open, buffer_of, segment_of_lem}
use capnp_es.Serialization.Access.{bytes_of}
use capnp_es.Serialization.Pointer.Codec.{
  IsOffset, offset_words_of_lem, uint32_shifted-bound, uint32_shifted-mod, struct_word,
}
use capnp_es.Serialization.Pointer.Stored.{
  Stored, get_pointer_type_word, get_offset_words_word, get_struct_size_word, is_null_word,
}
use capnp_es.Serialization.Pointer.{
  Pointer, struct_type, default_depth_limit, pointer_at, new_pointer, get_pointer_type,
  get_offset_words, get_struct_size, is_double_far, is_null,
}
use capnp_es.Serialization.Pointer.Far.{
  follow_fars, get_target_pointer_type, get_target_struct_size, is_composite_list, content_single,
  seek_element, get_content,
}

-- The context after a pointer was made.
abbrev pub spent : Context → Context
spent c = record c { traversal_limit = c.traversal_limit - 8 }

abbrev pub plain_pointer : ℕ → ℕ → ℕ → Pointer
plain_pointer id byte_offset depth_limit = record {
  segment = id;
  byte_offset = byte_offset;
  depth_limit = depth_limit;
  composite_index = none;
  composite_list = false;
}

-- Only the limit changes.
pub Open-spent : {c : Context} {id : ℕ} {s : Segment} → Open c id s → Open (spent c) id s
Open-spent o = record { found = o.found; in_heap = o.in_heap; may_write = o.may_write }

track_lem : (c : Context) → 8 < c.traversal_limit → track_pointer_allocation c ≡ ok (tt, spent c)
unfolding track_pointer_allocation
track_lem c h = let e : leb c.traversal_limit 8 ≡ false = ground arith in rw e

pub new_pointer_lem :
    {c : Context} {id : ℕ} {s : Segment} (byte_offset depth_limit : ℕ)
    → Open c id s
    → 8 < c.traversal_limit
    → 1 ≤ depth_limit
    → byte_offset ≤ s.byte_length
    → new_pointer id (pos byte_offset) depth_limit c
      ≡ ok (plain_pointer id byte_offset depth_limit, spent c)
unfolding new_pointer pointer_at
new_pointer_lem {c} {id} {s} byte_offset depth_limit o h d i =
    let e : leb 1 depth_limit ≡ true = ground arith in
    let e' : leb byte_offset s.byte_length ≡ true = ground arith in
    rw (e, track_lem c h, segment_of_lem (Open-spent o), e')

-- A struct pointer that is not far.
module _ (p : Pointer) (c : Context) (struct : get_pointer_type p c ≡ ok (struct_type, c)) where
  pub follow_fars_near : follow_fars p c ≡ ok (p, c)
  unfolding follow_fars
  follow_fars_near = rw struct

  pub get_target_pointer_type_near : get_target_pointer_type p c ≡ ok (struct_type, c)
  unfolding get_target_pointer_type
  get_target_pointer_type_near = rw (follow_fars_near, struct)

  is_composite_list_near : is_composite_list p c ≡ ok (false, c)
  unfolding is_composite_list
  is_composite_list_near = rw (get_target_pointer_type_near)

  is_double_far_near : is_double_far p c ≡ ok (false, c)
  unfolding is_double_far
  is_double_far_near = rw struct

  pub get_target_struct_size_near :
      (size : ObjectSize)
      → get_struct_size p c ≡ ok (size, c)
      → get_target_struct_size p c ≡ ok (size, c)
  unfolding get_target_struct_size
  get_target_struct_size_near size h = rw (follow_fars_near, h)

-- A struct pointer to content at `co` in its own segment, with `words` words of data and `pointers`
-- pointers.
pub record StructAt (c : Context) (s : Segment) (p : Pointer) (co words pointers : ℕ) : Type 0 where
  pub offset : ℤ
  pub word : Stored c s p (struct_word (struct_type + uint32_shifted offset 4) words pointers)
  pub single : p.composite_index ≡ none
  pub small_offset : IsOffset offset
  pub some_data : 0 < words
  pub small_words : words < 2 ^ 16
  pub small_pointers : pointers < 2 ^ 16
  pub in_segment : p.byte_offset + 8 ≤ s.byte_length
  pub in_buffer : s.byte_length ≤ length (buffer_of c s)
  pub points_to : add_scaled (p.byte_offset + 8) 8 offset ≡ pos co
  pub holds : co + (words + pointers) * 8 ≤ s.byte_length
  pub apart : (co + (words + pointers) * 8 ≤ p.byte_offset) ⊎ (p.byte_offset + 8 ≤ co)

pub StructAt-spent :
    {c : Context} {s : Segment} {p : Pointer} {co words pointers : ℕ}
    → StructAt c s p co words pointers
    → StructAt (spent c) s p co words pointers
StructAt-spent at = record {
  offset = at.offset;
  word = record {
    open_segment = Open-spent at.word.open_segment;
    inside = at.word.inside;
    eight = at.word.eight;
    stored = at.word.stored;
  };
  single = at.single;
  small_offset = at.small_offset;
  some_data = at.some_data;
  small_words = at.small_words;
  small_pointers = at.small_pointers;
  in_segment = at.in_segment;
  in_buffer = at.in_buffer;
  points_to = at.points_to;
  holds = at.holds;
  apart = at.apart;
}

module _ {c : Context} {s : Segment} {p : Pointer} {co words pointers : ℕ}
    (at : StructAt c s p co words pointers) where
  low_bound : struct_type + uint32_shifted at.offset 4 < 2 ^ 32
  low_bound = omega (arith, uint32_shifted-bound at.offset at.small_offset)

  pub get_pointer_type_at : get_pointer_type p c ≡ ok (struct_type, c)
  unfolding bytes_of
  get_pointer_type_at =
      get_pointer_type_word (struct_type + uint32_shifted at.offset 4)
        (bytes_of 2 words ++ bytes_of 2 pointers) at.word low_bound
      ∙ ap (λ t. ok (t, c)) (omega (arith, uint32_shifted-mod at.offset))

  pub get_offset_words_at : get_offset_words p c ≡ ok (at.offset, c)
  unfolding bytes_of
  get_offset_words_at =
      get_offset_words_word (struct_type + uint32_shifted at.offset 4)
        (bytes_of 2 words ++ bytes_of 2 pointers) at.word low_bound
      ∙ ap (λ o. ok (o, c)) (offset_words_of_lem 0 at.offset (omega arith) at.small_offset)

  pub get_target_struct_size_at :
      get_target_struct_size p c
      ≡ ok (record { data_byte_length = words * 8; pointer_length = pointers }, c)
  get_target_struct_size_at = get_target_struct_size_near p c get_pointer_type_at _ (
      get_struct_size_word (struct_type + uint32_shifted at.offset 4) words pointers at.word
        at.small_words at.small_pointers)

  pub is_null_at : is_null p c ≡ ok (false, c)
  is_null_at =
      is_null_word (struct_type + uint32_shifted at.offset 4) words pointers at.word at.in_segment
        at.some_data at.small_words

  content_single_at :
      8 < c.traversal_limit
      → content_single p c ≡ ok (plain_pointer p.segment co default_depth_limit, spent c)
  unfolding content_single
  content_single_at h = rw (
    follow_fars_near p c get_pointer_type_at,
    get_offset_words_at,
    at.points_to,
    new_pointer_lem co default_depth_limit at.word.open_segment h (omega arith)
        (omega (arith, at.holds)),
  )

module _ {c : Context} {s : Segment} {p : Pointer} {co words pointers : ℕ}
    (at : StructAt c s p co words pointers) where
  -- The content of the pointer, for a message that may still be traversed.
  pub get_content_at :
      8 < c.traversal_limit
      → get_content false p c ≡ ok (plain_pointer p.segment co default_depth_limit, spent c)
  unfolding get_content seek_element
  get_content_at h = rw (
    is_double_far_near p c (get_pointer_type_at at),
    content_single_at at h,
    is_composite_list_near p (spent c) (get_pointer_type_at (StructAt-spent at)),
    at.single,
  )
