-- ===== src/Serialization/Pointer/Far.antt =====
-- Far pointers and the content of pointers (pointer.utils.ts of src/serialization/pointers).
use capnp_es.Prelude.{
  ℕ, ◌+◌, ◌-◌, ◌*◌, ◌/◌, leb, ◌==◌, if◌then◌else◌, Bool, true, false, Option, none, some,
}
use capnp_es.Prelude.Int.{ℤ, pos, sub_ℕ, add_scaled}
use capnp_es.Errors.{invariant_unreachable_code, ptr_invalid_far_target, range_error}
use capnp_es.Serialization.Message.{has_capacity}
use capnp_es.Serialization.ObjectSize.{
  ObjectSize, get_byte_length, pad_object_to_word, composite_size,
}
use capnp_es.Serialization.Context.{
  Act, pure, throw, require, ◌>>=◌, ◌>>◌, segment_of, load, set_word_zero, get_segment,
}
use capnp_es.Serialization.Pointer.{
  Pointer, list_type, far_type, default_depth_limit, new_pointer, allocate, get_pointer_type,
  get_offset_words, get_struct_size, get_list_element_size, get_list_length, get_far_segment_id,
  is_double_far, set_far_pointer,
}

unfoldable pub follow_far : Pointer → Act Pointer
follow_far p = do
  id ← load 4 p.segment (p.byte_offset + 4)
  target_segment ← get_segment id
  w ← load 4 p.segment p.byte_offset
  new_pointer target_segment (pos (w / 8 * 8)) (p.depth_limit - 1)

unfoldable pub follow_fars : Pointer → Act Pointer
unfolding follow_far
follow_fars p = do
  t ← get_pointer_type p
  if t == far_type
      then (do
        landing_pad ← follow_far p
        double ← is_double_far p
        pure (
            if double
            then record landing_pad { byte_offset = landing_pad.byte_offset + 8 }
            else landing_pad))
      else pure p

unfoldable pub get_target_pointer_type : Pointer → Act ℕ
unfolding follow_fars
get_target_pointer_type p = do
  t ← follow_fars p
  type ← get_pointer_type t
  if type == far_type then throw ptr_invalid_far_target else pure type

unfoldable pub get_target_struct_size : Pointer → Act ObjectSize
unfolding follow_fars
get_target_struct_size p = do t ← follow_fars p; get_struct_size t

unfoldable pub get_target_list_element_size : Pointer → Act ℕ
unfolding follow_fars
get_target_list_element_size p = do t ← follow_fars p; get_list_element_size t

unfoldable pub is_composite_list : Pointer → Act Bool
unfolding get_target_pointer_type get_target_list_element_size
is_composite_list p = do
  type ← get_target_pointer_type p
  if type == list_type
      then (do size ← get_target_list_element_size p; pure (size == composite_size))
      else pure false

-- The first part of `getContent`, for a double far pointer and for any other.
unfoldable pub content_double : Pointer → Act Pointer
unfolding follow_far
content_double p = do
  landing_pad ← follow_far p
  id ← get_far_segment_id landing_pad
  segment ← get_segment id
  offset_words ← get_offset_words landing_pad
  new_pointer segment (add_scaled 0 8 offset_words) default_depth_limit

unfoldable pub content_single : Pointer → Act Pointer
unfolding follow_fars
content_single p = do
  target ← follow_fars p
  offset_words ← get_offset_words target
  new_pointer target.segment (add_scaled (target.byte_offset + 8) 8 offset_words)
      default_depth_limit

-- `c.byteOffset -= 8`. Where that is negative, the read that follows throws a RangeError.
abbrev pub back_word : Pointer → Act Pointer
back_word c =
    if leb 8 c.byte_offset
    then pure (record c { byte_offset = c.byte_offset - 8 })
    else throw range_error

-- The last part of `getContent`: to the element with the index of a struct in a composite list.
unfoldable pub seek_element : Option ℕ → Pointer → Act Pointer
seek_element none c = pure c
seek_element (some i) c = do
  tag ← back_word c
  size ← get_struct_size tag
  pure (record tag {
    byte_offset = tag.byte_offset + 8 + i * get_byte_length (pad_object_to_word size);
  })

unfoldable pub get_content : Bool → Pointer → Act Pointer
unfolding content_double content_single is_composite_list seek_element
get_content ignore_composite_index p = do
  double ← is_double_far p
  c ← if double then content_double p else content_single p
  composite ← is_composite_list p
  seek_element (if ignore_composite_index then none else p.composite_index)
      (if composite then record c { byte_offset = c.byte_offset + 8 } else c)

unfoldable pub get_target_composite_list_tag : Pointer → Act Pointer
unfolding get_content
get_target_composite_list_tag p = do c ← get_content false p; back_word c

unfoldable pub get_target_composite_list_size : Pointer → Act ObjectSize
unfolding get_target_composite_list_tag
get_target_composite_list_size p = do tag ← get_target_composite_list_tag p; get_struct_size tag

-- The length of a composite list stands in its tag word, where it may be negative.
unfoldable pub get_target_list_length : Pointer → Act ℤ
unfolding follow_fars get_target_composite_list_tag
get_target_list_length p = do
  t ← follow_fars p
  size ← get_list_element_size t
  if size == composite_size
      then (do tag ← get_target_composite_list_tag p; get_offset_words tag)
      else (do length ← get_list_length t; pure (pos length))

-- `(a - b - 8) / 8` for offsets of words.
abbrev pub words_between : ℕ → ℕ → ℤ
words_between a b = sub_ℕ (a / 8) (b / 8 + 1)

-- `initPointer` where the content is in another segment. The result is a `PointerAllocationResult`.
unfoldable pub init_far_pointer : ℕ → ℕ → Pointer → Bool → Act (Pointer × ℤ)
init_far_pointer content_segment content_offset p false = do
  landing_pad ← allocate p.segment 16
  set_far_pointer true (landing_pad.byte_offset / 8) landing_pad.segment p
  set_far_pointer false (content_offset / 8) content_segment landing_pad
  pure (record landing_pad { byte_offset = landing_pad.byte_offset + 8 }, pos 0)
init_far_pointer content_segment content_offset p true = do
  landing_pad ← allocate content_segment 8
  require (landing_pad.segment == content_segment) invariant_unreachable_code
  set_far_pointer false (landing_pad.byte_offset / 8) landing_pad.segment p
  pure (landing_pad, words_between content_offset landing_pad.byte_offset)

unfoldable pub init_pointer : ℕ → ℕ → Pointer → Act (Pointer × ℤ)
unfolding init_far_pointer
init_pointer content_segment content_offset p =
    if p.segment == content_segment
    then pure (p, words_between content_offset p.byte_offset)
    else (do
      s ← segment_of content_segment
      λ c. init_far_pointer content_segment content_offset p (has_capacity c.message.heap s 8) c)

unfoldable pub erase_pointer : Pointer → Act (Unit {0})
unfolding follow_far
erase_pointer p = do
  t ← get_pointer_type p
  if t == far_type
      then (do
        landing_pad ← follow_far p
        double ← is_double_far p
        if double then set_word_zero landing_pad.segment (landing_pad.byte_offset + 8) else pure tt
        set_word_zero landing_pad.segment landing_pad.byte_offset)
      else pure tt
  set_word_zero p.segment p.byte_offset
