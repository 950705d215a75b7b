-- ===== src/Serialization/Pointer/Erase.antt =====
-- Erasing a pointer with all that it points to, and moving pointers (pointer.utils.ts of
-- src/serialization/pointers).
use capnp_es.Prelude.{ℕ, zero, suc, ◌+◌, ◌*◌, ◌/◌, ◌==◌, if◌then◌else◌, false}
use capnp_es.Prelude.Int.{ℤ, pos, shift_down, sub_ℕ, rounds_of}
use capnp_es.Errors.{ptr_depth_limit_exceeded, ptr_invalid_pointer_type}
use capnp_es.Serialization.ObjectSize.{get_byte_length, pointer_size, composite_size}
use capnp_es.Serialization.Context.{
  Act, pure, throw, reading, ◌>>=◌, ◌>>◌, set_word_zero, fill_zero_words, fill_words, for_each,
}
use capnp_es.Serialization.Pointer.{
  Pointer, struct_type, list_type, other_type, new_pointer, is_null, get_struct_size,
}
use capnp_es.Serialization.Pointer.Far.{
  get_target_pointer_type, get_target_struct_size, get_target_list_element_size,
  get_target_list_length, get_content, erase_pointer,
}
use capnp_es.Serialization.Pointer.Lengths.{
  get_list_element_byte_length, padded_bytes, composite_byte_length,
}

-- The cases of `erase`, for a pointer `p` whose depth limit is one more than `depth`. `erase_child`
-- erases a pointer with the limit `depth`; the constructor checks first where it is.
abbrev pub erase_at : ℕ → (Pointer → Act (Unit {0})) → ℕ → ℕ → Act (Unit {0})
erase_at depth erase_child id byte_offset = do
  child ← new_pointer id (pos byte_offset) depth
  erase_child child

unfoldable pub erase_struct : ℕ → (Pointer → Act (Unit {0})) → Pointer → Act (Unit {0})
erase_struct depth erase_child p = do
  size ← get_target_struct_size p
  c ← get_content false p
  fill_zero_words c.segment c.byte_offset (size.data_byte_length / 8)
  for_each size.pointer_length 0
      (λ i. erase_at depth erase_child c.segment (c.byte_offset + size.data_byte_length + i * 8))

-- A composite list: its tag word, the pointers of its structs and the words of it.
unfoldable pub erase_composite : ℕ → (Pointer → Act (Unit {0})) → ℤ → Pointer → Act (Unit {0})
erase_composite depth erase_child length c = do
  tag ← new_pointer c.segment (sub_ℕ c.byte_offset 8) c.depth_limit
  size ← get_struct_size tag
  set_word_zero tag.segment tag.byte_offset
  for_each (rounds_of length) 0 (λ i. for_each size.pointer_length 0 (λ j.
      erase_at depth erase_child c.segment
        (c.byte_offset + i * get_byte_length size + size.data_byte_length + j * 8)))
  fill_words c.segment c.byte_offset (shift_down (composite_byte_length length size) 8)

unfoldable pub erase_list : ℕ → (Pointer → Act (Unit {0})) → Pointer → Act (Unit {0})
unfolding erase_composite
erase_list depth erase_child p = do
  size ← get_target_list_element_size p
  length ← get_target_list_length p
  width ← reading (get_list_element_byte_length size)
  c ← get_content false p
  if size == pointer_size
      then for_each (rounds_of length) 0
          (λ i. erase_at depth erase_child c.segment (c.byte_offset + i * 8))
      else if size == composite_size
      then erase_composite depth erase_child length c
      else fill_words c.segment c.byte_offset (shift_down (padded_bytes width (rounds_of length)) 8)

unfoldable pub erase_content : ℕ → (Pointer → Act (Unit {0})) → Pointer → Act (Unit {0})
unfolding erase_struct erase_list
erase_content depth erase_child p = do
  type ← get_target_pointer_type p
  if type == struct_type
      then erase_struct depth erase_child p
      else if type == list_type
      then erase_list depth erase_child p
      else if type == other_type
      then pure tt
      else throw ptr_invalid_pointer_type

-- `erase`, by the depth limit of the pointer.
unfoldable pub erase_to : ℕ → Pointer → Act (Unit {0})
unfolding erase_content
erase_to zero p = throw ptr_depth_limit_exceeded
erase_to (suc depth) p = do
  null ← is_null p
  if null then pure tt else (erase_content depth (erase_to depth) p >> erase_pointer p)

abbrev pub erase : Pointer → Act (Unit {0})
erase p = erase_to p.depth_limit p
