-- ===== src/Serialization/Pointer/Copy.antt =====
-- Deep copies of pointers inside a message (pointer.utils.ts of src/serialization/pointers), for lists
-- whose length is not negative and whose bytes are fewer than 2 ^ 31 - 7.
use capnp_es.Prelude.{
  ℕ, zero, suc, ◌+◌, ◌-◌, ◌*◌, ◌/◌, ltb, ◌==◌, ◌&&◌, if◌then◌else◌, false, none, some, get_elem?,
}
use capnp_es.Prelude.Int.{pos, rounds_of}
use capnp_es.Errors.{ok, ptr_depth_limit_exceeded, ptr_invalid_pointer_type}
use capnp_es.Serialization.Word.{pad_to_word}
use capnp_es.Serialization.ObjectSize.{
  ObjectSize, get_byte_length, get_word_length, get_data_word_length, pad_object_to_word,
  pointer_size, composite_size,
}
use capnp_es.Serialization.Context.{
  Act, pure, throw, reading, ◌>>=◌, ◌>>◌, set_word_zero, copy_word, copy_words, add_cap, for_each,
}
use capnp_es.Serialization.Pointer.{
  Pointer, struct_type, list_type, other_type, new_pointer, allocate, is_null, get_capability_id,
  set_interface_pointer, set_list_pointer, set_struct_pointer,
}
use capnp_es.Serialization.Pointer.Far.{
  get_target_pointer_type, get_target_struct_size, get_target_list_element_size,
  get_target_list_length, get_target_composite_list_size, get_content, back_word, init_pointer,
}
use capnp_es.Serialization.Pointer.Lengths.{get_list_element_byte_length}
use capnp_es.Serialization.Pointer.Erase.{erase}

-- `copyFromInterface`. It reads the id from the pointer itself, also from a far pointer.
unfoldable pub copy_from_interface : Pointer → Pointer → Act (Unit {0})
copy_from_interface src dst = do
  id ← get_capability_id src
  λ c. elim (get_elem? c.cap_table id) [
    | none ↦ ok (tt, c)
    | some none ↦ ok (tt, c)
    | some (some client) ↦ (add_cap (some client) >>= λ id'. set_interface_pointer id' dst) c
  ]

-- The pointer at an offset behind the content, for a parent with this depth limit.
abbrev pub child_at : Pointer → ℕ → ℕ → Act Pointer
child_at content offset depth_limit =
    new_pointer content.segment (pos (content.byte_offset + offset)) (depth_limit - 1)

-- A copy of the pointer at an offset behind `src_content` to one behind `dst_content`.
abbrev pub copy_child :
    (Pointer → Pointer → Act (Unit {0}))
    → Pointer × Pointer
    → Pointer × Pointer
    → ℕ
    → ℕ
    → Act (Unit {0})
copy_child copy_pointer (src, dst) (src_content, dst_content) offset dst_offset = do
  src_ptr ← child_at src_content offset src.depth_limit
  dst_ptr ← child_at dst_content dst_offset dst.depth_limit
  copy_pointer src_ptr dst_ptr

-- The three branches of `copyFromList`, each with the content that it allocates.
unfoldable pub copy_pointer_list :
    (Pointer → Pointer → Act (Unit {0})) → Pointer → Pointer → Pointer → ℕ → Act Pointer
copy_pointer_list copy_pointer src dst src_content length = do
  dst_content ← allocate dst.segment (length * 8)
  for_each length 0
      (λ i. copy_child copy_pointer (src, dst) (src_content, dst_content) (i * 8) (i * 8))
  pure dst_content

-- The pointers of a struct, each cleared first.
abbrev pub recopy_child :
    (Pointer → Pointer → Act (Unit {0}))
    → Pointer × Pointer
    → Pointer × Pointer
    → ℕ
    → Act (Unit {0})
recopy_child copy_pointer (src, dst) (src_content, dst_content) offset = do
  src_ptr ← child_at src_content offset src.depth_limit
  dst_ptr ← child_at dst_content (offset + 8) dst.depth_limit
  set_word_zero dst_ptr.segment dst_ptr.byte_offset
  copy_pointer src_ptr dst_ptr

unfoldable pub copy_composite_list :
    (Pointer → Pointer → Act (Unit {0}))
    → Pointer
    → Pointer
    → Pointer
    → ℕ
    → ObjectSize
    → Act Pointer
copy_composite_list copy_pointer src dst src_content length size = do
  dst_content ← allocate dst.segment (get_byte_length size * length + 8)
  tag ← back_word src_content
  copy_word dst_content.segment dst_content.byte_offset tag.segment tag.byte_offset
  if ltb 0 size.data_byte_length
      then copy_words dst_content.segment (dst_content.byte_offset + 8) src_content.segment
          src_content.byte_offset (get_word_length size * length)
      else pure tt
  for_each length 0 (λ i. for_each size.pointer_length 0 (λ j.
      recopy_child copy_pointer (src, dst) (src_content, dst_content)
        (i * get_byte_length size + size.data_byte_length + j * 8)))
  pure dst_content

unfoldable pub copy_data_list : Pointer → Pointer → ℕ → ℕ → Act Pointer
copy_data_list dst src_content size length = do
  width ← reading (get_list_element_byte_length size)
  let bytes = pad_to_word (elim width [ none ↦ (length + 7) / 8 | some w ↦ w * length ])
  dst_content ← allocate dst.segment bytes
  copy_words dst_content.segment dst_content.byte_offset src_content.segment src_content.byte_offset
      (bytes / 8)
  pure dst_content

-- `copyFromList`, whose recursive calls are `copy_pointer`. (A pointer always has a depth limit
-- of 1 or more.)
unfoldable pub copy_from_list :
    (Pointer → Pointer → Act (Unit {0})) → Pointer → Pointer → Act (Unit {0})
unfolding copy_pointer_list copy_composite_list copy_data_list
copy_from_list copy_pointer src dst = do
  src_content ← get_content false src
  size ← get_target_list_element_size src
  length ← get_target_list_length src
  if size == composite_size
      then (do
        found ← get_target_composite_list_size src
        let composite = pad_object_to_word found
        dst_content ←
            copy_composite_list copy_pointer src dst src_content (rounds_of length) composite
        (p, offset_words) ← init_pointer dst_content.segment dst_content.byte_offset dst
        set_list_pointer offset_words size (rounds_of length) p (some composite))
      else (do
        dst_content ←
            if size == pointer_size
            then copy_pointer_list copy_pointer src dst src_content (rounds_of length)
            else copy_data_list dst src_content size (rounds_of length)
        (p, offset_words) ← init_pointer dst_content.segment dst_content.byte_offset dst
        set_list_pointer offset_words size (rounds_of length) p none)

unfoldable pub copy_from_struct :
    (Pointer → Pointer → Act (Unit {0})) → Pointer → Pointer → Act (Unit {0})
copy_from_struct copy_pointer src dst = do
  src_content ← get_content false src
  size ← get_target_struct_size src
  dst_content ← allocate dst.segment (get_byte_length size)
  copy_words dst_content.segment dst_content.byte_offset src_content.segment src_content.byte_offset
      (get_data_word_length size)
  for_each size.pointer_length 0 (λ i.
      copy_child copy_pointer (src, dst) (src_content, dst_content) (size.data_byte_length + i * 8)
        (size.data_byte_length + i * 8))
  if dst.composite_list then pure tt else (do
    (p, offset_words) ← init_pointer dst_content.segment dst_content.byte_offset dst
    set_struct_pointer offset_words size p)

-- `copyFrom`, by the depth limit of `p`.
unfoldable pub copy_to : ℕ → Pointer → Pointer → Act (Unit {0})
unfolding copy_from_interface copy_from_list copy_from_struct
copy_to zero src p = throw ptr_depth_limit_exceeded
copy_to (suc depth) src p =
    if p.segment == src.segment && p.byte_offset == src.byte_offset then pure tt else (do
      erase p
      null ← is_null src
      if null then pure tt else (do
        type ← get_target_pointer_type src
        if type == struct_type
            then copy_from_struct (copy_to depth) src p
            else if type == list_type
            then copy_from_list (copy_to depth) src p
            else if type == other_type
            then copy_from_interface src p
            else throw ptr_invalid_pointer_type))

abbrev pub copy_from : Pointer → Pointer → Act (Unit {0})
copy_from src p = copy_to p.depth_limit src p
