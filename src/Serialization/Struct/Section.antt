-- ===== src/Serialization/Struct/Section.antt =====
-- The pointer section of a struct, and the resizing of structs (struct.utils.ts of
-- src/serialization/pointers).
use capnp_es.Prelude.{
  ℕ, ◌+◌, ◌-◌, ◌*◌, ◌%◌, min, leb, if◌then◌else◌, false, Option, none, some, get_elem?,
}
use capnp_es.Prelude.Int.{pos, uint32_shifted}
use capnp_es.Errors.{ok, ptr_write_const_struct, ptr_depth_limit_exceeded}
use capnp_es.Serialization.Word.{pad_to_word}
use capnp_es.Serialization.ObjectSize.{
  ObjectSize, get_byte_length, get_word_length, get_data_word_length, byte_size,
}
use capnp_es.Serialization.Context.{
  Act, pure, throw, require, ◌>>=◌, ◌>>◌, load, store, fill_zero_words, copy_words, for_each,
}
use capnp_es.Serialization.Pointer.{
  Pointer, default_depth_limit, new_pointer, allocate, is_null, get_capability_id,
  set_struct_pointer,
}
use capnp_es.Serialization.Pointer.Far.{
  follow_fars, is_composite_list, get_content, back_word, init_pointer,
}
use capnp_es.Serialization.Pointer.Erase.{erase}
use capnp_es.Serialization.List.{init_list}
use capnp_es.Serialization.Struct.{
  get_size, check_pointer_bounds, check_read_pointer_bounds, init_struct,
}

unfoldable pub get_pointer_section : Pointer → Act Pointer
get_pointer_section s = do
  ps ← get_content false s
  size ← get_size s
  pure (record ps { byte_offset = ps.byte_offset + pad_to_word size.data_byte_length })

-- `ps.byteOffset += index * 8`, and a pointer there.
unfoldable pub section_at : ℕ → Pointer → Act Pointer
unfolding get_pointer_section
section_at index s = do
  ps ← get_pointer_section s
  new_pointer ps.segment (pos (ps.byte_offset + index * 8)) (s.depth_limit - 1)

-- `getPointer` and `getPointerAs`. `none` is the null pointer of the message that is kept for it, which
-- the constructor refuses at this depth limit.
unfoldable pub get_pointer : ℕ → Pointer → Act (Option Pointer)
unfolding section_at
get_pointer index s = do
  inside ← check_read_pointer_bounds index s
  if inside
      then (do p ← section_at index s; pure (some p))
      else (do require (leb 2 s.depth_limit) ptr_depth_limit_exceeded; pure none)

-- `initList` and, for a list of bytes, `initData`.
unfoldable pub init_list_at : ℕ → ℕ → ℕ → Option ObjectSize → Pointer → Act Pointer
unfolding section_at
init_list_at index element_size length composite_size s = do
  check_pointer_bounds index s
  l ← section_at index s
  erase l
  init_list element_size length l composite_size
  pure l

abbrev pub init_data : ℕ → ℕ → Pointer → Act Pointer
init_data index length s = init_list_at index byte_size length none s

-- `initStructAt`. The null pointer may not be written.
unfoldable pub init_struct_at : ℕ → ObjectSize → Pointer → Act Pointer
unfolding get_pointer
init_struct_at index size p = do
  s ← get_pointer index p
  elim s [ none ↦ throw ptr_write_const_struct | some s ↦ (do init_struct size s; pure s) ]

-- `getInterfaceClientOrNull`, where `none` is the client that `capabilityOrNull` makes of null.
unfoldable pub get_interface_client_or_null : Pointer → Act (Option ℕ)
get_interface_client_or_null p = do
  id ← get_capability_id p
  λ c. elim (get_elem? c.cap_table id) [ none ↦ ok (none, c) | some client ↦ ok (client, c) ]

-- The round of `resize` for a pointer that is not null: a pointer at `dst_offset` to the same content.
unfoldable pub repoint : Pointer → ℕ → ℕ → Act (Unit {0})
repoint src_ptr dst_segment dst_offset = do
  target ← follow_fars src_ptr
  content ← get_content false src_ptr
  dst_ptr ← new_pointer dst_segment (pos dst_offset) default_depth_limit
  composite ← is_composite_list src_ptr
  c ← if composite then back_word content else pure content
  (p, offset_words) ← init_pointer c.segment c.byte_offset dst_ptr
  a ← load 1 target.segment target.byte_offset
  b ← load 4 target.segment (target.byte_offset + 4)
  store 4 p.segment p.byte_offset (a % 4 + uint32_shifted offset_words 4)
  store 4 p.segment (p.byte_offset + 4) b

unfoldable pub resize : ObjectSize → Pointer → Act (Unit {0})
unfolding repoint
resize dst_size s = do
  src_size ← get_size s
  src ← get_content false s
  dst ← allocate s.segment (get_byte_length dst_size)
  copy_words dst.segment dst.byte_offset src.segment src.byte_offset
      (min (get_data_word_length src_size) (get_data_word_length dst_size))
  (p, offset_words) ← init_pointer dst.segment dst.byte_offset s
  set_struct_pointer offset_words dst_size p
  for_each (min src_size.pointer_length dst_size.pointer_length) 0 (λ i. do
    src_ptr ←
        new_pointer src.segment (pos (src.byte_offset + src_size.data_byte_length + i * 8))
          default_depth_limit
    null ← is_null src_ptr
    if null
        then pure tt
        else repoint src_ptr dst.segment (dst.byte_offset + dst_size.data_byte_length + i * 8))
  fill_zero_words src.segment src.byte_offset (get_word_length src_size)
