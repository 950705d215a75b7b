-- ===== src/Serialization/Pointer/Orphan.antt =====
-- src/serialization/pointers/orphan.ts: a pointer whose content is kept without it, to be adopted by
-- another pointer of the message or disposed of.
use capnp_es.Prelude.{ℕ, ◌+◌, ◌-◌, ◌*◌, ◌==◌, if◌then◌else◌, false, Option, none, some}
use capnp_es.Prelude.Int.{ℤ, pred, rounds_of}
use capnp_es.Errors.{ptr_already_adopted}
use capnp_es.Serialization.ObjectSize.{ObjectSize, get_word_length, composite_size}
use capnp_es.Serialization.Context.{
  Act, pure, throw, reading, ◌>>=◌, ◌>>◌, fill_zero_words, fill_words, for_each,
}
use capnp_es.Serialization.Pointer.{
  Pointer, struct_type, list_type, default_depth_limit, get_capability_id, set_interface_pointer,
  set_list_pointer, set_struct_pointer,
}
use capnp_es.Serialization.Pointer.Far.{
  get_target_pointer_type, get_target_struct_size, get_target_list_element_size,
  get_target_list_length, get_target_composite_list_size, get_content, init_pointer, erase_pointer,
}
use capnp_es.Serialization.Pointer.Lengths.{get_list_byte_length}
use capnp_es.Serialization.Pointer.Erase.{erase, erase_at}

-- `_Orphan`, by the type of the pointer.
pub data Content : Type 0 where
  struct : ObjectSize → Content
  list : ℕ → ℤ → Option ObjectSize → Content
  capability : ℕ → Content

pub record Orphan : Type 0 where
  pub segment : ℕ
  pub byte_offset : ℕ
  pub content : Option Content

unfoldable pub read_content : Pointer → Act Content
read_content src = do
  type ← get_target_pointer_type src
  if type == struct_type
      then (do size ← get_target_struct_size src; pure (struct size))
      else if type == list_type
      then (do
        length ← get_target_list_length src
        element_size ← get_target_list_element_size src
        if element_size == composite_size
            then (do
              size ← get_target_composite_list_size src
              pure (list element_size length (some size)))
            else pure (list element_size length none))
      else (do id ← get_capability_id src; pure (capability id))

-- The constructor, which is also `disown`.
unfoldable pub new_orphan : Pointer → Act Orphan
unfolding read_content
new_orphan src = do
  c ← get_content false src
  content ← read_content src
  erase_pointer src
  pure (record { segment = c.segment; byte_offset = c.byte_offset; content = some content })

-- `_moveTo`, for lists whose length is not negative. The result is the orphan.
abbrev pub write_content : Content → ℤ → Pointer → Act (Unit {0})
write_content (struct size) offset_words p = set_struct_pointer offset_words size p
write_content (list element_size length size) offset_words p =
    set_list_pointer (if element_size == composite_size then pred offset_words else offset_words)
      element_size (rounds_of length) p size
write_content (capability id) offset_words p = set_interface_pointer id p

unfoldable pub move_to : Pointer → Orphan → Act Orphan
move_to dst o = elim o.content [
  | none ↦ throw ptr_already_adopted
  | some content ↦ (do
    erase dst
    (p, offset_words) ← init_pointer o.segment o.byte_offset dst
    write_content content offset_words p
    pure (record o { content = none }))
]

unfoldable pub dispose_content : Content → Orphan → Act (Unit {0})
dispose_content (struct size) o = do
  for_each size.pointer_length 0 (λ i.
      erase_at (default_depth_limit - 1) erase o.segment
        (o.byte_offset + size.data_byte_length + i * 8))
  fill_zero_words o.segment o.byte_offset (get_word_length size)
dispose_content (list element_size length size) o = do
  bytes ← reading (get_list_byte_length element_size (rounds_of length) size)
  fill_words o.segment o.byte_offset bytes
dispose_content (capability id) o = pure tt

-- The length of a list is given to `fillZeroWords` in bytes.
unfoldable pub dispose : Orphan → Act Orphan
unfolding dispose_content
dispose o = elim o.content [
  | none ↦ pure o
  | some content ↦ (do dispose_content content o; pure (record o { content = none }))
]
