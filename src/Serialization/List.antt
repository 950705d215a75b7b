-- ===== src/Serialization/List.antt =====
-- src/serialization/pointers/list/list.ts (`initList`) and bool-list.ts.
pub mod Methods
pub mod Elements
use capnp_es.Prelude.{
  ℕ, ◌+◌, ◌-◌, ◌*◌, ◌/◌, ◌%◌, ◌^◌, ◌==◌, if◌then◌else◌, Bool, false, Option, none, some,
}
use capnp_es.Prelude.Int.{pos}
use capnp_es.Errors.{ptr_invalid_list_size, ptr_composite_size_undefined}
use capnp_es.Serialization.ObjectSize.{
  ObjectSize, get_byte_length, pad_object_to_word, void_size, bit_size, composite_size,
}
use capnp_es.Serialization.Context.{Act, pure, throw, reading, ◌>>=◌, ◌>>◌, load, store}
use capnp_es.Serialization.Pointer.{Pointer, allocate, set_list_pointer, set_struct_pointer}
use capnp_es.Serialization.Pointer.Far.{get_content, init_pointer}
use capnp_es.Serialization.Pointer.Lengths.{get_list_element_byte_length}

-- The end of `initList`.
abbrev pub point_to : ℕ → ℕ → Pointer → Pointer → Option ObjectSize → Act (Unit {0})
point_to size length list c composite = do
  (p, offset_words) ← init_pointer c.segment c.byte_offset list
  set_list_pointer offset_words size length p composite

unfoldable pub init_composite_list : ℕ → Pointer → Option ObjectSize → Act (Unit {0})
init_composite_list length list none = throw ptr_composite_size_undefined
init_composite_list length list (some o) = do
  c ← allocate list.segment (get_byte_length (pad_object_to_word o) * length + 8)
  set_struct_pointer (pos length) (pad_object_to_word o) c
  point_to composite_size length list c (some (pad_object_to_word o))

-- A list of elements of whole bytes. (`none`, which is NaN, stands for no such size.)
unfoldable pub init_byte_list : ℕ → Option ℕ → ℕ → Pointer → Option ObjectSize → Act (Unit {0})
init_byte_list size none length list composite = throw ptr_invalid_list_size
init_byte_list size (some width) length list composite = do
  c ← allocate list.segment (length * width)
  point_to size length list c composite

unfoldable pub init_list : ℕ → ℕ → Pointer → Option ObjectSize → Act (Unit {0})
unfolding init_composite_list init_byte_list
init_list size length list composite =
    if size == void_size
    then set_list_pointer (pos 0) size length list none
    else if size == bit_size
    then (do c ← allocate list.segment ((length + 7) / 8); point_to size length list c composite)
    else if size == composite_size
    then init_composite_list length list composite
    else (do
      width ← reading (get_list_element_byte_length size)
      init_byte_list size width length list composite)

-- `BoolList.get` and `BoolList.set`. Neither checks the index against the length of the list.
abbrev pub bit_at : ℕ → ℕ → Bool
bit_at byte i = byte / 2 ^ i % 2 == 1

-- `byte | 1 << i` and `byte & ~(1 << i)`
abbrev pub with_bit : ℕ → ℕ → Bool → ℕ
with_bit byte i value = byte - byte / 2 ^ i % 2 * 2 ^ i + (if value then 2 ^ i else 0)

unfoldable pub get_bool : ℕ → Pointer → Act Bool
get_bool index list = do
  c ← get_content false list
  v ← load 1 c.segment (c.byte_offset + index / 8)
  pure (bit_at v (index % 8))

unfoldable pub set_bool : ℕ → Bool → Pointer → Act (Unit {0})
set_bool index value list = do
  c ← get_content false list
  v ← load 1 c.segment (c.byte_offset + index / 8)
  store 1 c.segment (c.byte_offset + index / 8) (with_bit v (index % 8) value)
