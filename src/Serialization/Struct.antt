-- ===== src/Serialization/Struct.antt =====
-- src/serialization/pointers/struct.utils.ts: the size of a struct, the checks of its bounds and its
-- fields. Offsets and indices are not negative here. A default is the number in the mask, and `none`
-- no mask.
pub mod Fields
pub mod Section
pub mod Located
pub mod RoundTrip
pub mod Numbers32
pub mod Init
pub mod Erased
use capnp_es.Prelude.{
  ℕ, ◌+◌, ◌-◌, ◌*◌, ◌/◌, ◌%◌, ◌^◌, leb, ltb, not, ◌==◌, if◌then◌else◌, Bool, true, false, Option,
  none, some,
}
use capnp_es.Errors.{
  ok, err, ptr_write_const_struct, ptr_struct_data_out_of_bounds, ptr_struct_pointer_out_of_bounds,
  ptr_init_composite_struct,
}
use capnp_es.Serialization.Word.{pad_to_word}
use capnp_es.Serialization.ObjectSize.{ObjectSize, get_byte_length}
use capnp_es.Serialization.Context.{Act, pure, throw, require, ◌>>=◌, ◌>>◌}
use capnp_es.Serialization.Pointer.{Pointer, allocate, is_null, get_struct_size, set_struct_pointer}
use capnp_es.Serialization.Pointer.Far.{
  get_target_struct_size, get_content, back_word, init_pointer,
}
use capnp_es.Serialization.Pointer.Erase.{erase}

abbrev pub is_read_only : Act Bool
is_read_only c = ok (c.message.readonly, c)

abbrev pub check_write : Act (Unit {0})
check_write c = require (not c.message.readonly) ptr_write_const_struct c

abbrev pub empty_object_size : ObjectSize
empty_object_size = record { data_byte_length = 0; pointer_length = 0 }

-- For a struct in a composite list the size is in the tag word.
abbrev pub size_at : Option ℕ → Pointer → Act ObjectSize
size_at none s = get_target_struct_size s
size_at (some i) s = do c ← get_content true s; tag ← back_word c; get_struct_size tag

unfoldable pub get_size : Pointer → Act ObjectSize
get_size s = do
  null ← is_null s
  if null then pure empty_object_size else size_at s.composite_index s

unfoldable pub throw_data_bounds : ℕ → ℕ → Pointer → Act (Unit {0})
unfolding get_size
throw_data_bounds byte_offset byte_length s = do
  size ← get_size s
  require (leb (byte_offset + byte_length) size.data_byte_length) ptr_struct_data_out_of_bounds

unfoldable pub check_data_bounds : ℕ → ℕ → Pointer → Act (Unit {0})
unfolding throw_data_bounds
check_data_bounds byte_offset byte_length s =
    check_write >> throw_data_bounds byte_offset byte_length s

-- Outside the struct: `false` in a message that is read only, and an error otherwise.
unfoldable pub check_read_data_bounds : ℕ → ℕ → Pointer → Act Bool
unfolding throw_data_bounds
check_read_data_bounds byte_offset byte_length s = do
  size ← get_size s
  read_only ← is_read_only
  if leb (byte_offset + byte_length) size.data_byte_length
      then pure true
      else if read_only
      then pure false
      else (do throw_data_bounds byte_offset byte_length s; pure false)

unfoldable pub throw_pointer_bounds : ℕ → Pointer → Act (Unit {0})
unfolding get_size
throw_pointer_bounds index s = do
  size ← get_size s
  require (ltb index size.pointer_length) ptr_struct_pointer_out_of_bounds

unfoldable pub check_pointer_bounds : ℕ → Pointer → Act (Unit {0})
unfolding throw_pointer_bounds
check_pointer_bounds index s = check_write >> throw_pointer_bounds index s

unfoldable pub check_read_pointer_bounds : ℕ → Pointer → Act Bool
unfolding throw_pointer_bounds
check_read_pointer_bounds index s = do
  size ← get_size s
  read_only ← is_read_only
  if ltb index size.pointer_length
      then pure true
      else if read_only
      then pure false
      else (do throw_pointer_bounds index s; pure false)

-- `if (s._capnp.compositeIndex !== undefined) throw …`
abbrev pub reject_element : Option ℕ → Act (Unit {0})
reject_element none = pure tt
reject_element (some i) = throw ptr_init_composite_struct

-- `initStruct`
unfoldable pub init_struct : ObjectSize → Pointer → Act (Unit {0})
init_struct size s = do
  reject_element s.composite_index
  erase s
  c ← allocate s.segment (get_byte_length size)
  (p, offset_words) ← init_pointer c.segment c.byte_offset s
  set_struct_pointer offset_words size p
