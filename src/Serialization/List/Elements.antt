-- ===== src/Serialization/List/Elements.antt =====
-- The elements of the lists of src/serialization/pointers/list, and data.ts and interface.ts. No index is
-- checked against the length of the list.
use capnp_es.Prelude.{
  ℕ, ◌+◌, ◌-◌, ◌*◌, ◌^◌, ◌==◌, if◌then◌else◌, Bool, true, false, List, take, drop, Option, none,
  some, get_elem?,
}
use capnp_es.Prelude.Int.{ℤ, pos, negsuc, rounds_of}
use capnp_es.Prelude.Xor.{signed, to_uint}
use capnp_es.Errors.{ok}
use capnp_es.Serialization.Context.{Act, pure, ◌>>=◌, load, store, segment_of}
use capnp_es.Serialization.Arena.{buffer_at}
use capnp_es.Serialization.Pointer.{Pointer, other_type, new_pointer}
use capnp_es.Serialization.Pointer.Far.{
  get_content, get_target_pointer_type, get_target_list_length,
}
use capnp_es.Serialization.Pointer.Copy.{copy_from}

-- A read and a write of an element of `width` bytes.
unfoldable pub get_element : ℕ → ℕ → Pointer → Act ℕ
get_element width index list = do
  c ← get_content false list
  load width c.segment (c.byte_offset + index * width)

unfoldable pub set_element : ℕ → ℕ → ℕ → Pointer → Act (Unit {0})
set_element width index value list = do
  c ← get_content false list
  store width c.segment (c.byte_offset + index * width) value

-- The `get` and `set` of `Uint8List`, `Uint16List`, `Uint32List` and `Uint64List`; also those of `Data`.
abbrev pub get_uint8_at : ℕ → Pointer → Act ℕ
get_uint8_at = get_element 1

abbrev pub set_uint8_at : ℕ → ℕ → Pointer → Act (Unit {0})
set_uint8_at = set_element 1

abbrev pub get_uint16_at : ℕ → Pointer → Act ℕ
get_uint16_at = get_element 2

abbrev pub set_uint16_at : ℕ → ℕ → Pointer → Act (Unit {0})
set_uint16_at = set_element 2

abbrev pub get_uint32_at : ℕ → Pointer → Act ℕ
get_uint32_at = get_element 4

abbrev pub set_uint32_at : ℕ → ℕ → Pointer → Act (Unit {0})
set_uint32_at = set_element 4

abbrev pub get_uint64_at : ℕ → Pointer → Act ℕ
get_uint64_at = get_element 8

abbrev pub set_uint64_at : ℕ → ℕ → Pointer → Act (Unit {0})
set_uint64_at = set_element 8

-- Those of the lists of signed numbers, where `half` is 2 ^ (8 * width - 1).
abbrev pub get_signed_at : ℕ → ℕ → ℕ → Pointer → Act ℤ
get_signed_at width half index list = do n ← get_element width index list; pure (signed half n)

abbrev pub get_int8_at : ℕ → Pointer → Act ℤ
get_int8_at = get_signed_at 1 (2 ^ 7)

abbrev pub set_int8_at : ℕ → ℤ → Pointer → Act (Unit {0})
set_int8_at index value = set_element 1 index (to_uint (2 ^ 8) value)

abbrev pub get_int16_at : ℕ → Pointer → Act ℤ
get_int16_at = get_signed_at 2 (2 ^ 15)

abbrev pub set_int16_at : ℕ → ℤ → Pointer → Act (Unit {0})
set_int16_at index value = set_element 2 index (to_uint (2 ^ 16) value)

abbrev pub get_int32_at : ℕ → Pointer → Act ℤ
get_int32_at = get_signed_at 4 (2 ^ 31)

abbrev pub set_int32_at : ℕ → ℤ → Pointer → Act (Unit {0})
set_int32_at index value = set_element 4 index (to_uint (2 ^ 32) value)

abbrev pub get_int64_at : ℕ → Pointer → Act ℤ
get_int64_at = get_signed_at 8 (2 ^ 63)

abbrev pub set_int64_at : ℕ → ℤ → Pointer → Act (Unit {0})
set_int64_at index value = set_element 8 index (to_uint (2 ^ 64) value)

-- An element of a composite list is the pointer of the list with an index.
unfoldable pub get_composite : ℕ → Pointer → Act Pointer
get_composite index list = do
  p ← new_pointer list.segment (pos list.byte_offset) (list.depth_limit - 1)
  pure (record p { composite_index = some index; composite_list = true })

unfoldable pub set_composite : ℕ → Pointer → Pointer → Act (Unit {0})
unfolding get_composite
set_composite index value list = do p ← get_composite index list; copy_from value p

unfoldable pub get_pointer_at : ℕ → Pointer → Act Pointer
get_pointer_at index list = do
  c ← get_content false list
  new_pointer c.segment (pos (c.byte_offset + index * 8)) (list.depth_limit - 1)

unfoldable pub set_pointer_at : ℕ → Pointer → Pointer → Act (Unit {0})
unfolding get_pointer_at
set_pointer_at index value list = do p ← get_pointer_at index list; copy_from value p

-- `Data.toArrayBuffer`
unfoldable pub to_array_buffer : Pointer → Act (List ℕ)
to_array_buffer data_list = do
  c ← get_content false data_list
  length ← get_target_list_length data_list
  s ← segment_of c.segment
  λ k. ok (take (rounds_of length) (drop c.byte_offset (buffer_at k.message.heap s.buffer)), k)

-- `isInterface`, `getAsInterface`, `getCapID` and `getClient` of interface.ts. The id is -1 for any word
-- whose low half is not exactly that of a capability.
unfoldable pub is_interface : Pointer → Act Bool
is_interface p = do type ← get_target_pointer_type p; pure (type == other_type)

unfoldable pub get_as_interface : Pointer → Act (Option Pointer)
get_as_interface p = do
  type ← get_target_pointer_type p
  if type == other_type
      then (do i ← new_pointer p.segment (pos p.byte_offset) p.depth_limit; pure (some i))
      else pure none

unfoldable pub get_cap_id : Pointer → Act ℤ
get_cap_id i = do
  type ← load 4 i.segment i.byte_offset
  if type == other_type
      then (do id ← load 4 i.segment (i.byte_offset + 4); pure (pos id))
      else pure (negsuc 0)

-- The outer `none` is undefined, or null if there is no table.
abbrev pub client_of : ℤ → List (Option ℕ) → Option (Option ℕ)
client_of (pos id) table = get_elem? table id
client_of (negsuc n) table = none

unfoldable pub get_client : Pointer → Act (Option (Option ℕ))
unfolding get_cap_id
get_client i = do id ← get_cap_id i; λ c. ok (client_of id c.cap_table, c)
