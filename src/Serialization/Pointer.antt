-- ===== src/Serialization/Pointer.antt =====
-- src/serialization/pointers/pointer.ts, and the reading and writing of pointer words in
-- pointer.utils.ts. A pointer names its segment by the id.
pub mod Far
pub mod Codec
pub mod Stored
pub mod RoundTrip
pub mod Target
pub mod Lengths
pub mod Erase
pub mod Copy
pub mod Orphan
use capnp_es.Prelude.{
  ℕ, ◌+◌, ◌-◌, ◌*◌, ◌/◌, ◌%◌, ◌^◌, ltb, leb, ◌==◌, if◌then◌else◌, Bool, true, false, Option, none,
  some, get_elem?,
}
use capnp_es.Prelude.Int.{ℤ, pos, negsuc, signed32, sub_ℕ, shift_down, uint32_shifted}
use capnp_es.Errors.{
  ok, err, ptr_depth_limit_exceeded, ptr_offset_out_of_bounds, type_composite_size_undefined,
}
use capnp_es.Serialization.Message.{Segment, Message, allocate_in}
use capnp_es.Serialization.ObjectSize.{
  ObjectSize, get_data_word_length, get_word_length, composite_size,
}
use capnp_es.Serialization.Context.{
  Context, Act, pure, throw, require, ◌>>=◌, ◌>>◌, segment_of, load, store, is_word_zero,
  track_pointer_allocation,
}

-- The values of `PointerType`.
abbrev pub struct_type : ℕ
struct_type = 0

abbrev pub list_type : ℕ
list_type = 1

abbrev pub far_type : ℕ
far_type = 2

abbrev pub other_type : ℕ
other_type = 3

abbrev pub default_depth_limit : ℕ
default_depth_limit = 64

pub record Pointer : Type 0 where
  pub segment : ℕ
  pub byte_offset : ℕ
  pub depth_limit : ℕ
  pub composite_index : Option ℕ
  pub composite_list : Bool

-- The end of the constructor: the check of the offset.
unfoldable pub pointer_at : ℕ → ℤ → ℕ → Act Pointer
pointer_at id (negsuc n) depth_limit = throw ptr_offset_out_of_bounds
pointer_at id (pos byte_offset) depth_limit = do
  s ← segment_of id
  require (leb byte_offset s.byte_length) ptr_offset_out_of_bounds
  pure (record {
    segment = id;
    byte_offset = byte_offset;
    depth_limit = depth_limit;
    composite_index = none;
    composite_list = false;
  })

-- The constructor. (A depth limit of 0 stands for those below it too.)
unfoldable pub new_pointer : ℕ → ℤ → ℕ → Act Pointer
unfolding pointer_at
new_pointer id byte_offset depth_limit = do
  require (leb 1 depth_limit) ptr_depth_limit_exceeded
  track_pointer_allocation
  pointer_at id byte_offset depth_limit

-- `Segment.allocate`, with the pointer that it returns.
unfoldable pub allocate : ℕ → ℕ → Act Pointer
unfolding new_pointer
allocate id byte_length c = elim (allocate_in id byte_length c.message) [
  | err e ↦ err e
  | ok ((id', byte_offset), m) ↦
      new_pointer id' (pos byte_offset) default_depth_limit (record c { message = m })
]

unfoldable pub get_pointer_type : Pointer → Act ℕ
get_pointer_type p = do w ← load 4 p.segment p.byte_offset; pure (w % 4)

-- `o & 2 ? o >> 3 : o >> 2` for the int32 `o` with the bits `w`.
abbrev pub offset_words_of : ℕ → ℤ
offset_words_of w = if w / 2 % 2 == 1 then shift_down (signed32 w) 8 else shift_down (signed32 w) 4

unfoldable pub get_offset_words : Pointer → Act ℤ
get_offset_words p = do w ← load 4 p.segment p.byte_offset; pure (offset_words_of w)

unfoldable pub get_struct_data_words : Pointer → Act ℕ
get_struct_data_words p = load 2 p.segment (p.byte_offset + 4)

unfoldable pub get_struct_pointer_length : Pointer → Act ℕ
get_struct_pointer_length p = load 2 p.segment (p.byte_offset + 6)

unfoldable pub get_struct_size : Pointer → Act ObjectSize
unfolding get_struct_data_words get_struct_pointer_length
get_struct_size p = do
  d ← get_struct_data_words p
  n ← get_struct_pointer_length p
  pure (record { data_byte_length = d * 8; pointer_length = n })

unfoldable pub get_list_element_size : Pointer → Act ℕ
get_list_element_size p = do w ← load 4 p.segment (p.byte_offset + 4); pure (w % 8)

unfoldable pub get_list_length : Pointer → Act ℕ
get_list_length p = do w ← load 4 p.segment (p.byte_offset + 4); pure (w / 8)

-- `getFarSegmentId`, and the same code under the names `getCapabilityId` and `getInterfacePointer`.
unfoldable pub get_far_segment_id : Pointer → Act ℕ
get_far_segment_id p = load 4 p.segment (p.byte_offset + 4)

abbrev pub get_capability_id : Pointer → Act ℕ
get_capability_id p = get_far_segment_id p

unfoldable pub is_double_far : Pointer → Act Bool
unfolding get_pointer_type
is_double_far p = do
  t ← get_pointer_type p
  if t == far_type
      then (do w ← load 4 p.segment p.byte_offset; pure (w / 4 % 2 == 1))
      else pure false

unfoldable pub is_null : Pointer → Act Bool
is_null p = do
  s ← segment_of p.segment
  require (leb (p.byte_offset + 8) s.byte_length) ptr_offset_out_of_bounds
  is_word_zero p.segment p.byte_offset

unfoldable pub set_far_pointer : Bool → ℕ → ℕ → Pointer → Act (Unit {0})
set_far_pointer double_far offset_words segment_id p = do
  store 4 p.segment p.byte_offset
      (far_type + (if double_far then 4 else 0) + offset_words * 8 % 2 ^ 32)
  store 4 p.segment (p.byte_offset + 4) segment_id

unfoldable pub set_interface_pointer : ℕ → Pointer → Act (Unit {0})
set_interface_pointer cap_id p = do
  store 4 p.segment p.byte_offset other_type
  store 4 p.segment (p.byte_offset + 4) cap_id

-- The two words of a list pointer, for a length `d` in elements, or in words if it is composite.
unfoldable pub write_list_pointer : ℤ → ℕ → ℕ → Pointer → Act (Unit {0})
write_list_pointer offset_words size d p = do
  store 4 p.segment p.byte_offset (list_type + uint32_shifted offset_words 4)
  store 4 p.segment (p.byte_offset + 4) (size + d * 8 % 2 ^ 32)

unfoldable pub set_list_pointer : ℤ → ℕ → ℕ → Pointer → Option ObjectSize → Act (Unit {0})
unfolding write_list_pointer
set_list_pointer offset_words size length p none =
    if size == composite_size
    then throw type_composite_size_undefined
    else write_list_pointer offset_words size length p
set_list_pointer offset_words size length p (some o) =
    write_list_pointer offset_words size
      (if size == composite_size then length * get_word_length o else length) p

unfoldable pub set_struct_pointer : ℤ → ObjectSize → Pointer → Act (Unit {0})
set_struct_pointer offset_words size p = do
  store 4 p.segment p.byte_offset (struct_type + uint32_shifted offset_words 4)
  store 2 p.segment (p.byte_offset + 4) (get_data_word_length size)
  store 2 p.segment (p.byte_offset + 6) size.pointer_length
