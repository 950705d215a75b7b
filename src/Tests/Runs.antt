-- ===== src/Tests/Runs.antt =====
-- Runs of the code of src/serialization/pointers on a small message.
use capnp_es.Prelude.{
  ℕ, ◌+◌, ◌-◌, ◌^◌, ◌≤◌, ◌<◌, ◌≡◌, ◌↔◌, inl, inr, refl, Bool, true, false, List, [], ◌∷◌, ◌++◌,
  length, take, drop, Option, none, some, arith,
}
use capnp_es.Prelude.Int.{ℤ, pos, negsuc}
use capnp_es.Errors.{Result, ok, err, range_error, ptr_struct_data_out_of_bounds}
use capnp_es.Serialization.Arena.{Buffer, buffer_at}
use capnp_es.Serialization.Message.{Segment, Message}
use capnp_es.Serialization.ObjectSize.{ObjectSize, byte_size, bit_size, composite_size}
use capnp_es.Serialization.Context.{Context, Act, pure, bind, ◌>>=◌, ◌>>◌}
use capnp_es.Serialization.Context.{load}
use capnp_es.Serialization.Access.{bytes_of}
use capnp_es.Serialization.Pointer.{
  Pointer, allocate, struct_type, list_type, far_type, new_pointer, get_pointer_type,
  get_offset_words, get_struct_size, get_list_element_size, get_list_length, get_far_segment_id,
  is_double_far, set_struct_pointer, write_list_pointer, set_far_pointer, is_null,
}
use capnp_es.Serialization.Pointer.Far.{get_content, get_target_struct_size, get_target_list_length}
use capnp_es.Serialization.Pointer.Erase.{erase, erase_to}
use capnp_es.Serialization.Pointer.Orphan.{Orphan, new_orphan, move_to, dispose}
use capnp_es.Serialization.List.Elements.{get_composite, set_composite}
use capnp_es.Serialization.List.{init_list, get_bool, set_bool}
use capnp_es.Serialization.Struct.{init_struct, get_size}
use capnp_es.Serialization.Struct.Fields.{
  two_bytes, get_bits, set_bits, get_uint16, set_uint16, get_uint32, set_uint32, get_int32,
  set_int32, get_uint64, set_uint64, get_bit, set_bit,
}
use capnp_es.Serialization.Struct.Section.{get_pointer, init_data, init_list_at, resize}
use capnp_es.Tests.Pointer.{two_segments}

abbrev value {ℓ} : {A : Type ℓ} {B : Type ℓ} → Result (A × B) → Result A
value (err e) = err e
value (ok (a, c)) = ok a

abbrev first_buffer : {A : Type 0} → Result (A × Context) → Buffer
first_buffer (err e) = []
first_buffer (ok (a, c)) = buffer_at c.message.heap 0

abbrev root : Act Pointer
root = new_pointer 0 (pos 0) 64

abbrev small_size : ObjectSize
small_size = record { data_byte_length = 8; pointer_length = 1 }

abbrev run_int32 : Act ℤ
run_int32 = do
  r ← root
  init_struct small_size r
  set_int32 4 (pos 5) r (some 0x10000)
  get_int32 4 r (some 0x10000)

abbrev run_uint32 : Act ℤ
run_uint32 = do
  r ← root
  init_struct small_size r
  set_uint32 4 (2 ^ 31) r (some 1)
  get_uint32 4 r (some 1)

abbrev run_uint64 : Act ℕ
run_uint64 = do
  r ← root
  init_struct small_size r
  set_uint64 0 (2 ^ 63 + 77) r (some (2 ^ 40 + 3))
  get_uint64 0 r (some (2 ^ 40 + 3))

abbrev run_data : Act (ℤ × Bool)
run_data = do
  r ← root
  init_struct small_size r
  l ← init_data 0 10 r
  n ← get_target_list_length l
  erase r
  z ← is_null r
  pure (n, z)

abbrev run_bits : Act (Bool × Bool)
run_bits = do
  r ← root
  init_list bit_size 10 r none
  set_bool 9 true r
  a ← get_bool 8 r
  b ← get_bool 9 r
  erase r
  pure (a, b)

abbrev run_orphan : Act (ℤ × ObjectSize)
run_orphan = do
  r ← root
  init_struct small_size r
  l ← init_data 0 3 r
  o ← new_orphan l
  o' ← move_to r o
  n ← get_target_list_length r
  pure (n, small_size)

abbrev run_dispose : Act (Unit {0})
run_dispose = do r ← root; init_data' r; o ← new_orphan r; o' ← dispose o; pure tt
  where
    init_data' : Pointer → Act (Unit {0})
    init_data' r = init_list byte_size 16 r none

-- A default of more than 16 bits.
run_int32_example : value (run_int32 two_segments) ≡ ok (pos 65541)
unfolding capnp_es.Serialization.Access.bytes_of capnp_es.Serialization.Access.number_of
    capnp_es.Serialization.Access.view_get capnp_es.Serialization.Access.view_set
    capnp_es.Serialization.Access.get_uint capnp_es.Serialization.Access.set_uint
    capnp_es.Serialization.Context.is_word_zero capnp_es.Serialization.Context.copy_word
    capnp_es.Serialization.Context.track_pointer_allocation
    capnp_es.Serialization.Message.take_bytes capnp_es.Serialization.Message.allocate_in
    capnp_es.Serialization.Pointer.allocate capnp_es.Serialization.Pointer.get_offset_words
    capnp_es.Serialization.Pointer.get_struct_size capnp_es.Serialization.Pointer.is_double_far
    capnp_es.Serialization.Pointer.is_null capnp_es.Serialization.Pointer.set_struct_pointer
    capnp_es.Serialization.Pointer.Far.get_target_struct_size
    capnp_es.Serialization.Pointer.Far.get_target_list_length
    capnp_es.Serialization.Pointer.Far.init_pointer capnp_es.Serialization.Pointer.Erase.erase_to
    capnp_es.Serialization.Struct.check_data_bounds
    capnp_es.Serialization.Struct.check_read_data_bounds capnp_es.Serialization.Struct.init_struct
    capnp_es.Serialization.Struct.Fields.set_bits capnp_es.Serialization.Struct.Fields.get_int32
    capnp_es.Prelude.Xor.xor_bits
run_int32_example = refl

run_uint32_example : value (run_uint32 two_segments) ≡ ok (negsuc (2 ^ 31 - 1))
unfolding capnp_es.Serialization.Access.bytes_of capnp_es.Serialization.Access.number_of
    capnp_es.Serialization.Access.view_get capnp_es.Serialization.Access.view_set
    capnp_es.Serialization.Access.get_uint capnp_es.Serialization.Access.set_uint
    capnp_es.Serialization.Context.is_word_zero capnp_es.Serialization.Context.copy_word
    capnp_es.Serialization.Context.track_pointer_allocation
    capnp_es.Serialization.Message.take_bytes capnp_es.Serialization.Message.allocate_in
    capnp_es.Serialization.Pointer.allocate capnp_es.Serialization.Pointer.get_offset_words
    capnp_es.Serialization.Pointer.get_struct_size capnp_es.Serialization.Pointer.is_double_far
    capnp_es.Serialization.Pointer.is_null capnp_es.Serialization.Pointer.set_struct_pointer
    capnp_es.Serialization.Pointer.Far.get_target_struct_size
    capnp_es.Serialization.Pointer.Far.get_target_list_length
    capnp_es.Serialization.Pointer.Far.init_pointer capnp_es.Serialization.Pointer.Erase.erase_to
    capnp_es.Serialization.Struct.check_data_bounds
    capnp_es.Serialization.Struct.check_read_data_bounds capnp_es.Serialization.Struct.init_struct
    capnp_es.Serialization.Struct.Fields.set_bits capnp_es.Serialization.Struct.Fields.get_uint32
    capnp_es.Prelude.Xor.xor_bits
run_uint32_example = refl

run_uint64_example : value (run_uint64 two_segments) ≡ ok (2 ^ 63 + 77)
unfolding capnp_es.Serialization.Access.bytes_of capnp_es.Serialization.Access.number_of
    capnp_es.Serialization.Access.view_get capnp_es.Serialization.Access.view_set
    capnp_es.Serialization.Access.get_uint capnp_es.Serialization.Access.set_uint
    capnp_es.Serialization.Context.is_word_zero capnp_es.Serialization.Context.copy_word
    capnp_es.Serialization.Context.track_pointer_allocation
    capnp_es.Serialization.Message.take_bytes capnp_es.Serialization.Message.allocate_in
    capnp_es.Serialization.Pointer.allocate capnp_es.Serialization.Pointer.get_offset_words
    capnp_es.Serialization.Pointer.get_struct_size capnp_es.Serialization.Pointer.is_double_far
    capnp_es.Serialization.Pointer.is_null capnp_es.Serialization.Pointer.set_struct_pointer
    capnp_es.Serialization.Pointer.Far.get_target_struct_size
    capnp_es.Serialization.Pointer.Far.get_target_list_length
    capnp_es.Serialization.Pointer.Far.init_pointer capnp_es.Serialization.Pointer.Erase.erase_to
    capnp_es.Serialization.Struct.check_data_bounds
    capnp_es.Serialization.Struct.check_read_data_bounds capnp_es.Serialization.Struct.init_struct
    capnp_es.Serialization.Struct.Fields.get_int64 capnp_es.Serialization.Struct.Fields.set_uint64
    capnp_es.Prelude.Xor.xor_bits
run_uint64_example = refl

run_data_example : value (run_data two_segments) ≡ ok (pos 10, true)
unfolding capnp_es.Serialization.Word.Int32.pad_to_word_int32 capnp_es.Serialization.Access.bytes_of
    capnp_es.Serialization.Access.number_of capnp_es.Serialization.Access.view_get
    capnp_es.Serialization.Access.view_set capnp_es.Serialization.Access.get_uint
    capnp_es.Serialization.Access.set_uint capnp_es.Serialization.Context.is_word_zero
    capnp_es.Serialization.Context.set_word_zero capnp_es.Serialization.Context.fill_zero_words
    capnp_es.Serialization.Context.copy_word capnp_es.Serialization.Context.track_pointer_allocation
    capnp_es.Serialization.Message.take_bytes capnp_es.Serialization.Message.allocate_in
    capnp_es.Serialization.Pointer.allocate capnp_es.Serialization.Pointer.get_offset_words
    capnp_es.Serialization.Pointer.get_struct_size
    capnp_es.Serialization.Pointer.get_list_element_size
    capnp_es.Serialization.Pointer.get_list_length capnp_es.Serialization.Pointer.is_double_far
    capnp_es.Serialization.Pointer.is_null capnp_es.Serialization.Pointer.set_list_pointer
    capnp_es.Serialization.Pointer.set_struct_pointer
    capnp_es.Serialization.Pointer.Far.get_target_struct_size
    capnp_es.Serialization.Pointer.Far.get_target_list_length
    capnp_es.Serialization.Pointer.Far.init_pointer capnp_es.Serialization.Pointer.Far.erase_pointer
    capnp_es.Serialization.Pointer.Lengths.get_list_byte_length
    capnp_es.Serialization.Pointer.Erase.erase_to capnp_es.Serialization.List.init_list
    capnp_es.Serialization.Struct.check_pointer_bounds capnp_es.Serialization.Struct.init_struct
    capnp_es.Serialization.Struct.Section.init_list_at
run_data_example = refl

-- The content of an erased list of bits stays.
run_bits_example : take 4 (drop 8 (first_buffer (run_bits two_segments))) ≡ 0 ∷ 2 ∷ 0 ∷ 0 ∷ []
unfolding capnp_es.Serialization.Access.bytes_of capnp_es.Serialization.Access.number_of
    capnp_es.Serialization.Access.view_get capnp_es.Serialization.Access.view_set
    capnp_es.Serialization.Access.get_uint capnp_es.Serialization.Access.set_uint
    capnp_es.Serialization.Context.is_word_zero capnp_es.Serialization.Context.set_word_zero
    capnp_es.Serialization.Context.fill_zero_words capnp_es.Serialization.Context.copy_word
    capnp_es.Serialization.Context.track_pointer_allocation
    capnp_es.Serialization.Message.take_bytes capnp_es.Serialization.Message.allocate_in
    capnp_es.Serialization.Pointer.allocate capnp_es.Serialization.Pointer.get_offset_words
    capnp_es.Serialization.Pointer.get_list_element_size
    capnp_es.Serialization.Pointer.get_list_length capnp_es.Serialization.Pointer.is_double_far
    capnp_es.Serialization.Pointer.is_null capnp_es.Serialization.Pointer.set_list_pointer
    capnp_es.Serialization.Pointer.Far.get_target_list_length
    capnp_es.Serialization.Pointer.Far.init_pointer capnp_es.Serialization.Pointer.Far.erase_pointer
    capnp_es.Serialization.Pointer.Lengths.get_list_byte_length
    capnp_es.Serialization.Pointer.Erase.erase_to capnp_es.Serialization.List.init_list
    capnp_es.Serialization.List.get_bool capnp_es.Serialization.List.set_bool
run_bits_example = refl

run_orphan_example : value (run_orphan two_segments) ≡ ok (pos 3, small_size)
unfolding capnp_es.Serialization.Access.bytes_of capnp_es.Serialization.Access.number_of
    capnp_es.Serialization.Access.view_get capnp_es.Serialization.Access.view_set
    capnp_es.Serialization.Access.get_uint capnp_es.Serialization.Access.set_uint
    capnp_es.Serialization.Context.is_word_zero capnp_es.Serialization.Context.set_word_zero
    capnp_es.Serialization.Context.fill_zero_words capnp_es.Serialization.Context.copy_word
    capnp_es.Serialization.Context.track_pointer_allocation
    capnp_es.Serialization.Message.take_bytes capnp_es.Serialization.Message.allocate_in
    capnp_es.Serialization.Pointer.allocate capnp_es.Serialization.Pointer.get_offset_words
    capnp_es.Serialization.Pointer.get_struct_size
    capnp_es.Serialization.Pointer.get_list_element_size
    capnp_es.Serialization.Pointer.get_list_length capnp_es.Serialization.Pointer.is_double_far
    capnp_es.Serialization.Pointer.is_null capnp_es.Serialization.Pointer.set_list_pointer
    capnp_es.Serialization.Pointer.set_struct_pointer
    capnp_es.Serialization.Pointer.Far.get_target_struct_size
    capnp_es.Serialization.Pointer.Far.get_target_list_length
    capnp_es.Serialization.Pointer.Far.init_pointer capnp_es.Serialization.Pointer.Far.erase_pointer
    capnp_es.Serialization.Pointer.Lengths.get_list_byte_length
    capnp_es.Serialization.Pointer.Erase.erase_to capnp_es.Serialization.Pointer.Orphan.new_orphan
    capnp_es.Serialization.Pointer.Orphan.move_to capnp_es.Serialization.List.init_list
    capnp_es.Serialization.Struct.check_pointer_bounds capnp_es.Serialization.Struct.init_struct
    capnp_es.Serialization.Struct.Section.init_list_at
run_orphan_example = refl

-- Sixteen bytes are taken for sixteen words.
run_dispose_example : value (run_dispose two_segments) ≡ err range_error
unfolding capnp_es.Serialization.Word.Int32.pad_to_word_int32 capnp_es.Serialization.Access.bytes_of
    capnp_es.Serialization.Access.number_of capnp_es.Serialization.Access.view_get
    capnp_es.Serialization.Access.view_set capnp_es.Serialization.Access.get_uint
    capnp_es.Serialization.Access.set_uint capnp_es.Serialization.Context.set_word_zero
    capnp_es.Serialization.Context.fill_zero_words capnp_es.Serialization.Context.copy_word
    capnp_es.Serialization.Context.track_pointer_allocation
    capnp_es.Serialization.Message.take_bytes capnp_es.Serialization.Message.allocate_in
    capnp_es.Serialization.Pointer.allocate capnp_es.Serialization.Pointer.get_offset_words
    capnp_es.Serialization.Pointer.get_list_element_size
    capnp_es.Serialization.Pointer.get_list_length capnp_es.Serialization.Pointer.is_double_far
    capnp_es.Serialization.Pointer.set_list_pointer
    capnp_es.Serialization.Pointer.Far.get_target_list_length
    capnp_es.Serialization.Pointer.Far.init_pointer capnp_es.Serialization.Pointer.Far.erase_pointer
    capnp_es.Serialization.Pointer.Lengths.get_list_byte_length
    capnp_es.Serialization.Pointer.Orphan.new_orphan capnp_es.Serialization.Pointer.Orphan.dispose
    capnp_es.Serialization.List.init_list
run_dispose_example = refl

-- A list of two structs, whose second element is set to another struct, and its first element read.
abbrev word_size : ObjectSize
word_size = record { data_byte_length = 8; pointer_length = 0 }

abbrev run_set_composite : Act ℕ
run_set_composite = do
  r ← root
  init_list composite_size 2 r (some word_size)
  v ← allocate 0 8
  init_struct word_size v
  set_composite 1 v r
  e ← get_composite 0 r
  get_uint16 0 e none

run_set_composite_example :
    value (run_set_composite two_segments) ≡ err ptr_struct_data_out_of_bounds
unfolding capnp_es.Serialization.Access.bytes_of capnp_es.Serialization.Access.number_of
    capnp_es.Serialization.Access.view_get capnp_es.Serialization.Access.view_set
    capnp_es.Serialization.Access.get_uint capnp_es.Serialization.Access.set_uint
    capnp_es.Serialization.Context.is_word_zero capnp_es.Serialization.Context.set_word_zero
    capnp_es.Serialization.Context.fill_zero_words capnp_es.Serialization.Context.copy_words
    capnp_es.Serialization.Context.copy_word capnp_es.Serialization.Context.track_pointer_allocation
    capnp_es.Serialization.Message.take_bytes capnp_es.Serialization.Message.allocate_in
    capnp_es.Serialization.Pointer.allocate capnp_es.Serialization.Pointer.get_offset_words
    capnp_es.Serialization.Pointer.get_struct_size
    capnp_es.Serialization.Pointer.get_list_element_size
    capnp_es.Serialization.Pointer.is_double_far capnp_es.Serialization.Pointer.is_null
    capnp_es.Serialization.Pointer.set_list_pointer
    capnp_es.Serialization.Pointer.set_struct_pointer
    capnp_es.Serialization.Pointer.Far.get_target_struct_size
    capnp_es.Serialization.Pointer.Far.get_target_list_length
    capnp_es.Serialization.Pointer.Far.init_pointer capnp_es.Serialization.Pointer.Far.erase_pointer
    capnp_es.Serialization.Pointer.Lengths.get_list_element_byte_length
    capnp_es.Serialization.Pointer.Erase.erase_to capnp_es.Serialization.Pointer.Copy.copy_to
    capnp_es.Serialization.List.init_list capnp_es.Serialization.List.Elements.set_composite
    capnp_es.Serialization.Struct.check_read_data_bounds capnp_es.Serialization.Struct.init_struct
    capnp_es.Serialization.Struct.Fields.get_int16
run_set_composite_example = refl
