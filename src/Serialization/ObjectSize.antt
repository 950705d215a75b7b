-- ===== src/Serialization/ObjectSize.antt =====
-- src/serialization/object-size.ts and list-element-size.ts: the sizes of structs and list elements.
use capnp_es.Prelude.{ℕ, ◌+◌, ◌*◌, ◌/◌}
use capnp_es.Serialization.Word.{pad_to_word}

pub record ObjectSize : Type 0 where
  pub data_byte_length : ℕ
  pub pointer_length : ℕ

abbrev pub get_byte_length : ObjectSize → ℕ
get_byte_length o = o.data_byte_length + o.pointer_length * 8

-- The sizes in words, of objects whose data are whole words.
abbrev pub get_data_word_length : ObjectSize → ℕ
get_data_word_length o = o.data_byte_length / 8

abbrev pub get_word_length : ObjectSize → ℕ
get_word_length o = o.data_byte_length / 8 + o.pointer_length

abbrev pub pad_object_to_word : ObjectSize → ObjectSize
pad_object_to_word o = record o { data_byte_length = pad_to_word o.data_byte_length }

-- `ListElementSize`, by its values.
abbrev pub void_size : ℕ
void_size = 0

abbrev pub bit_size : ℕ
bit_size = 1

abbrev pub byte_size : ℕ
byte_size = 2

abbrev pub pointer_size : ℕ
pointer_size = 6

abbrev pub composite_size : ℕ
composite_size = 7
