-- ===== src/Serialization/Pointer/Lengths.antt =====
-- The space that lists take, and the check of a pointer's type (pointer.utils.ts of
-- src/serialization/pointers).
use capnp_es.Prelude.{ℕ, ◌+◌, ◌*◌, ◌/◌, ◌==◌, if◌then◌else◌, Option, none, some, [], ◌∷◌, get_elem?}
use capnp_es.Prelude.Int.{ℤ, pos, add_scaled}
use capnp_es.Errors.{
  Result, ok, err, ptr_invalid_list_size, ptr_wrong_pointer_type, ptr_wrong_list_type,
}
use capnp_es.Serialization.Word.{pad_to_word}
use capnp_es.Serialization.Word.Int32.{pad_to_word_int32}
use capnp_es.Serialization.ObjectSize.{ObjectSize, get_byte_length, bit_size, composite_size}
use capnp_es.Serialization.Context.{Act, pure, require, ◌>>=◌, ◌>>◌}
use capnp_es.Serialization.Pointer.{Pointer, is_null, get_pointer_type, get_list_element_size}
use capnp_es.Serialization.Pointer.Far.{follow_fars}

-- `none` is NaN.
unfoldable pub get_list_element_byte_length : ℕ → Result (Option ℕ)
get_list_element_byte_length size =
    elim (get_elem? {A = Option ℕ}
      (some 0 ∷ none ∷ some 1 ∷ some 2 ∷ some 4 ∷ some 8 ∷ some 8 ∷ none ∷ []) size) [
        | none ↦ err ptr_invalid_list_size
        | some width ↦ ok width
      ]

-- `padToWord(x * length)`, which is 0 if `x` is NaN.
abbrev pub padded_bytes : Option ℕ → ℕ → ℤ
padded_bytes none length = pos 0
padded_bytes (some width) length = pad_to_word_int32 (width * length)

-- `length * padToWord(getByteLength(compositeSize))`
abbrev pub composite_byte_length : ℤ → ObjectSize → ℤ
composite_byte_length length size = add_scaled 0 (pad_to_word (get_byte_length size)) length

-- For lengths below 2 ^ 32 - 7.
unfoldable pub get_list_byte_length : ℕ → ℕ → Option ObjectSize → Result ℤ
unfolding get_list_element_byte_length
get_list_byte_length size length composite =
    if size == bit_size
    then ok (pos (pad_to_word ((length + 7) / 8)))
    else if size == composite_size
    then elim composite [
      | none ↦ err ptr_invalid_list_size
      | some o ↦ ok (composite_byte_length (pos length) o)
    ]
    else elim (get_list_element_byte_length size) [
      | err e ↦ err e
      | ok width ↦ ok (padded_bytes width length)
    ]

-- The check of the element size, for a list pointer whose size is given.
abbrev pub validate_size : Option ℕ → Pointer → Act (Unit {0})
validate_size none t = pure tt
validate_size (some size) t = do
  found ← get_list_element_size t
  require (found == size) ptr_wrong_list_type

unfoldable pub validate : ℕ → Pointer → Option ℕ → Act (Unit {0})
validate pointer_type p element_size = do
  null ← is_null p
  if null then pure tt else (do
    t ← follow_fars p
    found ← get_pointer_type t
    require (found == pointer_type) ptr_wrong_pointer_type
    validate_size element_size t)
