-- ===== src/Serialization/Pointer/RoundTrip.antt =====
-- What the getters of a pointer read behind the setters
-- (src/serialization/pointers/pointer.utils.ts).
use capnp_es.Prelude.{
  ℕ, ◌+◌, ◌*◌, ◌/◌, ◌%◌, ◌^◌, ◌<◌, ◌≡◌, refl, ap, ◌∙◌, ◌==◌, if◌then◌else◌, Bool, true, false, List,
  ◌++◌, length, arith,
}
use capnp_es.Prelude.Int.{ℤ, uint32_shifted}
use capnp_es.Errors.{ok}
use capnp_es.Serialization.Message.{Segment}
use capnp_es.Serialization.ObjectSize.{ObjectSize}
use capnp_es.Serialization.Access.{bytes_of}
use capnp_es.Serialization.Context.{Context, load}
use capnp_es.Serialization.Pointer.Codec.{
  IsOffset, offset_words_of_lem, uint32_shifted-bound, uint32_shifted-mod, Writable, word_put,
  two_words, struct_word, set_struct_pointer_word, write_list_pointer_word, set_far_pointer_word,
}
use capnp_es.Serialization.Pointer.Stored.{
  Stored, Stored-word_put, load_low, get_pointer_type_word, get_offset_words_word,
  get_struct_size_word, get_list_element_size_word, get_list_length_word, get_far_segment_id_word,
  is_double_far_word,
}
use capnp_es.Serialization.Pointer.{
  Pointer, struct_type, list_type, far_type, get_pointer_type, get_offset_words, get_struct_size,
  get_list_element_size, get_list_length, get_far_segment_id, is_double_far, set_far_pointer,
  write_list_pointer, set_struct_pointer,
}

-- After `setStructPointer`, on a pointer whose word lies in the buffer of a segment of a message
-- that may be written, with an offset of 30 bits, whole words of data and sizes of 16 bits, the
-- pointer is a struct pointer, and its offset and size are read as they were given. Eight bytes
-- were written, at the pointer, and nothing else changed.
pub get_struct_size-set_struct_pointer :
    (z : ℤ) (words pointers : ℕ) (p : Pointer) (c : Context) (s : Segment)
    → Writable c s p
    → IsOffset z
    → words < 2 ^ 16
    → pointers < 2 ^ 16
    → (c' : Context) × (word : List ℕ) × (set_struct_pointer z
          (record { data_byte_length = words * 8; pointer_length = pointers })
          p
          c
        ≡ ok (tt, c'))
      × (c' ≡ word_put c s p word)
      × (length word ≡ 8)
      × (get_pointer_type p c' ≡ ok (struct_type, c'))
      × (get_offset_words p c' ≡ ok (z, c'))
      × (get_struct_size p c'
          ≡ ok (record { data_byte_length = words * 8; pointer_length = pointers }, c'))
unfolding bytes_of
get_struct_size-set_struct_pointer z words pointers p c s at h hw hp =
    let lo : ℕ = struct_type + uint32_shifted z 4 in
    let hi : List ℕ = bytes_of 2 words ++ bytes_of 2 pointers in
    let small : lo < 2 ^ 32 = omega (arith, uint32_shifted-bound z h) in
    let word : List ℕ = struct_word lo words pointers in
    let c' : Context = word_put c s p word in
    let there : Stored c' s p word = Stored-word_put word at refl in
    let size : ObjectSize = record { data_byte_length = words * 8; pointer_length = pointers } in
    let whole : words * 8 / 8 ≡ words = omega arith in
    (
      c',
      word,
      set_struct_pointer_word at z size
          ∙ ap (λ d. ok (tt, word_put c s p (struct_word lo d pointers))) whole,
      refl,
      refl,
      get_pointer_type_word lo hi there small
          ∙ ap (λ t. ok (t, c')) (omega (arith, uint32_shifted-mod z)),
      get_offset_words_word lo hi there small
          ∙ ap (λ o. ok (o, c')) (offset_words_of_lem 0 z (omega arith) h),
      get_struct_size_word lo words pointers there hw hp,
    )

-- After the writes of `setListPointer`, on a pointer whose word lies in the buffer of a segment
-- of a message that may be written, with an offset of 30 bits, an element size of 3 bits and a
-- length of 29 bits, the pointer is a list pointer, and its offset, element size and length are
-- read as they were given. Eight bytes were written, at the pointer, and nothing else changed.
pub get_list_length-write_list_pointer :
    (z : ℤ) (size d : ℕ) (p : Pointer) (c : Context) (s : Segment)
    → Writable c s p
    → IsOffset z
    → size < 8
    → d < 2 ^ 29
    → (c' : Context) × (word : List ℕ) × (write_list_pointer z size d p c ≡ ok (tt, c'))
      × (c' ≡ word_put c s p word)
      × (length word ≡ 8)
      × (get_pointer_type p c' ≡ ok (list_type, c'))
      × (get_offset_words p c' ≡ ok (z, c'))
      × (get_list_element_size p c' ≡ ok (size, c'))
      × (get_list_length p c' ≡ ok (d, c'))
unfolding bytes_of
get_list_length-write_list_pointer z size d p c s at h hs hd =
    let lo : ℕ = list_type + uint32_shifted z 4 in
    let hi : ℕ = size + d * 8 % 2 ^ 32 in
    let small : lo < 2 ^ 32 = omega (arith, uint32_shifted-bound z h) in
    let small' : hi < 2 ^ 32 = omega arith in
    let c' : Context = word_put c s p (two_words lo hi) in
    let there : Stored c' s p (two_words lo hi) = Stored-word_put (two_words lo hi) at refl in
    (
      c',
      two_words lo hi,
      write_list_pointer_word at z size d,
      refl,
      refl,
      get_pointer_type_word lo (bytes_of 4 hi) there small
          ∙ ap (λ t. ok (t, c')) (omega (arith, uint32_shifted-mod z)),
      get_offset_words_word lo (bytes_of 4 hi) there small
          ∙ ap (λ o. ok (o, c')) (offset_words_of_lem 1 z (omega arith) h),
      get_list_element_size_word lo hi there small' ∙ ap (λ n. ok (n, c')) (omega arith),
      get_list_length_word lo hi there small' ∙ ap (λ n. ok (n, c')) (omega arith),
    )

far_low :
    (double : Bool) (words : ℕ)
    → words < 2 ^ 29
    → let lo : ℕ = far_type + (if double then 4 else 0) + words * 8 % 2 ^ 32 in
      (lo < 2 ^ 32)
      × (lo % 4 ≡ far_type)
      × (lo ≡ far_type + (if double then 4 else 0) + words * 8)
      × ((if lo % 4 == far_type then lo / 4 % 2 == 1 else false) ≡ double)
far_low true words h = (omega arith, omega arith, omega arith, ground arith)
far_low false words h = (omega arith, omega arith, omega arith, ground arith)

-- After `setFarPointer`, on a pointer whose word lies in the buffer of a segment of a message
-- that may be written, with an offset of 29 bits and a segment id of 32 bits, the pointer is a
-- far pointer, a double one if that was asked for, and its segment id and offset are in its word.
-- Eight bytes were written, at the pointer, and nothing else changed.
pub is_double_far-set_far_pointer :
    (double : Bool) (words id : ℕ) (p : Pointer) (c : Context) (s : Segment)
    → Writable c s p
    → words < 2 ^ 29
    → id < 2 ^ 32
    → (c' : Context) × (word : List ℕ) × (set_far_pointer double words id p c ≡ ok (tt, c'))
      × (c' ≡ word_put c s p word)
      × (length word ≡ 8)
      × (get_pointer_type p c' ≡ ok (far_type, c'))
      × (is_double_far p c' ≡ ok (double, c'))
      × (get_far_segment_id p c' ≡ ok (id, c'))
      × (load 4 p.segment p.byte_offset c'
          ≡ ok (far_type + (if double then 4 else 0) + words * 8, c'))
unfolding bytes_of
is_double_far-set_far_pointer double words id p c s at hw hi =
    let lo : ℕ = far_type + (if double then 4 else 0) + words * 8 % 2 ^ 32 in
    let (small, type, same, is_double) = far_low double words hw in
    let c' : Context = word_put c s p (two_words lo id) in
    let there : Stored c' s p (two_words lo id) = Stored-word_put (two_words lo id) at refl in
    (
      c',
      two_words lo id,
      set_far_pointer_word at double words id,
      refl,
      refl,
      get_pointer_type_word lo (bytes_of 4 id) there small ∙ ap (λ t. ok (t, c')) type,
      is_double_far_word lo (bytes_of 4 id) there small ∙ ap (λ b. ok (b, c')) is_double,
      get_far_segment_id_word lo id there hi,
      load_low lo (bytes_of 4 id) there small ∙ ap (λ n. ok (n, c')) same,
    )
