-- ===== src/Serialization/Pointer/Codec.antt =====
-- The words that the setters of pointers write, and what the getters read of them
-- (src/serialization/pointers/pointer.utils.ts).
use capnp_es.Prelude.{
  ℕ, ◌+◌, ◌-◌, ◌*◌, ◌/◌, ◌%◌, ◌^◌, ◌≤◌, ◌<◌, ◌≡◌, refl, ap, ◌∙◌, ltb, ◌==◌, if◌then◌else◌, Bool,
  true, false, List, ◌++◌, length, arith,
}
use capnp_es.Prelude.Int.{ℤ, pos, negsuc, uint32_shifted}
use capnp_es.Errors.{ok}
use capnp_es.Serialization.Message.{Segment}
use capnp_es.Serialization.ObjectSize.{ObjectSize, get_data_word_length}
use capnp_es.Serialization.Access.{bytes_of}
use capnp_es.Serialization.Access.Store.{length-bytes_of}
use capnp_es.Serialization.Context.{Context, bind, store}
use capnp_es.Serialization.Context.Words.{Open, putting, buffer_of, store_lem, store_more}
use capnp_es.Serialization.Pointer.{
  Pointer, struct_type, list_type, far_type, other_type, offset_words_of, set_far_pointer,
  set_interface_pointer, write_list_pointer, set_struct_pointer,
}

-- The offsets that 30 bits hold.
abbrev pub IsOffset : ℤ → Type 0
IsOffset (pos n) = n < 2 ^ 29
IsOffset (negsuc n) = n < 2 ^ 29

pub offset_words_of_lem :
    (t : ℕ) (z : ℤ) → t < 2 → IsOffset z → offset_words_of (t + uint32_shifted z 4) ≡ z
offset_words_of_lem t (pos n) h k =
    let e : n * 4 % 2 ^ 32 ≡ n * 4 = omega arith in
    let f : ((t + n * 4) / 2 % 2 == 1) ≡ false = ground arith in
    let g : ltb (t + n * 4) (2 ^ 31) ≡ true = ground arith in
    let q : (t + n * 4) / 4 ≡ n = omega arith in rw (e, f, g) (ap pos q)
offset_words_of_lem t (negsuc n) h k =
    let e : (2 ^ 32 - (n + 1) * 4 % 2 ^ 32) % 2 ^ 32 ≡ 2 ^ 32 - (n + 1) * 4 = omega arith in
    let f : ((t + (2 ^ 32 - (n + 1) * 4)) / 2 % 2 == 1) ≡ false = ground arith in
    let g : ltb (t + (2 ^ 32 - (n + 1) * 4)) (2 ^ 31) ≡ false = ground arith in
    let q : (2 ^ 32 - (t + (2 ^ 32 - (n + 1) * 4)) - 1) / 4 ≡ n = omega arith in
    rw (e, f, g) (ap negsuc q)

pub uint32_shifted-bound : (z : ℤ) → IsOffset z → uint32_shifted z 4 + 4 ≤ 2 ^ 32
uint32_shifted-bound (pos n) h = omega arith
uint32_shifted-bound (negsuc n) h = omega arith

pub uint32_shifted-mod : (z : ℤ) → uint32_shifted z 4 % 4 ≡ 0
uint32_shifted-mod (pos n) = omega arith
uint32_shifted-mod (negsuc n) = omega arith

-- The context with eight bytes written at a pointer.
abbrev pub word_put : Context → Segment → Pointer → List ℕ → Context
word_put c s p w = putting c s p.byte_offset w

-- A pointer whose word stands inside a segment that may be written.
pub record Writable (c : Context) (s : Segment) (p : Pointer) : Type 0 where
  pub open_segment : Open c p.segment s
  pub inside : p.byte_offset + 8 ≤ length (buffer_of c s)

abbrev pub two_words : ℕ → ℕ → List ℕ
two_words lo hi = bytes_of 4 lo ++ bytes_of 4 hi

abbrev pub struct_word : ℕ → ℕ → ℕ → List ℕ
struct_word lo words pointers = (bytes_of 4 lo ++ bytes_of 2 words) ++ bytes_of 2 pointers

module _ {c : Context} {s : Segment} {p : Pointer} (at : Writable c s p) where
  store_two :
      (lo hi : ℕ)
      → bind (store 4 p.segment p.byte_offset lo c) (λ _. store 4 p.segment (p.byte_offset + 4) hi)
        ≡ ok (tt, word_put c s p (two_words lo hi))
  store_two lo hi =
      ap (λ r. bind r (λ _. store 4 p.segment (p.byte_offset + 4) hi))
        (store_lem at.open_segment 4 p.byte_offset lo (omega (arith, at.inside)))
      ∙ store_more at.open_segment 4 p.byte_offset 4 hi (bytes_of 4 lo) (length-bytes_of 4 lo)
          (omega (arith, at.inside))

  pub set_struct_pointer_word :
      (z : ℤ) (size : ObjectSize)
      → set_struct_pointer z size p c
        ≡ ok (
          tt,
          word_put c s p (
              struct_word
                (struct_type + uint32_shifted z 4)
                (get_data_word_length size)
                size.pointer_length),
        )
  unfolding set_struct_pointer bytes_of
  set_struct_pointer_word z size =
      let lo : ℕ = struct_type + uint32_shifted z 4 in
      let d : ℕ = get_data_word_length size in
      ap
        (λ r. bind r (λ _ k.
          bind (store 2 p.segment (p.byte_offset + 4) d k)
            (λ _. store 2 p.segment (p.byte_offset + 6) size.pointer_length)))
        (store_lem at.open_segment 4 p.byte_offset lo (omega (arith, at.inside)))
      ∙ ap (λ r. bind r (λ _. store 2 p.segment (p.byte_offset + 6) size.pointer_length))
          (store_more at.open_segment 2 p.byte_offset 4 d (bytes_of 4 lo) refl
            (omega (arith, at.inside)))
      ∙ store_more at.open_segment 2 p.byte_offset 6 size.pointer_length
          (bytes_of 4 lo ++ bytes_of 2 d) refl (omega (arith, at.inside))

  pub write_list_pointer_word :
      (z : ℤ) (size d : ℕ)
      → write_list_pointer z size d p c
        ≡ ok (
          tt,
          word_put c s p (two_words (list_type + uint32_shifted z 4) (size + d * 8 % 2 ^ 32)),
        )
  unfolding write_list_pointer
  write_list_pointer_word z size d =
      store_two (list_type + uint32_shifted z 4) (size + d * 8 % 2 ^ 32)

  pub set_far_pointer_word :
      (double : Bool) (words id : ℕ)
      → set_far_pointer double words id p c
        ≡ ok (
          tt,
          word_put c s p (two_words (far_type + (if double then 4 else 0) + words * 8 % 2 ^ 32) id),
        )
  unfolding set_far_pointer
  set_far_pointer_word double words id =
      store_two (far_type + (if double then 4 else 0) + words * 8 % 2 ^ 32) id

  pub set_interface_pointer_word :
      (cap_id : ℕ)
      → set_interface_pointer cap_id p c ≡ ok (tt, word_put c s p (two_words other_type cap_id))
  unfolding set_interface_pointer
  set_interface_pointer_word cap_id = store_two other_type cap_id
