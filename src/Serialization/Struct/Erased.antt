-- ===== src/Serialization/Struct/Erased.antt =====
-- `erase` of src/serialization/pointers/pointer.utils.ts on a struct without pointers.
use capnp_es.Prelude.{
  ℕ, zero, suc, ◌+◌, ◌*◌, ◌/◌, ◌%◌, ◌^◌, ◌≤◌, ◌<◌, ◌≡◌, inl, inr, refl, ap, ◌∙◌, not, leb, ◌==◌,
  ◌||◌, true, List, length, length-replicate, take, drop, replicate, arith,
}
use capnp_es.Prelude.Slices.{take_self}
use capnp_es.Errors.{ok, guard, ptr_write_const_struct}
use capnp_es.Serialization.Arena.{Buffer}
use capnp_es.Serialization.Message.{Segment}
use capnp_es.Serialization.Access.{bytes_of, number_of}
use capnp_es.Serialization.Context.{
  Context, Act, bind, reading, put, load, set_word_zero, is_word_zero, fill_zero_words,
}
use capnp_es.Serialization.Context.Words.{
  Open, buffer_of, putting, segment_of_lem, load_slice, store_lem, buffer_of-putting, slice-put,
  slice-put_before, slice-put_behind,
}
use capnp_es.Serialization.Pointer.{Pointer, is_null}
use capnp_es.Serialization.Pointer.Far.{erase_pointer}
use capnp_es.Serialization.Pointer.Erase.{erase, erase_to, erase_struct, erase_content}
use capnp_es.Serialization.Pointer.Codec.{Writable}
use capnp_es.Serialization.Pointer.Stored.{Stored, Stored-word_put}
use capnp_es.Serialization.Pointer.Target.{
  spent, Open-spent, StructAt, StructAt-spent, get_pointer_type_at, get_target_pointer_type_near,
  get_target_struct_size_at, is_null_at, get_content_at,
}
use capnp_es.Serialization.Struct.Located.{StructAt-putting}

fill_zero_words_lem :
    {c : Context} {id : ℕ} {s : Segment} (o words : ℕ)
    → Open c id s
    → o % 8 ≡ 0
    → o + words * 8 ≤ length (buffer_of c s)
    → fill_zero_words id o words c ≡ ok (tt, putting c s o (replicate (words * 8) 0))
unfolding fill_zero_words
fill_zero_words_lem {c} {id} {s} o words at even inside =
    let w : reading (guard (not c.message.readonly) ptr_write_const_struct) c ≡ ok (tt, c) =
      ap (λ b. reading (guard (not b) ptr_write_const_struct) c) at.may_write in
    let e : (o % 8 == 0) ≡ true = ground arith in
    let i : leb (o + words * 8) (length (buffer_of c s)) ≡ true = ground arith in
    rw (segment_of_lem at, w, e, i)

-- The words of the data, zeroed.
abbrev zeroed : Context → Segment → ℕ → ℕ → Context
zeroed c s co words = putting (spent c) s co (replicate (words * 8) 0)

module _ {c : Context} {s : Segment} {p : Pointer} {co words : ℕ} (at : StructAt c s p co words 0)
    (limit : 8 < c.traversal_limit) (even : co % 8 ≡ 0) where
  erase_struct_at :
      (depth : ℕ) (erase_child : Pointer → Act (Unit {0}))
      → erase_struct depth erase_child p c ≡ ok (tt, zeroed c s co words)
  unfolding erase_struct
  erase_struct_at depth erase_child =
      let whole : words * 8 / 8 ≡ words = omega arith in
      rw (
        get_target_struct_size_at at,
        get_content_at at limit,
        whole,
        fill_zero_words_lem co words (Open-spent at.word.open_segment) even
            (omega (arith, at.holds, at.in_buffer)),
      )

  StructAt-zeroed : StructAt (zeroed c s co words) s p co words 0
  StructAt-zeroed =
      StructAt-putting co (replicate (words * 8) 0) (StructAt-spent at) (omega arith)
        (omega (arith, length-replicate {A = ℕ} (words * 8) 0))

  -- What `erase` leaves.
  erased : Context
  erased = putting (zeroed c s co words) s p.byte_offset (bytes_of 8 0)

  erase_pointer_at : erase_pointer p (zeroed c s co words) ≡ ok (tt, erased)
  unfolding erase_pointer set_word_zero erased
  erase_pointer_at = rw (
    get_pointer_type_at StructAt-zeroed,
    store_lem StructAt-zeroed.word.open_segment 8 p.byte_offset 0 StructAt-zeroed.word.inside,
  )

  erase_to_at : (n : ℕ) → 1 ≤ n → erase_to n p c ≡ ok (tt, erased)
  unfolding erase_to erase_content
  erase_to_at zero h = absurd (omega arith)
  erase_to_at (suc depth) h = rw (
    is_null_at at,
    get_target_pointer_type_near p c (get_pointer_type_at at),
    erase_struct_at depth (erase_to depth),
    erase_pointer_at,
  )

  writable : Writable (zeroed c s co words) s p
  writable = record {
    open_segment = StructAt-zeroed.word.open_segment;
    inside = StructAt-zeroed.word.inside;
  }

  is_null-erased : is_null p erased ≡ ok (true, erased)
  unfolding is_null is_word_zero erased bytes_of number_of
  is_null-erased =
      let w : Stored erased s p (bytes_of 8 0) = Stored-word_put (bytes_of 8 0) writable refl in
      let i : leb (p.byte_offset + 8) s.byte_length ≡ true = ground (arith, at.in_segment) in
      let z : p.byte_offset ≡ p.byte_offset + 0 = omega arith in
      rw (segment_of_lem w.open_segment, i)
        (ap (λ r. bind r (λ n c. ok (n == 0 || n == 2 ^ 63, c)))
          (ap (λ o. load 8 p.segment o erased) z
            ∙ load_slice w.open_segment 8 p.byte_offset 0 (bytes_of 8 0) w.stored (omega arith)
                (omega (arith, w.inside))))

  data_zeroed :
      take (words * 8) (drop co (buffer_of (zeroed c s co words) s)) ≡ replicate (words * 8) 0
  data_zeroed =
      let zeros : List ℕ = replicate (words * 8) 0 in
      let len : length zeros ≡ words * 8 = length-replicate {A = ℕ} (words * 8) 0 in
      let z : co ≡ co + 0 = omega arith in
      ap (λ b. take (words * 8) (drop co b))
        (buffer_of-putting (Open-spent at.word.open_segment) co zeros)
      ∙ ap (λ o. take (words * 8) (drop o (put (buffer_of c s) co zeros))) z
      ∙ slice-put (buffer_of c s) co zeros 0 (words * 8) (omega (arith, at.holds, at.in_buffer))
          (omega (arith, len))
      ∙ take_self (words * 8) zeros (omega (arith, len))

  data_erased : take (words * 8) (drop co (buffer_of erased s)) ≡ replicate (words * 8) 0
  unfolding erased bytes_of
  data_erased =
      let b : Buffer = buffer_of (zeroed c s co words) s in
      let inside : p.byte_offset + 8 ≤ length b = StructAt-zeroed.word.inside in
      ap (λ l. take (words * 8) (drop co l))
        (buffer_of-putting StructAt-zeroed.word.open_segment p.byte_offset (bytes_of 8 0))
      ∙ elim at.apart [
        | inl before ↦
            slice-put_before b p.byte_offset (bytes_of 8 0) co (words * 8) (omega arith)
              (omega (arith, before))
        | inr behind ↦
            slice-put_behind b p.byte_offset (bytes_of 8 0) co (words * 8) (omega arith) behind
      ]
      ∙ data_zeroed

-- `erase` on a struct at a word of its own segment with data and no pointers, in a message that
-- may be written and still be traversed for a pointer: it succeeds, the pointer is null and all
-- bytes of the data are 0.
pub erase-StructAt :
    {c : Context} {s : Segment} {p : Pointer} {co words : ℕ}
    → StructAt c s p co words 0
    → 8 < c.traversal_limit
    → co % 8 ≡ 0
    → 1 ≤ p.depth_limit
    → (c' : Context) × (erase p c ≡ ok (tt, c'))
      × (is_null p c' ≡ ok (true, c'))
      × (take (words * 8) (drop co (buffer_of c' s)) ≡ replicate (words * 8) 0)
unfolding erased
erase-StructAt {c} {s} {p} {co} {words} at limit even depth = (
  erased at limit even,
  erase_to_at at limit even p.depth_limit depth,
  is_null-erased at limit even,
  data_erased at limit even,
)
