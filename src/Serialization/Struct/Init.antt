-- ===== src/Serialization/Struct/Init.antt =====
-- `initStruct` of src/serialization/pointers/struct.utils.ts on a null pointer whose segment has room.
use capnp_es.Prelude.{
  ℕ, zero, suc, ◌+◌, ◌-◌, ◌*◌, ◌/◌, ◌%◌, ◌^◌, ◌≤◌, ◌<◌, ◌≡◌, inr, refl, ap, ltb, ◌==◌, true, false,
  List, length, get_elem?, set, Option, none, some, arith,
}
use capnp_es.Prelude.Int.{ℤ, pos, add_scaled, uint32_shifted}
use capnp_es.Errors.{ok}
use capnp_es.Serialization.Word.{pad_to_word}
use capnp_es.Serialization.Arena.{Heap, AnyArena}
use capnp_es.Serialization.Message.{Segment, capacity, has_capacity}
use capnp_es.Serialization.Message.Heaps.{get_elem?-set_same}
use capnp_es.Serialization.Message.Grow.{take_bytes_lem, writable, allocate_in-room}
use capnp_es.Serialization.ObjectSize.{ObjectSize}
use capnp_es.Serialization.Access.{bytes_of}
use capnp_es.Serialization.Context.{Context}
use capnp_es.Serialization.Context.Words.{Open, buffer_of, length-buffer_of-putting}
use capnp_es.Serialization.Pointer.{Pointer, struct_type, default_depth_limit, allocate, is_null}
use capnp_es.Serialization.Pointer.Far.{words_between, init_pointer}
use capnp_es.Serialization.Pointer.Erase.{erase_to}
use capnp_es.Serialization.Pointer.Codec.{
  IsOffset, Writable, word_put, struct_word, set_struct_pointer_word,
}
use capnp_es.Serialization.Pointer.Stored.{Stored-word_put}
use capnp_es.Serialization.Pointer.Target.{plain_pointer, StructAt, new_pointer_lem}
use capnp_es.Serialization.Struct.{reject_element, init_struct}

erase_to-null :
    (n : ℕ) (p : Pointer) (c : Context)
    → 1 ≤ n
    → is_null p c ≡ ok (true, c)
    → erase_to n p c ≡ ok (tt, c)
unfolding erase_to
erase_to-null zero p c h e = absurd (omega arith)
erase_to-null (suc n) p c h e = rw e

-- The offset of content behind the pointer, in words.
words_between_lem :
    (co bo : ℕ)
    → co % 8 ≡ 0
    → bo % 8 ≡ 0
    → bo + 8 ≤ co
    → co < 2 ^ 32
    → IsOffset (words_between co bo) × (add_scaled (bo + 8) 8 (words_between co bo) ≡ pos co)
words_between_lem co bo h k l m =
    let e : ltb (co / 8) (bo / 8 + 1) ≡ false = ground arith in
    let back : bo + 8 + 8 * (co / 8 - (bo / 8 + 1)) ≡ co = omega arith in
    (rw e (omega arith), rw e (ap pos back))

abbrev pub context_of : Heap → AnyArena → List Segment → ℕ → List (Option ℕ) → Context
context_of h a segments limit caps = record {
  message = writable h a segments;
  traversal_limit = limit;
  cap_table = caps;
}

-- The segment with more bytes in use, and the context in which it is.
abbrev pub longer : Segment → ℕ → Segment
longer s n = record s { byte_length = s.byte_length + n }

abbrev allocated : Heap → AnyArena → List Segment → ℕ → List (Option ℕ) → ℕ → Segment → ℕ → Context
allocated h a segments limit caps id s n =
    context_of h a (set segments id (longer s n)) (limit - 8) caps

Open-allocated :
    (h : Heap) (a : AnyArena) (segments : List Segment) (limit : ℕ) (caps : List (Option ℕ))
    (id : ℕ) (s : Segment) (n : ℕ)
    → get_elem? segments id ≡ some s
    → s.buffer < length h
    → Open (allocated h a segments limit caps id s n) id (longer s n)
Open-allocated h a segments limit caps id s n found in_heap = record {
  found = get_elem?-set_same segments id (longer s n) found;
  in_heap = in_heap;
  may_write = refl;
}

-- `allocate` in a segment that has room.
allocate-room :
    (h : Heap) (a : AnyArena) (segments : List Segment) (limit : ℕ) (caps : List (Option ℕ))
    (id : ℕ) (s : Segment) (n : ℕ)
    → get_elem? segments id ≡ some s
    → s.buffer < length h
    → n % 8 ≡ 0
    → n < 2 ^ 31 - 7
    → s.byte_length + n ≤ capacity h s
    → 8 < limit
    → allocate id n (context_of h a segments limit caps)
      ≡ ok (
        plain_pointer id s.byte_length default_depth_limit,
        allocated h a segments limit caps id s n,
      )
unfolding allocate
allocate-room h a segments limit caps id s n found in_heap whole small room traverse =
    let pad : pad_to_word n ≡ n = omega arith in
    let fits : has_capacity h s (pad_to_word n) ≡ true = ground arith in
    let o : Open (context_of h a (set segments id (longer s n)) limit caps) id (longer s n) =
      record {
        found = get_elem?-set_same segments id (longer s n) found;
        in_heap = in_heap;
        may_write = refl;
      } in
    rw (
      allocate,
      allocate_in-room id n h a segments small found fits,
      take_bytes_lem id (pad_to_word n) (writable h a segments) found,
      pad,
      new_pointer_lem s.byte_length default_depth_limit o traverse (omega arith) (omega arith),
    )

-- `initStruct` with some data and sizes of 16 bits, on a null pointer that is no element of a
-- composite list, at a word of a segment that is in use up to a word boundary, has room for the
-- struct behind that and a buffer below 2 ^ 32 bytes, in a message that may be written and still
-- be traversed for a pointer: it succeeds, and the pointer is one to a struct of this size,
-- behind all that was in use.
pub init_struct-StructAt :
    (words pointers : ℕ) (h : Heap) (a : AnyArena) (segments : List Segment) (limit : ℕ)
    (caps : List (Option ℕ)) (p : Pointer) (s : Segment)
    → get_elem? segments p.segment ≡ some s
    → s.buffer < length h
    → is_null p (context_of h a segments limit caps) ≡ ok (true, context_of h a segments limit caps)
    → 1 ≤ p.depth_limit
    → p.composite_index ≡ none
    → p.byte_offset + 8 ≤ s.byte_length
    → p.byte_offset % 8 ≡ 0
    → s.byte_length % 8 ≡ 0
    → 0 < words
    → words < 2 ^ 16
    → pointers < 2 ^ 16
    → s.byte_length + (words + pointers) * 8 ≤ capacity h s
    → capacity h s < 2 ^ 32
    → 8 < limit
    → (c' : Context) × (s' : Segment) × (init_struct
          (record { data_byte_length = words * 8; pointer_length = pointers })
          p
          (context_of h a segments limit caps)
        ≡ ok (tt, c'))
      × StructAt c' s' p s.byte_length words pointers
      × (s'.byte_length ≡ s.byte_length + (words + pointers) * 8)
unfolding init_struct init_pointer bytes_of
init_struct-StructAt words pointers h a segments limit caps p s found in_heap null depth single
      inside even even_s some_data small_words small_pointers room bound traverse =
    let n : ℕ = words * 8 + pointers * 8 in
    let s' : Segment = longer s n in
    let c1 : Context = allocated h a segments limit caps p.segment s n in
    let o : Open c1 p.segment s' =
      Open-allocated h a segments limit caps p.segment s n found in_heap in
    let at : Writable c1 s' p = record { open_segment = o; inside = omega arith } in
    let z : ℤ = words_between s.byte_length p.byte_offset in
    let size : ObjectSize = record { data_byte_length = words * 8; pointer_length = pointers } in
    let whole : words * 8 / 8 ≡ words = omega arith in
    let (is_offset, back) =
      words_between_lem s.byte_length p.byte_offset even_s even inside (omega arith) in
    let word : List ℕ = struct_word (struct_type + uint32_shifted z 4) words pointers in
    let not_element : reject_element p.composite_index (context_of h a segments limit caps)
        ≡ ok (tt, context_of h a segments limit caps) =
      ap (λ i. reject_element i (context_of h a segments limit caps)) single in
    let self : (p.segment == p.segment) ≡ true = ground arith in
    let len : length (buffer_of (word_put c1 s' p word) s') ≡ length (buffer_of c1 s') =
      length-buffer_of-putting o p.byte_offset word (omega arith) in
    (
      word_put c1 s' p word,
      s',
      rw (
        not_element,
        erase_to-null p.depth_limit p (context_of h a segments limit caps) depth null,
        allocate-room h a segments limit caps p.segment s n found in_heap (omega arith)
            (omega arith) (omega arith) traverse,
        self,
        set_struct_pointer_word at z size,
        whole,
      ),
      record {
        offset = z;
        word = Stored-word_put word at refl;
        single = single;
        small_offset = is_offset;
        some_data = some_data;
        small_words = small_words;
        small_pointers = small_pointers;
        in_segment = omega arith;
        in_buffer = omega (arith, len);
        points_to = back;
        holds = omega arith;
        apart = inr inside;
      },
      omega arith,
    )
