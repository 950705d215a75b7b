-- ===== src/Serialization/Pointer/Stored.antt =====
-- What the getters of a pointer read of a known word (src/serialization/pointers/pointer.utils.ts).
use capnp_es.Prelude.{
  ℕ, ◌+◌, ◌*◌, ◌/◌, ◌%◌, ◌^◌, ◌≤◌, ◌<◌, ◌≡◌, ◌≢◌, ne→==_false, refl, ap, ◌∙◌, ◌==◌, ◌||◌, leb,
  if◌then◌else◌, Bool, true, false, List, ◌++◌, length, take, drop, arith,
}
use capnp_es.Prelude.Slices.{take_self}
use capnp_es.Errors.{ok, ptr_offset_out_of_bounds}
use capnp_es.Serialization.Message.{Segment}
use capnp_es.Serialization.Access.{bytes_of, number_of}
use capnp_es.Serialization.Access.Store.{number_of-bytes_of}
use capnp_es.Serialization.Context.{Context, Act, pure, bind, require, load, put, is_word_zero}
use capnp_es.Serialization.Context.Words.{
  Open, buffer_of, load_slice, Open-putting, buffer_of-putting, length-buffer_of-putting, slice-put,
  segment_of_lem,
}
use capnp_es.Serialization.Pointer.{
  Pointer, far_type, offset_words_of, get_pointer_type, get_offset_words, get_struct_data_words,
  get_struct_pointer_length, get_struct_size, get_list_element_size, get_list_length,
  get_far_segment_id, is_double_far, is_null,
}
use capnp_es.Serialization.Pointer.Codec.{Writable, word_put, two_words, struct_word}

-- A number with `words` in the third 16 bits.
abbrev middle : ℕ → ℕ → ℕ → ℕ
middle lo words pointers = lo + 2 ^ 32 * words + 2 ^ 48 * pointers

middle_ne_zero : (lo words pointers : ℕ) → 0 < words → middle lo words pointers ≢ 0
middle_ne_zero lo words pointers h e = omega arith

middle_ne_top :
    (lo words pointers : ℕ)
    → lo < 2 ^ 32
    → 0 < words
    → words < 2 ^ 16
    → middle lo words pointers ≢ 2 ^ 63
middle_ne_top lo words pointers h k l e = omega arith

either_way :
    {c : Context} {v : Bool} (b : Bool) (m : Act Bool)
    → m c ≡ ok (v, c)
    → (if b then m else pure false) c ≡ ok ((if b then v else false), c)
either_way true m h = h
either_way false m h = refl

-- The word of a pointer.
pub record Stored (c : Context) (s : Segment) (p : Pointer) (word : List ℕ) : Type 0 where
  pub open_segment : Open c p.segment s
  pub inside : p.byte_offset + 8 ≤ length (buffer_of c s)
  pub eight : length word ≡ 8
  pub stored : take (length word) (drop p.byte_offset (buffer_of c s)) ≡ word

pub Stored-word_put :
    {c : Context} {s : Segment} {p : Pointer} (word : List ℕ)
    → Writable c s p
    → length word ≡ 8
    → Stored (word_put c s p word) s p word
Stored-word_put {c} {s} {p} word at e = record {
  open_segment = Open-putting at.open_segment p.byte_offset word;
  inside = omega (
    arith,
    length-buffer_of-putting at.open_segment p.byte_offset word (omega (arith, e, at.inside)),
    at.inside,
  );
  eight = e;
  stored =
      ap (λ b. take (length word) (drop p.byte_offset b))
        (buffer_of-putting at.open_segment p.byte_offset word)
      ∙ ap (λ o. take (length word) (drop o (put (buffer_of c s) p.byte_offset word))) (omega arith)
      ∙ slice-put (buffer_of c s) p.byte_offset word 0 (length word) (omega (arith, at.inside))
          (omega arith)
      ∙ take_self (length word) word (omega arith);
}

module _ {c : Context} {s : Segment} {p : Pointer} (lo : ℕ) (hi : List ℕ)
    (at : Stored c s p (bytes_of 4 lo ++ hi)) (small : lo < 2 ^ 32) where
  pub load_low : load 4 p.segment p.byte_offset c ≡ ok (lo, c)
  unfolding bytes_of
  load_low =
      let z : p.byte_offset ≡ p.byte_offset + 0 = omega arith in
      ap (λ o. load 4 p.segment o c) z
      ∙ load_slice at.open_segment 4 p.byte_offset 0 (bytes_of 4 lo ++ hi) at.stored (omega arith)
          (omega (arith, at.eight, at.inside))
      ∙ ap (λ n. ok (n, c)) (number_of-bytes_of 4 lo (omega arith))

  pub get_pointer_type_word : get_pointer_type p c ≡ ok (lo % 4, c)
  unfolding get_pointer_type
  get_pointer_type_word = ap (λ r. bind r (λ w c. ok (w % 4, c))) load_low

  pub get_offset_words_word : get_offset_words p c ≡ ok (offset_words_of lo, c)
  unfolding get_offset_words
  get_offset_words_word = ap (λ r. bind r (λ w c. ok (offset_words_of w, c))) load_low

  pub is_double_far_word :
      is_double_far p c ≡ ok ((if lo % 4 == far_type then lo / 4 % 2 == 1 else false), c)
  unfolding is_double_far get_pointer_type
  is_double_far_word =
      let m : Act Bool =
        λ c. bind (load 4 p.segment p.byte_offset c) (λ w c. ok (w / 4 % 2 == 1, c)) in
      ap (λ r. bind r (λ t c. (if t == far_type then m else pure false) c)) get_pointer_type_word
      ∙ either_way (lo % 4 == far_type) m
          (ap (λ r. bind r (λ w c. ok (w / 4 % 2 == 1, c))) load_low)

module _ {c : Context} {s : Segment} {p : Pointer} (lo hi : ℕ) (at : Stored c s p (two_words lo hi))
    (small : hi < 2 ^ 32) where
  load_high : load 4 p.segment (p.byte_offset + 4) c ≡ ok (hi, c)
  unfolding bytes_of
  load_high =
      load_slice at.open_segment 4 p.byte_offset 4 (two_words lo hi) at.stored (omega arith)
        (omega (arith, at.inside))
      ∙ ap (λ n. ok (n, c)) (number_of-bytes_of 4 hi (omega arith))

  pub get_list_element_size_word : get_list_element_size p c ≡ ok (hi % 8, c)
  unfolding get_list_element_size
  get_list_element_size_word = ap (λ r. bind r (λ w c. ok (w % 8, c))) load_high

  pub get_list_length_word : get_list_length p c ≡ ok (hi / 8, c)
  unfolding get_list_length
  get_list_length_word = ap (λ r. bind r (λ w c. ok (w / 8, c))) load_high

  pub get_far_segment_id_word : get_far_segment_id p c ≡ ok (hi, c)
  unfolding get_far_segment_id
  get_far_segment_id_word = load_high

module _ {c : Context} {s : Segment} {p : Pointer} (lo words pointers : ℕ)
    (at : Stored c s p (struct_word lo words pointers)) where
  pub get_struct_size_word :
      words < 2 ^ 16
      → pointers < 2 ^ 16
      → get_struct_size p c
        ≡ ok (record { data_byte_length = words * 8; pointer_length = pointers }, c)
  unfolding get_struct_size get_struct_data_words get_struct_pointer_length bytes_of
  get_struct_size_word h k =
      let word : List ℕ = struct_word lo words pointers in
      ap
        (λ r. bind r (λ d c.
          bind (load 2 p.segment (p.byte_offset + 6) c)
            (λ n c. ok (record { data_byte_length = d * 8; pointer_length = n }, c))))
        (load_slice at.open_segment 2 p.byte_offset 4 word at.stored (omega arith)
            (omega (arith, at.inside))
          ∙ ap (λ n. ok (n, c)) (number_of-bytes_of 2 words (omega arith)))
      ∙ ap
          (λ r. bind r (λ n c. ok (record { data_byte_length = words * 8; pointer_length = n }, c)))
          (load_slice at.open_segment 2 p.byte_offset 6 word at.stored (omega arith)
              (omega (arith, at.inside))
            ∙ ap (λ n. ok (n, c)) (number_of-bytes_of 2 pointers (omega arith)))

  -- A struct with data is not null.
  pub is_null_word :
      p.byte_offset + 8 ≤ s.byte_length → 0 < words → words < 2 ^ 16 → is_null p c ≡ ok (false, c)
  unfolding is_null is_word_zero bytes_of number_of
  is_null_word h k l =
      let word : List ℕ = struct_word lo words pointers in
      let n : ℕ = number_of word in
      let z : p.byte_offset ≡ p.byte_offset + 0 = omega arith in
      let i : leb (p.byte_offset + 8) s.byte_length ≡ true = ground arith in
      let e : number_of word
          ≡ middle (number_of (bytes_of 4 lo)) words (number_of (bytes_of 2 pointers)) =
        omega arith in
      let small : number_of (bytes_of 4 lo) < 2 ^ 32 = omega arith in
      let t : (n == 0) ≡ false = ne→==_false n 0 (rw e (middle_ne_zero _ words _ k)) in
      let t' : (n == 2 ^ 63) ≡ false =
        ne→==_false n (2 ^ 63) (rw e (middle_ne_top _ words _ small k l)) in
      ap
        (λ r. bind r (λ s c.
          bind (require (leb (p.byte_offset + 8) s.byte_length) ptr_offset_out_of_bounds c) (λ _ c.
            bind (load 8 p.segment p.byte_offset c) (λ w c. ok (w == 0 || w == 2 ^ 63, c)))))
        (segment_of_lem at.open_segment)
      ∙ ap
          (λ b.
            bind (require b ptr_offset_out_of_bounds c) (λ _ c.
              bind (load 8 p.segment p.byte_offset c) (λ w c. ok (w == 0 || w == 2 ^ 63, c))))
          i
      ∙ ap (λ r. bind r (λ w c. ok (w == 0 || w == 2 ^ 63, c)))
          (ap (λ o. load 8 p.segment o c) z
            ∙ load_slice at.open_segment 8 p.byte_offset 0 word at.stored (omega arith)
                (omega (arith, at.inside)))
      ∙ ap (λ b. ok (b, c)) (rw (t, t') refl)
