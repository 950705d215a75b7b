-- ===== src/Serialization/Struct/Located.antt =====
-- The checks and accesses of a struct in its own segment (struct.utils.ts of src/serialization/pointers).
use capnp_es.Prelude.{
  ℕ, ◌+◌, ◌*◌, ◌≤◌, ◌<◌, ◌≡◌, inl, inr, ap, ◌∙◌, not, leb, if◌then◌else◌, true, false, List, length,
  take, drop, arith,
}
use capnp_es.Errors.{ok, err, ptr_write_const_struct, ptr_struct_data_out_of_bounds}
use capnp_es.Serialization.Message.{Segment}
use capnp_es.Serialization.Access.{bytes_of, number_of}
use capnp_es.Serialization.Context.{Context, pure, bind, ◌>>◌, require}
use capnp_es.Serialization.Context.Words.{
  Open, buffer_of, putting, load_lem, store_lem, Open-putting, buffer_of-putting,
  length-buffer_of-putting, slice-put_before, slice-put_behind,
}
use capnp_es.Serialization.Pointer.{Pointer}
use capnp_es.Serialization.Pointer.Target.{
  spent, Open-spent, StructAt, is_null_at, get_target_struct_size_at, get_content_at,
}
use capnp_es.Serialization.Struct.{
  size_at, check_write, get_size, throw_data_bounds, check_data_bounds, check_read_data_bounds,
}
use capnp_es.Serialization.Struct.Fields.{load_field, store_field}

module _ {c : Context} {s : Segment} {p : Pointer} {co words pointers : ℕ}
    (at : StructAt c s p co words pointers) where
  pub get_size_at :
      get_size p c ≡ ok (record { data_byte_length = words * 8; pointer_length = pointers }, c)
  unfolding get_size
  get_size_at =
      rw (is_null_at at) (ap (λ i. size_at i p c) at.single ∙ get_target_struct_size_at at)

  pub check_data_bounds_at : (o n : ℕ) → o + n ≤ words * 8 → check_data_bounds o n p c ≡ ok (tt, c)
  unfolding check_data_bounds throw_data_bounds
  check_data_bounds_at o n h =
      let e : leb (o + n) (words * 8) ≡ true = ground arith in
      let w : check_write c ≡ ok (tt, c) =
        ap (λ b. require (not b) ptr_write_const_struct c) at.word.open_segment.may_write in
      rw (w, get_size_at, e)

  pub check_read_data_bounds_at :
      (o n : ℕ) → o + n ≤ words * 8 → check_read_data_bounds o n p c ≡ ok (true, c)
  unfolding check_read_data_bounds
  check_read_data_bounds_at o n h =
      let e : leb (o + n) (words * 8) ≡ true = ground arith in rw (get_size_at, e)

  throw_data_bounds_outside :
      (o n : ℕ) → words * 8 < o + n → throw_data_bounds o n p c ≡ err ptr_struct_data_out_of_bounds
  unfolding throw_data_bounds
  throw_data_bounds_outside o n h =
      let e : leb (o + n) (words * 8) ≡ false = ground arith in rw (get_size_at, e)

  pub check_read_data_bounds_outside :
      (o n : ℕ)
      → words * 8 < o + n
      → check_read_data_bounds o n p c ≡ err ptr_struct_data_out_of_bounds
  unfolding check_read_data_bounds
  check_read_data_bounds_outside o n h =
      let e : leb (o + n) (words * 8) ≡ false = ground arith in
      rw (get_size_at, e)
        (ap (λ b. (if b then pure false else (throw_data_bounds o n p >> pure false)) c)
            at.word.open_segment.may_write
          ∙ ap (λ r. bind r (λ _. pure false)) (throw_data_bounds_outside o n h))

  -- A field inside the data section.
  pub load_field_at :
      (width o : ℕ)
      → 8 < c.traversal_limit
      → o + width ≤ words * 8
      → load_field width o p c
        ≡ ok (number_of (take width (drop (co + o) (buffer_of c s))), spent c)
  unfolding load_field
  load_field_at width o h i = rw (
    get_content_at at h,
    load_lem (Open-spent at.word.open_segment) width (co + o)
        (omega (arith, at.holds, at.in_buffer)),
  )

  pub store_field_at :
      (width o val : ℕ)
      → 8 < c.traversal_limit
      → o + width ≤ words * 8
      → store_field width o val p c ≡ ok (tt, putting (spent c) s (co + o) (bytes_of width val))
  unfolding store_field
  store_field_at width o val h i = rw (
    get_content_at at h,
    store_lem (Open-spent at.word.open_segment) width (co + o) val
        (omega (arith, at.holds, at.in_buffer)),
  )

-- A write to the content leaves the pointer as it was.
pub StructAt-putting :
    {c : Context} {s : Segment} {p : Pointer} {co words pointers : ℕ} (o : ℕ) (bytes : List ℕ)
    → StructAt c s p co words pointers
    → co ≤ o
    → o + length bytes ≤ co + (words + pointers) * 8
    → StructAt (putting c s o bytes) s p co words pointers
unfolding bytes_of
StructAt-putting {c} {s} {p} {co} {words} {pointers} o bytes at h k =
    let oc : Open c p.segment s = at.word.open_segment in
    let fits : o + length bytes ≤ length (buffer_of c s) = omega (arith, at.holds, at.in_buffer) in
    let same : length (buffer_of (putting c s o bytes) s) ≡ length (buffer_of c s) =
      length-buffer_of-putting oc o bytes fits in
    record {
      offset = at.offset;
      word = record {
        open_segment = Open-putting oc o bytes;
        inside = omega (arith, same, at.word.inside);
        eight = at.word.eight;
        stored =
            ap (λ b. take 8 (drop p.byte_offset b)) (buffer_of-putting oc o bytes)
            ∙ elim at.apart [
              | inl before ↦
                  slice-put_behind (buffer_of c s) o bytes p.byte_offset 8 (omega arith)
                    (omega (arith, before))
              | inr behind ↦
                  slice-put_before (buffer_of c s) o bytes p.byte_offset 8 (omega arith)
                    (omega (arith, behind))
            ]
            ∙ at.word.stored;
      };
      single = at.single;
      small_offset = at.small_offset;
      some_data = at.some_data;
      small_words = at.small_words;
      small_pointers = at.small_pointers;
      in_segment = at.in_segment;
      in_buffer = omega (arith, same, at.in_buffer);
      points_to = at.points_to;
      holds = at.holds;
      apart = at.apart;
    }
