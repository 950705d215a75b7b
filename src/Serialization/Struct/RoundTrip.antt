-- ===== src/Serialization/Struct/RoundTrip.antt =====
-- What the getters of a struct read behind the setters (struct.utils.ts of src/serialization/pointers).
use capnp_es.Prelude.{
  ℕ, zero, suc, ◌+◌, ◌*◌, ◌^◌, ◌≤◌, ◌<◌, ◌≡◌, ◌⊎◌, inl, inr, refl, ap, ◌∙◌, true, List, length,
  take, drop, Option, none, some, arith,
}
use native.Mathlib.Nat.{pow-succ'}
use capnp_es.Prelude.Slices.{take_self}
use capnp_es.Prelude.Xor.{xor_bits-bound, xor_bits_twice}
use capnp_es.Errors.{ok}
use capnp_es.Serialization.Message.{Segment}
use capnp_es.Serialization.Access.{bytes_of, number_of}
use capnp_es.Serialization.Access.Store.{length-bytes_of, number_of-bytes_of}
use capnp_es.Serialization.Context.{Context, put}
use capnp_es.Serialization.Context.Words.{
  buffer_of, putting, buffer_of-putting, slice-put, slice-put_before, slice-put_behind,
}
use capnp_es.Serialization.Pointer.{Pointer}
use capnp_es.Serialization.Pointer.Target.{spent, Open-spent, StructAt, StructAt-spent}
use capnp_es.Serialization.Struct.Located.{
  check_data_bounds_at, check_read_data_bounds_at, load_field_at, store_field_at, StructAt-putting,
}
use capnp_es.Serialization.Struct.Fields.{Narrow, width_of, masked, load_field, get_bits, set_bits}

-- 256 ^ width
bytes_pow : (width : ℕ) → 2 ^ (8 * width) ≡ 256 ^ width
bytes_pow zero = refl
bytes_pow (suc width) =
    let e : 8 * suc width ≡ suc (suc (suc (suc (suc (suc (suc (suc (8 * width)))))))) =
      omega arith in
    rw
      (
        e,
        pow-succ' 2 (suc (suc (suc (suc (suc (suc (suc (8 * width)))))))),
        pow-succ' 2 (suc (suc (suc (suc (suc (suc (8 * width))))))),
        pow-succ' 2 (suc (suc (suc (suc (suc (8 * width)))))),
        pow-succ' 2 (suc (suc (suc (suc (8 * width))))),
        pow-succ' 2 (suc (suc (suc (8 * width)))),
        pow-succ' 2 (suc (suc (8 * width))),
        pow-succ' 2 (suc (8 * width)),
        pow-succ' 2 (8 * width),
        pow-succ' 256 width,
        bytes_pow width,
      )
      (omega arith)

pub masked-bound :
    (width val : ℕ) (mask : Option ℕ) → val < 2 ^ (8 * width) → masked width mask val < 256 ^ width
masked-bound width val none h = rw (← bytes_pow width) h
masked-bound width val (some d) h = rw (← bytes_pow width) (xor_bits-bound (8 * width) val d)

masked_twice :
    (width val : ℕ) (mask : Option ℕ)
    → val < 2 ^ (8 * width)
    → masked width mask (masked width mask val) ≡ val
masked_twice width val none h = refl
masked_twice width val (some d) h = xor_bits_twice (8 * width) val d h

-- The context after a field was set to the number that is stored.
abbrev pub field_put : Context → Segment → ℕ → ℕ → ℕ → Context
field_put c s o width stored = putting (spent c) s o (bytes_of width stored)

module _ {c : Context} {s : Segment} {p : Pointer} {co words pointers : ℕ}
    (at : StructAt c s p co words pointers) where
  module _ (width o val : ℕ) (limit : 16 < c.traversal_limit) (inside : o + width ≤ words * 8) where
    pub set_bits_at :
        (mask : Option ℕ)
        → set_bits width o val p mask c
          ≡ ok (tt, field_put c s (co + o) width (masked width mask val))
    unfolding set_bits
    set_bits_at mask = rw (
      check_data_bounds_at at o width inside,
      store_field_at at width o (masked width mask val) (omega arith) inside,
    )

    pub StructAt-field_put : StructAt (field_put c s (co + o) width val) s p co words pointers
    StructAt-field_put =
        StructAt-putting (co + o) (bytes_of width val) (StructAt-spent at) (omega arith)
          (omega (arith, length-bytes_of width val))

    -- The number that is stored is loaded.
    pub load_field_put :
        val < 256 ^ width
        → load_field width o p (field_put c s (co + o) width val)
          ≡ ok (val, spent (field_put c s (co + o) width val))
    load_field_put small =
        load_field_at StructAt-field_put width o (omega arith) inside
        ∙ ap (λ n. ok (n, spent (field_put c s (co + o) width val)))
            (ap (λ b. number_of (take width (drop (co + o) b)))
                (buffer_of-putting (Open-spent at.word.open_segment) (co + o) (bytes_of width val))
              ∙ ap number_of (
                  ap (λ k. take width (drop k (put (buffer_of c s) (co + o) (bytes_of width val))))
                    (omega arith)
                  ∙ slice-put (buffer_of c s) (co + o) (bytes_of width val) 0 width
                      (omega (arith, at.holds, at.in_buffer))
                      (omega (arith, length-bytes_of width val))
                  ∙ take_self width (bytes_of width val) (omega (arith, length-bytes_of width val)))
              ∙ number_of-bytes_of width val small)

-- A struct with data in its own segment, in a message that may be written and still be traversed
-- for two pointers: a number of one or two bytes that is set inside the data section is read back,
-- with a default or none. The struct stays where it is, and a slice of bytes of the segment that
-- is apart from the field is as it was.
pub get_bits-set_bits :
    (narrow : Narrow) (o val : ℕ) (mask : Option ℕ) (other n : ℕ) {c : Context} {s : Segment}
    {p : Pointer} {co words pointers : ℕ}
    → StructAt c s p co words pointers
    → 16 < c.traversal_limit
    → o + width_of narrow ≤ words * 8
    → val < 2 ^ (8 * width_of narrow)
    → (other + n ≤ co + o) ⊎ (co + o + width_of narrow ≤ other)
    → (c' : Context) × (set_bits (width_of narrow) o val p mask c ≡ ok (tt, c'))
      × (get_bits narrow o p mask c' ≡ ok (val, spent c'))
      × StructAt c' s p co words pointers
      × (take n (drop other (buffer_of c' s)) ≡ take n (drop other (buffer_of c s)))
unfolding get_bits
get_bits-set_bits narrow o val mask other n {c} {s} {p} {co} {words} {pointers} at limit inside
      small apart =
    let width : ℕ = width_of narrow in
    let stored : ℕ = masked width mask val in
    let bytes : List ℕ = bytes_of width stored in
    let c' : Context = field_put c s (co + o) width stored in
    let at' : StructAt c' s p co words pointers =
      StructAt-field_put at width o stored limit inside in
    let len : length bytes ≡ width = length-bytes_of width stored in
    (
      c',
      set_bits_at at width o val limit inside mask,
      rw
          (
            check_read_data_bounds_at at' o width inside,
            load_field_put at width o stored limit inside (masked-bound width val mask small),
          )
          (ap (λ v. ok (v, spent c')) (masked_twice width val mask small)),
      at',
      ap (λ b. take n (drop other b))
            (buffer_of-putting (Open-spent at.word.open_segment) (co + o) bytes)
          ∙ elim apart [
            | inl before ↦
                slice-put_before (buffer_of c s) (co + o) bytes other n
                  (omega (arith, at.holds, at.in_buffer)) before
            | inr behind ↦
                slice-put_behind (buffer_of c s) (co + o) bytes other n
                  (omega (arith, at.holds, at.in_buffer)) (omega (arith, len, behind))
          ],
    )

-- The same context, with its message made read only.
abbrev pub frozen : Context → Context
frozen c = record c { message = record c.message { readonly = true } }
