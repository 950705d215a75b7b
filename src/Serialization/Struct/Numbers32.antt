-- ===== src/Serialization/Struct/Numbers32.antt =====
-- What the getters of 32 bit numbers of a struct read behind the setters (struct.utils.ts of
-- src/serialization/pointers).
use capnp_es.Prelude.{
  ℕ, ◌+◌, ◌*◌, ◌%◌, ◌^◌, ◌≤◌, ◌<◌, ◌≡◌, ◌↔◌, refl, sym, ap, ◌∙◌, Option, none, some, arith,
}
use capnp_es.Prelude.Int.{ℤ, pos, signed32}
use capnp_es.Prelude.Xor.{
  xor_bits, xor_bits-bound, xor_bits_twice, xor_bits_cancel, to_uint, to_uint-signed32,
}
use capnp_es.Errors.{ok}
use capnp_es.Serialization.Message.{Segment}
use capnp_es.Serialization.Context.{Context}
use capnp_es.Serialization.Context.Words.{}
use capnp_es.Serialization.Pointer.{Pointer}
use capnp_es.Serialization.Pointer.Target.{spent, StructAt}
use capnp_es.Serialization.Struct.Located.{check_read_data_bounds_at}
use capnp_es.Serialization.Struct.Fields.{
  masked, unmask_uint32, set_bits, get_uint32, set_uint32, get_int32, set_int32,
}
use capnp_es.Serialization.Struct.RoundTrip.{
  masked-bound, field_put, set_bits_at, StructAt-field_put, load_field_put,
}

-- The number as it is without a default, and as an int32 with one.
abbrev pub read_with : Option ℕ → ℕ → ℤ
read_with none val = pos val
read_with (some d) val = signed32 val

unmask_uint32-masked :
    (val : ℕ) (mask : Option ℕ)
    → val < 2 ^ 32
    → unmask_uint32 mask (masked 4 mask val) ≡ read_with mask val
unmask_uint32-masked val none h = refl
unmask_uint32-masked val (some d) h = ap signed32 (xor_bits_twice 32 val d h)

-- A struct with data in its own segment, in a message that may be written and still be traversed
-- for two pointers: where `getUint32` reads what `setUint32` wrote inside the data section, it
-- gives the number as it is without a default, and as an int32 with one, so that a number from 2
-- ^ 31 on comes back negative.
pub get_uint32-set_uint32 :
    (o val : ℕ) (mask : Option ℕ) {c : Context} {s : Segment} {p : Pointer} {co words pointers : ℕ}
    → StructAt c s p co words pointers
    → 16 < c.traversal_limit
    → o + 4 ≤ words * 8
    → val < 2 ^ 32
    → (c' : Context) × (set_uint32 o val p mask c ≡ ok (tt, c'))
      × (get_uint32 o p mask c' ≡ ok (read_with mask val, spent c'))
unfolding get_uint32
get_uint32-set_uint32 o val mask {c} {s} {p} {co} {words} {pointers} at limit inside small =
    let stored : ℕ = masked 4 mask val in
    let c' : Context = field_put c s (co + o) 4 stored in
    let at' : StructAt c' s p co words pointers = StructAt-field_put at 4 o stored limit inside in
    (
      c',
      set_bits_at at 4 o val limit inside mask,
      rw
          (
            check_read_data_bounds_at at' o 4 inside,
            load_field_put at 4 o stored limit inside (masked-bound 4 val mask (omega arith)),
          )
          (ap (λ v. ok (v, spent c')) (unmask_uint32-masked val mask small)),
    )

-- A struct with data in its own segment, in a message that may be written and still be traversed
-- for two pointers: where `getInt32` reads what `setInt32` wrote inside the data section with a
-- default of 32 bits, it gives that number if the default is below 2 ^ 16, and another number if
-- it is not.
pub get_int32-set_int32 :
    (o val mask : ℕ) {c : Context} {s : Segment} {p : Pointer} {co words pointers : ℕ}
    → StructAt c s p co words pointers
    → 16 < c.traversal_limit
    → o + 4 ≤ words * 8
    → val < 2 ^ 32
    → mask < 2 ^ 32
    → (c' : Context) × (read : ℤ) × (set_int32 o (signed32 val) p (some mask) c ≡ ok (tt, c'))
      × (get_int32 o p (some mask) c' ≡ ok (read, spent c'))
      × ((read ≡ signed32 val) ↔ (mask < 2 ^ 16))
unfolding get_int32
get_int32-set_int32 o val mask {c} {s} {p} {co} {words} {pointers} at limit inside small
      small_mask =
    let stored : ℕ = xor_bits 32 val mask in
    let c' : Context = field_put c s (co + o) 4 stored in
    let at' : StructAt c' s p co words pointers = StructAt-field_put at 4 o stored limit inside in
    let read : ℕ = xor_bits 32 stored (mask % 2 ^ 16) in
    (
      c',
      signed32 read,
      ap (λ v. set_bits 4 o v p (some mask) c) (to_uint-signed32 val small)
          ∙ set_bits_at at 4 o val limit inside (some mask),
      rw
          (
            check_read_data_bounds_at at' o 4 inside,
            load_field_put at 4 o stored limit inside
                (masked-bound 4 val (some mask) (omega arith)),
          )
          refl,
      (
        (λ e.
            let same : read ≡ val =
              sym (to_uint-signed32 read (xor_bits-bound 32 stored (mask % 2 ^ 16)))
              ∙ ap (to_uint (2 ^ 32)) e
              ∙ to_uint-signed32 val small in
            let low : mask ≡ mask % 2 ^ 16 =
              xor_bits_cancel 32 val mask (mask % 2 ^ 16) small small_mask (omega arith) same in
            omega (arith, low)),
        (λ h.
            let low : mask % 2 ^ 16 ≡ mask = omega arith in
            ap (λ m. signed32 (xor_bits 32 stored m)) low
            ∙ ap signed32 (xor_bits_twice 32 val mask small)),
      ),
    )
