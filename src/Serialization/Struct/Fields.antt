-- ===== src/Serialization/Struct/Fields.antt =====
-- The getters and setters of the numbers and bits of a struct (struct.utils.ts of
-- src/serialization/pointers). The masks hold the default, and are xored with what is stored.
use capnp_es.Prelude.{
  ℕ, ◌+◌, ◌*◌, ◌/◌, ◌%◌, ◌^◌, not, if◌then◌else◌, Bool, false, Option, none, some,
}
use capnp_es.Prelude.Int.{ℤ, pos, signed32}
use capnp_es.Prelude.Xor.{xor_bits, signed, to_uint}
use capnp_es.Serialization.Context.{Act, pure, ◌>>=◌, ◌>>◌, load, store}
use capnp_es.Serialization.List.{bit_at, with_bit}
use capnp_es.Serialization.Pointer.{Pointer}
use capnp_es.Serialization.Pointer.Far.{get_content}
use capnp_es.Serialization.Struct.{check_data_bounds, check_read_data_bounds}

-- `getDataSection`
abbrev pub get_data_section : Pointer → Act Pointer
get_data_section s = get_content false s

-- `defaultMask === undefined ? 0 : the default`
abbrev pub default_of : Option ℕ → ℕ
default_of none = 0
default_of (some d) = d

-- `value ^ mask`, in as many bits as the field has.
abbrev pub masked : ℕ → Option ℕ → ℕ → ℕ
masked width none value = value
masked width (some mask) value = xor_bits (8 * width) value mask

-- A read of `width` bytes at an offset, and a write.
unfoldable pub load_field : ℕ → ℕ → Pointer → Act ℕ
load_field width byte_offset s = do
  ds ← get_data_section s
  load width ds.segment (ds.byte_offset + byte_offset)

unfoldable pub store_field : ℕ → ℕ → ℕ → Pointer → Act (Unit {0})
store_field width byte_offset value s = do
  ds ← get_data_section s
  store width ds.segment (ds.byte_offset + byte_offset) value

-- The widths whose getters have one form; those of 32 bits and more have their own.
pub data Narrow : Type 0 where
  one_byte two_bytes : Narrow

abbrev pub width_of : Narrow → ℕ
width_of one_byte = 1
width_of two_bytes = 2

-- The bits of a field, as `getUint8`, `getUint16` and the signed getters of this width read them.
unfoldable pub get_bits : Narrow → ℕ → Pointer → Option ℕ → Act ℕ
unfolding load_field
get_bits narrow byte_offset s mask = do
  let width = width_of narrow
  inside ← check_read_data_bounds byte_offset width s
  if inside
      then (do v ← load_field width byte_offset s; pure (masked width mask v))
      else pure (default_of mask)

unfoldable pub set_bits : ℕ → ℕ → ℕ → Pointer → Option ℕ → Act (Unit {0})
unfolding store_field
set_bits width byte_offset value s mask = do
  check_data_bounds byte_offset width s
  store_field width byte_offset (masked width mask value) s

abbrev pub get_uint8 : ℕ → Pointer → Option ℕ → Act ℕ
get_uint8 = get_bits one_byte

abbrev pub get_uint16 : ℕ → Pointer → Option ℕ → Act ℕ
get_uint16 = get_bits two_bytes

unfoldable pub get_int8 : ℕ → Pointer → Option ℕ → Act ℤ
unfolding get_bits
get_int8 byte_offset s mask = do v ← get_bits one_byte byte_offset s mask; pure (signed (2 ^ 7) v)

unfoldable pub get_int16 : ℕ → Pointer → Option ℕ → Act ℤ
unfolding get_bits
get_int16 byte_offset s mask = do
  v ← get_bits two_bytes byte_offset s mask
  pure (signed (2 ^ 15) v)

-- The end of `getUint32` and of `getInt32`.
abbrev pub unmask_uint32 : Option ℕ → ℕ → ℤ
unmask_uint32 none v = pos v
unmask_uint32 (some d) v = signed32 (xor_bits 32 v d)

abbrev pub unmask_int32 : Option ℕ → ℕ → ℤ
unmask_int32 none v = signed32 v
unmask_int32 (some d) v = signed32 (xor_bits 32 v (d % 2 ^ 16))

-- With a mask the number that `^` gives is returned as it is, an int32.
unfoldable pub get_uint32 : ℕ → Pointer → Option ℕ → Act ℤ
unfolding load_field
get_uint32 byte_offset s mask = do
  inside ← check_read_data_bounds byte_offset 4 s
  if inside
      then (do v ← load_field 4 byte_offset s; pure (unmask_uint32 mask v))
      else pure (pos (default_of mask))

-- The mask is read with `getUint16`.
unfoldable pub get_int32 : ℕ → Pointer → Option ℕ → Act ℤ
unfolding load_field
get_int32 byte_offset s mask = do
  inside ← check_read_data_bounds byte_offset 4 s
  if inside
      then (do v ← load_field 4 byte_offset s; pure (unmask_int32 mask v))
      else pure (signed32 (default_of mask))

-- The halves of a 64 bit field are masked one by one.
abbrev pub load_halves : ℕ → Pointer → ℕ → Act ℕ
load_halves byte_offset s mask = do
  ds ← get_data_section s
  lo ← load 4 ds.segment (ds.byte_offset + byte_offset)
  hi ← load 4 ds.segment (ds.byte_offset + byte_offset + 4)
  pure (xor_bits 32 lo (mask % 2 ^ 32) + 2 ^ 32 * xor_bits 32 hi (mask / 2 ^ 32))

abbrev pub store_halves : ℕ → ℕ → Pointer → ℕ → Act (Unit {0})
store_halves byte_offset value s mask = do
  ds ← get_data_section s
  store 4 ds.segment (ds.byte_offset + byte_offset) (xor_bits 32 value (mask % 2 ^ 32))
  store 4 ds.segment (ds.byte_offset + byte_offset + 4)
      (xor_bits 32 (value / 2 ^ 32) (mask / 2 ^ 32))

unfoldable pub get_uint64 : ℕ → Pointer → Option ℕ → Act ℕ
unfolding load_field
get_uint64 byte_offset s mask = do
  inside ← check_read_data_bounds byte_offset 8 s
  if inside
      then elim mask [ none ↦ load_field 8 byte_offset s | some d ↦ load_halves byte_offset s d ]
      else pure (default_of mask)

unfoldable pub get_int64 : ℕ → Pointer → Option ℕ → Act ℤ
unfolding get_uint64
get_int64 byte_offset s mask = do v ← get_uint64 byte_offset s mask; pure (signed (2 ^ 63) v)

unfoldable pub set_uint64 : ℕ → ℕ → Pointer → Option ℕ → Act (Unit {0})
unfolding store_field
set_uint64 byte_offset value s mask = do
  check_data_bounds byte_offset 8 s
  elim mask [
    | none ↦ store_field 8 byte_offset value s
    | some d ↦ store_halves byte_offset value s d
  ]

abbrev pub set_uint8 : ℕ → ℕ → Pointer → Option ℕ → Act (Unit {0})
set_uint8 = set_bits 1

abbrev pub set_uint16 : ℕ → ℕ → Pointer → Option ℕ → Act (Unit {0})
set_uint16 = set_bits 2

abbrev pub set_uint32 : ℕ → ℕ → Pointer → Option ℕ → Act (Unit {0})
set_uint32 = set_bits 4

abbrev pub set_int8 : ℕ → ℤ → Pointer → Option ℕ → Act (Unit {0})
set_int8 byte_offset value = set_bits 1 byte_offset (to_uint (2 ^ 8) value)

abbrev pub set_int16 : ℕ → ℤ → Pointer → Option ℕ → Act (Unit {0})
set_int16 byte_offset value = set_bits 2 byte_offset (to_uint (2 ^ 16) value)

abbrev pub set_int32 : ℕ → ℤ → Pointer → Option ℕ → Act (Unit {0})
set_int32 byte_offset value = set_bits 4 byte_offset (to_uint (2 ^ 32) value)

abbrev pub set_int64 : ℕ → ℤ → Pointer → Option ℕ → Act (Unit {0})
set_int64 byte_offset value = set_uint64 byte_offset (to_uint (2 ^ 64) value)

unfoldable pub get_bit : ℕ → Pointer → Option ℕ → Act Bool
unfolding load_field
get_bit bit_offset s mask = do
  inside ← check_read_data_bounds (bit_offset / 8) 1 s
  if inside
      then (do
        v ← load_field 1 (bit_offset / 8) s
        pure (bit_at (masked 1 mask v) (bit_offset % 8)))
      else pure (bit_at (default_of mask) (bit_offset % 8))

-- Where the bit of the mask is set, the opposite is stored.
abbrev pub masked_bit : Option ℕ → ℕ → Bool → Bool
masked_bit none i value = value
masked_bit (some d) i value = if bit_at d i then not value else value

unfoldable pub set_bit : ℕ → Bool → Pointer → Option ℕ → Act (Unit {0})
set_bit bit_offset value s mask = do
  check_data_bounds (bit_offset / 8) 1 s
  ds ← get_data_section s
  b ← load 1 ds.segment (ds.byte_offset + bit_offset / 8)
  store 1 ds.segment (ds.byte_offset + bit_offset / 8)
      (with_bit b (bit_offset % 8) (masked_bit mask (bit_offset % 8) value))
