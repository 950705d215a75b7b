-- ===== src/Serialization/Access.antt =====
-- The unsigned getters and setters of a segment (src/serialization/segment.ts), which read and write
-- little-endian numbers in its buffer.
pub mod Store
use capnp_es.Prelude.{
  ℕ, zero, suc, ◌+◌, ◌*◌, ◌/◌, ◌%◌, leb, List, [], ◌∷◌, ◌++◌, length, set, take, drop,
}
use capnp_es.Errors.{range_error, Result, ok, err, guard, ◌>>=◌, ◌>>◌}
use capnp_es.Serialization.Arena.{Buffer, buffer_at}
use capnp_es.Serialization.Message.{Segment, Message, capacity, assert_writable}

-- The bytes of a number, the lowest first, and the number of bytes.
unfoldable pub bytes_of : ℕ → ℕ → List ℕ
bytes_of zero val = []
bytes_of (suc width) val = val % 256 ∷ bytes_of width (val / 256)

unfoldable pub number_of : List ℕ → ℕ
number_of [] = 0
number_of (b ∷ bytes) = b + 256 * number_of bytes

-- What a DataView over the buffer does at an offset, for a number of `width` bytes: the calls throw a
-- RangeError where it is not inside the buffer.
unfoldable pub view_get : ℕ → Buffer → ℕ → Result ℕ
view_get width buffer byte_offset = do
  guard (leb (byte_offset + width) (length buffer)) range_error
  ok (number_of (take width (drop byte_offset buffer)))

unfoldable pub view_set : ℕ → Buffer → ℕ → ℕ → Result Buffer
view_set width buffer byte_offset val = do
  guard (leb (byte_offset + width) (length buffer)) range_error
  ok (take byte_offset buffer ++ (bytes_of width val ++ drop (byte_offset + width) buffer))

-- A getter, and a setter, which asserts first that the message may be written.
unfoldable pub get_uint : ℕ → ℕ → Segment → Message → Result ℕ
get_uint width byte_offset s m = view_get width (buffer_at m.heap s.buffer) byte_offset

unfoldable pub set_uint : ℕ → ℕ → ℕ → Segment → Message → Result Message
set_uint width byte_offset val s m = do
  assert_writable m
  buffer ← view_set width (buffer_at m.heap s.buffer) byte_offset val
  ok (record m { heap = set m.heap s.buffer buffer })

abbrev pub get_uint8 : ℕ → Segment → Message → Result ℕ
get_uint8 = get_uint 1

abbrev pub get_uint16 : ℕ → Segment → Message → Result ℕ
get_uint16 = get_uint 2

abbrev pub get_uint32 : ℕ → Segment → Message → Result ℕ
get_uint32 = get_uint 4

abbrev pub get_uint64 : ℕ → Segment → Message → Result ℕ
get_uint64 = get_uint 8

abbrev pub set_uint8 : ℕ → ℕ → Segment → Message → Result Message
set_uint8 = set_uint 1

abbrev pub set_uint16 : ℕ → ℕ → Segment → Message → Result Message
set_uint16 = set_uint 2

abbrev pub set_uint32 : ℕ → ℕ → Segment → Message → Result Message
set_uint32 = set_uint 4

abbrev pub set_uint64 : ℕ → ℕ → Segment → Message → Result Message
set_uint64 = set_uint 8
