-- ===== src/Tests/Pointer.antt =====
-- Pointers, structs, lists and orphans of src/serialization/pointers on small messages.
use capnp_es.Prelude.{
  ℕ, ◌-◌, ◌^◌, ◌<◌, ◌≡◌, ◌↔◌, inl, inr, refl, true, false, List, [], ◌∷◌, length, take, drop, some,
  arith,
}
use capnp_es.Prelude.Int.{ℤ, pos, negsuc}
use capnp_es.Errors.{ok}
use capnp_es.Serialization.Arena.{zeros, multi_segment}
use capnp_es.Serialization.Message.{Segment}
use capnp_es.Serialization.Context.{Context, Act, pure, bind, ◌>>=◌, ◌>>◌}
use capnp_es.Serialization.Context.{load}
use capnp_es.Serialization.Access.{bytes_of}
use capnp_es.Serialization.Context.Words.{buffer_of}
use capnp_es.Serialization.Pointer.Codec.{Writable, word_put}
use capnp_es.Serialization.Pointer.RoundTrip.{get_struct_size-set_struct_pointer}
use capnp_es.Serialization.Pointer.Target.{spent, plain_pointer, StructAt}
use capnp_es.Serialization.Struct.RoundTrip.{get_bits-set_bits}
use capnp_es.Serialization.Struct.Numbers32.{get_uint32-set_uint32, get_int32-set_int32}
use capnp_es.Serialization.Struct.Init.{init_struct-StructAt}
use capnp_es.Serialization.Struct.Erased.{erase-StructAt}
use capnp_es.Serialization.Pointer.Erase.{erase}
use capnp_es.Serialization.Pointer.{
  Pointer, struct_type, get_pointer_type, get_offset_words, get_struct_size, set_struct_pointer,
  is_null,
}
use capnp_es.Serialization.Struct.{init_struct}
use capnp_es.Serialization.Struct.Fields.{
  two_bytes, get_bits, set_bits, get_uint32, set_uint32, get_int32, set_int32,
}

-- A message with two segments. The first has room for its root pointer and 48 bytes more, the second
-- for 16 bytes.
abbrev pub two_segments : Context
two_segments = record {
  message = record {
    heap = zeros 56 ∷ zeros 16 ∷ [];
    arena = multi_segment (0 ∷ 1 ∷ []);
    segments = record { buffer = 0; byte_length = 8 } ∷ record { buffer = 1; byte_length = 0 } ∷ [];
    readonly = false;
  };
  traversal_limit = 1000;
  cap_table = [];
}

-- The root pointer of the first segment, with a struct of one word and one pointer behind it.
abbrev struct_context : Context
struct_context = record {
  message = record {
    heap = (0 ∷ 0 ∷ 0 ∷ 0 ∷ 1 ∷ 0 ∷ 1 ∷ 0 ∷ zeros 48) ∷ zeros 16 ∷ [];
    arena = multi_segment (0 ∷ 1 ∷ []);
    segments =
        record { buffer = 0; byte_length = 24 } ∷ record { buffer = 1; byte_length = 0 } ∷ [];
    readonly = false;
  };
  traversal_limit = 1000;
  cap_table = [];
}

abbrev struct_segment : Segment
struct_segment = record { buffer = 0; byte_length = 24 }

abbrev root_pointer : Pointer
root_pointer = plain_pointer 0 0 64

struct_at : StructAt struct_context struct_segment root_pointer 8 1 1
unfolding bytes_of
struct_at = record {
  offset = pos 0;
  word = record {
    open_segment = record { found = refl; in_heap = omega arith; may_write = refl };
    inside = omega arith;
    eight = refl;
    stored = refl;
  };
  single = refl;
  small_offset = omega arith;
  some_data = omega arith;
  small_words = omega arith;
  small_pointers = omega arith;
  in_segment = omega arith;
  in_buffer = omega arith;
  points_to = refl;
  holds = omega arith;
  apart = inr (omega arith);
}

Writable-root : Writable struct_context struct_segment root_pointer
Writable-root = record {
  open_segment = record { found = refl; in_heap = omega arith; may_write = refl };
  inside = omega arith;
}

get_struct_size-set_struct_pointer_example :
    (c' : Context) × (word : List ℕ) × (set_struct_pointer
        (negsuc 4)
        (record { data_byte_length = 16; pointer_length = 3 })
        root_pointer
        struct_context
      ≡ ok (tt, c'))
    × (c' ≡ word_put struct_context struct_segment root_pointer word)
    × (length word ≡ 8)
    × (get_pointer_type root_pointer c' ≡ ok (struct_type, c'))
    × (get_offset_words root_pointer c' ≡ ok (negsuc 4, c'))
    × (get_struct_size root_pointer c'
        ≡ ok (record { data_byte_length = 16; pointer_length = 3 }, c'))
get_struct_size-set_struct_pointer_example =
    get_struct_size-set_struct_pointer (negsuc 4) 2 3 root_pointer struct_context struct_segment
      Writable-root (omega arith) (omega arith) (omega arith)

get_bits-set_bits_example :
    (c' : Context) × (set_bits 2 4 1000 root_pointer (some 77) struct_context ≡ ok (tt, c'))
    × (get_bits two_bytes 4 root_pointer (some 77) c' ≡ ok (1000, spent c'))
    × StructAt c' struct_segment root_pointer 8 1 1
    × (take 8 (drop 0 (buffer_of c' struct_segment))
        ≡ take 8 (drop 0 (buffer_of struct_context struct_segment)))
get_bits-set_bits_example =
    get_bits-set_bits two_bytes 4 1000 (some 77) 0 8 struct_at (omega arith) (omega arith)
      (omega arith) (inl (omega arith))

get_uint32-set_uint32_example :
    (c' : Context) × (set_uint32 4 (2 ^ 31) root_pointer (some 1) struct_context ≡ ok (tt, c'))
    × (get_uint32 4 root_pointer (some 1) c' ≡ ok (negsuc (2 ^ 31 - 1), spent c'))
get_uint32-set_uint32_example =
    get_uint32-set_uint32 4 (2 ^ 31) (some 1) struct_at (omega arith) (omega arith) (omega arith)

get_int32-set_int32_example :
    (c' : Context) × (read : ℤ) × (set_int32 4 (pos 5) root_pointer (some 65536) struct_context
      ≡ ok (tt, c'))
    × (get_int32 4 root_pointer (some 65536) c' ≡ ok (read, spent c'))
    × ((read ≡ pos 5) ↔ (65536 < 2 ^ 16))
get_int32-set_int32_example =
    get_int32-set_int32 4 5 65536 struct_at (omega arith) (omega arith) (omega arith) (omega arith)

init_struct-StructAt_example :
    (c' : Context) × (s' : Segment) × (init_struct
        (record { data_byte_length = 16; pointer_length = 3 })
        root_pointer
        two_segments
      ≡ ok (tt, c'))
    × StructAt c' s' root_pointer 8 2 3
    × (s'.byte_length ≡ 48)
unfolding is_null capnp_es.Serialization.Context.segment_of
    capnp_es.Serialization.Context.is_word_zero load capnp_es.Serialization.Access.get_uint
    capnp_es.Serialization.Access.view_get capnp_es.Serialization.Access.number_of
init_struct-StructAt_example =
    init_struct-StructAt 2 3 (zeros 56 ∷ zeros 16 ∷ []) (multi_segment (0 ∷ 1 ∷ []))
      (record { buffer = 0; byte_length = 8 } ∷ record { buffer = 1; byte_length = 0 } ∷ []) 1000 []
      root_pointer (record { buffer = 0; byte_length = 8 }) refl (omega arith) refl (omega arith)
      refl (omega arith) refl refl (omega arith) (omega arith) (omega arith) (omega arith)
      (omega arith) (omega arith)

-- The same with a struct of two words and no pointer.
abbrev data_context : Context
data_context = record struct_context {
  message = record struct_context.message {
    heap = (0 ∷ 0 ∷ 0 ∷ 0 ∷ 2 ∷ 0 ∷ 0 ∷ 0 ∷ 1 ∷ 2 ∷ 3 ∷ zeros 45) ∷ zeros 16 ∷ [];
  };
}

data_at : StructAt data_context struct_segment root_pointer 8 2 0
unfolding bytes_of
data_at = record {
  offset = pos 0;
  word = record {
    open_segment = record { found = refl; in_heap = omega arith; may_write = refl };
    inside = omega arith;
    eight = refl;
    stored = refl;
  };
  single = refl;
  small_offset = omega arith;
  some_data = omega arith;
  small_words = omega arith;
  small_pointers = omega arith;
  in_segment = omega arith;
  in_buffer = omega arith;
  points_to = refl;
  holds = omega arith;
  apart = inr (omega arith);
}

erase-StructAt_example :
    (c' : Context) × (erase root_pointer data_context ≡ ok (tt, c'))
    × (is_null root_pointer c' ≡ ok (true, c'))
    × (take 16 (drop 8 (buffer_of c' struct_segment)) ≡ zeros 16)
erase-StructAt_example = erase-StructAt data_at (omega arith) refl (omega arith)
