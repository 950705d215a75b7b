-- ===== src/Serialization/Word/Int32.antt =====
-- `padToWord` of src/util.ts on any size, with the conversion to int32 that `&` makes.
use capnp_es.Prelude.{ℕ, ◌+◌, ◌-◌, ◌*◌, ◌/◌, ◌%◌, ◌^◌, ◌≤◌, ◌<◌, ◌≡◌, arith}
use capnp_es.Prelude.Int.{ℤ, pos, negsuc, signed32}
use capnp_es.Serialization.Word.{pad_to_word}

-- `(size + 7) & ~7`: the low 32 bits with the last three cleared, read as an int32.
unfoldable pub pad_to_word_int32 : ℕ → ℤ
pad_to_word_int32 size = signed32 ((size + 7) % 2 ^ 32 / 8 * 8)

-- Below 2 ^ 31 - 7 the code's `padToWord` gives the least multiple of 8 that is not below the size;
-- from there to 2 ^ 32 - 8, sizes that MAX_SEGMENT_LENGTH allows, it gives a negative number, and
-- from 2 ^ 32 - 7 to 2 ^ 32 - 1 it gives 0.
pub pad_to_word_int32_lem :
    (size : ℕ)
    → (size < 2 ^ 31 - 7
        → (pad_to_word_int32 size ≡ pos (pad_to_word size))
          × (size ≤ pad_to_word size)
          × (pad_to_word size < size + 8)
          × (pad_to_word size % 8 ≡ 0))
      × (2 ^ 31 - 7 ≤ size → size < 2 ^ 32 - 7 → (k : ℕ) × (pad_to_word_int32 size ≡ negsuc k))
      × (2 ^ 32 - 7 ≤ size → size < 2 ^ 32 → pad_to_word_int32 size ≡ pos 0)
unfolding pad_to_word_int32
pad_to_word_int32_lem size = (
  λ h. (ground arith, omega arith, omega arith, omega arith),
  λ lo hi. (2 ^ 32 - ((size + 7) / 8 * 8) - 1, ground arith),
  λ lo hi. ground arith,
)
