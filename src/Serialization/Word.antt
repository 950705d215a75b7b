-- ===== src/Serialization/Word.antt =====
-- `padToWord` of src/util.ts, and its limits.
pub mod Int32
use capnp_es.Prelude.{ℕ, ◌+◌, ◌*◌, ◌/◌, ◌%◌, ◌^◌, ◌≤◌, ◌<◌, ◌≡◌, arith}

-- The least multiple of 8 that is not below a size. It is what `padToWord` gives for sizes below
-- 2 ^ 31 - 7; `Int32` has the function of the source on any size.
abbrev pub pad_to_word : ℕ → ℕ
pad_to_word size = (size + 7) / 8 * 8
