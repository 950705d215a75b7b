-- ===== src/Prelude/Int.antt =====
-- Signed integers over the native numbers, and the reading of 32 bits as one.
use Prim.Native.Nat.{ℕ, zero, suc, ◌+◌, ◌-◌, ◌*◌, ◌/◌, ◌%◌, ◌^◌}
use capnp_es.Prelude.Tests.{ltb, if◌then◌else◌}

-- `negsuc n` is -(n + 1).
pub data ℤ : Type 0 where
  pos : ℕ → ℤ
  negsuc : ℕ → ℤ

-- The int32 with the bits of `w`, for `w` below 2 ^ 32.
abbrev pub signed32 : ℕ → ℤ
signed32 w = if ltb w (2 ^ 31) then pos w else negsuc (2 ^ 32 - w - 1)

-- a - b, as an integer.
abbrev pub sub_ℕ : ℕ → ℕ → ℤ
sub_ℕ a b = if ltb a b then negsuc (b - a - 1) else pos (a - b)

-- `z >> k` for the divisor `d` = 2 ^ k: rounded down.
abbrev pub shift_down : ℤ → ℕ → ℤ
shift_down (pos n) d = pos (n / d)
shift_down (negsuc n) d = negsuc (n / d)

-- ToUint32 of `z << k`, for the factor `d` = 2 ^ k.
abbrev pub uint32_shifted : ℤ → ℕ → ℕ
uint32_shifted (pos n) d = n * d % 2 ^ 32
uint32_shifted (negsuc n) d = (2 ^ 32 - (n + 1) * d % 2 ^ 32) % 2 ^ 32

-- z - 1
abbrev pub pred : ℤ → ℤ
pred (pos zero) = negsuc 0
pred (pos (suc n)) = pos n
pred (negsuc n) = negsuc (n + 1)

-- `a + d * z`
abbrev pub add_scaled : ℕ → ℕ → ℤ → ℤ
add_scaled a d (pos n) = pos (a + d * n)
add_scaled a d (negsuc n) = sub_ℕ a (d * (n + 1))

-- How often a loop `for (i = 0; i < z; i++)` goes round.
abbrev pub rounds_of : ℤ → ℕ
rounds_of (pos n) = n
rounds_of (negsuc n) = 0
