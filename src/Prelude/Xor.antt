-- ===== src/Prelude/Xor.antt =====
-- The exclusive or of bits, and signed numbers as rows of bits.
use Prim.Native.Nat.{ℕ, zero, suc, ◌+◌, ◌-◌, ◌*◌, ◌/◌, ◌%◌, ◌^◌, ◌<◌, ◌≤◌}
use mathlib.Core.Path.{◌≡◌, refl, sym, ap, ◌∙◌}
use native.Mathlib.Omega.{arith}
use native.Mathlib.Nat.{pow-succ'}
use mathlib.Core.Bool.{false}
use mathlib.Core.Logic.{inl, inr}
use capnp_es.Prelude.Tests.{ltb, if◌then◌else◌, Bool-cases, tests}
use capnp_es.Prelude.Int.{ℤ, pos, negsuc, signed32}

-- `(a ^ b) mod 2 ^ width`
unfoldable pub xor_bits : ℕ → ℕ → ℕ → ℕ
xor_bits zero a b = 0
xor_bits (suc width) a b = (a + b) % 2 + 2 * xor_bits width (a / 2) (b / 2)

pub xor_bits-bound : (width a b : ℕ) → xor_bits width a b < 2 ^ width
unfolding xor_bits
xor_bits-bound zero a b = omega arith
xor_bits-bound (suc width) a b =
    rw (pow-succ' 2 width) (omega (arith, xor_bits-bound width (a / 2) (b / 2)))

pub xor_bits_twice : (width a b : ℕ) → a < 2 ^ width → xor_bits width (xor_bits width a b) b ≡ a
unfolding xor_bits
xor_bits_twice zero a b h = omega arith
xor_bits_twice (suc width) a b h =
    let x : ℕ = xor_bits width (a / 2) (b / 2) in
    let half : ((a + b) % 2 + 2 * x) / 2 ≡ x = omega arith in
    let h' : a < 2 * 2 ^ width = rw (pow-succ' 2 width) at h in
    let i : xor_bits width x (b / 2) ≡ a / 2 =
      xor_bits_twice width (a / 2) (b / 2) (omega (arith, h')) in
    rw (half, i) (omega arith)

-- The intN with the bits of `n`, for `half` = 2 ^ (N - 1) and `n` below 2 ^ N.
abbrev pub signed : ℕ → ℕ → ℤ
signed half n = if ltb n half then pos n else negsuc (2 * half - n - 1)

-- ToUintN, for `modulus` = 2 ^ N.
abbrev pub to_uint : ℕ → ℤ → ℕ
to_uint modulus (pos n) = n % modulus
to_uint modulus (negsuc n) = (modulus - (n + 1) % modulus) % modulus

xor_bits_comm : (width a b : ℕ) → xor_bits width a b ≡ xor_bits width b a
unfolding xor_bits
xor_bits_comm zero a b = refl
xor_bits_comm (suc width) a b =
    let e : (a + b) % 2 ≡ (b + a) % 2 = omega arith in rw (e, xor_bits_comm width (a / 2) (b / 2))

-- Two masks that agree on one number are the same.
pub xor_bits_cancel :
    (width a b m : ℕ)
    → a < 2 ^ width
    → b < 2 ^ width
    → m < 2 ^ width
    → xor_bits width (xor_bits width a b) m ≡ a
    → b ≡ m
xor_bits_cancel width a b m ha hb hm e =
    let x : ℕ = xor_bits width a b in
    let f : x ≡ xor_bits width a m =
      sym (xor_bits_twice width x m (xor_bits-bound width a b)) ∙ ap (λ k. xor_bits width k m) e in
    sym (xor_bits_twice width b a hb)
    ∙ ap (λ k. xor_bits width k a) (xor_bits_comm width b a ∙ f ∙ xor_bits_comm width a m)
    ∙ xor_bits_twice width m a hm

pub to_uint-signed32 : (n : ℕ) → n < 2 ^ 32 → to_uint (2 ^ 32) (signed32 n) ≡ n
to_uint-signed32 n h = elim (Bool-cases (ltb n (2 ^ 31))) [
  | inl below ↦ rw below (omega arith)
  | inr above ↦ rw above (omega (tests, not_below n above))
]
  where
    not_below : (n : ℕ) → ltb n (2 ^ 31) ≡ false → 2 ^ 31 ≤ n
    not_below n e = ground arith
