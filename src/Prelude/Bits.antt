-- ===== src/Prelude/Bits.antt =====
-- Checking a statement about a row of Boolean variables by evaluation.
use Prim.Native.Nat.{ℕ, zero, suc, ◌<◌}
use mathlib.Core.Path.{◌≡◌, refl, sym}
use mathlib.Core.Bool.{Bool, true, false, ◌&&◌}
use mathlib.Core.List.{List, [], ◌∷◌}
use native.Mathlib.Omega.{arith}
use capnp_es.Prelude.Lists.{length}

-- `p` at each row of `n` Booleans.
unfoldable pub all_rows : ℕ → (List Bool → Bool) → Bool
all_rows zero p = p []
all_rows (suc n) p = all_rows n (λ l. p (true ∷ l)) && all_rows n (λ l. p (false ∷ l))

pub all_rows_sound :
    (l : List Bool) (p : List Bool → Bool) → all_rows (length l) p ≡ true → p l ≡ true
unfolding all_rows
all_rows_sound [] p h = h
all_rows_sound (true ∷ l) p h = all_rows_sound l (λ m. p (true ∷ m)) (ground arith)
all_rows_sound (false ∷ l) p h = all_rows_sound l (λ m. p (false ∷ m)) (ground arith)

-- Equality of Booleans as a test.
abbrev pub iff : Bool → Bool → Bool
iff true b = b
iff false true = false
iff false false = true

pub iff→eq : (a b : Bool) → iff a b ≡ true → a ≡ b
iff→eq true b h = sym h
iff→eq false true h = h
iff→eq false false h = refl

-- `p` at each number below `n`.
unfoldable pub check_below : ℕ → (ℕ → Bool) → Bool
check_below zero p = true
check_below (suc n) p = p n && check_below n p

pub check_below_sound : (n : ℕ) (p : ℕ → Bool) (x : ℕ) → check_below n p ≡ true → x < n → p x ≡ true
unfolding check_below
check_below_sound zero p x h lt = absurd (omega arith)
check_below_sound (suc n) p x h lt = ground (arith, check_below_sound n p x)
