-- ===== src/Serialization/List/Methods.antt =====
-- The methods of `List` (src/serialization/pointers/list/list.ts) that build an array or search. Reading
-- an element, `get`, and the caller's callbacks are functions that neither throw nor write. A callback
-- gets the value and the index.
pub mod Agree
use capnp_es.Prelude.{
  ℕ, zero, suc, ◌+◌, ◌-◌, min, ◌==◌, if◌then◌else◌, Bool, true, false, not, List, [], ◌∷◌,
  replicate, Option, none, some,
}
use capnp_es.Prelude.Int.{ℤ, pos, negsuc}

module _ {ℓ} {B : Type ℓ} where
  -- `res[i] = v` on an array, which grows if need be. `none` is undefined.
  abbrev pub assign : List (Option B) → ℕ → B → List (Option B)
  assign [] zero v = some v ∷ []
  assign [] (suc i) v = none ∷ assign [] i v
  assign (x ∷ res) zero v = some v ∷ res
  assign (x ∷ res) (suc i) v = x ∷ assign res i v

  -- `for (; rounds > 0; i++) res[i + offset] = read(i)`
  abbrev pub assign_all : ℕ → (ℕ → B) → ℕ → ℕ → List (Option B) → List (Option B)
  assign_all offset read zero i res = res
  assign_all offset read (suc rounds) i res =
      assign_all offset read rounds (suc i) (assign res (i + offset) (read i))

  -- `Array.from({ length })`
  abbrev pub new_array : ℕ → List (Option B)
  new_array length = replicate length none

module _ {ℓ} {A : Type ℓ} (length : ℕ) (get : ℕ → A) where
  unfoldable pub to_array : List (Option A)
  to_array = assign_all 0 get length 0 (new_array length)

  -- `other` is another array, by its length and its elements.
  unfoldable pub concat : ℕ → (ℕ → A) → List (Option A)
  concat other_length other =
      assign_all length other other_length 0
        (assign_all 0 get length 0 (new_array (length + other_length)))

  -- `end ? Math.min(this.length, end) : this.length`, where 0 stands for no end too.
  abbrev pub end_of : ℕ → ℕ
  end_of end = if end == 0 then length else min length end

  unfoldable pub slice : ℕ → ℕ → List (Option A)
  slice start end = assign_all 0 get (end_of end - start) start (new_array (end_of end - start))

  module _ {κ} {B : Type κ} where
    unfoldable pub map : (A → ℕ → B) → List (Option B)
    map cb = assign_all 0 (λ i. cb (get i) i) length 0 (new_array length)

  -- The loops that search, from an index on.
  unfoldable pub find_index_from : ℕ → ℕ → (A → ℕ → Bool) → ℤ
  find_index_from zero i cb = negsuc 0
  find_index_from (suc rounds) i cb =
      let rest = find_index_from rounds (suc i) cb in if cb (get i) i then pos i else rest

  unfoldable pub find_from : ℕ → ℕ → (A → ℕ → Bool) → Option A
  find_from zero i cb = none
  find_from (suc rounds) i cb =
      let rest = find_from rounds (suc i) cb in if cb (get i) i then some (get i) else rest

  unfoldable pub some_from : ℕ → ℕ → (A → ℕ → Bool) → Bool
  some_from zero i cb = false
  some_from (suc rounds) i cb =
      let rest = some_from rounds (suc i) cb in if cb (get i) i then true else rest

  unfoldable pub every_from : ℕ → ℕ → (A → ℕ → Bool) → Bool
  every_from zero i cb = true
  every_from (suc rounds) i cb =
      let rest = every_from rounds (suc i) cb in if not (cb (get i) i) then false else rest

  abbrev pub find_index : (A → ℕ → Bool) → ℤ
  find_index = find_index_from length 0

  abbrev pub find : (A → ℕ → Bool) → Option A
  find = find_from length 0

  abbrev pub some_of : (A → ℕ → Bool) → Bool
  some_of = some_from length 0

  abbrev pub every : (A → ℕ → Bool) → Bool
  every = every_from length 0
