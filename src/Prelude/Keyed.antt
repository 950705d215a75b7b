-- ===== src/Prelude/Keyed.antt =====
-- An object of the source that is keyed by numbers: pairs by ascending key, the order in which
-- `Object.keys` and `Object.entries` list them.
use Prim.Native.Nat.{ℕ}
use mathlib.Core.Path.{◌≡◌}
use mathlib.Core.List.{List, [], ◌∷◌}
use mathlib.Core.Option.{Option, none, some}
use capnp_es.Prelude.Tests.{ltb, ◌==◌, if◌then◌else◌}
use native.Mathlib.Omega.{arith}

abbrev pub Dict {ℓ} : Type ℓ → Type ℓ
Dict Value = List (ℕ × Value)

module _ {ℓ} {Value : Type ℓ} where
  -- `object[key]`
  abbrev pub lookup : ℕ → Dict Value → Option Value
  lookup key [] = none
  lookup key (first ∷ rest) = if key == first.0 then some first.1 else lookup key rest

  -- `object[key] = value`
  abbrev pub insert : ℕ → Value → Dict Value → Dict Value
  insert key value [] = (key, value) ∷ []
  insert key value (first ∷ rest) =
      let behind = insert key value rest in
      if key == first.0
      then (key, value) ∷ rest
      else if ltb key first.0
      then (key, value) ∷ first ∷ rest
      else first ∷ behind

  -- `delete object[key]`
  abbrev pub erase_key : ℕ → Dict Value → Dict Value
  erase_key key [] = []
  erase_key key (first ∷ rest) =
      let behind = erase_key key rest in if key == first.0 then behind else first ∷ behind

  pub lookup-insert :
      (other key : ℕ) (value : Value) (object : Dict Value)
      → lookup other (insert key value object)
        ≡ (if other == key then some value else lookup other object)
  lookup-insert other key value [] = ground arith
  lookup-insert other key value (first ∷ rest) = ground (arith, lookup-insert other key value rest)

  pub lookup-erase_key :
      (other key : ℕ) (object : Dict Value)
      → lookup other (erase_key key object) ≡ (if other == key then none else lookup other object)
  lookup-erase_key other key [] = ground arith
  lookup-erase_key other key (first ∷ rest) = ground (arith, lookup-erase_key other key rest)
