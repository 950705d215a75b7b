-- ===== src/Tests/Lists.antt =====
-- The methods of `List` of src/serialization/pointers/list/list.ts on small lists.
use capnp_es.Prelude.{ℕ, ◌+◌, ◌*◌, ◌≡◌, refl, ltb, not, [], ◌∷◌, ◌++◌, replicate, none, some, arith}
use capnp_es.Serialization.List.Methods.{
  to_array, concat, slice, map, find_index, find, some_of, every,
}
use capnp_es.Serialization.List.Methods.Agree.{somes, array_methods, Found, find_index-Found}

abbrev tens : ℕ → ℕ
tens i = (i + 1) * 10

-- From the second of three elements on.
slice_example : slice 3 tens 1 0 ≡ none ∷ some 20 ∷ some 30 ∷ []
unfolding slice
slice_example = refl

array_methods_example :
    (to_array 3 tens ≡ somes tens 3 0)
    × (map 3 tens (λ v i. v + i) ≡ somes (λ i. tens i + i) 3 0)
    × (concat 3 tens 2 (λ i. i) ≡ somes tens 3 0 ++ somes (λ i. i) 2 0)
    × (slice 3 tens 1 3 ≡ replicate 1 none ++ somes tens 2 1)
array_methods_example = array_methods 3 tens (λ v i. v + i) 2 (λ i. i) 1 3 (omega arith)

find_index-Found_example :
    Found 3 tens
      (λ v i. ltb 15 v)
      (find_index 3 tens (λ v i. ltb 15 v))
      (find 3 tens (λ v i. ltb 15 v))
      (some_of 3 tens (λ v i. ltb 15 v))
      (every 3 tens (λ v i. not (ltb 15 v)))
find_index-Found_example = find_index-Found 3 tens (λ v i. ltb 15 v)
