-- ===== src/Serialization/List/Methods/Agree.antt =====
-- The methods of `List` against the lists of its elements (src/serialization/pointers/list/list.ts).
use capnp_es.Prelude.{
  ℕ, zero, suc, ◌+◌, ◌-◌, ◌≤◌, ◌<◌, ◌≡◌, ◌⊎◌, inl, inr, refl, sym, ap, ◌∙◌, Bool-cases, Bool, true,
  false, not, List, [], ◌∷◌, ◌++◌, append-nil, append_assoc, length, length-append, length-drop,
  length-replicate, take, drop, replicate, take-append-drop, Option, none, some, arith,
}
use capnp_es.Prelude.Slices.{drop-nil, take-append_at}
use capnp_es.Prelude.Bits.{check_below}
use capnp_es.Prelude.Int.{ℤ, pos, negsuc}
use capnp_es.Serialization.List.Methods.{
  assign, assign_all, new_array, end_of, to_array, concat, slice, map, find_index_from, find_from,
  some_from, every_from, find_index, find, some_of, every,
}

module _ {ℓ} {B : Type ℓ} where
  -- The elements from an index on.
  abbrev pub somes : (ℕ → B) → ℕ → ℕ → List (Option B)
  somes read zero i = []
  somes read (suc rounds) i = some (read i) ∷ somes read rounds (suc i)

  drop_all : (n : ℕ) (xs : List (Option B)) → length xs ≤ n → drop n xs ≡ []
  drop_all n [] h = drop-nil n
  drop_all zero (x ∷ xs) h = absurd (omega arith)
  drop_all (suc n) (x ∷ xs) h = drop_all n xs (omega arith)

  length-assign : (res : List (Option B)) (n : ℕ) (v : B) → n < length (assign res n v)
  length-assign [] zero v = omega arith
  length-assign [] (suc n) v = omega (arith, length-assign [] n v)
  length-assign (x ∷ res) zero v = omega arith
  length-assign (x ∷ res) (suc n) v = omega (arith, length-assign res n v)

  take-assign :
      (res : List (Option B)) (n : ℕ) (v : B)
      → n ≤ length res
      → take (suc n) (assign res n v) ≡ take n res ++ (some v ∷ [])
  take-assign [] zero v h = refl
  take-assign [] (suc n) v h = absurd (omega arith)
  take-assign (x ∷ res) zero v h = refl
  take-assign (x ∷ res) (suc n) v h = ap (λ l. x ∷ l) (take-assign res n v (omega arith))

  drop-assign :
      (res : List (Option B)) (n k : ℕ) (v : B)
      → drop (suc n + k) (assign res n v) ≡ drop (suc n + k) res
  drop-assign [] zero k v = let e : 1 + k ≡ suc k = omega arith in rw e (drop-nil k)
  drop-assign [] (suc n) k v =
      let e : suc (suc n) + k ≡ suc (suc n + k) = omega arith in
      rw e (drop-assign [] n k v ∙ drop-nil (suc n + k))
  drop-assign (x ∷ res) zero k v = let e : 1 + k ≡ suc k = omega arith in rw e refl
  drop-assign (x ∷ res) (suc n) k v =
      let e : suc (suc n) + k ≡ suc (suc n + k) = omega arith in rw e (drop-assign res n k v)

  -- A loop that writes inside the array, or right at its end.
  assign_all_lem :
      (offset : ℕ) (read : ℕ → B) (rounds i : ℕ) (res : List (Option B))
      → i + offset ≤ length res
      → assign_all offset read rounds i res
        ≡ take (i + offset) res ++ (somes read rounds i ++ drop (i + offset + rounds) res)
  assign_all_lem offset read zero i res h =
      let e : i + offset + 0 ≡ i + offset = omega arith in
      rw e (sym (take-append-drop (i + offset) res))
  assign_all_lem offset read (suc rounds) i res h =
      let n : ℕ = i + offset in
      let v : B = read i in
      let next : suc i + offset ≡ suc (i + offset) = omega arith in
      let after : i + offset + suc rounds ≡ suc (i + offset) + rounds = omega arith in
      assign_all_lem offset read rounds (suc i) (assign res n v)
        (omega (arith, length-assign res n v))
      ∙ rw (next, after, take-assign res (i + offset) v h, drop-assign res (i + offset) rounds v)
          (append_assoc (take (i + offset) res) (some v ∷ [])
            (somes read rounds (suc i) ++ drop (suc (i + offset) + rounds) res))

  -- A loop over a whole new array.
  assign_all-new_array :
      (read : ℕ → B) (n : ℕ) → assign_all 0 read n 0 (new_array n) ≡ somes read n 0
  assign_all-new_array read n =
      assign_all_lem 0 read n 0 (new_array n) (omega arith)
      ∙ ap (λ l. somes read n 0 ++ l)
          (drop_all (0 + 0 + n) (new_array n)
            (omega (arith, length-replicate {A = Option B} n none)))
      ∙ append-nil (somes read n 0)

  length-somes : (read : ℕ → B) (n i : ℕ) → length (somes read n i) ≡ n
  length-somes read zero i = refl
  length-somes read (suc n) i = ap suc (length-somes read n (suc i))

  take-replicate-none :
      (n m : ℕ) (v : B) → take n (assign (replicate m none) n v) ≡ replicate n none
  take-replicate-none zero m v = refl
  take-replicate-none (suc n) zero v = ap (λ l. none ∷ l) (take-replicate-none n zero v)
  take-replicate-none (suc n) (suc m) v = ap (λ l. none ∷ l) (take-replicate-none n m v)

  take_one-assign :
      (res : List (Option B)) (n : ℕ) (v : B)
      → take (suc n) (assign res n v) ≡ take n (assign res n v) ++ (some v ∷ [])
  take_one-assign [] zero v = refl
  take_one-assign [] (suc n) v = ap (λ l. none ∷ l) (take_one-assign [] n v)
  take_one-assign (x ∷ res) zero v = refl
  take_one-assign (x ∷ res) (suc n) v = ap (λ l. x ∷ l) (take_one-assign res n v)

  assign_all-behind :
      (read : ℕ → B) (n : ℕ) (other : ℕ → B) (m : ℕ)
      → assign_all n other m 0 (assign_all 0 read n 0 (new_array (n + m)))
        ≡ somes read n 0 ++ somes other m 0
  assign_all-behind read n other m =
      let rest : List (Option B) = drop (0 + 0 + n) (new_array (n + m)) in
      let first : assign_all 0 read n 0 (new_array (n + m)) ≡ somes read n 0 ++ rest =
        assign_all_lem 0 read n 0 (new_array (n + m)) (omega arith) in
      let len : length (somes read n 0 ++ rest) ≡ n + m = omega (
        arith,
        length-append (somes read n 0) rest,
        length-somes read n 0,
        length-drop (0 + 0 + n) (new_array {B = B} (n + m)),
        length-replicate {A = Option B} (n + m) none,
      ) in
      ap (assign_all n other m 0) first
      ∙ assign_all_lem n other m 0 (somes read n 0 ++ rest) (omega (arith, len))
      ∙ ap (λ l. l ++ (somes other m 0 ++ drop (0 + n + m) (somes read n 0 ++ rest)))
          (take-append_at (0 + n) (somes read n 0) rest (omega (arith, length-somes read n 0)))
      ∙ ap (λ l. somes read n 0 ++ (somes other m 0 ++ l))
          (drop_all (0 + n + m) (somes read n 0 ++ rest) (omega (arith, len)))
      ∙ ap (λ l. somes read n 0 ++ l) (append-nil (somes other m 0))

  -- A loop that starts behind the first entry.
  assign_all_late :
      (read : ℕ → B) (r start : ℕ)
      → assign_all 0 read (suc r) start (new_array (suc r))
        ≡ replicate start none ++ somes read (suc r) start
  assign_all_late read r start =
      let res : List (Option B) = assign (new_array (suc r)) start (read start) in
      let z : start + 0 ≡ start = omega arith in
      let z' : suc start + 0 ≡ suc start = omega arith in
      rw z (
        assign_all_lem 0 read r (suc start) res
          (omega (arith, length-assign (new_array (suc r)) start (read start)))
        ∙ rw
            (
              z',
              take_one-assign (new_array (suc r)) start (read start),
              take-replicate-none start (suc r) (read start),
              drop-assign (new_array (suc r)) start r (read start),
              drop_all (suc start + r) (new_array {B = B} (suc r))
                  (omega (arith, length-replicate {A = Option B} (suc r) none)),
              append-nil (somes read r (suc start)),
            )
            (append_assoc (replicate start none) (some (read start) ∷ [])
              (somes read r (suc start))))

-- `toArray` gives the elements in their order, `map` what the callback makes of each with its index,
-- and `concat` the elements of both. `slice` from `start` to an end behind it gives the right elements, but
-- each at its index in the list: they stand behind `start` undefined entries.
pub array_methods {ℓ} :
    {A : Type ℓ} (n : ℕ) (get : ℕ → A) (cb : A → ℕ → A) (m : ℕ) (other : ℕ → A) (start end : ℕ)
    → start < end_of n get end
    → (to_array n get ≡ somes get n 0)
      × (map n get cb ≡ somes (λ i. cb (get i) i) n 0)
      × (concat n get m other ≡ somes get n 0 ++ somes other m 0)
      × (slice n get start end ≡ replicate start none ++ somes get (end_of n get end - start) start)
unfolding to_array map concat slice
array_methods n get cb m other start end h = (
  assign_all-new_array get n,
  assign_all-new_array (λ i. cb (get i) i) n,
  assign_all-behind get n other m,
  let e : end_of n get end - start ≡ suc (end_of n get end - start - 1) = omega (arith, h) in
      rw e (assign_all_late get (end_of n get end - start - 1) start),
)

-- The outcome of a search from an index on, among `n` elements.
abbrev pub Found {ℓ} :
    {A : Type ℓ} → ℕ → (ℕ → A) → (A → ℕ → Bool) → ℤ → Option A → Bool → Bool → Type ℓ
Found n get cb index element any none_of =
    ((i : ℕ) × (i < n)
      × (index ≡ pos i)
      × (element ≡ some (get i))
      × (any ≡ true)
      × (none_of ≡ false)
      × (cb (get i) i ≡ true)
      × (check_below i (λ j. not (cb (get j) j)) ≡ true))
    ⊎ ((index ≡ negsuc 0)
        × (element ≡ none)
        × (any ≡ false)
        × (none_of ≡ true)
        × (check_below n (λ j. not (cb (get j) j)) ≡ true))

search_from {ℓ} :
    {A : Type ℓ} (n : ℕ) (get : ℕ → A) (cb : A → ℕ → Bool) (rounds i : ℕ)
    → i + rounds ≡ n
    → check_below i (λ j. not (cb (get j) j)) ≡ true
    → Found n get cb
        (find_index_from n get rounds i cb)
        (find_from n get rounds i cb)
        (some_from n get rounds i cb)
        (every_from n get rounds i (λ v j. not (cb v j)))
unfolding find_index_from find_from some_from every_from check_below
search_from n get cb zero i e h =
    let e' : i ≡ n = omega (arith, e) in
    inr (refl, refl, refl, refl, ap (λ k. check_below k (λ j. not (cb (get j) j))) (sym e') ∙ h)
search_from n get cb (suc rounds) i e h = elim (Bool-cases (cb (get i) i)) [
  | inl passes ↦ rw passes (inl (i, omega (arith, e), refl, refl, refl, refl, passes, h))
  | inr fails ↦ rw fails (search_from n get cb rounds (suc i) (omega (arith, e)) (rw fails h))
]

-- `findIndex`, `find`, `some`, and `every` with the opposite test, agree: either there is an element
-- that passes the test, and they give the first one, or none passes and they say so.
pub find_index-Found {ℓ} :
    {A : Type ℓ} (n : ℕ) (get : ℕ → A) (cb : A → ℕ → Bool)
    → Found n get cb
        (find_index n get cb)
        (find n get cb)
        (some_of n get cb)
        (every n get (λ v j. not (cb v j)))
unfolding check_below
find_index-Found n get cb = search_from n get cb n 0 (omega arith) refl
