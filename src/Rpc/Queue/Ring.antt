-- ===== src/Rpc/Queue/Ring.antt =====
-- The slots of a queue (src/rpc/queue.ts) in their order, from the front on.
use capnp_es.Prelude.{
  ℕ, zero, suc, ◌+◌, ◌-◌, ◌%◌, ◌≤◌, ◌<◌, ◌≡◌, refl, sym, ap, ◌∙◌, ◌≢◌, ◌⊎◌, inl, inr, List, [], ◌∷◌,
  ◌++◌, length, length-append, get_elem?-set_self, get_elem?-set_ne, set, Option, arith,
}
use native.Mathlib.Nat.{mod-eq_of_lt, mod-eq-sub-mod, mod-add-mod}
use native.Mathlib.Decide.{dec_lt}
use capnp_es.Rpc.Queue.{slot_at}

mod-cases : (x c : ℕ) → x < c + c → (x % c ≡ x) × (x < c) ⊎ (x % c ≡ x - c) × (c ≤ x)
mod-cases x c h = elim (dec_lt x c) [
  | yes p ↦ inl (mod-eq_of_lt p, p)
  | no p ↦
      inr (mod-eq-sub-mod {n = x} {m = c} (omega arith) ∙ mod-eq_of_lt (omega arith), omega arith)
]

-- Two of fewer than `cap` steps from `start` on lead to different slots.
mod-ne : (start i j cap : ℕ) → start < cap → i < j → j < cap → (start + j) % cap ≢ (start + i) % cap
mod-ne start i j cap hs hij hj e =
    ground (arith, mod-cases (start + i) cap (omega arith), mod-cases (start + j) cap (omega arith))

module _ {A : Type 0} where
  slot_at-set_self :
      (q : List (Option A)) (i : ℕ) (v : Option A) → i < length q → slot_at (set q i v) i ≡ v
  slot_at-set_self q i v h = rw (get_elem?-set_self q i v h, slot_at)

  slot_at-set_ne :
      (q : List (Option A)) (i j : ℕ) (v : Option A) → i ≢ j → slot_at (set q i v) j ≡ slot_at q j
  slot_at-set_ne q i j v h = rw (get_elem?-set_ne q v h, slot_at)

  -- The `n` slots from `start` on, going round at `cap`.
  abbrev pub window : List (Option A) → ℕ → ℕ → ℕ → List (Option A)
  window q cap start zero = []
  window q cap start (suc n) = window q cap start n ++ (slot_at q ((start + n) % cap) ∷ [])

  pub length-window : (q : List (Option A)) (cap start n : ℕ) → length (window q cap start n) ≡ n
  length-window q cap start zero = refl
  length-window q cap start (suc n) = omega (
    arith,
    length-append (window q cap start n) (slot_at q ((start + n) % cap) ∷ []),
    length-window q cap start n,
  )

  -- A write outside the window leaves it as it is.
  window-set_ne :
      (q : List (Option A)) (cap start n i : ℕ) (v : Option A)
      → ((k : ℕ) → k < n → i ≢ (start + k) % cap)
      → window (set q i v) cap start n ≡ window q cap start n
  window-set_ne q cap start zero i v h = refl
  window-set_ne q cap start (suc n) i v h = rw (
    window-set_ne q cap start n i v (λ k hk. h k (omega arith)),
    slot_at-set_ne q i ((start + n) % cap) v (h n (omega arith)),
  )

  -- Writing the slot behind a window extends it.
  pub window-push :
      (q : List (Option A)) (cap start n : ℕ) (v : Option A)
      → cap ≡ length q
      → start < cap
      → n < cap
      → window (set q ((start + n) % cap) v) cap start (suc n) ≡ window q cap start n ++ (v ∷ [])
  window-push q cap start n v hq hs hn = rw (
    window-set_ne q cap start n ((start + n) % cap) v (λ k hk. mod-ne start k n cap hs hk hn),
    slot_at-set_self q ((start + n) % cap) v (omega arith),
  )

  -- The front of a window, and the window behind it.
  pub window-front :
      (q : List (Option A)) (cap start n : ℕ)
      → start < cap
      → window q cap start (suc n) ≡ slot_at q start ∷ window q cap ((start + 1) % cap) n
  window-front q cap start zero hs =
      ap (λ k. slot_at q k ∷ []) (ap (λ k. k % cap) (omega arith) ∙ mod-eq_of_lt hs)
  window-front q cap start (suc n) hs = rw (window-front q cap start n hs) (
      ap (λ k. slot_at q start ∷ (window q cap ((start + 1) % cap) n ++ (slot_at q k ∷ [])))
        (ap (λ k. k % cap) (omega arith) ∙ sym (mod-add-mod (start + 1) cap n)))

  -- Clearing the front leaves the window behind it as it is.
  pub window-clear :
      (q : List (Option A)) (cap start n : ℕ) (v : Option A)
      → start < cap
      → n < cap
      → window (set q start v) cap ((start + 1) % cap) n ≡ window q cap ((start + 1) % cap) n
  window-clear q cap start n v hs hn = window-set_ne q cap ((start + 1) % cap) n start v (λ k hk e.
      mod-ne start 0 (1 + k) cap hs (omega arith) (omega arith) (
        ap (λ j. j % cap) (omega arith)
        ∙ sym (mod-add-mod (start + 1) cap k)
        ∙ sym e
        ∙ sym (mod-eq_of_lt hs)
        ∙ ap (λ j. j % cap) (omega arith)))
