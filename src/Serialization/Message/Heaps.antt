-- ===== src/Serialization/Message/Heaps.antt =====
-- Buffers of a heap that grows, and a write to one segment of a list.
use capnp_es.Prelude.{
  ℕ, zero, suc, ◌≤◌, ◌<◌, ◌≡◌, refl, ap, ◌∙◌, subst, List, [], ◌∷◌, ◌++◌, map, length, get_elem?,
  set, take, none, some, arith,
}
use capnp_es.Prelude.Slices.{All}
use capnp_es.Serialization.Arena.{Buffer, Heap, buffer_at}

pub buffer_at-append :
    (h rest : Heap) (r : ℕ) → r < length h → buffer_at (h ++ rest) r ≡ buffer_at h r
buffer_at-append [] rest r p = absurd (omega arith)
buffer_at-append (b ∷ h) rest zero p = refl
buffer_at-append (b ∷ h) rest (suc r) p = buffer_at-append h rest r (omega arith)

pub buffer_at_last : (h : Heap) (b : Buffer) → buffer_at (h ++ (b ∷ [])) (length h) ≡ b
buffer_at_last [] b = refl
buffer_at_last (c ∷ h) b = buffer_at_last h b

module _ {A : Type 0} where
  pub get_elem?_last : (l : List A) (x : A) → get_elem? (l ++ (x ∷ [])) (length l) ≡ some x
  get_elem?_last [] x = refl
  get_elem?_last (y ∷ l) x = get_elem?_last l x

  pub get_elem?-length : (l : List A) → get_elem? l (length l) ≡ none
  get_elem?-length [] = refl
  get_elem?-length (y ∷ l) = get_elem?-length l

  pub set_last : (l : List A) (x y : A) → set (l ++ (x ∷ [])) (length l) y ≡ l ++ (y ∷ [])
  set_last [] x y = refl
  set_last (z ∷ l) x y = ap (λ k. z ∷ k) (set_last l x y)

  pub get_elem?-set_same :
      (l : List A) (i : ℕ) {x : A} (y : A)
      → get_elem? l i ≡ some x
      → get_elem? (set l i y) i ≡ some y
  get_elem?-set_same [] i y e = cc
  get_elem?-set_same (z ∷ l) zero y e = refl
  get_elem?-set_same (z ∷ l) (suc i) y e = get_elem?-set_same l i y e

  -- A write that keeps what `f` sees.
  pub map-set :
      {B : Type 0} (f : A → B) (l : List A) (i : ℕ) {x : A} (y : A)
      → get_elem? l i ≡ some x
      → f y ≡ f x
      → map f (set l i y) ≡ map f l
  map-set f [] i y e h = refl
  map-set f (z ∷ l) zero {x} y e h = ap (λ b. b ∷ map f l) (h ∙ ap f (cc e))
  map-set f (z ∷ l) (suc i) y e h = ap (λ k. f z ∷ k) (map-set f l i y e h)

  pub All-set : (P : A → Type 0) (l : List A) (i : ℕ) (y : A) → All P l → P y → All P (set l i y)
  All-set P [] i y h p = tt
  All-set P (z ∷ l) zero y h p = (p, h.1)
  All-set P (z ∷ l) (suc i) y h p = (h.0, All-set P l i y h.1 p)

  pub All-get_elem? :
      (P : A → Type 0) (l : List A) (i : ℕ) {x : A} → All P l → get_elem? l i ≡ some x → P x
  All-get_elem? P [] i h e = absurd (cc e)
  All-get_elem? P (z ∷ l) zero h e = subst P (cc e) h.0
  All-get_elem? P (z ∷ l) (suc i) h e = All-get_elem? P l i h.1 e

  pub take-append_of_le : (n : ℕ) (xs ys : List A) → n ≤ length xs → take n (xs ++ ys) ≡ take n xs
  take-append_of_le zero xs ys h = refl
  take-append_of_le (suc n) [] ys h = absurd (omega arith)
  take-append_of_le (suc n) (x ∷ xs) ys h =
      ap (λ l. x ∷ l) (take-append_of_le n xs ys (omega arith))
