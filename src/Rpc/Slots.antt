-- ===== src/Rpc/Slots.antt =====
-- The tables of src/rpc/conn.ts that are arrays with nulls and a generator of ids beside them: the
-- questions and the exports. The state that the two must keep together, and what adding an entry
-- and nulling one do to it.
pub mod Ids
use capnp_es.Prelude.{
  ℕ, zero, suc, ◌+◌, ◌<◌, ◌≡◌, ◌≢◌, refl, ap, ◌∙◌, ◌==◌, ltb, if◌then◌else◌, Bool, true, false,
  List, [], ◌∷◌, ◌++◌, length, get_elem?, set, Option, none, some, arith, length-append, length-set,
}
use capnp_es.Rpc.IdGen.{IdGen, next, next_from, remove, count}

module _ {A : Type 0} where
  -- `if (id >= slots.length) return null; return slots[id]`
  abbrev pub find_slot : List (Option A) → ℕ → Option A
  find_slot [] i = none
  find_slot (s ∷ slots) zero = s
  find_slot (s ∷ slots) (suc i) = find_slot slots i

  -- `if (id === slots.length) slots.push(a); else slots[id] = a`
  abbrev pub put_slot : ℕ → A → List (Option A) → List (Option A)
  put_slot id a slots = if id == length slots then slots ++ (some a ∷ []) else set slots id (some a)

  -- A slot in the array that holds null.
  abbrev pub null_at : List (Option A) → ℕ → Bool
  null_at [] i = false
  null_at (none ∷ slots) zero = true
  null_at (some a ∷ slots) zero = false
  null_at (s ∷ slots) (suc i) = null_at slots i

  -- The counter is the length of the array, and the ids that can be given again are those of its
  -- nulls, each of them once.
  abbrev pub Agrees : IdGen → List (Option A) → Type 0
  Agrees g slots =
      (g.i ≡ length slots) × ((x : ℕ) → count x g.free ≡ (if null_at slots x then 1 else 0))

  pub null_at-append :
      (slots : List (Option A)) (a : A) (x : ℕ)
      → null_at (slots ++ (some a ∷ [])) x ≡ null_at slots x
  null_at-append [] a zero = refl
  null_at-append [] a (suc x) = refl
  null_at-append (none ∷ slots) a zero = refl
  null_at-append (some b ∷ slots) a zero = refl
  null_at-append (none ∷ slots) a (suc x) = null_at-append slots a x
  null_at-append (some b ∷ slots) a (suc x) = null_at-append slots a x

  pub null_at-set :
      (slots : List (Option A)) (id : ℕ) (a : A) (x : ℕ)
      → null_at (set slots id (some a)) x ≡ (if id == x then false else null_at slots x)
  null_at-set [] id a x = ground arith
  null_at-set (none ∷ slots) zero a zero = refl
  null_at-set (some b ∷ slots) zero a zero = refl
  null_at-set (none ∷ slots) zero a (suc x) = ground arith
  null_at-set (some b ∷ slots) zero a (suc x) = ground arith
  null_at-set (none ∷ slots) (suc id) a zero = ground arith
  null_at-set (some b ∷ slots) (suc id) a zero = ground arith
  null_at-set (none ∷ slots) (suc id) a (suc x) = ground (arith, null_at-set slots id a x)
  null_at-set (some b ∷ slots) (suc id) a (suc x) = ground (arith, null_at-set slots id a x)

  pub null_at-clear :
      (slots : List (Option A)) (id x : ℕ)
      → id < length slots
      → null_at (set slots id none) x ≡ (if id == x then true else null_at slots x)
  null_at-clear [] id x h = absurd (omega arith)
  null_at-clear (none ∷ slots) zero zero h = refl
  null_at-clear (some b ∷ slots) zero zero h = refl
  null_at-clear (none ∷ slots) zero (suc x) h = ground arith
  null_at-clear (some b ∷ slots) zero (suc x) h = ground arith
  null_at-clear (none ∷ slots) (suc id) zero h = ground arith
  null_at-clear (some b ∷ slots) (suc id) zero h = ground arith
  null_at-clear (none ∷ slots) (suc id) (suc x) h =
      ground (arith, null_at-clear slots id x (omega arith))
  null_at-clear (some b ∷ slots) (suc id) (suc x) h =
      ground (arith, null_at-clear slots id x (omega arith))

  pub null_at→lt : (slots : List (Option A)) (x : ℕ) → null_at slots x ≡ true → x < length slots
  null_at→lt [] x h = cc
  null_at→lt (s ∷ slots) zero h = omega arith
  null_at→lt (none ∷ slots) (suc x) h = omega (arith, null_at→lt slots x h)
  null_at→lt (some a ∷ slots) (suc x) h = omega (arith, null_at→lt slots x h)

  pub null_at→none :
      (slots : List (Option A)) (x : ℕ) → null_at slots x ≡ true → find_slot slots x ≡ none
  null_at→none [] x h = refl
  null_at→none (none ∷ slots) zero h = refl
  null_at→none (some a ∷ slots) zero h = cc
  null_at→none (none ∷ slots) (suc x) h = null_at→none slots x h
  null_at→none (some a ∷ slots) (suc x) h = null_at→none slots x h

  pub found→lt :
      (slots : List (Option A)) (x : ℕ) {a : A} → find_slot slots x ≡ some a → x < length slots
  found→lt [] x h = cc
  found→lt (s ∷ slots) zero h = omega arith
  found→lt (s ∷ slots) (suc x) h = omega (arith, found→lt slots x h)

  found→not_null :
      (slots : List (Option A)) (x : ℕ) {a : A}
      → find_slot slots x ≡ some a
      → null_at slots x ≡ false
  found→not_null [] x h = refl
  found→not_null (none ∷ slots) zero h = cc
  found→not_null (some a ∷ slots) zero h = refl
  found→not_null (none ∷ slots) (suc x) h = found→not_null slots x h
  found→not_null (some a ∷ slots) (suc x) h = found→not_null slots x h

  pub find_slot-length : (slots : List (Option A)) → find_slot slots (length slots) ≡ none
  find_slot-length [] = refl
  find_slot-length (s ∷ slots) = find_slot-length slots

  pub find_slot-append :
      (slots : List (Option A)) (a : A) (x : ℕ)
      → find_slot (slots ++ (some a ∷ [])) x
        ≡ (if x == length slots then some a else find_slot slots x)
  find_slot-append [] a zero = refl
  find_slot-append [] a (suc x) = ground arith
  find_slot-append (s ∷ slots) a zero = ground arith
  find_slot-append (s ∷ slots) a (suc x) = ground (arith, find_slot-append slots a x)

  pub find_slot-set :
      (slots : List (Option A)) (id : ℕ) (s : Option A) (x : ℕ)
      → id < length slots
      → find_slot (set slots id s) x ≡ (if x == id then s else find_slot slots x)
  find_slot-set [] id s x h = absurd (omega arith)
  find_slot-set (t ∷ slots) zero s zero h = refl
  find_slot-set (t ∷ slots) zero s (suc x) h = ground arith
  find_slot-set (t ∷ slots) (suc id) s zero h = ground arith
  find_slot-set (t ∷ slots) (suc id) s (suc x) h =
      ground (arith, find_slot-set slots id s x (omega arith))
