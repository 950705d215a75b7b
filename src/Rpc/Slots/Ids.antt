-- ===== src/Rpc/Slots/Ids.antt =====
-- What adding an entry to a table of slots (src/rpc/conn.ts) and nulling one do, where the table
-- and its generator of ids (src/rpc/idgen.ts) agree.
use capnp_es.Prelude.{
  ℕ, ◌+◌, ◌≡◌, sym, ap, subst, ◌∙◌, ◌==◌, if◌then◌else◌, true, List, [], ◌∷◌, ◌++◌, set, Option,
  none, some, arith, length-append, length-set,
}
use capnp_es.Rpc.IdGen.{IdGen, next, next_from, remove}
use capnp_es.Rpc.Slots.{
  find_slot, put_slot, null_at, Agrees, null_at-append, null_at-set, null_at-clear, null_at→lt,
  null_at→none, found→lt, found→not_null, find_slot-length, find_slot-append, find_slot-set,
}

module _ {A : Type 0} where
  -- What `put_slot` at the id that the generator gives has done.
  pub record Put (g : IdGen) (slots : List (Option A)) (a : A) : Type 0 where
    pub agrees : Agrees (next g).1 (put_slot (next g).0 a slots)
    pub was_free : find_slot slots (next g).0 ≡ none
    pub finds :
        (x : ℕ)
        → find_slot (put_slot (next g).0 a slots) x
          ≡ (if x == (next g).0 then some a else find_slot slots x)

  new-Put :
      (i : ℕ) (slots : List (Option A)) (a : A)
      → Agrees (record { i = i; free = [] }) slots
      → Put (record { i = i; free = [] }) slots a
  unfolding next next_from
  new-Put i slots a (e, h) =
      let appended : put_slot i a slots ≡ slots ++ (some a ∷ []) = ground arith in
      record {
        agrees =
            subst (λ l. Agrees (record { i = i + 1; free = [] }) l) (sym appended)
              (
                omega (arith, length-append slots (some a ∷ [])),
                λ x. h x ∙ ap (λ b. if b then 1 else 0) (sym (null_at-append slots a x)),
              );
        was_free = subst (λ n. find_slot slots n ≡ none) (sym e) (find_slot-length slots);
        finds = λ x. rw appended (ground (arith, find_slot-append slots a x));
      }

  freed-Put :
      (i id : ℕ) (free : List ℕ) (slots : List (Option A)) (a : A)
      → Agrees (record { i = i; free = id ∷ free }) slots
      → Put (record { i = i; free = id ∷ free }) slots a
  unfolding next next_from
  freed-Put i id free slots a (e, h) =
      let null : null_at slots id ≡ true = ground (arith, h id) in
      let bound = null_at→lt slots id null in
      let written : put_slot id a slots ≡ set slots id (some a) = ground (arith, bound) in
      record {
        agrees =
            subst (λ l. Agrees (record { i = i; free = free }) l) (sym written)
              (
                omega (arith, length-set slots id (some a)),
                λ x. ground (arith, h x, null, null_at-set slots id a x),
              );
        was_free = null_at→none slots id null;
        finds = λ x. rw written (find_slot-set slots id (some a) x bound);
      }

  -- The id that the generator gives is that of a null or the end of the array: no entry is
  -- overwritten, the new one is found there and the others where they were.
  pub put_slot_lem : (g : IdGen) (slots : List (Option A)) (a : A) → Agrees g slots → Put g slots a
  put_slot_lem g slots a h = by_free g.free g.i h
    where
      by_free :
          (free : List ℕ) (i : ℕ)
          → Agrees (record { i = i; free = free }) slots
          → Put (record { i = i; free = free }) slots a
      by_free [] i h = new-Put i slots a h
      by_free (id ∷ free) i h = freed-Put i id free slots a h

  -- Nulling a slot with an entry and removing its id keeps the two together.
  pub clear-Agrees :
      (g : IdGen) (slots : List (Option A)) (id : ℕ) {a : A}
      → find_slot slots id ≡ some a
      → Agrees g slots
      → Agrees (remove id g) (set slots id none)
  unfolding remove
  clear-Agrees g slots id found (e, h) = (
    omega (arith, length-set slots id none),
    λ x. ground (
      arith,
      h x,
      found→not_null slots id found,
      null_at-clear slots id x (found→lt slots id found),
    ),
  )

  pub write-Agrees :
      (g : IdGen) (slots : List (Option A)) (id : ℕ) {a : A} (b : A)
      → find_slot slots id ≡ some a
      → Agrees g slots
      → Agrees g (set slots id (some b))
  write-Agrees g slots id b found (e, h) = (
    omega (arith, length-set slots id (some b)),
    λ x. ground (arith, h x, found→not_null slots id found, null_at-set slots id b x),
  )
