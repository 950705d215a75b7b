-- ===== src/Rpc/Queue.antt =====
-- src/rpc/queue.ts: the ring arithmetic of a queue over a storage of fixed length. The storage is
-- the `CallQueueStorage` of src/rpc/call-queue.ts, an array of slots or null.
pub mod Ring
pub mod Refine
use capnp_es.Prelude.{
  ℕ, zero, suc, ◌+◌, ◌-◌, ◌%◌, leb, ◌==◌, if◌then◌else◌, Bool, true, false, List, [], ◌∷◌, length,
  get_elem?, set, Option, none, some,
}

pub record Queue (A : Type 0) : Type 0 where
  pub q : List (Option A)
  pub start : ℕ
  pub cap : ℕ
  pub n : ℕ

module _ {A : Type 0} where
  -- The constructor, with `start = 0` and `cap = q.len()`.
  unfoldable pub new_queue : List (Option A) → ℕ → Queue A
  new_queue q n = record { q = q; start = 0; cap = length q; n = n }

  abbrev pub len : Queue A → ℕ
  len s = s.n

  -- `none` is the index -1.
  pub push : Queue A → Option ℕ × Queue A
  push s =
      if leb s.cap s.n
      then (none, s)
      else (some ((s.start + s.n) % s.cap), record s { n = s.n + 1 })

  pub front : Queue A → Option ℕ
  front s = if s.n == 0 then none else some s.start

  -- `this.q.clear(this.start)` puts null into the slot.
  pub pop : Queue A → Bool × Queue A
  pop s =
      if s.n == 0
      then (false, s)
      else (true, record s { q = set s.q s.start none; start = (s.start + 1) % s.cap; n = s.n - 1 })

  -- `data[i]`; behind the end it is undefined, which the callers treat as null.
  abbrev pub slot_at : List (Option A) → ℕ → Option A
  slot_at q i = elim (get_elem? q i) [ none ↦ none | some s ↦ s ]
