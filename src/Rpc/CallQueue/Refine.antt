-- ===== src/Rpc/CallQueue/Refine.antt =====
-- A call queue (src/rpc/call-queue.ts) is a bounded FIFO: each operation against the list of the
-- slots that wait, oldest first.
use capnp_es.Prelude.{
  none, Option-cases, inl, inr, ℕ, zero, suc, ◌+◌, ◌%◌, ◌≤◌, ◌<◌, ◌≡◌, refl, sym, subst, ap, ◌∙◌,
  ltb, ◌==◌, if◌then◌else◌, Bool, Bool-cases, inl, inr, true, false, List, [], ◌∷◌, ◌++◌, length,
  set, ne→==_false, ==_iff, Option, some, arith,
}
use capnp_es.Errors.{Result, ok, err, rpc_call_queue_full}
use capnp_es.Rpc.Queue
use capnp_es.Rpc.Queue.{Queue, new_queue, slot_at}
use capnp_es.Rpc.Queue.Refine.{
  Holds, length-Holds, push-room, push_full, push-Holds, front_lem, pop-Holds, n-pos, cap-pop,
}
use capnp_es.Rpc.CallQueue.{
  Call, Slot, Effect, Answer, error_answer, fulfiller, CallQueue, copy_call, write_slot, push_slot,
  answer_of, push_copied, push, front, drain, flush_slot, reject_slot, refused, reject_loop,
  flush_to, reject_all, local_call,
}

-- The slots `items` wait in the queue.
abbrev pub Waits : CallQueue → List Slot → Type 0
Waits c items = (c.cap ≡ c.q.cap) × Holds c.q items

push_slot-room :
    (slot : Slot) (c : CallQueue)
    → c.q.n < c.q.cap
    → push_slot slot c ≡ (
      true,
      record c {
        q = record c.q { q = set c.q.q ((c.q.start + c.q.n) % c.q.cap) (some slot); n = c.q.n + 1 };
      },
    )
unfolding push_slot
push_slot-room slot c room = ap (write_slot slot c) (push-room c.q room)

push_slot_full : (slot : Slot) (c : CallQueue) → c.q.cap ≤ c.q.n → push_slot slot c ≡ (false, c)
unfolding push_slot
push_slot_full slot c full = ap (write_slot slot c) (push_full c.q full)

-- While there is room a slot is taken in behind the others; a full queue refuses it and stays as it
-- is.
pub push_slot_refines :
    {c : CallQueue} {items : List Slot} (slot : Slot)
    → Waits c items
    → let (done, c') = push_slot slot c in
      (done ≡ ltb (length items) c.cap)
      × Waits c' (if ltb (length items) c.cap then items ++ (slot ∷ []) else items)
      × (c'.cap ≡ c.cap)
push_slot_refines {c} {items} slot (e, h) = elim (Bool-cases (ltb (length items) c.cap)) [
  | inl t ↦
      let room : c.q.n < c.q.cap = ground (arith, length-Holds h) in
      rw (t, push_slot-room slot c room) (refl, (e, push-Holds slot h room), refl)
  | inr t ↦
      let full : c.q.cap ≤ c.q.n = ground (arith, length-Holds h) in
      rw (t, push_slot_full slot c full) (refl, (e, h), refl)
]

-- The answer and the items after a `push` of a call whose copy is `r`.
abbrev pub Pushed : ℕ → CallQueue → List Slot → Result Call → Answer × CallQueue → Type 0
Pushed f c items (err e) (answer, c') = (answer ≡ error_answer e) × Waits c' items
Pushed f c items (ok copied) (answer, c') =
    let room = ltb (length items) c.cap in
    (answer ≡ (if room then fulfiller f else error_answer rpc_call_queue_full))
    × Waits c' (if room then items ++ (local_call copied f ∷ []) else items)

push_copied-Pushed :
    {c : CallQueue} {items : List Slot} (f : ℕ) (r : Result Call)
    → Waits c items
    → Pushed f c items r (push_copied f c r)
unfolding push_copied
push_copied-Pushed f (err e) w = (refl, w)
push_copied-Pushed {c} {items} f (ok copied) w = elim (Bool-cases (ltb (length items) c.cap)) [
  | inl t ↦
      let room : c.q.n < c.q.cap = ground (arith, length-Holds w.1) in
      subst (λ r. Pushed f c items (ok copied) (answer_of f r))
        (sym (push_slot-room (local_call copied f) c room))
        (rw t (refl, (w.0, push-Holds (local_call copied f) w.1 room)))
  | inr t ↦
      let full : c.q.cap ≤ c.q.n = ground (arith, length-Holds w.1) in
      subst (λ r. Pushed f c items (ok copied) (answer_of f r))
        (sym (push_slot_full (local_call copied f) c full)) (rw t (refl, w))
]

-- `push` answers a call that cannot be copied by that error; it queues a copy behind the others and
-- answers with the new fulfiller while there is room, and answers by an error when the queue is
-- full. An error leaves the queue as it is.
pub push-Pushed :
    {c : CallQueue} {items : List Slot} (place : ℕ → ℕ → Result ℕ) (call : Call) (f : ℕ)
    → Waits c items
    → Pushed f c items (copy_call place call) (push place call f c)
unfolding push
push-Pushed place call f w = push_copied-Pushed f (copy_call place call) w

abbrev pub effects : (Slot → List Effect) → List Slot → List Effect
effects body [] = []
effects body (slot ∷ items) = body slot ++ effects body items

-- What a drained queue is like.
abbrev pub Drained : CallQueue → Option (List Effect × CallQueue) → List Effect → Type 0
Drained c r log = (c' : CallQueue) × (r ≡ some (log, c')) × Waits c' [] × (c'.cap ≡ c.cap)

drain-front :
    (fuel : ℕ) (body : Slot → List Effect) (slot : Slot) (c c' : CallQueue) (log : List Effect)
    → (c.q.n == 0) ≡ false
    → front c ≡ some slot
    → drain fuel body (record c { q = (Queue.pop c.q).1 }) ≡ some (log, c')
    → drain (suc fuel) body c ≡ some (body slot ++ log, c')
unfolding drain
drain-front fuel body slot c c' log z e k = rw (z, e, k, drain)

drain_empty :
    (fuel : ℕ) (body : Slot → List Effect) (c : CallQueue)
    → (c.q.n == 0) ≡ true
    → drain fuel body c ≡ some ([], c)
unfolding drain
drain_empty zero body c z = rw z
drain_empty (suc fuel) body c z = rw z

front-Waits :
    {c : CallQueue} {slot : Slot} {items : List Slot} → Waits c (slot ∷ items) → front c ≡ some slot
unfolding front
front-Waits (e, h) = let (i, x) = front_lem h in rw (i, front) x

drain-Waits :
    (body : Slot → List Effect) (items : List Slot) (c : CallQueue) (fuel : ℕ)
    → length items ≤ fuel
    → Waits c items
    → Drained c (drain fuel body c) (effects body items)
drain-Waits body [] c fuel f (e, h) =
    (c, drain_empty fuel body c ((==_iff _ _).1 (sym (length-Holds h))), (e, h), refl)
drain-Waits body (slot ∷ items) c zero f w = absurd (omega arith)
drain-Waits body (slot ∷ items) c (suc fuel) f (e, h) =
    let popped : CallQueue = record c { q = (Queue.pop c.q).1 } in
    let (c', run, w, k) =
      drain-Waits body items popped fuel (omega arith) (e ∙ sym (cap-pop c.q), (pop-Holds h).1) in
    (
      c',
      drain-front fuel body slot c c' (effects body items)
          (ne→==_false c.q.n 0 (omega (arith, n-pos h))) (front-Waits (e, h)) run,
      w,
      k,
    )

-- `flushTo` ends, hands each slot that waits to the target, oldest first and once each, and leaves
-- the queue empty.
pub flush_to-Drained :
    (handles : Bool) {c : CallQueue} {items : List Slot}
    → Waits c items
    → Drained c (flush_to handles c) (effects (flush_slot handles) items)
unfolding flush_to
flush_to-Drained handles {c} {items} w =
    drain-Waits (flush_slot handles) items c c.q.n (omega (arith, length-Holds w.1)) w

-- What `rejectAll` does to the calls that wait, what it throws, and which of them are left: all from
-- the first on whose rejection throws.
abbrev pub rejected : {E : Type 0} → (ℕ → Option E) → List Slot → List Effect × Option E × List Slot
rejected refuse [] = ([], none, [])
rejected refuse (slot ∷ items) =
    let (log, e, left) = rejected refuse items in
    elim (refused refuse slot) [
      | some x ↦ (reject_slot slot, some x, slot ∷ items)
      | none ↦ (reject_slot slot ++ log, e, left)
    ]

abbrev pub Rejected :
    {E : Type 0}
    → CallQueue
    → Option (List Effect × Option E × CallQueue)
    → List Effect × Option E × List Slot
    → Type 0
Rejected c r (log, e, left) =
    (c' : CallQueue) × (r ≡ some (log, e, c')) × Waits c' left × (c'.cap ≡ c.cap)

reject_loop_empty :
    {E : Type 0} (fuel : ℕ) (refuse : ℕ → Option E) (c : CallQueue)
    → (c.q.n == 0) ≡ true
    → reject_loop fuel refuse c ≡ some ([], none, c)
unfolding reject_loop
reject_loop_empty zero refuse c z = rw z
reject_loop_empty (suc fuel) refuse c z = rw z

-- A round of the loop, where the rejection of the front throws or does not.
module _ {E : Type 0} (refuse : ℕ → Option E) (fuel : ℕ) (slot : Slot) (c : CallQueue)
    (some_call : (c.q.n == 0) ≡ false) (first : front c ≡ some slot) where
  reject_loop-thrown :
      {e : E}
      → refused refuse slot ≡ some e
      → reject_loop (suc fuel) refuse c ≡ some (reject_slot slot, some e, c)
  unfolding reject_loop
  reject_loop-thrown h = rw (some_call, first, h) refl

  reject_loop-front :
      {log : List Effect} {e : Option E} {c' : CallQueue}
      → refused refuse slot ≡ none
      → reject_loop fuel refuse (record c { q = (Queue.pop c.q).1 }) ≡ some (log, e, c')
      → reject_loop (suc fuel) refuse c ≡ some (reject_slot slot ++ log, e, c')
  unfolding reject_loop
  reject_loop-front h run = rw (some_call, first, h, run) refl

rejected-thrown :
    {E : Type 0} (refuse : ℕ → Option E) (slot : Slot) (items : List Slot) {e : E}
    → refused refuse slot ≡ some e
    → rejected refuse (slot ∷ items) ≡ (reject_slot slot, some e, slot ∷ items)
rejected-thrown refuse slot items h = rw (rejected, h) refl

rejected-front :
    {E : Type 0} (refuse : ℕ → Option E) (slot : Slot) (items : List Slot)
    → refused refuse slot ≡ none
    → rejected refuse (slot ∷ items) ≡ (
      reject_slot slot ++ (rejected refuse items).0,
      (rejected refuse items).1,
      (rejected refuse items).2,
    )
rejected-front refuse slot items h = rw (rejected, h) refl

reject_loop-Rejected :
    {E : Type 0} (refuse : ℕ → Option E) (items : List Slot) (c : CallQueue) (fuel : ℕ)
    → length items ≤ fuel
    → Waits c items
    → Rejected c (reject_loop fuel refuse c) (rejected refuse items)
reject_loop-Rejected refuse [] c fuel f (e, h) =
    (c, reject_loop_empty fuel refuse c ((==_iff _ _).1 (sym (length-Holds h))), (e, h), refl)
reject_loop-Rejected refuse (slot ∷ items) c zero f w = absurd (omega arith)
reject_loop-Rejected refuse (slot ∷ items) c (suc fuel) f (e, h) =
    let popped : CallQueue = record c { q = (Queue.pop c.q).1 } in
    let (c', run, w, k) =
      reject_loop-Rejected refuse items popped fuel (omega arith)
        (e ∙ sym (cap-pop c.q), (pop-Holds h).1) in
    let z : (c.q.n == 0) ≡ false = ne→==_false c.q.n 0 (omega (arith, n-pos h)) in
    let x : front c ≡ some slot = front-Waits (e, h) in
    elim (Option-cases (refused refuse slot)) [
      | inl fine ↦
          subst (Rejected c (reject_loop (suc fuel) refuse c))
            (sym (rejected-front refuse slot items fine))
            (c', reject_loop-front refuse fuel slot c z x fine run, w, k)
      | inr (y, thrown) ↦
          subst (Rejected c (reject_loop (suc fuel) refuse c))
            (sym (rejected-thrown refuse slot items thrown))
            (c, reject_loop-thrown refuse fuel slot c z x thrown, (e, h), refl)
    ]

-- `rejectAll` ends: it rejects the calls that wait, oldest first and once each, up to the first
-- whose rejection throws. It throws the same, and this call and all behind it still wait in their
-- order; where none throws, the queue is left empty.
pub reject_all-Rejected :
    {E : Type 0} (refuse : ℕ → Option E) {c : CallQueue} {items : List Slot}
    → Waits c items
    → Rejected c (reject_all refuse c) (rejected refuse items)
unfolding reject_all
reject_all-Rejected refuse {c} {items} w =
    reject_loop-Rejected refuse items c c.q.n (omega (arith, length-Holds w.1)) w
