-- ===== src/Rpc/CallQueue.antt =====
-- src/rpc/call-queue.ts: the bounded queue of calls that wait for a capability to settle, and
-- `copyCall` of src/rpc/call.ts. Clients, fulfillers, answers, methods and message targets are
-- named by numbers. While a queue is flushed, the target's `call` does not
-- throw; what a flush or a rejection calls does not reach back into the queue.
pub mod Refine
pub mod Copy
use capnp_es.Prelude.{
  ℕ, zero, suc, ◌+◌, ◌-◌, ◌%◌, ◌<◌, max, ltb, ◌==◌, if◌then◌else◌, Bool, true, false, List, [], ◌∷◌,
  ◌++◌, length, replicate, set, Option, none, some,
}
use mathlib.Core.Option
use capnp_es.Errors.{Error, rpc_call_queue_full, Result, ok, err}
use capnp_es.Rpc.Queue
use capnp_es.Rpc.Queue.{Queue, new_queue, slot_at}

abbrev pub call_queue_size : ℕ
call_queue_size = 64

-- `DataCall` and `FuncCall`.
pub data Call : Type 0 where
  data_call : ℕ → ℕ → Call
  func_call : ℕ → ℕ → Call

-- `place` stands for `placeParams`, which runs the caller's `paramsFunc` on a new message.
unfoldable pub copy_call : (ℕ → ℕ → Result ℕ) → Call → Result Call
copy_call place (data_call method params) = ok (data_call method params)
copy_call place (func_call method params_func) = elim (place method params_func) [
  | ok params ↦ ok (data_call method params)
  | err e ↦ err e
]

-- `AnswerQCall`: `{call, f}`, `{call, a}` and `{embargoID, embargoTarget}`.
pub data Slot : Type 0 where
  local_call : Call → ℕ → Slot
  remote_call : Call → ℕ → Slot
  disembargo : ℕ → ℕ → Slot

-- What a slot makes the queue do to others, in the order in which it is done.
pub data Effect : Type 0 where
  -- `joinAnswer(f, target.call(call))`, of a fulfiller and of an answer entry
  join_local : ℕ → Call → Effect
  join_remote : ℕ → Call → Effect
  handle_disembargo : ℕ → ℕ → Effect
  -- `f.tryReject(err)` and `a.reject(err)`
  reject_local : ℕ → Effect
  reject_remote : ℕ → Effect

-- What `push` answers: an `ErrorAnswer` or the new fulfiller.
pub data Answer : Type 0 where
  error_answer : Error → Answer
  fulfiller : ℕ → Answer

pub record CallQueue : Type 0 where
  pub cap : ℕ
  pub q : Queue Slot

-- `for (const [i, slot] of initial.entries()) data[i] = slot`
pub fill : ℕ → List Slot → List (Option Slot) → List (Option Slot)
fill i [] slots = slots
fill i (slot ∷ initial) slots = fill (i + 1) initial (set slots i (some slot))

unfoldable pub new_call_queue : ℕ → List Slot → CallQueue
new_call_queue cap initial =
    let cap' = max cap (length initial) in
    record { cap = cap'; q = new_queue (fill 0 initial (replicate cap' none)) (length initial) }

unfoldable pub from_answer_q_calls : List Slot → CallQueue
from_answer_q_calls calls = new_call_queue call_queue_size calls

abbrev pub is_empty : CallQueue → Bool
is_empty c = c.q.n == 0

-- What `pushSlot` does with the index that the ring gives.
pub write_slot : Slot → CallQueue → Option ℕ × Queue Slot → Bool × CallQueue
write_slot slot c (none, q) = (false, record c { q = q })
write_slot slot c (some i, q) = (true, record c { q = record q { q = set q.q i (some slot) } })

pub push_slot : Slot → CallQueue → Bool × CallQueue
unfolding write_slot
push_slot slot c = write_slot slot c (Queue.push c.q)

pub front : CallQueue → Option Slot
front c = elim (Queue.front c.q) [ none ↦ none | some i ↦ slot_at c.q.q i ]

abbrev pub push_prepared_local : Call → ℕ → CallQueue → Bool × CallQueue
push_prepared_local call f = push_slot (local_call call f)

abbrev pub push_disembargo : ℕ → ℕ → CallQueue → Bool × CallQueue
push_disembargo id target = push_slot (disembargo id target)

-- The answer of `push` by what `pushPreparedLocal` returns; `f` is the new fulfiller.
pub answer_of : ℕ → Bool × CallQueue → Answer × CallQueue
answer_of f (true, c) = (fulfiller f, c)
answer_of f (false, c) = (error_answer rpc_call_queue_full, c)

-- What `push` does with the copy of the call, or with the error that copying throws.
pub push_copied : ℕ → CallQueue → Result Call → Answer × CallQueue
unfolding answer_of
push_copied f c (err e) = (error_answer e, c)
push_copied f c (ok copied) = answer_of f (push_prepared_local copied f c)

pub push : (ℕ → ℕ → Result ℕ) → Call → ℕ → CallQueue → Answer × CallQueue
unfolding push_copied
push place call f c = push_copied f c (copy_call place call)

-- The body of the loop of `flushTo` but for the pop; `handles` says whether a handler is given.
unfoldable pub flush_slot : Bool → Slot → List Effect
flush_slot handles (local_call call f) = join_local f call ∷ []
flush_slot handles (remote_call call a) = join_remote a call ∷ []
flush_slot handles (disembargo id target) = if handles then handle_disembargo id target ∷ [] else []

unfoldable pub reject_slot : Slot → List Effect
reject_slot (local_call call f) = reject_local f ∷ []
reject_slot (remote_call call a) = reject_remote a ∷ []
reject_slot (disembargo id target) = []

-- The loop of `flushTo`: while the queue is not empty, treat the front and pop it; a null slot breaks it off. `none` means that the fuel ran out.
pub drain : ℕ → (Slot → List Effect) → CallQueue → Option (List Effect × CallQueue)
drain zero body c = if is_empty c then some ([], c) else none
drain (suc fuel) body c =
    let rest = drain fuel body (record c { q = (Queue.pop c.q).1 }) in
    if is_empty c then some ([], c) else elim (front c) [
      | none ↦ some ([], c)
      | some slot ↦ Option.map (λ r. (body slot ++ r.0, r.1)) rest
    ]

-- A round pops a slot, so as many rounds as slots are enough.
pub flush_to : Bool → CallQueue → Option (List Effect × CallQueue)
flush_to handles c = drain c.q.n (flush_slot handles) c

-- What rejecting a slot throws, where `refuse` says what the `reject` of an answer entry throws. The
-- `tryReject` of a fulfiller does not throw.
unfoldable pub refused : {E : Type 0} → (ℕ → Option E) → Slot → Option E
refused refuse (local_call call f) = none
refused refuse (remote_call call a) = refuse a
refused refuse (disembargo id target) = none

-- The loop of `rejectAll`: what it does, what it throws, and the queue that is left. A slot whose
-- rejection throws has not been popped.
pub reject_loop :
    {E : Type 0} → ℕ → (ℕ → Option E) → CallQueue → Option (List Effect × Option E × CallQueue)
reject_loop zero refuse c = if is_empty c then some ([], none, c) else none
reject_loop (suc fuel) refuse c =
    let rest = reject_loop fuel refuse (record c { q = (Queue.pop c.q).1 }) in
    if is_empty c then some ([], none, c) else elim (front c) [
      | none ↦ some ([], none, c)
      | some slot ↦ elim (refused refuse slot) [
        | some e ↦ some (reject_slot slot, some e, c)
        | none ↦ Option.map (λ r. (reject_slot slot ++ r.0, r.1, r.2)) rest
      ]
    ]

pub reject_all :
    {E : Type 0} → (ℕ → Option E) → CallQueue → Option (List Effect × Option E × CallQueue)
reject_all refuse c = reject_loop c.q.n refuse c

-- The loop of `snapshot` from `n` on, with `rounds` still to do.
pub snapshot_from : ℕ → ℕ → CallQueue → List Slot
snapshot_from zero n c = []
snapshot_from (suc rounds) n c =
    let rest = snapshot_from rounds (n + 1) c in
    elim (slot_at c.q.q ((c.q.start + n) % c.q.cap)) [ none ↦ rest | some slot ↦ slot ∷ rest ]

pub snapshot : CallQueue → List Slot
snapshot c = snapshot_from c.q.n 0 c

pub copy : CallQueue → CallQueue
copy c = new_call_queue c.cap (snapshot c)
