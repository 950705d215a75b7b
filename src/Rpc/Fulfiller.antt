-- ===== src/Rpc/Fulfiller.antt =====
-- src/rpc/fulfiller/fulfiller.ts: a promise for the results of a call, which queues pipelined calls
-- until it is settled. Fulfillers, result structs, transforms and capabilities are named by numbers;
-- what is done to other fulfillers and clients is a list of events.
pub mod Groups
pub mod Settle
use capnp_es.Prelude.{
  ℕ, ◌+◌, ◌==◌, leb, if◌then◌else◌, Bool, true, false, List, [], ◌∷◌, ◌++◌, map, length, set,
  Option, none, some,
}
use mathlib.Core.Option
use capnp_es.Errors.{
  Error, rpc_call_queue_full, rpc_null_client, invariant_unreachable_code,
  fulfilled_after_settlement, rejected_after_settlement, Result, ok, err,
}
use capnp_es.Rpc.Queue.{slot_at}
use capnp_es.Rpc.CallQueue.{
  Call, data_call, func_call, copy_call, Effect, Answer, error_answer, fulfiller, CallQueue,
  new_call_queue, push_prepared_local, call_queue_size,
}
use capnp_es.Rpc.HeldClient.{new_embargo_client}

-- `pcall`
pub record PCall : Type 0 where
  pub call : Call
  pub f : ℕ
  pub transform : ℕ

-- The promise of `deferred`.
pub data Deferred : Type 0 where
  pending : Deferred
  resolved : ℕ → Deferred
  rejected : Error → Deferred

-- `answer` is the struct of the ImmediateAnswer.
pub record Fulfiller : Type 0 where
  pub settled : Bool
  pub answer : Option ℕ
  pub queue : List PCall
  pub deferred : Deferred

abbrev pub new_fulfiller : Fulfiller
new_fulfiller = record { settled = false; answer = none; queue = []; deferred = pending }

pub data Event : Type 0 where
  -- `f.tryReject(err)` and `f.reject(err)` of the fulfiller of a queued call
  reject_other : ℕ → Error → Event
  -- what the new embargo client of a capability does as it flushes its queue
  flushed : ℕ → List Effect → Event

-- Whether it settled, the events, and the fulfiller.
unfoldable pub try_reject : Error → Fulfiller → Bool × List Event × Fulfiller
try_reject e fl = if fl.settled then (false, [], fl) else (
  true,
  map (λ pc. reject_other pc.f e) fl.queue,
  record fl { settled = true; queue = []; deferred = rejected e },
)

unfoldable pub reject : Error → Fulfiller → Result (List Event × Fulfiller)
reject e fl =
    let (done, events, fl') = try_reject e fl in
    if done then ok (events, fl') else err rejected_after_settlement

-- What `pipelineCall` does: pass the call on to the answer, or reply.
pub data Pipelined : Type 0 where
  passed : ℕ → ℕ → Call → Pipelined
  replied : Answer → Pipelined

-- `copyCall`. `place` stands for `placeParams`, which runs the caller's code: it may come back to
-- this fulfiller, and gives what it leaves of it too.
unfoldable pub copied :
    (ℕ → ℕ → Fulfiller → Result ℕ × Fulfiller) → Call → Fulfiller → Result Call × Fulfiller
copied place (data_call method params) fl = (ok (data_call method params), fl)
copied place (func_call method params_func) fl =
    let (placed, fl') = place method params_func fl in
    (copy_call (λ m p. placed) (func_call method params_func), fl')

-- `pipelineCall` with the copy of the call, or the error that copying throws.
unfoldable pub queue_copied : ℕ → ℕ → Result Call × Fulfiller → Result Pipelined × Fulfiller
queue_copied transform g (err e, fl) = (err e, fl)
queue_copied transform g (ok cc, fl) = (
  ok (replied (fulfiller g)),
  record fl { queue = fl.queue ++ (record { call = cc; f = g; transform = transform } ∷ []) },
)

-- `g` is the new fulfiller.
unfoldable pub pipeline_call :
    (ℕ → ℕ → Fulfiller → Result ℕ × Fulfiller)
    → ℕ
    → Call
    → ℕ
    → Fulfiller
    → Result Pipelined × Fulfiller
pipeline_call place transform call g fl = elim fl.answer [
  | some s ↦ (ok (passed s transform call), fl)
  | none ↦
      if length fl.queue == call_queue_size
      then (ok (replied (error_answer rpc_call_queue_full)), fl)
      else queue_copied transform g (copied place call fl)
]

-- `qs[cn]`, or the queue that is made for it.
abbrev pub group : ℕ → List (ℕ × CallQueue) → CallQueue
group cn [] = new_call_queue call_queue_size []
group cn ((k, q) ∷ qs) = let rest = group cn qs in if k == cn then q else rest

-- `qs[cn].pushPreparedLocal(call, f)`, whose result is dropped.
unfoldable pub push_group : ℕ → Call → ℕ → List (ℕ × CallQueue) → List (ℕ × CallQueue)
push_group cn call f [] = (cn, (push_prepared_local call f (group cn [])).1) ∷ []
push_group cn call f ((k, q) ∷ qs) =
    let rest = push_group cn call f qs in
    if k == cn then (k, (push_prepared_local call f q).1) ∷ qs else (k, q) ∷ rest

-- One round of `emptyQueue`, by where the transform of the call leads.
unfoldable pub empty_one :
    PCall
    → Result (Option ℕ)
    → List Event × List (ℕ × CallQueue)
    → List Event × List (ℕ × CallQueue)
empty_one pc (err e) (events, qs) = (events ++ (reject_other pc.f e ∷ []), qs)
empty_one pc (ok none) (events, qs) = (events ++ (reject_other pc.f rpc_null_client ∷ []), qs)
empty_one pc (ok (some cn)) (events, qs) = (events, push_group cn pc.call pc.f qs)

-- The loop of `emptyQueue`. `target` stands for `transformPtr`, `Interface.fromPointer` and
-- `getCapId`: an error, no interface, or the id of the capability. The `reject` of a queued call's
-- fulfiller does not throw.
pub empty_queue :
    (ℕ → Result (Option ℕ))
    → List PCall
    → List Event × List (ℕ × CallQueue)
    → List Event × List (ℕ × CallQueue)
empty_queue target [] r = r
empty_queue target (pc ∷ queue) r = empty_queue target queue (empty_one pc (target pc.transform) r)

-- An entry of the table of capabilities: a client, or an embargo client over one.
pub data Cap : Type 0 where
  client : ℕ → Cap
  embargo : Cap → CallQueue → Cap

-- `Object.keys(queues)`: the keys in ascending order.
unfoldable pub insert_key : ℕ → CallQueue → List (ℕ × CallQueue) → List (ℕ × CallQueue)
insert_key k q [] = (k, q) ∷ []
insert_key k q ((j, p) ∷ qs) =
    let rest = insert_key k q qs in if leb k j then (k, q) ∷ ((j, p) ∷ qs) else (j, p) ∷ rest

unfoldable pub ascending : List (ℕ × CallQueue) → List (ℕ × CallQueue)
ascending [] = []
ascending ((k, q) ∷ qs) = insert_key k q (ascending qs)

-- The loop over the keys in `tryFulfill`. `none` means that the fuel of a flush ran out.
unfoldable pub embargo_all :
    List (ℕ × CallQueue) → List (Option Cap) → Option (Result (List Event × List (Option Cap)))
embargo_all [] ctab = some (ok ([], ctab))
embargo_all ((k, q) ∷ qs) ctab = elim (slot_at ctab k) [
  | none ↦ some (err invariant_unreachable_code)
  | some c ↦ elim (new_embargo_client q) [
    | none ↦ none
    | some (effects, q') ↦ elim (embargo_all qs (set ctab k (some (embargo c q')))) [
      | none ↦ none
      | some (err e) ↦ some (err e)
      | some (ok (events, ctab')) ↦ some (ok (flushed k effects ∷ events, ctab'))
    ]
  ]
]

-- `tryFulfill` with the table of capabilities of the struct's message: whether it settled, the
-- events, the table, and the fulfiller.
unfoldable pub try_fulfill :
    (ℕ → Result (Option ℕ))
    → ℕ
    → List (Option Cap)
    → Fulfiller
    → Option (Result (Bool × List Event × List (Option Cap) × Fulfiller))
try_fulfill target s ctab fl =
    let (events, qs) = empty_queue target fl.queue ([], []) in
    if fl.settled then some (ok (false, [], ctab, fl)) else elim (embargo_all (ascending qs) ctab) [
      | none ↦ none
      | some (err e) ↦ some (err e)
      | some (ok (more, ctab')) ↦ some (
          ok (
            true,
            events ++ more,
            ctab',
            record { settled = true; answer = some s; queue = []; deferred = resolved s },
          ))
    ]

unfoldable pub fulfill :
    (ℕ → Result (Option ℕ))
    → ℕ
    → List (Option Cap)
    → Fulfiller
    → Option (Result (List Event × List (Option Cap) × Fulfiller))
fulfill target s ctab fl = elim (try_fulfill target s ctab fl) [
  | none ↦ none
  | some (err e) ↦ some (err e)
  | some (ok (done, events, ctab', fl')) ↦
      some (if done then ok (events, ctab', fl') else err fulfilled_after_settlement)
]
