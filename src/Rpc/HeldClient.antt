-- ===== src/Rpc/HeldClient.antt =====
-- src/rpc/fulfiller/embargo-client.ts and src/rpc/queue-client.ts: clients that hold calls back in a
-- queue. A held client is its queue; its underlying client is not changed by it.
pub mod Order
use capnp_es.Prelude.{ℕ, if◌then◌else◌, Bool, true, false, List, [], ◌∷◌, ◌++◌, Option, none, some}
use mathlib.Core.Option
use capnp_es.Errors.{rpc_call_queue_full, Result, ok, err}
use capnp_es.Rpc.CallQueue.{
  Call, Slot, Effect, Answer, CallQueue, is_empty, from_answer_q_calls, copy, flush_to, reject_all,
  push, push_disembargo,
}

-- What `call` does: hand the call to the underlying client, or answer it.
pub data Reply : Type 0 where
  passed : Call → Reply
  answered : Answer → Reply

abbrev pub is_passthrough : CallQueue → Bool
is_passthrough c = is_empty c

-- The constructor of `EmbargoClient`: a copy of the queue, which it flushes at once.
pub new_embargo_client : CallQueue → Option (List Effect × CallQueue)
new_embargo_client queue = flush_to false (copy queue)

-- The constructor and the `flushQueue` of `QueueClient`, which sends disembargoes on.
unfoldable pub new_queue_client : List Slot → CallQueue
new_queue_client calls = from_answer_q_calls calls

abbrev pub flush_queue : CallQueue → Option (List Effect × CallQueue)
flush_queue c = flush_to true c

-- `call`, which is the same code in both classes.
pub call : (ℕ → ℕ → Result ℕ) → Call → ℕ → CallQueue → Reply × CallQueue
call place cl f c =
    let (answer, c') = push place cl f c in
    if is_passthrough c then (passed cl, c) else (answered answer, c')

-- `pushEmbargo`
unfoldable pub push_embargo : ℕ → ℕ → CallQueue → Result CallQueue
push_embargo id target c =
    let (done, c') = push_disembargo id target c in if done then ok c' else err rpc_call_queue_full

-- `close` without the `close` of the underlying client, which follows it where nothing is thrown.
abbrev pub close_queue :
    {E : Type 0} → (ℕ → Option E) → CallQueue → Option (List Effect × Option E × CallQueue)
close_queue refuse c = reject_all refuse c
