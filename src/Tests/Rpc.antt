-- ===== src/Tests/Rpc.antt =====
-- The queue of calls, the ids and the reference counts of src/rpc on small inputs.
use capnp_es.Prelude.{
  none, some, Option, ℕ, ◌+◌, ◌≡◌, ◌≢◌, ◌<◌, refl, true, false, List, [], ◌∷◌, if◌then◌else◌, ◌==◌,
}
use capnp_es.Errors.{Error, rpc_call_queue_full, Result, ok, err, rpc_zero_ref}
use capnp_es.Rpc.Queue.{new_queue}
use capnp_es.Rpc.CallQueue.{
  data_call, func_call, copy_call, flush_slot, reject_slot, Slot, local_call, remote_call,
  disembargo, join_local, join_remote, handle_disembargo, reject_local, reject_remote, fulfiller,
  CallQueue, new_call_queue, from_answer_q_calls, push_slot, push, flush_to, reject_all, refused,
  copy,
}
use capnp_es.Rpc.CallQueue.Refine.{
  Waits, Drained, push_slot_refines, push-Pushed, flush_to-Drained, reject_all-Rejected, Rejected,
}
use capnp_es.Rpc.CallQueue.Copy.{new_call_queue-Waits, copy-Waits}
use capnp_es.Rpc.HeldClient.{new_queue_client, call}
use capnp_es.Rpc.HeldClient.Order.{Called, call-Called}
use capnp_es.Rpc.IdGen
use capnp_es.Rpc.IdGen.{
  IdGen, next, next_from, remove, new_id_gen, count, Reach-Partition, next_fresh,
}
use capnp_es.Rpc.RefCount.{RefCount, new_ref, new_ref_count, ref, decref, close_state, close}
use capnp_es.Rpc.RefCount.Lifetime
use capnp_es.Rpc.RefCount.Lifetime.{Counted, Reach-Counted}

abbrev some_calls : List Slot
some_calls = local_call (data_call 7 1) 20 ∷ disembargo 5 6 ∷ remote_call (data_call 8 2) 30 ∷ []

-- Room for one more call.
abbrev small_queue : CallQueue
small_queue = new_call_queue 4 some_calls

abbrev one_more : Slot
one_more = remote_call (data_call 9 3) 31

cap-from_answer_q_calls : (from_answer_q_calls some_calls).cap ≡ 64
unfolding from_answer_q_calls new_call_queue
cap-from_answer_q_calls = refl

small_queue-Waits : Waits small_queue some_calls
small_queue-Waits = (new_call_queue-Waits 4 some_calls).0

push_slot_refines_example :
    ((push_slot one_more small_queue).0 ≡ true)
    × Waits (push_slot one_more small_queue).1 (
        local_call (data_call 7 1) 20
        ∷ disembargo 5 6
        ∷ remote_call (data_call 8 2) 30
        ∷ one_more
        ∷ [])
    × ((push_slot one_more small_queue).1.cap ≡ 4)
unfolding new_call_queue
push_slot_refines_example = push_slot_refines one_more small_queue-Waits

-- Placing the parameters of a call fails or gives a new struct.
abbrev place : ℕ → ℕ → Result ℕ
place method f = if f == 0 then err rpc_zero_ref else ok (f + 100)

push-Pushed_example :
    ((push place (func_call 9 3) 21 small_queue).0 ≡ fulfiller 21)
    × Waits (push place (func_call 9 3) 21 small_queue).1 (
        local_call (data_call 7 1) 20
        ∷ disembargo 5 6
        ∷ remote_call (data_call 8 2) 30
        ∷ local_call (data_call 9 103) 21
        ∷ [])
unfolding new_call_queue copy_call
push-Pushed_example = push-Pushed place (func_call 9 3) 21 small_queue-Waits

flush_to-Drained_example :
    Drained small_queue
      (flush_to true small_queue)
      (join_local 20 (data_call 7 1) ∷ handle_disembargo 5 6 ∷ join_remote 30 (data_call 8 2) ∷ [])
unfolding new_call_queue new_queue flush_slot
flush_to-Drained_example = flush_to-Drained true small_queue-Waits

-- The rejection of an answer throws.
abbrev refuses : ℕ → Option Error
refuses a = if a == 30 then some rpc_call_queue_full else none

reject_all-Rejected_example : Rejected small_queue (reject_all refuses small_queue) (
  reject_local 20 ∷ reject_remote 30 ∷ [],
  some rpc_call_queue_full,
  remote_call (data_call 8 2) 30 ∷ [],
)
unfolding new_call_queue new_queue reject_slot refused
reject_all-Rejected_example = reject_all-Rejected refuses small_queue-Waits

copy-Waits_example :
    Waits (copy small_queue) some_calls × ((copy small_queue).cap ≡ small_queue.cap)
copy-Waits_example = copy-Waits small_queue-Waits

-- Two ids are taken, and the first is removed.
abbrev one_free : IdGen
one_free = record { i = 2; free = 0 ∷ [] }

one_free-Reach : IdGen.Reach (one_free, 1 ∷ [])
unfolding new_id_gen next next_from remove
one_free-Reach =
    IdGen.step (IdGen.step (IdGen.step IdGen.start IdGen.take) IdGen.take) (IdGen.give 0 refl)

Reach-Partition_example : count 1 one_free.free + count 1 (1 ∷ []) ≡ 1
Reach-Partition_example = Reach-Partition one_free-Reach 1

next_fresh_example :
    (count (next one_free).0 (1 ∷ []) ≡ 0) × (one_free.free ≢ [] → (next one_free).0 < 2)
next_fresh_example = next_fresh one_free-Reach

-- Two references, the second closed.
abbrev one_open : RefCount
one_open = record { refs = 1; closed = false ∷ true ∷ []; client_closes = 0 }

one_open-Reach : Lifetime.Reach one_open
unfolding new_ref_count ref new_ref close close_state decref
one_open-Reach =
    Lifetime.step (Lifetime.step Lifetime.start (Lifetime.refer refl)) (Lifetime.drop 1)

Reach-Counted_example : Counted one_open
Reach-Counted_example = Reach-Counted one_open-Reach

cap-new_queue_client : (new_queue_client some_calls).cap ≡ 64
unfolding new_queue_client from_answer_q_calls new_call_queue
cap-new_queue_client = refl

call-Called_example :
    Called place
      (func_call 9 3)
      21
      small_queue
      some_calls
      (call place (func_call 9 3) 21 small_queue)
call-Called_example = call-Called place (func_call 9 3) 21 some_calls small_queue-Waits
