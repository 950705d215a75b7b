-- ===== src/Rpc/Fulfiller/Groups.antt =====
-- No call that waits for a fulfiller is lost when the fulfiller is settled (`pipelineCall` and
-- `emptyQueue` of src/rpc/fulfiller/fulfiller.ts).
use capnp_es.Prelude.{
  ℕ, ◌+◌, ◌≤◌, ◌≡◌, ◌==◌, if◌then◌else◌, List, [], ◌∷◌, ◌++◌, length, Option, none, some,
}
use capnp_es.Errors.{rpc_null_client, Result, ok, err}
use capnp_es.Rpc.CallQueue.{Slot, local_call, CallQueue}
use capnp_es.Rpc.CallQueue.Refine.{Waits}
use capnp_es.Rpc.Fulfiller.{PCall, Event, reject_other, group}

-- The slots of the calls whose transform leads to the capability `cn`.
abbrev pub call_to : ℕ → PCall → Result (Option ℕ) → List Slot → List Slot
call_to cn pc (err e) rest = rest
call_to cn pc (ok none) rest = rest
call_to cn pc (ok (some k)) rest = if k == cn then local_call pc.call pc.f ∷ rest else rest

abbrev pub calls_to : ℕ → (ℕ → Result (Option ℕ)) → List PCall → List Slot
calls_to cn target [] = []
calls_to cn target (pc ∷ queue) = call_to cn pc (target pc.transform) (calls_to cn target queue)

-- The events of the calls whose transform leads to no capability.
abbrev pub rejection : PCall → Result (Option ℕ) → List Event → List Event
rejection pc (err e) rest = reject_other pc.f e ∷ rest
rejection pc (ok none) rest = reject_other pc.f rpc_null_client ∷ rest
rejection pc (ok (some k)) rest = rest

abbrev pub rejections : (ℕ → Result (Option ℕ)) → List PCall → List Event
rejections target [] = []
rejections target (pc ∷ queue) = rejection pc (target pc.transform) (rejections target queue)

-- What is known of the groups as the queue is gone through: `items` is what waits in each.
abbrev Grouped : (ℕ → List Slot) → ℕ → List (ℕ × CallQueue) → Type 0
Grouped items room qs =
    (cn : ℕ)
    → Waits (group cn qs) (items cn) × ((group cn qs).cap ≡ 64) × (length (items cn) + room ≤ 64)

-- What `emptyQueue` leaves, for the calls of `queue` behind those of `items`.
abbrev Emptied :
    (ℕ → Result (Option ℕ))
    → List PCall
    → (ℕ → List Slot)
    → List Event
    → List Event × List (ℕ × CallQueue)
    → Type 0
Emptied target queue items events r =
    (r.0 ≡ events ++ rejections target queue)
    × ((cn : ℕ) → Waits (group cn r.1) (items cn ++ calls_to cn target queue))
