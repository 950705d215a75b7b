-- ===== src/Rpc/Fulfiller/Settle.antt =====
-- A fulfiller settles once (src/rpc/fulfiller/fulfiller.ts), and calls after a rejection.
use capnp_es.Prelude.{Bool, ℕ, ◌≡◌, refl, true, false, List, [], ◌∷◌, map, Option, none, some}
use capnp_es.Errors.{Error, Result, ok}
use capnp_es.Rpc.CallQueue.{data_call, fulfiller}
use capnp_es.Rpc.Fulfiller.{
  PCall, Deferred, Fulfiller, pending, rejected, reject_other, Cap, replied, try_reject,
  pipeline_call, copied, queue_copied, try_fulfill,
}

-- Once a fulfiller is settled, `tryReject` and `tryFulfill` do nothing and say so.
pub try_settle_twice :
    (target : ℕ → Result (Option ℕ)) (s : ℕ) (ctab : List (Option Cap)) (e : Error) (fl : Fulfiller)
    → fl.settled ≡ true
    → (try_reject e fl ≡ (false, [], fl))
      × (try_fulfill target s ctab fl ≡ some (ok (false, [], ctab, fl)))
unfolding try_reject try_fulfill
try_settle_twice target s ctab e fl h = (simp h, simp h)

-- A fulfiller that is not settled, with its queued calls.
abbrev pub waiting : List PCall → Fulfiller
waiting queue = record { settled = false; answer = none; queue = queue; deferred = pending }

-- `tryReject` of a fulfiller that waits rejects each queued call and empties the queue. But a call that
-- comes after it, with its parameters placed, is queued and given a new fulfiller, which no later
-- `tryReject` or `tryFulfill` settles.
pub pipeline_call-try_reject :
    (place : ℕ → ℕ → Fulfiller → Result ℕ × Fulfiller) (target : ℕ → Result (Option ℕ))
    (transform method params g s : ℕ) (ctab : List (Option Cap)) (e later : Error)
    (queue : List PCall)
    → let (done, events, fl) = try_reject e (waiting queue) in
      let pc : PCall = record { call = data_call method params; f = g; transform = transform } in
      let queued : Fulfiller = record fl { queue = pc ∷ [] } in
      (done ≡ true)
      × (events ≡ map (λ pc. reject_other pc.f e) queue)
      × (fl.deferred ≡ rejected e)
      × (pipeline_call place transform (data_call method params) g fl
          ≡ (ok (replied (fulfiller g)), queued))
      × (try_reject later queued ≡ (false, [], queued))
      × (try_fulfill target s ctab queued ≡ some (ok (false, [], ctab, queued)))
unfolding try_reject pipeline_call copied queue_copied try_fulfill
pipeline_call-try_reject place target transform method params g s ctab e later queue =
    (refl, refl, refl, refl, refl, refl)

-- A fulfiller that was not fulfilled.
abbrev pub unanswered : Bool → List PCall → Deferred → Fulfiller
unanswered settled queue deferred = record {
  settled = settled;
  answer = none;
  queue = queue;
  deferred = deferred;
}
