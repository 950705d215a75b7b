-- ===== src/Tests/Fulfiller.antt =====
-- Fulfillers (src/rpc/fulfiller/fulfiller.ts) on small inputs.
use capnp_es.Prelude.{
  ℕ, ◌≡◌, refl, true, false, List, [], ◌∷◌, map, Option, some, none, if◌then◌else◌, ◌==◌, ◌++◌,
  replicate,
}
use capnp_es.Errors.{
  rpc_zero_ref, rpc_null_client, invariant_unreachable_code, rejected_after_settlement,
  fulfilled_after_settlement, Result, ok, err,
}
use capnp_es.Rpc.CallQueue.{data_call, func_call, fulfiller, CallQueue, new_call_queue}
use capnp_es.Rpc.Fulfiller.{
  PCall, Fulfiller, new_fulfiller, rejected, reject_other, Pipelined, replied, try_reject, reject,
  copied, queue_copied, pipeline_call, insert_key, ascending, embargo_all, try_fulfill, fulfill,
}
use capnp_es.Rpc.Fulfiller.Settle.{waiting, pipeline_call-try_reject}

abbrev pcall : ℕ → ℕ → PCall
pcall f transform = record { call = data_call 7 f; f = f; transform = transform }

abbrev pcalls : List PCall
pcalls = pcall 20 2 ∷ pcall 21 3 ∷ pcall 22 0 ∷ pcall 23 2 ∷ pcall 24 1 ∷ []

-- Transform 0 fails, transform 1 leads to no interface, and the others to the capability of their number.
abbrev find : ℕ → Result (Option ℕ)
find t = if t == 0 then err rpc_zero_ref else (if t == 1 then ok none else ok (some t))

-- Placing the parameters gives the struct that the number of the function names.
abbrev place_params : ℕ → ℕ → Fulfiller → Result ℕ × Fulfiller
place_params method f fl = (ok f, fl)

abbrev empty_group : CallQueue
empty_group = new_call_queue 64 []

reject_settled :
    reject rpc_null_client (record (waiting pcalls) { settled = true })
    ≡ err rejected_after_settlement
unfolding reject try_reject
reject_settled = refl

fulfill_settled :
    fulfill find 6 [] (record (waiting pcalls) { settled = true })
    ≡ some (err fulfilled_after_settlement)
unfolding fulfill try_fulfill
fulfill_settled = refl

ascending-keys :
    map (λ kq. kq.0) (ascending ((3, empty_group) ∷ (1, empty_group) ∷ (2, empty_group) ∷ []))
    ≡ 1 ∷ 2 ∷ 3 ∷ []
unfolding ascending insert_key
ascending-keys = refl

embargo_all_no_client :
    embargo_all ((3, empty_group) ∷ []) [] ≡ some (err invariant_unreachable_code)
unfolding embargo_all
embargo_all_no_client = refl

-- A call that is queued behind the others.
one_more_queued : pipeline_call place_params 5 (data_call 7 25) 25 (waiting pcalls) ≡ (
  ok (replied (fulfiller 25)),
  waiting (pcall 20 2 ∷ pcall 21 3 ∷ pcall 22 0 ∷ pcall 23 2 ∷ pcall 24 1 ∷ pcall 25 5 ∷ []),
)
unfolding pipeline_call queue_copied copied
one_more_queued = refl

-- The caller's code of a call queues a call of its own.
abbrev place_again : ℕ → ℕ → Fulfiller → Result ℕ × Fulfiller
place_again method f fl = (ok f, record fl { queue = fl.queue ++ (pcall 1 2 ∷ []) })

abbrev almost_full : List PCall
almost_full = replicate 63 (pcall 0 2)

abbrev passing : Result Pipelined × Fulfiller
passing = pipeline_call place_again 5 (func_call 7 25) 25 (waiting almost_full)

abbrev settled_one : Fulfiller
settled_one = record new_fulfiller { settled = true; answer = some 5 }

-- The fulfiller of `pcalls` after a rejection, and after one more call.
abbrev rejected_one : Fulfiller
rejected_one = record {
  settled = true;
  answer = none;
  queue = [];
  deferred = rejected rpc_null_client;
}

abbrev stuck_one : Fulfiller
stuck_one = record rejected_one {
  queue = record { call = data_call 7 9; f = 30; transform = 2 } ∷ [];
}

pipeline_call-try_reject_example :
    (true ≡ true)
    × (map (λ pc. reject_other pc.f rpc_null_client) pcalls
        ≡ map (λ pc. reject_other pc.f rpc_null_client) pcalls)
    × (rejected rpc_null_client ≡ rejected rpc_null_client)
    × (pipeline_call place_params 2 (data_call 7 9) 30 rejected_one
        ≡ (ok (replied (fulfiller 30)), stuck_one))
    × (try_reject rpc_zero_ref stuck_one ≡ (false, [], stuck_one))
    × (try_fulfill find 6 [] stuck_one ≡ some (ok (false, [], [], stuck_one)))
unfolding try_reject
pipeline_call-try_reject_example =
    pipeline_call-try_reject place_params find 2 7 9 30 6 [] rpc_null_client rpc_zero_ref pcalls
