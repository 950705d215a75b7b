-- ===== src/Rpc/HeldClient/Order.antt =====
-- Calls through a held client (src/rpc/fulfiller/embargo-client.ts, src/rpc/queue-client.ts) keep
-- their order.
use capnp_es.Prelude.{
  ℕ, ◌≤◌, ◌<◌, ◌≡◌, refl, sym, ◌∙◌, subst, Bool-cases, inl, inr, ltb, ne→==_false, ==_iff,
  if◌then◌else◌, List, [], ◌∷◌, ◌++◌, length, arith, some, true, false,
}
use capnp_es.Errors.{Result, ok, err, rpc_call_queue_full}
use capnp_es.Rpc.Queue.Refine.{length-Holds}
use capnp_es.Rpc.CallQueue.{Call, Slot, disembargo, CallQueue, copy_call, flush_slot, push_slot}
use capnp_es.Rpc.CallQueue.Refine.{
  Waits, Pushed, effects, flush_to-Drained, push_slot_refines, push-Pushed,
}
use capnp_es.Rpc.CallQueue.Copy.{copy-Waits}
use capnp_es.Rpc.HeldClient.{
  Reply, passed, answered, is_passthrough, new_embargo_client, call, push_embargo,
}

-- What a call does while `items` wait: it is handed on only if nothing waits, and it is pushed behind
-- the others otherwise.
abbrev pub Called :
    (ℕ → ℕ → Result ℕ) → Call → ℕ → CallQueue → List Slot → Reply × CallQueue → Type 0
Called place cl f c [] r = r ≡ (passed cl, c)
Called place cl f c (slot ∷ items) (passed _, c') = length items < 0
Called place cl f c (slot ∷ items) (answered answer, c') =
    Pushed f c (slot ∷ items) (copy_call place cl) (answer, c')

-- A call never overtakes calls that wait: it goes to the underlying client only if none waits; otherwise
-- it is answered as `push` does, behind the others.
pub call-Called :
    (place : ℕ → ℕ → Result ℕ) (cl : Call) (f : ℕ) {c : CallQueue} (items : List Slot)
    → Waits c items
    → Called place cl f c items (call place cl f c)
unfolding call
call-Called place cl f {c} [] w = rw ((==_iff _ _).1 (sym (length-Holds w.1)))
call-Called place cl f {c} (slot ∷ items) w =
    rw (ne→==_false c.q.n 0 (omega (arith, length-Holds w.1))) (push-Pushed place cl f w)

-- A new embargo client hands each call that waits in the queue to its client, oldest first and once
-- each, drops disembargoes, and holds nothing back from then on.
pub new_embargo_client-Drained :
    {c : CallQueue} {items : List Slot}
    → Waits c items
    → (c' : CallQueue) × (new_embargo_client c ≡ some (effects (flush_slot false) items, c'))
      × Waits c' []
      × (is_passthrough c' ≡ true)
unfolding new_embargo_client
new_embargo_client-Drained w =
    let (c', run, w', _) = flush_to-Drained false (copy-Waits w).0 in
    (c', run, w', (==_iff _ _).1 (sym (length-Holds w'.1)))

-- What `push_embargo` gives while `items` wait.
abbrev pub Embargoed : ℕ → ℕ → CallQueue → List Slot → Result CallQueue → Type 0
Embargoed id target c items (ok c') =
    (length items < c.cap) × Waits c' (items ++ (disembargo id target ∷ [])) × (c'.cap ≡ c.cap)
Embargoed id target c items (err e) = (c.cap ≤ length items) × (e ≡ rpc_call_queue_full)

-- `pushEmbargo` puts the disembargo behind the slots that wait while there is room, and throws on a
-- full queue.
pub push_embargo-Embargoed :
    (id target : ℕ) {c : CallQueue} {items : List Slot}
    → Waits c items
    → Embargoed id target c items (push_embargo id target c)
unfolding push_embargo
push_embargo-Embargoed id target {c} {items} w =
    let (e, w', k) = push_slot_refines (disembargo id target) w in
    elim (Bool-cases (ltb (length items) c.cap)) [
      | inl t ↦
          subst
            (λ b.
              Embargoed id target c items
                (if b then ok (push_slot (disembargo id target) c).1 else err rpc_call_queue_full))
            (sym (e ∙ t)) (ground (arith, t), (rw t at w'), k)
      | inr t ↦
          subst
            (λ b.
              Embargoed id target c items
                (if b then ok (push_slot (disembargo id target) c).1 else err rpc_call_queue_full))
            (sym (e ∙ t)) (ground (arith, t), refl)
    ]
