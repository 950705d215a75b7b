-- ===== src/Rpc/Conn/Fulfill.antt =====
-- `AnswerEntry.fulfill` and `emptyQueue` of src/rpc/answer.ts, and what `joinAnswer` of
-- src/rpc/join.ts does to an entry. That the queue clients, once flushed, stand in the table of
-- capabilities for the clients that they pass every call on to is not modelled.
use capnp_es.Prelude.{
  ℕ, zero, suc, if◌then◌else◌, true, false, List, [], ◌∷◌, ◌++◌, get_elem?, update_at, Option, none,
  some, Dict, lookup, insert,
}
use capnp_es.Errors.{rpc_null_client}
use capnp_es.Rpc.Conn.Wire.{
  library, answer_fulfilled_again, type_error, CapDescriptor, results, results_sent_elsewhere,
  new_return, return_message,
}
use capnp_es.Rpc.Conn.State.{
  Client, MethodCall, PipelinedCall, pipelined_call, join_call, resolved_to, settle_promise, Conn,
  AnswerEntry, Outcome, throw, done_with, Action, ◌>>=◌, ◌>>◌, pure, modify, emit, send_message,
}
use capnp_es.Rpc.Conn.Answers.{first_error, fulfill_tail_answer_waiters, reject_answer}
use capnp_es.Rpc.Conn.Caps.{make_cap_table, collect_payload_sender_hosted}

-- What the connection uses of contents, which are messages of their own: the client that a
-- transform leads to, the capabilities of a content, and the capability that a transform leads to.
-- The last three are the content of a client that is handed out as the root, the methods of an
-- interface, by id, and the bound on following settled pipelines.
pub record World : Type 0 where
  pub client_at : ℕ → List ℕ → Outcome Client
  pub caps_of : ℕ → List (Option Client)
  pub cap_at : ℕ → List ℕ → Outcome (Option ℕ)
  pub root_of : Client → ℕ
  pub methods_of : ℕ → Option (List ℕ)
  pub hops : ℕ
  -- `placeParams`, which gives the content of a call's parameters or throws
  pub place : MethodCall → Outcome ℕ
  -- the fields of a method
  pub interface_id_of : ℕ → ℕ
  pub method_id_of : ℕ → ℕ

abbrev pub Held : Type 0
Held = List (MethodCall × ℕ)

-- `if (!qs[cn]) qs[cn] = []; qs[cn].push(pc.qcall)`
abbrev pub push_held : ℕ → MethodCall × ℕ → Dict Held → Dict Held
push_held cap call qs = elim (lookup cap qs) [
  | none ↦ insert cap (call ∷ []) qs
  | some held ↦ insert cap (held ++ (call ∷ [])) qs
]

-- A call whose transform throws or leads to no capability is rejected.
unfoldable pub target_of : ℕ → Outcome (Option ℕ) → Action (Option ℕ)
unfolding reject_answer
target_of a (throw e) = reject_answer a e >> pure none
target_of a (done_with none) = reject_answer a (library rpc_null_client) >> pure none
target_of a (done_with (some cap)) = pure (some cap)

-- The loop of `emptyQueue`: the calls by capability, and the first error of a rejection.
unfoldable pub empty_calls :
    (List ℕ → Outcome (Option ℕ))
    → List PipelinedCall
    → Outcome (Unit {0})
    → Dict Held
    → Conn
    → (Outcome (Unit {0}) × Dict Held) × Conn
unfolding target_of
empty_calls cap_at [] first qs c = ((first, qs), c)
empty_calls cap_at (pipelined_call call a t ∷ queue) first qs c =
    let (r, c') = target_of a (cap_at t) c in
    let (first', qs') : Outcome (Unit {0}) × Dict Held = elim r [
      | throw e ↦ (first_error first (throw e), qs)
      | done_with none ↦ (first, qs)
      | done_with (some cap) ↦ (first, push_held cap (call, a) qs)
    ] in
    empty_calls cap_at queue first' qs' c'

-- `AnswerEntry.emptyQueue`
unfoldable pub empty_entry :
    World → ℕ → ℕ → Option AnswerEntry → Conn → (Outcome (Unit {0}) × Dict Held) × Conn
unfolding empty_calls
empty_entry w a obj none c = ((done_with tt, []), c)
empty_entry w a obj (some o) c =
    let (r, c') = empty_calls (w.cap_at obj) o.queue (done_with tt) [] c in
    (
      r,
      record c' {
        all_answers = update_at c'.all_answers a (λ (o : AnswerEntry). record o { queue = [] });
      },
    )

-- `flushQueue` of a queue client over a capability; null has no `call`.
unfoldable pub flush_held : Option Client → Held → Action (Unit {0})
flush_held k [] c = (done_with tt, c)
flush_held none (call ∷ held) c = (throw type_error, c)
flush_held (some k) ((call, a) ∷ held) c = flush_held (some k) held (emit (join_call a k call) c)

abbrev pub cap_at_index : List (Option Client) → ℕ → Option Client
cap_at_index [] i = none
cap_at_index (k ∷ caps) zero = k
cap_at_index (k ∷ caps) (suc i) = cap_at_index caps i

unfoldable pub flush_queues : List (Option Client) → Dict Held → Action (Unit {0})
unfolding flush_held
flush_queues caps [] = pure tt
flush_queues caps ((cap, held) ∷ qs) =
    flush_held (cap_at_index caps cap) held >> flush_queues caps qs

-- The `try` of `fulfill`: the table of capabilities, then the promise and the waiters, and the
-- message at last.
unfoldable pub return_results : World → AnswerEntry → ℕ → ℕ → List CapDescriptor → Action (Unit {0})
unfolding collect_payload_sender_hosted fulfill_tail_answer_waiters
return_results w o a obj table =
    modify (λ c. record c {
      all_answers = update_at c.all_answers a (λ (e : AnswerEntry). record e {
        result_caps = collect_payload_sender_hosted table;
        promise = settle_promise (resolved_to obj) e.promise;
      });
    })
    >> fulfill_tail_answer_waiters o.id obj
    >> modify (
        send_message (
          return_message
            (record (new_return o.id (results (record { content = obj; cap_table = table }))) {
              release_param_caps = false;
            })))

-- `fulfill` where the results are sent elsewhere.
unfoldable pub return_elsewhere : AnswerEntry → ℕ → ℕ → Action (Unit {0})
unfolding fulfill_tail_answer_waiters
return_elsewhere o a obj =
    modify (λ c. record c {
      all_answers =
          update_at c.all_answers a (λ (e : AnswerEntry). record e {
            promise = settle_promise (resolved_to obj) e.promise;
          });
    })
    >> fulfill_tail_answer_waiters o.id obj
    >> modify (
        send_message (
          return_message
            (record (new_return o.id results_sent_elsewhere) { release_param_caps = false })))

-- The end of `fulfill`: the calls that waited are flushed, and the first error is thrown.
unfoldable pub flush_entry : World → ℕ → ℕ → Outcome (Unit {0}) × Conn → Outcome (Unit {0}) × Conn
unfolding empty_entry flush_queues
flush_entry w a obj (first, c) =
    let ((again, qs), c') = empty_entry w a obj (get_elem? c.all_answers a) c in
    (flush_queues (w.caps_of obj) qs >> λ c. (first_error first again, c)) c'

unfoldable pub fulfill_undone : World → AnswerEntry → ℕ → ℕ → Action (Unit {0})
unfolding make_cap_table return_results return_elsewhere flush_entry
fulfill_undone w o a obj c =
    if o.send_results_elsewhere
    then return_elsewhere o a obj c
    else flush_entry w a obj
        ((make_cap_table w.client_at w.hops (w.caps_of obj) >>= return_results w o a obj) c)

unfoldable pub fulfill_entry : World → Option AnswerEntry → ℕ → ℕ → Action (Unit {0})
unfolding fulfill_undone
fulfill_entry w none a obj c = (done_with tt, c)
fulfill_entry w (some o) a obj c =
    if o.done
    then (throw answer_fulfilled_again, c)
    else fulfill_undone w o a obj (record c {
      all_answers =
          update_at c.all_answers a (λ (e : AnswerEntry). record e { done = true; obj = some obj });
    })

-- `AnswerEntry.fulfill`
unfoldable pub fulfill_answer : World → ℕ → ℕ → Action (Unit {0})
unfolding fulfill_entry
fulfill_answer w a obj c = fulfill_entry w (get_elem? c.all_answers a) a obj c

-- `joinAnswer` of an entry, once the call is answered; what `fulfill` and `reject` throw is
-- ignored.
unfoldable pub join_answer : World → ℕ → Outcome ℕ → Conn → Conn
unfolding fulfill_answer reject_answer
join_answer w a (done_with obj) c = (fulfill_answer w a obj c).1
join_answer w a (throw e) c = (reject_answer a e c).1
