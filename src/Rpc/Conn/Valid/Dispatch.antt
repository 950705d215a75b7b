-- ===== src/Rpc/Conn/Valid/Dispatch.antt =====
-- The invariant of the tables through returns, calls and the dispatch of messages in
-- src/rpc/conn.ts.
use capnp_es.Prelude.{
  ℕ, ◌==◌, Bool, true, false, List, [], ◌∷◌, get_elem?, Option, none, some, inl, inr, Bool-cases,
  lookup,
}
use capnp_es.Rpc.Conn.Wire.{
  Fault, protocol, question_id_reused, return_for_unknown_question, CapDescriptor, MessageTarget,
  imported_cap, promised_answer, unknown_target, SendResultsTo, caller, yourself, unknown_receiver,
  ReturnBody, results, exception, exception_of, canceled, results_sent_elsewhere,
  take_from_other_question, unknown_return, Return, CallMessage, RpcMessage, unimplemented, abort,
  bootstrap, call_message, return_message, finish, resolve, release, disembargo_message,
  unsupported, unknown_message, rpc_bad_target, rpc_unimplemented, canceled_by_remote,
  promised_answer_ops_to_transform,
}
use capnp_es.Rpc.Conn.State.{
  MethodCall, method_call, Conn, Question, AnswerEntry, Export, is_protocol,
}
use capnp_es.Rpc.Conn.Questions.{pop_question}
use capnp_es.Rpc.Conn.Exports.{find_export}
use capnp_es.Rpc.Conn.Answers.{insert_answer, pop_answer}
use capnp_es.Rpc.Conn.Fulfill.{World}
use capnp_es.Rpc.Conn.Returns.{
  release_each, release_params, error_from, return_unusable, take_done, take_from, answer_object,
  fill_results, fulfill_if, settle_return, release_result_caps, finish_unless, return_to,
  return_popped, handle_return, error_of,
}
use capnp_es.Rpc.Conn.Calls.{
  route_to_export, route_to_answer, route_promised, route_call, refuse_call, lookup_method,
  call_method, accept_call, call_inserted, is_known_target, fill_call, call_filled, handle_call,
}
use capnp_es.Rpc.Conn.Dispatch.{dispatch_message, abort_if_protocol, handle_message}
use capnp_es.Rpc.Conn.Valid.{
  Valid, Keeps, bind-Keeps, catch-Keeps, release_export-Valid, pop_question-Valid,
}
use capnp_es.Rpc.Conn.Valid.Parts.{
  reject_question-Keeps, fulfill_question-Keeps, reject_answer-Keeps, queue_call-Keeps,
  client_from_resolution-Keeps,
}
use capnp_es.Rpc.Conn.Valid.Caps.{populate-Keeps}
use capnp_es.Rpc.Conn.Valid.Stages.{shutdown-Valid, abort-Valid}
use capnp_es.Rpc.Conn.Valid.Handlers.{
  non_protocol-Keeps, insert_answer-Valid, handle_bootstrap-Keeps, handle_finish-Keeps,
  handle_resolve-Keeps, handle_disembargo-Valid,
}

release_each-Keeps : (ids : List ℕ) → Keeps (release_each ids)
unfolding release_each
release_each-Keeps [] = λ c v. v
release_each-Keeps (id ∷ ids) =
    bind-Keeps _ _ (release_export-Valid id 1) (λ _. release_each-Keeps ids)

release_params-Keeps : (b : Bool) (ids : List ℕ) → Keeps (release_params b ids)
unfolding release_params
release_params-Keeps true ids c v = release_each-Keeps ids c v
release_params-Keeps false ids c v = v

return_unusable-Keeps : (r : Return) (q : ℕ) (e : Fault) → Keeps (return_unusable r q e)
unfolding return_unusable
return_unusable-Keeps r q e =
    catch-Keeps _ _
      (bind-Keeps _ _ (non_protocol-Keeps e)
        (λ e. bind-Keeps _ _ (λ c v. v) (λ _. reject_question-Keeps q e)))
      (λ p. bind-Keeps _ _ (reject_question-Keeps q p) (λ _ c v. v))

take_done-Keeps : (q : ℕ) (e : Option Fault) (obj : Option ℕ) → Keeps (take_done q e obj)
unfolding take_done
take_done-Keeps q (some e) obj = reject_question-Keeps q e
take_done-Keeps q none (some obj) = fulfill_question-Keeps q obj
take_done-Keeps q none none = reject_question-Keeps q rpc_bad_target

take_from-Keeps : (other q : ℕ) (o : Option AnswerEntry) → Keeps (take_from other q o)
unfolding take_from
take_from-Keeps other q none c v = reject_question-Keeps q rpc_bad_target c v
take_from-Keeps other q (some o) c v = elim (Bool-cases o.done) [
  | inl p ↦ rw p (take_done-Keeps q o.err o.obj c v)
  | inr p ↦ rw p v
]

fill_results-Keeps :
    (r : Return) (q : ℕ) (table : List CapDescriptor) → Keeps (fill_results r q table)
unfolding fill_results
fill_results-Keeps r q table =
    catch-Keeps _ _ (bind-Keeps _ _ (populate-Keeps table) (λ _ c v. v))
      (λ e. bind-Keeps _ _ (return_unusable-Keeps r q e) (λ _ c v. v))

fulfill_if-Keeps : (q content : ℕ) (b : Bool) → Keeps (fulfill_if q content b)
unfolding fulfill_if
fulfill_if-Keeps q content false c v = v
fulfill_if-Keeps q content true c v = fulfill_question-Keeps q content c v

settle_return-Keeps :
    (r : Return) (q : ℕ) (o : Question) (body : ReturnBody) → Keeps (settle_return r q o body)
unfolding settle_return
settle_return-Keeps r q o (results p) =
    bind-Keeps _ _ (fill_results-Keeps r q p.cap_table) (fulfill_if-Keeps q p.content)
settle_return-Keeps r q o (exception e) = reject_question-Keeps q (error_of o.method e)
settle_return-Keeps r q o (exception_of e) = reject_question-Keeps q (error_from o.method e)
settle_return-Keeps r q o canceled = reject_question-Keeps q canceled_by_remote
settle_return-Keeps r q o (take_from_other_question other) = λ c v.
    elim (Bool-cases (other == r.answer_id)) [
      | inl p ↦ rw p (reject_question-Keeps q rpc_bad_target c v)
      | inr p ↦ rw p (take_from-Keeps other q (answer_object other c) c v)
    ]
settle_return-Keeps r q o results_sent_elsewhere = reject_question-Keeps q rpc_unimplemented
settle_return-Keeps r q o unknown_return = reject_question-Keeps q rpc_unimplemented

finish_unless-Valid :
    (b : Bool) (id : ℕ) (k : Bool) (c : Conn) → Valid c → Valid (finish_unless b id k c)
finish_unless-Valid true id k c v = v
finish_unless-Valid false id k c v = v

return_to-Keeps : (r : Return) (q : ℕ) (o : Option Question) → Keeps (return_to r q o)
unfolding return_to
return_to-Keeps r q none = λ c v. v
return_to-Keeps r q (some o) =
    bind-Keeps _ _ (release_params-Keeps r.release_param_caps o.param_caps) (λ _.
      bind-Keeps _ _ (settle_return-Keeps r q o r.body)
        (λ _. finish_unless-Valid r.no_finish_needed r.answer_id (release_result_caps r.body)))

return_popped-Valid : (r : Return) (p : Option ℕ × Conn) → Valid p.1 → Valid (return_popped r p).1
unfolding return_popped
return_popped-Valid r (none, c) v = abort-Valid (protocol return_for_unknown_question) c v
return_popped-Valid r (some q, c) v = return_to-Keeps r q (get_elem? c.all_questions q) c v

handle_return-Keeps : (r : Return) → Keeps (handle_return r)
unfolding handle_return
handle_return-Keeps r c v =
    return_popped-Valid r (pop_question r.answer_id c) (pop_question-Valid r.answer_id c v)

route_to_export-Keeps :
    (a : ℕ) (call : MethodCall) (e : Option Export) → Keeps (route_to_export a call e)
unfolding route_to_export
route_to_export-Keeps a call none = λ c v. v
route_to_export-Keeps a call (some e) = λ c v. v

route_to_answer-Keeps :
    (w : World) (a : ℕ) (call : MethodCall) (t : List ℕ) (target : ℕ) (o : Option AnswerEntry)
    → Keeps (route_to_answer w a call t target o)
unfolding route_to_answer
route_to_answer-Keeps w a call t target none c v = v
route_to_answer-Keeps w a call t target (some o) c v = elim (Bool-cases o.done) [
  | inl p ↦
      rw p
        (bind-Keeps _ _ (client_from_resolution-Keeps w.client_at t o.obj o.err) (λ _ c v. v) c v)
  | inr p ↦ rw p (queue_call-Keeps call t target a c v)
]

route_promised-Keeps :
    (w : World) (a : ℕ) (call : MethodCall) (t : List ℕ) (o : Option ℕ)
    → Keeps (route_promised w a call t o)
unfolding route_promised
route_promised-Keeps w a call t none c v = v
route_promised-Keeps w a call t (some target) c v =
    route_to_answer-Keeps w a call t target (get_elem? c.all_answers target) c v

route_call-Keeps :
    (w : World) (a id : ℕ) (call : MethodCall) (t : MessageTarget)
    → Keeps (route_call w a id call t)
unfolding route_call
route_call-Keeps w a id call (imported_cap x) c v =
    route_to_export-Keeps a call (find_export x c) c v
route_call-Keeps w a id call (promised_answer x ops) c v = elim (Bool-cases (x == id)) [
  | inl p ↦ rw p v
  | inr p ↦ rw p (
      route_promised-Keeps w a call (promised_answer_ops_to_transform ops) (lookup x c.answers) c v)
]
route_call-Keeps w a id call unknown_target c v = v

call_method-Keeps :
    (w : World) (m : CallMessage) (a : ℕ) (o : Option ℕ) → Keeps (call_method w m a o)
unfolding call_method refuse_call pop_answer
call_method-Keeps w m a none = λ c v. v
call_method-Keeps w m a (some method) =
    catch-Keeps _ _
      (route_call-Keeps w a m.question_id (method_call method m.params.content) m.target)
      (λ e. bind-Keeps _ _ (non_protocol-Keeps e) (reject_answer-Keeps a))

accept_call-Keeps :
    (w : World) (m : CallMessage) (a : ℕ) (s : SendResultsTo) → Keeps (accept_call w m a s)
unfolding accept_call refuse_call pop_answer
accept_call-Keeps w m a caller =
    call_method-Keeps w m a (lookup_method (w.methods_of m.interface_id) m.method_id)
accept_call-Keeps w m a yourself =
    bind-Keeps _ _ (λ c v. v)
      (λ _. call_method-Keeps w m a (lookup_method (w.methods_of m.interface_id) m.method_id))
accept_call-Keeps w m a unknown_receiver = λ c v. v

call_inserted-Valid :
    (w : World) (m : CallMessage) (r : Option ℕ × Conn) → Valid r.1 → Valid (call_inserted w m r).1
unfolding call_inserted
call_inserted-Valid w m (none, c) v = abort-Valid (protocol question_id_reused) c v
call_inserted-Valid w m (some a, c) v = accept_call-Keeps w m a m.send_results_to c v

fill_call-Keeps : (m : CallMessage) → Keeps (fill_call m)
unfolding fill_call
fill_call-Keeps m =
    catch-Keeps _ _ (bind-Keeps _ _ (populate-Keeps m.params.cap_table) (λ _ c v. v))
      (λ e. bind-Keeps _ _ (non_protocol-Keeps e) (λ e. bind-Keeps _ _ (λ c v. v) (λ _ c v. v)))

call_filled-Keeps : (w : World) (m : CallMessage) (b : Bool) → Keeps (call_filled w m b)
unfolding call_filled
call_filled-Keeps w m false c v = v
call_filled-Keeps w m true c v =
    call_inserted-Valid w m (insert_answer m.question_id c) (insert_answer-Valid m.question_id c v)

handle_call-Keeps : (w : World) (m : CallMessage) → Keeps (handle_call w m)
unfolding handle_call
handle_call-Keeps w m c v = elim (Bool-cases (is_known_target m.target)) [
  | inl p ↦ rw p (bind-Keeps _ _ (fill_call-Keeps m) (call_filled-Keeps w m) c v)
  | inr p ↦ rw p v
]

dispatch-Keeps : (w : World) (m : RpcMessage) → Keeps (dispatch_message w m)
unfolding dispatch_message
dispatch-Keeps w (unimplemented m) = λ c v. v
dispatch-Keeps w (bootstrap id) = handle_bootstrap-Keeps w id
dispatch-Keeps w (abort e) = shutdown-Valid e
dispatch-Keeps w (finish id b) = handle_finish-Keeps id b
dispatch-Keeps w (resolve id body) = handle_resolve-Keeps id body
dispatch-Keeps w (release id count) = release_export-Valid id count
dispatch-Keeps w (disembargo_message t x) = handle_disembargo-Valid t x
dispatch-Keeps w (unsupported kind) = λ c v. v
dispatch-Keeps w (return_message r) = handle_return-Keeps r
dispatch-Keeps w (call_message m) = handle_call-Keeps w m
dispatch-Keeps w unknown_message = λ c v. v

abort_if-Keeps : (e : Fault) → Keeps (abort_if_protocol e)
unfolding abort_if_protocol
abort_if-Keeps e c v = elim (Bool-cases (is_protocol e)) [
  | inl p ↦ rw p (abort-Valid e c v)
  | inr p ↦ rw p v
]

-- Whatever message comes in, and however its handling ends, the invariant is kept.
pub handle_message-Keeps : (w : World) (m : RpcMessage) → Keeps (handle_message w m)
unfolding handle_message
handle_message-Keeps w m = catch-Keeps _ _ (dispatch-Keeps w m) abort_if-Keeps
