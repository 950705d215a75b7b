-- ===== src/Rpc/Conn/Calls.antt =====
-- `handleCallMessage` and `routeCallMessage` of src/rpc/conn.ts.
use capnp_es.Prelude.{
  ℕ, ◌==◌, if◌then◌else◌, Bool, true, false, List, get_elem?, update_at, Option, none, some, lookup,
}
use capnp_es.Errors.{invariant_unreachable_code}
use capnp_es.Rpc.Conn.Wire.{
  bad_target, question_id_reused, protocol, library, rpc_unimplemented,
  promised_answer_ops_to_transform, MessageTarget, imported_cap, promised_answer, unknown_target,
  SendResultsTo, caller, yourself, unknown_receiver, CallMessage,
}
use capnp_es.Rpc.Conn.State.{
  Client, ref_client, MethodCall, method_call, join_call, Conn, AnswerEntry, Export, Outcome, throw,
  done_with, Action, ◌>>=◌, ◌>>◌, pure, raise, catch, modify, non_protocol_error, emit,
}
use capnp_es.Rpc.Conn.Questions.{client_from_resolution}
use capnp_es.Rpc.Conn.Exports.{find_export}
use capnp_es.Rpc.Conn.Answers.{insert_answer, pop_answer, reject_answer, queue_call}
use capnp_es.Rpc.Conn.Caps.{populate_message_cap_table}
use capnp_es.Rpc.Conn.Fulfill.{World}
use capnp_es.Rpc.Conn.Handlers.{send_return_exception}
use capnp_es.Rpc.Conn.Shutdown.{abort_for_protocol_error}

-- `this.call(client, cl)`, joined with the answer
abbrev pub call_joined : ℕ → MethodCall → Client → Conn → Conn
call_joined a call client = emit (join_call a client call)

unfoldable pub route_to_export : ℕ → MethodCall → Option Export → Action (Unit {0})
route_to_export a call none = raise (protocol bad_target)
route_to_export a call (some e) = modify (call_joined a call (ref_client e.rc e.ref))

unfoldable pub route_to_answer :
    World → ℕ → MethodCall → List ℕ → ℕ → Option AnswerEntry → Action (Unit {0})
unfolding client_from_resolution queue_call
route_to_answer w a call t target none c = (done_with tt, c)
route_to_answer w a call t target (some o) c =
    if o.done
    then (client_from_resolution w.client_at t o.obj o.err >>= λ client.
          modify (call_joined a call client))
        c
    else queue_call call t target a c

unfoldable pub route_promised : World → ℕ → MethodCall → List ℕ → Option ℕ → Action (Unit {0})
unfolding route_to_answer
route_promised w a call t none c = (throw (protocol bad_target), c)
route_promised w a call t (some target) c =
    route_to_answer w a call t target (get_elem? c.all_answers target) c

-- `Conn.routeCallMessage`, for the new answer `a` of id `result_id`
unfoldable pub route_call : World → ℕ → ℕ → MethodCall → MessageTarget → Action (Unit {0})
unfolding route_to_export route_promised
route_call w a result_id call (imported_cap id) c = route_to_export a call (find_export id c) c
route_call w a result_id call (promised_answer id ops) c =
    if id == result_id
    then (throw (protocol bad_target), c)
    else route_promised w a call (promised_answer_ops_to_transform ops) (lookup id c.answers) c
route_call w a result_id call unknown_target c = (throw (library invariant_unreachable_code), c)

-- `this.popAnswer(id); this.sendReturnException(id, new Error(RPC_UNIMPLEMENTED))`
unfoldable pub refuse_call : ℕ → Conn → Conn
unfolding pop_answer
refuse_call id c = send_return_exception id rpc_unimplemented (pop_answer id c).1

-- `Registry.lookup(interfaceId)` and `methodTable[methodId]`
abbrev pub lookup_method : Option (List ℕ) → ℕ → Option ℕ
lookup_method none id = none
lookup_method (some methods) id = get_elem? methods id

unfoldable pub call_method : World → CallMessage → ℕ → Option ℕ → Action (Unit {0})
unfolding route_call non_protocol_error reject_answer refuse_call
call_method w m a none = modify (refuse_call m.question_id)
call_method w m a (some method) =
    catch (route_call w a m.question_id (method_call method m.params.content) m.target)
      (λ e. non_protocol_error e >>= reject_answer a)

unfoldable pub accept_call : World → CallMessage → ℕ → SendResultsTo → Action (Unit {0})
unfolding call_method refuse_call
accept_call w m a caller =
    call_method w m a (lookup_method (w.methods_of m.interface_id) m.method_id)
accept_call w m a yourself =
    modify (λ c. record c {
      all_answers =
          update_at c.all_answers a
            (λ (o : AnswerEntry). record o { send_results_elsewhere = true });
    })
    >> call_method w m a (lookup_method (w.methods_of m.interface_id) m.method_id)
accept_call w m a unknown_receiver = modify (refuse_call m.question_id)

unfoldable pub call_inserted : World → CallMessage → Option ℕ × Conn → Outcome (Unit {0}) × Conn
unfolding accept_call abort_for_protocol_error
call_inserted w m (none, c) =
    (done_with tt, abort_for_protocol_error (protocol question_id_reused) c)
call_inserted w m (some a, c) = accept_call w m a m.send_results_to c

abbrev pub is_known_target : MessageTarget → Bool
is_known_target (imported_cap _) = true
is_known_target (promised_answer _ _) = true
is_known_target unknown_target = false

-- The parameters' table is filled in first; if that throws, the caller is told and that is all.
unfoldable pub fill_call : CallMessage → Action Bool
unfolding populate_message_cap_table non_protocol_error
fill_call m = catch (populate_message_cap_table m.params.cap_table >> pure true) (λ e.
    non_protocol_error e >>= λ e. modify (send_return_exception m.question_id e) >> pure false)

unfoldable pub call_filled : World → CallMessage → Bool → Action (Unit {0})
unfolding call_inserted insert_answer
call_filled w m false c = (done_with tt, c)
call_filled w m true c = call_inserted w m (insert_answer m.question_id c)

-- `Conn.handleCallMessage`
unfoldable pub handle_call : World → CallMessage → Action (Unit {0})
unfolding fill_call call_filled
handle_call w m =
    if is_known_target m.target
    then fill_call m >>= call_filled w m
    else raise (protocol bad_target)
