-- ===== src/Rpc/Conn/Returns.antt =====
-- `handleReturnMessage` of src/rpc/conn.ts.
use capnp_es.Prelude.{
  ℕ, ◌==◌, if◌then◌else◌, Bool, true, false, List, [], ◌∷◌, get_elem?, Option, none, some, lookup,
  insert, ◌++◌,
}
use capnp_es.Rpc.Conn.Wire.{
  return_for_unknown_question, Fault, protocol, remote, method_error, remote_of, method_error_of,
  rpc_bad_target, rpc_unimplemented, canceled_by_remote, CapDescriptor, ReturnBody, results,
  exception, exception_of, canceled, results_sent_elsewhere, take_from_other_question,
  unknown_return, Return, unimplemented, return_message, finish,
}
use capnp_es.Rpc.Conn.State.{
  Conn, Question, AnswerEntry, Outcome, done_with, Action, ◌>>=◌, ◌>>◌, pure, raise, catch, modify,
  non_protocol_error, send_message,
}
use capnp_es.Rpc.Conn.Questions.{pop_question, fulfill_question, reject_question}
use capnp_es.Rpc.Conn.Exports.{release_export}
use capnp_es.Rpc.Conn.Caps.{populate_message_cap_table}
use capnp_es.Rpc.Conn.Shutdown.{abort_for_protocol_error}

-- `for (...) this.releaseExport(q.paramCaps[i], 1)`
unfoldable pub release_each : List ℕ → Action (Unit {0})
release_each [] = pure tt
release_each (id ∷ ids) = release_export id 1 >> release_each ids

-- `if (ret.releaseParamCaps)`
unfoldable pub release_params : Bool → List ℕ → Action (Unit {0})
unfolding release_each
release_params true ids = release_each ids
release_params false ids = pure tt

-- Where filling in the table of capabilities throws; the message is the whole `Return`.
unfoldable pub return_unusable : Return → ℕ → Fault → Action (Unit {0})
unfolding non_protocol_error reject_question
return_unusable r q e =
    catch
      (non_protocol_error e >>= λ e.
        modify (send_message (unimplemented (return_message r))) >> reject_question q e)
      (λ p. reject_question q p >> raise p)

-- `if (!waiters[id]) waiters[id] = []`
abbrev pub waiters_of : Option (List ℕ) → List ℕ
waiters_of none = []
waiters_of (some waiters) = waiters

-- Where the other answer is done: its error, its content, or neither.
unfoldable pub take_done : ℕ → Option Fault → Option ℕ → Action (Unit {0})
unfolding reject_question fulfill_question
take_done q (some e) obj = reject_question q e
take_done q none (some obj) = fulfill_question q obj
take_done q none none = reject_question q rpc_bad_target

unfoldable pub take_from : ℕ → ℕ → Option AnswerEntry → Action (Unit {0})
unfolding take_done
take_from other q none c = reject_question q rpc_bad_target c
take_from other q (some o) c = if o.done then take_done q o.err o.obj c else (
  done_with tt,
  record c {
    tail_answer_waiters =
        insert other (waiters_of (lookup other c.tail_answer_waiters) ++ (q ∷ []))
          c.tail_answer_waiters;
  },
)

-- `q.method ? new MethodError(q.method, exc) : new RPCError(exc)`
abbrev pub error_of : Option ℕ → ℕ → Fault
error_of (some m) e = method_error m e
error_of none e = remote e

-- The same, of an exception that a connection made of an error.
abbrev pub error_from : Option ℕ → Fault → Fault
error_from (some m) e = method_error_of m e
error_from none e = remote_of e

-- `this.answers[id]`, as the object.
abbrev pub answer_object : ℕ → Conn → Option AnswerEntry
answer_object id c = elim (lookup id c.answers) [ none ↦ none | some a ↦ get_elem? c.all_answers a ]

-- Whether the results' table of capabilities could be filled in.
unfoldable pub fill_results : Return → ℕ → List CapDescriptor → Action Bool
unfolding populate_message_cap_table return_unusable
fill_results r q table =
    catch (populate_message_cap_table table >> pure true) (λ e. return_unusable r q e >> pure false)

unfoldable pub fulfill_if : ℕ → ℕ → Bool → Action (Unit {0})
unfolding fulfill_question
fulfill_if q content false c = (done_with tt, c)
fulfill_if q content true c = fulfill_question q content c

-- What the `switch` does to the popped question `q`.
unfoldable pub settle_return : Return → ℕ → Question → ReturnBody → Action (Unit {0})
unfolding fill_results fulfill_if take_from reject_question
settle_return r q o (results payload) =
    fill_results r q payload.cap_table >>= fulfill_if q payload.content
settle_return r q o (exception e) = reject_question q (error_of o.method e)
settle_return r q o (exception_of e) = reject_question q (error_from o.method e)
settle_return r q o canceled = reject_question q canceled_by_remote
settle_return r q o (take_from_other_question other) = λ c.
    if other == r.answer_id
    then reject_question q rpc_bad_target c
    else take_from other q (answer_object other c) c
settle_return r q o results_sent_elsewhere = reject_question q rpc_unimplemented
settle_return r q o unknown_return = reject_question q rpc_unimplemented

-- `releaseResultCaps`
abbrev pub release_result_caps : ReturnBody → Bool
release_result_caps (results _) = false
release_result_caps (exception _) = true
release_result_caps (exception_of _) = true
release_result_caps canceled = true
release_result_caps (take_from_other_question _) = true
release_result_caps results_sent_elsewhere = true
release_result_caps unknown_return = true

-- `if (!ret.noFinishNeeded)`
abbrev pub finish_unless : Bool → ℕ → Bool → Conn → Conn
finish_unless unneeded id release_caps c =
    if unneeded then c else send_message (finish id release_caps) c

unfoldable pub return_to : Return → ℕ → Option Question → Action (Unit {0})
unfolding release_params settle_return
return_to r q none = pure tt
return_to r q (some o) =
    release_params r.release_param_caps o.param_caps
    >> (settle_return r q o r.body
        >> modify (finish_unless r.no_finish_needed r.answer_id (release_result_caps r.body)))

unfoldable pub return_popped : Return → Option ℕ × Conn → Outcome (Unit {0}) × Conn
unfolding return_to abort_for_protocol_error
return_popped r (none, c) =
    (done_with tt, abort_for_protocol_error (protocol return_for_unknown_question) c)
return_popped r (some q, c) = return_to r q (get_elem? c.all_questions q) c

-- `Conn.handleReturnMessage`
unfoldable pub handle_return : Return → Action (Unit {0})
unfolding return_popped pop_question
handle_return r c = return_popped r (pop_question r.answer_id c)
