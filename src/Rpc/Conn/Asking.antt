-- ===== src/Rpc/Conn/Asking.antt =====
-- What this side asks the peer: `bootstrap`, `initMain` and `fillParams` of src/rpc/conn.ts, the
-- calls of an imported client (src/rpc/import-client.ts) and of a pipeline over a question
-- (src/rpc/question.ts).
use capnp_es.Prelude.{
  ℕ, ◌+◌, ◌==◌, if◌then◌else◌, Bool, true, false, List, [], get_elem?, update_at, Option, none,
  some,
}
use capnp_es.Rpc.CallQueue
use capnp_es.Rpc.CallQueue.{CallQueue, data_call}
use capnp_es.Errors.{ok}
use capnp_es.Rpc.Conn.Wire.{
  Fault, rpc_import_closed, question_popped, imported_cap, promised_answer, MessageTarget, caller,
  Payload, bootstrap, call_message, transform_to_promised_answer,
}
use capnp_es.Rpc.Conn.State.{
  Client, pipeline_client, MethodCall, method_call, Conn, Question, ImportClient, Outcome, throw,
  done_with, Action, ◌>>=◌, pure, raise, send_message,
}
use capnp_es.Rpc.Conn.Questions.{
  new_question, find_question, pop_question, is_in_progress, add_promise, client_from_resolution,
}
use capnp_es.Rpc.Conn.Exports.{add_export}
use capnp_es.Rpc.Conn.Imports.{write_import}
use capnp_es.Rpc.Conn.Caps.{make_cap_table, collect_payload_sender_hosted}
use capnp_es.Rpc.Conn.Fulfill.{World}

abbrev pub update_question : ℕ → (Question → Question) → Conn → Conn
update_question q f c = record c { all_questions = update_at c.all_questions q f }

abbrev pub id_of_question : Option Question → ℕ
id_of_question none = 0
id_of_question (some o) = o.id

-- `Question.start`
unfoldable pub start : ℕ → Conn → Conn
start q c = update_question q (λ o. record o { started = true }) c

-- `Conn.bootstrap`: the pipeline's client over the new question.
unfoldable pub bootstrap_peer : Conn → Client × Conn
unfolding start new_question
bootstrap_peer c =
    let (q, c') = new_question none c in
    let c' =
      start q (send_message (bootstrap (id_of_question (get_elem? c'.all_questions q))) c') in
    (pipeline_client c'.serial q [], record c' { serial = c'.serial + 1 })

-- `Conn.initMain`, of the server that `InterfaceClass.Server` makes.
unfoldable pub init_main : Client → Conn → Conn
unfolding add_export
init_main m c = (add_export m (record c { main = some m })).1

-- `Conn.fillParams`: the payload, and the exports that it refers to.
unfoldable pub fill_placed : World → Outcome ℕ → Action (Payload × List ℕ)
unfolding make_cap_table collect_payload_sender_hosted
fill_placed w (throw e) = raise e
fill_placed w (done_with content) =
    make_cap_table w.client_at w.hops (w.caps_of content) >>= λ table.
    pure (record { content = content; cap_table = table }, collect_payload_sender_hosted table)

unfoldable pub fill_params : World → MethodCall → Action (Payload × List ℕ)
unfolding fill_placed
fill_params w call = fill_placed w (w.place call)

-- What a call gives: an `ErrorAnswer`, a question, the answer of a queue, or the answer of another
-- client, which the call is handed on to.
pub data Asked : Type 0 where
  failed : Fault → Asked
  asked : ℕ → Asked
  queued : CallQueue.Answer → Asked
  forwarded : Client → Asked

-- The end of `call`, with the payload or what filling it in throws: the question is popped again
-- if the call cannot be sent.
unfoldable pub send_call :
    World → MessageTarget → ℕ → ℕ → ℕ → Outcome (Payload × List ℕ) × Conn → Asked × Conn
unfolding start pop_question
send_call w target method q id (throw e, c) = (failed e, (pop_question id c).1)
send_call w target method q id (done_with (payload, caps), c) = (
  asked q,
  start q (
      send_message
        (call_message (record {
          question_id = id;
          target = target;
          interface_id = w.interface_id_of method;
          method_id = w.method_id_of method;
          send_results_to = caller;
          params = payload;
        }))
        (update_question q (λ o. record o { param_caps = caps }) c)),
)

-- A new question for the call, sent to a target.
unfoldable pub ask : World → MessageTarget → MethodCall → Conn → Asked × Conn
unfolding new_question fill_params send_call
ask w target (method_call method params) c =
    let (q, c') = new_question (some method) c in
    send_call w target method q (id_of_question (get_elem? c'.all_questions q))
      (fill_params w (method_call method params) c')

-- `this.embargoQueue.push(cl)`, of a call with its data; the fulfiller has a new number.
unfoldable pub hold_call : MethodCall → ℕ → ImportClient → Conn → Asked × Conn
hold_call (method_call method params) i o c =
    let (answer, held) =
      CallQueue.push (λ m p. ok p) (data_call method params) c.serial o.embargo_queue in
    (
      queued answer,
      write_import i (record o { embargo_queue = held }) (record c { serial = c.serial + 1 }),
    )

unfoldable pub call_resolved :
    World → MethodCall → ℕ → ImportClient → Option Client → Conn → Asked × Conn
unfolding ask hold_call
call_resolved w call i o none c = ask w (imported_cap o.id) call c
call_resolved w call i o (some client) c = elim o.embargo_id [
  | some id ↦ hold_call call i o c
  | none ↦ (forwarded client, c)
]

-- `ImportClient.call`
unfoldable pub call_import : World → MethodCall → ℕ → Option ImportClient → Conn → Asked × Conn
unfolding call_resolved
call_import w call i none c = (failed rpc_import_closed, c)
call_import w call i (some o) c =
    if o.closed then (failed rpc_import_closed, c) else call_resolved w call i o o.resolved c

-- The promise is added if the call was sent.
unfoldable pub promised : ℕ → List ℕ → Asked × Conn → Asked × Conn
unfolding add_promise
promised q t (asked p, c) = (asked p, update_question q (add_promise t) c)
promised q t (failed e, c) = (failed e, c)
promised q t (queued a, c) = (queued a, c)
promised q t (forwarded k, c) = (forwarded k, c)

-- `this.conn.findQuestion(this.id) === this`
abbrev pub is_found : Option ℕ → ℕ → Bool
is_found none q = false
is_found (some p) q = p == q

-- `Question.pipelineCall`
unfoldable pub pipeline_call_object :
    World → MethodCall → ℕ → List ℕ → Option Question → Action Asked
unfolding ask promised client_from_resolution
pipeline_call_object w call q t none c = (throw question_popped, c)
pipeline_call_object w call q t (some o) c =
    if is_found (find_question o.id c) q
    then (let (a, c') =
          promised q t (ask w (promised_answer o.id (transform_to_promised_answer t)) call c) in
        (done_with a, c'))
    else if is_in_progress o.state
    then (throw question_popped, c)
    else (client_from_resolution w.client_at t o.obj o.err >>= λ k. pure (forwarded k)) c
