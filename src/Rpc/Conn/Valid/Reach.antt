-- ===== src/Rpc/Conn/Valid/Reach.antt =====
-- The states that a connection (src/rpc/conn.ts) can reach: messages come in and this side asks,
-- cancels, closes and answers, in any order.
use capnp_es.Prelude.{
  ℕ, ◌≡◌, refl, ◌==◌, if◌then◌else◌, Bool, true, false, List, get_elem?, Option, none, some, inl,
  inr, Bool-cases, length,
}
use capnp_es.Rpc.IdGen.{next, new_id_gen}
use capnp_es.Rpc.Slots.Ids.{put_slot_lem}
use capnp_es.Rpc.Conn.Wire.{
  rpc_import_closed, Fault, MessageTarget, Payload, RpcMessage, imported_cap, promised_answer,
  transform_to_promised_answer,
}
use capnp_es.Rpc.Conn.State.{
  Client, Event, MethodCall, method_call, Conn, new_conn, Question, ImportClient, Outcome, throw,
  done_with,
}
use capnp_es.Rpc.Conn.Questions.{
  new_question, find_question, cancel, pipeline_close, is_in_progress,
}
use capnp_es.Rpc.Conn.Exports.{close_ref}
use capnp_es.Rpc.Conn.Exports.Counts.{close_ref-SameTables}
use capnp_es.Rpc.Conn.Imports.{close_import}
use capnp_es.Rpc.Conn.Fulfill.{World, join_answer}
use capnp_es.Rpc.Conn.Shutdown.{shutdown}
use capnp_es.Rpc.Conn.Dispatch.{handle_message}
use capnp_es.Rpc.Conn.Asking.{
  start, bootstrap_peer, init_main, fill_placed, fill_params, Asked, failed, asked, queued,
  forwarded, send_call, ask, hold_call, call_resolved, call_import, promised, pipeline_call_object,
  is_found,
}
use capnp_es.Rpc.Conn.Valid.{
  Valid, Keeps, bind-Keeps, Same-Valid, new_question-Valid, pop_question-Valid, add_export-Valid,
}
use capnp_es.Rpc.Conn.Valid.Parts.{client_from_resolution-Keeps}
use capnp_es.Rpc.Conn.Valid.Caps.{make_cap_table-Keeps}
use capnp_es.Rpc.Conn.Valid.Stages.{shutdown-Valid}
use capnp_es.Rpc.Conn.Valid.Imports.{cancel-Valid, pipeline_close-Valid, close_import-Valid}
use capnp_es.Rpc.Conn.Valid.Handlers.{join_answer-Valid}
use capnp_es.Rpc.Conn.Valid.Dispatch.{handle_message-Keeps}

bootstrap_peer-Valid : (c : Conn) → Valid c → Valid (bootstrap_peer c).1
unfolding bootstrap_peer start
bootstrap_peer-Valid c v = new_question-Valid none c v

init_main-Valid : (m : Client) (c : Conn) → Valid c → Valid (init_main m c)
unfolding init_main
init_main-Valid m c v = add_export-Valid m (record c { main = some m }) v

fill_placed-Keeps : (w : World) (r : Outcome ℕ) → Keeps (fill_placed w r)
unfolding fill_placed
fill_placed-Keeps w (throw e) = λ c v. v
fill_placed-Keeps w (done_with content) =
    bind-Keeps _ _ (make_cap_table-Keeps w.client_at w.hops (w.caps_of content)) (λ _ c v. v)

send_call-Valid :
    (w : World) (t : MessageTarget) (m q id : ℕ) (r : Outcome (Payload × List ℕ) × Conn)
    → Valid r.1
    → Valid (send_call w t m q id r).1
unfolding send_call start
send_call-Valid w t m q id (throw e, c) v = pop_question-Valid id c v
send_call-Valid w t m q id (done_with (p, caps), c) v = v

ask-Valid :
    (w : World) (t : MessageTarget) (call : MethodCall) (c : Conn)
    → Valid c
    → Valid (ask w t call c).1
unfolding ask fill_params
ask-Valid w t (method_call m params) c v = send_call-Valid w t m _ _ _ (
    fill_placed-Keeps w (w.place (method_call m params)) (new_question (some m) c).1
      (new_question-Valid (some m) c v))

hold_call-Valid :
    (call : MethodCall) (i : ℕ) (o : ImportClient) (c : Conn)
    → Valid c
    → Valid (hold_call call i o c).1
unfolding hold_call
hold_call-Valid (method_call m params) i o c v = v

call_resolved-Valid :
    (w : World) (call : MethodCall) (i : ℕ) (o : ImportClient) (k : Option Client) (c : Conn)
    → Valid c
    → Valid (call_resolved w call i o k c).1
unfolding call_resolved
call_resolved-Valid w call i o none c v = ask-Valid w (imported_cap o.id) call c v
call_resolved-Valid w call i o (some k) c v = by_embargo o.embargo_id
  where
    by_embargo :
        (e : Option ℕ)
        → Valid
            (elim e as (λ _. Asked × Conn) [
              | some id ↦ hold_call call i o c
              | none ↦ (forwarded k, c)
            ]).1
    by_embargo none = v
    by_embargo (some id) = hold_call-Valid call i o c v

call_import-Valid :
    (w : World) (call : MethodCall) (i : ℕ) (o : Option ImportClient) (c : Conn)
    → Valid c
    → Valid (call_import w call i o c).1
unfolding call_import
call_import-Valid w call i none c v = v
call_import-Valid w call i (some o) c v = by_closed o.closed
  where
    by_closed :
        (b : Bool)
        → Valid
            (if b then (failed rpc_import_closed, c) else call_resolved w call i o o.resolved c).1
    by_closed true = v
    by_closed false = call_resolved-Valid w call i o o.resolved c v

promised-Valid : (q : ℕ) (t : List ℕ) (r : Asked × Conn) → Valid r.1 → Valid (promised q t r).1
unfolding promised
promised-Valid q t (asked p, c) v = v
promised-Valid q t (failed e, c) v = v
promised-Valid q t (queued a, c) v = v
promised-Valid q t (forwarded k, c) v = v

pipeline_call-Keeps :
    (w : World) (call : MethodCall) (q : ℕ) (t : List ℕ) (o : Option Question)
    → Keeps (pipeline_call_object w call q t o)
unfolding pipeline_call_object
pipeline_call-Keeps w call q t none c v = v
pipeline_call-Keeps w call q t (some o) c v =
    elim (Bool-cases (is_found (find_question o.id c) q)) [
      | inl p ↦ rw p (
          promised-Valid q t _
            (ask-Valid w (promised_answer o.id (transform_to_promised_answer t)) call c v))
      | inr p ↦ elim (Bool-cases (is_in_progress o.state)) [
        | inl r ↦ rw (p, r) v
        | inr r ↦
            rw (p, r)
              (bind-Keeps _ _ (client_from_resolution-Keeps w.client_at t o.obj o.err) (λ _ c v. v)
                c v)
      ]
    ]

-- What can happen to a connection. The objects that this side uses may be any that it made.
pub data Step (w : World) : Conn → Conn → Type 0 where
  receive : {c : Conn} (m : RpcMessage) → Step w c (handle_message w m c).1
  ask_bootstrap : {c : Conn} → Step w c (bootstrap_peer c).1
  serve : {c : Conn} (m : Client) → Step w c (init_main m c)
  call_on_import :
      {c : Conn} (call : MethodCall) (i : ℕ)
      → Step w c (call_import w call i (get_elem? c.all_imports i) c).1
  call_on_pipeline :
      {c : Conn} (call : MethodCall) (q : ℕ) (t : List ℕ)
      → Step w c (pipeline_call_object w call q t (get_elem? c.all_questions q) c).1
  cancel_question : {c : Conn} (q : ℕ) (e : Fault) → Step w c (cancel q e c).1
  close_pipeline :
      {c : Conn} (q : ℕ) (t : List ℕ)
      → Step w c (pipeline_close w.client_at (get_elem? c.all_questions q) q t c)
  close_reference : {c : Conn} (rc r : ℕ) → Step w c (close_ref rc r c)
  close_imported : {c : Conn} (i : ℕ) → Step w c (close_import i c)
  answer_call : {c : Conn} (a : ℕ) (r : Outcome ℕ) → Step w c (join_answer w a r c)
  shut : {c : Conn} (e : Fault) → Step w c (shutdown e c)

pub data Reach (w : World) : Conn → Type 0 where
  opened :
      (close_fails : Client → List Event → Option Fault)
      → Reach w (record new_conn { close_fails = close_fails })
  then_step : {c d : Conn} → Reach w c → Step w c d → Reach w d

Step-Valid : {w : World} {c d : Conn} → Step w c d → Valid c → Valid d
Step-Valid {w} (receive {c} m) v = handle_message-Keeps w m c v
Step-Valid (ask_bootstrap {c}) v = bootstrap_peer-Valid c v
Step-Valid (serve {c} m) v = init_main-Valid m c v
Step-Valid {w} (call_on_import {c} call i) v =
    call_import-Valid w call i (get_elem? c.all_imports i) c v
Step-Valid {w} (call_on_pipeline {c} call q t) v =
    pipeline_call-Keeps w call q t (get_elem? c.all_questions q) c v
Step-Valid (cancel_question {c} q e) v = cancel-Valid q e c v
Step-Valid {w} (close_pipeline {c} q t) v =
    pipeline_close-Valid w.client_at (get_elem? c.all_questions q) q t c v
Step-Valid (close_reference {c} rc r) v =
    Same-Valid c (close_ref rc r c) (close_ref-SameTables rc r c) v
Step-Valid (close_imported {c} i) v = close_import-Valid i c v
Step-Valid {w} (answer_call {c} a r) v = join_answer-Valid w a r c v
Step-Valid (shut {c} e) v = shutdown-Valid e c v

-- Whatever comes in and whatever this side does, in any order and also where handling a message
-- throws: the ids that can be given again are exactly those of the nulled entries of the tables of
-- questions and exports, each once, and the counters are the lengths of the tables. Closing the
-- client of an export may throw whatever `close_fails` says.
pub Reach-Valid : {w : World} {c : Conn} → Reach w c → Valid c
unfolding new_conn new_id_gen
Reach-Valid (opened close_fails) = ((refl, λ x. refl), (refl, λ x. refl))
Reach-Valid (then_step r s) = Step-Valid s (Reach-Valid r)

-- In every state that a connection can reach, a new question has an id that no question in the
-- table has; it is found under that id, and every other question where it was.
pub new_question_fresh :
    {w : World} {c : Conn} (m : Option ℕ)
    → Reach w c
    → (find_question (next c.question_id).0 c ≡ none)
      × ((x : ℕ)
          → find_question x (new_question m c).1 ≡ (
              if x == (next c.question_id).0 then some (new_question m c).0 else find_question x c))
unfolding new_question
new_question_fresh {w} {c} m r =
    let p = put_slot_lem c.question_id c.questions (length c.all_questions) (Reach-Valid r).0 in
    (p.was_free, p.finds)
