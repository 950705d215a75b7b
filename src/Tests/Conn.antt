-- ===== src/Tests/Conn.antt =====
-- Connections (src/rpc/conn.ts) on small inputs.
use capnp_es.Prelude.{
  ℕ, suc, ◌+◌, ◌-◌, ◌≡◌, ◌≢◌, refl, true, false, [], ◌∷◌, get_elem?, some, none, if◌then◌else◌,
  ◌==◌, arith, lookup,
}
use capnp_es.Rpc.IdGen.{next, next_from, new_id_gen}
use capnp_es.Rpc.Conn.Wire.{
  Fault, pipeline_closed, canceled_by_remote, exception, Return, new_return, bootstrap, finish,
  release,
}
use capnp_es.Rpc.Conn.State.{
  server, Conn, new_conn, Question, PipelinedCall, pipelined_call, method_call, ImportEntry,
  settled, done_with, send,
}
use capnp_es.Rpc.Conn.Questions.{new_question_object, new_question, find_question, cancel}
use capnp_es.Rpc.Conn.Exports.{add_export, release_export, add_found, find_same, new_shared}
use capnp_es.Rpc.Conn.Exports.Counts.{refs_at, release_export-refs}
use capnp_es.Rpc.Conn.Exports.Added.{add_export-refs}
use capnp_es.Rpc.Conn.Imports.{add_import, release_import_all}
use capnp_es.Rpc.Conn.Imports.Refs.{import_refs, add_import-refs, release_import_all-Released}
use capnp_es.Rpc.Conn.Answers.{new_answer_object, reject_answer, reject_answer_in}
use capnp_es.Rpc.Conn.Answers.Depth.{reject_answer-depth}
use capnp_es.Rpc.Conn.Fulfill.{World}
use capnp_es.Rpc.Conn.Shutdown.{shutdown}
use capnp_es.Rpc.Conn.Returns.{handle_return, release_params, release_each}
use capnp_es.Rpc.Conn.Dispatch.{handle_message}
use capnp_es.Rpc.Conn.Asking.{init_main}
use capnp_es.Rpc.Conn.Valid.{Valid}
use capnp_es.Rpc.Conn.Valid.Stages.{NoEntries, open_shutdown-Valid}
use capnp_es.Rpc.Conn.Valid.Reach.{
  Reach, opened, then_step, serve, receive, Reach-Valid, new_question_fresh,
}
use capnp_es.Rpc.Conn.Settling.{Settles, popped, cancel_reused, handle_return-rejects}
use capnp_es.Rpc.Conn.Waiters.{Blocked, reject_answer-settled_waiter}

-- Contents without capabilities, and one interface with a method.
abbrev small_world : World
small_world = record {
  client_at = λ obj t. done_with (server obj);
  caps_of = λ obj. some (server obj) ∷ [];
  cap_at = λ obj t. done_with (some 0);
  root_of = λ k. 7;
  methods_of = λ id. some (3 ∷ []);
  hops = 10;
  place = λ call. done_with 0;
  interface_id_of = λ m. 1;
  method_id_of = λ m. 0;
}

-- A server, and a peer that asks for it.
abbrev served : Conn
served = (handle_message small_world (bootstrap 0) (init_main (server 7) new_conn)).1

served-Reach : Reach small_world served
unfolding new_conn
served-Reach =
    then_step (then_step (opened (λ client log. none)) (serve (server 7))) (receive (bootstrap 0))

Reach-Valid_example : Valid served
Reach-Valid_example = Reach-Valid served-Reach

new_question_fresh_example :
    (find_question (next served.question_id).0 served ≡ none)
    × ((x : ℕ)
        → find_question x (new_question (some 3) served).1 ≡ (
            if x == (next served.question_id).0
            then some (new_question (some 3) served).0
            else find_question x served))
new_question_fresh_example = new_question_fresh (some 3) served-Reach

main-Reach : Reach small_world (init_main (server 7) new_conn)
unfolding new_conn
main-Reach = then_step (opened (λ client log. none)) (serve (server 7))

open_shutdown-Valid_example :
    Valid (shutdown pipeline_closed (init_main (server 7) new_conn))
    × NoEntries (shutdown pipeline_closed (init_main (server 7) new_conn))
unfolding init_main add_export add_found find_same new_shared new_conn new_id_gen
open_shutdown-Valid_example =
    open_shutdown-Valid pipeline_closed (init_main (server 7) new_conn) refl
      (Reach-Valid main-Reach)

-- An export that was sent twice.
abbrev twice_sent : Conn
twice_sent = (add_export (server 7) (add_export (server 7) new_conn).1).1

release_export-refs_example : refs_at 0 (release_export 0 1 twice_sent).1 ≡ refs_at 0 twice_sent - 1
release_export-refs_example = release_export-refs 0 1 0 twice_sent

add_export-refs_example :
    refs_at 0 (add_export (server 7) new_conn).1
    ≡ refs_at 0 new_conn + (if 0 == (add_export (server 7) new_conn).0 then 1 else 0)
unfolding new_conn new_id_gen
add_export-refs_example = add_export-refs (server 7) 0 new_conn (refl, λ x. refl)

add_import-refs_example : import_refs 4 (add_import 4 false new_conn).1 ≡ import_refs 4 new_conn + 1
add_import-refs_example = add_import-refs 4 false 4 new_conn

-- An import that was received three times.
abbrev thrice : ImportEntry
thrice = record { rc = 0; refs = 3; is_promise = false }

abbrev importing : Conn
importing = record new_conn { imports = (4, thrice) ∷ [] }

release_import_all-Released_example :
    (lookup 4 (release_import_all 4 importing).imports ≡ none)
    × ((x : ℕ)
        → x ≢ 4
        → lookup x (release_import_all 4 importing).imports ≡ lookup x importing.imports)
    × ((release_import_all 4 importing).log ≡ send (release 4 3) ∷ importing.log)
release_import_all-Released_example =
    release_import_all-Released 4 thrice importing refl (omega arith)

-- A question that was sent, and the exception that answers it.
abbrev asking : Conn
asking = (new_question (some 3) new_conn).1

abbrev failure : Return
failure = record (new_return 0 (exception 9)) { release_param_caps = true }

handle_return-rejects_example :
    Settles failure 0
      (new_question_object 0 (some 3))
      (Fault.method_error 3 9)
      asking.log
      (handle_return failure asking)
unfolding new_question new_conn new_id_gen next next_from release_params release_each
handle_return-rejects_example =
    handle_return-rejects failure 0 (new_question_object 0 (some 3)) (Fault.method_error 3 9) asking
      (popped 0 asking) refl refl refl refl refl

-- The first question waits for an answer of this side; the second has its id.
abbrev first_question : Question
first_question = record (new_question_object 0 (some 3)) { started = true }

abbrev reusing : Conn
reusing = record new_conn {
  questions = some 1 ∷ [];
  all_questions = first_question ∷ new_question_object 0 (some 3) ∷ [];
}

cancel_reused_example :
    ((cancel 0 pipeline_closed reusing).0 ≡ true)
    × (find_question 0 (cancel 0 pipeline_closed reusing).1 ≡ none)
    × (get_elem? (cancel 0 pipeline_closed reusing).1.all_questions 1
        ≡ get_elem? reusing.all_questions 1)
    × ((cancel 0 pipeline_closed reusing).1.log ≡ send (finish 0 true) ∷ reusing.log)
cancel_reused_example =
    cancel_reused 0 1 first_question pipeline_closed reusing refl refl refl refl (ground arith)

-- An answer that a settled question waits for.
abbrev waiting : Conn
waiting = record new_conn {
  all_questions = record first_question { state = settled } ∷ [];
  all_answers = new_answer_object 5 ∷ [];
  answers = (5, 0) ∷ [];
  tail_answer_waiters = (5, 0 ∷ []) ∷ [];
}

reject_answer-settled_waiter_example :
    Blocked 0 waiting (reject_answer 0 canceled_by_remote waiting)
reject_answer-settled_waiter_example =
    reject_answer-settled_waiter 0 0 [] (new_answer_object 5)
      (record first_question { state = settled }) canceled_by_remote waiting refl refl refl refl
      refl

-- Two answers; a call for the first answer waits on the second, and one for the second on the first.
abbrev waits_on : ℕ → PipelinedCall
waits_on a = pipelined_call (method_call 1 0) a []

abbrev chained : Conn
chained = record new_conn {
  all_answers =
      record (new_answer_object 5) { queue = waits_on 1 ∷ [] }
      ∷ record (new_answer_object 6) { queue = waits_on 0 ∷ [] }
      ∷ [];
}

reject_answer-depth_example :
    reject_answer_in (3 + suc 2) 0 canceled_by_remote chained
    ≡ reject_answer 0 canceled_by_remote chained
reject_answer-depth_example = reject_answer-depth 3 0 canceled_by_remote chained
