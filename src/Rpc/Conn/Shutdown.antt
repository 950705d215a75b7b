-- ===== src/Rpc/Conn/Shutdown.antt =====
-- `shutdown` and `abortForProtocolError` of src/rpc/conn.ts, one function for each loop.
use capnp_es.Prelude.{
  ℕ, ◌+◌, true, false, if◌then◌else◌, List, [], ◌∷◌, get_elem?, set, Option, none, some, Dict,
  erase_key,
}
use capnp_es.Rpc.IdGen.{remove}
use capnp_es.Rpc.Conn.Wire.{Fault, abort}
use capnp_es.Rpc.Conn.State.{
  Client, import_client, close_transport, Conn, AnswerEntry, Shared, Export, ImportEntry,
  ImportClient, rejected_with, settle_promise, emit, send_message,
}
use capnp_es.Rpc.Conn.Questions.{reject_question}
use capnp_es.Rpc.Conn.Exports.{close_ref}
use capnp_es.Rpc.Conn.Imports.{write_import, rejected_calls, log_effects, close_optional}
use capnp_es.Rpc.Conn.Answers.{write_answer}

-- `if (q.state === QuestionState.IN_PROGRESS) q.reject(err)`, which cannot throw.
unfoldable pub reject_if_pending : ℕ → Fault → Conn → Conn
unfolding reject_question
reject_if_pending q e c = (reject_question q e c).1

unfoldable pub shut_questions : ℕ → List (Option ℕ) → Fault → Conn → Conn
unfolding reject_if_pending
shut_questions i [] e c = c
shut_questions i (none ∷ slots) e c = shut_questions (i + 1) slots e c
shut_questions i (some q ∷ slots) e c =
    let c' = reject_if_pending q e c in
    shut_questions (i + 1) slots e
      (record c' { questions = set c'.questions i none; question_id = remove i c'.question_id })

unfoldable pub shut_answer : Option AnswerEntry → ℕ → Fault → Conn → Conn
shut_answer none a e c = c
shut_answer (some o) a e c =
    write_answer a
      (record o { done = true; err = some e; promise = settle_promise (rejected_with e) o.promise })
      c

unfoldable pub shut_answers : Dict ℕ → Fault → Conn → Conn
unfolding shut_answer
shut_answers [] e c = c
shut_answers ((id, a) ∷ entries) e c =
    let c' = shut_answer (get_elem? c.all_answers a) a e c in
    shut_answers entries e (record c' { answers = erase_key id c'.answers })

unfoldable pub shut_exports : ℕ → List (Option Export) → Conn → Conn
unfolding close_ref
shut_exports i [] c = c
shut_exports i (none ∷ slots) c = shut_exports (i + 1) slots c
shut_exports i (some e ∷ slots) c =
    let c' = close_ref e.rc e.ref c in
    shut_exports (i + 1) slots
      (record c' { exports = set c'.exports i none; export_id = remove i c'.export_id })

unfoldable pub shut_import_object : Option ImportClient → ℕ → Conn → Conn
unfolding close_optional
shut_import_object none i c = c
shut_import_object (some o) i c =
    let (effects, q) = rejected_calls o.embargo_queue in
    close_optional o.resolved (
      log_effects effects (
        write_import i
          (record o { closed = true; resolved = none; embargo_id = none; embargo_queue = q }) c))

-- `c instanceof ImportClient`
unfoldable pub shut_import_client : Client → Conn → Conn
unfolding shut_import_object
shut_import_client (import_client i) c = shut_import_object (get_elem? c.all_imports i) i c
shut_import_client other c = c

unfoldable pub shut_import : Option Shared → Conn → Conn
unfolding shut_import_client
shut_import none c = c
shut_import (some s) c = shut_import_client s.client c

unfoldable pub shut_imports : Dict ImportEntry → Conn → Conn
unfolding shut_import
shut_imports [] c = c
shut_imports ((id, e) ∷ entries) c =
    let c' = shut_import (get_elem? c.all_counts e.rc) c in
    shut_imports entries (record c' { imports = erase_key id c'.imports })

unfoldable pub shut_waiting : List ℕ → Fault → Conn → Conn
unfolding reject_if_pending
shut_waiting [] e c = c
shut_waiting (q ∷ waiters) e c = shut_waiting waiters e (reject_if_pending q e c)

unfoldable pub shut_waiters : Dict (List ℕ) → Fault → Conn → Conn
unfolding shut_waiting
shut_waiters [] e c = c
shut_waiters ((id, waiters) ∷ entries) e c =
    let c' = shut_waiting waiters e c in
    shut_waiters entries e (record c' { tail_answer_waiters = erase_key id c'.tail_answer_waiters })

unfoldable pub shut_disembargoes : Dict ℕ → Conn → Conn
shut_disembargoes [] c = c
shut_disembargoes ((id, i) ∷ entries) c =
    shut_disembargoes entries (record c { disembargo_id = remove id c.disembargo_id })

-- The stages of `shutdown`, each with the table that it runs through as it finds it.
unfoldable pub stage_questions : Fault → Conn → Conn
unfolding shut_questions
stage_questions e c = shut_questions 0 c.questions e (record c { closed = true; working = false })

unfoldable pub stage_answers : Fault → Conn → Conn
unfolding shut_answers
stage_answers e c = shut_answers c.answers e c

unfoldable pub stage_exports : Conn → Conn
unfolding shut_exports
stage_exports c = shut_exports 0 c.exports c

unfoldable pub stage_imports : Conn → Conn
unfolding shut_imports
stage_imports c = shut_imports c.imports c

unfoldable pub stage_waiters : Fault → Conn → Conn
unfolding shut_waiters
stage_waiters e c = shut_waiters c.tail_answer_waiters e c

unfoldable pub stage_disembargoes : Conn → Conn
unfolding shut_disembargoes
stage_disembargoes c =
    let c' = shut_disembargoes c.disembargoes c in
    emit close_transport (record c' { disembargoes = [] })

-- `Conn.shutdown`, of a given error.
unfoldable pub shutdown : Fault → Conn → Conn
unfolding stage_questions stage_answers stage_exports stage_imports stage_waiters stage_disembargoes
shutdown e c =
    if c.closed
    then c
    else stage_disembargoes
        (stage_waiters e (stage_imports (stage_exports (stage_answers e (stage_questions e c)))))

-- `Conn.abortForProtocolError`
unfoldable pub abort_for_protocol_error : Fault → Conn → Conn
unfolding shutdown
abort_for_protocol_error e c = if c.closed then c else shutdown e (send_message (abort e) c)
