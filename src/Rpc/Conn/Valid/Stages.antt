-- ===== src/Rpc/Conn/Valid/Stages.antt =====
-- The stages of `shutdown` in src/rpc/conn.ts that leave the tables of questions and exports alone,
-- and what a connection is once it is shut down.
use capnp_es.Prelude.{
  ℕ, ◌≡◌, refl, sym, ap, subst, ◌∙◌, if◌then◌else◌, Bool, true, false, List, [], ◌∷◌, get_elem?,
  Option, none, some, arith, inl, inr, Bool-cases, Dict, erase_key,
}
use capnp_es.Rpc.CallQueue.{Effect}
use capnp_es.Rpc.Slots.{find_slot}
use capnp_es.Rpc.Conn.Wire.{Fault, abort}
use capnp_es.Rpc.Conn.State.{
  Client, server, import_client, ref_client, answer_client, error_client, pipeline_client, Conn,
  AnswerEntry, Shared, ImportEntry, ImportClient, send_message,
}
use capnp_es.Rpc.Conn.Exports.Counts.{SameTables}
use capnp_es.Rpc.Conn.Imports.{write_import, rejected_calls, log_effects, close_optional}
use capnp_es.Rpc.Conn.Shutdown.{
  reject_if_pending, shut_answer, shut_answers, shut_import_object, shut_import_client, shut_import,
  shut_imports, shut_waiting, shut_waiters, shut_disembargoes, stage_questions, stage_answers,
  stage_exports, stage_imports, stage_waiters, stage_disembargoes, shutdown,
  abort_for_protocol_error,
}
use capnp_es.Rpc.Conn.Valid.{Valid, Same-Valid, SameTables-trans}
use capnp_es.Rpc.Conn.Valid.Shutdown.{
  reject_if_pending-SameTables, shut_questions-Valid, shut_exports-Valid, start-RestFrom,
}

shut_answer-SameTables :
    (o : Option AnswerEntry) (a : ℕ) (e : Fault) (c : Conn) → SameTables c (shut_answer o a e c)
unfolding shut_answer
shut_answer-SameTables none a e c = (refl, refl, refl, refl)
shut_answer-SameTables (some o) a e c = (refl, refl, refl, refl)

shut_answers-SameTables :
    (entries : Dict ℕ) (e : Fault) (c : Conn) → SameTables c (shut_answers entries e c)
unfolding shut_answers
shut_answers-SameTables [] e c = (refl, refl, refl, refl)
shut_answers-SameTables ((id, a) ∷ entries) e c =
    let d = shut_answer (get_elem? c.all_answers a) a e c in
    SameTables-trans c d (shut_answers ((id, a) ∷ entries) e c)
      (shut_answer-SameTables (get_elem? c.all_answers a) a e c)
      (shut_answers-SameTables entries e (record d { answers = erase_key id d.answers }))

pub log_effects-SameTables :
    (effects : List Effect) (c : Conn) → SameTables c (log_effects effects c)
log_effects-SameTables [] c = (refl, refl, refl, refl)
log_effects-SameTables (e ∷ effects) c = log_effects-SameTables effects _

pub close_optional-SameTables : (o : Option Client) (c : Conn) → SameTables c (close_optional o c)
unfolding close_optional
close_optional-SameTables none c = (refl, refl, refl, refl)
close_optional-SameTables (some k) c = (refl, refl, refl, refl)

shut_import_object-SameTables :
    (o : Option ImportClient) (i : ℕ) (c : Conn) → SameTables c (shut_import_object o i c)
unfolding shut_import_object
shut_import_object-SameTables none i c = (refl, refl, refl, refl)
shut_import_object-SameTables (some o) i c =
    let r = rejected_calls o.embargo_queue in
    let shut : ImportClient = record o {
      closed = true;
      resolved = none;
      embargo_id = none;
      embargo_queue = r.1;
    } in
    let d = log_effects r.0 (write_import i shut c) in
    SameTables-trans c d (close_optional o.resolved d)
      (log_effects-SameTables r.0 (write_import i shut c)) (close_optional-SameTables o.resolved d)

shut_import_client-SameTables : (k : Client) (c : Conn) → SameTables c (shut_import_client k c)
unfolding shut_import_client
shut_import_client-SameTables (import_client i) c =
    shut_import_object-SameTables (get_elem? c.all_imports i) i c
shut_import_client-SameTables (server _) c = (refl, refl, refl, refl)
shut_import_client-SameTables (ref_client _ _) c = (refl, refl, refl, refl)
shut_import_client-SameTables (answer_client _ _ _) c = (refl, refl, refl, refl)
shut_import_client-SameTables (error_client _ _) c = (refl, refl, refl, refl)
shut_import_client-SameTables (pipeline_client _ _ _) c = (refl, refl, refl, refl)

shut_import-SameTables : (s : Option Shared) (c : Conn) → SameTables c (shut_import s c)
unfolding shut_import
shut_import-SameTables none c = (refl, refl, refl, refl)
shut_import-SameTables (some s) c = shut_import_client-SameTables s.client c

shut_imports-SameTables :
    (entries : Dict ImportEntry) (c : Conn) → SameTables c (shut_imports entries c)
unfolding shut_imports
shut_imports-SameTables [] c = (refl, refl, refl, refl)
shut_imports-SameTables ((id, e) ∷ entries) c =
    let d = shut_import (get_elem? c.all_counts e.rc) c in
    SameTables-trans c d (shut_imports ((id, e) ∷ entries) c)
      (shut_import-SameTables (get_elem? c.all_counts e.rc) c)
      (shut_imports-SameTables entries (record d { imports = erase_key id d.imports }))

shut_waiting-SameTables :
    (waiters : List ℕ) (e : Fault) (c : Conn) → SameTables c (shut_waiting waiters e c)
unfolding shut_waiting
shut_waiting-SameTables [] e c = (refl, refl, refl, refl)
shut_waiting-SameTables (q ∷ waiters) e c =
    SameTables-trans c (reject_if_pending q e c) (shut_waiting (q ∷ waiters) e c)
      (reject_if_pending-SameTables q e c)
      (shut_waiting-SameTables waiters e (reject_if_pending q e c))

shut_waiters-SameTables :
    (entries : Dict (List ℕ)) (e : Fault) (c : Conn) → SameTables c (shut_waiters entries e c)
unfolding shut_waiters
shut_waiters-SameTables [] e c = (refl, refl, refl, refl)
shut_waiters-SameTables ((id, waiters) ∷ entries) e c =
    let d = shut_waiting waiters e c in
    SameTables-trans c d (shut_waiters ((id, waiters) ∷ entries) e c)
      (shut_waiting-SameTables waiters e c)
      (shut_waiters-SameTables entries e
        (record d { tail_answer_waiters = erase_key id d.tail_answer_waiters }))

shut_disembargoes-SameTables :
    (entries : Dict ℕ) (c : Conn) → SameTables c (shut_disembargoes entries c)
unfolding shut_disembargoes
shut_disembargoes-SameTables [] c = (refl, refl, refl, refl)
shut_disembargoes-SameTables ((id, i) ∷ entries) c = shut_disembargoes-SameTables entries _

-- The tables without an entry.
abbrev pub NoEntries : Conn → Type 0
NoEntries c = ((x : ℕ) → find_slot c.questions x ≡ none) × ((x : ℕ) → find_slot c.exports x ≡ none)

abbrev all_stages : Fault → Conn → Conn
all_stages e c =
    stage_disembargoes
      (stage_waiters e (stage_imports (stage_exports (stage_answers e (stage_questions e c)))))

-- The last three stages, which leave both tables alone.
late_stages-SameTables :
    (e : Fault) (c : Conn) → SameTables c (stage_disembargoes (stage_waiters e (stage_imports c)))
unfolding stage_disembargoes stage_waiters stage_imports
late_stages-SameTables e c =
    let d = stage_imports c in
    let f = stage_waiters e d in
    SameTables-trans c d (stage_disembargoes f) (shut_imports-SameTables c.imports c) (
      SameTables-trans d f (stage_disembargoes f)
        (shut_waiters-SameTables d.tail_answer_waiters e d)
        (shut_disembargoes-SameTables f.disembargoes f))

-- Shutting an open connection down keeps the invariant and leaves no question and no export.
pub open_shutdown-Valid :
    (e : Fault) (c : Conn)
    → c.closed ≡ false
    → Valid c
    → Valid (shutdown e c) × NoEntries (shutdown e c)
unfolding shutdown stage_questions stage_answers stage_exports
open_shutdown-Valid e c o v =
    let (qs, no_questions, _) =
      shut_questions-Valid 0 c.questions e (record c { closed = true; working = false })
        (start-RestFrom c.questions) (λ x p. absurd (omega (arith, p))) v in
    let c1 = stage_questions e c in
    let c2 = stage_answers e c1 in
    let s2 = shut_answers-SameTables c1.answers e c1 in
    let (es, no_exports, kept) =
      shut_exports-Valid 0 c2.exports c2 (start-RestFrom c2.exports)
        (λ x p. absurd (omega (arith, p))) (Same-Valid c1 c2 s2 qs) in
    let c3 = stage_exports c2 in
    let late = late_stages-SameTables e c3 in
    let end = stage_disembargoes (stage_waiters e (stage_imports c3)) in
    subst (λ (b : Bool). Valid (if b then c else end) × NoEntries (if b then c else end)) (sym o)
      (
        Same-Valid c3 end late es,
        (
          λ x. ap (λ l. find_slot l x) (late.0 ∙ kept ∙ s2.0) ∙ no_questions x,
          λ x. ap (λ l. find_slot l x) late.2 ∙ no_exports x,
        ),
      )

pub shutdown-Valid : (e : Fault) (c : Conn) → Valid c → Valid (shutdown e c)
shutdown-Valid e c v = elim (Bool-cases c.closed) [
  | inl p ↦
      unfold shutdown in subst (λ (b : Bool). Valid (if b then c else all_stages e c)) (sym p) v
  | inr p ↦ (open_shutdown-Valid e c p v).0
]

pub abort-Valid : (e : Fault) (c : Conn) → Valid c → Valid (abort_for_protocol_error e c)
unfolding abort_for_protocol_error
abort-Valid e c v = by_closed c.closed
  where
    by_closed : (b : Bool) → Valid (if b then c else shutdown e (send_message (abort e) c))
    by_closed true = v
    by_closed false = shutdown-Valid e (send_message (abort e) c) v
