-- ===== src/Rpc/Conn/Settling.antt =====
-- How questions and answers of a connection are settled: src/rpc/conn.ts, src/rpc/question.ts and
-- src/rpc/answer.ts.
use capnp_es.Prelude.{
  ltb, min, ◌-◌, ◌==◌, inl, inr, Bool-cases, ℕ, zero, suc, ◌<◌, ◌≡◌, ◌≢◌, refl, sym, ap, subst, ◌∙◌,
  if◌then◌else◌, Bool, true, false, List, [], ◌∷◌, length, get_elem?, set, Option, none, some,
  arith, get_elem?-set_self, get_elem?-set_ne,
}
use capnp_es.Rpc.IdGen.{remove}
use capnp_es.Rpc.Slots.{find_slot, found→lt, find_slot-set}
use capnp_es.Rpc.Conn.Wire.{
  Fault, rpc_unimplemented, canceled_by_remote, finish, Return, ReturnBody, results, exception,
  exception_of, canceled, results_sent_elsewhere, take_from_other_question, unknown_return,
}
use capnp_es.Rpc.Conn.State.{
  Conn, Question, Export, Shared, Event, throw, warn, emit, rejected_with, settled, settle_promise,
  send, Outcome, Action, done_with, ◌>>=◌,
}
use capnp_es.Rpc.Conn.Questions.{
  find_question, pop_found, pop_question, is_in_progress, reject_object, reject_question,
  cancel_object, cancel, write_question,
}
use capnp_es.Rpc.RefCount
use capnp_es.Rpc.Conn.Exports.{
  find_export, close_shared, close_ref, close_outcome, drop_closed, drop_export, write_refs,
  release_found, release_export,
}
use capnp_es.Rpc.Conn.Returns.{
  release_each, settle_return, release_result_caps, finish_unless, return_to, return_popped,
  handle_return, error_of, error_from, release_params,
}

-- An index in a list is below its length.
pub at→lt : {A : Type 0} (l : List A) (i : ℕ) {x : A} → get_elem? l i ≡ some x → i < length l
at→lt [] i h = cc
at→lt (y ∷ l) zero h = omega arith
at→lt (y ∷ l) (suc i) h = omega (arith, at→lt l i h)

-- Canceling a question in progress whose id was given to another one, as happens once a `Return`
-- that names another question has freed it: the other question loses its place in the table, though
-- it stays as it was, and the peer is sent a `Finish` for it.
pub cancel_reused :
    (q p : ℕ) (o : Question) (e : Fault) (c : Conn)
    → get_elem? c.all_questions q ≡ some o
    → is_in_progress o.state ≡ true
    → o.started ≡ true
    → find_question o.id c ≡ some p
    → p ≢ q
    → ((cancel q e c).0 ≡ true)
      × (find_question o.id (cancel q e c).1 ≡ none)
      × (get_elem? (cancel q e c).1.all_questions p ≡ get_elem? c.all_questions p)
      × ((cancel q e c).1.log ≡ send (finish o.id true) ∷ c.log)
unfolding cancel cancel_object pop_question pop_found
cancel_reused q p o e c at live sent found other =
    let bound = found→lt c.questions o.id found in
    rw (at, live, sent, found)
      (
        refl,
        find_slot-set c.questions o.id none o.id bound ∙ ground arith,
        get_elem?-set_ne c.all_questions _ (λ k. other (sym k)),
        refl,
      )

some-inj : {x y : Fault} → some x ≡ some y → x ≡ y
some-inj {x} h = ap (λ (z : Option Fault). elim z as (λ _. Fault) [ none ↦ x | some w ↦ w ]) h

-- The reason that a `Return` gives by itself for its question to be rejected.
abbrev pub reason : Question → ReturnBody → Option Fault
reason o (exception e) = some (error_of o.method e)
reason o (exception_of e) = some (error_from o.method e)
reason o canceled = some canceled_by_remote
reason o results_sent_elsewhere = some rpc_unimplemented
reason o unknown_return = some rpc_unimplemented
reason o (results p) = none
reason o (take_from_other_question id) = none

settle_return-reason :
    (r : Return) (q : ℕ) (o : Question) (body : ReturnBody) (e : Fault)
    → reason o body ≡ some e
    → (settle_return r q o body ≡ reject_question q e) × (release_result_caps body ≡ true)
unfolding settle_return
settle_return-reason r q o (exception x) e h = (ap (reject_question q) (some-inj h), refl)
settle_return-reason r q o (exception_of x) e h = (ap (reject_question q) (some-inj h), refl)
settle_return-reason r q o canceled e h = (ap (reject_question q) (some-inj h), refl)
settle_return-reason r q o results_sent_elsewhere e h = (ap (reject_question q) (some-inj h), refl)
settle_return-reason r q o unknown_return e h = (ap (reject_question q) (some-inj h), refl)
settle_return-reason r q o (results p) e h = absurd (cc)
settle_return-reason r q o (take_from_other_question id) e h = absurd (cc)

-- The object of a question that is rejected.
abbrev pub rejected : Question → Fault → Question
rejected o e = record o {
  err = some e;
  state = settled;
  promise = settle_promise (rejected_with e) o.promise;
}

-- The connection without a question.
abbrev pub popped : ℕ → Conn → Conn
popped id c = record c {
  questions = set c.questions id none;
  question_id = remove id c.question_id;
}

abbrev SettlesIf :
    Bool → Return → ℕ → Question → Fault → List Event → Outcome (Unit {0}) × Conn → Type 0
SettlesIf unneeded r q o e log (out, d) =
    (out ≡ done_with tt)
    × (get_elem? d.all_questions q ≡ some (rejected o e))
    × (find_question r.answer_id d ≡ none)
    × (d.log ≡ (if unneeded then log else send (finish r.answer_id true) ∷ log))

-- The question is rejected and its id free, and a `Finish` is sent unless none is needed; `log` is
-- what was done before.
abbrev pub Settles : Return → ℕ → Question → Fault → List Event → Outcome (Unit {0}) × Conn → Type 0
Settles r = SettlesIf r.no_finish_needed r

abbrev finished : Bool → ℕ → Bool → Conn → Outcome (Unit {0}) × Conn
finished n id b c = (done_with tt, finish_unless n id b c)

pub bind-done :
    {A B : Type 0} (m : Action A) (f : A → Action B) {a : A} {d : Conn} (c : Conn)
    → m c ≡ (done_with a, d)
    → (m >>= f) c ≡ f a d
unfolding ◌>>=◌
bind-done {A} {B} m f c h = ap (λ (p : Outcome A × Conn). ((λ (_ : Conn). p) >>= f) c) h

reject-live :
    (q : ℕ) (o : Question) (e : Fault) (c : Conn)
    → get_elem? c.all_questions q ≡ some o
    → is_in_progress o.state ≡ true
    → reject_question q e c ≡ (done_with tt, write_question q (rejected o e) c)
unfolding reject_question reject_object
reject-live q o e c at live = rw (at, live) refl

pop_question-found :
    (id q : ℕ) (c : Conn) → find_question id c ≡ some q → pop_question id c ≡ (some q, popped id c)
unfolding pop_question pop_found
pop_question-found id q c found = rw found refl

-- The questions are as they were.
abbrev SameQuestions : Conn → Conn → Type 0
SameQuestions c d = (d.questions ≡ c.questions) × (d.all_questions ≡ c.all_questions)

close_shared-SameQuestions :
    (s : Option Shared) (rc r : ℕ) (c : Conn) → SameQuestions c (close_shared s rc r c)
unfolding close_shared
close_shared-SameQuestions none rc r c = (refl, refl)
close_shared-SameQuestions (some s) rc r c =
    elim (Bool-cases ((RefCount.close r s.count).client_closes == s.count.client_closes)) [
      | inl e ↦ rw e (refl, refl)
      | inr e ↦ rw e (refl, refl)
    ]

drop_closed-SameQuestions :
    (id : ℕ) (o : Outcome (Unit {0})) (c : Conn) → SameQuestions c (drop_closed id o c).1
unfolding drop_closed
drop_closed-SameQuestions id (throw e) c = (refl, refl)
drop_closed-SameQuestions id (done_with x) c = (refl, refl)

drop_export-SameQuestions :
    (id : ℕ) (e : Export) (c : Conn) → SameQuestions c (drop_export id e c).1
unfolding drop_export close_ref
drop_export-SameQuestions id e c =
    let (a, b) = close_shared-SameQuestions (get_elem? c.all_counts e.rc) e.rc e.ref c in
    let (a', b') =
      drop_closed-SameQuestions id (close_outcome (get_elem? c.all_counts e.rc) e.ref c)
        (close_ref e.rc e.ref c) in
    (a' ∙ a, b' ∙ b)

release_found-SameQuestions :
    (id refs : ℕ) (e : Option Export) (c : Conn) → SameQuestions c (release_found id refs e c).1
unfolding release_found
release_found-SameQuestions id refs none c = (refl, refl)
release_found-SameQuestions id refs (some e) c = elim (Bool-cases (refs == 0)) [
  | inl z ↦ rw z (refl, refl)
  | inr n ↦ elim (Bool-cases (ltb 0 (e.wire_refs - min refs e.wire_refs))) [
    | inl held ↦ rw (n, held) (refl, refl)
    | inr gone ↦
        rw (n, gone)
          (elim (Bool-cases (ltb e.wire_refs refs)) [
            | inl over ↦ rw over (drop_export-SameQuestions id e (emit warn less))
            | inr exact ↦ rw exact (drop_export-SameQuestions id e less)
          ])
  ]
]
  where
    less : Conn
    less = write_refs id e (e.wire_refs - min refs e.wire_refs) c

-- A call that leaves the questions as they are, followed by another.
bind-SameQuestions :
    {A B : Type 0} (m : Action A) (f : A → Action B)
    → ((c : Conn) → SameQuestions c (m c).1)
    → ((a : A) (c : Conn) → SameQuestions c (f a c).1)
    → (c : Conn) → SameQuestions c ((m >>= f) c).1
unfolding ◌>>=◌
bind-SameQuestions {A} {B} m f k l c = by_outcome (m c).0 (m c).1 (k c)
  where
    by_outcome :
        (r : Outcome A) (d : Conn)
        → SameQuestions c d
        → SameQuestions c (((λ (_ : Conn). (r, d)) >>= f) d).1
    by_outcome (throw e) d s = s
    by_outcome (done_with a) d (q, x) = let (q', x') = l a d in (q' ∙ q, x' ∙ x)

release_each-SameQuestions : (ids : List ℕ) (c : Conn) → SameQuestions c (release_each ids c).1
unfolding release_each release_export
release_each-SameQuestions [] = λ c. (refl, refl)
release_each-SameQuestions (id ∷ ids) =
    bind-SameQuestions (release_export id 1) (λ _. release_each ids)
      (λ c. release_found-SameQuestions id 1 (find_export id c) c)
      (λ _. release_each-SameQuestions ids)

release_params-SameQuestions :
    (b : Bool) (ids : List ℕ) (c : Conn) → SameQuestions c (release_params b ids c).1
unfolding release_params
release_params-SameQuestions true ids c = release_each-SameQuestions ids c
release_params-SameQuestions false ids c = (refl, refl)

handle_return-live :
    (r : Return) (q : ℕ) (o : Question) (e : Fault) (c d : Conn)
    → find_question r.answer_id c ≡ some q
    → get_elem? c.all_questions q ≡ some o
    → is_in_progress o.state ≡ true
    → reason o r.body ≡ some e
    → release_params r.release_param_caps o.param_caps (popped r.answer_id c) ≡ (done_with tt, d)
    → get_elem? d.all_questions q ≡ some o
    → handle_return r c ≡ (
      done_with tt,
      finish_unless r.no_finish_needed r.answer_id true (write_question q (rejected o e) d),
    )
unfolding handle_return return_popped return_to
handle_return-live r q o e c d found at live why let_go at' =
    let (rejects, released) = settle_return-reason r q o r.body e why in
    ap (return_popped r) (pop_question-found r.answer_id q c found)
    ∙ ap (λ x. return_to r q x (popped r.answer_id c)) at
    ∙ bind-done (release_params r.release_param_caps o.param_caps) _ (popped r.answer_id c) let_go
    ∙ bind-done (settle_return r q o r.body) _ d
        (ap (λ (m : Action (Unit {0})). m d) rejects ∙ reject-live q o e d at' live)
    ∙ ap
        (λ (b : Bool).
          finished r.no_finish_needed r.answer_id b (write_question q (rejected o e) d))
        released

-- A `Return` with an exception, a cancelation, results sent elsewhere or a kind that is not known,
-- for a question in progress, rejects that question with the reason that the message gives and
-- frees its id; the peer gets one `Finish` for the id, which releases the capabilities of the
-- results, unless the message says that it needs none. Where the message releases the capabilities
-- of the parameters, this comes first, and none of it may throw: `d` is the connection behind it.
pub handle_return-rejects :
    (r : Return) (q : ℕ) (o : Question) (e : Fault) (c d : Conn)
    → find_question r.answer_id c ≡ some q
    → get_elem? c.all_questions q ≡ some o
    → is_in_progress o.state ≡ true
    → reason o r.body ≡ some e
    → release_params r.release_param_caps o.param_caps (popped r.answer_id c) ≡ (done_with tt, d)
    → Settles r q o e d.log (handle_return r c)
handle_return-rejects r q o e c d found at live why let_go =
    let bound = found→lt c.questions r.answer_id found in
    let (questions, objects) =
      release_params-SameQuestions r.release_param_caps o.param_caps (popped r.answer_id c) in
    let left : (release_params r.release_param_caps o.param_caps (popped r.answer_id c)).1 ≡ d =
      ap (λ (p : Outcome (Unit {0}) × Conn). p.1) let_go in
    let same : d.all_questions ≡ c.all_questions =
      sym (ap (λ (x : Conn). x.all_questions) left) ∙ objects in
    let gone : d.questions ≡ set c.questions r.answer_id none =
      sym (ap (λ (x : Conn). x.questions) left) ∙ questions in
    let at' : get_elem? d.all_questions q ≡ some o = ap (λ l. get_elem? l q) same ∙ at in
    let freed =
      ap (λ l. find_slot l r.answer_id) gone
      ∙ find_slot-set c.questions r.answer_id none r.answer_id bound
      ∙ ground arith in
    let written =
      get_elem?-set_self d.all_questions q (rejected o e) (at→lt d.all_questions q at') in
    subst (Settles r q o e d.log)
      (sym (handle_return-live r q o e c d found at live why let_go at'))
      (by_finish r.no_finish_needed written freed)
  where
    by_finish :
        (b : Bool)
        → (get_elem? (set d.all_questions q (rejected o e)) q ≡ some (rejected o e))
        → (find_slot d.questions r.answer_id ≡ none)
        → SettlesIf b r q o e d.log
            (done_with tt, finish_unless b r.answer_id true (write_question q (rejected o e) d))
    by_finish true written freed = (refl, written, freed, refl)
    by_finish false written freed = (refl, written, freed, refl)
