-- ===== src/Rpc/Conn/Waiters.antt =====
-- The questions of src/rpc/conn.ts that wait for an answer of this side, and what they do to its
-- `Return` (`reject` of src/rpc/answer.ts).
use capnp_es.Prelude.{
  ℕ, ◌≡◌, refl, sym, ap, subst, ◌∙◌, if◌then◌else◌, Bool, true, false, List, ◌∷◌, length, get_elem?,
  some, lookup, erase_key, get_elem?-set_self,
}
use capnp_es.Rpc.Conn.Wire.{Fault, question_rejected_again, answer_rejected_again}
use capnp_es.Rpc.Conn.State.{
  Conn, Question, AnswerEntry, rejected_with, settle_promise, Outcome, Action, throw, ◌>>=◌, modify,
}
use capnp_es.Rpc.Conn.Questions.{is_in_progress, reject_object, reject_question}
use capnp_es.Rpc.Conn.Answers.{
  reject_waiters, reject_found, reject_tail_answer_waiters, reject_undone, reject_entry,
  reject_answer_in, reject_answer, write_answer,
}
use capnp_es.Rpc.Conn.Returns.{}
use capnp_es.Rpc.Conn.Settling.{at→lt, bind-done}

-- It throws and sends nothing, but the answer is done.
abbrev pub Blocked : ℕ → Conn → Outcome (Unit {0}) × Conn → Type 0
Blocked a c (r, d) =
    (r ≡ throw question_rejected_again)
    × (d.log ≡ c.log)
    × ((f : AnswerEntry) × (get_elem? d.all_answers a ≡ some f) × (f.done ≡ true))

abbrev undelivered : AnswerEntry → Fault → AnswerEntry
undelivered o e = record o {
  err = some e;
  done = true;
  promise = settle_promise (rejected_with e) o.promise;
}

bind-throw :
    {A B : Type 0} (m : Action A) (f : A → Action B) {x : Fault} {d : Conn} (c : Conn)
    → m c ≡ (throw x, d)
    → (m >>= f) c ≡ (throw x, d)
unfolding ◌>>=◌
bind-throw {A} {B} m f c h = ap (λ (p : Outcome A × Conn). ((λ (_ : Conn). p) >>= f) c) h

reject-over :
    (q : ℕ) (p : Question) (e : Fault) (c : Conn)
    → get_elem? c.all_questions q ≡ some p
    → is_in_progress p.state ≡ false
    → reject_question q e c ≡ (throw question_rejected_again, c)
unfolding reject_question reject_object
reject-over q p e c asked over = rw (asked, over) refl

reject_tail-throws :
    (id q : ℕ) (waiters : List ℕ) (p : Question) (e : Fault) (c : Conn)
    → lookup id c.tail_answer_waiters ≡ some (q ∷ waiters)
    → get_elem? c.all_questions q ≡ some p
    → is_in_progress p.state ≡ false
    → reject_tail_answer_waiters id e c ≡ (
      throw question_rejected_again,
      record c { tail_answer_waiters = erase_key id c.tail_answer_waiters },
    )
unfolding reject_tail_answer_waiters reject_found reject_waiters
reject_tail-throws id q waiters p e c waits asked over =
    let d : Conn = record c { tail_answer_waiters = erase_key id c.tail_answer_waiters } in
    ap (λ w. reject_found id e w c) waits
    ∙ bind-throw (reject_question q e) (λ _. reject_waiters waiters e) d
        (reject-over q p e d asked over)

reject_answer-throws :
    (a q : ℕ) (waiters : List ℕ) (o : AnswerEntry) (p : Question) (e : Fault) (c : Conn)
    → get_elem? c.all_answers a ≡ some o
    → o.done ≡ false
    → lookup o.id c.tail_answer_waiters ≡ some (q ∷ waiters)
    → get_elem? c.all_questions q ≡ some p
    → is_in_progress p.state ≡ false
    → reject_answer a e c ≡ (
      throw question_rejected_again,
      record (write_answer a (undelivered o e) c) {
        tail_answer_waiters = erase_key o.id c.tail_answer_waiters;
      },
    )
unfolding reject_answer reject_answer_in reject_entry reject_undone
reject_answer-throws a q waiters o p e c at undone waits asked over =
    let below = λ (b : ℕ). reject_answer_in (length c.all_answers) b e in
    let d = write_answer a (undelivered o e) c in
    ap (λ x. reject_entry below x a e c) at
    ∙ ap (λ (b : Bool). if b then (throw answer_rejected_again, c) else reject_undone below o a e c)
        undone
    ∙ bind-throw _ _ c (
        bind-throw _ _ c (
          bind-done (modify (write_answer a (undelivered o e)))
            (λ _. reject_tail_answer_waiters o.id e) c refl
          ∙ reject_tail-throws o.id q waiters p e d waits asked over))

-- Where the first question that waits for an answer is settled already, because it was canceled or
-- its pipeline closed, rejecting the answer throws, and no `Return` is sent; yet the answer is done,
-- so that nothing sends one later.
pub reject_answer-settled_waiter :
    (a q : ℕ) (waiters : List ℕ) (o : AnswerEntry) (p : Question) (e : Fault) (c : Conn)
    → get_elem? c.all_answers a ≡ some o
    → o.done ≡ false
    → lookup o.id c.tail_answer_waiters ≡ some (q ∷ waiters)
    → get_elem? c.all_questions q ≡ some p
    → is_in_progress p.state ≡ false
    → Blocked a c (reject_answer a e c)
reject_answer-settled_waiter a q waiters o p e c at undone waits asked over =
    subst (Blocked a c) (sym (reject_answer-throws a q waiters o p e c at undone waits asked over))
      (
        refl,
        refl,
        (
          undelivered o e,
          get_elem?-set_self c.all_answers a (undelivered o e) (at→lt c.all_answers a at),
          refl,
        ),
      )
