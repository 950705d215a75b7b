-- ===== src/Rpc/Conn/Answers/Depth.antt =====
-- How deep the rejections of answers go (`reject` of src/rpc/answer.ts): each level marks an answer
-- as done before it goes down, so the number of the answers that are not done bounds the depth.
use capnp_es.Prelude.{
  ℕ, zero, suc, ◌+◌, ◌≤◌, ◌<◌, ◌≡◌, refl, sym, ap, ◌∙◌, if◌then◌else◌, Bool, true, false, List, [],
  ◌∷◌, length, get_elem?, set, update_at, Option, none, some, arith, inl, inr, Bool-cases, lookup,
}
use capnp_es.Rpc.Conn.Wire.{Fault, answer_rejected_again, return_message}
use capnp_es.Rpc.Conn.State.{
  Conn, Question, AnswerEntry, PipelinedCall, pipelined_call, Outcome, throw, done_with, Action,
  ◌>>=◌, ◌>>◌, modify, send_message, rejected_with, settle_promise,
}
use capnp_es.Rpc.Conn.Questions.{is_in_progress, reject_object, reject_question}
use capnp_es.Rpc.Conn.Answers.{
  write_answer, rejecting_return, first_error, reject_waiters, reject_found,
  reject_tail_answer_waiters, reject_queued, clear_queue, reject_calls, reject_undone, reject_entry,
  reject_answer_in, reject_answer,
}

-- The answers that are not done.
abbrev pub undone : List AnswerEntry → ℕ
undone [] = 0
undone (o ∷ entries) = (if o.done then 0 else 1) + undone entries

undone-le-length : (entries : List AnswerEntry) → undone entries ≤ length entries
undone-le-length [] = omega arith
undone-le-length (o ∷ entries) = ground (arith, undone-le-length entries)

undone-set :
    (entries : List AnswerEntry) (a : ℕ) (o o' : AnswerEntry)
    → get_elem? entries a ≡ some o
    → o.done ≡ false
    → o'.done ≡ true
    → undone (set entries a o') + 1 ≡ undone entries
undone-set [] a o o' h p q = cc
undone-set (x ∷ entries) zero o o' h p q =
    let same : x.done ≡ false =
      ap (λ (z : Option AnswerEntry). elim z as (λ _. Bool) [ none ↦ false | some y ↦ y.done ]) h
      ∙ p in
    rw (same, q) (omega arith)
undone-set (x ∷ entries) (suc a) o o' h p q = omega (arith, undone-set entries a o o' h p q)

undone-cleared :
    (entries : List AnswerEntry) (a : ℕ)
    → undone (update_at entries a (λ (o : AnswerEntry). record o { queue = [] })) ≡ undone entries
undone-cleared [] a = refl
undone-cleared (x ∷ entries) zero = refl
undone-cleared (x ∷ entries) (suc a) = omega (arith, undone-cleared entries a)

-- What follows a call, by what the call gives.
bind-cases :
    {A B : Type 0} (P : Outcome B × Conn → Type 0) (m : Action A) (f : A → Action B) (c : Conn)
    → ((e : Fault) → P (throw e, (m c).1))
    → ((a : A) → P (f a (m c).1))
    → P ((m >>= f) c)
unfolding ◌>>=◌
bind-cases {A} {B} P m f c l r = by_outcome (m c).0 (m c).1 l r
  where
    by_outcome :
        (o : Outcome A) (d : Conn)
        → ((e : Fault) → P (throw e, d))
        → ((a : A) → P (f a d))
        → P (((λ (_ : Conn). (o, d)) >>= f) d)
    by_outcome (throw e) d l r = l e
    by_outcome (done_with a) d l r = r a

-- Two continuations that agree where the call ends.
bind-agree :
    {A B : Type 0} (m : Action A) (f g : A → Action B) (c : Conn)
    → ((a : A) → f a (m c).1 ≡ g a (m c).1)
    → (m >>= f) c ≡ (m >>= g) c
unfolding ◌>>=◌
bind-agree {A} {B} m f g c h = by_outcome (m c).0 (m c).1 h
  where
    by_outcome :
        (o : Outcome A) (d : Conn)
        → ((a : A) → f a d ≡ g a d)
        → ((λ (_ : Conn). (o, d)) >>= f) d ≡ ((λ (_ : Conn). (o, d)) >>= g) d
    by_outcome (throw e) d h = refl
    by_outcome (done_with a) d h = h a

reject_question-answers :
    (q : ℕ) (e : Fault) (c : Conn) → (reject_question q e c).1.all_answers ≡ c.all_answers
unfolding reject_question
reject_question-answers q e c = by_object (get_elem? c.all_questions q)
  where
    by_object : (o : Option Question) → (reject_object o q e c).1.all_answers ≡ c.all_answers
    by_object none = unfold reject_object in refl
    by_object (some o) =
        unfold reject_object in
        elim (Bool-cases (is_in_progress o.state)) [ inl p ↦ rw p refl | inr p ↦ rw p refl ]

reject_waiters-answers :
    (waiters : List ℕ) (e : Fault) (c : Conn)
    → (reject_waiters waiters e c).1.all_answers ≡ c.all_answers
unfolding reject_waiters
reject_waiters-answers [] e c = refl
reject_waiters-answers (q ∷ waiters) e c =
    bind-cases (λ r. r.1.all_answers ≡ c.all_answers) (reject_question q e) _ c
      (λ x. reject_question-answers q e c)
      (λ _.
        reject_waiters-answers waiters e (reject_question q e c).1 ∙ reject_question-answers q e c)

reject_tail-answers :
    (id : ℕ) (e : Fault) (c : Conn)
    → (reject_tail_answer_waiters id e c).1.all_answers ≡ c.all_answers
unfolding reject_tail_answer_waiters
reject_tail-answers id e c = by_waiters (lookup id c.tail_answer_waiters)
  where
    by_waiters : (o : Option (List ℕ)) → (reject_found id e o c).1.all_answers ≡ c.all_answers
    by_waiters none = unfold reject_found in refl
    by_waiters (some waiters) = unfold reject_found in reject_waiters-answers waiters e _

abbrev paired : Outcome (Unit {0}) → Conn → Outcome (Unit {0}) × Conn
paired r c = (r, c)

-- What `reject` does before it goes down.
abbrev marked : AnswerEntry → ℕ → Fault → Action (Unit {0})
marked o a e =
    modify (
      write_answer a (record o {
        err = some e;
        done = true;
        promise = settle_promise (rejected_with e) o.promise;
      }))
    >> reject_tail_answer_waiters o.id e
    >> modify (send_message (return_message (rejecting_return o.id e)))

marked-answers :
    (o : AnswerEntry) (a : ℕ) (e : Fault) (c : Conn)
    → (marked o a e c).1.all_answers
      ≡ set c.all_answers a (record o {
        err = some e;
        done = true;
        promise = settle_promise (rejected_with e) o.promise;
      })
marked-answers o a e c = bind-cases P _ _ c (λ x. written) (λ _. written)
  where
    o' : AnswerEntry
    o' = record o {
      err = some e;
      done = true;
      promise = settle_promise (rejected_with e) o.promise;
    }

    P : Outcome (Unit {0}) × Conn → Type 0
    P r = r.1.all_answers ≡ set c.all_answers a o'

    written : P ((modify (write_answer a o') >> reject_tail_answer_waiters o.id e) c)
    written =
        bind-cases P (modify (write_answer a o')) _ c (λ x. refl)
          (λ _. reject_tail-answers o.id e (write_answer a o' c))

marked-undone :
    (o : AnswerEntry) (a : ℕ) (e : Fault) (c : Conn)
    → get_elem? c.all_answers a ≡ some o
    → o.done ≡ false
    → undone (marked o a e c).1.all_answers + 1 ≡ undone c.all_answers
marked-undone o a e c at p =
    ap (λ l. undone l + 1) (marked-answers o a e c) ∙ undone-set c.all_answers a o _ at p refl

module _ (reject : ℕ → Action (Unit {0}))
    (less : (b : ℕ) (c : Conn) → undone (reject b c).1.all_answers ≤ undone c.all_answers) where
  reject_queued-le :
      (queue : List PipelinedCall) (first : Outcome (Unit {0})) (c : Conn)
      → undone (reject_queued reject queue first c).1.all_answers ≤ undone c.all_answers
  unfolding reject_queued
  reject_queued-le [] first c = omega arith
  reject_queued-le (pipelined_call call a t ∷ queue) first c =
      omega
        (arith, reject_queued-le queue (first_error first (reject a c).0) (reject a c).1, less a c)

  reject_calls-le :
      (queue : List PipelinedCall) (a : ℕ) (c : Conn)
      → undone (reject_calls reject queue a c).1.all_answers ≤ undone c.all_answers
  unfolding reject_calls clear_queue
  reject_calls-le queue a c = omega (
    arith,
    reject_queued-le queue (done_with tt) c,
    undone-cleared (reject_queued reject queue (done_with tt) c).1.all_answers a,
  )

  reject_undone-le :
      (o : AnswerEntry) (a : ℕ) (e : Fault) (c : Conn)
      → get_elem? c.all_answers a ≡ some o
      → o.done ≡ false
      → undone (reject_undone reject o a e c).1.all_answers ≤ undone c.all_answers
  unfolding reject_undone
  reject_undone-le o a e c at p =
      bind-cases (λ r. undone r.1.all_answers ≤ undone c.all_answers) (marked o a e)
        (λ _. reject_calls reject o.queue a) c (λ x. omega (arith, marked-undone o a e c at p))
        (λ _.
          omega (arith, marked-undone o a e c at p, reject_calls-le o.queue a (marked o a e c).1))

  reject_entry-le :
      (x : Option AnswerEntry) (a : ℕ) (e : Fault) (c : Conn)
      → get_elem? c.all_answers a ≡ x
      → undone (reject_entry reject x a e c).1.all_answers ≤ undone c.all_answers
  unfolding reject_entry
  reject_entry-le none a e c at = omega arith
  reject_entry-le (some o) a e c at = elim (Bool-cases o.done) [
    | inl p ↦ rw p (omega arith)
    | inr p ↦ rw p (reject_undone-le o a e c at p)
  ]

  -- Another way to reject, which agrees where fewer than `d` answers are not done.
  module _ (other : ℕ → Action (Unit {0})) (d : ℕ)
      (same : (b : ℕ) (c : Conn) → undone c.all_answers < d → reject b c ≡ other b c) where
    reject_queued-agree :
        (queue : List PipelinedCall) (first : Outcome (Unit {0})) (c : Conn)
        → undone c.all_answers < d
        → reject_queued reject queue first c ≡ reject_queued other queue first c
    unfolding reject_queued
    reject_queued-agree [] first c h = refl
    reject_queued-agree (pipelined_call call a t ∷ queue) first c h =
        reject_queued-agree queue (first_error first (reject a c).0) (reject a c).1
          (omega (arith, less a c))
        ∙ ap
            (λ (r : Outcome (Unit {0}) × Conn).
              reject_queued other queue (first_error first r.0) r.1)
            (same a c h)

    reject_calls-agree :
        (queue : List PipelinedCall) (a : ℕ) (c : Conn)
        → undone c.all_answers < d
        → reject_calls reject queue a c ≡ reject_calls other queue a c
    unfolding reject_calls
    reject_calls-agree queue a c h =
        ap (λ (r : Outcome (Unit {0}) × Conn). paired r.0 (clear_queue a r.1))
          (reject_queued-agree queue (done_with tt) c h)

    reject_entry-agree :
        (x : Option AnswerEntry) (a : ℕ) (e : Fault) (c : Conn)
        → get_elem? c.all_answers a ≡ x
        → undone c.all_answers < suc d
        → reject_entry reject x a e c ≡ reject_entry other x a e c
    unfolding reject_entry reject_undone
    reject_entry-agree none a e c at h = refl
    reject_entry-agree (some o) a e c at h = elim (Bool-cases o.done) [
      | inl p ↦ rw p refl
      | inr p ↦
          ap (λ r. if o.done then (throw answer_rejected_again, c) else r)
            (bind-agree (marked o a e) (λ _. reject_calls reject o.queue a)
              (λ _. reject_calls other o.queue a) c
              (λ _.
                reject_calls-agree o.queue a (marked o a e c).1
                  (omega (arith, marked-undone o a e c at p))))
    ]

reject_answer_in-le :
    (d a : ℕ) (e : Fault) (c : Conn)
    → undone (reject_answer_in d a e c).1.all_answers ≤ undone c.all_answers
unfolding reject_answer_in
reject_answer_in-le zero a e c = omega arith
reject_answer_in-le (suc d) a e c =
    reject_entry-le (λ b. reject_answer_in d b e) (λ b c. reject_answer_in-le d b e c)
      (get_elem? c.all_answers a) a e c refl

reject_answer_in-deeper :
    (d a : ℕ) (e : Fault) (c : Conn)
    → undone c.all_answers < d
    → reject_answer_in d a e c ≡ reject_answer_in (suc d) a e c
unfolding reject_answer_in
reject_answer_in-deeper zero a e c h = absurd (omega (arith, h))
reject_answer_in-deeper (suc d) a e c h =
    reject_entry-agree (λ b. reject_answer_in d b e) (λ b c. reject_answer_in-le d b e c)
      (λ b. reject_answer_in (suc d) b e) d (λ b c. reject_answer_in-deeper d b e c)
      (get_elem? c.all_answers a) a e c refl h

reject_answer_in-more :
    (k n a : ℕ) (e : Fault) (c : Conn)
    → undone c.all_answers < n
    → reject_answer_in (k + n) a e c ≡ reject_answer_in n a e c
reject_answer_in-more zero n a e c h =
    let q : 0 + n ≡ n = omega arith in ap (λ m. reject_answer_in m a e c) q
reject_answer_in-more (suc k) n a e c h =
    let q : suc k + n ≡ suc (k + n) = omega arith in
    ap (λ m. reject_answer_in m a e c) q
    ∙ sym (reject_answer_in-deeper (k + n) a e c (omega (arith, h)))
    ∙ reject_answer_in-more k n a e c h

-- However many more levels than the depth of `reject_answer` a rejection may go down, it ends in
-- the same way and in the same connection.
pub reject_answer-depth :
    (k a : ℕ) (e : Fault) (c : Conn)
    → reject_answer_in (k + suc (length c.all_answers)) a e c ≡ reject_answer a e c
unfolding reject_answer reject_answer_in
reject_answer-depth k a e c =
    reject_answer_in-more k (suc (length c.all_answers)) a e c
      (omega (arith, undone-le-length c.all_answers))
