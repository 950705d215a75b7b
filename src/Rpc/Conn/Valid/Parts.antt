-- ===== src/Rpc/Conn/Valid/Parts.antt =====
-- The invariant of the tables through the parts of the handlers of src/rpc/conn.ts: questions,
-- imports, answers and capabilities.
use capnp_es.Prelude.{
  ℕ, zero, suc, ltb, List, [], ◌∷◌, get_elem?, Option, none, some, inl, inr, Bool-cases, lookup,
  length,
}
use capnp_es.Rpc.CallQueue.{call_queue_size}
use capnp_es.Rpc.Conn.Wire.{Fault}
use capnp_es.Rpc.Conn.State.{
  Client, Question, AnswerEntry, Outcome, Action, MethodCall, PipelinedCall, pipelined_call,
}
use capnp_es.Rpc.Conn.Questions.{
  is_in_progress, fulfill_object, fulfill_question, reject_object, reject_question,
  client_from_resolution,
}
use capnp_es.Rpc.Conn.Answers.{
  reject_waiters, fulfill_waiters, reject_found, fulfill_found, queue_in,
  reject_tail_answer_waiters, fulfill_tail_answer_waiters, reject_queued, clear_queue, reject_calls,
  reject_undone, reject_entry, reject_answer_in, reject_answer, queue_call,
}
use capnp_es.Rpc.Conn.Caps.{}
use capnp_es.Rpc.Conn.Valid.{Keeps, bind-Keeps}

fulfill_object-Keeps : (o : Option Question) (q obj : ℕ) → Keeps (fulfill_object o q obj)
unfolding fulfill_object
fulfill_object-Keeps none q obj c v = v
fulfill_object-Keeps (some o) q obj c v = elim (Bool-cases (is_in_progress o.state)) [
  | inl e ↦ rw e v
  | inr e ↦ rw e v
]

pub fulfill_question-Keeps : (q obj : ℕ) → Keeps (fulfill_question q obj)
unfolding fulfill_question
fulfill_question-Keeps q obj c v = fulfill_object-Keeps (get_elem? c.all_questions q) q obj c v

reject_object-Keeps : (o : Option Question) (q : ℕ) (e : Fault) → Keeps (reject_object o q e)
unfolding reject_object
reject_object-Keeps none q e c v = v
reject_object-Keeps (some o) q e c v = elim (Bool-cases (is_in_progress o.state)) [
  | inl p ↦ rw p v
  | inr p ↦ rw p v
]

pub reject_question-Keeps : (q : ℕ) (e : Fault) → Keeps (reject_question q e)
unfolding reject_question
reject_question-Keeps q e c v = reject_object-Keeps (get_elem? c.all_questions q) q e c v

reject_waiters-Keeps : (waiters : List ℕ) (e : Fault) → Keeps (reject_waiters waiters e)
unfolding reject_waiters
reject_waiters-Keeps [] e = λ c v. v
reject_waiters-Keeps (q ∷ waiters) e =
    bind-Keeps (reject_question q e) (λ _. reject_waiters waiters e) (reject_question-Keeps q e)
      (λ _. reject_waiters-Keeps waiters e)

fulfill_waiters-Keeps : (waiters : List ℕ) (obj : ℕ) → Keeps (fulfill_waiters waiters obj)
unfolding fulfill_waiters
fulfill_waiters-Keeps [] obj = λ c v. v
fulfill_waiters-Keeps (q ∷ waiters) obj =
    bind-Keeps (fulfill_question q obj) (λ _. fulfill_waiters waiters obj)
      (fulfill_question-Keeps q obj) (λ _. fulfill_waiters-Keeps waiters obj)

reject_found-Keeps : (id : ℕ) (e : Fault) (o : Option (List ℕ)) → Keeps (reject_found id e o)
unfolding reject_found
reject_found-Keeps id e none c v = v
reject_found-Keeps id e (some waiters) c v = reject_waiters-Keeps waiters e _ v

pub reject_tail-Keeps : (id : ℕ) (e : Fault) → Keeps (reject_tail_answer_waiters id e)
unfolding reject_tail_answer_waiters
reject_tail-Keeps id e c v = reject_found-Keeps id e (lookup id c.tail_answer_waiters) c v

fulfill_found-Keeps : (id obj : ℕ) (o : Option (List ℕ)) → Keeps (fulfill_found id obj o)
unfolding fulfill_found
fulfill_found-Keeps id obj none c v = v
fulfill_found-Keeps id obj (some waiters) c v = fulfill_waiters-Keeps waiters obj _ v

pub fulfill_tail-Keeps : (id obj : ℕ) → Keeps (fulfill_tail_answer_waiters id obj)
unfolding fulfill_tail_answer_waiters
fulfill_tail-Keeps id obj c v = fulfill_found-Keeps id obj (lookup id c.tail_answer_waiters) c v

-- The rejections below an answer, by what rejects an answer one level down.
module _ (reject : ℕ → Action (Unit {0})) (keeps : (a : ℕ) → Keeps (reject a)) where
  reject_queued-Keeps :
      (queue : List PipelinedCall) (first : Outcome (Unit {0}))
      → Keeps (reject_queued reject queue first)
  unfolding reject_queued
  reject_queued-Keeps [] first c v = v
  reject_queued-Keeps (pipelined_call call a t ∷ queue) first c v =
      reject_queued-Keeps queue _ _ (keeps a c v)

  reject_calls-Keeps : (queue : List PipelinedCall) (a : ℕ) → Keeps (reject_calls reject queue a)
  unfolding reject_calls clear_queue
  reject_calls-Keeps queue a c v = reject_queued-Keeps queue _ c v

  reject_undone-Keeps : (o : AnswerEntry) (a : ℕ) (e : Fault) → Keeps (reject_undone reject o a e)
  unfolding reject_undone
  reject_undone-Keeps o a e c v =
      bind-Keeps _ _
        (bind-Keeps _ _ (bind-Keeps _ _ (λ c v. v) (λ _. reject_tail-Keeps o.id e)) (λ _ c v. v))
        (λ _. reject_calls-Keeps o.queue a) c v

  reject_entry-Keeps :
      (o : Option AnswerEntry) (a : ℕ) (e : Fault) → Keeps (reject_entry reject o a e)
  unfolding reject_entry
  reject_entry-Keeps none a e c v = v
  reject_entry-Keeps (some o) a e c v = elim (Bool-cases o.done) [
    | inl p ↦ rw p v
    | inr p ↦ rw p (reject_undone-Keeps o a e c v)
  ]

reject_answer_in-Keeps : (depth a : ℕ) (e : Fault) → Keeps (reject_answer_in depth a e)
unfolding reject_answer_in
reject_answer_in-Keeps zero a e c v = v
reject_answer_in-Keeps (suc depth) a e c v =
    reject_entry-Keeps (λ b. reject_answer_in depth b e) (λ b. reject_answer_in-Keeps depth b e)
      (get_elem? c.all_answers a) a e c v

pub reject_answer-Keeps : (a : ℕ) (e : Fault) → Keeps (reject_answer a e)
unfolding reject_answer
reject_answer-Keeps a e c v = reject_answer_in-Keeps (suc (length c.all_answers)) a e c v

queue_in-Keeps :
    (call : MethodCall) (t : List ℕ) (target a : ℕ) (o : Option AnswerEntry)
    → Keeps (queue_in call t target a o)
unfolding queue_in
queue_in-Keeps call t target a none c v = v
queue_in-Keeps call t target a (some o) c v =
    elim (Bool-cases (ltb (length o.queue) call_queue_size)) [ inl p ↦ rw p v | inr p ↦ rw p v ]

pub queue_call-Keeps :
    (call : MethodCall) (t : List ℕ) (target a : ℕ) → Keeps (queue_call call t target a)
unfolding queue_call
queue_call-Keeps call t target a c v =
    queue_in-Keeps call t target a (get_elem? c.all_answers target) c v

pub client_from_resolution-Keeps :
    (client_at : ℕ → List ℕ → Outcome Client) (t : List ℕ) (obj : Option ℕ) (e : Option Fault)
    → Keeps (client_from_resolution client_at t obj e)
unfolding client_from_resolution
client_from_resolution-Keeps client_at t obj (some e) c v = v
client_from_resolution-Keeps client_at t none none c v = v
client_from_resolution-Keeps client_at t (some obj) none c v = v
