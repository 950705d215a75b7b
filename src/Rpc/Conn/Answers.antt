-- ===== src/Rpc/Conn/Answers.antt =====
-- The answers of a connection: the table in src/rpc/conn.ts, the questions that wait for an answer
-- of this side, and `AnswerEntry` of src/rpc/answer.ts but for `fulfill`. Where the source holds
-- an entry, the model holds its index in `all_answers`.
pub mod Depth
use capnp_es.Prelude.{
  ℕ, zero, suc, ltb, if◌then◌else◌, true, false, List, [], ◌∷◌, ◌++◌, length, get_elem?, set,
  update_at, Option, none, some, lookup, insert, erase_key,
}
use capnp_es.Errors.{rpc_call_queue_full}
use capnp_es.Rpc.CallQueue.{call_queue_size}
use capnp_es.Rpc.Conn.Wire.{
  Fault, answer_rejected_again, library, exception_of, Return, new_return, return_message,
}
use capnp_es.Rpc.Conn.State.{
  Conn, AnswerEntry, MethodCall, PipelinedCall, pipelined_call, pending, rejected_with,
  settle_promise, Outcome, throw, done_with, Action, ◌>>◌, pure, modify, send_message,
}
use capnp_es.Rpc.Conn.Questions.{fulfill_question, reject_question}

abbrev pub new_answer_object : ℕ → AnswerEntry
new_answer_object id = record {
  id = id;
  result_caps = [];
  send_results_elsewhere = false;
  done = false;
  obj = none;
  err = none;
  promise = pending;
  queue = [];
}

unfoldable pub insert_found : ℕ → Option ℕ → Conn → Option ℕ × Conn
insert_found id (some a) c = (none, c)
insert_found id none c =
    let a = length c.all_answers in
    (
      some a,
      record c {
        answers = insert id a c.answers;
        all_answers = c.all_answers ++ (new_answer_object id ∷ []);
      },
    )

-- `Conn.insertAnswer`
unfoldable pub insert_answer : ℕ → Conn → Option ℕ × Conn
unfolding insert_found
insert_answer id c = insert_found id (lookup id c.answers) c

-- `Conn.popAnswer`
unfoldable pub pop_answer : ℕ → Conn → Option ℕ × Conn
pop_answer id c = (lookup id c.answers, record c { answers = erase_key id c.answers })

abbrev pub write_answer : ℕ → AnswerEntry → Conn → Conn
write_answer a o c = record c { all_answers = set c.all_answers a o }

-- The loops over the waiters; a question that throws ends them.
unfoldable pub reject_waiters : List ℕ → Fault → Action (Unit {0})
reject_waiters [] e = pure tt
reject_waiters (q ∷ waiters) e = reject_question q e >> reject_waiters waiters e

unfoldable pub fulfill_waiters : List ℕ → ℕ → Action (Unit {0})
fulfill_waiters [] obj = pure tt
fulfill_waiters (q ∷ waiters) obj = fulfill_question q obj >> fulfill_waiters waiters obj

unfoldable pub reject_found : ℕ → Fault → Option (List ℕ) → Action (Unit {0})
unfolding reject_waiters
reject_found id e none c = (done_with tt, c)
reject_found id e (some waiters) c =
    reject_waiters waiters e (record c { tail_answer_waiters = erase_key id c.tail_answer_waiters })

-- `Conn.rejectTailAnswerWaiters`
unfoldable pub reject_tail_answer_waiters : ℕ → Fault → Action (Unit {0})
unfolding reject_found
reject_tail_answer_waiters id e c = reject_found id e (lookup id c.tail_answer_waiters) c

unfoldable pub fulfill_found : ℕ → ℕ → Option (List ℕ) → Action (Unit {0})
unfolding fulfill_waiters
fulfill_found id obj none c = (done_with tt, c)
fulfill_found id obj (some waiters) c =
    fulfill_waiters waiters obj
      (record c { tail_answer_waiters = erase_key id c.tail_answer_waiters })

-- `Conn.fulfillTailAnswerWaiters`
unfoldable pub fulfill_tail_answer_waiters : ℕ → ℕ → Action (Unit {0})
unfolding fulfill_found
fulfill_tail_answer_waiters id obj c = fulfill_found id obj (lookup id c.tail_answer_waiters) c

-- The message of `newReturnMessage` with `releaseParamCaps` unset and the exception set.
abbrev pub rejecting_return : ℕ → Fault → Return
rejecting_return id e = record (new_return id (exception_of e)) { release_param_caps = false }

-- `if (!firstErr) firstErr = error`
abbrev pub first_error : Outcome (Unit {0}) → Outcome (Unit {0}) → Outcome (Unit {0})
first_error (throw e) r = throw e
first_error (done_with _) r = r

-- The loop of `reject` over the calls that waited; the first error is kept, and thrown at the end.
unfoldable pub reject_queued :
    (ℕ → Action (Unit {0})) → List PipelinedCall → Outcome (Unit {0}) → Action (Unit {0})
reject_queued reject [] first c = (first, c)
reject_queued reject (pipelined_call call a t ∷ queue) first c =
    let (r, c') = reject a c in reject_queued reject queue (first_error first r) c'

-- `this.queue = []`
unfoldable pub clear_queue : ℕ → Conn → Conn
clear_queue a c = record c {
  all_answers = update_at c.all_answers a (λ (o : AnswerEntry). record o { queue = [] });
}

-- The end of `reject`, after the message.
unfoldable pub reject_calls : (ℕ → Action (Unit {0})) → List PipelinedCall → ℕ → Action (Unit {0})
unfolding reject_queued clear_queue
reject_calls reject queue a c =
    let (r, c') = reject_queued reject queue (done_with tt) c in (r, clear_queue a c')

-- What `reject` does from `this.err = err` on. The waiters of the answer may throw.
unfoldable pub reject_undone : (ℕ → Action (Unit {0})) → AnswerEntry → ℕ → Fault → Action (Unit {0})
unfolding reject_calls reject_tail_answer_waiters
reject_undone reject o a e =
    let o' = record o {
      err = some e;
      done = true;
      promise = settle_promise (rejected_with e) o.promise;
    } in
    modify (write_answer a o')
    >> reject_tail_answer_waiters o.id e
    >> modify (send_message (return_message (rejecting_return o.id e)))
    >> reject_calls reject o.queue a

unfoldable pub reject_entry :
    (ℕ → Action (Unit {0})) → Option AnswerEntry → ℕ → Fault → Action (Unit {0})
unfolding reject_undone
reject_entry reject none a e c = (done_with tt, c)
reject_entry reject (some o) a e c =
    if o.done then (throw answer_rejected_again, c) else reject_undone reject o a e c

-- `AnswerEntry.reject`. An entry is done before it rejects the calls that wait on it, so that the
-- depth is at most the number of the entries (Answers/Depth.antt).
unfoldable pub reject_answer_in : ℕ → ℕ → Fault → Action (Unit {0})
unfolding reject_entry
reject_answer_in zero a e c = (throw answer_rejected_again, c)
reject_answer_in (suc depth) a e c =
    reject_entry (λ b. reject_answer_in depth b e) (get_elem? c.all_answers a) a e c

unfoldable pub reject_answer : ℕ → Fault → Action (Unit {0})
unfolding reject_answer_in
reject_answer a e c = reject_answer_in (suc (length c.all_answers)) a e c

unfoldable pub queue_in : MethodCall → List ℕ → ℕ → ℕ → Option AnswerEntry → Action (Unit {0})
queue_in call t target a none c = (done_with tt, c)
queue_in call t target a (some o) c =
    if ltb (length o.queue) call_queue_size
    then (
      done_with tt,
      write_answer target (record o { queue = o.queue ++ (pipelined_call call a t ∷ []) }) c,
    )
    else (throw (library rpc_call_queue_full), c)

-- `AnswerEntry.queueCall`; `copyCall` places the parameters, which happens before.
unfoldable pub queue_call : MethodCall → List ℕ → ℕ → ℕ → Action (Unit {0})
unfolding queue_in
queue_call call t target a c = queue_in call t target a (get_elem? c.all_answers target) c
