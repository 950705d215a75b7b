-- ===== src/Rpc/Conn/Questions.antt =====
-- The questions of a connection: the table in src/rpc/conn.ts, and src/rpc/question.ts. Where the
-- source holds a `Question` object, the model holds its index in `all_questions`.
use capnp_es.Prelude.{
  ℕ, ◌+◌, ◌==◌, if◌then◌else◌, Bool, true, false, ◌&&◌, List, [], ◌∷◌, ◌++◌, length, get_elem?, set,
  Option, none, some,
}
use capnp_es.Rpc.IdGen.{next, remove}
use capnp_es.Rpc.Slots.{find_slot, put_slot}
use capnp_es.Rpc.Conn.Wire.{
  Fault, rpc_fulfill_already_called, question_rejected_again, pipeline_closed, null_obj, finish,
}
use capnp_es.Rpc.Conn.State.{
  Client, error_client, close_client, Conn, Question, QuestionState, in_progress, settled,
  canceled_locally, pending, resolved_to, rejected_with, settle_promise, Outcome, throw, done_with,
  Action, emit, send_message,
}

abbrev pub new_question_object : ℕ → Option ℕ → Question
new_question_object id method = record {
  id = id;
  method = method;
  param_caps = [];
  state = in_progress;
  started = false;
  obj = none;
  err = none;
  derived = [];
  root_close_pending = false;
  promise = pending;
}

-- `Conn.newQuestion`
unfoldable pub new_question : Option ℕ → Conn → ℕ × Conn
new_question method c =
    let (id, g) = next c.question_id in
    let q = length c.all_questions in
    (
      q,
      record c {
        question_id = g;
        questions = put_slot id q c.questions;
        all_questions = c.all_questions ++ (new_question_object id method ∷ []);
      },
    )

abbrev pub find_question : ℕ → Conn → Option ℕ
find_question id c = find_slot c.questions id

-- The entry is nulled before its id is removed; an unknown id changes nothing.
unfoldable pub pop_found : ℕ → Option ℕ → Conn → Conn
pop_found id none c = c
pop_found id (some q) c = record c {
  questions = set c.questions id none;
  question_id = remove id c.question_id;
}

-- `Conn.popQuestion`
unfoldable pub pop_question : ℕ → Conn → Option ℕ × Conn
unfolding pop_found
pop_question id c = (find_question id c, pop_found id (find_question id c) c)

abbrev pub is_in_progress : QuestionState → Bool
is_in_progress in_progress = true
is_in_progress settled = false
is_in_progress canceled_locally = false

abbrev pub write_question : ℕ → Question → Conn → Conn
write_question q o c = record c { all_questions = set c.all_questions q o }

-- `Question.fulfill`; `getAs` views the same content as another struct.
unfoldable pub fulfill_object : Option Question → ℕ → ℕ → Action (Unit {0})
fulfill_object none q obj c = (done_with tt, c)
fulfill_object (some o) q obj c =
    if is_in_progress o.state
    then (
      done_with tt,
      write_question q
          (record o {
            obj = some obj;
            state = settled;
            promise = settle_promise (resolved_to obj) o.promise;
          })
          c,
    )
    else (throw rpc_fulfill_already_called, c)

unfoldable pub fulfill_question : ℕ → ℕ → Action (Unit {0})
unfolding fulfill_object
fulfill_question q obj c = fulfill_object (get_elem? c.all_questions q) q obj c

-- `Question.reject`, which is never called without an error.
unfoldable pub reject_object : Option Question → ℕ → Fault → Action (Unit {0})
reject_object none q e c = (done_with tt, c)
reject_object (some o) q e c =
    if is_in_progress o.state
    then (
      done_with tt,
      write_question q
          (record o {
            err = some e;
            state = settled;
            promise = settle_promise (rejected_with e) o.promise;
          })
          c,
    )
    else (throw question_rejected_again, c)

unfoldable pub reject_question : ℕ → Fault → Action (Unit {0})
unfolding reject_object
reject_question q e c = reject_object (get_elem? c.all_questions q) q e c

abbrev pub is_some {ℓ} : {A : Type ℓ} → Option A → Bool
is_some none = false
is_some (some a) = true

-- `Question.cancel`
unfoldable pub cancel_object : Option Question → ℕ → Fault → Conn → Bool × Conn
unfolding pop_question
cancel_object none q e c = (false, c)
cancel_object (some o) q e c =
    if is_in_progress o.state
    then (
      true,
      write_question q
          (record o {
            err = some e;
            state = canceled_locally;
            promise = settle_promise (rejected_with e) o.promise;
          })
          (if is_some (find_question o.id c)
            then (pop_question o.id (if o.started then send_message (finish o.id true) c else c)).1
            else c),
    )
    else (false, c)

unfoldable pub cancel : ℕ → Fault → Conn → Bool × Conn
unfolding cancel_object
cancel q e c = cancel_object (get_elem? c.all_questions q) q e c

-- `Question.closePendingRoot`
unfoldable pub close_root_of : Option Question → ℕ → Conn → Bool × Conn
unfolding pop_question
close_root_of none q c = (false, c)
close_root_of (some o) q c =
    if is_in_progress o.state
    then (
      true,
      write_question q
          (record o {
            root_close_pending = false;
            err = some pipeline_closed;
            state = canceled_locally;
            promise = settle_promise (rejected_with pipeline_closed) o.promise;
          })
          (if is_some (find_question o.id c)
            then (pop_question o.id (send_message (finish o.id true) c)).1
            else c),
    )
    else (false, c)

unfoldable pub close_pending_root : ℕ → Conn → Bool × Conn
unfolding close_root_of
close_pending_root q c = close_root_of (get_elem? c.all_questions q) q c

-- `transformsEqual`
abbrev pub transforms_equal : List ℕ → List ℕ → Bool
transforms_equal [] [] = true
transforms_equal [] (g ∷ u) = false
transforms_equal (f ∷ t) [] = false
transforms_equal (f ∷ t) (g ∷ u) = f == g && transforms_equal t u

abbrev pub has_transform : List ℕ → List (List ℕ) → Bool
has_transform t [] = false
has_transform t (d ∷ derived) = if transforms_equal t d then true else has_transform t derived

-- `Question.addPromise`
unfoldable pub add_promise : List ℕ → Question → Question
add_promise t o =
    if has_transform t o.derived then o else record o { derived = o.derived ++ (t ∷ []) }

-- `this.derived.filter((d) => !transformsEqual(transform, d))`
unfoldable pub without_transform : List ℕ → List (List ℕ) → List (List ℕ)
without_transform t [] = []
without_transform t (d ∷ derived) =
    let rest = without_transform t derived in if transforms_equal t d then rest else d ∷ rest

-- `clientFromResolution` of src/rpc/client.ts; `client_at` follows a transform in a content and
-- gives the client of the interface pointer there, or throws.
unfoldable pub client_from_resolution :
    (ℕ → List ℕ → Outcome Client) → List ℕ → Option ℕ → Option Fault → Action Client
client_from_resolution client_at t obj (some e) c =
    (done_with (error_client c.serial e), record c { serial = c.serial + 1 })
client_from_resolution client_at t none none c =
    (done_with (error_client c.serial null_obj), record c { serial = c.serial + 1 })
client_from_resolution client_at t (some obj) none c = (client_at obj t, c)

-- `try { client.close() } catch {}`, after what gives the client or throws.
unfoldable pub close_resolved : Outcome Client × Conn → Conn
close_resolved (throw e, c) = c
close_resolved (done_with client, c) = emit (close_client client) c

module _ (client_at : ℕ → List ℕ → Outcome Client) where
  -- `pipelineClose` of a derived pipeline
  unfoldable pub close_derived : Question → ℕ → List ℕ → Conn → Conn
  unfolding without_transform close_pending_root close_resolved client_from_resolution
  close_derived o q t c =
      let o' = record o { derived = without_transform t o.derived } in
      let c' = write_question q o' c in
      if is_in_progress o.state
      then (if o.root_close_pending && (length o'.derived == 0)
          then (close_pending_root q c').1
          else c')
      else close_resolved (client_from_resolution client_at t o.obj o.err c')

  -- `pipelineClose` of the root
  unfoldable pub close_root : Question → ℕ → Conn → Conn
  unfolding close_pending_root close_resolved client_from_resolution
  close_root o q c =
      if length o.derived == 0
      then (if is_in_progress o.state
          then (close_pending_root q c).1
          else close_resolved (client_from_resolution client_at [] o.obj o.err c))
      else write_question q (record o { root_close_pending = true }) c

  -- `Question.pipelineClose`
  unfoldable pub pipeline_close : Option Question → ℕ → List ℕ → Conn → Conn
  unfolding close_derived close_root
  pipeline_close none q t c = c
  pipeline_close (some o) q [] c = close_root o q c
  pipeline_close (some o) q (f ∷ t) c = close_derived o q (f ∷ t) c
