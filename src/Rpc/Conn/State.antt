-- ===== src/Rpc/Conn/State.antt =====
-- The state of a connection (src/rpc/conn.ts) and of the objects that share it. An object is named
-- by its index in the list of its kind, which only grows, so that a table entry can be removed
-- while others still hold the object. What the connection does to others is logged.
use capnp_es.Prelude.{ℕ, if◌then◌else◌, Bool, true, false, List, [], ◌∷◌, Option, none, Dict}
use capnp_es.Rpc.IdGen.{IdGen, new_id_gen}
use capnp_es.Rpc.RefCount.{RefCount}
use capnp_es.Rpc.CallQueue.{CallQueue, Effect}
use capnp_es.Rpc.Conn.Wire.{Fault, RpcMessage}

-- A client. `server` is one of a class with no `normalize`, told apart by its number. A `Ref` is
-- given by its counter and its close state. Two clients made by two `new`s differ in their number.
pub data Client : Type 0 where
  server : ℕ → Client
  import_client : ℕ → Client
  ref_client : ℕ → ℕ → Client
  answer_client : ℕ → ℕ → List ℕ → Client
  error_client : ℕ → Fault → Client
  -- of a question of this connection
  pipeline_client : ℕ → ℕ → List ℕ → Client

-- A call with its method and its parameters.
pub data MethodCall : Type 0 where
  method_call : ℕ → ℕ → MethodCall

pub data Event : Type 0 where
  send : RpcMessage → Event
  -- `console.error`
  warn : Event
  -- `client.close()`
  close_client : Client → Event
  -- `joinAnswer(answer, client.call(call))`, of an answer entry
  join_call : ℕ → Client → MethodCall → Event
  -- what a queue of held calls does
  queue_effect : Effect → Event
  close_transport : Event

-- A promise; settling it again has no effect.
pub data Promise : Type 0 where
  pending : Promise
  resolved_to : ℕ → Promise
  rejected_with : Fault → Promise

unfoldable pub settle_promise : Promise → Promise → Promise
settle_promise outcome pending = outcome
settle_promise outcome (resolved_to v) = resolved_to v
settle_promise outcome (rejected_with e) = rejected_with e

pub data QuestionState : Type 0 where
  in_progress settled canceled_locally : QuestionState

pub record Question : Type 0 where
  pub id : ℕ
  pub method : Option ℕ
  pub param_caps : List ℕ
  pub state : QuestionState
  pub started : Bool
  pub obj : Option ℕ
  pub err : Option Fault
  pub derived : List (List ℕ)
  pub root_close_pending : Bool
  pub promise : Promise

-- `AnswerPCall` with a remote call: the call, the answer it is for, and the transform.
pub data PipelinedCall : Type 0 where
  pipelined_call : MethodCall → ℕ → List ℕ → PipelinedCall

pub record AnswerEntry : Type 0 where
  pub id : ℕ
  pub result_caps : List ℕ
  pub send_results_elsewhere : Bool
  pub done : Bool
  pub obj : Option ℕ
  pub err : Option Fault
  pub promise : Promise
  pub queue : List PipelinedCall

-- A `RefCount` and its client.
pub record Shared : Type 0 where
  pub client : Client
  pub count : RefCount

-- `client` of the source is the reference `ref` of the counter `rc`.
pub record Export : Type 0 where
  pub id : ℕ
  pub rc : ℕ
  pub ref : ℕ
  pub wire_refs : ℕ

pub record ImportEntry : Type 0 where
  pub rc : ℕ
  pub refs : ℕ
  pub is_promise : Bool

pub record ImportClient : Type 0 where
  pub id : ℕ
  pub closed : Bool
  pub resolved : Option Client
  pub embargo_id : Option ℕ
  pub embargo_queue : CallQueue

pub record Conn : Type 0 where
  pub question_id : IdGen
  pub questions : List (Option ℕ)
  pub answers : Dict ℕ
  pub export_id : IdGen
  pub exports : List (Option Export)
  pub imports : Dict ImportEntry
  pub disembargo_id : IdGen
  pub disembargoes : Dict ℕ
  pub tail_answer_waiters : Dict (List ℕ)
  pub main : Option Client
  pub working : Bool
  pub closed : Bool
  -- the objects
  pub all_questions : List Question
  pub all_answers : List AnswerEntry
  pub all_counts : List Shared
  pub all_imports : List ImportClient
  -- the number of the next client that is made
  pub serial : ℕ
  -- what the `close` of a client throws, if it throws: code outside of the connection, which may
  -- depend on all that was done before
  pub close_fails : Client → List Event → Option Fault
  -- what was done to others, the last first
  pub log : List Event

unfoldable pub new_conn : Conn
new_conn = record {
  question_id = new_id_gen;
  questions = [];
  answers = [];
  export_id = new_id_gen;
  exports = [];
  imports = [];
  disembargo_id = new_id_gen;
  disembargoes = [];
  tail_answer_waiters = [];
  main = none;
  working = true;
  closed = false;
  all_questions = [];
  all_answers = [];
  all_counts = [];
  all_imports = [];
  serial = 0;
  close_fails = λ client log. none;
  log = [];
}

-- What code that may throw gives; the state comes back in either case.
pub data Outcome (A : Type 0) : Type 0 where
  throw : Fault → Outcome A
  done_with : A → Outcome A

abbrev pub Action : Type 0 → Type 0
Action A = Conn → Outcome A × Conn

module _ {A : Type 0} where
  abbrev pub pure : A → Action A
  pure a c = (done_with a, c)

  abbrev pub raise : Fault → Action A
  raise e c = (throw e, c)

infixl 5 ◌>>=◌ ◌>>◌
unfoldable pub ◌>>=◌ : {A B : Type 0} → Action A → (A → Action B) → Action B
◌>>=◌ m f c = let (r, c') = m c in elim r [ throw e ↦ raise e c' | done_with a ↦ f a c' ]

abbrev pub ◌>>◌ : {A B : Type 0} → Action A → Action B → Action B
m >> k = m >>= λ _. k

-- `try { m } catch (error) { handler }`
unfoldable pub catch : {A : Type 0} → Action A → (Fault → Action A) → Action A
catch m handler c = let (r, c') = m c in elim r [ throw e ↦ handler e c' | done_with a ↦ pure a c' ]

abbrev pub modify : (Conn → Conn) → Action (Unit {0})
modify f c = (done_with tt, f c)

-- `error instanceof RpcProtocolError`
abbrev pub is_protocol : Fault → Bool
is_protocol (Fault.protocol kind) = true
is_protocol other = false

-- `nonProtocolError`: an `RpcProtocolError` is thrown on.
unfoldable pub non_protocol_error : Fault → Action Fault
non_protocol_error e c = (if is_protocol e then throw e else done_with e, c)

abbrev pub emit : Event → Conn → Conn
emit e c = record c { log = e ∷ c.log }

-- `Conn.sendMessage`; the transport does not throw.
abbrev pub send_message : RpcMessage → Conn → Conn
send_message m c = emit (send m) c
