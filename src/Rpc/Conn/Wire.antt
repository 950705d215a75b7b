-- ===== src/Rpc/Conn/Wire.antt =====
-- src/capnp/rpc.ts as src/rpc/conn.ts reads and writes it: the messages, with the texts of errors
-- and the content of payloads named by numbers, and the errors that the connection throws.
use capnp_es.Prelude.{ℕ, Bool, true, false, List, [], ◌∷◌}
use capnp_es.Errors.{Error}

-- `RpcProtocolErrorKind`
pub data Kind : Type 0 where
  bad_target question_id_reused return_for_unknown_question : Kind
  unknown_answer_id unknown_cap_descriptor unknown_export_id : Kind

-- The errors. A `protocol` one is an `RpcProtocolError`, `remote` and `method_error` wrap an
-- exception of the peer, and the others are `Error`s, one constructor for each message.
pub data Fault : Type 0 where
  protocol : Kind → Fault
  remote : ℕ → Fault
  method_error : ℕ → ℕ → Fault
  -- the same of an exception that was made of an error
  remote_of : Fault → Fault
  method_error_of : ℕ → Fault → Fault
  library : Error → Fault
  rpc_bad_target rpc_question_id_reused rpc_no_main_interface rpc_unimplemented : Fault
  rpc_import_closed rpc_fulfill_already_called : Fault
  null_obj connection_closed pipeline_closed canceled_by_remote : Fault
  question_popped question_rejected_again answer_fulfilled_again answer_rejected_again : Fault
  -- the platform's, of a call on null
  type_error : Fault
  -- not of the source: the bound on following settled pipelines is reached
  out_of_hops : Fault

-- `PromisedAnswer_Op`
pub data Op : Type 0 where
  noop : Op
  get_pointer_field : ℕ → Op
  unknown_op : Op

-- `promisedAnswerOpsToTransform`: a transform is the list of the fields it follows.
unfoldable pub promised_answer_ops_to_transform : List Op → List ℕ
promised_answer_ops_to_transform [] = []
promised_answer_ops_to_transform (get_pointer_field f ∷ ops) =
    f ∷ promised_answer_ops_to_transform ops
promised_answer_ops_to_transform (noop ∷ ops) = promised_answer_ops_to_transform ops
promised_answer_ops_to_transform (unknown_op ∷ ops) = promised_answer_ops_to_transform ops

-- `transformToPromisedAnswer`
unfoldable pub transform_to_promised_answer : List ℕ → List Op
transform_to_promised_answer [] = []
transform_to_promised_answer (f ∷ transform) =
    get_pointer_field f ∷ transform_to_promised_answer transform

pub data MessageTarget : Type 0 where
  imported_cap : ℕ → MessageTarget
  promised_answer : ℕ → List Op → MessageTarget
  unknown_target : MessageTarget

pub data CapDescriptor : Type 0 where
  no_cap : CapDescriptor
  sender_hosted sender_promise receiver_hosted : ℕ → CapDescriptor
  receiver_answer : ℕ → List Op → CapDescriptor
  unknown_descriptor : CapDescriptor

pub record Payload : Type 0 where
  pub content : ℕ
  pub cap_table : List CapDescriptor

-- `Call_SendResultsTo_Which`
pub data SendResultsTo : Type 0 where
  caller yourself unknown_receiver : SendResultsTo

pub data ReturnBody : Type 0 where
  results : Payload → ReturnBody
  exception : ℕ → ReturnBody
  -- an exception that this side fills in from an error
  exception_of : Fault → ReturnBody
  canceled results_sent_elsewhere : ReturnBody
  take_from_other_question : ℕ → ReturnBody
  unknown_return : ReturnBody

pub record Return : Type 0 where
  pub answer_id : ℕ
  pub release_param_caps : Bool
  pub no_finish_needed : Bool
  pub body : ReturnBody

pub record CallMessage : Type 0 where
  pub question_id : ℕ
  pub target : MessageTarget
  pub interface_id : ℕ
  pub method_id : ℕ
  pub send_results_to : SendResultsTo
  pub params : Payload

pub data ResolveBody : Type 0 where
  cap : CapDescriptor → ResolveBody
  broken : ℕ → ResolveBody
  broken_by : Fault → ResolveBody
  unknown_resolve : ResolveBody

-- `Disembargo_Context_Which`
pub data Context : Type 0 where
  sender_loopback receiver_loopback : ℕ → Context
  unknown_context : Context

-- `Message_Which`; `unsupported` stands for the obsolete messages and those of level 3 and above.
pub data RpcMessage : Type 0 where
  unimplemented : RpcMessage → RpcMessage
  abort : Fault → RpcMessage
  bootstrap : ℕ → RpcMessage
  call_message : CallMessage → RpcMessage
  return_message : Return → RpcMessage
  finish : ℕ → Bool → RpcMessage
  resolve : ℕ → ResolveBody → RpcMessage
  release : ℕ → ℕ → RpcMessage
  disembargo_message : MessageTarget → Context → RpcMessage
  unsupported : ℕ → RpcMessage
  unknown_message : RpcMessage

-- `newReturnMessage`: the schema's defaults are `releaseParamCaps` set and `noFinishNeeded` unset.
abbrev pub new_return : ℕ → ReturnBody → Return
new_return id body = record {
  answer_id = id;
  release_param_caps = true;
  no_finish_needed = false;
  body = body;
}
