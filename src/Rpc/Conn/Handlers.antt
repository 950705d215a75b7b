-- ===== src/Rpc/Conn/Handlers.antt =====
-- The handlers of src/rpc/conn.ts for the messages `Bootstrap`, `Finish`, `Resolve` and
-- `Disembargo`.
use capnp_es.Prelude.{
  ℕ, ◌+◌, if◌then◌else◌, Bool, false, List, [], ◌∷◌, get_elem?, Option, none, some, lookup, insert,
  erase_key,
}
use capnp_es.Rpc.IdGen.{remove}
use capnp_es.Rpc.Conn.Wire.{
  Fault, remote, rpc_question_id_reused, rpc_no_main_interface, rpc_unimplemented, type_error,
  MessageTarget, imported_cap, CapDescriptor, exception_of, ResolveBody, cap, broken, broken_by,
  unknown_resolve, Context, sender_loopback, receiver_loopback, unknown_context, RpcMessage,
  unimplemented, return_message, resolve, disembargo_message, new_return,
}
use capnp_es.Rpc.Conn.State.{
  Client, import_client, error_client, Conn, AnswerEntry, Shared, ImportEntry, Outcome, done_with,
  Action, ◌>>=◌, ◌>>◌, pure, raise, catch, modify, non_protocol_error, send_message,
}
use capnp_es.Rpc.Conn.Questions.{}
use capnp_es.Rpc.Conn.Exports.{release_export}
use capnp_es.Rpc.Conn.Imports.{register_disembargo, set_resolved, activate_embargo, lift_embargo}
use capnp_es.Rpc.Conn.Answers.{insert_answer, pop_answer, reject_answer}
use capnp_es.Rpc.Conn.Caps.{
  client_from_cap_descriptor, discard_resolved_cap, cap_descriptor_needs_sender_loopback,
}
use capnp_es.Rpc.Conn.Fulfill.{World, fulfill_answer}

-- `Conn.sendReturnException`
abbrev pub send_return_exception : ℕ → Fault → Conn → Conn
send_return_exception id e = send_message (return_message (new_return id (exception_of e)))

unfoldable pub answer_bootstrap : World → Option Client → ℕ → Action (Unit {0})
unfolding reject_answer fulfill_answer
answer_bootstrap w none a = reject_answer a rpc_no_main_interface
answer_bootstrap w (some m) a = fulfill_answer w a (w.root_of m)

unfoldable pub bootstrap_inserted : World → ℕ → Option ℕ × Conn → Outcome (Unit {0}) × Conn
unfolding answer_bootstrap
bootstrap_inserted w id (none, c) =
    (done_with tt, send_return_exception id rpc_question_id_reused c)
bootstrap_inserted w id (some a, c) = answer_bootstrap w c.main a c

-- `Conn.handleBootstrapMessage`
unfoldable pub handle_bootstrap : World → ℕ → Action (Unit {0})
unfolding bootstrap_inserted insert_answer
handle_bootstrap w id c = bootstrap_inserted w id (insert_answer id c)

-- The loop from the last capability to the first.
unfoldable pub release_backwards : List ℕ → Action (Unit {0})
release_backwards [] = pure tt
release_backwards (id ∷ ids) = release_backwards ids >> release_export id 1

unfoldable pub finish_answer : Bool → Option AnswerEntry → Action (Unit {0})
unfolding release_backwards
finish_answer release_caps none c = (done_with tt, c)
finish_answer release_caps (some o) c =
    if release_caps then release_backwards o.result_caps c else (done_with tt, c)

unfoldable pub finish_popped : Bool → Option ℕ × Conn → Outcome (Unit {0}) × Conn
unfolding finish_answer
finish_popped release_caps (none, c) = (done_with tt, c)
finish_popped release_caps (some a, c) = finish_answer release_caps (get_elem? c.all_answers a) c

-- `Conn.handleFinishMessage`
unfoldable pub handle_finish : ℕ → Bool → Action (Unit {0})
unfolding finish_popped pop_answer
handle_finish id release_caps c = finish_popped release_caps (pop_answer id c)

-- `discardResolvedCap` of a resolution that comes too late.
unfoldable pub discard_late : RpcMessage → ResolveBody → Action (Unit {0})
unfolding discard_resolved_cap non_protocol_error
discard_late m (cap desc) =
    catch (discard_resolved_cap desc)
      (λ e. non_protocol_error e >> modify (send_message (unimplemented m)))
discard_late m (broken e) = pure tt
discard_late m (broken_by e) = pure tt
discard_late m unknown_resolve = pure tt

-- `setResolved(new ErrorClient(e))`
abbrev pub resolve_with_error : ℕ → Fault → Conn → Conn
resolve_with_error i e c =
    set_resolved i (error_client c.serial e) (record c { serial = c.serial + 1 })

-- `wasPromise` and the flag of the descriptor decide on an embargo; the message says which one.
unfoldable pub embargo_resolved : ℕ → ℕ → CapDescriptor → Conn → Conn
unfolding register_disembargo activate_embargo
embargo_resolved promise_id i desc c =
    let (id, c') = register_disembargo i c in
    if cap_descriptor_needs_sender_loopback desc
    then send_message (disembargo_message (imported_cap promise_id) (sender_loopback id))
        (activate_embargo i id c')
    else c

unfoldable pub resolve_import : RpcMessage → ℕ → ℕ → ResolveBody → Action (Unit {0})
unfolding client_from_cap_descriptor non_protocol_error embargo_resolved set_resolved
resolve_import m promise_id i (cap desc) =
    catch
      (client_from_cap_descriptor desc >>= λ client.
        modify (set_resolved i client) >> modify (embargo_resolved promise_id i desc))
      (λ e. non_protocol_error e >>= λ e.
        modify (send_message (unimplemented m)) >> modify (resolve_with_error i e))
resolve_import m promise_id i (broken e) = modify (resolve_with_error i (remote e))
resolve_import m promise_id i (broken_by e) = modify (resolve_with_error i e)
resolve_import m promise_id i unknown_resolve = modify (resolve_with_error i rpc_unimplemented)

-- `if (!(importClient instanceof ImportClient)) throw`
unfoldable pub import_client_of : Client → Action ℕ
import_client_of (import_client i) = pure i
import_client_of other = raise type_error

unfoldable pub import_of : Option Shared → Action ℕ
unfolding import_client_of
import_of none = raise type_error
import_of (some s) = import_client_of s.client

unfoldable pub resolve_known : RpcMessage → ℕ → ResolveBody → ImportEntry → ℕ → Action (Unit {0})
unfolding discard_late resolve_import
resolve_known m id body e i =
    if e.is_promise
    then modify (λ c. record c { imports = insert id (record e { is_promise = false }) c.imports })
      >> resolve_import m id i body
    else discard_late m body

unfoldable pub resolve_entry : RpcMessage → ℕ → ResolveBody → Option ImportEntry → Action (Unit {0})
unfolding discard_late import_of resolve_known
resolve_entry m id body none c = discard_late m body c
resolve_entry m id body (some e) c =
    (import_of (get_elem? c.all_counts e.rc) >>= resolve_known m id body e) c

-- `Conn.handleResolveMessage`
unfoldable pub handle_resolve : ℕ → ResolveBody → Action (Unit {0})
unfolding resolve_entry
handle_resolve id body c = resolve_entry (resolve id body) id body (lookup id c.imports) c

unfoldable pub lift_registered : ℕ → Option ℕ → Conn → Conn
unfolding lift_embargo
lift_registered id none c = c
lift_registered id (some i) c =
    (lift_embargo i id (record c {
      disembargoes = erase_key id c.disembargoes;
      disembargo_id = remove id c.disembargo_id;
    })).1

-- `Conn.handleDisembargoMessage`
unfoldable pub handle_disembargo : MessageTarget → Context → Conn → Conn
unfolding lift_registered
handle_disembargo target (sender_loopback id) c =
    send_message (disembargo_message target (receiver_loopback id)) c
handle_disembargo target (receiver_loopback id) c = lift_registered id (lookup id c.disembargoes) c
handle_disembargo target unknown_context c =
    send_message (unimplemented (disembargo_message target unknown_context)) c
