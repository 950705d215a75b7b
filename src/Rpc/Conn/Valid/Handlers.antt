-- ===== src/Rpc/Conn/Valid/Handlers.antt =====
-- The invariant of the tables through the handlers of src/rpc/conn.ts and `AnswerEntry.fulfill` of
-- src/rpc/answer.ts.
use capnp_es.Prelude.{
  ℕ, ◌+◌, Bool, true, false, List, [], ◌∷◌, get_elem?, Option, none, some, inl, inr, Bool-cases,
  Dict, lookup, erase_key,
}
use capnp_es.Errors.{rpc_null_client}
use capnp_es.Rpc.IdGen.{remove}
use capnp_es.Rpc.Conn.Wire.{
  Fault, library, CapDescriptor, MessageTarget, ResolveBody, cap, broken, broken_by,
  unknown_resolve, Context, sender_loopback, receiver_loopback, unknown_context, RpcMessage,
  resolve, remote, rpc_unimplemented, rpc_no_main_interface,
}
use capnp_es.Rpc.Conn.State.{
  Client, server, import_client, ref_client, answer_client, error_client, pipeline_client,
  PipelinedCall, pipelined_call, Conn, AnswerEntry, Shared, ImportEntry, Outcome, throw, done_with,
  non_protocol_error,
}
use capnp_es.Rpc.Conn.Questions.{}
use capnp_es.Rpc.Conn.Imports.{register_disembargo, activate_embargo, set_resolved, lift_embargo}
use capnp_es.Rpc.Conn.Answers.{insert_found, insert_answer, pop_answer}
use capnp_es.Rpc.Conn.Caps.{cap_descriptor_needs_sender_loopback}
use capnp_es.Rpc.Conn.Fulfill.{
  World, Held, target_of, empty_calls, empty_entry, flush_held, flush_queues, return_results,
  return_elsewhere, flush_entry, fulfill_undone, fulfill_entry, fulfill_answer, join_answer,
  cap_at_index,
}
use capnp_es.Rpc.Conn.Handlers.{
  answer_bootstrap, bootstrap_inserted, handle_bootstrap, release_backwards, finish_answer,
  finish_popped, handle_finish, discard_late, embargo_resolved, resolve_import, import_client_of,
  import_of, resolve_known, resolve_entry, handle_resolve, lift_registered, handle_disembargo,
  resolve_with_error,
}
use capnp_es.Rpc.Conn.Valid.{
  Valid, Keeps, bind-Keeps, catch-Keeps, Same-Valid, release_export-Valid,
}
use capnp_es.Rpc.Conn.Valid.Parts.{fulfill_tail-Keeps, reject_answer-Keeps}
use capnp_es.Rpc.Conn.Valid.Caps.{client_from-Keeps, discard-Keeps, make_cap_table-Keeps}
use capnp_es.Rpc.Conn.Valid.Imports.{
  set_resolved-SameTables, activate_embargo-SameTables, lift_embargo-SameTables,
}

pub non_protocol-Keeps : (e : Fault) → Keeps (non_protocol_error e)
unfolding non_protocol_error
non_protocol-Keeps e c v = v

target_of-Keeps : (a : ℕ) (r : Outcome (Option ℕ)) → Keeps (target_of a r)
unfolding target_of
target_of-Keeps a (throw e) = bind-Keeps _ _ (reject_answer-Keeps a e) (λ _ c v. v)
target_of-Keeps a (done_with none) =
    bind-Keeps _ _ (reject_answer-Keeps a (library rpc_null_client)) (λ _ c v. v)
target_of-Keeps a (done_with (some k)) = λ c v. v

empty_calls-Valid :
    (cap_at : List ℕ → Outcome (Option ℕ)) (queue : List PipelinedCall) (first : Outcome (Unit {0}))
    (qs : Dict Held) (c : Conn)
    → Valid c
    → Valid (empty_calls cap_at queue first qs c).1
unfolding empty_calls
empty_calls-Valid cap_at [] first qs c v = v
empty_calls-Valid cap_at (pipelined_call call a t ∷ queue) first qs c v =
    empty_calls-Valid cap_at queue _ _ _ (target_of-Keeps a (cap_at t) c v)

empty_entry-Valid :
    (w : World) (a obj : ℕ) (o : Option AnswerEntry) (c : Conn)
    → Valid c
    → Valid (empty_entry w a obj o c).1
unfolding empty_entry
empty_entry-Valid w a obj none c v = v
empty_entry-Valid w a obj (some o) c v =
    empty_calls-Valid (w.cap_at obj) o.queue (done_with tt) [] c v

flush_held-Keeps : (k : Option Client) (held : Held) → Keeps (flush_held k held)
unfolding flush_held
flush_held-Keeps k [] c v = v
flush_held-Keeps none (call ∷ held) c v = v
flush_held-Keeps (some k) ((call, a) ∷ held) c v = flush_held-Keeps (some k) held _ v

flush_queues-Keeps : (caps : List (Option Client)) (qs : Dict Held) → Keeps (flush_queues caps qs)
unfolding flush_queues
flush_queues-Keeps caps [] = λ c v. v
flush_queues-Keeps caps ((k, held) ∷ qs) =
    bind-Keeps _ _ (flush_held-Keeps (cap_at_index caps k) held) (λ _. flush_queues-Keeps caps qs)

return_results-Keeps :
    (w : World) (o : AnswerEntry) (a obj : ℕ) (table : List CapDescriptor)
    → Keeps (return_results w o a obj table)
unfolding return_results
return_results-Keeps w o a obj table =
    bind-Keeps _ _ (bind-Keeps _ _ (λ c v. v) (λ _. fulfill_tail-Keeps o.id obj)) (λ _ c v. v)

return_elsewhere-Keeps : (o : AnswerEntry) (a obj : ℕ) → Keeps (return_elsewhere o a obj)
unfolding return_elsewhere
return_elsewhere-Keeps o a obj =
    bind-Keeps _ _ (bind-Keeps _ _ (λ c v. v) (λ _. fulfill_tail-Keeps o.id obj)) (λ _ c v. v)

flush_entry-Valid :
    (w : World) (a obj : ℕ) (r : Outcome (Unit {0}) × Conn)
    → Valid r.1
    → Valid (flush_entry w a obj r).1
unfolding flush_entry
flush_entry-Valid w a obj (first, c) v =
    bind-Keeps _ _ (flush_queues-Keeps (w.caps_of obj) _) (λ _ c v. v) _
      (empty_entry-Valid w a obj (get_elem? c.all_answers a) c v)

fulfill_undone-Keeps : (w : World) (o : AnswerEntry) (a obj : ℕ) → Keeps (fulfill_undone w o a obj)
unfolding fulfill_undone
fulfill_undone-Keeps w o a obj c v = elim (Bool-cases o.send_results_elsewhere) [
  | inl p ↦ rw p (return_elsewhere-Keeps o a obj c v)
  | inr p ↦ rw p (
      flush_entry-Valid w a obj _ (
        bind-Keeps _ _ (make_cap_table-Keeps w.client_at w.hops (w.caps_of obj))
          (return_results-Keeps w o a obj) c v))
]

fulfill_entry-Keeps :
    (w : World) (o : Option AnswerEntry) (a obj : ℕ) → Keeps (fulfill_entry w o a obj)
unfolding fulfill_entry
fulfill_entry-Keeps w none a obj c v = v
fulfill_entry-Keeps w (some o) a obj c v = elim (Bool-cases o.done) [
  | inl p ↦ rw p v
  | inr p ↦ rw p (fulfill_undone-Keeps w o a obj _ v)
]

pub fulfill_answer-Keeps : (w : World) (a obj : ℕ) → Keeps (fulfill_answer w a obj)
unfolding fulfill_answer
fulfill_answer-Keeps w a obj c v = fulfill_entry-Keeps w (get_elem? c.all_answers a) a obj c v

pub join_answer-Valid :
    (w : World) (a : ℕ) (r : Outcome ℕ) (c : Conn) → Valid c → Valid (join_answer w a r c)
unfolding join_answer
join_answer-Valid w a (done_with obj) c v = fulfill_answer-Keeps w a obj c v
join_answer-Valid w a (throw e) c v = reject_answer-Keeps a e c v

insert_found-Valid : (id : ℕ) (o : Option ℕ) (c : Conn) → Valid c → Valid (insert_found id o c).1
unfolding insert_found
insert_found-Valid id none c v = v
insert_found-Valid id (some a) c v = v

pub insert_answer-Valid : (id : ℕ) (c : Conn) → Valid c → Valid (insert_answer id c).1
unfolding insert_answer
insert_answer-Valid id c v = insert_found-Valid id (lookup id c.answers) c v

answer_bootstrap-Keeps : (w : World) (m : Option Client) (a : ℕ) → Keeps (answer_bootstrap w m a)
unfolding answer_bootstrap
answer_bootstrap-Keeps w none a = reject_answer-Keeps a rpc_no_main_interface
answer_bootstrap-Keeps w (some m) a = fulfill_answer-Keeps w a (w.root_of m)

bootstrap_inserted-Valid :
    (w : World) (id : ℕ) (r : Option ℕ × Conn) → Valid r.1 → Valid (bootstrap_inserted w id r).1
unfolding bootstrap_inserted
bootstrap_inserted-Valid w id (none, c) v = v
bootstrap_inserted-Valid w id (some a, c) v = answer_bootstrap-Keeps w c.main a c v

pub handle_bootstrap-Keeps : (w : World) (id : ℕ) → Keeps (handle_bootstrap w id)
unfolding handle_bootstrap
handle_bootstrap-Keeps w id c v =
    bootstrap_inserted-Valid w id (insert_answer id c) (insert_answer-Valid id c v)

release_backwards-Keeps : (ids : List ℕ) → Keeps (release_backwards ids)
unfolding release_backwards
release_backwards-Keeps [] = λ c v. v
release_backwards-Keeps (id ∷ ids) =
    bind-Keeps _ _ (release_backwards-Keeps ids) (λ _. release_export-Valid id 1)

finish_answer-Keeps : (b : Bool) (o : Option AnswerEntry) → Keeps (finish_answer b o)
unfolding finish_answer
finish_answer-Keeps b none c v = v
finish_answer-Keeps true (some o) c v = release_backwards-Keeps o.result_caps c v
finish_answer-Keeps false (some o) c v = v

finish_popped-Valid : (b : Bool) (r : Option ℕ × Conn) → Valid r.1 → Valid (finish_popped b r).1
unfolding finish_popped
finish_popped-Valid b (none, c) v = v
finish_popped-Valid b (some a, c) v = finish_answer-Keeps b (get_elem? c.all_answers a) c v

pub handle_finish-Keeps : (id : ℕ) (b : Bool) → Keeps (handle_finish id b)
unfolding handle_finish pop_answer
handle_finish-Keeps id b c v = finish_popped-Valid b (pop_answer id c) v

discard_late-Keeps : (m : RpcMessage) (body : ResolveBody) → Keeps (discard_late m body)
unfolding discard_late
discard_late-Keeps m (cap desc) =
    catch-Keeps _ _ (discard-Keeps desc) (λ e. bind-Keeps _ _ (non_protocol-Keeps e) (λ _ c v. v))
discard_late-Keeps m (broken e) = λ c v. v
discard_late-Keeps m (broken_by e) = λ c v. v
discard_late-Keeps m unknown_resolve = λ c v. v

resolve_with_error-Valid :
    (i : ℕ) (e : Fault) (c : Conn) → Valid c → Valid (resolve_with_error i e c)
resolve_with_error-Valid i e c v =
    let d : Conn = record c { serial = c.serial + 1 } in
    let k = error_client c.serial e in
    Same-Valid d (set_resolved i k d) (set_resolved-SameTables i k d) v

embargo_resolved-Valid :
    (id i : ℕ) (desc : CapDescriptor) (c : Conn) → Valid c → Valid (embargo_resolved id i desc c)
unfolding embargo_resolved register_disembargo
embargo_resolved-Valid id i desc c v =
    elim (Bool-cases (cap_descriptor_needs_sender_loopback desc)) [
      | inl p ↦ rw p (
          let r = register_disembargo i c in
          Same-Valid r.1 (activate_embargo i r.0 r.1) (activate_embargo-SameTables i r.0 r.1) v)
      | inr p ↦ rw p v
    ]

resolve_import-Keeps :
    (m : RpcMessage) (id i : ℕ) (body : ResolveBody) → Keeps (resolve_import m id i body)
unfolding resolve_import
resolve_import-Keeps m id i (cap desc) =
    catch-Keeps _ _
      (bind-Keeps _ _ (client_from-Keeps desc) (λ k.
        bind-Keeps _ _ (λ c v. Same-Valid c (set_resolved i k c) (set_resolved-SameTables i k c) v)
          (λ _. embargo_resolved-Valid id i desc)))
      (λ e.
        bind-Keeps _ _ (non_protocol-Keeps e)
          (λ e. bind-Keeps _ _ (λ c v. v) (λ _. resolve_with_error-Valid i e)))
resolve_import-Keeps m id i (broken e) = resolve_with_error-Valid i (remote e)
resolve_import-Keeps m id i (broken_by e) = resolve_with_error-Valid i e
resolve_import-Keeps m id i unknown_resolve = resolve_with_error-Valid i rpc_unimplemented

import_client_of-Keeps : (k : Client) → Keeps (import_client_of k)
unfolding import_client_of
import_client_of-Keeps (import_client i) = λ c v. v
import_client_of-Keeps (server _) = λ c v. v
import_client_of-Keeps (ref_client _ _) = λ c v. v
import_client_of-Keeps (answer_client _ _ _) = λ c v. v
import_client_of-Keeps (error_client _ _) = λ c v. v
import_client_of-Keeps (pipeline_client _ _ _) = λ c v. v

import_of-Keeps : (s : Option Shared) → Keeps (import_of s)
unfolding import_of
import_of-Keeps none = λ c v. v
import_of-Keeps (some s) = import_client_of-Keeps s.client

resolve_known-Keeps :
    (m : RpcMessage) (id : ℕ) (body : ResolveBody) (e : ImportEntry) (i : ℕ)
    → Keeps (resolve_known m id body e i)
unfolding resolve_known
resolve_known-Keeps m id body e i c v = elim (Bool-cases e.is_promise) [
  | inl p ↦ rw p (bind-Keeps _ _ (λ c v. v) (λ _. resolve_import-Keeps m id i body) c v)
  | inr p ↦ rw p (discard_late-Keeps m body c v)
]

resolve_entry-Keeps :
    (m : RpcMessage) (id : ℕ) (body : ResolveBody) (o : Option ImportEntry)
    → Keeps (resolve_entry m id body o)
unfolding resolve_entry
resolve_entry-Keeps m id body none c v = discard_late-Keeps m body c v
resolve_entry-Keeps m id body (some e) c v =
    bind-Keeps _ _ (import_of-Keeps (get_elem? c.all_counts e.rc)) (resolve_known-Keeps m id body e)
      c v

pub handle_resolve-Keeps : (id : ℕ) (body : ResolveBody) → Keeps (handle_resolve id body)
unfolding handle_resolve
handle_resolve-Keeps id body c v =
    resolve_entry-Keeps (resolve id body) id body (lookup id c.imports) c v

lift_registered-Valid :
    (id : ℕ) (o : Option ℕ) (c : Conn) → Valid c → Valid (lift_registered id o c)
unfolding lift_registered
lift_registered-Valid id none c v = v
lift_registered-Valid id (some i) c v =
    let d : Conn = record c {
      disembargoes = erase_key id c.disembargoes;
      disembargo_id = remove id c.disembargo_id;
    } in
    Same-Valid d (lift_embargo i id d).1 (lift_embargo-SameTables i id d) v

pub handle_disembargo-Valid :
    (t : MessageTarget) (x : Context) (c : Conn) → Valid c → Valid (handle_disembargo t x c)
unfolding handle_disembargo
handle_disembargo-Valid t (sender_loopback id) c v = v
handle_disembargo-Valid t (receiver_loopback id) c v =
    lift_registered-Valid id (lookup id c.disembargoes) c v
handle_disembargo-Valid t unknown_context c v = v
