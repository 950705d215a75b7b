-- ===== src/Rpc/Conn/Imports.antt =====
-- The imports of a connection and its disembargoes: the tables in src/rpc/conn.ts, and
-- src/rpc/import-client.ts. Where the source holds an `ImportClient`, the model holds its index in
-- `all_imports`.
pub mod Refs
use capnp_es.Prelude.{
  ℕ, ◌+◌, ◌-◌, min, ltb, ◌==◌, if◌then◌else◌, Bool, true, false, ◌&&◌, ◌||◌, not, List, [], ◌∷◌,
  ◌++◌, length, get_elem?, set, map, Option, none, some, Dict, lookup, insert, erase_key,
}
use capnp_es.Errors.{rpc_call_queue_full}
use capnp_es.Rpc.IdGen.{next, remove}
use capnp_es.Rpc.CallQueue.{
  CallQueue, Effect, call_queue_size, new_call_queue, reject_all, flush_to,
}
use capnp_es.Rpc.Conn.Wire.{Fault, release}
use capnp_es.Rpc.Conn.State.{
  Client, server, import_client, ref_client, answer_client, error_client, Event, warn, close_client,
  queue_effect, Conn, Shared, ImportEntry, ImportClient, done_with, Action, emit, send_message,
}
use capnp_es.Rpc.Conn.Exports.{new_shared, new_ref_to}

abbrev pub new_import_object : ℕ → ImportClient
new_import_object id = record {
  id = id;
  closed = false;
  resolved = none;
  embargo_id = none;
  embargo_queue = new_call_queue call_queue_size [];
}

-- `new ImportClient(this, id)` with its counter and the first reference.
unfoldable pub import_new : ℕ → Bool → Action Client
unfolding new_shared
import_new id is_promise c =
    let ((rc, ref), c') = new_shared (import_client (length c.all_imports)) c in
    (
      done_with (ref_client rc ref),
      record c' {
        all_imports = c.all_imports ++ (new_import_object id ∷ []);
        imports = insert id (record { rc = rc; refs = 1; is_promise = is_promise }) c.imports;
      },
    )

-- The count and the flag are written before `ref` is called, which may throw.
unfoldable pub add_import_found : ℕ → Bool → Option ImportEntry → Action Client
unfolding import_new new_ref_to
add_import_found id is_promise none c = import_new id is_promise c
add_import_found id is_promise (some e) c = new_ref_to e.rc (record c {
  imports =
      insert id (record e { refs = e.refs + 1; is_promise = e.is_promise || is_promise }) c.imports;
})

-- `Conn.addImport`
unfoldable pub add_import : ℕ → Bool → Action Client
unfolding add_import_found
add_import id is_promise c = add_import_found id is_promise (lookup id c.imports) c

-- `Conn.registerDisembargo`
unfoldable pub register_disembargo : ℕ → Conn → ℕ × Conn
register_disembargo i c =
    let (id, g) = next c.disembargo_id in
    (id, record c { disembargo_id = g; disembargoes = insert id i c.disembargoes })

-- The loop of `clearDisembargo` over the entries that the table had when it began.
unfoldable pub clear_entries : ℕ → Dict ℕ → Conn → Conn
clear_entries i [] c = c
clear_entries i ((id, j) ∷ entries) c = clear_entries i entries (
    if j == i
    then record c {
      disembargoes = erase_key id c.disembargoes;
      disembargo_id = remove id c.disembargo_id;
    }
    else c)

-- `clearDisembargo`, of the client of an import's counter.
unfoldable pub clear_disembargo : Client → Conn → Conn
unfolding clear_entries
clear_disembargo (import_client i) c = clear_entries i c.disembargoes c
clear_disembargo other c = c

unfoldable pub clear_shared : Option Shared → Conn → Conn
unfolding clear_disembargo
clear_shared none c = c
clear_shared (some s) c = clear_disembargo s.client c

-- The end of `releaseImport`, once no reference is held; `count` of them are given back.
unfoldable pub drop_import : ℕ → ℕ → ImportEntry → Conn → Conn
unfolding clear_shared
drop_import id count e c =
    let cleared = clear_shared (get_elem? c.all_counts e.rc) c in
    let c' = record cleared { imports = erase_key id cleared.imports } in
    if ltb 0 count then send_message (release id count) c' else c'

unfoldable pub release_import_found : ℕ → ℕ → Option ImportEntry → Conn → Conn
unfolding drop_import
release_import_found id refs none c = c
release_import_found id refs (some e) c =
    if refs == 0
    then emit warn c
    else let count = min refs e.refs in
      let e' = record e { refs = e.refs - count } in
      let c' = record c { imports = insert id e' c.imports } in
      if ltb 0 e'.refs
      then c'
      else drop_import id count e' (if ltb e.refs refs then emit warn c' else c')

-- `Conn.releaseImport`
unfoldable pub release_import : ℕ → ℕ → Conn → Conn
unfolding release_import_found
release_import id refs c = release_import_found id refs (lookup id c.imports) c

unfoldable pub release_all_of : ℕ → Option ImportEntry → Conn → Conn
unfolding release_import
release_all_of id none c = c
release_all_of id (some e) c = release_import id e.refs c

-- `Conn.releaseImportAll`
unfoldable pub release_import_all : ℕ → Conn → Conn
unfolding release_all_of
release_import_all id c = release_all_of id (lookup id c.imports) c

abbrev pub write_import : ℕ → ImportClient → Conn → Conn
write_import i o c = record c { all_imports = set c.all_imports i o }

unfoldable pub close_optional : Option Client → Conn → Conn
close_optional none c = c
close_optional (some client) c = emit (close_client client) c

-- The effects in the order in which they happen.
abbrev pub log_effects : List Effect → Conn → Conn
log_effects [] c = c
log_effects (e ∷ effects) c = log_effects effects (emit (queue_effect e) c)

-- The queue with what draining it gives; it is never out of fuel.
-- The queue of an import holds calls of this side only, whose rejection does not throw.
abbrev pub rejected_calls : CallQueue → List Effect × CallQueue
rejected_calls q = elim (reject_all {E = Fault} (λ a. none) q) [
  | none ↦ ([], q)
  | some (effects, e, q') ↦ (effects, q')
]

abbrev pub drained : CallQueue → Option (List Effect × CallQueue) → List Effect × CallQueue
drained q none = ([], q)
drained q (some r) = r

unfoldable pub set_resolved_object : Option ImportClient → ℕ → Client → Conn → Conn
unfolding close_optional
set_resolved_object none i client c = c
set_resolved_object (some o) i client c =
    if o.closed
    then emit (close_client client) c
    else write_import i (record o { resolved = some client }) (close_optional o.resolved c)

-- `ImportClient.setResolved`
unfoldable pub set_resolved : ℕ → Client → Conn → Conn
unfolding set_resolved_object
set_resolved i client c = set_resolved_object (get_elem? c.all_imports i) i client c

unfoldable pub activate_object : Option ImportClient → ℕ → ℕ → Conn → Conn
activate_object none i id c = c
activate_object (some o) i id c = write_import i (record o { embargo_id = some id }) c

-- `ImportClient.activateEmbargo`
unfoldable pub activate_embargo : ℕ → ℕ → Conn → Conn
unfolding activate_object
activate_embargo i id c = activate_object (get_elem? c.all_imports i) i id c

-- `this.embargoId !== id`
abbrev pub has_id : Option ℕ → ℕ → Bool
has_id none id = false
has_id (some e) id = e == id

-- The calls that were held back go to the resolved client, in order.
unfoldable pub flush_embargo : ℕ → ImportClient → Option Client → Conn → Conn
flush_embargo i o none c = write_import i (record o { embargo_id = none }) c
flush_embargo i o (some client) c =
    let (effects, q) = drained o.embargo_queue (flush_to false o.embargo_queue) in
    log_effects effects (write_import i (record o { embargo_id = none; embargo_queue = q }) c)

unfoldable pub lift_object : Option ImportClient → ℕ → ℕ → Conn → Bool × Conn
unfolding flush_embargo
lift_object none i id c = (false, c)
lift_object (some o) i id c =
    if has_id o.embargo_id id then (true, flush_embargo i o o.resolved c) else (false, c)

-- `ImportClient.liftEmbargo`
unfoldable pub lift_embargo : ℕ → ℕ → Conn → Bool × Conn
unfolding lift_object
lift_embargo i id c = lift_object (get_elem? c.all_imports i) i id c

unfoldable pub close_import_object : Option ImportClient → ℕ → Conn → Conn
unfolding close_optional release_import_all
close_import_object none i c = c
close_import_object (some o) i c =
    let (effects, q) = rejected_calls o.embargo_queue in
    if o.closed
    then c
    else release_import_all o.id (
        close_optional o.resolved (
          log_effects effects
            (write_import i (record o { closed = true; embargo_id = none; embargo_queue = q }) c)))

-- `ImportClient.close`, which the counter calls when the last reference is closed.
unfoldable pub close_import : ℕ → Conn → Conn
unfolding close_import_object
close_import i c = close_import_object (get_elem? c.all_imports i) i c
