-- ===== src/Rpc/Conn/Exports.antt =====
-- The exports of a connection (src/rpc/conn.ts), with `isSameClient` of src/rpc/client.ts. The
-- `exportPromises` are not modelled.
pub mod Counts
pub mod Added
use capnp_es.Prelude.{
  ℕ, zero, suc, ◌+◌, ◌-◌, min, ltb, ◌==◌, if◌then◌else◌, Bool, true, false, ◌&&◌, List, [], ◌∷◌,
  ◌++◌, length, get_elem?, set, Option, none, some,
}
use mathlib.Core.Option
use capnp_es.Errors.{Result, ok, err}
use capnp_es.Rpc.IdGen.{next, remove}
use capnp_es.Rpc.RefCount.{RefCount, new_ref_count}
use capnp_es.Rpc.RefCount
use capnp_es.Rpc.Slots.{find_slot, put_slot}
use capnp_es.Rpc.Conn.Wire.{Fault, library}
use capnp_es.Rpc.Conn.State.{
  Client, server, import_client, ref_client, answer_client, error_client, pipeline_client, warn,
  close_client, Conn, Shared, Export, ImportClient, Outcome, throw, done_with, Action, emit,
}

-- `===` on clients
abbrev pub same_object : Client → Client → Bool
same_object (server a) (server b) = a == b
same_object (import_client a) (import_client b) = a == b
same_object (ref_client a r) (ref_client b s) = a == b && r == s
same_object (answer_client a _ _) (answer_client b _ _) = a == b
same_object (error_client a _) (error_client b _) = a == b
same_object (pipeline_client a _ _) (pipeline_client b _ _) = a == b
same_object _ _ = false

unfoldable pub normalize_import : Option ImportClient → Option Client
normalize_import none = none
normalize_import (some i) = elim i.embargo_id [ some _ ↦ none | none ↦ i.resolved ]

-- `normalize`, of an `ImportClient` and of a `Ref`; the other classes have none.
unfoldable pub normalize : Conn → Client → Option Client
unfolding normalize_import
normalize c (import_client i) = normalize_import (get_elem? c.all_imports i)
normalize c (ref_client rc r) = Option.map (λ (s : Shared). s.client) (get_elem? c.all_counts rc)
normalize c (server _) = none
normalize c (answer_client _ _ _) = none
normalize c (error_client _ _) = none
normalize c (pipeline_client _ _ _) = none

-- The loop of `norm`, with the number of hops that are left.
unfoldable pub norm : ℕ → Conn → Client → Client
unfolding normalize
norm zero c cur = cur
norm (suc hops) c cur = elim (normalize c cur) [
  | none ↦ cur
  | some n ↦ let rest = norm hops c n in if same_object n cur then cur else rest
]

unfoldable pub is_same_client : Conn → Client → Client → Bool
unfolding norm
is_same_client c a b = same_object (norm 64 c a) (norm 64 c b)

abbrev pub find_export : ℕ → Conn → Option Export
find_export id c = find_slot c.exports id

-- `isSameClient(e.rc._client, client)`
unfoldable pub exports_client : Conn → Client → Option Shared → Bool
unfolding is_same_client
exports_client c client none = false
exports_client c client (some s) = is_same_client c s.client client

-- The loop of `addExport` from index `i` on.
unfoldable pub find_same : Conn → Client → ℕ → List (Option Export) → Option (ℕ × Export)
unfolding exports_client
find_same c client i [] = none
find_same c client i (none ∷ slots) = find_same c client (i + 1) slots
find_same c client i (some e ∷ slots) =
    let rest = find_same c client (i + 1) slots in
    if exports_client c client (get_elem? c.all_counts e.rc) then some (i, e) else rest

-- `RefCount.new(client)`: the counter and its first reference.
unfoldable pub new_shared : Client → Conn → (ℕ × ℕ) × Conn
new_shared client c = (
  (length c.all_counts, new_ref_count.0),
  record c {
    all_counts = c.all_counts ++ (record { client = client; count = new_ref_count.1 } ∷ []);
  },
)

unfoldable pub add_found : Client → Option (ℕ × Export) → Conn → ℕ × Conn
unfolding new_shared
add_found client (some (i, e)) c =
    (i, record c { exports = set c.exports i (some (record e { wire_refs = e.wire_refs + 1 })) })
add_found client none c =
    let (id, g) = next c.export_id in
    let ((rc, ref), c') = new_shared client c in
    (
      id,
      record c' {
        export_id = g;
        exports = put_slot id (record { id = id; rc = rc; ref = ref; wire_refs = 1 }) c.exports;
      },
    )

-- `Conn.addExport`
unfoldable pub add_export : Client → Conn → ℕ × Conn
unfolding add_found find_same
add_export client c = add_found client (find_same c client 0 c.exports) c

-- `Ref.close`: the counter closes its client when no reference is left.
unfoldable pub close_shared : Option Shared → ℕ → ℕ → Conn → Conn
close_shared none rc r c = c
close_shared (some s) rc r c =
    let count = RefCount.close r s.count in
    let c' = record c { all_counts = set c.all_counts rc (record s { count = count }) } in
    if count.client_closes == s.count.client_closes then c' else emit (close_client s.client) c'

unfoldable pub close_ref : ℕ → ℕ → Conn → Conn
unfolding close_shared
close_ref rc r c = close_shared (get_elem? c.all_counts rc) rc r c

unfoldable pub ref_counted : Shared → ℕ → Result (ℕ × RefCount) → Action Client
ref_counted s rc (err e) c = (throw (library e), c)
ref_counted s rc (ok (r, count)) c = (
  done_with (ref_client rc r),
  record c { all_counts = set c.all_counts rc (record s { count = count }) },
)

-- `rc.ref()`
unfoldable pub ref_shared : Option Shared → ℕ → Action Client
unfolding ref_counted
ref_shared none rc c = (done_with (ref_client rc 0), c)
ref_shared (some s) rc c = ref_counted s rc (RefCount.ref s.count) c

unfoldable pub new_ref_to : ℕ → Action Client
unfolding ref_shared
new_ref_to rc c = ref_shared (get_elem? c.all_counts rc) rc c

-- Whether closing a client comes back.
unfoldable pub closing : Option Fault → Outcome (Unit {0})
closing none = done_with tt
closing (some e) = throw e

-- What `close` of the reference throws: it closes the client where no other reference is left.
unfoldable pub close_outcome : Option Shared → ℕ → Conn → Outcome (Unit {0})
unfolding closing
close_outcome none r c = done_with tt
close_outcome (some s) r c =
    if (RefCount.close r s.count).client_closes == s.count.client_closes
    then done_with tt
    else closing (c.close_fails s.client c.log)

unfoldable pub drop_closed : ℕ → Outcome (Unit {0}) → Conn → Outcome (Unit {0}) × Conn
drop_closed id (throw e) c = (throw e, c)
drop_closed id (done_with _) c =
    (done_with tt, record c { exports = set c.exports id none; export_id = remove id c.export_id })

-- The end of `releaseExport`, once no reference is held on the wire. Where `close` throws, the
-- export stays in the table, without a reference.
unfoldable pub drop_export : ℕ → Export → Action (Unit {0})
unfolding close_ref close_outcome drop_closed
drop_export id e c =
    drop_closed id (close_outcome (get_elem? c.all_counts e.rc) e.ref c) (close_ref e.rc e.ref c)

-- `e.wireRefs = ...`
abbrev pub write_refs : ℕ → Export → ℕ → Conn → Conn
write_refs id e n c = record c { exports = set c.exports id (some (record e { wire_refs = n })) }

unfoldable pub release_found : ℕ → ℕ → Option Export → Action (Unit {0})
unfolding drop_export
release_found id refs none c = (done_with tt, c)
release_found id refs (some e) c =
    if refs == 0
    then (done_with tt, emit warn c)
    else let n = e.wire_refs - min refs e.wire_refs in
      let c' = write_refs id e n c in
      if ltb 0 n
      then (done_with tt, c')
      else drop_export id e (if ltb e.wire_refs refs then emit warn c' else c')

-- `Conn.releaseExport`
unfoldable pub release_export : ℕ → ℕ → Action (Unit {0})
unfolding release_found
release_export id refs c = release_found id refs (find_export id c) c
