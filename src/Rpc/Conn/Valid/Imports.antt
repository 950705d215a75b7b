-- ===== src/Rpc/Conn/Valid/Imports.antt =====
-- The operations on imports and on questions of src/rpc/conn.ts, src/rpc/import-client.ts and
-- src/rpc/question.ts, as far as the tables of questions and exports go.
use capnp_es.Prelude.{
  ℕ, ◌-◌, min, ltb, refl, ◌==◌, if◌then◌else◌, true, false, ◌&&◌, List, [], ◌∷◌, length, get_elem?,
  Option, none, some, inl, inr, Bool-cases, Dict, lookup, insert, erase_key,
}
use capnp_es.Rpc.IdGen.{remove}
use capnp_es.Rpc.CallQueue.{flush_to}
use capnp_es.Rpc.Conn.Wire.{Fault, finish}
use capnp_es.Rpc.Conn.State.{
  Client, server, import_client, ref_client, answer_client, error_client, pipeline_client, Conn,
  Question, Shared, ImportEntry, ImportClient, Outcome, throw, done_with, emit, send_message, warn,
}
use capnp_es.Rpc.Conn.Exports.Counts.{SameTables}
use capnp_es.Rpc.Conn.Questions.{
  is_in_progress, is_some, find_question, cancel_object, cancel, close_root_of, close_pending_root,
  without_transform, close_resolved, close_derived, close_root, pipeline_close,
}
use capnp_es.Rpc.Conn.Imports.{
  clear_entries, clear_disembargo, clear_shared, drop_import, release_import_found, release_import,
  release_all_of, release_import_all, write_import, close_optional, log_effects, drained,
  rejected_calls, set_resolved_object, set_resolved, activate_object, activate_embargo, has_id,
  flush_embargo, lift_object, lift_embargo, close_import_object, close_import,
}
use capnp_es.Rpc.Conn.Valid.{Valid, Same-Valid, SameTables-trans, pop_question-Valid}
use capnp_es.Rpc.Conn.Valid.Parts.{client_from_resolution-Keeps}
use capnp_es.Rpc.Conn.Valid.Stages.{log_effects-SameTables, close_optional-SameTables}

clear_entries-SameTables :
    (i : ℕ) (entries : Dict ℕ) (c : Conn) → SameTables c (clear_entries i entries c)
unfolding clear_entries
clear_entries-SameTables i [] c = (refl, refl, refl, refl)
clear_entries-SameTables i ((id, j) ∷ entries) c =
    let d : Conn =
      if j == i
      then record c {
        disembargoes = erase_key id c.disembargoes;
        disembargo_id = remove id c.disembargo_id;
      }
      else c in
    SameTables-trans c d (clear_entries i entries d) one (clear_entries-SameTables i entries d)
  where
    one : SameTables c (
        if j == i
        then record c {
          disembargoes = erase_key id c.disembargoes;
          disembargo_id = remove id c.disembargo_id;
        }
        else c)
    one = elim (Bool-cases (j == i)) [
      | inl p ↦ rw p (refl, refl, refl, refl)
      | inr p ↦ rw p (refl, refl, refl, refl)
    ]

clear_disembargo-SameTables : (k : Client) (c : Conn) → SameTables c (clear_disembargo k c)
unfolding clear_disembargo
clear_disembargo-SameTables (import_client i) c = clear_entries-SameTables i c.disembargoes c
clear_disembargo-SameTables (server _) c = (refl, refl, refl, refl)
clear_disembargo-SameTables (ref_client _ _) c = (refl, refl, refl, refl)
clear_disembargo-SameTables (answer_client _ _ _) c = (refl, refl, refl, refl)
clear_disembargo-SameTables (error_client _ _) c = (refl, refl, refl, refl)
clear_disembargo-SameTables (pipeline_client _ _ _) c = (refl, refl, refl, refl)

clear_shared-SameTables : (s : Option Shared) (c : Conn) → SameTables c (clear_shared s c)
unfolding clear_shared
clear_shared-SameTables none c = (refl, refl, refl, refl)
clear_shared-SameTables (some s) c = clear_disembargo-SameTables s.client c

drop_import-SameTables :
    (id count : ℕ) (e : ImportEntry) (c : Conn) → SameTables c (drop_import id count e c)
unfolding drop_import
drop_import-SameTables id count e c = elim (Bool-cases (ltb 0 count)) [
  | inl p ↦ rw p (clear_shared-SameTables (get_elem? c.all_counts e.rc) c)
  | inr p ↦ rw p (clear_shared-SameTables (get_elem? c.all_counts e.rc) c)
]

release_import_found-SameTables :
    (id refs : ℕ) (o : Option ImportEntry) (c : Conn)
    → SameTables c (release_import_found id refs o c)
unfolding release_import_found
release_import_found-SameTables id refs none c = (refl, refl, refl, refl)
release_import_found-SameTables id refs (some e) c =
    let e' : ImportEntry = record e { refs = e.refs - min refs e.refs } in
    let c' : Conn = record c { imports = insert id e' c.imports } in
    elim (Bool-cases (refs == 0)) [
      | inl p ↦ rw p (refl, refl, refl, refl)
      | inr p ↦ elim (Bool-cases (ltb 0 (e.refs - min refs e.refs))) [
        | inl q ↦ rw (p, q) (refl, refl, refl, refl)
        | inr q ↦ elim (Bool-cases (ltb e.refs refs)) [
          | inl r ↦ rw (p, q, r) (drop_import-SameTables id (min refs e.refs) e' (emit warn c'))
          | inr r ↦ rw (p, q, r) (drop_import-SameTables id (min refs e.refs) e' c')
        ]
      ]
    ]

release_all_of-SameTables :
    (id : ℕ) (o : Option ImportEntry) (c : Conn) → SameTables c (release_all_of id o c)
unfolding release_all_of release_import
release_all_of-SameTables id none c = (refl, refl, refl, refl)
release_all_of-SameTables id (some e) c =
    release_import_found-SameTables id e.refs (lookup id c.imports) c

pub release_import_all-SameTables : (id : ℕ) (c : Conn) → SameTables c (release_import_all id c)
unfolding release_import_all
release_import_all-SameTables id c = release_all_of-SameTables id (lookup id c.imports) c

set_resolved_object-SameTables :
    (o : Option ImportClient) (i : ℕ) (k : Client) (c : Conn)
    → SameTables c (set_resolved_object o i k c)
unfolding set_resolved_object
set_resolved_object-SameTables none i k c = (refl, refl, refl, refl)
set_resolved_object-SameTables (some o) i k c = elim (Bool-cases o.closed) [
  | inl p ↦ rw p (refl, refl, refl, refl)
  | inr p ↦ rw p (close_optional-SameTables o.resolved c)
]

pub set_resolved-SameTables : (i : ℕ) (k : Client) (c : Conn) → SameTables c (set_resolved i k c)
unfolding set_resolved
set_resolved-SameTables i k c = set_resolved_object-SameTables (get_elem? c.all_imports i) i k c

activate_object-SameTables :
    (o : Option ImportClient) (i id : ℕ) (c : Conn) → SameTables c (activate_object o i id c)
unfolding activate_object
activate_object-SameTables none i id c = (refl, refl, refl, refl)
activate_object-SameTables (some o) i id c = (refl, refl, refl, refl)

pub activate_embargo-SameTables : (i id : ℕ) (c : Conn) → SameTables c (activate_embargo i id c)
unfolding activate_embargo
activate_embargo-SameTables i id c = activate_object-SameTables (get_elem? c.all_imports i) i id c

flush_embargo-SameTables :
    (i : ℕ) (o : ImportClient) (k : Option Client) (c : Conn) → SameTables c (flush_embargo i o k c)
unfolding flush_embargo
flush_embargo-SameTables i o none c = (refl, refl, refl, refl)
flush_embargo-SameTables i o (some k) c =
    let r = drained o.embargo_queue (flush_to false o.embargo_queue) in
    log_effects-SameTables r.0
      (write_import i (record o { embargo_id = none; embargo_queue = r.1 }) c)

lift_object-SameTables :
    (o : Option ImportClient) (i id : ℕ) (c : Conn) → SameTables c (lift_object o i id c).1
unfolding lift_object
lift_object-SameTables none i id c = (refl, refl, refl, refl)
lift_object-SameTables (some o) i id c = elim (Bool-cases (has_id o.embargo_id id)) [
  | inl p ↦ rw p (flush_embargo-SameTables i o o.resolved c)
  | inr p ↦ rw p (refl, refl, refl, refl)
]

pub lift_embargo-SameTables : (i id : ℕ) (c : Conn) → SameTables c (lift_embargo i id c).1
unfolding lift_embargo
lift_embargo-SameTables i id c = lift_object-SameTables (get_elem? c.all_imports i) i id c

close_import_object-SameTables :
    (o : Option ImportClient) (i : ℕ) (c : Conn) → SameTables c (close_import_object o i c)
unfolding close_import_object
close_import_object-SameTables none i c = (refl, refl, refl, refl)
close_import_object-SameTables (some o) i c =
    let r = rejected_calls o.embargo_queue in
    let d = write_import i (record o { closed = true; embargo_id = none; embargo_queue = r.1 }) c in
    let f = log_effects r.0 d in
    let g = close_optional o.resolved f in
    elim (Bool-cases o.closed) [
      | inl p ↦ rw p (refl, refl, refl, refl)
      | inr p ↦ rw p (
          SameTables-trans c f (release_import_all o.id g) (log_effects-SameTables r.0 d) (
            SameTables-trans f g (release_import_all o.id g)
              (close_optional-SameTables o.resolved f) (release_import_all-SameTables o.id g)))
    ]

pub close_import-Valid : (i : ℕ) (c : Conn) → Valid c → Valid (close_import i c)
unfolding close_import
close_import-Valid i c v =
    Same-Valid c (close_import_object (get_elem? c.all_imports i) i c)
      (close_import_object-SameTables (get_elem? c.all_imports i) i c) v

cancel_object-Valid :
    (o : Option Question) (q : ℕ) (e : Fault) (c : Conn) → Valid c → Valid (cancel_object o q e c).1
unfolding cancel_object
cancel_object-Valid none q e c v = v
cancel_object-Valid (some o) q e c v = elim (Bool-cases (is_in_progress o.state)) [
  | inr p ↦ rw p v
  | inl p ↦ elim (Bool-cases (is_some (find_question o.id c))) [
    | inr r ↦ rw (p, r) v
    | inl r ↦ elim (Bool-cases o.started) [
      | inl s ↦ rw (p, r, s) (pop_question-Valid o.id (send_message (finish o.id true) c) v)
      | inr s ↦ rw (p, r, s) (pop_question-Valid o.id c v)
    ]
  ]
]

pub cancel-Valid : (q : ℕ) (e : Fault) (c : Conn) → Valid c → Valid (cancel q e c).1
unfolding cancel
cancel-Valid q e c v = cancel_object-Valid (get_elem? c.all_questions q) q e c v

close_root_of-Valid :
    (o : Option Question) (q : ℕ) (c : Conn) → Valid c → Valid (close_root_of o q c).1
unfolding close_root_of
close_root_of-Valid none q c v = v
close_root_of-Valid (some o) q c v = elim (Bool-cases (is_in_progress o.state)) [
  | inr p ↦ rw p v
  | inl p ↦ elim (Bool-cases (is_some (find_question o.id c))) [
    | inr r ↦ rw (p, r) v
    | inl r ↦ rw (p, r) (pop_question-Valid o.id (send_message (finish o.id true) c) v)
  ]
]

close_pending_root-Valid : (q : ℕ) (c : Conn) → Valid c → Valid (close_pending_root q c).1
unfolding close_pending_root
close_pending_root-Valid q c v = close_root_of-Valid (get_elem? c.all_questions q) q c v

close_resolved-Valid : (r : Outcome Client × Conn) → Valid r.1 → Valid (close_resolved r)
unfolding close_resolved
close_resolved-Valid (throw e, c) v = v
close_resolved-Valid (done_with k, c) v = v

module _ (client_at : ℕ → List ℕ → Outcome Client) where
  close_derived-Valid :
      (o : Question) (q : ℕ) (t : List ℕ) (c : Conn)
      → Valid c
      → Valid (close_derived client_at o q t c)
  unfolding close_derived
  close_derived-Valid o q t c v = elim (Bool-cases (is_in_progress o.state)) [
    | inr p ↦
        rw p (close_resolved-Valid _ (client_from_resolution-Keeps client_at t o.obj o.err _ v))
    | inl p ↦
        elim (Bool-cases (o.root_close_pending && (length (without_transform t o.derived) == 0))) [
          | inl r ↦ rw (p, r) (close_pending_root-Valid q _ v)
          | inr r ↦ rw (p, r) v
        ]
  ]

  close_root-Valid :
      (o : Question) (q : ℕ) (c : Conn) → Valid c → Valid (close_root client_at o q c)
  unfolding close_root
  close_root-Valid o q c v = elim (Bool-cases (length o.derived == 0)) [
    | inr p ↦ rw p v
    | inl p ↦ elim (Bool-cases (is_in_progress o.state)) [
      | inl r ↦ rw (p, r) (close_pending_root-Valid q c v)
      | inr r ↦
          rw (p, r)
            (close_resolved-Valid _ (client_from_resolution-Keeps client_at [] o.obj o.err c v))
    ]
  ]

  pub pipeline_close-Valid :
      (o : Option Question) (q : ℕ) (t : List ℕ) (c : Conn)
      → Valid c
      → Valid (pipeline_close client_at o q t c)
  unfolding pipeline_close
  pipeline_close-Valid none q t c v = v
  pipeline_close-Valid (some o) q [] c v = close_root-Valid o q c v
  pipeline_close-Valid (some o) q (f ∷ t) c v = close_derived-Valid o q (f ∷ t) c v
