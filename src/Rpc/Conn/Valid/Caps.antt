-- ===== src/Rpc/Conn/Valid/Caps.antt =====
-- The invariant of the tables through the capabilities of messages in src/rpc/conn.ts: what comes in
-- and what goes out.
use capnp_es.Prelude.{
  ℕ, zero, suc, Bool, true, false, List, [], ◌∷◌, get_elem?, Option, none, some, inl, inr,
  Bool-cases, lookup,
}
use capnp_es.Errors.{Result, ok, err}
use capnp_es.Rpc.RefCount
use capnp_es.Rpc.RefCount.{RefCount}
use capnp_es.Rpc.Conn.Wire.{
  CapDescriptor, no_cap, sender_hosted, sender_promise, receiver_hosted, receiver_answer,
  unknown_descriptor, promised_answer_ops_to_transform,
}
use capnp_es.Rpc.Conn.State.{
  Client, server, import_client, ref_client, answer_client, error_client, pipeline_client, Question,
  Shared, Export, ImportEntry, ImportClient, Outcome, Action,
}
use capnp_es.Rpc.Conn.Questions.{is_in_progress}
use capnp_es.Rpc.Conn.Exports.{find_export, new_ref_to, ref_shared, ref_counted, new_shared}
use capnp_es.Rpc.Conn.Imports.{import_new, add_import, add_import_found}
use capnp_es.Rpc.Conn.Caps.{
  export_client, answer_client_of, client_from_cap_descriptor, cap_of, populate_message_cap_table,
  known_export, known_answer, discard_resolved_cap, Dug, at_import, at_question, elsewhere, Round,
  stop, again, dig_import, dig_shared, dig_question, dig_round, dig_on, dig, descriptor_of,
  descriptor_for_client, make_cap_table,
}
use capnp_es.Rpc.Conn.Valid.{Keeps, bind-Keeps, catch-Keeps, add_export-Valid}
use capnp_es.Rpc.Conn.Valid.Parts.{client_from_resolution-Keeps}

ref_counted-Keeps : (s : Shared) (rc : ℕ) (r : Result (ℕ × RefCount)) → Keeps (ref_counted s rc r)
unfolding ref_counted
ref_counted-Keeps s rc (err e) c v = v
ref_counted-Keeps s rc (ok (r, count)) c v = v

ref_shared-Keeps : (s : Option Shared) (rc : ℕ) → Keeps (ref_shared s rc)
unfolding ref_shared
ref_shared-Keeps none rc c v = v
ref_shared-Keeps (some s) rc c v = ref_counted-Keeps s rc (RefCount.ref s.count) c v

new_ref_to-Keeps : (rc : ℕ) → Keeps (new_ref_to rc)
unfolding new_ref_to
new_ref_to-Keeps rc c v = ref_shared-Keeps (get_elem? c.all_counts rc) rc c v

add_import_found-Keeps :
    (id : ℕ) (p : Bool) (o : Option ImportEntry) → Keeps (add_import_found id p o)
unfolding add_import_found import_new new_shared
add_import_found-Keeps id p none c v = v
add_import_found-Keeps id p (some e) c v = new_ref_to-Keeps e.rc _ v

pub add_import-Keeps : (id : ℕ) (p : Bool) → Keeps (add_import id p)
unfolding add_import
add_import-Keeps id p c v = add_import_found-Keeps id p (lookup id c.imports) c v

export_client-Keeps : (o : Option Export) → Keeps (export_client o)
unfolding export_client
export_client-Keeps none = λ c v. v
export_client-Keeps (some e) = catch-Keeps _ _ (new_ref_to-Keeps e.rc) (λ _ c v. v)

answer_client_of-Keeps : (o : Option ℕ) (t : List ℕ) → Keeps (answer_client_of o t)
unfolding answer_client_of
answer_client_of-Keeps none t c v = v
answer_client_of-Keeps (some a) t c v = v

pub client_from-Keeps : (desc : CapDescriptor) → Keeps (client_from_cap_descriptor desc)
unfolding client_from_cap_descriptor
client_from-Keeps (sender_hosted id) c v = add_import-Keeps id false c v
client_from-Keeps (sender_promise id) c v = add_import-Keeps id true c v
client_from-Keeps (receiver_hosted id) c v = export_client-Keeps (find_export id c) c v
client_from-Keeps (receiver_answer id ops) c v =
    answer_client_of-Keeps (lookup id c.answers) (promised_answer_ops_to_transform ops) c v
client_from-Keeps no_cap c v = v
client_from-Keeps unknown_descriptor c v = v

cap_of-Keeps : (desc : CapDescriptor) → Keeps (cap_of desc)
unfolding cap_of
cap_of-Keeps no_cap = λ c v. v
cap_of-Keeps (sender_hosted id) = bind-Keeps _ _ (client_from-Keeps (sender_hosted id)) (λ _ c v. v)
cap_of-Keeps (sender_promise id) =
    bind-Keeps _ _ (client_from-Keeps (sender_promise id)) (λ _ c v. v)
cap_of-Keeps (receiver_hosted id) =
    bind-Keeps _ _ (client_from-Keeps (receiver_hosted id)) (λ _ c v. v)
cap_of-Keeps (receiver_answer id ops) =
    bind-Keeps _ _ (client_from-Keeps (receiver_answer id ops)) (λ _ c v. v)
cap_of-Keeps unknown_descriptor = λ c v. v

pub populate-Keeps : (table : List CapDescriptor) → Keeps (populate_message_cap_table table)
unfolding populate_message_cap_table
populate-Keeps [] = λ c v. v
populate-Keeps (desc ∷ table) =
    bind-Keeps _ _ (cap_of-Keeps desc) (λ k. bind-Keeps _ _ (populate-Keeps table) (λ _ c v. v))

known_export-Keeps : (o : Option Export) → Keeps (known_export o)
unfolding known_export
known_export-Keeps none = λ c v. v
known_export-Keeps (some e) = λ c v. v

known_answer-Keeps : (o : Option ℕ) → Keeps (known_answer o)
unfolding known_answer
known_answer-Keeps none = λ c v. v
known_answer-Keeps (some e) = λ c v. v

pub discard-Keeps : (desc : CapDescriptor) → Keeps (discard_resolved_cap desc)
unfolding discard_resolved_cap
discard-Keeps (sender_hosted id) c v = v
discard-Keeps (sender_promise id) c v = v
discard-Keeps (receiver_hosted id) c v = known_export-Keeps (find_export id c) c v
discard-Keeps (receiver_answer id ops) c v = known_answer-Keeps (lookup id c.answers) c v
discard-Keeps no_cap c v = v
discard-Keeps unknown_descriptor c v = v

module _ (client_at : ℕ → List ℕ → Outcome Client) where
  dig_import-Keeps : (o : Option ImportClient) → Keeps (dig_import o)
  unfolding dig_import
  dig_import-Keeps none = λ c v. v
  dig_import-Keeps (some i) = λ c v. v

  dig_shared-Keeps : (o : Option Shared) → Keeps (dig_shared o)
  unfolding dig_shared
  dig_shared-Keeps none = λ c v. v
  dig_shared-Keeps (some s) = λ c v. v

  dig_question-Keeps : (o : Option Question) (t : List ℕ) → Keeps (dig_question client_at o t)
  unfolding dig_question
  dig_question-Keeps none t c v = v
  dig_question-Keeps (some o) t c v = elim (Bool-cases (is_in_progress o.state)) [
    | inl p ↦ rw p v
    | inr p ↦
        rw p
          (bind-Keeps _ _ (client_from_resolution-Keeps client_at t o.obj o.err) (λ _ c v. v) c v)
  ]

  dig_round-Keeps : (client : Client) → Keeps (dig_round client_at client)
  unfolding dig_round
  dig_round-Keeps (import_client i) c v = dig_import-Keeps (get_elem? c.all_imports i) c v
  dig_round-Keeps (ref_client rc r) c v = dig_shared-Keeps (get_elem? c.all_counts rc) c v
  dig_round-Keeps (pipeline_client n q t) c v =
      dig_question-Keeps (get_elem? c.all_questions q) t c v
  dig_round-Keeps (server _) c v = v
  dig_round-Keeps (answer_client _ _ _) c v = v
  dig_round-Keeps (error_client _ _) c v = v

  dig_on-Keeps :
      (next : Client → Action Dug) (r : Round)
      → ((k : Client) → Keeps (next k))
      → Keeps (dig_on next r)
  unfolding dig_on
  dig_on-Keeps next (stop d) k = λ c v. v
  dig_on-Keeps next (again client) k = k client

  dig-Keeps : (hops : ℕ) (client : Client) → Keeps (dig client_at hops client)
  unfolding dig
  dig-Keeps zero client = λ c v. v
  dig-Keeps (suc hops) client =
      bind-Keeps _ _ (dig_round-Keeps client)
        (λ r. dig_on-Keeps (dig client_at hops) r (dig-Keeps hops))

  descriptor_of-Keeps : (client : Client) (d : Dug) → Keeps (descriptor_of client d)
  unfolding descriptor_of
  descriptor_of-Keeps client (at_import id) c v = v
  descriptor_of-Keeps client (at_question id t) c v = v
  descriptor_of-Keeps client elsewhere c v = add_export-Valid client c v

  descriptor_for-Keeps :
      (hops : ℕ) (client : Client) → Keeps (descriptor_for_client client_at hops client)
  unfolding descriptor_for_client
  descriptor_for-Keeps hops client =
      bind-Keeps _ _ (dig-Keeps hops client) (descriptor_of-Keeps client)

  pub make_cap_table-Keeps :
      (hops : ℕ) (caps : List (Option Client)) → Keeps (make_cap_table client_at hops caps)
  unfolding make_cap_table
  make_cap_table-Keeps hops [] = λ c v. v
  make_cap_table-Keeps hops (none ∷ caps) =
      bind-Keeps _ _ (make_cap_table-Keeps hops caps) (λ _ c v. v)
  make_cap_table-Keeps hops (some k ∷ caps) =
      bind-Keeps _ _ (descriptor_for-Keeps hops k)
        (λ d. bind-Keeps _ _ (make_cap_table-Keeps hops caps) (λ _ c v. v))
