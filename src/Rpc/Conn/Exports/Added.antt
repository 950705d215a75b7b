-- ===== src/Rpc/Conn/Exports/Added.antt =====
-- What `addExport` of src/rpc/conn.ts does to the table of exports, and to the references on them.
use capnp_es.Prelude.{
  ℕ, zero, suc, ◌+◌, ◌≡◌, ap, subst, ◌∙◌, ◌==◌, if◌then◌else◌, List, [], ◌∷◌, length, get_elem?,
  set, Option, none, some, arith, inl, inr, Bool-cases, Option-cases,
}
use capnp_es.Rpc.IdGen.{next}
use capnp_es.Rpc.RefCount.{new_ref_count}
use capnp_es.Rpc.Slots.{find_slot, put_slot, Agrees, found→lt, find_slot-set}
use capnp_es.Rpc.Slots.Ids.{put_slot_lem}
use capnp_es.Rpc.Conn.State.{Client, Conn, Export}
use capnp_es.Rpc.Conn.Exports.{
  find_export, find_same, exports_client, new_shared, add_found, add_export,
}
use capnp_es.Rpc.Conn.Exports.Counts.{refs_of, refs_at}

-- An export that `find_same` gives stands in the table at the index that it gives with it.
find_same-found :
    (c : Conn) (client : Client) (i : ℕ) (slots : List (Option Export)) {j : ℕ} {e : Export}
    → find_same c client i slots ≡ some (j, e)
    → (k : ℕ) × (j ≡ i + k) × (find_slot slots k ≡ some e)
unfolding find_same
find_same-found c client i [] h = absurd (ground arith)
find_same-found c client i (none ∷ slots) h =
    let (k, j, f) = find_same-found c client (i + 1) slots h in (suc k, omega (arith, j), f)
find_same-found c client i (some e ∷ slots) {j = m} {e = e'} h =
    elim (Bool-cases (exports_client c client (get_elem? c.all_counts e.rc))) [
      | inl same ↦ (zero, ground (arith, h, same), ground (arith, h, same))
      | inr other ↦
          let (k, j, f) =
            find_same-found c client (i + 1) slots {j = m} {e = e'} (ground (arith, h, other)) in
          (suc k, omega (arith, j), f)
    ]

-- An entry that was there has its count raised, or there is a new entry at the next id.
pub data Added (client : Client) (c : Conn) : ℕ × Conn → Type 0 where
  again :
      (i : ℕ) (e : Export)
      → find_export i c ≡ some e
      → Added client c (
        i,
        record c { exports = set c.exports i (some (record e { wire_refs = e.wire_refs + 1 })) },
      )
  anew : Added client c (
    (next c.export_id).0,
    record (new_shared client c).1 {
      export_id = (next c.export_id).1;
      exports =
          put_slot
            (next c.export_id).0
            (record {
              id = (next c.export_id).0;
              rc = length c.all_counts;
              ref = new_ref_count.0;
              wire_refs = 1;
            })
            c.exports;
    },
  )

pub add_export-Added : (client : Client) (c : Conn) → Added client c (add_export client c)
unfolding add_export add_found new_shared
add_export-Added client c = elim (Option-cases (find_same c client 0 c.exports)) [
  | inl missing ↦ rw missing anew
  | inr ((i, e), found) ↦
      let (k, j, f) = find_same-found c client 0 c.exports found in
      rw found (again i e (subst (λ n. find_slot c.exports n ≡ some e) (omega (arith, j)) f))
]

Added-refs :
    {client : Client} {c : Conn} {r : ℕ × Conn} (x : ℕ)
    → Agrees c.export_id c.exports
    → Added client c r
    → refs_at x r.1 ≡ refs_at x c + (if x == r.0 then 1 else 0)
unfolding new_shared
Added-refs {client} {c} x h (again i e found) =
    let bound = found→lt c.exports i found in
    elim (Bool-cases (x == i)) [
      | inl same ↦
          let eq : x ≡ i = ground arith in
          let held : refs_at x c ≡ e.wire_refs = ap (λ y. refs_at y c) eq ∙ ap refs_of found in
          rw (find_slot-set c.exports i _ x bound, same) (omega (arith, held))
      | inr other ↦ rw (find_slot-set c.exports i _ x bound, other) (omega arith)
    ]
Added-refs {client} {c} x h (anew) =
    let p =
      put_slot_lem c.export_id c.exports
        (record {
          id = (next c.export_id).0;
          rc = length c.all_counts;
          ref = new_ref_count.0;
          wire_refs = 1;
        })
        h in
    elim (Bool-cases (x == (next c.export_id).0)) [
      | inl same ↦
          let eq : x ≡ (next c.export_id).0 = ground arith in
          let held : refs_at x c ≡ 0 = ap (λ y. refs_at y c) eq ∙ ap refs_of p.was_free in
          rw (p.finds x, same) (omega (arith, held))
      | inr other ↦ rw (p.finds x, other) (omega arith)
    ]

-- `addExport` gives an id whose export has one more reference on the wire than before, and it
-- changes no other export's count: an id that is given out anew had none.
pub add_export-refs :
    (client : Client) (x : ℕ) (c : Conn)
    → Agrees c.export_id c.exports
    → refs_at x (add_export client c).1
      ≡ refs_at x c + (if x == (add_export client c).0 then 1 else 0)
add_export-refs client x c h = Added-refs x h (add_export-Added client c)
