-- ===== src/Rpc/Conn/Exports/Counts.antt =====
-- The references that the peer holds on the exports of a connection (src/rpc/conn.ts): what
-- `addExport` and `releaseExport` do to them, as a function from ids to counts.
use capnp_es.Prelude.{
  length-set, ℕ, ◌-◌, ◌≤◌, ◌<◌, min, ◌≡◌, refl, sym, ap, ◌∙◌, ltb, ◌==◌, if◌then◌else◌, get_elem?,
  set, length, Option, none, some, arith, inl, inr, Bool-cases, Option-cases,
}
use capnp_es.Rpc.IdGen.{remove}
use capnp_es.Rpc.RefCount
use capnp_es.Rpc.Slots.{find_slot, found→lt, find_slot-set}
use capnp_es.Rpc.Conn.State.{Conn, Shared, Export, warn, emit, Outcome, throw, done_with}
use capnp_es.Rpc.Conn.Exports.{
  find_export, close_shared, close_ref, close_outcome, drop_closed, drop_export, write_refs,
  release_found, release_export,
}

abbrev pub refs_of : Option Export → ℕ
refs_of none = 0
refs_of (some e) = e.wire_refs

-- The references on the wire to the export of an id, 0 for an id that is not exported.
abbrev pub refs_at : ℕ → Conn → ℕ
refs_at x c = refs_of (find_export x c)

-- The tables of questions and exports are left as they are.
abbrev pub SameTables : Conn → Conn → Type 0
SameTables c d =
    (d.questions ≡ c.questions)
    × (d.question_id ≡ c.question_id)
    × (d.exports ≡ c.exports)
    × (d.export_id ≡ c.export_id)

close_shared-SameTables :
    (s : Option Shared) (rc r : ℕ) (c : Conn) → SameTables c (close_shared s rc r c)
unfolding close_shared
close_shared-SameTables none rc r c = (refl, refl, refl, refl)
close_shared-SameTables (some s) rc r c =
    elim (Bool-cases ((RefCount.close r s.count).client_closes == s.count.client_closes)) [
      | inl e ↦ rw e (refl, refl, refl, refl)
      | inr e ↦ rw e (refl, refl, refl, refl)
    ]

pub close_ref-SameTables : (rc r : ℕ) (c : Conn) → SameTables c (close_ref rc r c)
unfolding close_ref
close_ref-SameTables rc r c = close_shared-SameTables (get_elem? c.all_counts rc) rc r c

-- What `releaseExport` does to an export that it finds: nothing but a warning, lower its count, or
-- drop it as well.
pub data Released (id refs : ℕ) (e : Export) (c : Conn) : Conn → Type 0 where
  ignored : refs ≡ 0 → Released id refs e c (emit warn c)
  lowered :
      (d : Conn) → SameTables (write_refs id e (e.wire_refs - refs) c) d → Released id refs e c d
  dropped :
      (d : Conn)
      → SameTables (write_refs id e (e.wire_refs - refs) c) d
      → e.wire_refs ≤ refs
      → Released id refs e c
          (record d { exports = set d.exports id none; export_id = remove id d.export_id })

drop_closed-Released :
    (id refs : ℕ) (e : Export) (c d : Conn) (o : Outcome (Unit {0}))
    → SameTables (write_refs id e (e.wire_refs - refs) c) d
    → e.wire_refs ≤ refs
    → Released id refs e c (drop_closed id o d).1
unfolding drop_closed
drop_closed-Released id refs e c d (throw x) s l = lowered d s
drop_closed-Released id refs e c d (done_with x) s l = dropped d s l

drop_export-Released :
    (id refs : ℕ) (e : Export) (c d : Conn)
    → SameTables (write_refs id e (e.wire_refs - refs) c) d
    → e.wire_refs ≤ refs
    → Released id refs e c (drop_export id e d).1
unfolding drop_export
drop_export-Released id refs e c d (q, qi, x, xi) l =
    let (q', qi', x', xi') = close_ref-SameTables e.rc e.ref d in
    drop_closed-Released id refs e c (close_ref e.rc e.ref d)
      (close_outcome (get_elem? d.all_counts e.rc) e.ref d) (q' ∙ q, qi' ∙ qi, x' ∙ x, xi' ∙ xi) l

pub release_found-Released :
    (id refs : ℕ) (e : Export) (c : Conn)
    → Released id refs e c (release_found id refs (some e) c).1
unfolding release_found
release_found-Released id refs e c = elim (Bool-cases (refs == 0)) [
  | inl z ↦ rw z (ignored (ground arith))
  | inr n ↦
      let rest : e.wire_refs - min refs e.wire_refs ≡ e.wire_refs - refs = ground arith in
      elim (Bool-cases (ltb 0 (e.wire_refs - refs))) [
        | inl held ↦ rw (n, rest, held) (lowered _ (refl, refl, refl, refl))
        | inr gone ↦ rw (n, rest, gone) (drop (ground arith))
      ]
]
  where
    less : Conn
    less = write_refs id e (e.wire_refs - refs) c

    drop :
        e.wire_refs ≤ refs
        → Released id refs e c
            (drop_export id e (if ltb e.wire_refs refs then emit warn less else less)).1
    drop l = elim (Bool-cases (ltb e.wire_refs refs)) [
      | inl over ↦
          rw over (drop_export-Released id refs e c (emit warn less) (refl, refl, refl, refl) l)
      | inr exact ↦ rw exact (drop_export-Released id refs e c less (refl, refl, refl, refl) l)
    ]

refs_of-if :
    (x id : ℕ) (a b : Option Export)
    → refs_of (if x == id then a else b) ≡ (if x == id then refs_of a else refs_of b)
refs_of-if x id a b = elim (Bool-cases (x == id)) [ inl e ↦ rw e refl | inr e ↦ rw e refl ]

-- The count of the export of an id, once it is written.
refs_at-write_refs :
    (id refs : ℕ) (e : Export) (c : Conn) (x : ℕ)
    → find_export id c ≡ some e
    → refs_at x (write_refs id e (e.wire_refs - refs) c)
      ≡ (if x == id then refs_at x c - refs else refs_at x c)
refs_at-write_refs id refs e c x found =
    ap refs_of (
      find_slot-set c.exports id (some (record e { wire_refs = e.wire_refs - refs })) x
        (found→lt c.exports id found))
    ∙ refs_of-if x id _ _
    ∙ elim (Bool-cases (x == id)) [
      | inl same ↦
          let eq : x ≡ id = ground arith in
          rw same (ap (λ n. n - refs) (sym (ap (λ y. refs_at y c) eq ∙ ap refs_of found)))
      | inr other ↦ rw other refl
    ]

Released-refs :
    {id refs : ℕ} {e : Export} {c d : Conn} (x : ℕ)
    → find_export id c ≡ some e
    → Released id refs e c d
    → refs_at x d ≡ (if x == id then refs_at x c - refs else refs_at x c)
Released-refs {id} {refs} {e} {c} x found (ignored z) = ground arith
Released-refs {id} {refs} {e} {c} x found (lowered d (_, _, exports, _)) =
    ap (λ l. refs_of (find_slot l x)) exports ∙ refs_at-write_refs id refs e c x found
Released-refs {id} {refs} {e} {c} x found (dropped d (_, _, exports, _) l) =
    let less : Conn = write_refs id e (e.wire_refs - refs) c in
    let bound : id < length less.exports = omega (
      arith,
      found→lt c.exports id found,
      length-set c.exports id (some (record e { wire_refs = e.wire_refs - refs })),
    ) in
    ap (λ l. refs_of (find_slot l x)) (ap (λ l. set l id none) exports)
    ∙ ap refs_of (find_slot-set less.exports id none x bound)
    ∙ refs_of-if x id _ _
    ∙ same_id (refs_at-write_refs id refs e c x found)
  where
    less : Conn
    less = write_refs id e (e.wire_refs - refs) c

    same_id :
        refs_at x less ≡ (if x == id then refs_at x c - refs else refs_at x c)
        → (if x == id then 0 else refs_at x less)
          ≡ (if x == id then refs_at x c - refs else refs_at x c)
    same_id written = elim (Bool-cases (x == id)) [
      | inl same ↦
          let eq : x ≡ id = ground arith in
          let held : refs_at x c ≡ e.wire_refs = ap (λ y. refs_at y c) eq ∙ ap refs_of found in
          rw same (omega (arith, held))
      | inr other ↦
          rw other (written ∙ ap (λ b. if b then refs_at x c - refs else refs_at x c) other)
    ]

-- Whatever the id and the count, `releaseExport` takes the count off the references held on that
-- export, stopping at none, and changes no other export's, also where closing the client throws.
pub release_export-refs :
    (id refs x : ℕ) (c : Conn)
    → refs_at x (release_export id refs c).1 ≡ (if x == id then refs_at x c - refs else refs_at x c)
unfolding release_export
release_export-refs id refs x c = elim (Option-cases (find_export id c)) [
  | inl missing ↦ rw missing (absent missing)
  | inr (e, found) ↦ rw found (Released-refs x found (release_found-Released id refs e c))
]
  where
    absent :
        find_export id c ≡ none
        → refs_at x (release_found id refs none c).1
          ≡ (if x == id then refs_at x c - refs else refs_at x c)
    absent missing = elim (Bool-cases (x == id)) [
      | inl same ↦
          let eq : x ≡ id = ground arith in
          let held : refs_at x c ≡ 0 = ap (λ y. refs_at y c) eq ∙ ap refs_of missing in
          rw same (omega (arith, held))
      | inr other ↦ rw other refl
    ]
