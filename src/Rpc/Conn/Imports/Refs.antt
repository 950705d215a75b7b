-- ===== src/Rpc/Conn/Imports/Refs.antt =====
-- The references that this side holds on the imports of a connection (src/rpc/conn.ts), and what
-- it gives back of them.
use capnp_es.Prelude.{
  ℕ, ◌+◌, ◌-◌, ◌<◌, min, ltb, ◌≡◌, ◌≢◌, refl, ap, ◌∙◌, ◌==◌, if◌then◌else◌, Bool, true, false, [],
  ◌∷◌, get_elem?, Option, none, some, arith, inl, inr, Bool-cases, Option-cases, Dict, lookup,
  lookup-insert, lookup-erase_key, ne→==_false, insert, erase_key,
}
use capnp_es.Errors.{Result, ok, err}
use capnp_es.Rpc.IdGen.{remove}
use capnp_es.Rpc.RefCount
use capnp_es.Rpc.RefCount.{RefCount}
use capnp_es.Rpc.Conn.Wire.{release}
use capnp_es.Rpc.Conn.State.{
  Client, server, import_client, ref_client, answer_client, error_client, pipeline_client, send,
  Conn, Shared, ImportEntry,
}
use capnp_es.Rpc.Conn.Exports.{new_shared, ref_counted, ref_shared, new_ref_to}
use capnp_es.Rpc.Conn.Imports.{
  import_new, add_import_found, add_import, clear_entries, clear_disembargo, clear_shared,
  drop_import, release_import_found, release_import, release_all_of, release_import_all,
}

abbrev pub import_refs_of : Option ImportEntry → ℕ
import_refs_of none = 0
import_refs_of (some e) = e.refs

-- The references held on the import of an id, 0 for an id that is not imported.
abbrev pub import_refs : ℕ → Conn → ℕ
import_refs x c = import_refs_of (lookup x c.imports)

ref_counted-imports :
    (s : Shared) (rc : ℕ) (r : Result (ℕ × RefCount)) (c : Conn)
    → (ref_counted s rc r c).1.imports ≡ c.imports
unfolding ref_counted
ref_counted-imports s rc (err e) c = refl
ref_counted-imports s rc (ok (r, count)) c = refl

ref_shared-imports :
    (s : Option Shared) (rc : ℕ) (c : Conn) → (ref_shared s rc c).1.imports ≡ c.imports
unfolding ref_shared
ref_shared-imports none rc c = refl
ref_shared-imports (some s) rc c = ref_counted-imports s rc (RefCount.ref s.count) c

refs-insert :
    (x id : ℕ) (e : ImportEntry) (d : Dict ImportEntry)
    → import_refs_of (lookup x (insert id e d))
      ≡ (if x == id then e.refs else import_refs_of (lookup x d))
refs-insert x id e d = elim (Bool-cases (x == id)) [
  | inl same ↦ rw (lookup-insert x id e d, same) refl
  | inr other ↦ rw (lookup-insert x id e d, other) refl
]

-- `addImport` counts one reference more on the import of the id, new or not, and no other's count
-- changes; that is so also where taking the reference throws.
pub add_import-refs :
    (id : ℕ) (p : Bool) (x : ℕ) (c : Conn)
    → import_refs x (add_import id p c).1 ≡ import_refs x c + (if x == id then 1 else 0)
unfolding add_import add_import_found import_new new_shared new_ref_to
add_import-refs id p x c = elim (Option-cases (lookup id c.imports)) [
  | inl missing ↦
      rw missing (refs-insert x id _ c.imports ∙ by_id 0 1 (ap import_refs_of missing) refl)
  | inr (e, found) ↦ rw found (
      ap (λ l. import_refs_of (lookup x l))
        (ref_shared-imports (get_elem? c.all_counts e.rc) e.rc _)
      ∙ refs-insert x id _ c.imports
      ∙ by_id e.refs (e.refs + 1) (ap import_refs_of found) refl)
]
  where
    by_id :
        (m n : ℕ)
        → import_refs id c ≡ m
        → n ≡ m + 1
        → (if x == id then n else import_refs x c) ≡ import_refs x c + (if x == id then 1 else 0)
    by_id m n held e = elim (Bool-cases (x == id)) [
      | inl same ↦
          let eq : x ≡ id = ground arith in
          let same_refs : import_refs x c ≡ import_refs id c = ap (λ y. import_refs y c) eq in
          rw same (omega (arith, held, e, same_refs))
      | inr other ↦ rw other (omega arith)
    ]

-- The imports and the log are left as they are.
abbrev Quiet : Conn → Conn → Type 0
Quiet c d = (d.imports ≡ c.imports) × (d.log ≡ c.log)

clear_entries-Quiet : (i : ℕ) (entries : Dict ℕ) (c : Conn) → Quiet c (clear_entries i entries c)
unfolding clear_entries
clear_entries-Quiet i [] c = (refl, refl)
clear_entries-Quiet i ((id, j) ∷ entries) c =
    let d : Conn =
      if j == i
      then record c {
        disembargoes = erase_key id c.disembargoes;
        disembargo_id = remove id c.disembargo_id;
      }
      else c in
    let (x, l) = clear_entries-Quiet i entries d in let (x', l') = one in (x ∙ x', l ∙ l')
  where
    one : Quiet c (
        if j == i
        then record c {
          disembargoes = erase_key id c.disembargoes;
          disembargo_id = remove id c.disembargo_id;
        }
        else c)
    one = elim (Bool-cases (j == i)) [ inl p ↦ rw p (refl, refl) | inr p ↦ rw p (refl, refl) ]

clear_disembargo-Quiet : (k : Client) (c : Conn) → Quiet c (clear_disembargo k c)
unfolding clear_disembargo
clear_disembargo-Quiet (import_client i) c = clear_entries-Quiet i c.disembargoes c
clear_disembargo-Quiet (server _) c = (refl, refl)
clear_disembargo-Quiet (ref_client _ _) c = (refl, refl)
clear_disembargo-Quiet (answer_client _ _ _) c = (refl, refl)
clear_disembargo-Quiet (error_client _ _) c = (refl, refl)
clear_disembargo-Quiet (pipeline_client _ _ _) c = (refl, refl)

clear_shared-Quiet : (s : Option Shared) (c : Conn) → Quiet c (clear_shared s c)
unfolding clear_shared
clear_shared-Quiet none c = (refl, refl)
clear_shared-Quiet (some s) c = clear_disembargo-Quiet s.client c

-- Closing an import gives back at once exactly the references that were counted on it, with one
-- `Release`; the import is gone, and every other one is left as it was.
pub release_import_all-Released :
    (id : ℕ) (e : ImportEntry) (c : Conn)
    → lookup id c.imports ≡ some e
    → 0 < e.refs
    → let d = release_import_all id c in
      (lookup id d.imports ≡ none)
      × ((x : ℕ) → x ≢ id → lookup x d.imports ≡ lookup x c.imports)
      × (d.log ≡ send (release id e.refs) ∷ c.log)
unfolding release_import_all release_all_of release_import release_import_found drop_import
release_import_all-Released id e c found held =
    let e' : ImportEntry = record e { refs = e.refs - e.refs } in
    let c' : Conn = record c { imports = insert id e' c.imports } in
    let (x, l) = clear_shared-Quiet (get_elem? c.all_counts e.rc) c' in
    let some_refs : (e.refs == 0) ≡ false = ground arith in
    let all : min e.refs e.refs ≡ e.refs = omega arith in
    let no_rest : ltb 0 (e.refs - e.refs) ≡ false = ground arith in
    let exact : ltb e.refs e.refs ≡ false = ground arith in
    let given : ltb 0 e.refs ≡ true = ground arith in
    rw (found, found, some_refs, all, no_rest, exact, given)
      (
        ap (λ d. lookup id (erase_key id d)) x ∙ lookup-erase_key id id c'.imports ∙ ground arith,
        λ y n.
            let apart : (y == id) ≡ false = ne→==_false y id n in
            ap (λ d. lookup y (erase_key id d)) x
            ∙ lookup-erase_key y id c'.imports
            ∙ ap (λ b. if b then none else lookup y c'.imports) apart
            ∙ lookup-insert y id e' c.imports
            ∙ ap (λ b. if b then some e' else lookup y c.imports) apart,
        ap (λ events. send (release id e.refs) ∷ events) l,
      )
