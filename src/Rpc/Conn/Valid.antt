-- ===== src/Rpc/Conn/Valid.antt =====
-- The invariant of the tables of questions and exports of src/rpc/conn.ts, and the operations on
-- tables that keep it.
pub mod Parts
pub mod Caps
pub mod Shutdown
pub mod Stages
pub mod Imports
pub mod Handlers
pub mod Dispatch
pub mod Reach
use capnp_es.Prelude.{
  ℕ, zero, suc, ◌+◌, ◌-◌, ◌<◌, ◌≡◌, refl, sym, ap, subst, ◌∙◌, ◌==◌, if◌then◌else◌, Bool, true,
  false, List, [], ◌∷◌, ◌++◌, length, get_elem?, set, Option, none, some, arith, inl, inr,
  Bool-cases, Option-cases,
}
use capnp_es.Rpc.IdGen.{IdGen, next, remove}
use capnp_es.Rpc.RefCount.{new_ref_count}
use capnp_es.Rpc.Slots.{find_slot, put_slot, Agrees, found→lt, find_slot-set}
use capnp_es.Rpc.Slots.Ids.{Put, put_slot_lem, clear-Agrees, write-Agrees}
use capnp_es.Rpc.Conn.Wire.{Fault}
use capnp_es.Rpc.Conn.State.{Client, Conn, Export, Outcome, throw, done_with, Action, ◌>>=◌, catch}
use capnp_es.Rpc.Conn.Questions.{new_question, find_question, pop_found, pop_question}
use capnp_es.Rpc.Conn.Exports.{
  find_export, write_refs, new_shared, add_export, release_found, release_export,
}
use capnp_es.Rpc.Conn.Exports.Counts.{
  SameTables, Released, ignored, lowered, dropped, release_found-Released,
}
use capnp_es.Rpc.Conn.Exports.Added.{Added, again, anew, add_export-Added}

-- The ids that can be given again are exactly those of the nulled entries, of questions and of
-- exports.
abbrev pub Valid : Conn → Type 0
Valid c = Agrees c.question_id c.questions × Agrees c.export_id c.exports

same-Agrees :
    {A : Type 0} (g g' : IdGen) (l l' : List (Option A))
    → g' ≡ g
    → l' ≡ l
    → Agrees g l
    → Agrees g' l'
same-Agrees g g' l l' p q a = subst (λ k. Agrees k l') (sym p) (subst (λ m. Agrees g m) (sym q) a)

pub Same-Valid : (c d : Conn) → SameTables c d → Valid c → Valid d
Same-Valid c d (q, qi, x, xi) (a, b) = (
  same-Agrees c.question_id d.question_id c.questions d.questions qi q a,
  same-Agrees c.export_id d.export_id c.exports d.exports xi x b,
)

pub SameTables-trans : (c d e : Conn) → SameTables c d → SameTables d e → SameTables c e
SameTables-trans c d e (a, b, x, y) (a', b', x', y') = (a' ∙ a, b' ∙ b, x' ∙ x, y' ∙ y)

pub new_question-Valid : (m : Option ℕ) (c : Conn) → Valid c → Valid (new_question m c).1
unfolding new_question
new_question-Valid m c (a, b) =
    ((put_slot_lem c.question_id c.questions (length c.all_questions) a).agrees, b)

pop_found-Valid :
    (id : ℕ) (o : Option ℕ) (c : Conn) → find_question id c ≡ o → Valid c → Valid (pop_found id o c)
unfolding pop_found
pop_found-Valid id none c f v = v
pop_found-Valid id (some q) c f (a, b) = (clear-Agrees c.question_id c.questions id f a, b)

pub pop_question-Valid : (id : ℕ) (c : Conn) → Valid c → Valid (pop_question id c).1
unfolding pop_question
pop_question-Valid id c v = pop_found-Valid id (find_question id c) c refl v

pub clear_export-Valid :
    (id : ℕ) {e : Export} (c d : Conn)
    → find_export id c ≡ some e
    → SameTables c d
    → Valid c
    → Valid (record d { exports = set d.exports id none; export_id = remove id d.export_id })
clear_export-Valid id c d f (q, qi, x, xi) (a, b) =
    Same-Valid (record c { exports = set c.exports id none; export_id = remove id c.export_id })
      (record d { exports = set d.exports id none; export_id = remove id d.export_id })
      (q, qi, ap (λ l. set l id none) x, ap (remove id) xi)
      (a, clear-Agrees c.export_id c.exports id f b)

Added-Valid : {client : Client} {c : Conn} {r : ℕ × Conn} → Added client c r → Valid c → Valid r.1
unfolding new_shared
Added-Valid {client} {c} (again i e f) (a, b) = (a, write-Agrees c.export_id c.exports i _ f b)
Added-Valid {client} {c} anew (a, b) =
    let e : Export = record {
      id = (next c.export_id).0;
      rc = length c.all_counts;
      ref = new_ref_count.0;
      wire_refs = 1;
    } in
    (a, (put_slot_lem c.export_id c.exports e b).agrees)

pub add_export-Valid : (client : Client) (c : Conn) → Valid c → Valid (add_export client c).1
add_export-Valid client c v = Added-Valid (add_export-Added client c) v

Released-Valid :
    {id refs : ℕ} {e : Export} {c d : Conn}
    → find_export id c ≡ some e
    → Released id refs e c d
    → Valid c
    → Valid d
Released-Valid f (ignored z) v = v
Released-Valid {id} {refs} {e} {c} f (lowered d s) (a, b) =
    Same-Valid (write_refs id e (e.wire_refs - refs) c) d s
      (a, write-Agrees c.export_id c.exports id _ f b)
Released-Valid {id} {refs} {e} {c} f (dropped d s l) (a, b) =
    let less : Conn = write_refs id e (e.wire_refs - refs) c in
    let there = found→lt c.exports id f in
    clear_export-Valid id {e = record e { wire_refs = e.wire_refs - refs }} less d
      (find_slot-set c.exports id (some (record e { wire_refs = e.wire_refs - refs })) id there
        ∙ ground arith)
      s (a, write-Agrees c.export_id c.exports id _ f b)

pub release_export-Valid : (id refs : ℕ) (c : Conn) → Valid c → Valid (release_export id refs c).1
unfolding release_export release_found
release_export-Valid id refs c v = elim (Option-cases (find_export id c)) [
  | inl missing ↦ rw missing v
  | inr (e, found) ↦ rw found (Released-Valid found (release_found-Released id refs e c) v)
]

-- An operation that keeps the invariant, whether it throws or not.
abbrev pub Keeps : {A : Type 0} → Action A → Type 0
Keeps m = (c : Conn) → Valid c → Valid (m c).1

pub bind-Keeps :
    {A B : Type 0} (m : Action A) (f : A → Action B)
    → Keeps m
    → ((a : A) → Keeps (f a))
    → Keeps (m >>= f)
unfolding ◌>>=◌
bind-Keeps {A} {B} m f k l c v = by_outcome (m c).0 (m c).1 (k c v)
  where
    by_outcome : (r : Outcome A) (d : Conn) → Valid d → Valid (((λ (_ : Conn). (r, d)) >>= f) d).1
    by_outcome (throw e) d w = w
    by_outcome (done_with a) d w = l a d w

pub catch-Keeps :
    {A : Type 0} (m : Action A) (h : Fault → Action A)
    → Keeps m
    → ((e : Fault) → Keeps (h e))
    → Keeps (catch m h)
unfolding catch
catch-Keeps {A} m h k l c v = by_outcome (m c).0 (m c).1 (k c v)
  where
    by_outcome : (r : Outcome A) (d : Conn) → Valid d → Valid (catch (λ (_ : Conn). (r, d)) h d).1
    by_outcome (throw e) d w = l e d w
    by_outcome (done_with a) d w = w
