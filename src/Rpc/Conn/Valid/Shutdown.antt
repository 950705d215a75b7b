-- ===== src/Rpc/Conn/Valid/Shutdown.antt =====
-- The invariant of the tables through `shutdown` and `abortForProtocolError` of src/rpc/conn.ts,
-- whose loops null the entries one by one; afterwards no question and no export is left.
use capnp_es.Prelude.{
  ℕ, zero, suc, ◌+◌, ◌<◌, ◌≡◌, refl, sym, ap, subst, ◌∙◌, ◌==◌, if◌then◌else◌, false, List, [], ◌∷◌,
  length, get_elem?, set, Option, none, some, arith, inl, inr, Bool-cases, length-set,
}
use capnp_es.Rpc.IdGen.{remove}
use capnp_es.Rpc.Slots.{find_slot, find_slot-set}
use capnp_es.Rpc.Slots.Ids.{clear-Agrees}
use capnp_es.Rpc.Conn.Wire.{Fault}
use capnp_es.Rpc.Conn.State.{Conn, Question, Export}
use capnp_es.Rpc.Conn.Questions.{is_in_progress, reject_object, reject_question}
use capnp_es.Rpc.Conn.Exports.{close_ref}
use capnp_es.Rpc.Conn.Exports.Counts.{SameTables, close_ref-SameTables}
use capnp_es.Rpc.Conn.Shutdown.{reject_if_pending, shut_questions, shut_exports}
use capnp_es.Rpc.Conn.Valid.{Valid, Same-Valid, clear_export-Valid}

reject_object-SameTables :
    (o : Option Question) (q : ℕ) (e : Fault) (c : Conn) → SameTables c (reject_object o q e c).1
unfolding reject_object
reject_object-SameTables none q e c = (refl, refl, refl, refl)
reject_object-SameTables (some o) q e c = elim (Bool-cases (is_in_progress o.state)) [
  | inl p ↦ rw p (refl, refl, refl, refl)
  | inr p ↦ rw p (refl, refl, refl, refl)
]

pub reject_if_pending-SameTables :
    (q : ℕ) (e : Fault) (c : Conn) → SameTables c (reject_if_pending q e c)
unfolding reject_if_pending reject_question
reject_if_pending-SameTables q e c = reject_object-SameTables (get_elem? c.all_questions q) q e c

-- `slots` is the rest of `all` from index `i` on.
abbrev pub RestFrom : {A : Type 0} → ℕ → List (Option A) → List (Option A) → Type 0
RestFrom i slots all =
    (length all ≡ i + length slots) × ((k x : ℕ) → x ≡ i + k → find_slot all x ≡ find_slot slots k)

pub start-RestFrom : {A : Type 0} (all : List (Option A)) → RestFrom 0 all all
start-RestFrom all = (omega arith, λ k x p. ap (find_slot all) (omega (arith, p)))

next-RestFrom :
    {A : Type 0} (i : ℕ) (s : Option A) (slots all : List (Option A))
    → RestFrom i (s ∷ slots) all
    → RestFrom (i + 1) slots all
next-RestFrom i s slots all (n, h) = (omega (arith, n), λ k x e. h (suc k) x (omega (arith, e)))

cleared-RestFrom :
    {A : Type 0} (i : ℕ) (s : Option A) (slots all : List (Option A))
    → RestFrom i (s ∷ slots) all
    → RestFrom (i + 1) slots (set all i none)
cleared-RestFrom i s slots all (n, h) = (
  omega (arith, n, length-set all i none),
  λ k x e.
      find_slot-set all i none x (omega (arith, n))
      ∙ ap (λ b. if b then none else find_slot all x) (apart k x e)
      ∙ h (suc k) x (omega (arith, e)),
)
  where
    apart : (k x : ℕ) → x ≡ i + 1 + k → (x == i) ≡ false
    apart k x e = ground (arith, e)

-- All slots below `i` are null.
abbrev pub NullBelow : {A : Type 0} → ℕ → List (Option A) → Type 0
NullBelow i all = (x : ℕ) → x < i → find_slot all x ≡ none

cleared-NullBelow :
    {A : Type 0} (i : ℕ) (all : List (Option A))
    → i < length all
    → NullBelow i all
    → NullBelow (i + 1) (set all i none)
cleared-NullBelow i all l h x p = elim (Bool-cases (x == i)) [
  | inl same ↦ find_slot-set all i none x l ∙ ap (λ b. if b then none else find_slot all x) same
  | inr other ↦
      find_slot-set all i none x l
      ∙ ap (λ b. if b then none else find_slot all x) other
      ∙ h x (ground (arith, p, other))
]

beyond :
    {A : Type 0} (all : List (Option A)) (x : ℕ)
    → length all ≡ x + 0
    → NullBelow x all
    → (y : ℕ) → find_slot all y ≡ none
beyond [] x n h y = refl
beyond (s ∷ all) x n h zero = h zero (omega (arith, n))
beyond (s ∷ all) zero n h (suc y) = absurd (omega (arith, n))
beyond (s ∷ all) (suc x) n h (suc y) =
    beyond all x (omega (arith, n)) (λ z p. h (suc z) (omega (arith, p))) y

-- The questions after the loop, and the invariant.
pub shut_questions-Valid :
    (i : ℕ) (slots : List (Option ℕ)) (e : Fault) (c : Conn)
    → RestFrom i slots c.questions
    → NullBelow i c.questions
    → Valid c
    → Valid (shut_questions i slots e c)
      × ((x : ℕ) → find_slot (shut_questions i slots e c).questions x ≡ none)
      × ((shut_questions i slots e c).exports ≡ c.exports)
unfolding shut_questions
shut_questions-Valid i [] e c (n, h) b v = (v, beyond c.questions i n b, refl)
shut_questions-Valid i (none ∷ slots) e c (n, h) b v =
    shut_questions-Valid (i + 1) slots e c (next-RestFrom i none slots c.questions (n, h)) below v
  where
    below : NullBelow (i + 1) c.questions
    below x p = elim (Bool-cases (x == i)) [
      | inl same ↦ h zero x (ground (arith, same))
      | inr other ↦ b x (ground (arith, p, other))
    ]
shut_questions-Valid i (some q ∷ slots) e c (n, h) b (qs, es) =
    let d = reject_if_pending q e c in
    let (eq, eqi, ex, exi) = reject_if_pending-SameTables q e c in
    let found : find_slot c.questions i ≡ some q = h zero i (omega arith) in
    let c' : Conn = record d {
      questions = set d.questions i none;
      question_id = remove i d.question_id;
    } in
    let plain : Conn = record c {
      questions = set c.questions i none;
      question_id = remove i c.question_id;
    } in
    let same : SameTables plain c' = (ap (λ l. set l i none) eq, ap (remove i) eqi, ex, exi) in
    let (v', f, x) =
      shut_questions-Valid (i + 1) slots e c'
        (subst (RestFrom (i + 1) slots) (sym same.0)
          (cleared-RestFrom i (some q) slots c.questions (n, h)))
        (subst (NullBelow (i + 1)) (sym same.0)
          (cleared-NullBelow i c.questions (omega (arith, n)) b))
        (Same-Valid plain c' same (clear-Agrees c.question_id c.questions i found qs, es)) in
    (v', f, x ∙ ex)

pub shut_exports-Valid :
    (i : ℕ) (slots : List (Option Export)) (c : Conn)
    → RestFrom i slots c.exports
    → NullBelow i c.exports
    → Valid c
    → Valid (shut_exports i slots c)
      × ((x : ℕ) → find_slot (shut_exports i slots c).exports x ≡ none)
      × ((shut_exports i slots c).questions ≡ c.questions)
unfolding shut_exports
shut_exports-Valid i [] c (n, h) b v = (v, beyond c.exports i n b, refl)
shut_exports-Valid i (none ∷ slots) c (n, h) b v =
    shut_exports-Valid (i + 1) slots c (next-RestFrom i none slots c.exports (n, h)) below v
  where
    below : NullBelow (i + 1) c.exports
    below x p = elim (Bool-cases (x == i)) [
      | inl same ↦ h zero x (ground (arith, same))
      | inr other ↦ b x (ground (arith, p, other))
    ]
shut_exports-Valid i (some e ∷ slots) c (n, h) b v =
    let d = close_ref e.rc e.ref c in
    let same : SameTables c d = close_ref-SameTables e.rc e.ref c in
    let found : find_slot c.exports i ≡ some e = h zero i (omega arith) in
    let c' : Conn = record d { exports = set d.exports i none; export_id = remove i d.export_id } in
    let nulled : c'.exports ≡ set c.exports i none = ap (λ l. set l i none) same.2 in
    let (v', f, x) =
      shut_exports-Valid (i + 1) slots c'
        (subst (RestFrom (i + 1) slots) (sym nulled)
          (cleared-RestFrom i (some e) slots c.exports (n, h)))
        (subst (NullBelow (i + 1)) (sym nulled)
          (cleared-NullBelow i c.exports (omega (arith, n)) b))
        (clear_export-Valid i c d found same v) in
    (v', f, x ∙ same.0)
