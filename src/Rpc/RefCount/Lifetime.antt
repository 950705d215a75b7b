-- ===== src/Rpc/RefCount/Lifetime.antt =====
-- When the client of a reference counter (src/rpc/refcount.ts, src/rpc/ref.ts) is closed.
use capnp_es.Prelude.{
  ℕ, zero, suc, ◌+◌, ◌<◌, ◌≡◌, refl, ap, ◌∙◌, ◌==◌, if◌then◌else◌, Bool, true, false, List, [], ◌∷◌,
  ◌++◌, length, get_elem?, set, Option, none, some, arith,
}
use capnp_es.Errors.{rpc_zero_ref, ok, err}
use capnp_es.Rpc.RefCount.{RefCount, new_ref, new_ref_count, ref, decref, close_state, close}

abbrev pub open_refs : List Bool → ℕ
open_refs [] = 0
open_refs (c ∷ closed) = (if c then 0 else 1) + open_refs closed

-- The count is that of the open references, and the client was closed once if there are none, and
-- never before.
pub record Counted (rc : RefCount) : Type 0 where
  pub counted : rc.refs ≡ open_refs rc.closed
  pub closes : rc.client_closes ≡ (if rc.refs == 0 then 1 else 0)

-- What the holders of references do: take another one, or close one, perhaps again.
pub data Step : RefCount → RefCount → Type 0 where
  refer : {rc rc' : RefCount} {r : ℕ} → ref rc ≡ ok (r, rc') → Step rc rc'
  drop : {rc : RefCount} (r : ℕ) → Step rc (close r rc)

pub data Reach : RefCount → Type 0 where
  start : Reach new_ref_count.1
  step : {rc rc' : RefCount} → Reach rc → Step rc rc' → Reach rc'

open_refs-append : (closed : List Bool) → open_refs (closed ++ (false ∷ [])) ≡ open_refs closed + 1
open_refs-append [] = refl
open_refs-append (c ∷ closed) = omega (arith, open_refs-append closed)

open_refs-set :
    (closed : List Bool) (r : ℕ)
    → get_elem? closed r ≡ some false
    → open_refs (set closed r true) + 1 ≡ open_refs closed
open_refs-set [] r h = cc
open_refs-set (c ∷ closed) zero h = ground arith
open_refs-set (c ∷ closed) (suc r) h = omega (arith, open_refs-set closed r h)

ref-Counted : {rc rc' : RefCount} {r : ℕ} → Counted rc → ref rc ≡ ok (r, rc') → Counted rc'
unfolding ref new_ref
ref-Counted {rc} v e = ground (arith, open_refs-append rc.closed)

close_state-Counted :
    (o : Option Bool) (r : ℕ) (rc : RefCount)
    → get_elem? rc.closed r ≡ o
    → Counted rc
    → Counted (close_state o r rc)
unfolding close_state decref
close_state-Counted none r rc e v = v
close_state-Counted (some true) r rc e v = v
close_state-Counted (some false) r rc e v = ground (arith, open_refs-set rc.closed r e)

Step-Counted : {rc rc' : RefCount} → Step rc rc' → Counted rc → Counted rc'
unfolding close
Step-Counted (refer e) v = ref-Counted v e
Step-Counted (drop {rc} r) v = close_state-Counted (get_elem? rc.closed r) r rc refl v

-- In every state that references lead to, the count is that of the open references; the client has
-- been closed exactly once if none is open, and not at all otherwise.
pub Reach-Counted : {rc : RefCount} → Reach rc → Counted rc
unfolding new_ref_count
Reach-Counted start = omega arith
Reach-Counted (step r st) = Step-Counted st (Reach-Counted r)

-- `ref` throws exactly in the states in which no reference is open; otherwise it opens a new one.
pub ref-Reach :
    {rc : RefCount}
    → Reach rc
    → (open_refs rc.closed ≡ 0 → ref rc ≡ err rpc_zero_ref)
      × (0 < open_refs rc.closed
          → (rc' : RefCount) × (ref rc ≡ ok (length rc.closed, rc'))
            × (rc'.closed ≡ rc.closed ++ (false ∷ []))
            × (rc'.refs ≡ rc.refs + 1))
unfolding ref new_ref
ref-Reach {rc} r =
    let v = Reach-Counted r in
    (
      λ z. ground (arith, v.counted),
      λ p. (
        record rc { refs = rc.refs + 1; closed = rc.closed ++ (false ∷ []) },
        ground (arith, v.counted),
        refl,
        refl,
      ),
    )

closed-decref : (rc : RefCount) → (decref rc).closed ≡ rc.closed
unfolding decref
closed-decref rc = ground arith

get_elem?-set-true :
    (closed : List Bool) (r : ℕ)
    → get_elem? closed r ≡ some false
    → get_elem? (set closed r true) r ≡ some true
get_elem?-set-true [] r e = cc
get_elem?-set-true (c ∷ closed) zero e = refl
get_elem?-set-true (c ∷ closed) (suc r) e = get_elem?-set-true closed r e

close-close_state :
    (o : Option Bool) (r : ℕ) (rc : RefCount)
    → get_elem? rc.closed r ≡ o
    → close r (close_state o r rc) ≡ close_state o r rc
unfolding close close_state
close-close_state none r rc e = ap (λ o. close_state o r rc) e
close-close_state (some true) r rc e = ap (λ o. close_state o r rc) e
close-close_state (some false) r rc e =
    let rc' : RefCount = record rc { closed = set rc.closed r true } in
    ap (λ o. close_state o r (decref rc'))
      (ap (λ l. get_elem? l r) (closed-decref rc') ∙ get_elem?-set-true rc.closed r e)

-- Closing a reference again changes nothing, whatever the state: `close` and the finalizer do not
-- release it twice.
pub close_twice : (r : ℕ) (rc : RefCount) → close r (close r rc) ≡ close r rc
close_twice r rc = unfold close in close-close_state (get_elem? rc.closed r) r rc refl
