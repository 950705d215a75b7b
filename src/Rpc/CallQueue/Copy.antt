-- ===== src/Rpc/CallQueue/Copy.antt =====
-- Building and copying a call queue (the constructor, `fromAnswerQCalls`, `snapshot` and `copy` of
-- src/rpc/call-queue.ts).
use capnp_es.Prelude.{
  ℕ, zero, suc, ◌+◌, ◌-◌, ◌%◌, ◌≤◌, ◌<◌, max, ◌≡◌, refl, sym, ap, ◌∙◌, List, [], ◌∷◌, ◌++◌, map,
  append-nil, append_assoc, length, length-append, length-map, length-replicate, take, replicate,
  Option, none, some, arith,
}
use capnp_es.Prelude.Slices.{set-append, take-append_at}
use native.Mathlib.Nat.{mod-eq_of_lt, add-zero, zero-add}
use capnp_es.Rpc.Queue.{new_queue, slot_at}
use capnp_es.Rpc.Queue.Ring.{window}
use capnp_es.Rpc.Queue.Refine.{length-Holds}
use capnp_es.Rpc.CallQueue.{Slot, CallQueue, fill, new_call_queue, snapshot_from, snapshot, copy}
use capnp_es.Rpc.CallQueue.Refine.{Waits}

length-snoc : {A : Type 0} (xs : List A) (x : A) → length xs + 1 ≡ length (xs ++ (x ∷ []))
length-snoc xs x = omega (arith, length-append xs (x ∷ []))

-- `fill` writes the slots one after the other, behind those before them.
fill-append :
    (initial : List Slot) (before : List (Option Slot)) (k : ℕ)
    → fill (length before) initial (before ++ replicate (length initial + k) none)
      ≡ before ++ (map some initial ++ replicate k none)
unfolding fill
fill-append [] before k = ap (λ (j : ℕ). before ++ replicate j none) (omega arith)
fill-append (slot ∷ initial) before k =
    let e : suc (length initial) + k ≡ suc (length initial + k) = omega arith in
    rw (e, set-append before none (replicate (length initial + k) none) (some slot))
      (ap (λ j. fill j initial (before ++ (some slot ∷ rest))) (length-snoc before (some slot))
        ∙ ap (fill (length (before ++ (some slot ∷ []))) initial)
            (sym (append_assoc before (some slot ∷ []) rest))
        ∙ fill-append initial (before ++ (some slot ∷ [])) k
        ∙ append_assoc before (some slot ∷ []) (map some initial ++ replicate k none))
  where
    rest : List (Option Slot)
    rest = replicate (length initial + k) none

-- A window from index 0 on is a prefix.
take-suc :
    {A : Type 0} (q : List (Option A)) (n : ℕ)
    → n < length q
    → take (suc n) q ≡ take n q ++ (slot_at q n ∷ [])
take-suc [] n h = absurd (omega arith)
take-suc (x ∷ q) zero h = refl
take-suc (x ∷ q) (suc n) h = ap (λ l. x ∷ l) (take-suc q n (omega arith))

window-zero :
    {A : Type 0} (q : List (Option A)) (cap n : ℕ)
    → cap ≡ length q
    → n ≤ cap
    → window q cap 0 n ≡ take n q
window-zero q cap zero e h = refl
window-zero q cap (suc n) e h =
    rw (window-zero q cap n e (omega arith), take-suc q n (omega arith))
      (ap (λ k. take n q ++ (slot_at q k ∷ [])) (ap (λ k. k % cap) (omega arith) ∙ mod-eq_of_lt h))

-- A new call queue has room for its calls, and they wait in it in their order.
pub new_call_queue-Waits :
    (cap : ℕ) (initial : List Slot)
    → Waits (new_call_queue cap initial) initial
      × ((new_call_queue cap initial).cap ≡ max cap (length initial))
unfolding new_call_queue new_queue
new_call_queue-Waits cap initial = rw slots (
  (
    sym size,
    record {
      size = refl;
      start_in = omega arith;
      n_in = omega (arith, size);
      slots =
          window-zero filled (length filled) (length initial) refl (omega (arith, size))
          ∙ take-append_at (length initial) (map some initial) (replicate k none)
              (length-map initial some);
    },
  ),
  refl,
)
  where
    null : Option Slot
    null = none

    k : ℕ
    k = max cap (length initial) - length initial

    filled : List (Option Slot)
    filled = map some initial ++ replicate k none

    slots : fill 0 initial (replicate (max cap (length initial)) none) ≡ filled
    slots =
        ap (λ (j : ℕ). fill 0 initial (replicate j none)) (omega arith) ∙ fill-append initial [] k

    size : length filled ≡ max cap (length initial)
    size = omega (
      arith,
      length-append (map some initial) (replicate k none),
      length-map initial some,
      length-replicate k null,
    )

-- The slots of the rounds of `snapshot`, and those of them that are not null.
abbrev rounds_from : CallQueue → ℕ → ℕ → List (Option Slot)
rounds_from c zero n = []
rounds_from c (suc rounds) n =
    slot_at c.q.q ((c.q.start + n) % c.q.cap) ∷ rounds_from c rounds (n + 1)

abbrev somes : List (Option Slot) → List Slot
somes [] = []
somes (none ∷ l) = somes l
somes (some slot ∷ l) = slot ∷ somes l

somes-map-some : (items : List Slot) → somes (map some items) ≡ items
somes-map-some [] = refl
somes-map-some (slot ∷ items) = ap (λ l. slot ∷ l) (somes-map-some items)

snapshot_from-somes :
    (c : CallQueue) (rounds n : ℕ) → snapshot_from rounds n c ≡ somes (rounds_from c rounds n)
unfolding snapshot_from
snapshot_from-somes c zero n = refl
snapshot_from-somes c (suc rounds) n = ground (arith, snapshot_from-somes c rounds (n + 1))

window-rounds_from :
    (c : CallQueue) (rounds n : ℕ)
    → window c.q.q c.q.cap c.q.start n ++ rounds_from c rounds n
      ≡ window c.q.q c.q.cap c.q.start (n + rounds)
window-rounds_from c zero n =
    append-nil (window c.q.q c.q.cap c.q.start n)
    ∙ ap (window c.q.q c.q.cap c.q.start) (sym (add-zero n))
window-rounds_from c (suc rounds) n =
    let e : n + suc rounds ≡ suc n + rounds = omega arith in
    let one : n + 1 ≡ suc n = omega arith in
    rw (one, e, ← window-rounds_from c rounds (suc n))
      (sym (append_assoc (window c.q.q c.q.cap c.q.start n) _ (rounds_from c rounds (suc n))))

-- `snapshot` lists the slots that wait.
pub snapshot_lem : {c : CallQueue} {items : List Slot} → Waits c items → snapshot c ≡ items
unfolding snapshot
snapshot_lem {c} {items} w =
    snapshot_from-somes c c.q.n 0
    ∙ ap somes (
        window-rounds_from c c.q.n 0
        ∙ ap (window c.q.q c.q.cap c.q.start) (zero-add c.q.n)
        ∙ w.1.slots)
    ∙ somes-map-some items

-- A copy holds the same slots as the original, in the same order, and has the same capacity.
pub copy-Waits :
    {c : CallQueue} {items : List Slot}
    → Waits c items
    → Waits (copy c) items × ((copy c).cap ≡ c.cap)
unfolding copy
copy-Waits {c} {items} w = rw (snapshot_lem w) (
    let (h, e) = new_call_queue-Waits c.cap items in
    (h, omega (arith, e, length-Holds w.1, w.1.n_in, w.0)))
