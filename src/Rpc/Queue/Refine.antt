-- ===== src/Rpc/Queue/Refine.antt =====
-- A queue of src/rpc/queue.ts behaves as the list of the items that it holds, oldest first, of at
-- most `cap` items.
use capnp_es.Prelude.{
  suc, ◌+◌, ◌-◌, ◌%◌, ◌≤◌, ◌<◌, max, ◌≡◌, refl, sym, ap, ◌∙◌, true, false, List, [], ◌∷◌, ◌++◌, map,
  ne→==_false, length, length-map, length-set, set, none, some, arith,
}
use mathlib.Core.List.{map-append}
use native.Mathlib.Numerals.{add-one}
use capnp_es.Rpc.Queue.{Queue, push, front, pop, slot_at}
use capnp_es.Rpc.Queue.Ring.{window, length-window, window-push, window-front, window-clear}

module _ {A : Type 0} where
  -- The queue is well formed and its slots hold `items`, none of them null.
  pub record Holds (s : Queue A) (items : List A) : Type 0 where
    pub size : s.cap ≡ length s.q
    pub start_in : s.start < max 1 s.cap
    pub n_in : s.n ≤ s.cap
    pub slots : window s.q s.cap s.start s.n ≡ map some items

  pub length-Holds : {s : Queue A} {items : List A} → Holds s items → length items ≡ s.n
  length-Holds {s} {items} h =
      sym (length-map items some) ∙ ap length (sym h.slots) ∙ length-window s.q s.cap s.start s.n

  -- With room, `push` reserves the slot behind the items, and a write to it appends.
  pub push-room :
      (s : Queue A)
      → s.n < s.cap
      → push s ≡ (some ((s.start + s.n) % s.cap), record s { n = s.n + 1 })
  unfolding push
  push-room s room = ground arith

  pub push_full : (s : Queue A) → s.cap ≤ s.n → push s ≡ (none, s)
  unfolding push
  push_full s full = ground arith

  pub push-Holds :
      {s : Queue A} {items : List A} (item : A)
      → Holds s items
      → s.n < s.cap
      → Holds
          (record s { q = set s.q ((s.start + s.n) % s.cap) (some item); n = s.n + 1 })
          (items ++ (item ∷ []))
  push-Holds {s} {items} item h room = record {
    size = h.size ∙ sym (length-set s.q ((s.start + s.n) % s.cap) (some item));
    start_in = h.start_in;
    n_in = omega arith;
    slots =
        ap (window (set s.q ((s.start + s.n) % s.cap) (some item)) s.cap s.start) (add-one s.n)
        ∙ window-push s.q s.cap s.start s.n (some item) h.size (omega (arith, h.start_in)) room
        ∙ ap (λ l. l ++ (some item ∷ [])) h.slots
        ∙ sym (map-append some items (item ∷ []));
  }

  -- Behind the front of a queue that is not empty are the other items.
  window_of_pos :
      (s : Queue A)
      → 0 < s.n
      → s.start < s.cap
      → window s.q s.cap s.start s.n
        ≡ slot_at s.q s.start ∷ window s.q s.cap ((s.start + 1) % s.cap) (s.n - 1)
  window_of_pos s h hs =
      let e : s.n ≡ suc (s.n - 1) = omega arith in
      ap (window s.q s.cap s.start) e ∙ window-front s.q s.cap s.start (s.n - 1) hs

  module _ {s : Queue A} {item : A} {items : List A} (h : Holds s (item ∷ items)) where
    pub n-pos : 0 < s.n
    n-pos = omega (arith, length-Holds h)

    both :
        slot_at s.q s.start ∷ window s.q s.cap ((s.start + 1) % s.cap) (s.n - 1)
        ≡ some item ∷ map some items
    both = sym (window_of_pos s n-pos (omega (arith, h.start_in, h.n_in, n-pos))) ∙ h.slots

    pub front_lem : (front s ≡ some s.start) × (slot_at s.q s.start ≡ some item)
    unfolding front
    front_lem = (ground (arith, n-pos), cc both)

    pub pop-Holds : ((pop s).0 ≡ true) × Holds (pop s).1 items
    unfolding pop
    pop-Holds = rw (ne→==_false s.n 0 (omega (arith, n-pos))) (
      refl,
      record {
        size = h.size ∙ sym (length-set s.q s.start none);
        start_in = omega (arith, n-pos, h.n_in);
        n_in = omega (arith, h.n_in);
        slots =
            window-clear s.q s.cap s.start (s.n - 1) none (omega (arith, h.start_in, h.n_in, n-pos))
              (omega (arith, h.n_in, n-pos))
            ∙ cc both;
      },
    )

  pub pop-empty : {s : Queue A} → Holds s [] → (s.n ≡ 0) × (front s ≡ none) × (pop s ≡ (false, s))
  unfolding front pop
  pop-empty h = let e = length-Holds h in (sym e, ground (arith, e), ground (arith, e))

  pub cap-pop : (s : Queue A) → (pop s).1.cap ≡ s.cap
  unfolding pop
  cap-pop s = ground arith
