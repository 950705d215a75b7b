-- ===== src/Rpc/IdGen.antt =====
-- src/rpc/idgen.ts: ids that grow by one, and that are given out again once they are removed.
use capnp_es.Prelude.{
  ℕ, ◌+◌, ◌<◌, ◌≡◌, ◌≢◌, refl, ◌==◌, ltb, if◌then◌else◌, List, [], ◌∷◌, length, arith,
}

-- `free` is a stack, its top first.
pub record IdGen : Type 0 where
  pub i : ℕ
  pub free : List ℕ

unfoldable pub new_id_gen : IdGen
new_id_gen = record { i = 0; free = [] }

-- `this.free.pop() ?? this.i++`
unfoldable pub next_from : List ℕ → ℕ → ℕ × IdGen
next_from [] i = (i, record { i = i + 1; free = [] })
next_from (id ∷ free) i = (id, record { i = i; free = free })

unfoldable pub next : IdGen → ℕ × IdGen
unfolding next_from
next g = next_from g.free g.i

unfoldable pub remove : ℕ → IdGen → IdGen
remove id g = record g { free = id ∷ g.free }

abbrev pub count : ℕ → List ℕ → ℕ
count x [] = 0
count x (y ∷ l) = (if y == x then 1 else 0) + count x l

abbrev pub erase : ℕ → List ℕ → List ℕ
erase x [] = []
erase x (y ∷ l) = let rest = erase x l in if y == x then l else y ∷ rest

-- Each id below `i` is free or live, and that once; no other id is either.
abbrev pub Partition : IdGen → List ℕ → Type 0
Partition g live = (x : ℕ) → count x g.free + count x live ≡ (if ltb x g.i then 1 else 0)

-- What clients do: take an id, and remove one that is live.
pub data Step : IdGen × List ℕ → IdGen × List ℕ → Type 0 where
  take : {g : IdGen} {live : List ℕ} → Step (g, live) ((next g).1, (next g).0 ∷ live)
  give :
      {g : IdGen} {live : List ℕ} (id : ℕ)
      → count id live ≡ 1
      → Step (g, live) (remove id g, erase id live)

pub data Reach : IdGen × List ℕ → Type 0 where
  start : Reach (new_id_gen, [])
  step : {s t : IdGen × List ℕ} → Reach s → Step s t → Reach t

next_from-Partition :
    (free : List ℕ) (i : ℕ) (live : List ℕ)
    → Partition (record { i = i; free = free }) live
    → Partition (next_from free i).1 ((next_from free i).0 ∷ live)
unfolding next_from
next_from-Partition [] i live h x = ground (arith, h x)
next_from-Partition (id ∷ free) i live h x = ground (arith, h x)

count-erase :
    (x id : ℕ) (l : List ℕ)
    → count id l ≡ 1
    → count x (erase id l) + (if id == x then 1 else 0) ≡ count x l
count-erase x id [] h = absurd (omega arith)
count-erase x id (y ∷ l) h = ground (arith, count-erase x id l)

Step-Partition : {s t : IdGen × List ℕ} → Step s t → Partition s.0 s.1 → Partition t.0 t.1
unfolding next remove
Step-Partition (take {g} {live}) h x = next_from-Partition g.free g.i live h x
Step-Partition (give {g} {live} id c) h x = ground (arith, h x, count-erase x id live c)

-- After any sequence of steps each id below the counter is free or live, and that once.
pub Reach-Partition : {s : IdGen × List ℕ} → Reach s → Partition s.0 s.1
unfolding new_id_gen
Reach-Partition start x = ground arith
Reach-Partition (step r st) x = Step-Partition st (Reach-Partition r) x

length-erase : (id : ℕ) (l : List ℕ) → count id l ≡ 1 → length (erase id l) + 1 ≡ length l
length-erase id [] h = absurd (omega arith)
length-erase id (y ∷ l) h = ground (arith, length-erase id l)

-- An id that `next` gives in a state that clients can reach is not live, and it is a new one only
-- if no removed id is left.
pub next_fresh :
    {g : IdGen} {live : List ℕ}
    → Reach (g, live)
    → (count (next g).0 live ≡ 0) × (g.free ≢ [] → (next g).0 < g.i)
unfolding next
next_fresh {g} {live} r = fresh g.free g.i live (Reach-Partition r)
  where
    fresh :
        (free : List ℕ) (i : ℕ) (live : List ℕ)
        → Partition (record { i = i; free = free }) live
        → (count (next_from free i).0 live ≡ 0) × (free ≢ [] → (next_from free i).0 < i)
    fresh [] i live h = (ground (arith, h i), λ n. absurd (n refl))
    fresh (id ∷ free) i live h = (ground (arith, h id), λ n. ground (arith, h id))

next_from-size :
    (free : List ℕ) (i n : ℕ)
    → i ≡ length free + n
    → (next_from free i).1.i ≡ length (next_from free i).1.free + (n + 1)
unfolding next_from
next_from-size [] i n h = omega arith
next_from-size (id ∷ free) i n h = omega arith

Step-size :
    {s t : IdGen × List ℕ}
    → Step s t
    → s.0.i ≡ length s.0.free + length s.1
    → t.0.i ≡ length t.0.free + length t.1
unfolding next remove
Step-size (take {g} {live}) h = omega (arith, next_from-size g.free g.i (length live) h)
Step-size (give {g} {live} id c) h = omega (arith, length-erase id live c)

-- The counter is the number of ids that are free or live, so that it grows only when every id below
-- it is live.
pub Reach-size : {s : IdGen × List ℕ} → Reach s → s.0.i ≡ length s.0.free + length s.1
unfolding new_id_gen
Reach-size start = omega arith
Reach-size (step r st) = Step-size st (Reach-size r)
