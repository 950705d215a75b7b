-- ===== src/Serialization/Message/Valid.antt =====
-- When the segments of a message (src/serialization/message.ts, segment.ts) fit its arena.
use capnp_es.Prelude.{
  ℕ, zero, suc, ◌+◌, ◌%◌, ◌≤◌, ◌<◌, ◌≡◌, refl, ap, subst, List, [], ◌∷◌, ◌++◌, map, length,
  length-append, get_elem?, set, take, some, arith,
}
use capnp_es.Prelude.Slices.{All}
use capnp_es.Serialization.Arena.{Buffer, Heap, buffer_at, AnyArena, multi_segment, single_segment}
use capnp_es.Serialization.Message.{Segment, Message, capacity}
use capnp_es.Serialization.Message.Heaps.{buffer_at-append}

-- The buffers of an arena.
abbrev pub buffers_of : AnyArena → List ℕ
buffers_of (multi_segment buffers) = buffers
buffers_of (single_segment r) = r ∷ []

-- A segment of whole words inside a buffer of whole words of the heap.
pub record InHeap (h : Heap) (s : Segment) : Type 0 where
  pub in_heap : s.buffer < length h
  pub aligned : capacity h s % 8 ≡ 0
  pub whole : s.byte_length % 8 ≡ 0
  pub inside : s.byte_length ≤ capacity h s

-- The segments stand on the buffers of the arena, one each and in the same order.
pub record IsValid (m : Message) : Type 0 where
  pub linked : map (λ s. s.buffer) m.segments ≡ buffers_of m.arena
  pub in_heaps : All (InHeap m.heap) m.segments

-- Each segment has a later one at its place, whose buffer starts with the bytes that the segment
-- used; there may be more segments behind them.
abbrev pub Kept : Heap → Heap → List Segment → List Segment → Type 0
Kept h h' [] later = Unit {0}
Kept h h' (s ∷ segments) [] = s.byte_length < 0
Kept h h' (s ∷ segments) (s' ∷ later) =
    (s.byte_length ≤ s'.byte_length)
    × (take s.byte_length (buffer_at h' s'.buffer) ≡ take s.byte_length (buffer_at h s.buffer))
    × Kept h h' segments later

pub InHeap-append : (h : Heap) (b : Buffer) (s : Segment) → InHeap h s → InHeap (h ++ (b ∷ [])) s
InHeap-append h b s i =
    let e : buffer_at (h ++ (b ∷ [])) s.buffer ≡ buffer_at h s.buffer =
      buffer_at-append h (b ∷ []) s.buffer i.in_heap in
    record {
      in_heap = omega (arith, i.in_heap, length-append h (b ∷ []));
      aligned = rw e i.aligned;
      whole = i.whole;
      inside = rw e i.inside;
    }

pub All-InHeap-append :
    (h : Heap) (b : Buffer) (segments : List Segment)
    → All (InHeap h) segments
    → All (InHeap (h ++ (b ∷ []))) segments
All-InHeap-append h b [] i = tt
All-InHeap-append h b (s ∷ segments) i =
    (InHeap-append h b s i.0, All-InHeap-append h b segments i.1)

pub Kept-append :
    (h : Heap) (b : Buffer) (segments more : List Segment)
    → All (InHeap h) segments
    → Kept h (h ++ (b ∷ [])) segments (segments ++ more)
Kept-append h b [] more i = tt
Kept-append h b (s ∷ segments) more i = (
  omega arith,
  ap (take s.byte_length) (buffer_at-append h (b ∷ []) s.buffer i.0.in_heap),
  Kept-append h b segments more i.1,
)

pub Kept-self : (h : Heap) (segments : List Segment) → Kept h h segments segments
Kept-self h [] = tt
Kept-self h (s ∷ segments) = (omega arith, refl, Kept-self h segments)

-- A segment that grows in place.
pub Kept-set :
    (h : Heap) (segments : List Segment) (id n : ℕ) {s : Segment}
    → get_elem? segments id ≡ some s
    → Kept h h segments (set segments id (record s { byte_length = s.byte_length + n }))
Kept-set h [] id n e = absurd (cc e)
Kept-set h (t ∷ segments) zero n {s} e =
    let k : t ≡ s = cc e in
    subst (λ s. Kept h h (t ∷ segments) (record s { byte_length = s.byte_length + n } ∷ segments)) k
      (omega arith, refl, Kept-self h segments)
Kept-set h (t ∷ segments) (suc id) n e = (omega arith, refl, Kept-set h segments id n e)
