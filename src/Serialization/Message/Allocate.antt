-- ===== src/Serialization/Message/Allocate.antt =====
-- What `Segment.allocate` (src/serialization/segment.ts) does to a valid message.
use capnp_es.Prelude.{
  ℕ, zero, suc, ◌+◌, ◌-◌, ◌%◌, ◌^◌, max, ◌≤◌, ◌<◌, ◌≡◌, refl, sym, ap, ◌∙◌, subst, Bool-cases, inl,
  inr, true, false, List, [], ◌∷◌, ◌++◌, length, length-append, length-replicate, length-map,
  get_elem?, set, take, none, some, arith,
}
use mathlib.Core.List.{map-append}
use capnp_es.Prelude.Slices.{All-append}
use capnp_es.Errors.{Result, ok}
use capnp_es.Serialization.Word.{pad_to_word}
use capnp_es.Serialization.Arena.{
  Buffer, Heap, buffer_at, zeros, AnyArena, multi_segment, single_segment,
}
use capnp_es.Serialization.Message.{Segment, Message, capacity, has_capacity, allocate_in}
use capnp_es.Serialization.Message.Heaps.{
  buffer_at_last, get_elem?_last, get_elem?-length, set_last, get_elem?-set_same, map-set, All-set,
  All-get_elem?, take-append_of_le,
}
use capnp_es.Serialization.Message.Valid.{
  InHeap, IsValid, Kept, All-InHeap-append, Kept-append, Kept-set,
}
use capnp_es.Serialization.Message.Grow.{
  take_bytes_lem, writable, allocate_in-room, allocate_in_full, fresh_segment,
  allocate_segment_multi, growth, grown, allocate_segment_single,
}

-- The bytes in use of a segment that may not be there yet.
abbrev pub used_of : List Segment → ℕ → ℕ
used_of segments id = elim (get_elem? segments id) [ none ↦ 0 | some s ↦ s.byte_length ]

-- An allocation that succeeded: the pointer, the message behind it, and the segment that the pointer
-- is into. The pointer is behind what was in use of the segment, which is now in use up to the end of
-- the new words.
pub record Allocated (m : Message) (size : ℕ) (r : Result ((ℕ × ℕ) × Message)) : Type 0 where
  pub id : ℕ
  pub offset : ℕ
  pub after : Message
  pub into : Segment
  pub run : r ≡ ok ((id, offset), after)
  pub valid : IsValid after
  pub kept : Kept m.heap after.heap m.segments after.segments
  pub found : get_elem? after.segments id ≡ some into
  pub behind : offset ≡ used_of m.segments id
  pub region : offset + pad_to_word size ≡ into.byte_length
  pub still_writable : after.readonly ≡ m.readonly

-- There is room in the segment.
in_place :
    (id size : ℕ) (h : Heap) (a : AnyArena) (segments : List Segment) {s : Segment}
    → size < 2 ^ 31 - 7
    → IsValid (writable h a segments)
    → get_elem? segments id ≡ some s
    → has_capacity h s (pad_to_word size) ≡ true
    → Allocated (writable h a segments) size (allocate_in id size (writable h a segments))
in_place id size h a segments {s} small v e room =
    let i : InHeap h s = All-get_elem? (InHeap h) segments id v.in_heaps e in
    let s' : Segment = record s { byte_length = s.byte_length + pad_to_word size } in
    record {
      id = id;
      offset = s.byte_length;
      after = writable h a (set segments id s');
      into = s';
      run =
          allocate_in-room id size h a segments small e room
          ∙ take_bytes_lem id _ (writable h a segments) e;
      valid = record {
        linked = map-set (λ s. s.buffer) segments id s' e refl ∙ v.linked;
        in_heaps = All-set (InHeap h) segments id s' v.in_heaps (record {
          in_heap = i.in_heap;
          aligned = i.aligned;
          whole = omega (arith, i.whole);
          inside = ground (arith, room);
        });
      };
      kept = Kept-set h segments id (pad_to_word size) e;
      found = get_elem?-set_same segments id s' e;
      behind = ap (λ o. elim o [ none ↦ 0 | some t ↦ t.byte_length ]) (sym e);
      region = refl;
      still_writable = refl;
    }

-- A multi segment arena grows by a buffer, in which the new segment starts.
in_new_buffer :
    (id size : ℕ) (h : Heap) (buffers : List ℕ) (segments : List Segment) {s : Segment}
    → size < 2 ^ 31 - 7
    → IsValid (writable h (multi_segment buffers) segments)
    → get_elem? segments id ≡ some s
    → has_capacity h s (pad_to_word size) ≡ false
    → Allocated
        (writable h (multi_segment buffers) segments)
        size
        (allocate_in id size (writable h (multi_segment buffers) segments))
in_new_buffer id size h buffers segments {s} small v e full =
    let p : ℕ = pad_to_word size in
    let b : Buffer = zeros (pad_to_word (max p 256)) in
    let s' : Segment = record { buffer = length h; byte_length = 0 + p } in
    let more : List Segment = segments ++ (fresh_segment h ∷ []) in
    let next : Message =
      writable (h ++ (b ∷ [])) (multi_segment (buffers ++ (length h ∷ []))) more in
    let count : length buffers ≡ length segments =
      sym (ap length v.linked) ∙ length-map segments (λ s. s.buffer) in
    let size_b : length (buffer_at (h ++ (b ∷ [])) (length h)) ≡ pad_to_word (max p 256) =
      ap length (buffer_at_last h b) ∙ length-replicate (pad_to_word (max p 256)) zero in
    record {
      id = length segments;
      offset = 0;
      after = record next { segments = segments ++ (s' ∷ []) };
      into = s';
      run =
          allocate_in_full id size (length segments) h (multi_segment buffers) segments next small e
            full (allocate_segment_multi p h buffers segments count)
          ∙ take_bytes_lem (length segments) p next (get_elem?_last segments (fresh_segment h))
          ∙ ap (λ l. ok ((length segments, 0), record next { segments = l }))
              (set_last segments (fresh_segment h) s');
      valid = record {
        linked =
            map-append (λ s. s.buffer) segments (s' ∷ []) ∙ ap (λ l. l ++ (length h ∷ [])) v.linked;
        in_heaps =
            All-append (InHeap (h ++ (b ∷ []))) segments (s' ∷ [])
              (All-InHeap-append h b segments v.in_heaps)
              (
                record {
                  in_heap = omega (arith, length-append h (b ∷ []));
                  aligned = omega (arith, size_b);
                  whole = omega arith;
                  inside = omega (arith, size_b);
                },
                tt,
              );
      };
      kept = Kept-append h b segments (s' ∷ []) v.in_heaps;
      found = get_elem?_last segments s';
      behind =
          ap (λ o. elim o [ none ↦ 0 | some t ↦ t.byte_length ]) (sym (get_elem?-length segments));
      region = refl;
      still_writable = refl;
    }

-- The buffer of a single segment arena is replaced by a longer one, which the segment moves to.
in_longer_buffer :
    (id size : ℕ) (h : Heap) (r : ℕ) (segments : List Segment) {s : Segment}
    → size < 2 ^ 31 - 7
    → IsValid (writable h (single_segment r) segments)
    → get_elem? segments id ≡ some s
    → has_capacity h s (pad_to_word size) ≡ false
    → Allocated
        (writable h (single_segment r) segments)
        size
        (allocate_in id size (writable h (single_segment r) segments))
in_longer_buffer id size h r [] small v e full = absurd (cc e)
in_longer_buffer (suc id) size h r (t ∷ []) small v e full = absurd (cc e)
in_longer_buffer id size h r (t ∷ u ∷ segments) small v e full = absurd (cc v.linked)
in_longer_buffer zero size h r (t ∷ []) {s} small v e full =
    let p : ℕ = pad_to_word size in
    let i : InHeap h t = v.in_heaps.0 in
    let b : Buffer = grown p h t in
    let moved : Segment = record t { buffer = length h } in
    let t' : Segment = record moved { byte_length = t.byte_length + p } in
    let next : Message = writable (h ++ (b ∷ [])) (single_segment (length h)) (moved ∷ []) in
    let size_b : length (buffer_at (h ++ (b ∷ [])) (length h)) ≡ capacity h t + growth p =
      ap length (buffer_at_last h b)
      ∙ length-append (buffer_at h t.buffer) (zeros (growth p))
      ∙ ap (λ k. capacity h t + k) (length-replicate (growth p) zero) in
    let enough : p ≤ growth p = ground arith in
    let even : growth p % 8 ≡ 0 = ground arith in
    record {
      id = 0;
      offset = t.byte_length;
      after = record next { segments = t' ∷ [] };
      into = t';
      run =
          allocate_in_full 0 size 0 h (single_segment r) (t ∷ []) next small e full
            (allocate_segment_single p h r t i)
          ∙ take_bytes_lem 0 p next refl;
      valid = record {
        linked = refl;
        in_heaps = (
          record {
            in_heap = omega (arith, length-append h (b ∷ []));
            aligned = omega (arith, size_b, even, i.aligned);
            whole = omega (arith, i.whole);
            inside = omega (arith, size_b, enough, i.inside);
          },
          tt,
        );
      };
      kept = (
        omega arith,
        ap (take t.byte_length) (buffer_at_last h b)
            ∙ take-append_of_le t.byte_length (buffer_at h t.buffer) (zeros (growth p)) i.inside,
        tt,
      );
      found = refl;
      behind = refl;
      region = refl;
      still_writable = refl;
    }

in_full :
    (id size : ℕ) (h : Heap) (a : AnyArena) (segments : List Segment) {s : Segment}
    → size < 2 ^ 31 - 7
    → IsValid (writable h a segments)
    → get_elem? segments id ≡ some s
    → has_capacity h s (pad_to_word size) ≡ false
    → Allocated (writable h a segments) size (allocate_in id size (writable h a segments))
in_full id size h (multi_segment buffers) segments small v e full =
    in_new_buffer id size h buffers segments small v e full
in_full id size h (single_segment r) segments small v e full =
    in_longer_buffer id size h r segments small v e full

-- In a message that may be written and whose segments stand on the buffers of its arena,
-- `Segment.allocate` of fewer than 2 ^ 31 - 7 bytes succeeds, for a segment that has room and, in both
-- kinds of arena, for one that has none. The message stays valid, all bytes that segments used stay as
-- they were, and the pointer is to words behind them, as many as the bytes asked for need.
pub allocate_in-Allocated :
    (id size : ℕ) (m : Message) {s : Segment}
    → IsValid m
    → m.readonly ≡ false
    → get_elem? m.segments id ≡ some s
    → size < 2 ^ 31 - 7
    → Allocated m size (allocate_in id size m)
allocate_in-Allocated id size m {s} v w e small =
    subst
      (λ b.
        Allocated (record m { readonly = b }) size
          (allocate_in id size (record m { readonly = b })))
      (sym w)
      (elim (Bool-cases (has_capacity m.heap s (pad_to_word size))) [
        | inl room ↦
            in_place id size m.heap m.arena m.segments small
              (record { linked = v.linked; in_heaps = v.in_heaps }) e room
        | inr full ↦
            in_full id size m.heap m.arena m.segments small
              (record { linked = v.linked; in_heaps = v.in_heaps }) e full
      ])
