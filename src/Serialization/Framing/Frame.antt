-- ===== src/Serialization/Framing/Frame.antt =====
-- The bytes of a stream frame (`getStreamFrame` of src/serialization/message.ts), and reading a
-- number of four bytes back.
use capnp_es.Prelude.{
  ℕ, zero, suc, ◌+◌, ◌-◌, ◌*◌, ◌/◌, ◌%◌, ◌^◌, ◌<◌, ◌≡◌, refl, ap, ◌∙◌, leb, true, List, [], ◌∷◌,
  ◌++◌, append_assoc, length, length-append, length-replicate, arith,
}
use capnp_es.Prelude.Slices.{drop-append_at, replicate-add}
use capnp_es.Errors.{ok}
use capnp_es.Serialization.Arena.{zeros}
use capnp_es.Serialization.Message.{Segment}
use capnp_es.Serialization.Framing.{
  set_uint32, get_uint32, write_lengths, frame_length, get_stream_frame,
}

-- The four bytes of a number, the lowest first.
abbrev pub u32 : ℕ → List ℕ
u32 v = v % 256 ∷ v / 256 % 256 ∷ v / 65536 % 256 ∷ v / 16777216 % 256 ∷ []

set_uint32-cons :
    (x : ℕ) (out : List ℕ) (o v : ℕ) → set_uint32 (x ∷ out) (suc o) v ≡ x ∷ set_uint32 out o v
set_uint32-cons x out o v =
    let e1 : suc o + 1 ≡ suc (o + 1) = omega arith in
    let e2 : suc o + 2 ≡ suc (o + 2) = omega arith in
    let e3 : suc o + 3 ≡ suc (o + 3) = omega arith in rw (e1, e2, e3)

-- A number that is written over four bytes replaces them.
set_uint32-append :
    (pre post : List ℕ) (o v : ℕ)
    → length pre ≡ o
    → set_uint32 (pre ++ (0 ∷ 0 ∷ 0 ∷ 0 ∷ post)) o v ≡ pre ++ (u32 v ++ post)
set_uint32-append [] post o v e = rw (← e)
set_uint32-append (x ∷ pre) post zero v e = absurd (omega arith)
set_uint32-append (x ∷ pre) post (suc o) v e =
    set_uint32-cons x (pre ++ (0 ∷ 0 ∷ 0 ∷ 0 ∷ post)) o v
    ∙ ap (λ l. x ∷ l) (set_uint32-append pre post o v (omega arith))

-- The lengths of the segments in words, as they stand in the frame.
abbrev pub lengths : List Segment → List ℕ
lengths [] = []
lengths (s ∷ segments) = u32 (s.byte_length / 8) ++ lengths segments

pub length-lengths : (segments : List Segment) → length (lengths segments) ≡ length segments * 4
length-lengths [] = refl
length-lengths (s ∷ segments) = omega (arith, length-lengths segments)

write_lengths-append :
    (segments : List Segment) (pre post : List ℕ) (i : ℕ)
    → length pre ≡ i * 4 + 4
    → write_lengths i segments (pre ++ (zeros (length segments * 4) ++ post))
      ≡ pre ++ (lengths segments ++ post)
unfolding write_lengths
write_lengths-append [] pre post i e = refl
write_lengths-append (s ∷ segments) pre post i e =
    let four : suc (length segments) * 4 ≡ suc (suc (suc (suc (length segments * 4)))) =
      omega arith in
    let v = s.byte_length / 8 in
    rw
      (
        four,
        set_uint32-append pre (zeros (length segments * 4) ++ post) (i * 4 + 4) v e,
        ← append_assoc pre (u32 v) (zeros (length segments * 4) ++ post),
      )
      (write_lengths-append segments (pre ++ u32 v) post (i + 1)
          (omega (arith, length-append pre (u32 v)))
        ∙ append_assoc pre (u32 v) (lengths segments ++ post))

abbrev pub padding : ℕ → List ℕ
padding n = zeros ((1 - n % 2) * 4)

-- The frame is the number of segments less one, the lengths, and four zeros if it would end inside
-- a word.
pub get_stream_frame_lem :
    (s : Segment) (segments : List Segment)
    → get_stream_frame (s ∷ segments)
      ≡ u32 (length segments) ++ (lengths (s ∷ segments) ++ padding (suc (length segments)))
unfolding get_stream_frame
get_stream_frame_lem s segments =
    ap (λ z. write_lengths 0 (s ∷ segments) (set_uint32 z 0 (n - 1))) room
    ∙ ap (write_lengths 0 (s ∷ segments))
        (set_uint32-append [] (zeros (n * 4) ++ padding n) 0 (n - 1) refl)
    ∙ write_lengths-append (s ∷ segments) (u32 (n - 1)) (padding n) 0 refl
    ∙ ap (λ v. u32 v ++ (lengths (s ∷ segments) ++ padding n)) pred
  where
    n : ℕ
    n = suc (length segments)

    pred : n - 1 ≡ length segments
    pred = omega arith

    room : zeros (frame_length n) ≡ 0 ∷ 0 ∷ 0 ∷ 0 ∷ (zeros (n * 4) ++ padding n)
    room =
        ap zeros (omega arith)
        ∙ replicate-add 4 (n * 4 + (1 - n % 2) * 4) zero
        ∙ ap (λ l. 0 ∷ 0 ∷ 0 ∷ 0 ∷ l) (replicate-add (n * 4) ((1 - n % 2) * 4) zero)

-- The frame ends with a word.
pub length-get_stream_frame :
    (s : Segment) (segments : List Segment)
    → (length (get_stream_frame (s ∷ segments)) ≡ frame_length (suc (length segments)))
      × (length (get_stream_frame (s ∷ segments)) % 8 ≡ 0)
length-get_stream_frame s segments =
    let n = suc (length segments) in
    let e : length (get_stream_frame (s ∷ segments)) ≡ frame_length n =
      ap length (get_stream_frame_lem s segments)
      ∙ omega (
        arith,
        length-append (lengths (s ∷ segments)) (padding n),
        length-lengths (s ∷ segments),
        length-replicate ((1 - n % 2) * 4) zero,
      ) in
    (e, omega (arith, e))

-- A number that stands behind `pre` is read back.
pub get_uint32-append :
    (message pre post : List ℕ) (o v : ℕ)
    → v < 2 ^ 32
    → message ≡ pre ++ (u32 v ++ post)
    → length pre ≡ o
    → get_uint32 message o ≡ ok v
unfolding get_uint32
get_uint32-append message pre post o v h e l =
    rw (e, drop-append_at o pre (u32 v ++ post) l, room) (ap ok (omega arith))
  where
    room : leb (o + 4) (length (pre ++ (u32 v ++ post))) ≡ true
    room = ground (arith, length-append pre (u32 v ++ post))

pub get_stream_frame_of_pos :
    (segments : List Segment)
    → 0 < length segments
    → (get_stream_frame segments
        ≡ u32 (length segments - 1) ++ (lengths segments ++ padding (length segments)))
      × (length (get_stream_frame segments) ≡ frame_length (length segments))
      × (length (get_stream_frame segments) % 8 ≡ 0)
get_stream_frame_of_pos [] h = absurd (omega arith)
get_stream_frame_of_pos (s ∷ segments) h =
    let e : suc (length segments) - 1 ≡ length segments = omega arith in
    let (l, w) = length-get_stream_frame s segments in
    (rw e (get_stream_frame_lem s segments), l, w)
