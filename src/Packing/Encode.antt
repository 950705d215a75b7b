-- ===== src/Packing/Encode.antt =====
-- `pack` of src/serialization/packing.ts writes the packed format.
use capnp_es.Prelude.{
  ℕ, zero, ◌+◌, ◌*◌, ◌≤◌, ◌<◌, ◌≡◌, refl, sym, ap, ◌∙◌, ◌≢◌, ◌^◌, ◌==◌, leb, if◌then◌else◌, ◌||◌,
  not, Bool-cases, ne→==_false, ==_iff, map, inl, inr, subst, List, [], ◌∷◌, ◌++◌, append-nil,
  append_assoc, length, length-append, set, replicate, arith,
}
use capnp_es.Prelude.Slices.{All, replicate-add, set-append}
use capnp_es.Packing.{
  Packer, Word, byte, word_reads, word_bytes, get_tag_byte, get_zero_byte_count, push_nonzero,
  write_word, pack_word, finish,
}
use capnp_es.Packing.Format.{tag_of, nonzeros, Packs, done, zeros, span, plain, Packs-append}
use capnp_es.Packing.Tag.{tag_of-zero, tag_of-lt, All-nonzero_of_tag, nonzeros_self}

-- The state of the loop after the bytes `u`: outside any range, in a range of zeros, or in a span
-- whose word count is still to be written at `span_word_count_offset`.
pub data State (s : Packer) (u : List ℕ) : Type 0 where
  outside : s.last_tag ≢ 0 → s.last_tag ≢ 255 → s.range_word_count ≡ 0 → Packs s.dst u → State s u
  in_zeros :
      (p v : List ℕ)
      → s.last_tag ≡ 0
      → s.range_word_count ≤ 255
      → s.dst ≡ p ++ (0 ∷ [])
      → u ≡ v ++ replicate ((s.range_word_count + 1) * 8) 0
      → Packs p v
      → State s u
  in_span :
      (p v w raw : List ℕ) (slot : ℕ)
      → s.last_tag ≡ 255
      → s.range_word_count ≤ 255
      → s.dst ≡ (p ++ (255 ∷ w)) ++ (slot ∷ raw)
      → s.span_word_count_offset ≡ length (p ++ (255 ∷ w))
      → u ≡ v ++ (w ++ raw)
      → length w ≡ 8
      → All (λ b. b ≢ 0) w
      → length raw ≡ s.range_word_count * 8
      → Packs p v
      → State s u

zeros-Packs :
    {p v : List ℕ} (n : ℕ)
    → n ≤ 255
    → Packs p v
    → Packs ((p ++ (0 ∷ [])) ++ (n ∷ [])) (v ++ replicate ((n + 1) * 8) 0)
zeros-Packs {p} {v} n h a = rw (append_assoc p (0 ∷ []) (n ∷ [])) (
    subst (λ l. Packs (p ++ (0 ∷ n ∷ [])) (v ++ l)) (append-nil (replicate ((n + 1) * 8) zero))
      (Packs-append a (zeros n h done)))

span-Packs :
    {p v : List ℕ} (w raw : List ℕ) (n slot : ℕ)
    → length w ≡ 8
    → All (λ b. b ≢ 0) w
    → length raw ≡ n * 8
    → n ≤ 255
    → Packs p v
    → Packs (set ((p ++ (255 ∷ w)) ++ (slot ∷ raw)) (length (p ++ (255 ∷ w))) n) (v ++ (w ++ raw))
span-Packs {p} {v} w raw n slot hw hz hr hn a =
    let b = Packs-append a (span w raw n hw hz hr hn done) in
    rw (set-append (p ++ (255 ∷ w)) slot raw n, append_assoc p (255 ∷ w) (n ∷ raw))
      (rw append-nil at b)

-- Ending the range of any state leaves packed bytes.
pub finish-Packs : {s : Packer} {u : List ℕ} → State s u → Packs (finish s) u
unfolding finish
finish-Packs {s} (outside h0 h1 r a) =
    rw (ne→==_false s.last_tag 0 h0, ne→==_false s.last_tag 255 h1) a
finish-Packs (in_zeros p v t n d e a) = rw (t, d, e) (zeros-Packs _ n a)
finish-Packs (in_span p v w raw slot t n d o e hw hz hr a) =
    rw (t, d, e, o) (span-Packs w raw _ slot hw hz hr n a)

push_nonzero-nonzeros : (dst w : List ℕ) → push_nonzero dst (map byte w) ≡ dst ++ nonzeros w
unfolding push_nonzero
push_nonzero-nonzeros dst [] = sym (append-nil dst)
push_nonzero-nonzeros dst (b ∷ w) = ground (
  arith,
  push_nonzero-nonzeros dst w,
  push_nonzero-nonzeros (dst ++ (b ∷ [])) w,
  append_assoc dst (b ∷ []) (nonzeros w),
)

-- `W` is what the loop reads of a word with the bytes `w`.
pub record Reads (W : Word) (w : List ℕ) : Type 0 where
  pub size : length w ≡ 8
  pub tag : get_tag_byte W ≡ tag_of w
  pub reads : word_reads W ≡ map byte w
  pub bytes : word_bytes W ≡ w

module _ {W : Word} {w : List ℕ} (rd : Reads W w) (s : Packer) where
  below : tag_of w < 256
  below = omega (arith, tag_of-lt w, ap (λ (k : ℕ). 2 ^ k) rd.size)

  abbrev written : List ℕ
  written = s.dst ++ (tag_of w ∷ nonzeros w)

  write_word_lem : write_word W s ≡ (
      if tag_of w == 255
      then record s {
        dst = written ++ (0 ∷ []);
        last_tag = tag_of w;
        span_word_count_offset = length written;
      }
      else record s { dst = written; last_tag = tag_of w })
  unfolding write_word
  write_word_lem = rw (
    rd.tag,
    rd.reads,
    push_nonzero-nonzeros (s.dst ++ (tag_of w ∷ [])) w,
    append_assoc s.dst (tag_of w ∷ []) (nonzeros w),
  )

  -- Writing a word behind packed bytes, with no range open.
  write_word-State :
      {u : List ℕ} → s.range_word_count ≡ 0 → Packs s.dst u → State (write_word W s) (u ++ w)
  write_word-State {u} r p = elim (Bool-cases (tag_of w == 255)) [
    | inl t ↦
        let e : tag_of w ≡ 255 = (==_iff _ _).0 t in
        let full : All (λ b. b ≢ 0) w =
          All-nonzero_of_tag w (omega (arith, ap (λ (k : ℕ). 2 ^ k) rd.size)) in
        rw (write_word_lem, t)
          (in_span s.dst u w [] 0 e (omega arith) (rw (e, nonzeros_self w full))
            (rw (e, nonzeros_self w full)) (rw append-nil) rd.size full (omega arith) p)
    | inr t ↦ elim (Bool-cases (tag_of w == 0)) [
      | inl z ↦
          let e : tag_of w ≡ 0 = (==_iff _ _).0 z in
          let zs : w ≡ replicate 8 0 = tag_of-zero w e ∙ ap (λ k. replicate k 0) rd.size in
          rw (write_word_lem, t) (in_zeros s.dst u e (omega arith) (rw zs) (rw (r, zs)) p)
      | inr z ↦
          rw (write_word_lem, t)
            (outside (λ e. ground arith) (λ e. ground arith) r
              (rw (append-nil (nonzeros w), append-nil w) at
                (Packs-append p (plain w rd.size (ground arith) (ground (arith, below)) done))))
    ]
  ]

zeros-grow : (n : ℕ) → replicate ((n + 1) * 8) zero ++ replicate 8 0 ≡ replicate ((n + 1 + 1) * 8) 0
zeros-grow n =
    sym (replicate-add ((n + 1) * 8) 8 zero) ∙ ap (λ (k : ℕ). replicate k zero) (omega arith)

zero_word_of_tag : {W : Word} {w : List ℕ} → Reads W w → get_tag_byte W ≡ 0 → w ≡ replicate 8 0
zero_word_of_tag {w = w} rd e =
    tag_of-zero w (sym rd.tag ∙ e) ∙ ap (λ (k : ℕ). replicate k zero) rd.size

-- A round of the loop keeps the state.
module _ {W : Word} {w : List ℕ} (rd : Reads W w) (s : Packer) where
  pack_zeros-State :
      {u : List ℕ} (p v : List ℕ)
      → s.last_tag ≡ 0
      → s.range_word_count ≤ 255
      → s.dst ≡ p ++ (0 ∷ [])
      → u ≡ v ++ replicate ((s.range_word_count + 1) * 8) 0
      → Packs p v
      → State (pack_word W s) (u ++ w)
  unfolding pack_word
  pack_zeros-State {u} p v t n d e a =
      rw ((==_iff _ _).1 t)
        (elim (Bool-cases (not (get_tag_byte W == 0) || leb 255 s.range_word_count)) [
          | inl c ↦ rw c (
              write_word-State rd
                (record s { dst = s.dst ++ (s.range_word_count ∷ []); range_word_count = 0 }) refl
                (rw (d, e) (zeros-Packs s.range_word_count n a)))
          | inr c ↦ rw c (
              in_zeros p v t (ground arith) d
                (rw (e, zero_word_of_tag rd (ground arith), append_assoc v _ (replicate 8 zero))
                  (ap (λ l. v ++ l) (zeros-grow s.range_word_count)))
                a)
        ])

  pack_span-State :
      {u : List ℕ} (p v x raw : List ℕ) (slot : ℕ)
      → s.last_tag ≡ 255
      → s.range_word_count ≤ 255
      → s.dst ≡ (p ++ (255 ∷ x)) ++ (slot ∷ raw)
      → s.span_word_count_offset ≡ length (p ++ (255 ∷ x))
      → u ≡ v ++ (x ++ raw)
      → length x ≡ 8
      → All (λ b. b ≢ 0) x
      → length raw ≡ s.range_word_count * 8
      → Packs p v
      → State (pack_word W s) (u ++ w)
  unfolding pack_word
  pack_span-State {u} p v x raw slot t n d o e hx hz hr a =
      rw (ne→==_false s.last_tag 0 (omega arith), (==_iff _ _).1 t)
        (elim (Bool-cases (leb 2 (get_zero_byte_count W) || leb 255 s.range_word_count)) [
          | inl c ↦ rw c (
              write_word-State rd
                (record s {
                  dst = set s.dst s.span_word_count_offset s.range_word_count;
                  range_word_count = 0;
                })
                refl (rw (d, o, e) (span-Packs x raw s.range_word_count slot hx hz hr n a)))
          | inr c ↦
              rw (c, rd.bytes)
                (in_span p v x (raw ++ w) slot t (ground arith)
                  (rw (d, append_assoc (p ++ (255 ∷ x)) (slot ∷ raw) w)) o
                  (rw (e, append_assoc v (x ++ raw) w, append_assoc x raw w)) hx hz
                  (omega (arith, length-append raw w, rd.size)) a)
        ])

  pub pack_word-State : {u : List ℕ} → State s u → State (pack_word W s) (u ++ w)
  pack_word-State (outside h0 h1 r p) =
      unfold pack_word in
      rw (ne→==_false s.last_tag 0 h0, ne→==_false s.last_tag 255 h1) (write_word-State rd s r p)
  pack_word-State (in_zeros p v t n d e a) = pack_zeros-State p v t n d e a
  pack_word-State (in_span p v x raw slot t n d o e hx hz hr a) =
      pack_span-State p v x raw slot t n d o e hx hz hr a
