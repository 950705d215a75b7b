-- ===== src/Packing/Total.antt =====
-- `unpack` and `getUnpackedByteLength` of src/serialization/packing.ts on any bytes, also those
-- that `pack` never writes.
use capnp_es.Prelude.{
  ℕ, zero, suc, ◌+◌, ◌*◌, ◌%◌, ◌≤◌, ◌<◌, ◌≡◌, refl, sym, ap, ◌∙◌, ◌==◌, ==_iff, if◌then◌else◌, true,
  Bool-cases, inl, inr, List, [], ◌∷◌, ◌++◌, length, length-append, length-drop, length-take,
  length-set, get_or, length-replicate, take, drop, set, replicate, bit_and, Option, some, arith,
}
use capnp_es.Prelude.Bits.{check_below, check_below_sound}
use capnp_es.Prelude.Slices.{All, All-drop, drop-drop}
use capnp_es.Errors.{Result, ok}
use capnp_es.Packing.{
  count_words, get_hamming_weight, get_unpacked_byte_length, Unpacker, unpack_word, unpack_step,
  unpack_loop, unpack, masks, set_bytes, nonzero_nonspan_tag,
}

abbrev pub IsByte : ℕ → Type 0
IsByte b = b < 256

-- How many of the masks find their bit.
abbrev found : ℕ → List ℕ → ℕ
found tag [] = 0
found tag (i ∷ ms) = (if bit_and tag i == 0 then 0 else 1) + found tag ms

hamming_table : check_below 256 (λ t. get_hamming_weight t == found t masks) ≡ true
unfolding check_below get_hamming_weight
hamming_table = refl

get_hamming_weight-found : (t : ℕ) → IsByte t → get_hamming_weight t ≡ found t masks
get_hamming_weight-found t h = (==_iff _ _).0 (check_below_sound 256 _ t hamming_table h)

count_words-total :
    (fuel : ℕ) (src : List ℕ) (last n : ℕ)
    → length src ≤ fuel
    → (m : ℕ) × (count_words fuel src last n ≡ some m)
unfolding count_words
count_words-total fuel [] last n h = (n, refl)
count_words-total zero (t ∷ src) last n h = absurd (omega arith)
count_words-total (suc fuel) (t ∷ src) last n h =
    let zs = count_words-total fuel src nonzero_nonspan_tag (n + t) (omega arith) in
    let sp =
      count_words-total fuel (drop (t * 8) src) nonzero_nonspan_tag (n + t)
        (omega (arith, length-drop (t * 8) src)) in
    let wd =
      count_words-total fuel (drop (get_hamming_weight t) src) t (n + 1)
        (omega (arith, length-drop (get_hamming_weight t) src)) in
    elim (Bool-cases (last == 0)) [
      | inl z ↦ (zs.0, rw z zs.1)
      | inr z ↦ elim (Bool-cases (last == 255)) [
        | inl s ↦ (sp.0, rw (z, s) sp.1)
        | inr s ↦ (wd.0, rw (z, s) wd.1)
      ]
    ]

count_words-le :
    (fuel : ℕ) (src : List ℕ) (last n m : ℕ) → count_words fuel src last n ≡ some m → n ≤ m
unfolding count_words
count_words-le fuel [] last n m e = ground arith
count_words-le zero (t ∷ src) last n m e = cc
count_words-le (suc fuel) (t ∷ src) last n m e = ground (
  arith,
  count_words-le fuel src nonzero_nonspan_tag (n + t) m,
  count_words-le fuel (drop (t * 8) src) nonzero_nonspan_tag (n + t) m,
  count_words-le fuel (drop (get_hamming_weight t) src) t (n + 1) m,
)

abbrev skipped : Unpacker → Unpacker
skipped u = record u { dst_byte_offset = u.dst_byte_offset + 1 }

abbrev stored_at : Unpacker → Unpacker
stored_at u = record {
  src = drop 1 u.src;
  dst = set u.dst u.dst_byte_offset (get_or u.src 0 0);
  dst_byte_offset = u.dst_byte_offset + 1;
}

unpack_word-cons :
    (tag i : ℕ) (ms : List ℕ) (u : Unpacker)
    → unpack_word tag (i ∷ ms) u
      ≡ unpack_word tag ms (if bit_and tag i == 0 then skipped u else stored_at u)
unfolding unpack_word
unpack_word-cons tag i ms u = refl

-- A word takes the bytes that its tag announces, and goes eight bytes on in `dst`.
record Advanced (tag : ℕ) (ms : List ℕ) (u v : Unpacker) : Type 0 where
  rest : v.src ≡ drop (found tag ms) u.src
  offset : v.dst_byte_offset ≡ u.dst_byte_offset + length ms
  size : length v.dst ≡ length u.dst

unpack_word-Advanced :
    (tag : ℕ) (ms : List ℕ) (u : Unpacker) → Advanced tag ms u (unpack_word tag ms u)
unpack_word-Advanced tag [] u =
    unfold unpack_word in record { rest = refl; offset = omega arith; size = refl }
unpack_word-Advanced tag (i ∷ ms) u =
    rw (unpack_word-cons tag i ms u) (elim (Bool-cases (bit_and tag i == 0)) [
      | inl z ↦
          let k = unpack_word-Advanced tag ms (skipped u) in
          rw z (record {
            rest = k.rest ∙ ap (λ j. drop j u.src) (ground arith);
            offset = omega (arith, k.offset);
            size = k.size;
          })
      | inr z ↦
          let k = unpack_word-Advanced tag ms (stored_at u) in
          rw z (record {
            rest =
                k.rest ∙ drop-drop 1 (found tag ms) u.src ∙ ap (λ j. drop j u.src) (ground arith);
            offset = omega (arith, k.offset);
            size = k.size ∙ length-set u.dst u.dst_byte_offset (get_or u.src 0 0);
          })
    ])

-- What a run of the loop ends with.
abbrev Ends : Option (Result (List ℕ)) → ℕ → Type 0
Ends r m = (u : List ℕ) × (r ≡ some (ok u)) × (length u ≡ m * 8)

unpack_loop-cons :
    (fuel last tag t : ℕ) (src dst : List ℕ) (off m : ℕ) (u : Unpacker)
    → unpack_step last tag (record { src = src; dst = dst; dst_byte_offset = off }) ≡ ok (t, u)
    → Ends (unpack_loop fuel t u.src u.dst u.dst_byte_offset) m
    → Ends (unpack_loop (suc fuel) last (tag ∷ src) dst off) m
unfolding unpack_loop
unpack_loop-cons fuel last tag t src dst off m u e k = (k.0, rw (e, unpack_loop) k.1, k.2)

-- A span fits into the part of `dst` that is counted for it.
set_bytes-fits :
    (dst raw : List ℕ) (off : ℕ)
    → off + length raw ≤ length dst
    → (d : List ℕ) × (set_bytes dst raw off ≡ ok d) × (length d ≡ length dst)
unfolding set_bytes
set_bytes-fits dst raw off h = (
  take off dst ++ (raw ++ drop (off + length raw) dst),
  ground arith,
  omega (
    arith,
    length-append (take off dst) (raw ++ drop (off + length raw) dst),
    length-append raw (drop (off + length raw) dst),
    length-take off dst,
    length-drop (off + length raw) dst,
  ),
)

unpack_loop-Ends :
    (fuel : ℕ) (src : List ℕ) (last n m : ℕ) (dst : List ℕ) (off : ℕ)
    → All IsByte src
    → count_words fuel src last n ≡ some m
    → off ≡ n * 8
    → length dst ≡ m * 8
    → Ends (unpack_loop fuel last src dst off) m
unfolding count_words unpack_step
unpack_loop-Ends fuel [] last n m dst off b e o d = unfold unpack_loop in (dst, refl, d)
unpack_loop-Ends zero (t ∷ src) last n m dst off b e o d = cc
unpack_loop-Ends (suc fuel) (t ∷ src) last n m dst off b e o d = elim (Bool-cases (last == 0)) [
  | inl z ↦
      unpack_loop-cons fuel last t nonzero_nonspan_tag src dst off m
        (record { src = src; dst = dst; dst_byte_offset = off + t * 8 }) (rw z)
        (unpack_loop-Ends fuel src nonzero_nonspan_tag (n + t) m dst (off + t * 8) b.1 (rw z at e)
          (omega arith) d)
  | inr z ↦ elim (Bool-cases (last == 255)) [
    | inl s ↦
        let more : n + t ≤ m =
          count_words-le fuel (drop (t * 8) src) nonzero_nonspan_tag (n + t) m (rw (z, s) at e) in
        let (dst', eq, size) =
          set_bytes-fits dst (take (t * 8) src) off (omega (arith, length-take (t * 8) src)) in
        unpack_loop-cons fuel last t nonzero_nonspan_tag src dst off m
          (record { src = drop (t * 8) src; dst = dst'; dst_byte_offset = off + t * 8 })
          (rw (z, s, eq))
          (unpack_loop-Ends fuel (drop (t * 8) src) nonzero_nonspan_tag (n + t) m dst' (off + t * 8)
            (All-drop IsByte (t * 8) src b.1) (rw (z, s) at e) (omega arith) (size ∙ d))
    | inr s ↦
        let u : Unpacker = record { src = src; dst = dst; dst_byte_offset = off } in
        let k = unpack_word-Advanced t masks u in
        let same : drop (get_hamming_weight t) src ≡ (unpack_word t masks u).src =
          ap (λ j. drop j src) (get_hamming_weight-found t b.0) ∙ sym k.rest in
        unpack_loop-cons fuel last t t src dst off m (unpack_word t masks u) (rw (z, s)) (
          unpack_loop-Ends fuel (unpack_word t masks u).src t (n + 1) m (unpack_word t masks u).dst
            (unpack_word t masks u).dst_byte_offset
            (rw (← same) (All-drop IsByte (get_hamming_weight t) src b.1))
            (rw (← same) (rw (z, s) at e)) (omega (arith, k.offset)) (k.size ∙ d))
  ]
]

-- On any bytes `unpack` ends and throws nothing, also where the input is cut short: its loops have
-- enough fuel and write inside the buffer. The result has the length that `getUnpackedByteLength`
-- gives, and that is a number of whole words.
pub unpack-total :
    (packed : List ℕ)
    → All IsByte packed
    → (u : List ℕ) × (unpack packed ≡ some (ok u))
      × (get_unpacked_byte_length packed ≡ some (length u))
      × (length u % 8 ≡ 0)
unfolding unpack get_unpacked_byte_length
unpack-total packed b =
    let (m, e) = count_words-total (length packed) packed nonzero_nonspan_tag 0 (omega arith) in
    let (u, eq, size) =
      unpack_loop-Ends (length packed) packed nonzero_nonspan_tag 0 m (replicate (m * 8) 0) 0 b e
        (omega arith) (length-replicate (m * 8) zero) in
    (
      u,
      rw (e, unpack, get_unpacked_byte_length) eq,
      rw (e, get_unpacked_byte_length) (ap some (sym size)),
      omega (arith, size),
    )
