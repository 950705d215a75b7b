-- ===== src/Packing/Count.antt =====
-- `getUnpackedByteLength` of src/serialization/packing.ts on packed bytes, and that it ends on any.
use capnp_es.Prelude.{
  ℕ, zero, suc, ◌+◌, ◌*◌, ◌≤◌, ◌≡◌, refl, ap, ◌∙◌, ◌≢◌, List, ◌∷◌, ◌++◌, length, length-append,
  drop, some, arith,
}
use capnp_es.Prelude.Slices.{drop-append}
use capnp_es.Packing.{
  count_words, get_unpacked_byte_length, get_hamming_weight, nonzero_nonspan_tag,
}
use capnp_es.Packing.Format.{tag_of, nonzeros, Packs, done, zeros, span, plain, words, length-words}
use capnp_es.Packing.Tag.{get_hamming_weight-tag_of}

-- One round at a tag behind a word that is neither zero nor a span.
count_tag :
    (fuel tag : ℕ) (p : List ℕ) (last n : ℕ)
    → last ≢ 0
    → last ≢ 255
    → count_words (suc fuel) (tag ∷ p) last n
      ≡ count_words fuel (drop (get_hamming_weight tag) p) tag (n + 1)
unfolding count_words
count_tag fuel tag p last n h0 h1 = ground arith

count_zero :
    (fuel m : ℕ) (p : List ℕ) (n : ℕ)
    → count_words (suc fuel) (m ∷ p) 0 n ≡ count_words fuel p nonzero_nonspan_tag (n + m)
unfolding count_words
count_zero fuel m p n = refl

count_span :
    (fuel m : ℕ) (p : List ℕ) (n : ℕ)
    → count_words (suc fuel) (m ∷ p) 255 n
      ≡ count_words fuel (drop (m * 8) p) nonzero_nonspan_tag (n + m)
unfolding count_words
count_span fuel m p n = refl

hamming_zero : get_hamming_weight 0 ≡ 0
unfolding get_hamming_weight
hamming_zero = refl

hamming_span : get_hamming_weight 255 ≡ 8
unfolding get_hamming_weight
hamming_span = refl

drop_at {ℓ} : {A : Type ℓ} (n : ℕ) (xs ys : List A) → length xs ≡ n → drop n (xs ++ ys) ≡ ys
drop_at n xs ys h = rw (← h) (drop-append xs ys)

count_words-Packs :
    {p u : List ℕ} (a : Packs p u) (fuel last n : ℕ)
    → length p ≤ fuel
    → last ≢ 0
    → last ≢ 255
    → count_words fuel p last n ≡ some (n + words a)
unfolding words
count_words-Packs done fuel last n hf h0 h1 = unfold count_words in ap some (omega arith)
count_words-Packs (zeros m h a) zero last n hf h0 h1 = absurd (omega arith)
count_words-Packs (zeros m h a) (suc zero) last n hf h0 h1 = absurd (omega arith)
count_words-Packs (zeros m {p = p} h a) (suc (suc f)) last n hf h0 h1 =
    count_tag (suc f) 0 (m ∷ p) last n h0 h1
    ∙ rw
        (
          hamming_zero,
          count_zero f m p (n + 1),
          count_words-Packs a f nonzero_nonspan_tag (n + 1 + m) (omega arith) (omega arith)
              (omega arith),
        )
        (ap some (omega arith))
count_words-Packs (span w raw m hw hz hr hm a) zero last n hf h0 h1 = absurd (omega arith)
count_words-Packs (span w raw m {p = p} hw hz hr hm a) (suc zero) last n hf h0 h1 =
    absurd (omega (arith, length-append w (m ∷ (raw ++ p))))
count_words-Packs (span w raw m {p = p} hw hz hr hm a) (suc (suc f)) last n hf h0 h1 =
    count_tag (suc f) 255 (w ++ (m ∷ (raw ++ p))) last n h0 h1
    ∙ rw
        (
          hamming_span,
          drop_at 8 w (m ∷ (raw ++ p)) hw,
          count_span f m (raw ++ p) (n + 1),
          drop_at (m * 8) raw p hr,
          count_words-Packs a f nonzero_nonspan_tag (n + 1 + m)
              (omega (arith, length-append w (m ∷ (raw ++ p)), length-append raw p)) (omega arith)
              (omega arith),
        )
        (ap some (omega arith))
count_words-Packs (plain w hw t0 t1 a) zero last n hf h0 h1 = absurd (omega arith)
count_words-Packs (plain w {p = p} hw t0 t1 a) (suc f) last n hf h0 h1 =
    count_tag f (tag_of w) (nonzeros w ++ p) last n h0 h1
    ∙ rw
        (
          get_hamming_weight-tag_of w hw,
          drop-append (nonzeros w) p,
          count_words-Packs a f (tag_of w) (n + 1) (omega (arith, length-append (nonzeros w) p))
              (omega arith) (omega arith),
        )
        (ap some (omega arith))

-- `getUnpackedByteLength` of packed bytes is the length of what they stand for.
pub get_unpacked_byte_length-Packs :
    {p u : List ℕ} → Packs p u → get_unpacked_byte_length p ≡ some (length u)
unfolding get_unpacked_byte_length
get_unpacked_byte_length-Packs {p} a =
    rw
      (
        count_words-Packs a (length p) nonzero_nonspan_tag 0 (omega arith) (omega arith)
            (omega arith),
        get_unpacked_byte_length,
      )
      (ap some (omega (arith, length-words a)))
