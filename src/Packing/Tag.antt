-- ===== src/Packing/Tag.antt =====
-- Tag bytes: `getTagByte`, `getZeroByteCount` and `getHammingWeight` of
-- src/serialization/packing.ts against plain sums over the bytes of a word.
use capnp_es.Prelude.{
  ℕ, ◌+◌, ◌*◌, ◌<◌, ◌≡◌, refl, ◌∙◌, ◌≢◌, ◌==◌, ==_iff, &&-split, if◌then◌else◌, Bool, true, ◌&&◌,
  List, [], ◌∷◌, ◌++◌, length, length-map, map, bit_and, arith, replicate, ◌^◌,
}
use native.Mathlib.Nat.{pow-suc}
use capnp_es.Prelude.Bits.{all_rows, all_rows_sound, iff, iff→eq}
use capnp_es.Prelude.Slices.{All}
use capnp_es.Packing.{tag_bits, get_tag_byte, get_hamming_weight, masks, read_word}
use capnp_es.Packing.Format.{tag_of, nonzeros}

-- A row says which bytes are 0. Its tag, and how many bytes are not 0.
abbrev row_tag : List Bool → ℕ
row_tag [] = 0
row_tag (z ∷ l) = (if z then 0 else 1) + 2 * row_tag l

abbrev row_ones : List Bool → ℕ
row_ones [] = 0
row_ones (z ∷ l) = (if z then 0 else 1) + row_ones l

abbrev row_tag_bits : List Bool → ℕ
row_tag_bits (a ∷ b ∷ c ∷ d ∷ e ∷ f ∷ g ∷ h ∷ []) = tag_bits a b c d e f g h
row_tag_bits l = 0

-- The masks pick out the zeros of a row from its tag.
abbrev row_agrees : ℕ → List ℕ → List Bool → Bool
row_agrees tag (i ∷ ms) (z ∷ l) = iff (bit_and tag i == 0) z && row_agrees tag ms l
row_agrees tag ms l = true

abbrev zeros_of : List ℕ → List Bool
zeros_of = map (λ b. b == 0)

row-tag_bits :
    (l : List Bool) → length l ≡ 8 → all_rows (length l) (λ m. row_tag_bits m == row_tag m) ≡ true
unfolding all_rows
row-tag_bits l h = rw h refl

row-weight :
    (l : List Bool)
    → length l ≡ 8
    → all_rows (length l) (λ m. get_hamming_weight (row_tag m) == row_ones m) ≡ true
unfolding all_rows get_hamming_weight
row-weight l h = rw h refl

row-masks :
    (l : List Bool)
    → length l ≡ 8
    → all_rows (length l) (λ m. row_agrees (row_tag m) masks m) ≡ true
unfolding all_rows
row-masks l h = rw h refl

tag_of-eq-row_tag : (w : List ℕ) → tag_of w ≡ row_tag (zeros_of w)
tag_of-eq-row_tag [] = refl
tag_of-eq-row_tag (b ∷ w) = rw (tag_of-eq-row_tag w)

length-nonzeros_row : (w : List ℕ) → length (nonzeros w) ≡ row_ones (zeros_of w)
length-nonzeros_row [] = refl
length-nonzeros_row (b ∷ w) = ground (arith, length-nonzeros_row w)

length-zeros_of : (w : List ℕ) → length (zeros_of w) ≡ length w
length-zeros_of w = length-map w (λ b. b == 0)

-- `getHammingWeight` of a word's tag is the number of bytes that the tag announces.
pub get_hamming_weight-tag_of :
    (w : List ℕ) → length w ≡ 8 → get_hamming_weight (tag_of w) ≡ length (nonzeros w)
get_hamming_weight-tag_of w h =
    rw (tag_of-eq-row_tag w, length-nonzeros_row w)
      ((==_iff _ _).0
        (all_rows_sound (zeros_of w) _ (row-weight (zeros_of w) (length-zeros_of w ∙ h))))

-- Each mask of `unpack` finds its byte.
abbrev pub Agrees : ℕ → List ℕ → List ℕ → Type 0
Agrees tag (i ∷ ms) (b ∷ w) = ((bit_and tag i == 0) ≡ (b == 0)) × Agrees tag ms w
Agrees tag ms w = Unit {0}

row_agrees→Agrees :
    (tag : ℕ) (ms w : List ℕ) → row_agrees tag ms (zeros_of w) ≡ true → Agrees tag ms w
row_agrees→Agrees tag [] w h = tt
row_agrees→Agrees tag (i ∷ ms) [] h = tt
row_agrees→Agrees tag (i ∷ ms) (b ∷ w) h =
    let (p, q) = &&-split (iff (bit_and tag i == 0) (b == 0)) (row_agrees tag ms (zeros_of w)) h in
    (iff→eq _ _ p, row_agrees→Agrees tag ms w q)

pub tag_of-Agrees : (w : List ℕ) → length w ≡ 8 → Agrees (tag_of w) masks w
tag_of-Agrees w h = row_agrees→Agrees (tag_of w) masks w (
    rw (tag_of-eq-row_tag w)
      (all_rows_sound (zeros_of w) _ (row-masks (zeros_of w) (length-zeros_of w ∙ h))))

-- `getTagByte` of eight bytes is their tag.
module _ (a b c d e f g h : ℕ) (src : List ℕ) where
  abbrev word : List ℕ
  word = a ∷ b ∷ c ∷ d ∷ e ∷ f ∷ g ∷ h ∷ []

  pub get_tag_byte-read_word : get_tag_byte (read_word (word ++ src)) ≡ tag_of word
  unfolding get_tag_byte
  get_tag_byte-read_word =
      rw (tag_of-eq-row_tag word)
        ((==_iff _ _).0 (all_rows_sound (zeros_of word) _ (row-tag_bits (zeros_of word) refl)))

-- The tag 0 is that of zeros, and the tag of n ones is that of n bytes that are not 0.
pub tag_of-zero : (w : List ℕ) → tag_of w ≡ 0 → w ≡ replicate (length w) 0
tag_of-zero [] h = refl
tag_of-zero (b ∷ w) h = ground (arith, tag_of-zero w)

pub tag_of_ones : (w : List ℕ) → All (λ b. b ≢ 0) w → tag_of w + 1 ≡ 2 ^ length w
tag_of_ones [] h = refl
tag_of_ones (b ∷ w) h = ground (arith, tag_of_ones w h.1, pow-suc 2 (length w))

pub nonzeros_self : (w : List ℕ) → All (λ b. b ≢ 0) w → nonzeros w ≡ w
nonzeros_self [] h = refl
nonzeros_self (b ∷ w) h = ground (arith, nonzeros_self w h.1)

pub All-nonzero_of_tag : (w : List ℕ) → tag_of w + 1 ≡ 2 ^ length w → All (λ b. b ≢ 0) w
All-nonzero_of_tag [] h = tt
All-nonzero_of_tag (b ∷ w) h = (
  λ e. ground (arith, pow-suc 2 (length w)),
  All-nonzero_of_tag w (ground (arith, pow-suc 2 (length w))),
)

pub tag_of-lt : (w : List ℕ) → tag_of w < 2 ^ length w
tag_of-lt [] = omega arith
tag_of-lt (b ∷ w) = ground (arith, tag_of-lt w, pow-suc 2 (length w))
