-- ===== src/Packing/Format.antt =====
-- The packed format as the documentation of `PackedTag` in src/serialization/packing.ts describes
-- it, with no reference to the code: which bytes stand for which unpacked bytes.
use capnp_es.Prelude.{
  ℕ, zero, ◌+◌, ◌*◌, ◌≤◌, ◌<◌, ◌≡◌, refl, sym, subst, ◌≢◌, ◌==◌, if◌then◌else◌, List, [], ◌∷◌, ◌++◌,
  length, length-append, replicate, length-replicate, append_assoc, arith,
}
use capnp_es.Prelude.Slices.{All}

-- Bit i is set where byte i is not 0.
abbrev pub tag_of : List ℕ → ℕ
tag_of [] = 0
tag_of (b ∷ w) = (if b == 0 then 0 else 1) + 2 * tag_of w

abbrev pub nonzeros : List ℕ → List ℕ
nonzeros [] = []
nonzeros (b ∷ w) = if b == 0 then nonzeros w else b ∷ nonzeros w

-- `Packs p u`: the packed bytes `p` stand for the bytes `u`.
pub data Packs : List ℕ → List ℕ → Type 0 where
  done : Packs [] []
  -- a range of n + 1 words of zeros
  zeros :
      (n : ℕ) {p u : List ℕ}
      → n ≤ 255
      → Packs p u
      → Packs (0 ∷ n ∷ p) (replicate ((n + 1) * 8) 0 ++ u)
  -- a word with no 0 in it, and behind it n words as they are
  span :
      (w raw : List ℕ) (n : ℕ) {p u : List ℕ}
      → length w ≡ 8
      → All (λ b. b ≢ 0) w
      → length raw ≡ n * 8
      → n ≤ 255
      → Packs p u
      → Packs (255 ∷ (w ++ (n ∷ (raw ++ p)))) (w ++ (raw ++ u))
  -- a word with some 0 in it and some byte that is not
  plain :
      (w : List ℕ) {p u : List ℕ}
      → length w ≡ 8
      → 0 < tag_of w
      → tag_of w < 255
      → Packs p u
      → Packs (tag_of w ∷ (nonzeros w ++ p)) (w ++ u)

-- What stands for `u`, followed by what stands for `v`, stands for `u` and then `v`.
pub Packs-append : {p u q v : List ℕ} → Packs p u → Packs q v → Packs (p ++ q) (u ++ v)
Packs-append done b = b
Packs-append {q = q} {v = v} (zeros n {p = p} {u = u} h a) b =
    subst (λ l. Packs (0 ∷ n ∷ (p ++ q)) l) (sym (append_assoc (replicate ((n + 1) * 8) 0) u v))
      (zeros n h (Packs-append a b))
Packs-append {q = q} {v = v} (span w raw n {p = p} {u = u} hw hz hr hn a) b =
    rw
      (
        append_assoc w (n ∷ (raw ++ p)) q,
        append_assoc raw p q,
        append_assoc w (raw ++ u) v,
        append_assoc raw u v,
      )
      (span w raw n hw hz hr hn (Packs-append a b))
Packs-append {q = q} {v = v} (plain w {p = p} {u = u} hw h0 h1 a) b =
    rw (append_assoc (nonzeros w) p q, append_assoc w u v) (plain w hw h0 h1 (Packs-append a b))

-- The number of words that packed bytes stand for.
unfoldable pub words : {p u : List ℕ} → Packs p u → ℕ
words done = 0
words (zeros n h a) = n + 1 + words a
words (span w raw n hw hz hr hn a) = n + 1 + words a
words (plain w hw h0 h1 a) = 1 + words a

pub length-words : {p u : List ℕ} (a : Packs p u) → length u ≡ words a * 8
unfolding words
length-words done = refl
length-words (zeros n {u = u} h a) = omega (
  arith,
  length-append (replicate ((n + 1) * 8) 0) u,
  length-replicate ((n + 1) * 8) zero,
  length-words a,
)
length-words (span w raw n {u = u} hw hz hr hn a) =
    omega (arith, length-append w (raw ++ u), length-append raw u, length-words a)
length-words (plain w {u = u} hw h0 h1 a) = omega (arith, length-append w u, length-words a)
