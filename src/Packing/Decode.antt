-- ===== src/Packing/Decode.antt =====
-- `unpack` of src/serialization/packing.ts reads the packed format.
use capnp_es.Prelude.{
  ℕ, zero, suc, ◌+◌, ◌*◌, ◌≤◌, ◌≡◌, refl, ap, ◌∙◌, ◌≢◌, ◌^◌, List, [], ◌∷◌, ◌++◌, append_assoc,
  length, length-append, length-replicate, replicate, some, arith,
}
use capnp_es.Errors.{ok}
use capnp_es.Prelude.Slices.{replicate-add}
use capnp_es.Packing.{unpack_loop, unpack, nonzero_nonspan_tag}
use capnp_es.Packing.Format.{tag_of, nonzeros, Packs, done, zeros, span, plain}
use capnp_es.Packing.Tag.{tag_of_ones, nonzeros_self}
use capnp_es.Packing.Count.{get_unpacked_byte_length-Packs}
use capnp_es.Packing.Unpack.{at, run, run_word, run_zero, run_span}

abbrev zero_word : List ℕ
zero_word = replicate 8 0

range-split : (n : ℕ) → replicate ((n + 1) * 8) zero ≡ zero_word ++ replicate (n * 8) 0
range-split n = ap (λ (k : ℕ). replicate k zero) (omega arith) ∙ replicate-add 8 (n * 8) zero

-- The loop appends what the packed bytes stand for.
run-Packs :
    {p u : List ℕ} (a : Packs p u) (fuel last k : ℕ) (out : List ℕ)
    → length p ≤ fuel
    → last ≢ 0
    → last ≢ 255
    → k ≡ length u
    → run fuel last (at p out k) ≡ some (ok (out ++ u))
run-Packs done fuel last k out hf h0 h1 e = unfold unpack_loop in rw e
run-Packs (zeros n h a) zero last k out hf h0 h1 e = absurd (omega arith)
run-Packs (zeros n h a) (suc zero) last k out hf h0 h1 e = absurd (omega arith)
run-Packs (zeros n {p = p} {u = u} h a) (suc (suc f)) last k out hf h0 h1 e =
    run_word (suc f) (n ∷ p) out (n * 8 + length u) k last zero_word h0 h1 refl total
    ∙ run_zero f p (out ++ zero_word) (length u) (n * 8 + length u) n refl
    ∙ run-Packs a f nonzero_nonspan_tag (length u) ((out ++ zero_word) ++ replicate (n * 8) 0)
        (omega arith) (omega arith) (omega arith) refl
    ∙ ap (λ l. some (ok l)) (rw (range-split n) (simp append_assoc))
  where
    total : k ≡ 8 + (n * 8 + length u)
    total =
        omega
          (arith, length-append (replicate ((n + 1) * 8) 0) u, length-replicate ((n + 1) * 8) zero)
run-Packs (span w raw n hw hz hr hm a) zero last k out hf h0 h1 e = absurd (omega arith)
run-Packs (span w raw n {p = p} hw hz hr hm a) (suc zero) last k out hf h0 h1 e =
    absurd (omega (arith, length-append w (n ∷ (raw ++ p))))
run-Packs (span w raw n {p = p} {u = u} hw hz hr hm a) (suc (suc f)) last k out hf h0 h1 e =
    run_full
    ∙ run_span f p (out ++ w) (length u) (n * 8 + length u) n raw hr refl
    ∙ run-Packs a f nonzero_nonspan_tag (length u) ((out ++ w) ++ raw)
        (omega (arith, length-append w (n ∷ (raw ++ p)), length-append raw p)) (omega arith)
        (omega arith) refl
    ∙ ap (λ l. some (ok l)) (simp append_assoc)
  where
    ones : tag_of w ≡ 255
    ones = omega (arith, tag_of_ones w hz, ap (λ j. 2 ^ j) hw)

    run_full :
        run (suc (suc f)) last (at (255 ∷ (w ++ (n ∷ (raw ++ p)))) out k)
        ≡ run (suc f) 255 (at (n ∷ (raw ++ p)) (out ++ w) (n * 8 + length u))
    run_full =
        rw (ones, nonzeros_self w hz) at
          (run_word (suc f) (n ∷ (raw ++ p)) out (n * 8 + length u) k last w h0 h1 hw
            (omega (arith, length-append w (raw ++ u), length-append raw u)))
run-Packs (plain w hw t0 t1 a) zero last k out hf h0 h1 e = absurd (omega arith)
run-Packs (plain w {p = p} {u = u} hw t0 t1 a) (suc f) last k out hf h0 h1 e =
    run_word f p out (length u) k last w h0 h1 hw (omega (arith, length-append w u))
    ∙ run-Packs a f (tag_of w) (length u) (out ++ w) (omega (arith, length-append (nonzeros w) p))
        (omega arith) (omega arith) refl
    ∙ ap (λ l. some (ok l)) (append_assoc out w u)

-- `unpack` of packed bytes ends, throws nothing and returns what they stand for.
pub unpack-Packs : {p u : List ℕ} → Packs p u → unpack p ≡ some (ok u)
unfolding unpack
unpack-Packs {p} {u} a =
    rw (get_unpacked_byte_length-Packs a, unpack)
      (run-Packs a (length p) nonzero_nonspan_tag (length u) [] (omega arith) (omega arith)
        (omega arith) refl)
