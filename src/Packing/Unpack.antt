-- ===== src/Packing/Unpack.antt =====
-- `unpack` of src/serialization/packing.ts on packed bytes.
use capnp_es.Prelude.{
  ℕ, zero, suc, ◌+◌, ◌*◌, ◌≡◌, sym, ap, ◌≢◌, ◌==◌, true, Bool-cases, ==_iff, inl, inr, List, [],
  ◌∷◌, ◌++◌, append-nil, append_assoc, length, length-append, length-replicate, set, drop, leb,
  replicate, Option, arith,
}
use capnp_es.Errors.{Result, ok}
use capnp_es.Prelude.Slices.{take-append, set-append, replicate-add, take-append_at, drop-append_at}
use capnp_es.Packing.{
  Unpacker, unpack_word, unpack_step, unpack_loop, masks, set_bytes, nonzero_nonspan_tag,
}
use capnp_es.Packing.Format.{tag_of, nonzeros}
use capnp_es.Packing.Tag.{Agrees, tag_of-Agrees}

-- The variables of the loop when `out` is written and `rest` zeros are still to come.
abbrev pub at : List ℕ → List ℕ → ℕ → Unpacker
at src out rest = record { src = src; dst = out ++ replicate rest 0; dst_byte_offset = length out }

snoc {ℓ} :
    {A : Type ℓ} (xs : List A) (x : A) (ys : List A) → xs ++ (x ∷ ys) ≡ (xs ++ (x ∷ [])) ++ ys
snoc xs x ys = sym (append_assoc xs (x ∷ []) ys)

length-snoc {ℓ} : {A : Type ℓ} (xs : List A) (x : A) → length xs + 1 ≡ length (xs ++ (x ∷ []))
length-snoc xs x = omega (arith, length-append xs (x ∷ []))

skip-at :
    (src out : List ℕ) (rest : ℕ)
    → record (at src out (suc rest)) { dst_byte_offset = length out + 1 }
      ≡ at src (out ++ (0 ∷ [])) rest
skip-at src out rest = cc (snoc out 0 (replicate rest 0), length-snoc out 0)

store-at :
    (b : ℕ) (src out : List ℕ) (rest : ℕ)
    → record (at src out (suc rest)) {
      dst = set (out ++ (0 ∷ replicate rest 0)) (length out) b;
      dst_byte_offset = length out + 1;
    }
      ≡ at src (out ++ (b ∷ [])) rest
store-at b src out rest =
    cc (set-append out 0 (replicate rest 0) b, snoc out b (replicate rest 0), length-snoc out b)

-- The masks of a tag put the bytes of a word in their places.
unpack_word-Agrees :
    (tag : ℕ) (ms w src out : List ℕ) (rest k : ℕ)
    → length ms ≡ length w
    → k ≡ length w + rest
    → Agrees tag ms w
    → unpack_word tag ms (at (nonzeros w ++ src) out k) ≡ at src (out ++ w) rest
unfolding unpack_word
unpack_word-Agrees tag [] [] src out rest k h e g =
    rw append-nil (ap (λ j. at src out j) (omega arith))
unpack_word-Agrees tag [] (b ∷ w) src out rest k h e g = absurd (omega arith)
unpack_word-Agrees tag (i ∷ ms) [] src out rest k h e g = absurd (omega arith)
unpack_word-Agrees tag (i ∷ ms) (b ∷ w) src out rest zero h e g = absurd (omega arith)
unpack_word-Agrees tag (i ∷ ms) (b ∷ w) src out rest (suc k) h e g =
    let later =
      unpack_word-Agrees tag ms w src (out ++ (b ∷ [])) rest k (omega arith) (omega arith) g.1 in
    rw (g.0, snoc out b w, ← later)
      (elim (Bool-cases (b == 0)) [
        | inl z ↦
            let b0 : b ≡ 0 = (==_iff b 0).0 z in
            rw z (ap (unpack_word tag ms) (rw b0 (skip-at (nonzeros w ++ src) out k)))
        | inr z ↦ rw z (ap (unpack_word tag ms) (store-at b (nonzeros w ++ src) out k))
      ])

seek-at :
    (src out : List ℕ) (m rest k : ℕ)
    → k ≡ m + rest
    → record (at src out k) { dst_byte_offset = length out + m }
      ≡ at src (out ++ replicate m 0) rest
seek-at src out m rest k e = cc (
  ap (λ (j : ℕ). replicate j zero) e,
  replicate-add m rest zero,
  append_assoc out (replicate m 0) (replicate rest 0),
  length-append out (replicate m 0),
  length-replicate m zero,
)

set_bytes-at :
    (raw out : List ℕ) (rest k : ℕ)
    → k ≡ length raw + rest
    → set_bytes (out ++ replicate k 0) raw (length out) ≡ ok ((out ++ raw) ++ replicate rest 0)
unfolding set_bytes
set_bytes-at raw out rest k e =
    rw (e, replicate-add (length raw) rest zero, take-append out, room)
      (ap ok (rw (behind, append_assoc out raw (replicate rest 0))))
  where
    rep : List ℕ
    rep = replicate (length raw) 0

    room : leb (length out + length raw) (length (out ++ (rep ++ replicate rest 0))) ≡ true
    room = ground (
      arith,
      length-append out (rep ++ replicate rest 0),
      length-append rep (replicate rest 0),
      length-replicate (length raw) zero,
    )

    behind : drop (length out + length raw) (out ++ (rep ++ replicate rest 0)) ≡ replicate rest 0
    behind = rw (← append_assoc out rep (replicate rest 0)) (
        drop-append_at _ (out ++ rep) _
          (omega (arith, length-append out rep, length-replicate (length raw) zero)))

abbrev pub run : ℕ → ℕ → Unpacker → Option (Result (List ℕ))
run fuel last u = unpack_loop fuel last u.src u.dst u.dst_byte_offset

run_step :
    (fuel last tag t : ℕ) (src dst : List ℕ) (off : ℕ) (u : Unpacker)
    → unpack_step last tag (record { src = src; dst = dst; dst_byte_offset = off }) ≡ ok (t, u)
    → unpack_loop (suc fuel) last (tag ∷ src) dst off ≡ run fuel t u
unfolding unpack_loop
run_step fuel last tag t src dst off u e = rw (e, unpack_loop)

-- One round of the loop at the tag of a word, at the count of a range of zeros, and at that of a
-- span.
module _ (fuel : ℕ) (src out : List ℕ) (rest k : ℕ) where
  pub run_word :
      (last : ℕ) (w : List ℕ)
      → last ≢ 0
      → last ≢ 255
      → length w ≡ 8
      → k ≡ length w + rest
      → run (suc fuel) last (at (tag_of w ∷ (nonzeros w ++ src)) out k)
        ≡ run fuel (tag_of w) (at src (out ++ w) rest)
  unfolding unpack_step
  run_word last w h0 h1 hw e =
      run_step fuel last (tag_of w) (tag_of w) (nonzeros w ++ src) (out ++ replicate k 0)
        (length out) (at src (out ++ w) rest)
        (ground (
          arith,
          unpack_word-Agrees (tag_of w) masks w src out rest k (sym hw) e (tag_of-Agrees w hw),
        ))

  pub run_zero :
      (n : ℕ)
      → k ≡ n * 8 + rest
      → run (suc fuel) 0 (at (n ∷ src) out k)
        ≡ run fuel nonzero_nonspan_tag (at src (out ++ replicate (n * 8) 0) rest)
  unfolding unpack_step
  run_zero n e =
      run_step fuel 0 n nonzero_nonspan_tag src (out ++ replicate k 0) (length out) _
        (ap (λ u. ok (nonzero_nonspan_tag, u)) (seek-at src out (n * 8) rest k e))

  pub run_span :
      (n : ℕ) (raw : List ℕ)
      → length raw ≡ n * 8
      → k ≡ n * 8 + rest
      → run (suc fuel) 255 (at (n ∷ (raw ++ src)) out k)
        ≡ run fuel nonzero_nonspan_tag (at src (out ++ raw) rest)
  unfolding unpack_step
  run_span n raw h e =
      run_step fuel 255 n nonzero_nonspan_tag (raw ++ src) (out ++ replicate k 0) (length out) _ (
        rw
          (
            take-append_at (n * 8) raw src h,
            drop-append_at (n * 8) raw src h,
            set_bytes-at raw out rest k (omega arith),
          )
          (ap
            (λ (j : ℕ). ok (
              nonzero_nonspan_tag,
              record { src = src; dst = (out ++ raw) ++ replicate rest 0; dst_byte_offset = j },
            ))
            (omega (arith, length-append out raw))))
