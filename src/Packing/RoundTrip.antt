-- ===== src/Packing/RoundTrip.antt =====
-- `unpack` after `pack` (src/serialization/packing.ts), for one view and for several packed one
-- after the other.
use capnp_es.Prelude.{
  ℕ, zero, suc, ◌*◌, ◌/◌, ◌%◌, ◌≤◌, ◌≡◌, refl, ap, ◌∙◌, ==_iff, List, [], ◌∷◌, ◌++◌, map,
  append-nil, append_assoc, length, length-drop, take, drop, take-append-drop, Option, some, arith,
  subst,
}
use capnp_es.Errors.{ok}
use capnp_es.Prelude.Slices.{All, flatten}
use capnp_es.Packing.{
  read_word, Packer, pack_word, pack_loop, new_packer, pack_view, uint8_view, pack, unpack,
  get_unpacked_byte_length,
}
use capnp_es.Packing.Format.{Packs, done, Packs-append}
use capnp_es.Packing.Tag.{get_tag_byte-read_word}
use capnp_es.Packing.Decode.{unpack-Packs}
use capnp_es.Packing.Count.{get_unpacked_byte_length-Packs}
use capnp_es.Packing.Encode.{Reads, State, outside, pack_word-State, finish-Packs}

read_word-Reads : (src : List ℕ) → 8 ≤ length src → Reads (read_word src) (take 8 src)
read_word-Reads (a ∷ b ∷ c ∷ d ∷ e ∷ f ∷ g ∷ h ∷ src) k = record {
  size = refl;
  tag = get_tag_byte-read_word a b c d e f g h src;
  reads = refl;
  bytes = refl;
}
read_word-Reads [] k = absurd (omega arith)
read_word-Reads (a ∷ []) k = absurd (omega arith)
read_word-Reads (a ∷ b ∷ []) k = absurd (omega arith)
read_word-Reads (a ∷ b ∷ c ∷ []) k = absurd (omega arith)
read_word-Reads (a ∷ b ∷ c ∷ d ∷ []) k = absurd (omega arith)
read_word-Reads (a ∷ b ∷ c ∷ d ∷ e ∷ []) k = absurd (omega arith)
read_word-Reads (a ∷ b ∷ c ∷ d ∷ e ∷ f ∷ []) k = absurd (omega arith)
read_word-Reads (a ∷ b ∷ c ∷ d ∷ e ∷ f ∷ g ∷ []) k = absurd (omega arith)

pack_loop-State :
    (n fuel : ℕ) (src : List ℕ) (s : Packer) {u : List ℕ}
    → length src ≡ n * 8
    → n ≤ fuel
    → State s u
    → State (pack_loop fuel src s) (u ++ src)
unfolding pack_loop
pack_loop-State n fuel [] s h k st = rw append-nil st
pack_loop-State zero fuel (b ∷ src) s h k st = absurd (omega arith)
pack_loop-State (suc n) zero (b ∷ src) s h k st = absurd (omega arith)
pack_loop-State (suc n) (suc fuel) (b ∷ src) s {u} h k st =
    subst (λ l. State (pack_loop (suc fuel) (b ∷ src) s) l)
      (append_assoc u _ _ ∙ ap (λ l. u ++ l) (take-append-drop 8 (b ∷ src)))
      (pack_loop-State n fuel (drop 8 (b ∷ src)) (pack_word (read_word (b ∷ src)) s)
        (omega (arith, length-drop 8 (b ∷ src))) (omega arith)
        (pack_word-State (read_word-Reads (b ∷ src) (omega arith)) s st))

-- What `pack` writes for a view of whole words stands for the bytes of the view.
pub pack_view-Packs : (src : List ℕ) → length src % 8 ≡ 0 → Packs (pack_view src) src
unfolding pack_view
pack_view-Packs src h = finish-Packs (
    pack_loop-State (length src / 8) (length src) src new_packer (omega arith) (omega arith)
      (outside (omega arith) (omega arith) refl done))

-- For a buffer and a view in it that both hold whole words, `pack` throws nothing, and `unpack` of
-- its result ends, throws nothing and returns the bytes of the view; `getUnpackedByteLength` of the
-- result is the length of the view.
pub unpack-pack :
    (buffer : List ℕ) (byte_offset : ℕ) (byte_length : Option ℕ) (src : List ℕ)
    → length buffer % 8 ≡ 0
    → uint8_view buffer byte_offset byte_length ≡ ok src
    → length src % 8 ≡ 0
    → (p : List ℕ) × (pack buffer byte_offset byte_length ≡ ok p)
      × (unpack p ≡ some (ok src))
      × (get_unpacked_byte_length p ≡ some (length src))
unfolding pack
unpack-pack buffer byte_offset byte_length src h e hs =
    let a = pack_view-Packs src hs in
    (pack_view src, rw ((==_iff _ _).1 h, e), unpack-Packs a, get_unpacked_byte_length-Packs a)

flatten-Packs :
    (views : List (List ℕ))
    → All (λ v. length v % 8 ≡ 0) views
    → Packs (flatten (map pack_view views)) (flatten views)
flatten-Packs [] h = done
flatten-Packs (v ∷ views) h = Packs-append (pack_view-Packs v h.0) (flatten-Packs views h.1)

-- Views of whole words that are packed on their own and put one behind the other, as
-- `toPackedArrayBuffer` does with the frame and the segments, unpack in one go to the views' bytes.
pub unpack-flatten :
    (views : List (List ℕ))
    → All (λ v. length v % 8 ≡ 0) views
    → unpack (flatten (map pack_view views)) ≡ some (ok (flatten views))
unpack-flatten views h = unpack-Packs (flatten-Packs views h)
