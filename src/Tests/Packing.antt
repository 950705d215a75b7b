-- ===== src/Tests/Packing.antt =====
-- Packing (src/serialization/packing.ts) on small inputs; the runs are those of the format's
-- documentation.
use capnp_es.Prelude.{ℕ, ◌%◌, ◌≡◌, refl, List, [], ◌∷◌, ◌++◌, length, none, some, arith, replicate}
use capnp_es.Errors.{err, ok, msg_pack_not_word_aligned}
use capnp_es.Packing.{
  get_hamming_weight, get_tag_byte, get_zero_byte_count, push_nonzero, write_word, pack_word,
  pack_loop, finish, pack_view, uint8_view, pack, count_words, get_unpacked_byte_length,
  unpack_word, set_bytes, unpack_step, unpack_loop, unpack,
}
use capnp_es.Packing.RoundTrip.{unpack-pack}
use capnp_es.Packing.Total.{unpack-total}

abbrev struct_word : List ℕ
struct_word = 8 ∷ 0 ∷ 0 ∷ 0 ∷ 3 ∷ 0 ∷ 2 ∷ 0 ∷ []

abbrev full_word : List ℕ
full_word = 1 ∷ 2 ∷ 3 ∷ 4 ∷ 5 ∷ 6 ∷ 7 ∷ 8 ∷ []

abbrev sample : List ℕ
sample = struct_word ++ (replicate 24 0 ++ (full_word ++ (full_word ++ struct_word)))

pack-sample :
    pack sample 0 none
    ≡ ok (
        0x51
        ∷ 8
        ∷ 3
        ∷ 2
        ∷ 0
        ∷ 2
        ∷ 0xff
        ∷ 1
        ∷ 2
        ∷ 3
        ∷ 4
        ∷ 5
        ∷ 6
        ∷ 7
        ∷ 8
        ∷ 1
        ∷ (full_word ++ (0x51 ∷ 8 ∷ 3 ∷ 2 ∷ [])))
unfolding pack uint8_view pack_view pack_loop pack_word write_word push_nonzero get_tag_byte
    get_zero_byte_count finish
pack-sample = refl

pack_unaligned : pack (1 ∷ 2 ∷ []) 0 none ≡ err msg_pack_not_word_aligned
unfolding pack
pack_unaligned = refl

-- A span that is cut short is filled up with zeros.
unpack_cut : unpack (0xff ∷ 1 ∷ 2 ∷ []) ≡ some (ok (1 ∷ 2 ∷ 0 ∷ 0 ∷ 0 ∷ 0 ∷ 0 ∷ 0 ∷ []))
unfolding unpack unpack_loop unpack_step unpack_word set_bytes get_unpacked_byte_length count_words
    get_hamming_weight
unpack_cut = refl

unpack-pack_example :
    (p : List ℕ) × (pack sample 8 (some 40) ≡ ok p)
    × (unpack p ≡ some (ok (replicate 24 0 ++ (full_word ++ full_word))))
    × (get_unpacked_byte_length p ≡ some 40)
unpack-pack_example =
    unpack-pack sample 8 (some 40) (replicate 24 0 ++ (full_word ++ full_word)) refl
      (unfold uint8_view in refl) refl

unpack-total_example :
    (u : List ℕ) × (unpack (0xff ∷ 1 ∷ 2 ∷ []) ≡ some (ok u))
    × (get_unpacked_byte_length (0xff ∷ 1 ∷ 2 ∷ []) ≡ some (length u))
    × (length u % 8 ≡ 0)
unpack-total_example = unpack-total (0xff ∷ 1 ∷ 2 ∷ []) (omega arith)
