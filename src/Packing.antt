-- ===== src/Packing.antt =====
-- src/serialization/packing.ts: the packed encoding of word-aligned buffers. Buffers are lists of
-- bytes. The index into the packed source is the suffix of the list that starts there.
pub mod Tag
pub mod Count
pub mod Unpack
pub mod Decode
pub mod Encode
pub mod RoundTrip
pub mod Total
pub mod Format
use capnp_es.Prelude.{
  ℕ, zero, suc, ◌+◌, ◌-◌, ◌*◌, ◌/◌, ◌%◌, ◌^◌, bit_and, bit_or, ltb, leb, ◌==◌, if◌then◌else◌, Bool,
  true, false, ◌&&◌, ◌||◌, not, List, [], ◌∷◌, ◌++◌, length, get_elem?, get_or, set, take, drop,
  replicate, Option, none, some,
}
use capnp_es.Errors.{
  Error, msg_pack_not_word_aligned, range_error, Result, ok, err, guard, ◌>>=◌, ◌>>◌,
}

-- The values of `PackedTag`, and PACK_SPAN_THRESHOLD of constants.ts.
abbrev pub zero_tag : ℕ
zero_tag = 0x00

abbrev pub span_tag : ℕ
span_tag = 0xff

abbrev pub nonzero_nonspan_tag : ℕ
nonzero_nonspan_tag = 0x77

abbrev pub pack_span_threshold : ℕ
pack_span_threshold = 2

-- The number of ones of a 32-bit word. The last product is exact in a double, and `>> 24` reads it
-- modulo 2 ^ 32.
unfoldable pub get_hamming_weight : ℕ → ℕ
get_hamming_weight x =
    let w = x - bit_and (x / 2) 0x5555_5555 in
    let v = bit_and w 0x3333_3333 + bit_and (w / 4) 0x3333_3333 in
    (bit_and (v + v / 16) 0x0f0f_0f0f * 0x0101_0101) % 2 ^ 32 / 2 ^ 24

-- What `src[i]` gives: a byte, or `undefined` behind the end. `undefined === 0` is false, and an
-- `undefined` that is pushed is 0 in the Uint8Array that is returned.
pub data Read : Type 0 where
  byte : ℕ → Read
  undefined : Read

abbrev pub is_zero : Read → Bool
is_zero (byte b) = b == 0
is_zero undefined = false

abbrev pub stored : Read → ℕ
stored (byte b) = b
stored undefined = 0

abbrev pub read : List ℕ → ℕ → Read
read src i = elim (get_elem? src i) [ none ↦ undefined | some b ↦ byte b ]

-- The bytes `a` to `h` of a word.
abbrev pub Word : Type 0
Word = Read × Read × Read × Read × Read × Read × Read × Read

abbrev pub read_word : List ℕ → Word
read_word src =
    (read src 0, read src 1, read src 2, read src 3, read src 4, read src 5, read src 6, read src 7)

-- The tag of a word by which of its bytes are 0.
abbrev pub tag_bits : Bool → Bool → Bool → Bool → Bool → Bool → Bool → Bool → ℕ
tag_bits a b c d e f g h = bit_or (if a then 0 else 1) (
    bit_or (if b then 0 else 2) (
      bit_or (if c then 0 else 4) (
        bit_or (if d then 0 else 8) (
          bit_or (if e then 0 else 16)
            (bit_or (if f then 0 else 32) (bit_or (if g then 0 else 64) (if h then 0 else 128)))))))

unfoldable pub get_tag_byte : Word → ℕ
get_tag_byte (a, b, c, d, e, f, g, h) =
    tag_bits (is_zero a) (is_zero b) (is_zero c) (is_zero d) (is_zero e) (is_zero f) (is_zero g)
      (is_zero h)

abbrev pub one_if : Bool → ℕ
one_if b = if b then 1 else 0

unfoldable pub get_zero_byte_count : Word → ℕ
get_zero_byte_count (a, b, c, d, e, f, g, h) =
    one_if (is_zero a)
    + one_if (is_zero b)
    + one_if (is_zero c)
    + one_if (is_zero d)
    + one_if (is_zero e)
    + one_if (is_zero f)
    + one_if (is_zero g)
    + one_if (is_zero h)

-- The loop of `getUnpackedByteLength` over the suffix of `p` that starts at `i`; `none` means that
-- the fuel ran out.
unfoldable pub count_words : ℕ → List ℕ → ℕ → ℕ → Option ℕ
count_words fuel [] last_tag word_count = some word_count
count_words zero (tag ∷ p) last_tag word_count = none
count_words (suc fuel) (tag ∷ p) last_tag word_count =
    let after_zero = count_words fuel p nonzero_nonspan_tag (word_count + tag) in
    let after_span = count_words fuel (drop (tag * 8) p) nonzero_nonspan_tag (word_count + tag) in
    let after_word = count_words fuel (drop (get_hamming_weight tag) p) tag (word_count + 1) in
    if last_tag == zero_tag
    then after_zero
    else (if last_tag == span_tag then after_span else after_word)

-- Each round takes a byte at least, so `length packed` rounds are enough.
unfoldable pub get_unpacked_byte_length : List ℕ → Option ℕ
get_unpacked_byte_length packed = elim (count_words (length packed) packed nonzero_nonspan_tag 0) [
  | none ↦ none
  | some word_count ↦ some (word_count * 8)
]

-- The variables of the loop of `pack`.
pub record Packer : Type 0 where
  pub dst : List ℕ
  pub last_tag : ℕ
  pub span_word_count_offset : ℕ
  pub range_word_count : ℕ

-- `if (a !== 0) dst.push(a); …`
unfoldable pub push_nonzero : List ℕ → List Read → List ℕ
push_nonzero dst [] = dst
push_nonzero dst (a ∷ rest) = push_nonzero (if is_zero a then dst else dst ++ (stored a ∷ [])) rest

abbrev pub word_reads : Word → List Read
word_reads (a, b, c, d, e, f, g, h) = a ∷ b ∷ c ∷ d ∷ e ∷ f ∷ g ∷ h ∷ []

abbrev pub word_bytes : Word → List ℕ
word_bytes (a, b, c, d, e, f, g, h) =
    stored a ∷ stored b ∷ stored c ∷ stored d ∷ stored e ∷ stored f ∷ stored g ∷ stored h ∷ []

-- The part of the loop's body behind the switch: the tag, the bytes that are not 0, and room for
-- the word count of a span.
unfoldable pub write_word : Word → Packer → Packer
write_word w p =
    let tag = get_tag_byte w in
    let dst = push_nonzero (p.dst ++ (tag ∷ [])) (word_reads w) in
    if tag == span_tag
    then record p { dst = dst ++ (0 ∷ []); last_tag = tag; span_word_count_offset = length dst }
    else record p { dst = dst; last_tag = tag }

-- The loop's body: the switch on the last tag, which may end in `continue`.
unfoldable pub pack_word : Word → Packer → Packer
pack_word w p =
    if p.last_tag == zero_tag
    then (if not (get_tag_byte w == zero_tag) || leb 0xff p.range_word_count
        then write_word w
            (record p { dst = p.dst ++ (p.range_word_count ∷ []); range_word_count = 0 })
        else record p { range_word_count = p.range_word_count + 1 })
    else if p.last_tag == span_tag
    then (if leb pack_span_threshold (get_zero_byte_count w) || leb 0xff p.range_word_count
        then write_word w (record p {
          dst = set p.dst p.span_word_count_offset p.range_word_count;
          range_word_count = 0;
        })
        else record p { dst = p.dst ++ word_bytes w; range_word_count = p.range_word_count + 1 })
    else write_word w p

-- The loop over the suffix of `src` that starts at `srcByteOffset`. Each round goes 8 bytes on, so
-- `length src` rounds are enough: the fuel cannot run out before the bytes do.
unfoldable pub pack_loop : ℕ → List ℕ → Packer → Packer
pack_loop fuel [] p = p
pack_loop zero (b ∷ src) p = p
pack_loop (suc fuel) (b ∷ src) p =
    pack_loop fuel (drop 8 (b ∷ src)) (pack_word (read_word (b ∷ src)) p)

-- "If we were writing a range let's finish it."
unfoldable pub finish : Packer → List ℕ
finish p =
    if p.last_tag == zero_tag
    then p.dst ++ (p.range_word_count ∷ [])
    else if p.last_tag == span_tag
    then set p.dst p.span_word_count_offset p.range_word_count
    else p.dst

abbrev pub new_packer : Packer
new_packer = record {
  dst = [];
  last_tag = nonzero_nonspan_tag;
  span_word_count_offset = 0;
  range_word_count = 0;
}

unfoldable pub pack_view : List ℕ → List ℕ
pack_view src = finish (pack_loop (length src) src new_packer)

-- `new Uint8Array(buffer, byteOffset, byteLength)`
unfoldable pub uint8_view : List ℕ → ℕ → Option ℕ → Result (List ℕ)
uint8_view buffer byte_offset none =
    if leb byte_offset (length buffer) then ok (drop byte_offset buffer) else err range_error
uint8_view buffer byte_offset (some byte_length) =
    if leb (byte_offset + byte_length) (length buffer)
    then ok (take byte_length (drop byte_offset buffer))
    else err range_error

unfoldable pub pack : List ℕ → ℕ → Option ℕ → Result (List ℕ)
pack unpacked byte_offset byte_length = do
  guard (length unpacked % 8 == 0) msg_pack_not_word_aligned
  src ← uint8_view unpacked byte_offset byte_length
  ok (pack_view src)

-- The variables of the loop of `unpack`; `src` is what `srcByteOffset` has not reached.
pub record Unpacker : Type 0 where
  pub src : List ℕ
  pub dst : List ℕ
  pub dst_byte_offset : ℕ

-- The values of `i` in `for (let i = 1; i <= 0b1000_0000; i <<= 1)`.
abbrev pub masks : List ℕ
masks = 1 ∷ 2 ∷ 4 ∷ 8 ∷ 16 ∷ 32 ∷ 64 ∷ 128 ∷ []

-- A write behind the end of `dst` is ignored, and `src[…]` behind its end is written as 0.
unfoldable pub unpack_word : ℕ → List ℕ → Unpacker → Unpacker
unpack_word tag [] u = u
unpack_word tag (i ∷ rest) u = unpack_word tag rest (
    if bit_and tag i == 0 then record u { dst_byte_offset = u.dst_byte_offset + 1 } else record u {
      src = drop 1 u.src;
      dst = set u.dst u.dst_byte_offset (get_or u.src 0 0);
      dst_byte_offset = u.dst_byte_offset + 1;
    })

-- `dst.set(bytes, offset)`
unfoldable pub set_bytes : List ℕ → List ℕ → ℕ → Result (List ℕ)
set_bytes dst bytes offset =
    if leb (offset + length bytes) (length dst)
    then ok (take offset dst ++ (bytes ++ drop (offset + length bytes) dst))
    else err range_error

-- One round of the loop, at a tag and the bytes behind it: the next last tag and variables.
unfoldable pub unpack_step : ℕ → ℕ → Unpacker → Result (ℕ × Unpacker)
unpack_step last_tag tag u =
    if last_tag == zero_tag
    then ok (nonzero_nonspan_tag, record u { dst_byte_offset = u.dst_byte_offset + tag * 8 })
    else if last_tag == span_tag
    then (do
      let span_byte_length = tag * 8
      dst ← set_bytes u.dst (take span_byte_length u.src) u.dst_byte_offset
      ok (
        nonzero_nonspan_tag,
        record {
          src = drop span_byte_length u.src;
          dst = dst;
          dst_byte_offset = u.dst_byte_offset + span_byte_length;
        },
      ))
    else ok (tag, unpack_word tag masks u)

-- `none` means that the fuel ran out.
unfoldable pub unpack_loop : ℕ → ℕ → List ℕ → List ℕ → ℕ → Option (Result (List ℕ))
unpack_loop fuel last_tag [] dst dst_byte_offset = some (ok dst)
unpack_loop zero last_tag (tag ∷ src) dst dst_byte_offset = none
unpack_loop (suc fuel) last_tag (tag ∷ src) dst dst_byte_offset =
    elim (unpack_step last_tag tag
      (record { src = src; dst = dst; dst_byte_offset = dst_byte_offset })) [
        | err e ↦ some (err e)
        | ok (t, u) ↦ unpack_loop fuel t u.src u.dst u.dst_byte_offset
      ]

unfoldable pub unpack : List ℕ → Option (Result (List ℕ))
unpack packed = elim (get_unpacked_byte_length packed) [
  | none ↦ none
  | some n ↦ unpack_loop (length packed) nonzero_nonspan_tag packed (replicate n 0) 0
]
