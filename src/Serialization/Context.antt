-- ===== src/Serialization/Context.antt =====
-- The state that code on pointers works on, and the calls of segments in it
-- (src/serialization/segment.ts, and `trackPointerAllocation` of pointers/pointer.utils.ts).
pub mod Words
use capnp_es.Prelude.{
  ℕ, zero, suc, ◌+◌, ◌-◌, ◌*◌, ◌%◌, ◌^◌, leb, ◌==◌, ◌||◌, if◌then◌else◌, Bool, true, false, List,
  [], ◌∷◌, ◌++◌, length, get_elem?, set, take, drop, replicate, Option, none, some,
}
use capnp_es.Prelude.Int.{ℤ, pos, negsuc}
use capnp_es.Errors
use capnp_es.Errors.{
  Error, msg_segment_out_of_bounds, ptr_traversal_limit_exceeded, range_error, Result, ok, err,
  guard,
}
use capnp_es.Serialization.Arena.{Buffer, buffer_at}
use capnp_es.Serialization.Message
use capnp_es.Serialization.Message.{Segment, Message, assert_writable}
use capnp_es.Serialization.Access.{get_uint, set_uint}

-- The `_capnp` of a message: its segments, the limit of bytes that pointers may traverse, and its
-- table of capabilities, empty if it is undefined.
pub record Context : Type 0 where
  pub message : Message
  pub traversal_limit : ℕ
  pub cap_table : List (Option ℕ)

-- Code that works on a context and may throw.
abbrev pub Act : Type 0 → Type 0
Act A = Context → Result (A × Context)

abbrev pub pure : {A : Type 0} → A → Act A
pure a c = ok (a, c)

abbrev pub throw : {A : Type 0} → Error → Act A
throw e c = err e

abbrev pub bind : {A B : Type 0} → Result (A × Context) → (A → Act B) → Result (B × Context)
bind (err e) f = err e
bind (ok (a, c)) f = f a c

infixl 5 ◌>>=◌ ◌>>◌
abbrev pub ◌>>=◌ : {A B : Type 0} → Act A → (A → Act B) → Act B
◌>>=◌ m f c = bind (m c) f

abbrev pub ◌>>◌ : {B : Type 0} → Act (Unit {0}) → Act B → Act B
m >> k = m >>= λ _. k

-- `if (!test) throw e`
abbrev pub require : Bool → Error → Act (Unit {0})
require true e = pure tt
require false e = throw e

-- Code that only reads, and code that gives a new message.
abbrev pub reading : {A : Type 0} → Result A → Act A
reading (err e) c = err e
reading (ok a) c = ok (a, c)

abbrev pub writing : Result Message → Act (Unit {0})
writing (err e) c = err e
writing (ok m) c = ok (tt, record c { message = m })

-- The segment object with this id.
unfoldable pub segment_of : ℕ → Act Segment
segment_of id c = elim (get_elem? c.message.segments id) [
  | none ↦ err msg_segment_out_of_bounds
  | some s ↦ ok (s, c)
]

-- The getters and setters of the segment with this id, for numbers of `width` bytes.
unfoldable pub load : ℕ → ℕ → ℕ → Act ℕ
unfolding segment_of
load width id byte_offset = do
  s ← segment_of id
  λ c. reading (get_uint width byte_offset s c.message) c

unfoldable pub store : ℕ → ℕ → ℕ → ℕ → Act (Unit {0})
unfolding segment_of
store width id byte_offset val = do
  s ← segment_of id
  λ c. writing (set_uint width byte_offset val s c.message) c

-- `isWordZero` reads a double and compares it with 0, which -0 is equal to.
unfoldable pub is_word_zero : ℕ → ℕ → Act Bool
is_word_zero id byte_offset = do w ← load 8 id byte_offset; pure (w == 0 || w == 2 ^ 63)

unfoldable pub set_word_zero : ℕ → ℕ → Act (Unit {0})
set_word_zero id byte_offset = store 8 id byte_offset 0

-- `new Float64Array(buffer, byteOffset, wordLength)` throws unless the words are aligned and inside.
abbrev pub words_inside : Buffer → ℕ → ℕ → Result (Unit {0})
words_inside buffer byte_offset words =
    if byte_offset % 8 == 0
    then guard (leb (byte_offset + words * 8) (length buffer)) range_error
    else err range_error

-- A write of bytes over those at an offset.
abbrev pub put : Buffer → ℕ → List ℕ → Buffer
put buffer byte_offset bytes =
    take byte_offset buffer ++ (bytes ++ drop (byte_offset + length bytes) buffer)

abbrev pub put_in : Segment → ℕ → List ℕ → Message → Message
put_in s byte_offset bytes m = record m {
  heap = set m.heap s.buffer (put (buffer_at m.heap s.buffer) byte_offset bytes);
}

unfoldable pub fill_zero_words : ℕ → ℕ → ℕ → Act (Unit {0})
fill_zero_words id byte_offset words = do
  s ← segment_of id
  λ c. reading (assert_writable c.message) c
  λ c. reading (words_inside (buffer_at c.message.heap s.buffer) byte_offset words) c
  λ c. writing (ok (put_in s byte_offset (replicate (words * 8) 0) c.message)) c

-- `copyWords` between segments of one message.
unfoldable pub copy_words : ℕ → ℕ → ℕ → ℕ → ℕ → Act (Unit {0})
copy_words id byte_offset src_id src_byte_offset words = do
  s ← segment_of id
  src ← segment_of src_id
  λ c. reading (assert_writable c.message) c
  λ c. reading (words_inside (buffer_at c.message.heap s.buffer) byte_offset words) c
  λ c. reading (words_inside (buffer_at c.message.heap src.buffer) src_byte_offset words) c
  λ c.
      writing
        (ok (
          put_in s byte_offset
            (take (words * 8) (drop src_byte_offset (buffer_at c.message.heap src.buffer)))
            c.message))
        c

-- `copyWord`
unfoldable pub copy_word : ℕ → ℕ → ℕ → ℕ → Act (Unit {0})
unfolding load store
copy_word id byte_offset src_id src_byte_offset = do
  λ c. reading (assert_writable c.message) c
  w ← load 8 src_id src_byte_offset
  store 8 id byte_offset w

-- `trackPointerAllocation`. (A limit that would fall to 0 or below throws.)
unfoldable pub track_pointer_allocation : Act (Unit {0})
track_pointer_allocation c =
    if leb c.traversal_limit 8
    then err ptr_traversal_limit_exceeded
    else ok (tt, record c { traversal_limit = c.traversal_limit - 8 })

-- `Message.getSegment`, whose result is the id.
unfoldable pub get_segment : ℕ → Act ℕ
get_segment id c = elim (Message.get_segment id c.message) [
  | err e ↦ err e
  | ok (id', m) ↦ ok (id', record c { message = m })
]

-- `Message.addCap`
unfoldable pub add_cap : Option ℕ → Act ℕ
add_cap client c = ok (length c.cap_table, record c { cap_table = c.cap_table ++ (client ∷ []) })

-- `for (let i = first; i < first + rounds; i++) body(i)`
abbrev pub for_each : ℕ → ℕ → (ℕ → Act (Unit {0})) → Act (Unit {0})
for_each zero first body = pure tt
for_each (suc rounds) first body = body first >> for_each rounds (suc first) body

-- `fillZeroWords` for a number of words that may be negative, which the typed array refuses.
abbrev pub fill_words : ℕ → ℕ → ℤ → Act (Unit {0})
fill_words id byte_offset (pos words) = fill_zero_words id byte_offset words
fill_words id byte_offset (negsuc n) =
    (λ c. reading (assert_writable c.message) c) >> throw range_error
