-- ===== src/Serialization/Access/Store.antt =====
-- What a getter of a segment reads behind a setter (src/serialization/segment.ts).
use capnp_es.Prelude.{
  ℕ, zero, suc, ◌+◌, ◌*◌, ◌/◌, ◌^◌, ◌≤◌, ◌<◌, ◌≡◌, ◌≢◌, refl, sym, ap, ◌∙◌, leb, false, true, [],
  ◌∷◌, ◌++◌, append_assoc, length, length-append, length-take, length-drop, set, take, drop, arith,
}
use native.Mathlib.Nat.{pow-succ'}
use capnp_es.Prelude.Slices.{take-append_at, drop-append_at}
use capnp_es.Errors.{ok}
use capnp_es.Serialization.Arena.{Buffer, Heap, buffer_at}
use capnp_es.Serialization.Message.{Segment, Message, capacity}
use capnp_es.Serialization.Access.{bytes_of, number_of, view_get, view_set, get_uint, set_uint}

pub length-bytes_of : (width val : ℕ) → length (bytes_of width val) ≡ width
unfolding bytes_of
length-bytes_of zero val = refl
length-bytes_of (suc width) val = omega (arith, length-bytes_of width (val / 256))

pub number_of-bytes_of : (width val : ℕ) → val < 256 ^ width → number_of (bytes_of width val) ≡ val
unfolding bytes_of number_of
number_of-bytes_of zero val h = omega arith
number_of-bytes_of (suc width) val h =
    let p : val < 256 * 256 ^ width = rw (pow-succ' 256 width) at h in
    omega (arith, number_of-bytes_of width (val / 256) (omega (arith, p)))

-- What is written to a view, inside its buffer.
abbrev pub written : ℕ → Buffer → ℕ → ℕ → Buffer
written width b o val = take o b ++ (bytes_of width val ++ drop (o + width) b)

module _ (width : ℕ) (b : Buffer) (o val : ℕ) (inside : o + width ≤ length b) where
  pub view_set-written : view_set width b o val ≡ ok (written width b o val)
  unfolding view_set
  view_set-written = let i : leb (o + width) (length b) ≡ true = ground arith in rw i

  length-written : length (written width b o val) ≡ length b
  length-written = omega (
    arith,
    length-append (take o b) (bytes_of width val ++ drop (o + width) b),
    length-append (bytes_of width val) (drop (o + width) b),
    length-bytes_of width val,
    length-take o b,
    length-drop (o + width) b,
    inside,
  )

  read_back : take width (drop o (written width b o val)) ≡ bytes_of width val
  read_back =
      ap (take width) (
        drop-append_at o (take o b) (bytes_of width val ++ drop (o + width) b)
          (omega (arith, length-take o b, inside)))
      ∙ take-append_at width (bytes_of width val) (drop (o + width) b) (length-bytes_of width val)

  view_get-written : val < 256 ^ width → view_get width (written width b o val) o ≡ ok val
  unfolding view_get
  view_get-written h =
      let i : leb (o + width) (length (written width b o val)) ≡ true =
        ground (arith, length-written, inside) in
      rw (i, read_back) (ap ok (number_of-bytes_of width val h))

pub buffer_at-set_same :
    (h : Heap) (r : ℕ) (b : Buffer) → r < length h → buffer_at (set h r b) r ≡ b
buffer_at-set_same [] r b p = absurd (omega arith)
buffer_at-set_same (c ∷ h) zero b p = refl
buffer_at-set_same (c ∷ h) (suc r) b p = buffer_at-set_same h r b (omega arith)

pub buffer_at-set_other :
    (h : Heap) (r q : ℕ) (b : Buffer) → r ≢ q → buffer_at (set h r b) q ≡ buffer_at h q
buffer_at-set_other [] r q b n = refl
buffer_at-set_other (c ∷ h) zero zero b n = absurd (n refl)
buffer_at-set_other (c ∷ h) zero (suc q) b n = refl
buffer_at-set_other (c ∷ h) (suc r) zero b n = refl
buffer_at-set_other (c ∷ h) (suc r) (suc q) b n = buffer_at-set_other h r q b (λ e. n (ap suc e))

-- In a message that may be written, the setter of a number of `width` bytes succeeds inside the buffer of
-- the segment; the getter of the same width at the same offset reads the number back, the buffer has the
-- same length, and the bytes before the offset, the bytes behind the number and all other buffers
-- are as they were.
pub get_uint-set_uint :
    (width byte_offset val : ℕ) (s : Segment) (m : Message) (other : ℕ)
    → m.readonly ≡ false
    → s.buffer < length m.heap
    → byte_offset + width ≤ capacity m.heap s
    → val < 256 ^ width
    → s.buffer ≢ other
    → (m' : Message) × (set_uint width byte_offset val s m ≡ ok m')
      × (get_uint width byte_offset s m' ≡ ok val)
      × (capacity m'.heap s ≡ capacity m.heap s)
      × (take byte_offset (buffer_at m'.heap s.buffer)
          ≡ take byte_offset (buffer_at m.heap s.buffer))
      × (drop (byte_offset + width) (buffer_at m'.heap s.buffer)
          ≡ drop (byte_offset + width) (buffer_at m.heap s.buffer))
      × (buffer_at m'.heap other ≡ buffer_at m.heap other)
unfolding set_uint get_uint
get_uint-set_uint width o val s m other w p inside small n = (
  record m { heap = set m.heap s.buffer new },
  simp (w, view_set-written width b o val inside),
  rw same (view_get-written width b o val inside small),
  rw same (length-written width b o val inside),
  rw same (take-append_at o (take o b) _ (omega (arith, length-take o b, inside))),
  rw same (
      ap (λ l. drop (o + width) l)
        (sym (append_assoc (take o b) (bytes_of width val) (drop (o + width) b)))
      ∙ drop-append_at (o + width) (take o b ++ bytes_of width val) (drop (o + width) b) (
          omega (
            arith,
            length-append (take o b) (bytes_of width val),
            length-bytes_of width val,
            length-take o b,
            inside,
          ))),
  buffer_at-set_other m.heap s.buffer other new n,
)
  where
    b : Buffer
    b = buffer_at m.heap s.buffer

    new : Buffer
    new = written width b o val

    same : buffer_at (set m.heap s.buffer new) s.buffer ≡ new
    same = buffer_at-set_same m.heap s.buffer new p
