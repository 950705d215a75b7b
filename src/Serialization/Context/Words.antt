-- ===== src/Serialization/Context/Words.antt =====
-- What stores do to the bytes of a segment, and what loads read (src/serialization/segment.ts).
use capnp_es.Prelude.{
  ℕ, zero, suc, ◌+◌, ◌-◌, ◌≤◌, ◌<◌, ◌≡◌, refl, sym, ap, ◌∙◌, leb, true, false, List, [], ◌∷◌, ◌++◌,
  append_assoc, length, length-append, length-take, length-drop, length-set, get_elem?, set, take,
  drop, take-append-drop, some, arith,
}
use capnp_es.Prelude.Slices.{take-append_at, drop-append_at, drop-drop}
use capnp_es.Errors.{ok}
use capnp_es.Serialization.Arena.{Buffer, Heap, buffer_at}
use capnp_es.Serialization.Message.{Segment, Message, capacity}
use capnp_es.Serialization.Message.Heaps.{take-append_of_le}
use capnp_es.Serialization.Access.{bytes_of, number_of, view_get, get_uint, set_uint}
use capnp_es.Serialization.Access.Store.{length-bytes_of, view_set-written, buffer_at-set_same}
use capnp_es.Serialization.Context.{
  Context, bind, reading, writing, segment_of, load, store, put, put_in,
}

pub drop-append_of_le {ℓ} :
    {A : Type ℓ} (n : ℕ) (xs ys : List A) → n ≤ length xs → drop n (xs ++ ys) ≡ drop n xs ++ ys
drop-append_of_le zero xs ys h = refl
drop-append_of_le (suc n) [] ys h = absurd (omega arith)
drop-append_of_le (suc n) (x ∷ xs) ys h = drop-append_of_le n xs ys (omega arith)

set-set {ℓ} : {A : Type ℓ} (l : List A) (i : ℕ) (x y : A) → set (set l i x) i y ≡ set l i y
set-set [] i x y = refl
set-set (z ∷ l) zero x y = refl
set-set (z ∷ l) (suc i) x y = ap (λ k. z ∷ k) (set-set l i x y)

module _ (b : Buffer) (o : ℕ) where
  pub length-put :
      (bytes : List ℕ) → o + length bytes ≤ length b → length (put b o bytes) ≡ length b
  length-put bytes h = omega (
    arith,
    length-append (take o b) (bytes ++ drop (o + length bytes) b),
    length-append bytes (drop (o + length bytes) b),
    length-take o b,
    length-drop (o + length bytes) b,
  )

  drop-put :
      (bytes : List ℕ) → o ≤ length b → drop o (put b o bytes) ≡ bytes ++ drop (o + length bytes) b
  drop-put bytes h =
      drop-append_at o (take o b) (bytes ++ drop (o + length bytes) b)
        (omega (arith, length-take o b))

  -- A slice of what was written.
  pub slice-put :
      (bytes : List ℕ) (k n : ℕ)
      → o ≤ length b
      → k + n ≤ length bytes
      → take n (drop (o + k) (put b o bytes)) ≡ take n (drop k bytes)
  slice-put bytes k n h h' =
      ap (take n) (
        sym (drop-drop o k (put b o bytes))
        ∙ ap (drop k) (drop-put bytes h)
        ∙ drop-append_of_le k bytes (drop (o + length bytes) b) (omega arith))
      ∙ take-append_of_le n (drop k bytes) (drop (o + length bytes) b)
          (omega (arith, length-drop k bytes))

  -- Two writes, one behind the other.
  pub put-put :
      (xs ys : List ℕ)
      → o + length xs ≤ length b
      → put (put b o xs) (o + length xs) ys ≡ put b o (xs ++ ys)
  put-put xs ys h =
      let front : take (o + length xs) (put b o xs) ≡ take o b ++ xs =
        ap (take (o + length xs)) (sym (append_assoc (take o b) xs (drop (o + length xs) b)))
        ∙ take-append_at (o + length xs) (take o b ++ xs) (drop (o + length xs) b)
            (omega (arith, length-append (take o b) xs, length-take o b)) in
      let back : drop (o + length xs + length ys) (put b o xs) ≡ drop (o + length (xs ++ ys)) b =
        sym (drop-drop (o + length xs) (length ys) (put b o xs))
        ∙ ap (drop (length ys)) (
            ap (drop (o + length xs)) (sym (append_assoc (take o b) xs (drop (o + length xs) b)))
            ∙ drop-append_at (o + length xs) (take o b ++ xs) (drop (o + length xs) b)
                (omega (arith, length-append (take o b) xs, length-take o b)))
        ∙ drop-drop (o + length xs) (length ys) b
        ∙ ap (λ k. drop k b) (omega (arith, length-append xs ys)) in
      rw (front, back)
        (append_assoc (take o b) xs (ys ++ drop (o + length (xs ++ ys)) b)
          ∙ ap (λ l. take o b ++ l) (sym (append_assoc xs ys (drop (o + length (xs ++ ys)) b))))

  -- A slice before or behind what was written.
  pub slice-put_before :
      (bytes : List ℕ) (k n : ℕ)
      → o ≤ length b
      → k + n ≤ o
      → take n (drop k (put b o bytes)) ≡ take n (drop k b)
  slice-put_before bytes k n h h' =
      let rest : List ℕ = bytes ++ drop (o + length bytes) b in
      ap (take n) (drop-append_of_le k (take o b) rest (omega (arith, length-take o b)))
      ∙ take-append_of_le n (drop k (take o b)) rest
          (omega (arith, length-take o b, length-drop k (take o b)))
      ∙ sym (
          ap (λ l. take n (drop k l)) (sym (take-append-drop o b))
          ∙ ap (take n) (drop-append_of_le k (take o b) (drop o b) (omega (arith, length-take o b)))
          ∙ take-append_of_le n (drop k (take o b)) (drop o b)
              (omega (arith, length-take o b, length-drop k (take o b))))

  pub slice-put_behind :
      (bytes : List ℕ) (k n : ℕ)
      → o ≤ length b
      → o + length bytes ≤ k
      → take n (drop k (put b o bytes)) ≡ take n (drop k b)
  slice-put_behind bytes k n h h' =
      let d : ℕ = k - (o + length bytes) in
      let e : k ≡ o + (length bytes + d) = omega arith in
      let e' : (o + length bytes) + d ≡ k = omega arith in
      ap (take n) (
        ap (λ j. drop j (put b o bytes)) e
        ∙ sym (drop-drop o (length bytes + d) (put b o bytes))
        ∙ ap (drop (length bytes + d)) (drop-put bytes h)
        ∙ sym (drop-drop (length bytes) d (bytes ++ drop (o + length bytes) b))
        ∙ ap (drop d) (drop-append_at (length bytes) bytes (drop (o + length bytes) b) refl)
        ∙ drop-drop (o + length bytes) d b
        ∙ ap (λ j. drop j b) e')

-- The context with bytes written to a segment.
abbrev pub putting : Context → Segment → ℕ → List ℕ → Context
putting c s o bytes = record c { message = put_in s o bytes c.message }

-- The buffer of a segment.
abbrev pub buffer_of : Context → Segment → Buffer
buffer_of c s = buffer_at c.message.heap s.buffer

-- A segment of a message that may be written, with its buffer.
pub record Open (c : Context) (id : ℕ) (s : Segment) : Type 0 where
  pub found : get_elem? c.message.segments id ≡ some s
  pub in_heap : s.buffer < length c.message.heap
  pub may_write : c.message.readonly ≡ false

set_uint-put :
    (width o val : ℕ) (s : Segment) (m : Message)
    → m.readonly ≡ false
    → o + width ≤ capacity m.heap s
    → set_uint width o val s m ≡ ok (put_in s o (bytes_of width val) m)
unfolding set_uint
set_uint-put width o val s m w inside =
    simp (
      w,
      view_set-written width (buffer_at m.heap s.buffer) o val inside,
      length-bytes_of width val,
    )

module _ {c : Context} {id : ℕ} {s : Segment} (open_segment : Open c id s) where
  pub segment_of_lem : segment_of id c ≡ ok (s, c)
  unfolding segment_of
  segment_of_lem = rw (open_segment.found, segment_of)

  pub load_lem :
      (width o : ℕ)
      → o + width ≤ length (buffer_of c s)
      → load width id o c ≡ ok (number_of (take width (drop o (buffer_of c s))), c)
  unfolding load get_uint view_get
  load_lem width o inside =
      let i : leb (o + width) (length (buffer_of c s)) ≡ true = ground arith in
      ap (λ r. bind r (λ s c. reading (get_uint width o s c.message) c)) segment_of_lem ∙ rw i

  pub store_lem :
      (width o val : ℕ)
      → o + width ≤ length (buffer_of c s)
      → store width id o val c ≡ ok (tt, putting c s o (bytes_of width val))
  unfolding store
  store_lem width o val inside =
      ap (λ r. bind r (λ s c. writing (set_uint width o val s c.message) c)) segment_of_lem
      ∙ ap (λ r. writing r c) (set_uint-put width o val s c.message open_segment.may_write inside)

  pub buffer_of-putting :
      (o : ℕ) (bytes : List ℕ) → buffer_of (putting c s o bytes) s ≡ put (buffer_of c s) o bytes
  buffer_of-putting o bytes =
      buffer_at-set_same c.message.heap s.buffer (put (buffer_of c s) o bytes) open_segment.in_heap

  pub Open-putting : (o : ℕ) (bytes : List ℕ) → Open (putting c s o bytes) id s
  Open-putting o bytes = record {
    found = open_segment.found;
    in_heap = omega (
      arith,
      length-set c.message.heap s.buffer (put (buffer_of c s) o bytes),
      open_segment.in_heap,
    );
    may_write = open_segment.may_write;
  }

  putting-putting :
      (o n : ℕ) (xs ys : List ℕ)
      → length xs ≡ n
      → o + n ≤ length (buffer_of c s)
      → putting (putting c s o xs) s (o + n) ys ≡ putting c s o (xs ++ ys)
  putting-putting o n xs ys e h =
      ap (λ (heap : Heap). record c { message = record c.message { heap = heap } })
        (ap
            (λ (b : Buffer).
              set (set c.message.heap s.buffer (put (buffer_of c s) o xs)) s.buffer
                (put b (o + n) ys))
            (buffer_of-putting o xs)
          ∙ set-set c.message.heap s.buffer _ _
          ∙ ap (set c.message.heap s.buffer)
              (rw (← e) (put-put (buffer_of c s) o xs ys (omega (arith, e, h)))))

  pub length-buffer_of-putting :
      (o : ℕ) (bytes : List ℕ)
      → o + length bytes ≤ length (buffer_of c s)
      → length (buffer_of (putting c s o bytes) s) ≡ length (buffer_of c s)
  length-buffer_of-putting o bytes h =
      rw (buffer_of-putting o bytes) (length-put (buffer_of c s) o bytes h)

module _ {c : Context} {id : ℕ} {s : Segment} (open_segment : Open c id s) where
  -- A store right behind what was written.
  pub store_more :
      (width o n val : ℕ) (xs : List ℕ)
      → length xs ≡ n
      → o + n + width ≤ length (buffer_of c s)
      → store width id (o + n) val (putting c s o xs)
        ≡ ok (tt, putting c s o (xs ++ bytes_of width val))
  store_more width o n val xs e h =
      store_lem (Open-putting open_segment o xs) width (o + n) val
        (omega (arith, e, length-buffer_of-putting open_segment o xs (omega (arith, e))))
      ∙ ap (λ k. ok (tt, k))
          (putting-putting open_segment o n xs (bytes_of width val) e (omega arith))

  -- A load from bytes that are known.
  pub load_slice :
      (width o k : ℕ) (xs : List ℕ)
      → take (length xs) (drop o (buffer_of c s)) ≡ xs
      → k + width ≤ length xs
      → o + length xs ≤ length (buffer_of c s)
      → load width id (o + k) c ≡ ok (number_of (take width (drop k xs)), c)
  load_slice width o k xs e h h' =
      let b : Buffer = buffer_of c s in
      let rest : List ℕ = drop (length xs) (drop o b) in
      let split : drop o b ≡ xs ++ rest =
        sym (take-append-drop (length xs) (drop o b)) ∙ ap (λ l. l ++ rest) e in
      load_lem open_segment width (o + k) (omega arith)
      ∙ ap (λ l. ok (number_of l, c))
          (ap (take width) (
              sym (drop-drop o k b) ∙ ap (drop k) split ∙ drop-append_of_le k xs rest (omega arith))
            ∙ take-append_of_le width (drop k xs) rest (omega (arith, length-drop k xs)))
