-- ===== src/IoUring/Ownership.antt =====
-- src/IOUring.cpp: where the receive buffers lie, and which of them the kernel may fill. What the
-- two calls of liburing do to the buffer ring is what its manual says, stated over a view of its
-- state.
use iuring.Prelude.{
  ℕ, zero, suc, ◌+◌, ◌*◌, ◌≤◌, ◌<◌, ◌≡◌, refl, ap, ◌∙◌, List, [], ◌∷◌, ◌++◌, arith, ◌==◌,
  if◌then◌else◌, some, ltb, leb,
}
use iuring.WorkPool.Slots.{count}
use iuring.Outcome.{ok, Error}
use iuring.Liburing.{Liburing, Sqe}
use iuring.IoUring.State.{IoUring, buffers, buffer_size}
use iuring.Completion.Int.{ℤ, pos}
use iuring.IoUring.Buffers.{
  get_buffer, add_buffers, push_ids, setup_buffer_pool, recycle_buffer, sizeof_buf, buf_ring_size,
}

-- The numbers a, a + 1, … of a range of n.
abbrev pub range_from : ℕ → ℕ → List ℕ
range_from a zero = []
range_from a (suc n) = a ∷ range_from (a + 1) n

-- The slots in the ring, counted from its tail.
abbrev pub pick : (ℕ → ℕ) → ℕ → ℕ → List ℕ
pick f a zero = []
pick f a (suc n) = f a ∷ pick f (a + 1) n

-- The manual's view of a buffer ring: the numbers that the kernel was handed so far, and what was
-- written behind the tail. `add` writes a number at an offset from the tail, `advance` hands over
-- as many slots, and the other functions leave the ring as it is.
pub record BufferRing {K : Type 0} (lib : Liburing K) : Type 0 where
  pub published : K → List ℕ
  pub slots : K → ℕ → ℕ
  pub add_slots :
      (k : K) (addr len bid offset j : ℕ)
      → slots (lib.buf_ring_add k addr len bid offset) j ≡ (if j == offset then bid else slots k j)
  pub add_published :
      (k : K) (addr len bid offset : ℕ)
      → published (lib.buf_ring_add k addr len bid offset) ≡ published k
  pub advance_published :
      (k : K) (n : ℕ) → published (lib.buf_ring_advance k n) ≡ published k ++ pick (slots k) 0 n
  pub get_sqe_published : (k k' : K) → lib.get_sqe k ≡ some k' → published k' ≡ published k
  pub prep_published : (k : K) (sqe : Sqe) → published (lib.prep k sqe) ≡ published k
  pub submit_published : (k : K) → published (lib.submit k) ≡ published k
  pub peek_published : (k : K) → published (lib.peek_cqe k).0 ≡ published k
  pub cq_advance_published : (k : K) → published (lib.cq_advance k) ≡ published k

-- Where the buffers lie after a mapping at an address: each inside it, behind the ring's own
-- entries, and no two overlapping.
pub get_buffer_layout :
    {K : Type 0} (s : IoUring K) (mapped i j : ℕ)
    → s.buffer_base ≡ mapped + sizeof_buf * buffers
    → i < j
    → j < buffers
    → (mapped + sizeof_buf * buffers ≤ get_buffer s i)
      × (get_buffer s i + buffer_size ≤ get_buffer s j)
      × (get_buffer s j + buffer_size ≤ mapped + buf_ring_size)
unfolding get_buffer
get_buffer_layout s mapped i j base h b = omega arith

pick-range : (f : ℕ → ℕ) (a n : ℕ) → ((j : ℕ) → j < a + n → f j ≡ j) → pick f a n ≡ range_from a n
pick-range f a zero h = refl
pick-range f a (suc n) h = rw (h a (omega arith), pick-range f (a + 1) n (λ j l. h j (omega arith)))

abbrev pub in_range : ℕ → ℕ → ℕ → ℕ
in_range a n i = if leb a i then (if ltb i (a + n) then 1 else 0) else 0

pub count-range : (i a n : ℕ) → count i (range_from a n) ≡ in_range a n i
count-range i a zero = ground arith
count-range i a (suc n) = ground (arith, count-range i (a + 1) n)

count-push_ids :
    (i : ℕ) (ids : List ℕ) (a n : ℕ) → count i (push_ids ids a n) ≡ count i ids + in_range a n i
unfolding push_ids
count-push_ids i ids a zero = ground arith
count-push_ids i ids a (suc n) = ground (arith, count-push_ids i (a ∷ ids) (suc a) n)

halves :
    (i a b : ℕ)
    → a ≡ in_range 0 512 i
    → b ≡ in_range 512 512 i
    → a + b ≡ (if ltb i buffers then 1 else 0)
halves i a b p q = ground arith

pub count-append : (i : ℕ) (xs ys : List ℕ) → count i (xs ++ ys) ≡ count i xs + count i ys
count-append i [] ys = omega arith
count-append i (x ∷ xs) ys = ground (arith, count-append i xs ys)

module _ {K : Type 0} (lib : Liburing K) (view : BufferRing lib) where
  -- Recycling hands exactly the one buffer back to the kernel, behind those that it has.
  pub recycle_published :
      (s : IoUring K) (idx : ℕ)
      → view.published (recycle_buffer lib s idx).ring ≡ view.published s.ring ++ idx ∷ []
  unfolding recycle_buffer
  recycle_published s idx =
      let k = lib.buf_ring_add s.ring (get_buffer s idx) buffer_size idx 0 in
      rw (view.advance_published k 1, view.add_published, view.add_slots)

  add_buffers_slots :
      (s : IoUring K) (i n j : ℕ)
      → j < i + n
      → (j < i → view.slots s.ring j ≡ j)
      → view.slots (add_buffers lib s i n).ring j ≡ j
  unfolding add_buffers
  add_buffers_slots s i zero j h known = known (omega arith)
  add_buffers_slots s i (suc n) j h known =
      add_buffers_slots
        (record s { ring = lib.buf_ring_add s.ring (get_buffer s i) buffer_size i i }) (suc i) n j
        (omega arith)
        (λ l. ground (arith, known, view.add_slots s.ring (get_buffer s i) buffer_size i i j))

  add_buffers_rest :
      (s : IoUring K) (i n : ℕ)
      → (view.published (add_buffers lib s i n).ring ≡ view.published s.ring)
        × ((add_buffers lib s i n).free_send_ids ≡ s.free_send_ids)
        × ((add_buffers lib s i n).buffer_base ≡ s.buffer_base)
  unfolding add_buffers
  add_buffers_rest s i zero = (refl, refl, refl)
  add_buffers_rest s i (suc n) =
      let (a, b, c) =
        add_buffers_rest
          (record s { ring = lib.buf_ring_add s.ring (get_buffer s i) buffer_size i i }) (suc i)
          n in
      (a ∙ view.add_published s.ring (get_buffer s i) buffer_size i i, b, c)

  published_first :
      (s : IoUring K) (n m : ℕ)
      → n ≤ m
      → view.published s.ring ≡ []
      → view.published (lib.buf_ring_advance (add_buffers lib s 0 m).ring n) ≡ range_from 0 n
  published_first s n m h none_yet =
      let (a, b, c) = add_buffers_rest s 0 m in
      view.advance_published _ n
      ∙ ap (λ (xs : List ℕ). xs ++ pick (view.slots (add_buffers lib s 0 m).ring) 0 n)
          (a ∙ none_yet)
      ∙ pick-range _ 0 n
          (λ j l. add_buffers_slots s 0 m j (omega arith) (λ n. absurd (omega arith)))

  free_ids_rest :
      (s : IoUring K) (i a n m : ℕ)
      → s.free_send_ids ≡ []
      → count i (push_ids (add_buffers lib s 0 m).free_send_ids a n) ≡ in_range a n i
  free_ids_rest s i a n m no_ids =
      let (x, b, c) = add_buffers_rest s 0 m in
      count-push_ids i (add_buffers lib s 0 m).free_send_ids a n
      ∙ ap (λ (ids : List ℕ). count i ids + in_range a n i) (b ∙ no_ids)
      ∙ (omega arith)

  pub setup_buffer_pool-base :
      (errno_to_error : ℤ → Error) (s : IoUring K) (mapped : ℕ)
      → (setup_buffer_pool lib errno_to_error (some mapped) (pos 0) s).0.buffer_base
        ≡ mapped + sizeof_buf * buffers
  unfolding setup_buffer_pool
  setup_buffer_pool-base errno_to_error s mapped =
      (add_buffers_rest (record s { buffer_base = mapped + sizeof_buf * buffers }) 0 buffers).2

  -- After a setup that succeeds on a new ring, the kernel may fill the buffers 0 to 511, in this
  -- order, and each of the 1024 buffers is either the kernel's or on the stack for sends, exactly
  -- once.
  pub setup_buffer_pool-owns :
      (errno_to_error : ℤ → Error) (s : IoUring K) (mapped i : ℕ)
      → view.published s.ring ≡ []
      → s.free_send_ids ≡ []
      → let (s', err) = setup_buffer_pool lib errno_to_error (some mapped) (pos 0) s in
        (err ≡ ok)
        × (view.published s'.ring ≡ range_from 0 512)
        × (count i (view.published s'.ring) + count i s'.free_send_ids
            ≡ (if ltb i buffers then 1 else 0))
  unfolding setup_buffer_pool
  setup_buffer_pool-owns errno_to_error s mapped i none_yet no_ids =
      let s0 = record s { buffer_base = mapped + sizeof_buf * buffers } in
      (
        refl,
        published_first s0 512 buffers (omega arith) none_yet,
        halves i _ _
            (ap (count i) (published_first s0 512 buffers (omega arith) none_yet)
              ∙ count-range i 0 512)
            (free_ids_rest s0 i 512 512 buffers no_ids),
      )
