-- ===== src/IoUring/Placing.antt =====
-- src/IOUring.cpp: where the buffers of a run lie in memory.
use iuring.Prelude.{
  suc, ltb, Bool-cases, ◌≢◌, ◌++◌, if◌then◌else◌, ℕ, ◌+◌, ◌*◌, ◌≤◌, ◌<◌, ◌≡◌, refl, sym, ap, ◌∙◌,
  Option, some, List, [], arith, inl, inr,
}
use iuring.Outcome.{done, >>=-eq-done, done-injective, Error, ok}
use iuring.Endian.{Endian}
use iuring.Completion.{Client}
use iuring.Completion.Int.{ℤ, pos}
use iuring.WorkItem.{Memory}
use iuring.WorkPool.{WorkPool}
use iuring.WorkPool.Slots.{count}
use iuring.Probe.{UringFeature, ProbeOp}
use iuring.Liburing.{Liburing, Peek, found, again, failed}
use iuring.IoUring.State.{IoUring, buffers, buffer_size}
use iuring.IoUring.Buffers.{init, get_buffer, sizeof_buf, buf_ring_size}
use iuring.IoUring.Poll.{polled, poll_completion_queues, call_callback_and_free_work_item_id}
use iuring.IoUring.Invariant.{IsTyped}
use iuring.IoUring.Adding.{perform-Performed}
use iuring.IoUring.Completing.{complete-Completed}
use iuring.IoUring.Reach.{polls, Step-CallsOwner}
use iuring.IoUring.Ownership.{BufferRing, get_buffer_layout}
use iuring.IoUring.Starting.{init-base}
use iuring.IoUring.Lending.{
  Lends, begins, takes, requests, completes, init-lends, over_run, invented,
}

once :
    (b left filled : ℕ) (lost extra : List ℕ)
    → left + filled + count b lost ≡ (if ltb b 512 then 1 else 0) + count b extra
    → extra ≡ []
    → 0 < filled
    → (b < 512) × (filled ≡ 1) × (left ≡ 0)
once b left filled lost extra each none_extra some_filled =
    let sum : left + filled + count b lost ≡ (if ltb b 512 then 1 else 0) + 0 =
      each ∙ ap (λ (xs : List ℕ). (if ltb b 512 then 1 else 0) + count b xs) none_extra in
    elim (Bool-cases (ltb b 512)) [
      | inl low ↦ let sum1 = rw low at sum in (ground arith, omega arith, omega arith)
      | inr high ↦ let sum0 = rw high at sum in absurd (omega arith)
    ]

module _ {K : Type 0} (e : Endian) (lib : Liburing K) (memory : WorkPool → Memory)
    (view : BufferRing lib) (client : Client) where
  completed_base :
      (peek : Peek) (s s' : IoUring K) (err : Error)
      → IsTyped s.pool
      → polled e lib memory client s peek ≡ done (s', err)
      → s'.buffer_base ≡ s.buffer_base
  unfolding polled
  completed_base (found c) s s' err t h =
      let (s1, h1, h2) =
        >>=-eq-done (call_callback_and_free_work_item_id e lib memory client s c) _ h in
      sym (ap (λ (r : IoUring K × Error). r.0.buffer_base) (done-injective _ (s', err) h2))
      ∙ elim (complete-Completed e lib memory client s s1 c t h1) [
        | inl (missing, same) ↦ ap (λ (x : IoUring K). x.buffer_base) same
        | inr (w, held, d) ↦ d.same_base
      ]
  completed_base again s s' err t h =
      sym (ap (λ (r : IoUring K × Error). r.0.buffer_base) (done-injective _ (s', err) h))
  completed_base failed s s' err t h = absurd (cc)

  Lends-base :
      (s t : IoUring K) (taken filled : List ℕ)
      → IsTyped s.pool
      → Lends e lib memory view client s t taken filled
      → IsTyped t.pool × (t.buffer_base ≡ s.buffer_base)
  unfolding poll_completion_queues
  Lends-base s t taken filled typed (begins _ _ p q) = (typed, refl)
  Lends-base s t taken filled typed
        (takes {t = u} {taken = a} {filled = b} l k ids left p q is m n) =
      let (typed1, base) = Lends-base s u a b typed l in rw is (typed1, base)
  Lends-base s t taken filled typed (requests {t = u} l r h) =
      let (typed1, base) = Lends-base s u taken filled typed l in
      let p = perform-Performed e lib memory u t r h in (p.adds.keeps typed1, p.same_base ∙ base)
  Lends-base s t taken filled typed (completes {t = u} {filled = b} l err h n) =
      let (typed1, base) = Lends-base s u taken b typed l in
      (
        (Step-CallsOwner e lib memory client u t typed1 (polls err h)).0,
        completed_base (lib.peek_cqe u.ring).1 (record u { ring = (lib.peek_cqe u.ring).0 }) t err
              typed1 h
            ∙ base,
      )

  -- In a run after an `init` that returns OK at an address, with a typed pool, under the
  -- conditions of `init-lends`, let each completion of a receive that is handled without an error
  -- have the buffer flag. Then two different buffers that the kernel took and no completion has
  -- named lie in the mapping, behind the entries of the ring, and do not overlap; each stands
  -- there once, and is not among those that the kernel may still take.
  pub filled_lie_apart :
      (number : UringFeature → ℕ) (distinct : (f g : UringFeature) → number f ≡ number g → f ≡ g)
      (queue_init : ℕ → Option K) (size : ℕ) (probe : Option (List ProbeOp))
      (errno_to_error : ℤ → Error) (mapped : ℕ) (s0 s t : IoUring K) (taken filled : List ℕ)
      (i j : ℕ)
      → ((n : ℕ) → errno_to_error (pos (suc n)) ≢ ok)
      → ((k : K) → queue_init size ≡ some k → view.published k ≡ [])
      → s0.free_send_ids ≡ []
      → init lib number queue_init size probe errno_to_error (some mapped) (pos 0) s0 ≡ done (s, ok)
      → IsTyped s.pool
      → (run : Lends e lib memory view client s t taken filled)
      → over_run e lib memory view client invented run ≡ []
      → 0 < count i filled
      → 0 < count j filled
      → i < j
      → (mapped + sizeof_buf * buffers ≤ get_buffer t i)
        × (get_buffer t i + buffer_size ≤ get_buffer t j)
        × (get_buffer t j + buffer_size ≤ mapped + buf_ring_size)
        × (count i filled ≡ 1)
        × (count j filled ≡ 1)
        × ((left : List ℕ) × (view.published t.ring ≡ taken ++ left)
            × (count i left ≡ 0)
            × (count j left ≡ 0))
  filled_lie_apart number distinct queue_init size probe errno_to_error mapped s0 s t taken filled i
        j errs none_yet no_ids made typed run flagged at_i at_j below =
      let (left, had, each) =
        init-lends e lib memory view client number distinct queue_init size probe errno_to_error
          mapped s0 s t taken filled errs none_yet no_ids made run in
      let base =
        (Lends-base s t taken filled typed run).1
        ∙ init-base lib view number queue_init size probe errno_to_error mapped s0 s ok made in
      let (first, apart, last) =
        get_buffer_layout t mapped i j base below
          (omega (arith, (once j (count j left) (count j filled) _ _ (each j) flagged at_j).0)) in
      (
        first,
        apart,
        last,
        (once i (count i left) (count i filled) _ _ (each i) flagged at_i).1,
        (once j (count j left) (count j filled) _ _ (each j) flagged at_j).1,
        (
          left,
          had,
          (once i (count i left) (count i filled) _ _ (each i) flagged at_i).2,
          (once j (count j left) (count j filled) _ _ (each j) flagged at_j).2,
        ),
      )
