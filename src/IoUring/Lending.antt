-- ===== src/IoUring/Lending.antt =====
-- src/IOUring.cpp: who has which receive buffer while the kernel takes buffers and the completions
-- bring them back.
use iuring.Prelude.{
  ℕ, ◌+◌, ◌≡◌, refl, sym, ap, ◌∙◌, Bool, true, false, not, ◌&&◌, Option, none, some, List, [], ◌∷◌,
  ◌++◌, ◌⊎◌, inl, inr, arith, append_assoc, append-nil, if◌then◌else◌, ltb, Bool-cases, suc, ◌≢◌,
}
use iuring.Outcome.{done, Error, ok}
use iuring.Endian.{Endian}
use iuring.Completion.{Client, Request}
use iuring.Completion.Int.{is_negative, ℤ, pos}
use iuring.WorkItem.{WorkItem, Memory}
use iuring.WorkPool.{WorkPool}
use iuring.WorkPool.Slots.{count, find}
use iuring.Liburing.{Liburing, Cqe, Peek, found, again, failed, has_buffer, buffer_index}
use iuring.IoUring.State.{IoUring}
use iuring.IoUring.Requests.{perform}
use iuring.IoUring.Poll.{poll_completion_queues}
use iuring.IoUring.Sending.{is_recv}
use iuring.IoUring.Ownership.{BufferRing, count-append, count-range, range_from}
use iuring.IoUring.Starting.{init-Shared}
use iuring.IoUring.Buffers.{init}
use iuring.Probe.{UringFeature, ProbeOp}
use iuring.IoUring.Reach.{asks, polls}
use iuring.IoUring.Conserving.{handed_back}
use iuring.IoUring.Runs.{of_peek, Step-published}

-- The completion of a receive whose item is in the pool, without an error.
abbrev pub is_good_receive : Option WorkItem → Cqe → Bool
is_good_receive none c = false
is_good_receive (some w) c = is_recv w.work_type && not (is_negative c.res)

-- By its flag, a completion names one of the buffers that the kernel has filled, which then is no
-- longer one of them, or it names none.
abbrev pub Names : Peek → List ℕ → List ℕ → Type 0
Names (found c) before after =
    ((has_buffer c ≡ false) × (after ≡ before))
    ⊎ ((has_buffer c ≡ true)
        × ((xs : List ℕ) × (ys : List ℕ) × (before ≡ xs ++ buffer_index c ∷ ys)
            × (after ≡ xs ++ ys)))
Names again before after = after ≡ before
Names failed before after = after ≡ before

-- The buffer that a completion names, if the code does not hand it back: that of one that is not of
-- a receive in the pool, or that has an error.
abbrev pub dropped : Option WorkItem → Cqe → List ℕ
dropped o c = if has_buffer c && not (is_good_receive o c) then buffer_index c ∷ [] else []

-- The buffer that the code hands back for a completion which names none, as that of a receive at
-- the end of a stream.
abbrev pub invented : Option WorkItem → Cqe → List ℕ
invented o c = if is_good_receive o c && not (has_buffer c) then buffer_index c ∷ [] else []

abbrev pub at_peek : (Option WorkItem → Cqe → List ℕ) → (ℕ → Option WorkItem) → Peek → List ℕ
at_peek f items (found c) = f (items c.user_data) c
at_peek f items again = []
at_peek f items failed = []

handed_back-eq :
    (o : Option WorkItem) (c : Cqe)
    → handed_back o c ≡ (if is_good_receive o c then buffer_index c ∷ [] else [])
handed_back-eq none c = refl
handed_back-eq (some w) c = refl

named_count :
    (o : Option WorkItem) (c : Cqe) (before after : List ℕ) (b : ℕ)
    → Names (found c) before after
    → count b after + count b (handed_back o c) + count b (dropped o c)
      ≡ count b before + count b (invented o c)
named_count o c before after b n = rw (handed_back-eq o c) (elim n [
  | inl (bare, same) ↦ elim (Bool-cases (is_good_receive o c)) [
    | inl good ↦ rw (bare, same, good) (omega arith)
    | inr bad ↦ rw (bare, same, bad) (omega arith)
  ]
  | inr (full, (xs, ys, first, last)) ↦
      let split = count-append b xs (buffer_index c ∷ ys) in
      let rest = count-append b xs ys in
      elim (Bool-cases (is_good_receive o c)) [
        | inl good ↦ rw (full, first, last, good) (ground (arith, split, rest))
        | inr bad ↦ rw (full, first, last, bad) (ground (arith, split, rest))
      ]
])

Names-count :
    (items : ℕ → Option WorkItem) (peek : Peek) (before after : List ℕ) (b : ℕ)
    → Names peek before after
    → count b after + count b (of_peek items peek) + count b (at_peek dropped items peek)
      ≡ count b before + count b (at_peek invented items peek)
Names-count items (found c) before after b n = named_count (items c.user_data) c before after b n
Names-count items again before after b same = rw same (omega arith)
Names-count items failed before after b same = rw same (omega arith)

module _ {K : Type 0} (e : Endian) (lib : Liburing K) (memory : WorkPool → Memory)
    (view : BufferRing lib) (client : Client) where
  -- A run with the kernel's part in it: all buffers that it took so far, which it does in the order
  -- in which they were handed over, and those of them that no completion has named yet.
  pub data Lends (s : IoUring K) : IoUring K → List ℕ → List ℕ → Type 0 where
    begins : (taken filled : List ℕ) → taken ≡ [] → filled ≡ [] → Lends s s taken filled
    takes :
        {t u : IoUring K} {taken filled taken' filled' : List ℕ}
        → Lends s t taken filled
        → (k : K) (ids left : List ℕ) → view.published k ≡ view.published t.ring
        → view.published t.ring ≡ taken ++ ids ++ left
        → u ≡ record t { ring = k }
        → taken' ≡ taken ++ ids
        → filled' ≡ filled ++ ids
        → Lends s u taken' filled'
    requests :
        {t u : IoUring K} {taken filled : List ℕ}
        → Lends s t taken filled
        → (r : Request) → perform e lib memory t r ≡ done u
        → Lends s u taken filled
    completes :
        {t u : IoUring K} {taken filled filled' : List ℕ}
        → Lends s t taken filled
        → (err : Error) → poll_completion_queues e lib memory client t ≡ done (u, err)
        → Names (lib.peek_cqe t.ring).1 filled filled'
        → Lends s u taken filled'

  -- Such buffers of all completions of a run.
  abbrev pub over_run :
      {s t : IoUring K} {taken filled : List ℕ}
      → (Option WorkItem → Cqe → List ℕ)
      → Lends s t taken filled
      → List ℕ
  over_run f (begins _ _ none_taken none_filled) = []
  over_run f (takes l k ids left kept had is more new) = over_run f l
  over_run f (requests l r h) = over_run f l
  over_run f (completes {t = t0} l err h n) =
      over_run f l ++ at_peek f (find t0.pool) (lib.peek_cqe t0.ring).1

  -- What the kernel has left, and who has each buffer.
  abbrev Owned : (s t : IoUring K) (taken filled : List ℕ) → Lends s t taken filled → Type 0
  Owned s t taken filled l =
      (left : List ℕ) × (view.published t.ring ≡ taken ++ left)
      × ((b : ℕ)
          → count b left + count b filled + count b (over_run dropped l)
            ≡ count b (view.published s.ring) + count b (over_run invented l))

  Lends-Owned :
      (s t : IoUring K) (taken filled : List ℕ) (l : Lends s t taken filled)
      → Owned s t taken filled l
  Lends-Owned s t taken filled (begins _ _ none_taken none_filled) =
      rw (none_taken, none_filled) (view.published s.ring, refl, λ b. omega arith)
  Lends-Owned s t taken filled
        (takes {t = t0} {taken = taken0} {filled = filled0} l k ids left kept had is more new) =
      let (left0, had0, each) = Lends-Owned s t0 taken0 filled0 l in
      (
        left,
        ap (λ (x : IoUring K). view.published x.ring) is
            ∙ kept
            ∙ had
            ∙ ap (λ (xs : List ℕ). xs ++ left) (sym more),
        λ b. omega (
          arith,
          each b,
          ap (count b) (sym had0 ∙ had),
          count-append b taken0 left0,
          count-append b (taken0 ++ ids) left,
          count-append b taken0 ids,
          ap (count b) new,
          count-append b filled0 ids,
        ),
      )
  Lends-Owned s t taken filled (requests {t = t0} l r h) =
      let (left, had, each) = Lends-Owned s t0 taken filled l in
      (
        left,
        Step-published e lib memory view client t0 t (asks r h)
            ∙ append-nil (view.published t0.ring)
            ∙ had,
        each,
      )
  Lends-Owned s t taken filled (completes {t = t0} {filled = filled0} l err h n) =
      let (left, had, each) = Lends-Owned s t0 taken filled0 l in
      let back = of_peek (find t0.pool) (lib.peek_cqe t0.ring).1 in
      (
        left ++ back,
        Step-published e lib memory view client t0 t (polls err h)
            ∙ ap (λ (xs : List ℕ). xs ++ back) had
            ∙ append_assoc taken left back,
        λ b. omega (
          arith,
          each b,
          count-append b left back,
          Names-count (find t0.pool) (lib.peek_cqe t0.ring).1 filled0 filled b n,
          count-append b (over_run dropped l)
              (at_peek dropped (find t0.pool) (lib.peek_cqe t0.ring).1),
          count-append b (over_run invented l)
              (at_peek invented (find t0.pool) (lib.peek_cqe t0.ring).1),
        ),
      )

  -- After an `init` that returns OK, on a queue that starts with an empty buffer ring and with an
  -- empty stack for sends, where the flag constants are distinct and `errno_to_error` makes no
  -- errno OK: let the kernel take buffers in the order in which they were handed over, and let a
  -- completion with the buffer flag name one of the buffers taken, which no other has named. At
  -- any point of a run of requests and polls, take the buffers that the kernel may still take,
  -- those that it took and no completion has named, and those that a completion named which is not
  -- of a receive in the pool or has an error: together these are the buffers 0 to 511, each once,
  -- and besides, once more for each time, those that the code handed back for the completion of a
  -- receive without the flag.
  pub init-lends :
      (number : UringFeature → ℕ) (distinct : (f g : UringFeature) → number f ≡ number g → f ≡ g)
      (queue_init : ℕ → Option K) (size : ℕ) (probe : Option (List ProbeOp))
      (errno_to_error : ℤ → Error) (mapped : ℕ) (s0 s t : IoUring K) (taken filled : List ℕ)
      → ((n : ℕ) → errno_to_error (pos (suc n)) ≢ ok)
      → ((k : K) → queue_init size ≡ some k → view.published k ≡ [])
      → s0.free_send_ids ≡ []
      → init lib number queue_init size probe errno_to_error (some mapped) (pos 0) s0 ≡ done (s, ok)
      → (run : Lends s t taken filled)
      → (left : List ℕ) × (view.published t.ring ≡ taken ++ left)
        × ((b : ℕ)
            → count b left + count b filled + count b (over_run dropped run)
              ≡ (if ltb b 512 then 1 else 0) + count b (over_run invented run))
  init-lends number distinct queue_init size probe errno_to_error mapped s0 s t taken filled errs
        none_yet no_ids made run =
      let (left, had, each) = Lends-Owned s t taken filled run in
      let (needs, shared, marked) =
        init-Shared lib view number distinct queue_init size probe errno_to_error (some mapped)
          (pos 0) s0 s ok 0 errs (inl refl) none_yet no_ids made in
      let first : view.published s.ring ≡ range_from 0 512 = elim shared [
        | inl (fine, there, registered, numbers, once) ↦ numbers
        | inr (wrong, why, no_ring, rest) ↦ absurd (wrong refl)
      ] in
      let once = λ (b : ℕ). ap (count b) first ∙ count-range b 0 512 ∙ (ground arith) in
      (left, had, λ b. each b ∙ ap (λ (x : ℕ). x + count b (over_run invented run)) (once b))
