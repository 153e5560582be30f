-- ===== src/IoUring/Runs.antt =====
-- src/IOUring.cpp: the buffers handed back to the kernel over whole runs.
use iuring.Prelude.{ℕ, ◌≡◌, refl, sym, ap, ◌∙◌, Option, List, [], ◌++◌, append_assoc}
use iuring.Outcome.{done, >>=-eq-done, done-injective, Error}
use iuring.Endian.{Endian}
use iuring.Completion.{Client}
use iuring.WorkItem.{WorkItem, Memory}
use iuring.WorkPool.{WorkPool}
use iuring.WorkPool.Slots.{find}
use iuring.Liburing.{Liburing, Peek, found, again, failed}
use iuring.IoUring.State.{IoUring}
use iuring.IoUring.Poll.{call_callback_and_free_work_item_id, polled, poll_completion_queues}
use iuring.IoUring.Ownership.{BufferRing}
use iuring.IoUring.Recycling.{perform_published}
use iuring.IoUring.Reach.{Step, asks, polls, Reach, here, next}
use iuring.IoUring.Conserving.{handed_back, handed_to, nothing, complete_published}

-- What a poll finds.
abbrev pub of_peek : (ℕ → Option WorkItem) → Peek → List ℕ
of_peek items (found c) = handed_back (items c.user_data) c
of_peek items again = []
of_peek items failed = []

module _ {K : Type 0} (e : Endian) (lib : Liburing K) (memory : WorkPool → Memory)
    (view : BufferRing lib) (client : Client) where
  polled_published :
      (peek : Peek) (s s' : IoUring K) (err : Error)
      → polled e lib memory client s peek ≡ done (s', err)
      → handed_to e lib memory view client s'
        ≡ handed_to e lib memory view client s ++ of_peek (find s.pool) peek
  unfolding polled
  polled_published (found c) s s' err h =
      let (s1, h1, h2) =
        >>=-eq-done (call_callback_and_free_work_item_id e lib memory client s c) _ h in
      ap (λ (r : IoUring K × Error). handed_to e lib memory view client r.0)
        (sym (done-injective _ (s', err) h2))
      ∙ view.cq_advance_published s1.ring
      ∙ complete_published e lib memory view client s s1 c h1
  polled_published again s s' err h = nothing e lib memory view client s s' (
      ap (λ (r : IoUring K × Error). handed_to e lib memory view client r.0)
        (sym (done-injective _ (s', err) h)))
  polled_published failed s s' err h = absurd (cc)

  -- The buffers that a step hands back: none for a request.
  abbrev pub given_back : {s s' : IoUring K} → Step e lib memory client s s' → List ℕ
  given_back (asks r h) = []
  given_back {s} (polls err h) = of_peek (find s.pool) (lib.peek_cqe s.ring).1

  abbrev pub all_given_back : {s s' : IoUring K} → Reach e lib memory client s s' → List ℕ
  all_given_back here = []
  all_given_back (next r st) = all_given_back r ++ given_back st

  pub Step-published :
      (s s' : IoUring K) (st : Step e lib memory client s s')
      → handed_to e lib memory view client s'
        ≡ handed_to e lib memory view client s ++ given_back st
  unfolding poll_completion_queues
  Step-published s s' (asks r h) =
      nothing e lib memory view client s s' (perform_published e lib memory view s s' r h)
  Step-published s s' (polls err h) =
      polled_published (lib.peek_cqe s.ring).1 (record s { ring = (lib.peek_cqe s.ring).0 }) s' err
        h
      ∙ ap (λ (ids : List ℕ). ids ++ of_peek (find s.pool) (lib.peek_cqe s.ring).1)
          (view.peek_published s.ring)

  -- Over any run of requests and polls the kernel is handed exactly the buffers that the
  -- completions of receives without an error name, one for each such completion and in their order;
  -- no request and no other completion hands one over. That holds also for a completion that has no
  -- buffer.
  pub Reach-handed :
      (s s' : IoUring K) (r : Reach e lib memory client s s')
      → handed_to e lib memory view client s'
        ≡ handed_to e lib memory view client s ++ all_given_back r
  Reach-handed s s' here = nothing e lib memory view client s s refl
  Reach-handed s s' (next {t} r st) =
      Step-published t s' st
      ∙ ap (λ (ids : List ℕ). ids ++ given_back st) (Reach-handed s t r)
      ∙ append_assoc (handed_to e lib memory view client s) (all_given_back r) (given_back st)
