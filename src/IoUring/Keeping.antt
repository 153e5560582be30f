-- ===== src/IoUring/Keeping.antt =====
-- src/IOUring.cpp: the contract of the interface, over whole runs.
use iuring.Prelude.{ℕ, ◌≡◌, refl, ap, sym, subst, inl, inr, List, [], ◌∷◌}
use iuring.Outcome.{done, >>=-eq-done, done-injective, Error}
use iuring.Endian.{Endian}
use iuring.Completion.{Client, Call}
use iuring.WorkItem.{Memory}
use iuring.WorkPool.{WorkPool}
use iuring.Liburing.{Liburing, Peek, found, again, failed}
use iuring.IoUring.State.{IoUring}
use iuring.IoUring.Poll.{polled, poll_completion_queues, call_callback_and_free_work_item_id}
use iuring.IoUring.Invariant.{IsTyped}
use iuring.IoUring.Contract.{Contract, Answers, Event, asked, completed, pending, of_entry}
use iuring.WorkPool.Refinement.{find-named}
use iuring.IoUring.Adding.{perform-Performed, perform-Submits}
use iuring.IoUring.Completing.{complete-Completed}
use iuring.IoUring.Reach.{asks, polls, Reach, here, next, Step-CallsOwner}

module _ {K : Type 0} (e : Endian) (lib : Liburing K) (memory : WorkPool → Memory)
    (client : Client) where
  -- From one state to another by the events, newest first.
  abbrev pub Keeps : List Event → IoUring K → IoUring K → Type 0
  Keeps es s s' = Contract client es (pending s.pool) s.calls (pending s'.pool) s'.calls

  -- What a poll finds, after the events before it.
  abbrev pub of_poll : Peek → List Event → List Event
  of_poll (found c) es = completed c.user_data c.res ∷ es
  of_poll again es = es
  of_poll failed es = es

  -- The events of a run: each request of the application, and each completion that a poll took.
  abbrev pub events : {s s' : IoUring K} → Reach e lib memory client s s' → List Event
  events here = []
  events (next r (asks req h)) = asked req ∷ events r
  events (next {t = u} r (polls err h)) = of_poll (lib.peek_cqe u.ring).1 (events r)

  polled-Keeps :
      (peek : Peek) (es : List Event) (s0 s s' : IoUring K) (err : Error)
      → IsTyped s.pool
      → Keeps es s0 s
      → polled e lib memory client s peek ≡ done (s', err)
      → Keeps (of_poll peek es) s0 s'
  unfolding polled
  polled-Keeps (found c) es s0 s s' err t kept h =
      let (s1, h1, h2) =
        >>=-eq-done (call_callback_and_free_work_item_id e lib memory client s c) _ h in
      subst (λ (r : IoUring K × Error). Keeps (completed c.user_data c.res ∷ es) s0 r.0)
        (done-injective _ (s', err) h2)
        (
          pending s.pool,
          s.calls,
          kept,
          elim (complete-Completed e lib memory client s s1 c t h1) [
            | inl (missing, same) ↦ inl (
              inl (ap of_entry missing),
              (λ j. ap (λ (x : IoUring K). pending x.pool j) same),
              ap (λ (x : IoUring K). x.calls) same,
            )
            | inr (w, held, d) ↦
                subst
                  (λ (id : ℕ).
                    Answers client id c.res (pending s.pool) s.calls (pending s1.pool) s1.calls)
                  (find-named s.pool c.user_data w t.valid held).0 d.meets
          ],
        )
  polled-Keeps again es s0 s s' err t kept h =
      subst (λ (r : IoUring K × Error). Keeps es s0 r.0) (done-injective _ (s', err) h) kept
  polled-Keeps failed es s0 s s' err t kept h = absurd (cc)

  -- Every run of requests and polls from a state with a typed pool refines the contract of the
  -- interface, with the requests that the application made and the completions that the polls took
  -- as its events. Each request waits under an identifier where none did. A completion changes
  -- nothing if no request waits under its identifier or if its result is -ENOBUFS. Else the request
  -- that waits there is concerned and no other: its handler is called once or not, as its type and
  -- the result demand, where a receive may be passed over also for another reason; the requests
  -- that the client then makes wait in their order; and the request ends, unless it is an accept,
  -- or a receive that was passed over or whose handler wants more.
  pub Reach-Keeps :
      (s s' : IoUring K)
      → IsTyped s.pool
      → (run : Reach e lib memory client s s') → IsTyped s'.pool × Keeps (events run) s s'
  unfolding poll_completion_queues
  Reach-Keeps s s' t here = (t, ((λ j. refl), refl))
  Reach-Keeps s s' t (next {t = u} run (asks r h)) =
      let (t1, kept) = Reach-Keeps s u t run in
      let (t2, own) = Step-CallsOwner e lib memory client u s' t1 (asks r h) in
      let same = (perform-Performed e lib memory u s' r h).same_calls in
      (
        t2,
        (
          pending u.pool,
          subst
              (λ (cs : List Call).
                Contract client (events run) (pending s.pool) s.calls (pending u.pool) cs)
              (sym same) kept,
          perform-Submits e lib memory u s' r [] (pending s'.pool) t1 h (λ j. refl),
        ),
      )
  Reach-Keeps s s' t (next {t = u} run (polls err h)) =
      let (t1, kept) = Reach-Keeps s u t run in
      let (t2, own) = Step-CallsOwner e lib memory client u s' t1 (polls err h) in
      (
        t2,
        polled-Keeps (lib.peek_cqe u.ring).1 (events run) s
            (record u { ring = (lib.peek_cqe u.ring).0 }) s' err t1 kept h,
      )
