-- ===== src/IoUring/Reach.antt =====
-- src/IOUring.cpp: every state that requests and polls lead to.
use iuring.Prelude.{ℕ, ◌≡◌, refl, ap, ◌∷◌, some, ◌⊎◌, inl, inr}
use iuring.Outcome.{done, >>=-eq-done, done-injective, Error}
use iuring.Endian.{Endian}
use iuring.Completion.{Client, Request, Call}
use iuring.WorkItem.{WorkItem, Memory}
use iuring.WorkPool.{WorkPool, empty}
use iuring.WorkPool.Slots.{find}
use iuring.Liburing.{Liburing, Cqe, Peek, found, again, failed}
use iuring.IoUring.State.{IoUring}
use iuring.IoUring.Requests.{perform}
use iuring.IoUring.Poll.{polled, poll_completion_queues, call_callback_and_free_work_item_id}
use iuring.IoUring.Invariant.{IsTyped}
use iuring.WorkPool.Growth.{empty-IsTight}
use iuring.IoUring.Adding.{perform-Performed}
use iuring.IoUring.Contract.{called}
use iuring.IoUring.Completing.{complete-Completed}

-- At most one handler was called, and that of an item of the first pool.
abbrev pub CallsOwner : {K : Type 0} → IoUring K → IoUring K → Type 0
CallsOwner s s' =
    (s'.calls ≡ s.calls)
    ⊎ ((c : Call) × (i : ℕ) × (w : WorkItem) × (s'.calls ≡ c ∷ s.calls)
        × (find s.pool i ≡ some w)
        × (called c ≡ w.callback))

pub empty-IsTyped : IsTyped empty
empty-IsTyped = record {
  valid = (empty-IsTight).valid;
  typed = λ i w e. absurd (unfold find in cc);
}

module _ {K : Type 0} (e : Endian) (lib : Liburing K) (memory : WorkPool → Memory)
    (client : Client) where
  -- The client makes a request, or polls.
  pub data Step (s s' : IoUring K) : Type 0 where
    asks : (r : Request) → perform e lib memory s r ≡ done s' → Step s s'
    polls :
        (err : Error) → poll_completion_queues e lib memory client s ≡ done (s', err) → Step s s'

  -- States reached from `s`.
  pub data Reach (s : IoUring K) : IoUring K → Type 0 where
    here : Reach s s
    next : {t u : IoUring K} → Reach s t → Step t u → Reach s u

  completed-owner :
      (s s' : IoUring K) (c : Cqe)
      → IsTyped s.pool
      → call_callback_and_free_work_item_id e lib memory client s c ≡ done s'
      → IsTyped s'.pool × CallsOwner s s'
  completed-owner s s' c t h = elim (complete-Completed e lib memory client s s' c t h) [
    | inl (missing, same) ↦ rw same (t, inl refl)
    | inr (w, held, d) ↦ (
      d.typed,
      elim d.calls_at_most [
        | inl same ↦ inl same
        | inr (call, one, own) ↦ inr (call, c.user_data, w, one, held, own)
      ],
    )
  ]

  polled-owner :
      (peek : Peek) (s s' : IoUring K) (err : Error)
      → IsTyped s.pool
      → polled e lib memory client s peek ≡ done (s', err)
      → IsTyped s'.pool × CallsOwner s s'
  unfolding polled
  polled-owner (found c) s s' err t h =
      let (s1, h1, h2) =
        >>=-eq-done (call_callback_and_free_work_item_id e lib memory client s c) _ h in
      let (typed, owner) = completed-owner s s1 c t h1 in
      let same : record s1 { ring = lib.cq_advance s1.ring } ≡ s' =
        ap (λ (r : IoUring K × Error). r.0) (done-injective _ (s', err) h2) in
      rw (← same) (typed, owner)
  polled-owner again s s' err t h =
      let same : s ≡ s' = ap (λ (r : IoUring K × Error). r.0) (done-injective _ (s', err) h) in
      rw (← same) (t, inl refl)
  polled-owner failed s s' err t h = absurd (cc)

  -- Every step from a state with a typed pool keeps the pool typed, and calls at most one handler,
  -- which is that of an item in the pool.
  pub Step-CallsOwner :
      (s s' : IoUring K) → IsTyped s.pool → Step s s' → IsTyped s'.pool × CallsOwner s s'
  unfolding poll_completion_queues
  Step-CallsOwner s s' t (asks r h) =
      let p = perform-Performed e lib memory s s' r h in (p.adds.keeps t, inl p.same_calls)
  Step-CallsOwner s s' t (polls err h) =
      polled-owner (lib.peek_cqe s.ring).1 (record s { ring = (lib.peek_cqe s.ring).0 }) s' err t h

  -- In every state reached from one with an empty pool the pool is valid and each item holds a
  -- handler of its type.
  pub Reach-IsTyped : (s s' : IoUring K) → s.pool ≡ empty → Reach s s' → IsTyped s'.pool
  Reach-IsTyped s s' start here = rw start empty-IsTyped
  Reach-IsTyped s s' start (next r st) = (Step-CallsOwner _ s' (Reach-IsTyped s _ start r) st).0
