-- ===== src/IoUring/Completing.antt =====
-- src/IOUring.cpp: `call_callback_and_free_work_item_id` as a whole.
use iuring.Prelude.{
  Option-cases, sym, ℕ, ◌≡◌, ◌≢◌, refl, ap, ◌∙◌, subst, true, arith, ◌⊎◌, inl, inr, Bool-cases,
  some, none,
}
use iuring.Outcome.{done, >>=-eq-done}
use iuring.Endian.{Endian}
use iuring.Completion.{Client}
use iuring.Completion.Int.{ℤ, is_errno}
use iuring.WorkItem.{WorkItem, Memory}
use iuring.WorkPool.{WorkPool, get_work_item}
use iuring.WorkPool.Slots.{find}
use iuring.WorkPool.Refinement.{find-named, get_work_item-eq-done}
use iuring.Liburing.{Liburing, Cqe}
use iuring.IoUring.State.{IoUring}
use iuring.IoUring.Handlers.{enobufs}
use iuring.IoUring.Poll.{dispatch_as, call_callback_and_free_work_item_id}
use iuring.IoUring.Invariant.{IsTyped}
use iuring.IoUring.Calling.{Live, CallsAtMost}
use iuring.IoUring.Dispatching.{Completed, Settled, dispatch-Completed}

module _ {K : Type 0} (e : Endian) (lib : Liburing K) (memory : WorkPool → Memory)
    (client : Client) where
  live :
      (s : IoUring K) (id : ℕ) (w : WorkItem) → IsTyped s.pool → find s.pool id ≡ some w → Live w s
  live s id w t held =
      let (named, used) = find-named s.pool id w t.valid held in
      record {
        typed = t;
        held = (w, ap (find s.pool) named ∙ held);
        used = used;
        fits = t.typed id w held;
        same_request = refl;
      }

  still-Completed :
      (z : ℤ) (w : WorkItem) (s : IoUring K)
      → is_errno z enobufs ≡ true
      → Live w s
      → find s.pool w.id ≡ some w
      → Completed client z w s s
  still-Completed z w s full l held = record {
    typed = l.typed;
    settled = inr (w, held, refl, refl, refl);
    others = λ j x n f. f;
    calls_at_most = inl refl;
    same_base = refl;
    meets = inl (inr full, (λ j. refl), refl);
  }

  absent :
      (s s' : IoUring K) (c : Cqe)
      → find s.pool c.user_data ≡ none
      → call_callback_and_free_work_item_id e lib memory client s c ≡ done s'
      → s' ≡ s
  unfolding call_callback_and_free_work_item_id
  absent s s' c missing h =
      let (o, h1, h2) = >>=-eq-done (get_work_item s.pool c.user_data) _ h in
      let o_eq : o ≡ none = get_work_item-eq-done s.pool c.user_data o h1 ∙ missing in ground arith

  found-Completed :
      (s s' : IoUring K) (c : Cqe) (w : WorkItem)
      → IsTyped s.pool
      → find s.pool c.user_data ≡ some w
      → call_callback_and_free_work_item_id e lib memory client s c ≡ done s'
      → Completed client c.res w s s'
  unfolding call_callback_and_free_work_item_id
  found-Completed s s' c w t held h =
      let l = live s c.user_data w t held in
      let (named, used) = find-named s.pool c.user_data w t.valid held in
      let (o, h1, h2) = >>=-eq-done (get_work_item s.pool c.user_data) _ h in
      let o_eq : o ≡ some w = get_work_item-eq-done s.pool c.user_data o h1 ∙ held in
      elim (Bool-cases (is_errno c.res enobufs)) [
        | inl none_left ↦
            let same : s ≡ s' = ground arith in
            subst (Completed client c.res w s) same
              (still-Completed c.res w s none_left l (ap (find s.pool) named ∙ held))
        | inr good ↦
            let run : dispatch_as e lib memory client w.work_type s w c ≡ done s' = ground arith in
            dispatch-Completed e lib memory client w.work_type w s s' c l refl good (sym named) run
      ]

  -- Both cases of the item's slot.
  pub complete-Completed :
      (s s' : IoUring K) (c : Cqe)
      → IsTyped s.pool
      → call_callback_and_free_work_item_id e lib memory client s c ≡ done s'
      → ((find s.pool c.user_data ≡ none) × (s' ≡ s))
        ⊎ ((w : WorkItem) × (find s.pool c.user_data ≡ some w) × Completed client c.res w s s')
  complete-Completed s s' c t h = elim (Option-cases (find s.pool c.user_data)) [
    | inl missing ↦ inl (missing, absent s s' c missing h)
    | inr (w, held) ↦ inr (w, held, found-Completed s s' c w t held h)
  ]

  -- A completion that is handled on a typed pool leaves each item of another identifier as it was,
  -- whatever requests the handler made meanwhile.
  pub complete-keeps_others :
      (s s' : IoUring K) (c : Cqe) (j : ℕ) (x : WorkItem)
      → IsTyped s.pool
      → call_callback_and_free_work_item_id e lib memory client s c ≡ done s'
      → j ≢ c.user_data
      → find s.pool j ≡ some x
      → find s'.pool j ≡ some x
  complete-keeps_others s s' c j x t h other held = elim (complete-Completed s s' c t h) [
    | inl (missing, same) ↦ rw same held
    | inr (w, own, d) ↦
        d.others j x (λ e. other (e ∙ (find-named s.pool c.user_data w t.valid own).0)) held
  ]

  -- A completion that is handled on a typed pool either has no item, and changes nothing; or it has
  -- an item `w`, and then the pool stays typed, at most one handler is called, that of `w`, and
  -- afterwards the identifier is free, and the next to be handed out, or it holds an item of the
  -- same type, handler and socket. Each item of another identifier is as it was, whatever requests
  -- the handler made meanwhile.
  pub complete-settles :
      (s s' : IoUring K) (c : Cqe)
      → IsTyped s.pool
      → call_callback_and_free_work_item_id e lib memory client s c ≡ done s'
      → ((find s.pool c.user_data ≡ none) × (s' ≡ s))
        ⊎ ((w : WorkItem) × (find s.pool c.user_data ≡ some w)
            × IsTyped s'.pool
            × CallsAtMost w.callback s s'
            × Settled w s'
            × ((j : ℕ) (x : WorkItem)
                → j ≢ c.user_data
                → find s.pool j ≡ some x
                → find s'.pool j ≡ some x))
  complete-settles s s' c t h = elim (complete-Completed s s' c t h) [
    | inl same ↦ inl same
    | inr (w, held, d) ↦ inr (
      w,
      held,
      d.typed,
      d.calls_at_most,
      d.settled,
      λ j x n f. complete-keeps_others s s' c j x t h n f,
    )
  ]
