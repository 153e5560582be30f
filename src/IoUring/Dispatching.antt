-- ===== src/IoUring/Dispatching.antt =====
-- src/IOUring.cpp: the `switch` of `call_callback_and_free_work_item_id`, on one item.
use iuring.Prelude.{
  sym, ℕ, ◌≡◌, ◌≢◌, refl, ap, ◌∙◌, subst, arith, ◌⊎◌, inl, inr, Option, true, false, some, none,
  List, ◌∷◌,
}
use iuring.Outcome.{done, >>=-eq-done, done-injective}
use iuring.Endian.{Endian}
use iuring.Completion.{Client, ReceivePostAction, keep_none, re_submit}
use iuring.WorkItem.{WorkItem, WorkType, Memory, in_use}
use iuring.WorkPool.{WorkPool, free_work_item, put}
use iuring.WorkPool.Slots.{find}
use iuring.WorkPool.Refinement.{free_work_item-eq-done, find-freed, freed}
use iuring.Liburing.{Liburing, Cqe}
use iuring.IoUring.State.{IoUring}
use iuring.IoUring.Submission.{submit}
use iuring.IoUring.Poll.{submit_again, free_item, after_recv, dispatch_as}
use iuring.IoUring.Entries.{submit-SameItem}
use iuring.IoUring.Invariant.{IsTyped, freed-IsTyped, find-put}
use iuring.IoUring.Handlers.{
  enobufs, call_accept_callback, call_close_callback, call_connect_callback, call_send_callback,
  call_recv_callback,
}
use iuring.IoUring.Contract.{Answers, IsTold, goes_on, pending, of_item, of_entry}
use iuring.Completion.Int.{ℤ, is_errno}
use iuring.IoUring.Calling.{
  Live, Handled, CallsAtMost, store-Handled, close-Handled, send-Handled, connect-Handled,
  accept-Handled,
}
use iuring.IoUring.Receiving.{recv-Handled, Told}

-- The item's request is over and its identifier free, or it was submitted again with the same
-- handler.
abbrev pub Settled : {K : Type 0} → WorkItem → IoUring K → Type 0
Settled w s =
    ((find s.pool w.id ≡ none) × ((rest : List ℕ) × (s.pool.free_ids ≡ w.id ∷ rest)))
    ⊎ ((x : WorkItem) × (find s.pool w.id ≡ some x)
        × (x.work_type ≡ w.work_type)
        × (x.callback ≡ w.callback)
        × (x.socket ≡ w.socket))

-- What a completion with a result leaves behind.
pub record Completed {K : Type 0} (client : Client) (z : ℤ) (w : WorkItem) (s s' : IoUring K)
    : Type 0 where
  pub typed : IsTyped s'.pool
  pub settled : Settled w s'
  pub others : (j : ℕ) (x : WorkItem) → j ≢ w.id → find s.pool j ≡ some x → find s'.pool j ≡ some x
  pub calls_at_most : CallsAtMost w.callback s s'
  pub same_base : s'.buffer_base ≡ s.buffer_base
  pub meets : Answers client w.id z (pending s.pool) s.calls (pending s'.pool) s'.calls

module _ {K : Type 0} (e : Endian) (lib : Liburing K) (memory : WorkPool → Memory)
    (client : Client) where
  -- What is known of the item when its request is told: its type, and that there were buffers.
  pub record Due (t : WorkType) (z : ℤ) (w : WorkItem) (told : Option ReceivePostAction)
      : Type 0 where
    pub of_type : w.work_type ≡ t
    pub not_full : is_errno z enobufs ≡ false
    pub is_told : IsTold t z told

  waits : (w : WorkItem) (s : IoUring K) → Live w s → pending s.pool w.id ≡ some (of_item w)
  waits w s l = ap of_entry l.held.1 ∙ ap some l.same_request

  freed-Completed :
      (t : WorkType) (z : ℤ) (told : Option ReceivePostAction) (w : WorkItem) (s s1 s' : IoUring K)
      → Live w s
      → Due t z w told
      → goes_on t told ≡ false
      → Handled client told w s s1
      → free_item e lib memory client s1 w.id ≡ done s'
      → Completed client z w s s'
  unfolding free_item
  freed-Completed t z told w s s1 s' l due over d h =
      let (p, h1, h2) = >>=-eq-done (free_work_item s1.pool w.id) _ h in
      let (x, held, eq) = free_work_item-eq-done s1.pool p w.id h1 in
      let entries = find-freed s1.pool w.id x held in
      let gone : p ≡ freed s1.pool w.id = eq in
      subst (Completed client z w s) (done-injective _ s' h2) (record {
        typed = rw gone (freed-IsTyped s1.pool w.id x d.typed held);
        settled = inl (
          rw gone (ground (arith, entries w.id)),
          (s1.pool.free_ids, ap (λ (q : WorkPool). q.free_ids) gone),
        );
        others = λ j y n f. rw gone (ground (arith, entries j, d.others j y n f));
        calls_at_most = d.calls_at_most;
        same_base = d.same_base;
        meets = inr (
          of_item w,
          told,
          pending s1.pool,
          waits w s l,
          due.not_full,
          rw due.of_type due.is_told,
          d.meets,
          λ j. rw (due.of_type, over, gone) (ground (arith, entries j)),
        );
      })

  again-Completed :
      (t : WorkType) (z : ℤ) (told : Option ReceivePostAction) (w w0 : WorkItem)
      (s s1 s' : IoUring K)
      → Live w s
      → Due t z w told
      → goes_on t told ≡ true
      → Handled client told w s s1
      → w0.id ≡ w.id
      → w0.state ≡ w.state
      → w0.work_type ≡ w.work_type
      → w0.callback ≡ w.callback
      → w0.socket ≡ w.socket
      → submit_again e lib memory client s1 w0 ≡ done s'
      → Completed client z w s s'
  unfolding submit_again
  again-Completed ty z told w w0 s s1 s' l due more d i st t cb so h =
      let ((w1, k), h1, h2) = >>=-eq-done (submit e lib w0 s1.ring) _ h in
      let same = submit-SameItem e lib w0 w1 s1.ring k h1 in
      let stored =
        store-Handled e lib memory client told w w1 s s1 l d (same.same_id ∙ i)
          (same.same_state ∙ st) (same.same_type ∙ t) (same.same_callback ∙ cb)
          (same.same_socket ∙ so) in
      let used : w1.state ≡ in_use = same.same_state ∙ st ∙ l.used in
      subst (Completed client z w s) (done-injective _ s' h2) (record {
        typed = stored.typed;
        settled = inr (
          w1,
          find-put s1.pool w1 d.held.0 w.id d.typed.valid d.held.1 (same.same_id ∙ i) used,
          same.same_type ∙ t,
          same.same_callback ∙ cb,
          same.same_socket ∙ so,
        );
        others = stored.others;
        calls_at_most = d.calls_at_most;
        same_base = d.same_base;
        meets = inr (
          of_item w,
          told,
          pending (put s1.pool w1),
          waits w s l,
          due.not_full,
          rw due.of_type due.is_told,
          stored.meets,
          λ j. rw (due.of_type, more) refl,
        );
      })

  recv-Completed :
      (a : ReceivePostAction) (w : WorkItem) (s s1 s' : IoUring K) (c : Cqe)
      → Live w s
      → w.work_type ≡ WorkType.recv
      → is_errno c.res enobufs ≡ false
      → Told e lib memory client c w s (a, s1)
      → after_recv e lib memory client a s1 w w.id ≡ done s'
      → Completed client c.res w s s'
  unfolding after_recv
  recv-Completed keep_none w s s1 s' c l is n (inl (other, d)) h = absurd (cc)
  recv-Completed keep_none w s s1 s' c l is n (inr (good, d)) h =
      freed-Completed WorkType.recv c.res (some keep_none) w s s1 s' l
        (record { of_type = is; not_full = n; is_told = inr good }) refl d h
  recv-Completed re_submit w s s1 s' c l is n (inl (same, d)) h =
      again-Completed WorkType.recv c.res none w w s s1 s' l
        (record { of_type = is; not_full = n; is_told = inl refl }) refl d refl refl refl refl refl
        h
  recv-Completed re_submit w s s1 s' c l is n (inr (good, d)) h =
      again-Completed WorkType.recv c.res (some re_submit) w w s s1 s' l
        (record { of_type = is; not_full = n; is_told = inr good }) refl d refl refl refl refl refl
        h

  pub dispatch-Completed :
      (t : WorkType) (w : WorkItem) (s s' : IoUring K) (c : Cqe)
      → Live w s
      → w.work_type ≡ t
      → is_errno c.res enobufs ≡ false
      → c.user_data ≡ w.id
      → dispatch_as e lib memory client t s w c ≡ done s'
      → Completed client c.res w s s'
  unfolding dispatch_as
  dispatch-Completed WorkType.unknown w s s' c l is n i h = absurd (cc)
  dispatch-Completed WorkType.accept w s s' c l is n i h =
      let r = lib.accepted_address s.ring w.accept_sock_len w.buffer_for_uring in
      let w1 : WorkItem = record w { buffer_for_uring = r.0; accept_sock_len = r.1 } in
      let l1 : Live w1 s = record {
        typed = l.typed;
        held = l.held;
        used = l.used;
        fits = l.fits;
        same_request = l.same_request;
      } in
      let (s1, h1, h2) = >>=-eq-done (call_accept_callback e lib memory client s w1 c) _ h in
      let (told, is_told, d) = accept-Handled e lib memory client w1 s s1 c l1 h1 in
      again-Completed WorkType.accept c.res told w w1 s s1 s' l
        (record { of_type = is; not_full = n; is_told = is_told }) refl
        (record {
          typed = d.typed;
          held = d.held;
          others = d.others;
          calls_at_most = d.calls_at_most;
          same_base = d.same_base;
          same_request = d.same_request;
          meets = d.meets;
        })
        refl refl refl refl refl h2
  dispatch-Completed WorkType.close w s s' c l is n i h =
      let (s1, h1, h2) = >>=-eq-done (call_close_callback e lib memory client s w c) _ h in
      let (told, is_told, d) = close-Handled e lib memory client w s s1 c l h1 in
      freed-Completed WorkType.close c.res told w s s1 s' l
        (record { of_type = is; not_full = n; is_told = is_told }) refl d
        (sym (ap (free_item e lib memory client s1) i) ∙ h2)
  dispatch-Completed WorkType.connect w s s' c l is n i h =
      let (s1, h1, h2) = >>=-eq-done (call_connect_callback e lib memory client s w c) _ h in
      let (told, is_told, d) = connect-Handled e lib memory client w s s1 c l h1 in
      freed-Completed WorkType.connect c.res told w s s1 s' l
        (record { of_type = is; not_full = n; is_told = is_told }) refl d
        (sym (ap (free_item e lib memory client s1) i) ∙ h2)
  dispatch-Completed WorkType.send_stream_data w s s' c l is n i h =
      let (s1, h1, h2) = >>=-eq-done (call_send_callback e lib memory client s w c) _ h in
      let (told, is_told, d) = send-Handled e lib memory client w s s1 c l h1 in
      freed-Completed WorkType.send_stream_data c.res told w s s1 s' l
        (record { of_type = is; not_full = n; is_told = is_told }) refl d
        (sym (ap (free_item e lib memory client s1) i) ∙ h2)
  dispatch-Completed WorkType.send_workpacket w s s' c l is n i h =
      let (s1, h1, h2) = >>=-eq-done (call_send_callback e lib memory client s w c) _ h in
      let (told, is_told, d) = send-Handled e lib memory client w s s1 c l h1 in
      freed-Completed WorkType.send_workpacket c.res told w s s1 s' l
        (record { of_type = is; not_full = n; is_told = is_told }) refl d
        (sym (ap (free_item e lib memory client s1) i) ∙ h2)
  dispatch-Completed WorkType.recv w s s' c l is n i h =
      let (r, h1, h2) = >>=-eq-done (call_recv_callback e lib memory client s w c) _ h in
      recv-Completed r.0 w s r.1 s' c l is n (recv-Handled e lib memory client w s c r l h1)
        (sym (ap (after_recv e lib memory client r.0 r.1 w) i) ∙ h2)
