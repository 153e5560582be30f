-- ===== src/IoUring/Calling.antt =====
-- src/IOUring.cpp: which handler a completion calls, and what becomes of the pool meanwhile.
use iuring.Prelude.{
  ℕ, ◌≡◌, ◌≢◌, refl, ◌∙◌, subst, true, ◌∷◌, arith, ◌⊎◌, inl, inr, Bool-cases, Option, none, some,
  sym,
}
use iuring.Outcome.{done, >>=-eq-done, done-injective}
use iuring.Endian.{Endian}
use iuring.Completion.{Client, Call, sent, closed, ReceivePostAction}
use iuring.Completion.Int.{is_negative}
use iuring.WorkItem.{
  WorkType, WorkItem, Memory, Callback, connect_callback, accept_callback, recv_callback,
  send_callback, close_callback, in_use,
}
use iuring.WorkPool.{WorkPool, put}
use iuring.Liburing.{Liburing, Cqe}
use iuring.IoUring.State.{IoUring}
use iuring.IoUring.Contract.{called, Heard, Heard-ext, IsTold, pending, of_item, put-pending}
use iuring.IoUring.Adding.{perform_all-Submits, perform_all-Extends}
use iuring.IoUring.Requests.{perform_all}
use iuring.IoUring.Handlers.{
  invoke, call_send_callback, call_close_callback, call_connect_callback, call_accept_callback,
  close_handler, send_handler, recv_handler, accept_handler, connect_handler,
}
use iuring.IoUring.Invariant.{IsTyped, matches, put-IsTyped}
use iuring.WorkPool.Slots.{find}
use iuring.WorkPool.Refinement.{put-find}
use iuring.SendPacket.{reset}
use iuring.IpAddress.{of_storage}

-- No handler is called, or one, which is the given one.
abbrev pub CallsAtMost : {K : Type 0} → Callback → IoUring K → IoUring K → Type 0
CallsAtMost cb s s' =
    (s'.calls ≡ s.calls) ⊎ ((c : Call) × (s'.calls ≡ c ∷ s.calls) × (called c ≡ cb))

-- A completion is for `w`, an item in use of the pool, up to the fields that no invariant is about.
pub record Live {K : Type 0} (w : WorkItem) (s : IoUring K) : Type 0 where
  pub typed : IsTyped s.pool
  pub held : (x : WorkItem) × (find s.pool w.id ≡ some x)
  pub used : w.state ≡ in_use
  pub fits : matches w.work_type w.callback ≡ true
  pub same_request : of_item held.0 ≡ of_item w

-- Afterwards the pool keeps its invariant, the item its slot and every other item is as it was, and
-- at most the item's own handler was called, with `told` the action that it returned.
pub record Handled {K : Type 0} (client : Client) (told : Option ReceivePostAction) (w : WorkItem)
    (s s' : IoUring K) : Type 0 where
  pub typed : IsTyped s'.pool
  pub held : (x : WorkItem) × (find s'.pool w.id ≡ some x)
  pub others : (j : ℕ) (x : WorkItem) → j ≢ w.id → find s.pool j ≡ some x → find s'.pool j ≡ some x
  pub calls_at_most : CallsAtMost w.callback s s'
  pub same_base : s'.buffer_base ≡ s.buffer_base
  pub same_request : of_item held.0 ≡ of_item w
  pub meets : Heard client (of_item w) told (pending s.pool) s.calls (pending s'.pool) s'.calls

close_own : (cb : Callback) (n : ℕ) → close_handler cb ≡ done n → close_callback n ≡ cb
close_own cb n h = ground arith

send_own : (cb : Callback) (n : ℕ) → send_handler cb ≡ done n → send_callback n ≡ cb
send_own cb n h = ground arith

pub recv_own : (cb : Callback) (n : ℕ) → recv_handler cb ≡ done n → recv_callback n ≡ cb
recv_own cb n h = ground arith

accept_own : (cb : Callback) (n : ℕ) → accept_handler cb ≡ done n → accept_callback n ≡ cb
accept_own cb n h = ground arith

connect_own : (cb : Callback) (n : ℕ) → connect_handler cb ≡ done n → connect_callback n ≡ cb
connect_own cb n h = ground arith

module _ {K : Type 0} (e : Endian) (lib : Liburing K) (memory : WorkPool → Memory)
    (client : Client) where
  pub unchanged : (w : WorkItem) (s : IoUring K) → Live w s → Handled client none w s s
  unchanged w s l = record {
    typed = l.typed;
    held = l.held;
    others = λ j x n h. h;
    calls_at_most = inl refl;
    same_base = refl;
    same_request = l.same_request;
    meets = ((λ j. refl), refl);
  }

  -- The handler runs, and nothing else happens to the state.
  pub invoke-Handled :
      (w : WorkItem) (s : IoUring K) (c : Call) (r : ReceivePostAction × IoUring K)
      → Live w s
      → called c ≡ w.callback
      → invoke e lib memory client s c ≡ done r
      → Handled client (some r.0) w s r.1
  unfolding invoke
  invoke-Handled w s c r l own h =
      let (s1, h1, h2) =
        >>=-eq-done
          (perform_all e lib memory (record s { calls = c ∷ s.calls })
            (client (c ∷ s.calls)).requests)
          _ h in
      let (t', x, calls, base) = perform_all-Extends e lib memory _ s1 _ l.typed h1 in
      let submitted =
        perform_all-Submits e lib memory (record s { calls = c ∷ s.calls }) s1 _ l.typed h1 in
      subst (λ (q : ReceivePostAction × IoUring K). Handled client (some q.0) w s q.1)
        (done-injective _ r h2)
        (record {
          typed = t';
          held = (l.held.0, x w.id l.held.0 l.held.1);
          others = λ j y n f. x j y f;
          calls_at_most = inr (c, calls, own);
          same_base = base;
          same_request = l.same_request;
          meets = (c, own, calls, refl, submitted);
        })

  -- Storing a version of the item with the same identifier, state, type and handler.
  pub store-Handled :
      (told : Option ReceivePostAction) (w w' : WorkItem) (s s' : IoUring K)
      → Live w s
      → Handled client told w s s'
      → w'.id ≡ w.id
      → w'.state ≡ w.state
      → w'.work_type ≡ w.work_type
      → w'.callback ≡ w.callback
      → w'.socket ≡ w.socket
      → Handled client told w s (record s' { pool = put s'.pool w' })
  store-Handled told w w' s s' l d i st t cb so =
      let used' : w'.state ≡ in_use = st ∙ l.used in
      let held' : find s'.pool w'.id ≡ some d.held.0 = rw i d.held.1 in
      let entries = (put-find s'.pool w' d.held.0 d.typed.valid held' used').1 in
      let same : of_item w' ≡ of_item w = cc (t, cb, so) in
      record {
        typed = put-IsTyped s'.pool w' d.held.0 d.typed held' used' (cc (t, cb, l.fits));
        held = (w', ground (arith, entries w.id, i));
        others = λ j x n f. ground (arith, entries j, i, d.others j x n f);
        calls_at_most = d.calls_at_most;
        same_base = d.same_base;
        same_request = same;
        meets =
            Heard-ext client (of_item w) told (pending s.pool) (pending s'.pool)
              (pending (put s'.pool w')) s.calls s'.calls d.meets
              (λ j.
                put-pending s'.pool (put s'.pool w') w' d.held.0 j held' (d.same_request ∙ sym same)
                  entries);
      }

  -- It was handled, and told as is due for its type.
  abbrev pub Answered : WorkType → Cqe → WorkItem → IoUring K → IoUring K → Type 0
  Answered t c w s s' =
      (told : Option ReceivePostAction) × IsTold t c.res told × Handled client told w s s'

  pub close-Handled :
      (w : WorkItem) (s s' : IoUring K) (c : Cqe)
      → Live w s
      → call_close_callback e lib memory client s w c ≡ done s'
      → Answered WorkType.close c w s s'
  unfolding call_close_callback
  close-Handled w s s' c l h =
      let (n, h1, h2) = >>=-eq-done (close_handler w.callback) _ h in
      let (r, h3, h4) = >>=-eq-done (invoke e lib memory client s (closed n c.res)) _ h2 in
      subst (Answered WorkType.close c w s) (done-injective r.1 s' h4)
        (some r.0, (r.0, refl), invoke-Handled w s _ r l (close_own w.callback n h1) h3)

  pub send-Handled :
      (w : WorkItem) (s s' : IoUring K) (c : Cqe)
      → Live w s
      → call_send_callback e lib memory client s w c ≡ done s'
      → Answered WorkType.send_stream_data c w s s'
  unfolding call_send_callback
  send-Handled w s s' c l h = elim (Bool-cases (is_negative c.res)) [
    | inl neg ↦
        subst (Answered WorkType.send_stream_data c w s)
          (done-injective s s' (rw (neg, call_send_callback) at h))
          (none, inl (neg, refl), unchanged w s l)
    | inr good ↦
        let run = rw (good, call_send_callback) at h in
        let (n, h1, h2) = >>=-eq-done (send_handler w.callback) _ run in
        let (r, h3, h4) = >>=-eq-done (invoke e lib memory client s (sent n c.res)) _ h2 in
        subst (Answered WorkType.send_stream_data c w s) (done-injective _ s' h4) (
          some r.0,
          inr (good, (r.0, refl)),
          store-Handled (some r.0) w (record w { send_packet = reset w.send_packet }) s r.1 l
              (invoke-Handled w s _ r l (send_own w.callback n h1) h3) refl refl refl refl refl,
        )
  ]

  pub connect-Handled :
      (w : WorkItem) (s s' : IoUring K) (c : Cqe)
      → Live w s
      → call_connect_callback e lib memory client s w c ≡ done s'
      → Answered WorkType.connect c w s s'
  unfolding call_connect_callback
  connect-Handled w s s' c l h = elim (Bool-cases (is_negative c.res)) [
    | inl neg ↦
        subst (Answered WorkType.connect c w s)
          (done-injective s s' (rw (neg, call_connect_callback) at h))
          (none, inl (neg, refl), unchanged w s l)
    | inr good ↦
        let run = rw (good, call_connect_callback) at h in
        let (n, h1, h2) = >>=-eq-done (connect_handler w.callback) _ run in
        let (r, h3, h4) = >>=-eq-done (invoke e lib memory client s _) _ h2 in
        subst (Answered WorkType.connect c w s) (done-injective r.1 s' h4) (
          some r.0,
          inr (good, (r.0, refl)),
          invoke-Handled w s _ r l (connect_own w.callback n h1) h3,
        )
  ]

  pub accept-Handled :
      (w : WorkItem) (s s' : IoUring K) (c : Cqe)
      → Live w s
      → call_accept_callback e lib memory client s w c ≡ done s'
      → Answered WorkType.accept c w s s'
  unfolding call_accept_callback
  accept-Handled w s s' c l h = elim (Bool-cases (is_negative c.res)) [
    | inl neg ↦
        subst (Answered WorkType.accept c w s)
          (done-injective s s' (rw (neg, call_accept_callback) at h))
          (none, inl (neg, refl), unchanged w s l)
    | inr good ↦
        let run = rw (good, call_accept_callback) at h in
        let (addr, h0, run1) =
          >>=-eq-done (of_storage e w.buffer_for_uring w.accept_sock_len) _ run in
        let (n, h1, h2) = >>=-eq-done (accept_handler w.callback) _ run1 in
        let (r, h3, h4) = >>=-eq-done (invoke e lib memory client s _) _ h2 in
        subst (Answered WorkType.accept c w s) (done-injective r.1 s' h4) (
          some r.0,
          inr (good, (r.0, refl)),
          invoke-Handled w s _ r l (accept_own w.callback n h1) h3,
        )
  ]
