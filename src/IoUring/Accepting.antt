-- ===== src/IoUring/Accepting.antt =====
-- src/IOUring.cpp: the completions of accepts as a whole.
use iuring.Prelude.{ℕ, ◌≡◌, refl, ap, ◌∙◌, ◌∷◌, arith, some, Option}
use iuring.Outcome.{done}
use iuring.Endian.{Endian}
use iuring.IpAddress.{IpAddress, of_storage}
use iuring.Completion.{Client, accepted}
use iuring.Completion.Int.{pos}
use iuring.WorkItem.{WorkItem, WorkType, Memory, accept_callback}
use iuring.WorkPool.{WorkPool}
use iuring.WorkPool.Slots.{find, get_elem?-within}
use iuring.WorkPool.Refinement.{get_known, found_item, update}
use iuring.Liburing.{Liburing, Cqe, Sqe}
use iuring.IoUring.State.{IoUring}
use iuring.IoUring.Submission.{prepare, prepare_as}
use iuring.IoUring.Requests.{perform_all}
use iuring.IoUring.Handlers.{call_accept_callback, invoke}
use iuring.IoUring.Poll.{call_callback_and_free_work_item_id, dispatch_as, submit_again}
use iuring.IoUring.Invariant.{IsTyped}
use iuring.IoUring.Returning.{still_held}
use iuring.IoUring.Rearming.{Rearms, rearmed}

module _ {K : Type 0} (e : Endian) (lib : Liburing K) (memory : WorkPool → Memory)
    (client : Client) where
  -- The item of an accept with the peer's address that the kernel has written into it.
  abbrev pub with_peer : IoUring K → WorkItem → WorkItem
  with_peer s w =
      let (bytes, len) = lib.accepted_address s.ring w.accept_sock_len w.buffer_for_uring in
      record w { buffer_for_uring = bytes; accept_sock_len = len }

  pub accept_prepares :
      (w : WorkItem) → w.work_type ≡ WorkType.accept → (r : WorkItem × Sqe) × (prepare e w ≡ done r)
  unfolding prepare prepare_as
  accept_prepares w is = (_, ap (λ (t : WorkType). prepare_as e t w) is)

  accept_called :
      (s s1 : IoUring K) (w : WorkItem) (c : Cqe) (cb n : ℕ) (addr : IpAddress)
      → w.callback ≡ accept_callback cb
      → c.res ≡ pos n
      → of_storage e w.buffer_for_uring w.accept_sock_len ≡ done addr
      → let call = accepted cb (record { new_fd = n; address = addr }) in
        perform_all e lib memory
            (record s { calls = call ∷ s.calls })
            (client (call ∷ s.calls)).requests
          ≡ done s1
        → call_accept_callback e lib memory client s w c ≡ done s1
  unfolding call_accept_callback invoke
  accept_called s s1 w c cb n addr own good peer h = ground (arith, own, good, peer, h)

  dispatch_accept :
      (t : WorkType) (s s1 s' : IoUring K) (w : WorkItem) (c : Cqe)
      → t ≡ WorkType.accept
      → call_accept_callback e lib memory client s (with_peer s w) c ≡ done s1
      → submit_again e lib memory client s1 (with_peer s w) ≡ done s'
      → dispatch_as e lib memory client t s w c ≡ done s'
  unfolding dispatch_as
  dispatch_accept t s s1 s' w c is h1 h2 = rw (is, h1) h2

  -- The completion of an accept with the descriptor n, on a typed pool, where the kernel has
  -- written an address of a known length into the item, and with room in the queue: if the requests
  -- that the handler makes succeed, then so does the whole. The item's own handler was called once,
  -- with n and that address; then the item was submitted again, unchanged in what names its
  -- request; and every other entry of the pool is as the handler's requests left it.
  pub accept_completes :
      (s s1 : IoUring K) (w : WorkItem) (c : Cqe) (cb n : ℕ) (addr : IpAddress) (k1 : K)
      → IsTyped s.pool
      → find s.pool c.user_data ≡ some w
      → w.work_type ≡ WorkType.accept
      → w.callback ≡ accept_callback cb
      → c.res ≡ pos n
      → of_storage e (with_peer s w).buffer_for_uring (with_peer s w).accept_sock_len ≡ done addr
      → let call = accepted cb (record { new_fd = n; address = addr }) in
        perform_all e lib memory
            (record s { calls = call ∷ s.calls })
            (client (call ∷ s.calls)).requests
          ≡ done s1
        → lib.get_sqe s1.ring ≡ some k1
        → (s' : IoUring K) × (call_callback_and_free_work_item_id e lib memory client s c ≡ done s')
          × (s'.calls ≡ call ∷ s.calls)
          × ((o : Option WorkItem) × Rearms e lib memory client (with_peer s w) s1.ring o s'.ring
              × ((j : ℕ) → find s'.pool j ≡ update (find s1.pool) c.user_data o j))
  unfolding call_callback_and_free_work_item_id
  accept_completes s s1 w c cb n addr k1 t held is own good peer h room =
      let call = accepted cb (record { new_fd = n; address = addr }) in
      let (held1, t1, calls) = still_held e lib memory client s s1 call c.user_data w t held h in
      let w1 = with_peer s w in
      let ((w2, sqe), ready) = accept_prepares w1 is in
      let (s', ends, same, rest) =
        rearmed e lib memory client s1 w w1 w2 sqe c.user_data k1 t1.valid held1 refl refl ready
          room in
      let run =
        dispatch_accept w.work_type s s1 s' w c is
          (accept_called s s1 w1 c cb n addr own good peer h) ends in
      let got =
        get_known s.pool c.user_data t.valid
          (get_elem?-within s.pool.items c.user_data (found_item s.pool c.user_data w held)) in
      (s', ground (arith, run), same ∙ calls, rest)
