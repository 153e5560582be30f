-- ===== src/IoUring/Poll.antt =====
-- src/IOUring.cpp: `poll_completion_queues`, which takes at most one completion from the queue, and
-- `call_callback_and_free_work_item_id`, which dispatches it.
use iuring.Prelude.{ℕ, true, false, none, some}
use iuring.Outcome.{Outcome, done, aborted, ◌>>=◌, Error, ok}
use iuring.Endian.{Endian}
use iuring.Completion.{Client, ReceivePostAction, keep_none, re_submit}
use iuring.Completion.Int.{is_errno}
use iuring.WorkItem.{WorkItem, WorkType, Memory}
use iuring.WorkPool.{WorkPool, get_work_item, free_work_item, put}
use iuring.Liburing.{Liburing, Cqe, Peek, found, again, failed}
use iuring.IoUring.State.{IoUring}
use iuring.IoUring.Submission.{submit}
use iuring.IoUring.Handlers.{
  enobufs, call_accept_callback, call_close_callback, call_recv_callback, call_connect_callback,
  call_send_callback,
}

module _ {K : Type 0} (e : Endian) (lib : Liburing K) (memory : WorkPool → Memory)
    (client : Client) where
  -- `submit(*work_item)`: the item stays in its slot. No request of a handler changes the item of
  -- another identifier, so `w` is still what the slot holds.
  unfoldable pub submit_again : IoUring K → WorkItem → Outcome (IoUring K)
  submit_again s w = do
    (w', k) ← submit e lib w s.ring
    done (record s { ring = k; pool = put s.pool w' })

  unfoldable pub free_item : IoUring K → ℕ → Outcome (IoUring K)
  free_item s id = do p ← free_work_item s.pool id; done (record s { pool = p })

  unfoldable pub after_recv : ReceivePostAction → IoUring K → WorkItem → ℕ → Outcome (IoUring K)
  after_recv keep_none s w id = free_item s id
  after_recv re_submit s w id = submit_again s w

  -- The `switch` on the type. The kernel writes the peer's address into the item before it
  -- completes an accept.
  unfoldable pub dispatch_as : WorkType → IoUring K → WorkItem → Cqe → Outcome (IoUring K)
  dispatch_as WorkType.accept s w c = do
    let (bytes, len) = lib.accepted_address s.ring w.accept_sock_len w.buffer_for_uring
    let w1 = record w { buffer_for_uring = bytes; accept_sock_len = len }
    s1 ← call_accept_callback e lib memory client s w1 c
    submit_again s1 w1
  dispatch_as WorkType.close s w c = do
    s1 ← call_close_callback e lib memory client s w c
    free_item s1 c.user_data
  dispatch_as WorkType.recv s w c = do
    (action, s1) ← call_recv_callback e lib memory client s w c
    after_recv action s1 w c.user_data
  dispatch_as WorkType.connect s w c = do
    s1 ← call_connect_callback e lib memory client s w c
    free_item s1 c.user_data
  dispatch_as WorkType.send_stream_data s w c = do
    s1 ← call_send_callback e lib memory client s w c
    free_item s1 c.user_data
  dispatch_as WorkType.send_workpacket s w c = do
    s1 ← call_send_callback e lib memory client s w c
    free_item s1 c.user_data
  dispatch_as WorkType.unknown s w c = aborted

  -- A completion with no item is logged only, and so is one that found no buffer.
  unfoldable pub call_callback_and_free_work_item_id : IoUring K → Cqe → Outcome (IoUring K)
  call_callback_and_free_work_item_id s c = do
    o ← get_work_item s.pool c.user_data
    elim o [
      | none ↦ done s
      | some w ↦ elim (is_errno c.res enobufs) [
        | true ↦ done s
        | false ↦ dispatch_as w.work_type s w c
      ]
    ]

  unfoldable pub polled : IoUring K → Peek → Outcome (IoUring K × Error)
  polled s (found c) = do
    s' ← call_callback_and_free_work_item_id s c
    done (record s' { ring = lib.cq_advance s'.ring }, ok)
  polled s again = done (s, ok)
  polled s failed = aborted

  unfoldable pub poll_completion_queues : IoUring K → Outcome (IoUring K × Error)
  unfolding polled
  poll_completion_queues s =
      let (k, peek) = lib.peek_cqe s.ring in polled (record s { ring = k }) peek
