-- ===== src/Tests/Lending.antt =====
-- Examples of src/IOUring.cpp: a set-up, a receive, and a buffer that the kernel takes and that the
-- completion brings back.
use iuring.Prelude.{
  ℕ, ◌+◌, ◌≡◌, refl, List, [], ◌∷◌, ◌++◌, true, some, inr, if◌then◌else◌, ltb, Option, ◌*◌, ◌≤◌,
  arith,
}
use iuring.Outcome.{done, ok}
use iuring.Endian.{little}
use iuring.Completion.Int.{pos}
use iuring.Liburing.{Cqe}
use iuring.Probe.{
  tag, new, supports, add_features, contains, convert_uring_op_to_feature, first_case,
  probe_features,
}
use iuring.Probe.Reported.{tag-injective}
use iuring.WorkPool.Slots.{count, find}
use iuring.IoUring.State.{IoUring, buffers, buffer_size}
use iuring.IoUring.Buffers.{
  init, init_ring, setup_buffer_pool, recycle_buffer, add_buffers, push_ids, sizeof_buf, get_buffer,
  buf_ring_size,
}
use iuring.IoUring.Ownership.{range_from}
use iuring.IoUring.Requests.{perform, perform_all, submit_recv}
use iuring.IoUring.Submission.{submit, get_sqe, prepare, prepare_as}
use iuring.IoUring.Handlers.{call_recv_callback, call_recv_handler_stream, deliver, invoke}
use iuring.IoUring.Poll.{
  poll_completion_queues, polled, call_callback_and_free_work_item_id, dispatch_as, after_recv,
  free_item,
}
use iuring.IoUring.Lending.{
  Lends, begins, takes, requests, completes, init-lends, over_run, dropped, invented,
}
use iuring.WorkItem.{make, submit_recv as item_submit_recv, mark_is_free}
use iuring.WorkPool.{
  internal_alloc_work_item, alloc_recv_work_item, put, get_work_item, free_work_item,
}
use iuring.Tests.Rings.{Kernel, lib, memory, view, client, start, after, same_ring}
use iuring.IoUring.Placing.{filled_lie_apart}
use iuring.IoUring.Invariant.{IsTyped}
use iuring.IoUring.Reach.{empty-IsTyped}
use iuring.Tests.Buffers.{list, errors, errors_not_ok}
use iuring.Tests.Returns.{receive}

-- Five bytes in buffer 0.
abbrev in_first : Cqe
in_first = record { user_data = 0; res = pos 5; flags = 1 }

abbrev before_init : IoUring Kernel
before_init = record start { ring = record start.ring { waiting = in_first ∷ [] } }

abbrev queue_init : ℕ → Option Kernel
queue_init size = some before_init.ring

abbrev ready : IoUring Kernel
ready = record (setup_buffer_pool lib errors (some 4096) (pos 0) before_init).0 {
  initialized = true;
}

abbrev asked : IoUring Kernel
asked = after ready (perform little lib memory ready receive)

abbrev over : IoUring Kernel
over = (after (ready, ok) (poll_completion_queues little lib memory client asked)).0

init_done :
    init lib tag queue_init 64 (some list) errors (some 4096) (pos 0) before_init ≡ done (ready, ok)
unfolding init init_ring probe_features new supports add_features contains
    convert_uring_op_to_feature first_case tag setup_buffer_pool
init_done = refl

submission_done : perform little lib memory ready receive ≡ done asked
unfolding perform internal_alloc_work_item make submit get_sqe prepare prepare_as submit_recv
    alloc_recv_work_item item_submit_recv put setup_buffer_pool add_buffers push_ids
submission_done = refl

polled_receive : poll_completion_queues little lib memory client asked ≡ done (over, ok)
unfolding perform internal_alloc_work_item make submit get_sqe prepare prepare_as submit_recv
    alloc_recv_work_item item_submit_recv put call_callback_and_free_work_item_id get_work_item
    dispatch_as call_recv_callback call_recv_handler_stream deliver invoke perform_all after_recv
    free_item free_work_item mark_is_free recycle_buffer poll_completion_queues polled
    setup_buffer_pool add_buffers push_ids
polled_receive = refl

-- The kernel takes buffer 0 and the completion names it.
run : Lends little lib memory view client ready over (0 ∷ []) []
unfolding perform internal_alloc_work_item make submit get_sqe prepare prepare_as submit_recv
    alloc_recv_work_item item_submit_recv put setup_buffer_pool add_buffers push_ids find
run =
    completes
      (takes (requests (begins [] [] refl refl) receive submission_done) asked.ring (0 ∷ [])
        (range_from 1 511) refl refl refl refl refl)
      ok polled_receive (inr (refl, ([], [], refl, refl)))

init-lends_example :
    (left : List ℕ) × (over.ring.published ≡ (0 ∷ []) ++ left)
    × ((b : ℕ)
        → count b left + count b [] + count b (over_run little lib memory view client dropped run)
          ≡ (if ltb b 512 then 1 else 0)
            + count b (over_run little lib memory view client invented run))
init-lends_example =
    init-lends little lib memory view client tag tag-injective queue_init 64 (some list) errors 4096
      before_init ready over (0 ∷ []) [] errors_not_ok (λ k made. same_ring before_init.ring k made)
      refl init_done run

ready-IsTyped : IsTyped ready.pool
unfolding setup_buffer_pool add_buffers push_ids
ready-IsTyped = empty-IsTyped

-- The kernel has filled two buffers.
two_filled : Lends little lib memory view client ready asked (0 ∷ 1 ∷ []) (0 ∷ 1 ∷ [])
unfolding perform internal_alloc_work_item make submit get_sqe prepare prepare_as submit_recv
    alloc_recv_work_item item_submit_recv put setup_buffer_pool add_buffers push_ids
two_filled =
    takes (requests (begins [] [] refl refl) receive submission_done) asked.ring (0 ∷ 1 ∷ [])
      (range_from 2 510) refl refl refl refl refl

two_flagged : over_run little lib memory view client invented two_filled ≡ []
unfolding two_filled
two_flagged = refl

filled_lie_apart_example :
    (4096 + sizeof_buf * buffers ≤ get_buffer asked 0)
    × (get_buffer asked 0 + buffer_size ≤ get_buffer asked 1)
    × (get_buffer asked 1 + buffer_size ≤ 4096 + buf_ring_size)
    × (count 0 (0 ∷ 1 ∷ []) ≡ 1)
    × (count 1 (0 ∷ 1 ∷ []) ≡ 1)
    × ((left : List ℕ) × (asked.ring.published ≡ (0 ∷ 1 ∷ []) ++ left)
        × (count 0 left ≡ 0)
        × (count 1 left ≡ 0))
filled_lie_apart_example =
    filled_lie_apart little lib memory view client tag tag-injective queue_init 64 (some list)
      errors 4096 before_init ready asked (0 ∷ 1 ∷ []) (0 ∷ 1 ∷ []) 0 1 errors_not_ok
      (λ k made. same_ring before_init.ring k made) refl init_done ready-IsTyped two_filled
      two_flagged (omega arith) (omega arith) (omega arith)
