-- ===== src/Tests/Runs.antt =====
-- Examples of src/IOUring.cpp: a run with a receive, and the buffer that it hands back.
use iuring.Prelude.{◌≡◌, refl, ◌++◌, ◌∷◌, [], sym, none, some, arith, ℕ}
use iuring.Outcome.{done, ok}
use iuring.Endian.{little}
use iuring.IoUring.State.{IoUring}
use iuring.IoUring.Reach.{here, next, asks, polls, empty-IsTyped}
use iuring.IoUring.Runs.{Reach-handed}
use iuring.Tests.Rings.{
  Kernel, lib, memory, view, client, start, after, connecting, connecting_twice, connect,
  completion, peer, item,
}
use iuring.WorkItem.{
  submit_recv as item_submit_recv, make, mark_is_free, submit_connect as item_submit_connect,
  WorkItem,
}
use iuring.IoUring.Requests.{submit_recv, perform, perform_all, submit_connect}
use iuring.IoUring.Submission.{submit, get_sqe, prepare, prepare_as}
use iuring.WorkPool.{
  internal_alloc_work_item, alloc_recv_work_item, put, get_work_item, free_work_item,
  alloc_connect_work_item,
}
use iuring.IoUring.Poll.{
  poll_completion_queues, call_callback_and_free_work_item_id, dispatch_as, after_recv, free_item,
  polled,
}
use iuring.IoUring.Handlers.{call_recv_callback, call_recv_handler_stream, deliver, invoke}
use iuring.WorkPool.Slots.{find}
use iuring.IoUring.Buffers.{recycle_buffer}
use iuring.Completion.Int.{pos}
use iuring.IoUring.Answering.{request_answered, requests, begins}
use iuring.Completion.{connected, Call}
use iuring.IpAddress.{of_sockaddr_in, size_sockaddr, data_sockaddr}
use iuring.Tests.Completions.{first_request, second_request}
use iuring.IpAddress.Layout.{IsSockaddrIn}
use iuring.WorkPool.Refinement.{update}
use iuring.Tests.Returns.{receive, five_bytes}

abbrev run_start : IoUring Kernel
run_start = record start { ring = record start.ring { waiting = five_bytes ∷ [] } }

abbrev run_asked : IoUring Kernel
run_asked = after run_start (perform little lib memory run_start receive)

abbrev run_end : IoUring Kernel
run_end = (after (run_start, ok) (poll_completion_queues little lib memory client run_asked)).0

asked_receive : perform little lib memory run_start receive ≡ done run_asked
unfolding perform internal_alloc_work_item make submit get_sqe prepare prepare_as submit_recv
    alloc_recv_work_item item_submit_recv put
asked_receive = refl

polled_receive : poll_completion_queues little lib memory client run_asked ≡ done (run_end, ok)
unfolding perform internal_alloc_work_item make submit get_sqe prepare prepare_as submit_recv
    alloc_recv_work_item item_submit_recv put call_callback_and_free_work_item_id get_work_item
    dispatch_as call_recv_callback call_recv_handler_stream deliver invoke perform_all after_recv
    free_item free_work_item mark_is_free recycle_buffer poll_completion_queues polled
polled_receive = refl

Reach-handed_example : run_end.ring.published ≡ run_start.ring.published ++ 2 ∷ []
unfolding perform internal_alloc_work_item make submit get_sqe prepare prepare_as submit_recv
    alloc_recv_work_item item_submit_recv put find
Reach-handed_example =
    Reach-handed little lib memory view client run_start run_end
      (next (next here (asks receive asked_receive)) (polls ok polled_receive))

peer_fits : IsSockaddrIn peer
peer_fits = record {
  family_fits = omega arith;
  port_fits = omega arith;
  addr_fits = omega arith;
  zero0_fits = omega arith;
  zero1_fits = omega arith;
}

-- The call of the first connect's handler, made while a second connect is under way.
abbrev answer : Call
answer = connected 7 (record { status = 0; address = of_sockaddr_in peer })

abbrev answered_state : IoUring Kernel
answered_state = after start (
    perform_all little lib memory
      (record connecting_twice { calls = answer ∷ connecting_twice.calls })
      (client (answer ∷ connecting_twice.calls)).requests)

handler_asks :
    perform_all little lib memory
      (record connecting_twice { calls = answer ∷ connecting_twice.calls })
      (client (answer ∷ connecting_twice.calls)).requests
    ≡ done answered_state
unfolding perform submit_connect alloc_connect_work_item internal_alloc_work_item make
    item_submit_connect size_sockaddr data_sockaddr submit get_sqe prepare prepare_as perform_all
    submit_recv alloc_recv_work_item item_submit_recv put
handler_asks = refl

abbrev first_item : WorkItem
first_item = item (find connecting.pool 0)

first_held :
    (find start.pool first_item.id ≡ none)
    × (find connecting.pool first_item.id ≡ some first_item)
    × (first_item.id ≡ 0)
unfolding perform submit_connect alloc_connect_work_item internal_alloc_work_item make
    item_submit_connect size_sockaddr data_sockaddr submit get_sqe prepare prepare_as put find
first_held = (refl, refl, refl)

request_answered_example :
    (s' : IoUring Kernel) × (call_callback_and_free_work_item_id little lib memory client
        connecting_twice completion
      ≡ done s')
    × (s'.calls ≡ answer ∷ connecting_twice.calls)
    × ((j : ℕ) → find s'.pool j ≡ update (find answered_state.pool) first_item.id none j)
request_answered_example =
    request_answered little lib memory client start connecting connecting_twice answered_state
      connect first_item completion (pos 0) answer empty-IsTyped first_request first_held.0
      first_held.1 (requests begins connect second_request) (sym first_held.2) refl refl
      (peer, refl, peer_fits, refl, refl) handler_asks
