-- ===== src/Tests/Completions.antt =====
-- Examples of src/IOUring.cpp: a connect, its completion, and the receive that its handler asks
-- for.
use iuring.Liburing.{Sqe}
use iuring.IoUring.Sending.{Asks, perform-Asks}
use iuring.Prelude.{false, ℕ, ◌≡◌, refl, none, some, ◌≢◌, ◌⊎◌, ◌∷◌, []}
use iuring.Outcome.{done, ok}
use iuring.Endian.{little}
use iuring.WorkPool.Slots.{find}
use iuring.WorkPool.Refinement.{update}
use iuring.WorkItem.{
  WorkItem, make, mark_is_free, submit_connect as item_submit_connect,
  submit_recv as item_submit_recv, WorkType, connect_callback,
}
use iuring.WorkPool.{
  put, get_work_item, free_work_item, alloc_connect_work_item, alloc_recv_work_item,
  internal_alloc_work_item,
}
use iuring.IpAddress.{size_sockaddr, data_sockaddr, of_sockaddr_in6}
use iuring.IoUring.Submission.{submit, prepare, prepare_as, get_sqe}
use iuring.IoUring.Requests.{perform, perform_all, submit_connect, submit_recv}
use iuring.IoUring.Handlers.{invoke, call_connect_callback}
use iuring.IoUring.Poll.{
  call_callback_and_free_work_item_id, dispatch_as, free_item, poll_completion_queues, polled,
}
use iuring.IoUring.Invariant.{IsTyped}
use iuring.IoUring.Reach.{empty-IsTyped, Reach-IsTyped, next, here, polls, asks}
use iuring.IoUring.Adding.{perform-Performed, perform-adds_one}
use iuring.Tests.Rings.{
  refused, refused_state, connecting_twice, polled_state, socket, completion, peer6, completed,
  item, Kernel, lib, memory, client, start, connect, connecting,
}
use iuring.IoUring.Addresses.{connect_ipv6_fails}
use iuring.Completion.Int.{pos}
use iuring.IoUring.Contract.{Event}
use iuring.IoUring.Keeping.{Keeps, Reach-Keeps}
use iuring.IoUring.Completing.{complete-settles}
use iuring.IoUring.Errors.{Fails, error_lem}
use iuring.IoUring.Calling.{CallsAtMost}
use iuring.IoUring.Dispatching.{Settled}

pub first_request : perform little lib memory start connect ≡ done connecting
unfolding perform submit_connect alloc_connect_work_item internal_alloc_work_item make
    item_submit_connect size_sockaddr data_sockaddr submit get_sqe prepare prepare_as
first_request = refl

pub second_request : perform little lib memory connecting connect ≡ done connecting_twice
unfolding perform submit_connect alloc_connect_work_item internal_alloc_work_item make
    item_submit_connect size_sockaddr data_sockaddr submit get_sqe prepare prepare_as put
second_request = refl

pub connecting-IsTyped : IsTyped connecting.pool
connecting-IsTyped =
    (perform-Performed little lib memory start connecting connect first_request).adds.keeps
      empty-IsTyped

connecting_twice-IsTyped : IsTyped connecting_twice.pool
connecting_twice-IsTyped =
    (perform-Performed little lib memory connecting connecting_twice connect
        second_request).adds.keeps
      connecting-IsTyped

first_completion :
    call_callback_and_free_work_item_id little lib memory client connecting_twice completion
    ≡ done completed
unfolding perform submit_connect alloc_connect_work_item internal_alloc_work_item make
    item_submit_connect size_sockaddr data_sockaddr submit get_sqe prepare prepare_as
    call_callback_and_free_work_item_id get_work_item dispatch_as call_connect_callback invoke
    free_item free_work_item mark_is_free perform_all submit_recv alloc_recv_work_item
    item_submit_recv put
first_completion = refl

first_poll : poll_completion_queues little lib memory client connecting ≡ done (polled_state, ok)
unfolding perform submit_connect alloc_connect_work_item internal_alloc_work_item make
    item_submit_connect size_sockaddr data_sockaddr submit get_sqe prepare prepare_as
    call_callback_and_free_work_item_id get_work_item dispatch_as call_connect_callback invoke
    free_item free_work_item mark_is_free perform_all submit_recv alloc_recv_work_item
    item_submit_recv put poll_completion_queues polled
first_poll = refl

refused_completion :
    call_callback_and_free_work_item_id little lib memory client connecting refused
    ≡ done refused_state
unfolding perform submit_connect alloc_connect_work_item internal_alloc_work_item make
    item_submit_connect size_sockaddr data_sockaddr submit get_sqe prepare prepare_as
    call_callback_and_free_work_item_id get_work_item dispatch_as call_connect_callback free_item
    free_work_item mark_is_free put
refused_completion = refl

find_second : find connecting_twice.pool 1 ≡ some (item (find connecting_twice.pool 1))
unfolding perform submit_connect alloc_connect_work_item internal_alloc_work_item make
    item_submit_connect size_sockaddr data_sockaddr submit get_sqe prepare prepare_as put find
find_second = refl

find_first : find connecting.pool 0 ≡ some (item (find connecting.pool 0))
unfolding perform submit_connect alloc_connect_work_item internal_alloc_work_item make
    item_submit_connect size_sockaddr data_sockaddr submit get_sqe prepare prepare_as put find
find_first = refl

is_connect : (item (find connecting.pool 0)).work_type ≡ WorkType.connect
unfolding perform submit_connect alloc_connect_work_item internal_alloc_work_item make
    item_submit_connect size_sockaddr data_sockaddr submit get_sqe prepare prepare_as put find
is_connect = refl

complete-settles_example :
    ((find connecting_twice.pool 0 ≡ none) × (completed ≡ connecting_twice))
    ⊎ ((w : WorkItem) × (find connecting_twice.pool 0 ≡ some w)
        × IsTyped completed.pool
        × CallsAtMost w.callback connecting_twice completed
        × Settled w completed
        × ((j : ℕ) (x : WorkItem)
            → j ≢ 0
            → find connecting_twice.pool j ≡ some x
            → find completed.pool j ≡ some x))
complete-settles_example =
    complete-settles little lib memory client connecting_twice completed completion
      connecting_twice-IsTyped first_completion

Reach-IsTyped_example : IsTyped polled_state.pool
Reach-IsTyped_example =
    Reach-IsTyped little lib memory client start polled_state refl
      (next (next here (asks connect first_request)) (polls ok first_poll))

Reach-Keeps_example :
    IsTyped polled_state.pool
    × Keeps little lib memory client
        (Event.completed 0 (pos 0) ∷ Event.asked connect ∷ [])
        start
        polled_state
unfolding perform submit_connect alloc_connect_work_item item_submit_connect size_sockaddr
    data_sockaddr submit prepare
Reach-Keeps_example =
    Reach-Keeps little lib memory client start polled_state empty-IsTyped
      (next (next here (asks connect first_request)) (polls ok first_poll))

perform-adds_one_example :
    (w : WorkItem) × (find start.pool w.id ≡ none)
    × ((j : ℕ) → find connecting.pool j ≡ update (find start.pool) w.id (some w) j)
    × (w.work_type ≡ WorkType.connect)
    × (w.callback ≡ connect_callback 7)
    × (w.socket ≡ socket)
    × IsTyped connecting.pool
    × (connecting.calls ≡ start.calls)
perform-adds_one_example =
    perform-adds_one little lib memory start connecting connect empty-IsTyped first_request

error_lem_example :
    Fails little lib memory client
      (item (find connecting.pool 0))
      connecting
      0
      111
      (call_callback_and_free_work_item_id little lib memory client connecting refused)
error_lem_example =
    error_lem little lib memory client (item (find connecting.pool 0)) connecting refused 110
      connecting.ring connecting-IsTyped find_first (rw is_connect (cc)) refl refl

connect_ipv6_fails_example :
    submit_connect little lib memory start socket (of_sockaddr_in6 peer6) 7 ≢ done start
connect_ipv6_fails_example =
    connect_ipv6_fails little lib memory start start socket (of_sockaddr_in6 peer6) 7 refl

perform-Asks_example :
    (k : Kernel) × (sqe : Sqe) × (w : WorkItem) × (get_sqe little lib start.ring ≡ done k)
    × (connecting.ring ≡ lib.submit (lib.prep k sqe))
    × Asks little connect sqe.op
    × (sqe.io_link ≡ false)
    × (sqe.buffer_select ≡ false)
    × (sqe.buf_group ≡ 0)
    × (sqe.user_data ≡ w.id)
    × (find start.pool w.id ≡ none)
    × (find connecting.pool w.id ≡ some w)
perform-Asks_example =
    perform-Asks little lib memory start connecting connect empty-IsTyped first_request
