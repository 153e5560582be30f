-- ===== src/Tests/Reusing.antt =====
-- Examples of src/IOUring.cpp: a completion too many for a receive that is over.
use iuring.Prelude.{◌≡◌, refl, none, some, ◌∷◌}
use iuring.Outcome.{done}
use iuring.Endian.{little}
use iuring.Completion.{Request, Call, closed}
use iuring.Completion.Int.{pos}
use iuring.WorkItem.{
  make, submit_recv as item_submit_recv, submit_close as item_submit_close, mark_is_free,
}
use iuring.WorkPool.{
  internal_alloc_work_item, alloc_recv_work_item, alloc_close_work_item, put, get_work_item,
  free_work_item,
}
use iuring.WorkPool.Slots.{find}
use iuring.IoUring.State.{IoUring}
use iuring.IoUring.Buffers.{recycle_buffer}
use iuring.IoUring.Requests.{perform, perform_all, submit_recv, submit_close}
use iuring.IoUring.Submission.{submit, get_sqe, prepare, prepare_as}
use iuring.IoUring.Handlers.{call_recv_callback, call_recv_handler_stream, deliver, invoke}
use iuring.IoUring.Poll.{call_callback_and_free_work_item_id, dispatch_as, after_recv, free_item}
use iuring.IoUring.Reusing.{stale_completion}
use iuring.Tests.Rings.{Kernel, lib, memory, client, start, after, socket}
use iuring.Tests.Returns.{receiving, receiving-IsTyped, receive_item, five_bytes}

-- The receive is over, and a close is requested.
abbrev over : IoUring Kernel
over =
    after start (call_callback_and_free_work_item_id little lib memory client receiving five_bytes)

abbrev close : Request
close = Request.close socket 7

abbrev closing : IoUring Kernel
closing = after start (perform little lib memory over close)

abbrev closed_with_five : Call
closed_with_five = closed 7 (pos 5)

abbrev told : IoUring Kernel
told = record closing { calls = closed_with_five ∷ closing.calls }

received_once :
    (call_callback_and_free_work_item_id little lib memory client receiving five_bytes ≡ done over)
    × (find receiving.pool 0 ≡ some receive_item)
    × (find over.pool 0 ≡ none)
    × (perform little lib memory over close ≡ done closing)
unfolding perform internal_alloc_work_item make submit get_sqe prepare prepare_as submit_recv
    alloc_recv_work_item item_submit_recv put call_callback_and_free_work_item_id get_work_item
    dispatch_as call_recv_callback call_recv_handler_stream deliver invoke perform_all after_recv
    free_item free_work_item mark_is_free recycle_buffer find submit_close alloc_close_work_item
    item_submit_close
received_once = (refl, refl, refl, refl)

nothing_asked :
    perform_all little lib memory told (client (closed_with_five ∷ closing.calls)).requests
    ≡ done told
unfolding perform_all
nothing_asked = refl

stale_completion_example :
    (s' : IoUring Kernel) × (call_callback_and_free_work_item_id little lib memory client closing
        five_bytes
      ≡ done s')
    × (s'.calls ≡ closed_with_five ∷ closing.calls)
    × (find s'.pool 0 ≡ none)
stale_completion_example =
    stale_completion little lib memory client receiving over closing told receive_item five_bytes
      five_bytes close 5 closed_with_five receiving-IsTyped received_once.1 received_once.0
      received_once.2 received_once.3 refl refl refl nothing_asked
