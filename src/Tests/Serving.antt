-- ===== src/Tests/Serving.antt =====
-- Examples of src/IOUring.cpp: an accept, and a connection that comes in.
use iuring.Prelude.{ℕ, ◌≡◌, refl, none, some, ◌∷◌, Option, replicate}
use iuring.Outcome.{done}
use iuring.Endian.{little}
use iuring.Socket.{SocketKind}
use iuring.IpAddress.{IpAddress, of_storage, unset}
use iuring.Completion.{Request, Call, accepted}
use iuring.Completion.Int.{pos}
use iuring.Liburing.{Liburing, Cqe}
use iuring.WorkItem.{WorkItem, make, submit_accept as item_submit_accept}
use iuring.WorkPool.{internal_alloc_work_item, alloc_accept_work_item, put}
use iuring.WorkPool.Slots.{find}
use iuring.WorkPool.Refinement.{update}
use iuring.IoUring.State.{IoUring}
use iuring.IoUring.Requests.{perform, perform_all, submit_accept}
use iuring.IoUring.Submission.{submit, get_sqe, prepare, prepare_as}
use iuring.IoUring.Poll.{call_callback_and_free_work_item_id}
use iuring.IoUring.Reach.{empty-IsTyped}
use iuring.IoUring.Accepting.{with_peer}
use iuring.IoUring.Serving.{begins, GoesOn, request_served}
use iuring.Tests.Rings.{Kernel, lib, memory, client, start, after, item, socket}

-- A kernel that writes 28 bytes of an address.
abbrev peers : Liburing Kernel
peers = record lib { accepted_address = λ k len bytes. (replicate 28 1, 28) }

abbrev listen : Request
listen = Request.accept (record socket { kind = SocketKind.server_stream_socket }) 5

abbrev listening : IoUring Kernel
listening = after start (perform little peers memory start listen)

abbrev listen_item : WorkItem
listen_item = item (find listening.pool 0)

abbrev connection : Cqe
connection = record { user_data = 0; res = pos 9; flags = 0 }

abbrev peer_item : WorkItem
peer_item = with_peer little peers memory client listening listen_item

abbrev came_from : IpAddress
came_from = after unset (of_storage little peer_item.buffer_for_uring peer_item.accept_sock_len)

abbrev welcome : Call
welcome = accepted 5 (record { new_fd = 9; address = came_from })

abbrev welcomed : IoUring Kernel
welcomed = record listening { calls = welcome ∷ listening.calls }

listen_ready :
    (perform little peers memory start listen ≡ done listening)
    × (find start.pool 0 ≡ none)
    × (find listening.pool 0 ≡ some listen_item)
    × (of_storage little peer_item.buffer_for_uring peer_item.accept_sock_len ≡ done came_from)
unfolding perform internal_alloc_work_item make submit get_sqe prepare prepare_as submit_accept
    alloc_accept_work_item item_submit_accept put find of_storage
listen_ready = (refl, refl, refl, refl)

nothing_asked :
    perform_all little peers memory welcomed (client (welcome ∷ listening.calls)).requests
    ≡ done welcomed
unfolding perform_all
nothing_asked = refl

request_served_example :
    (s' : IoUring Kernel) × (call_callback_and_free_work_item_id little peers memory client
        listening connection
      ≡ done s')
    × (s'.calls ≡ welcome ∷ listening.calls)
    × ((o : Option WorkItem) × GoesOn little peers memory client listen
          (client (welcome ∷ listening.calls)).action
          o
        × ((j : ℕ) → find s'.pool j ≡ update (find welcomed.pool) 0 o j))
request_served_example =
    request_served little peers memory client start listening listening welcomed listen 0
      listen_item listen_item connection 9 welcome welcomed.ring empty-IsTyped listen_ready.0
      listen_ready.1 listen_ready.2 begins listen_ready.2 refl refl
      (came_from, listen_ready.3, refl) nothing_asked refl
