-- ===== src/Tests/Returns.antt =====
-- Examples of src/IOUring.cpp: a send, and the completions of a connect and of a receive.
use iuring.Prelude.{
  ℕ, ◌≡◌, refl, some, arith, codes, ◌∷◌, length-replicate, replicate, true, Option,
}
use iuring.Outcome.{done}
use iuring.Endian.{little}
use iuring.Completion.Int.{pos}
use iuring.WorkPool.Slots.{find}
use iuring.WorkPool.Refinement.{update}
use iuring.WorkItem.{
  make, submit_recv as item_submit_recv, WorkItem, Memory, WorkType, recv_callback,
}
use iuring.WorkPool.{put, alloc_recv_work_item, internal_alloc_work_item, WorkPool}
use iuring.IoUring.Requests.{submit_recv, perform, perform_all}
use iuring.IoUring.Submission.{submit, get_sqe, prepare, prepare_as}
use iuring.IoUring.State.{IoUring}
use iuring.Completion.{Request, Call, received, ReceivedMessage, keep_none}
use iuring.Tests.Rings.{socket, Kernel, lib, memory, client, start, after, item}
use iuring.IpAddress.{unset}
use iuring.IoUring.Poll.{call_callback_and_free_work_item_id}
use iuring.IoUring.Granting.{perform-granted}
use iuring.IoUring.Resubmitting.{receive_completes, Remains}
use iuring.IoUring.Hearing.{message_of}
use iuring.SendPacket.{capacity}
use iuring.Liburing.{Cqe}
use iuring.IoUring.Buffers.{recycle_buffer, get_buffer}
use iuring.IoUring.Invariant.{IsTyped}
use iuring.Socket.{is_stream}
use iuring.IoUring.Adding.{perform-Performed}
use iuring.IoUring.Reach.{empty-IsTyped}

abbrev cleared_memory : WorkPool → Memory
cleared_memory p = record (memory p) { packet_bytes = replicate capacity 0 }

abbrev send_hello : Request
send_hello = Request.send socket (codes "hello") 9

perform-granted_example :
    (s' : IoUring Kernel) × (perform little lib cleared_memory start send_hello ≡ done s')
perform-granted_example =
    perform-granted little lib cleared_memory start start.ring send_hello refl refl
      (length-replicate {A = ℕ} capacity 0) (refl, omega arith)

abbrev pub receive : Request
receive = Request.recv socket 8

abbrev pub receiving : IoUring Kernel
receiving = after start (perform little lib memory start receive)

abbrev pub receive_item : WorkItem
receive_item = item (find receiving.pool 0)

-- Five bytes in the buffer of number 2.
abbrev pub five_bytes : Cqe
five_bytes = record { user_data = 0; res = pos 5; flags = 131073 }

abbrev received_call : Call
received_call = received 8 (record {
  payload = lib.read_memory receiving.ring (get_buffer receiving 2) 5;
  source_address = unset;
})

abbrev heard : IoUring Kernel
heard = record receiving { calls = received_call ∷ receiving.calls }

receive_ready :
    (perform little lib memory start receive ≡ done receiving)
    × (find receiving.pool 0 ≡ some receive_item)
    × (receive_item.work_type ≡ WorkType.recv)
    × (is_stream receive_item.socket ≡ true)
    × (receive_item.callback ≡ recv_callback 8)
unfolding perform internal_alloc_work_item make submit get_sqe prepare prepare_as submit_recv
    alloc_recv_work_item item_submit_recv put find
receive_ready = (refl, refl, refl, refl, refl)

nothing_asked :
    perform_all little lib memory heard (client (received_call ∷ receiving.calls)).requests
    ≡ done heard
unfolding perform_all
nothing_asked = refl

pub receiving-IsTyped : IsTyped receiving.pool
receiving-IsTyped =
    (perform-Performed little lib memory start receiving receive receive_ready.0).adds.keeps
      empty-IsTyped

abbrev five_bytes_message : ReceivedMessage
five_bytes_message = record {
  payload = lib.read_memory receiving.ring (get_buffer receiving 2) 5;
  source_address = unset;
}

got_message :
    message_of little lib memory client receiving receive_item five_bytes 5
    ≡ some five_bytes_message
unfolding perform internal_alloc_work_item make submit get_sqe prepare prepare_as submit_recv
    alloc_recv_work_item item_submit_recv put find
got_message = refl

receive_completes_example :
    (s' : IoUring Kernel) × (call_callback_and_free_work_item_id little lib memory client receiving
        five_bytes
      ≡ done s')
    × (s'.calls ≡ received_call ∷ receiving.calls)
    × ((o : Option WorkItem) × Remains little lib memory client keep_none receive_item
          (recycle_buffer lib heard 2).ring
          o
          s'.ring
        × ((j : ℕ) → find s'.pool j ≡ update (find heard.pool) 0 o j))
receive_completes_example =
    receive_completes little lib memory client receiving heard receive_item five_bytes 8 5
      five_bytes_message (recycle_buffer lib heard 2).ring receiving-IsTyped receive_ready.1
      receive_ready.2 receive_ready.4 refl got_message nothing_asked refl
