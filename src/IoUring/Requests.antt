-- ===== src/IoUring/Requests.antt =====
-- src/IOUring.cpp: the requests of the interface, and `SocketImpl::send` of src/SocketImpl.cpp,
-- which a client and its handlers make.
use iuring.Prelude.{ℕ, List, [], ◌∷◌, codes}
use iuring.Outcome.{Outcome, done, ◌>>=◌, ◌>>◌, assert}
use iuring.Endian.{Endian}
use iuring.SendPacket.{append}
use iuring.Socket.{Socket, is_server}
use iuring.IpAddress.{IpAddress}
use iuring.Completion.{Request, DatagramSendParameters}
use iuring.WorkItem.{WorkItem, Memory, get_send_packet, submit_stream_data, submit_packet}
use iuring.WorkPool.{
  WorkPool, alloc_send_work_item, alloc_recv_work_item, alloc_accept_work_item,
  alloc_connect_work_item, alloc_close_work_item, put,
}
use iuring.Liburing.{Liburing}
use iuring.IoUring.State.{IoUring}
use iuring.IoUring.Submission.{submit}

-- `memory` is what the memory of the next new work item holds.
module _ {K : Type 0} (e : Endian) (lib : Liburing K) (memory : WorkPool → Memory) where
  abbrev with_item : IoUring K → WorkItem × WorkPool × K → IoUring K
  with_item s (w, p, k) = record s { pool = p; ring = k }

  unfoldable pub submit_accept : IoUring K → Socket → ℕ → Outcome (IoUring K)
  submit_accept s socket handler = do
    assert (is_server socket.kind)
    assert s.initialized
    r ←
        alloc_accept_work_item (submit e lib) (memory s.pool) s.pool s.ring socket handler
          (codes "accept-job")
    done (with_item s r)

  unfoldable pub submit_connect : IoUring K → Socket → IpAddress → ℕ → Outcome (IoUring K)
  submit_connect s socket target handler = do
    assert s.initialized
    r ←
        alloc_connect_work_item (submit e lib) e (memory s.pool) s.pool s.ring target socket handler
          (codes "connect-job")
    done (with_item s r)

  unfoldable pub submit_recv : IoUring K → Socket → ℕ → Outcome (IoUring K)
  submit_recv s socket handler = do
    assert s.initialized
    r ←
        alloc_recv_work_item (submit e lib) (memory s.pool) s.pool s.ring socket handler
          (codes "read-from-socket")
    done (with_item s r)

  unfoldable pub submit_close : IoUring K → Socket → ℕ → Outcome (IoUring K)
  submit_close s socket handler = do
    assert s.initialized
    r ←
        alloc_close_work_item (submit e lib) (memory s.pool) s.pool s.ring socket handler
          (codes "close-of-socket")
    done (with_item s r)

  unfoldable pub ackuire_send_workitem : IoUring K → Socket → Outcome (WorkItem × IoUring K)
  ackuire_send_workitem s socket = do
    assert s.initialized
    let (w, p) = alloc_send_work_item (memory s.pool) s.pool socket (codes "write-from-socket")
    done (w, record s { pool = p })

  -- `SocketImpl::send`. The item is the one in the pool, so its changes are stored there.
  unfoldable pub send : IoUring K → Socket → List ℕ → ℕ → Outcome (IoUring K)
  send s socket msg cb = do
    (w, s1) ← ackuire_send_workitem s socket
    w1 ← get_send_packet w (λ p. append p msg)
    (w2, k) ← submit_stream_data (submit e lib) w1 cb s1.ring
    done (record s1 { pool = put s1.pool w2; ring = k })

  -- The steps for a datagram: acquire an item, append to its packet, `submit_packet`.
  unfoldable pub send_datagram :
      IoUring K → Socket → List ℕ → DatagramSendParameters → ℕ → Outcome (IoUring K)
  send_datagram s socket msg params cb = do
    (w, s1) ← ackuire_send_workitem s socket
    w1 ← get_send_packet w (λ p. append p msg)
    (w2, k) ← submit_packet (submit e lib) w1 params cb s1.ring
    done (record s1 { pool = put s1.pool w2; ring = k })

  unfoldable pub perform : IoUring K → Request → Outcome (IoUring K)
  perform s (Request.connect socket target cb) = submit_connect s socket target cb
  perform s (Request.accept socket cb) = submit_accept s socket cb
  perform s (Request.recv socket cb) = submit_recv s socket cb
  perform s (Request.close socket cb) = submit_close s socket cb
  perform s (Request.send socket msg cb) = send s socket msg cb
  perform s (Request.send_datagram socket msg params cb) = send_datagram s socket msg params cb

  unfoldable pub perform_all : IoUring K → List Request → Outcome (IoUring K)
  perform_all s [] = done s
  perform_all s (r ∷ rs) = perform s r >>= λ s'. perform_all s' rs
