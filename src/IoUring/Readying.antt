-- ===== src/IoUring/Readying.antt =====
-- src/IOUring.cpp: each request, up to the submission of its item.
use iuring.Prelude.{ℕ, ◌≡◌, refl, ◌∙◌, List, arith, codes, inl, write, inr, ap, sym}
use iuring.Outcome.{done}
use iuring.IpAddress.{IpAddress}
use iuring.SendPacket.{append, reset}
use iuring.Endian.{Endian}
use iuring.Socket.{Socket}
use iuring.Completion.{Request, DatagramSendParameters}
use iuring.WorkItem.{
  submit_recv as item_submit_recv, submit_accept as item_submit_accept,
  submit_connect as item_submit_connect, submit_close as item_submit_close, submit_stream_data,
  submit_packet, WorkType, Memory, connect_callback, accept_callback, recv_callback, send_callback,
  close_callback, get_send_packet,
}
use iuring.WorkPool.{
  WorkPool, internal_alloc_work_item, alloc_recv_work_item, alloc_close_work_item,
  alloc_connect_work_item, alloc_accept_work_item, alloc_send_work_item,
}
use iuring.Liburing.{Liburing}
use iuring.IoUring.State.{IoUring}
use iuring.IoUring.Requests.{
  submit_accept, submit_connect, submit_recv, submit_close, send, send_datagram, perform,
  ackuire_send_workitem,
}
use iuring.IoUring.Submitting.{sockaddr_cases, packet_cases}
use iuring.IoUring.Readied.{Readies, readied, new_packet, new_buffer}

module _ {K : Type 0} (e : Endian) (lib : Liburing K) (memory : WorkPool → Memory) where
  recv-Readies :
      (s s' : IoUring K) (socket : Socket) (cb : ℕ)
      → submit_recv e lib memory s socket cb ≡ done s'
      → Readies e lib memory (Request.recv socket cb) s s'
  unfolding submit_recv alloc_recv_work_item item_submit_recv
  recv-Readies s s' socket cb h = (
    (codes "read-from-socket"),
    (record (internal_alloc_work_item (memory s.pool) s.pool socket (codes "read-from-socket")).0 {
      callback = recv_callback cb;
      work_type = WorkType.recv;
    }),
    readied e lib memory s (Request.recv socket cb) (codes "read-from-socket") _ refl refl refl refl
        refl refl tt,
    ground arith,
  )

  accept-Readies :
      (s s' : IoUring K) (socket : Socket) (cb : ℕ)
      → submit_accept e lib memory s socket cb ≡ done s'
      → Readies e lib memory (Request.accept socket cb) s s'
  unfolding submit_accept alloc_accept_work_item item_submit_accept
  accept-Readies s s' socket cb h = (
    (codes "accept-job"),
    (record (internal_alloc_work_item (memory s.pool) s.pool socket (codes "accept-job")).0 {
      callback = accept_callback cb;
      work_type = WorkType.accept;
    }),
    readied e lib memory s (Request.accept socket cb) (codes "accept-job") _ refl refl refl refl
        refl refl tt,
    ground arith,
  )

  close-Readies :
      (s s' : IoUring K) (socket : Socket) (cb : ℕ)
      → submit_close e lib memory s socket cb ≡ done s'
      → Readies e lib memory (Request.close socket cb) s s'
  unfolding submit_close alloc_close_work_item item_submit_close
  close-Readies s s' socket cb h = (
    (codes "close-of-socket"),
    (record (internal_alloc_work_item (memory s.pool) s.pool socket (codes "close-of-socket")).0 {
      callback = close_callback cb;
      work_type = WorkType.close;
    }),
    readied e lib memory s (Request.close socket cb) (codes "close-of-socket") _ refl refl refl refl
        refl refl tt,
    ground arith,
  )

  connect-Readies :
      (s s' : IoUring K) (socket : Socket) (target : IpAddress) (cb : ℕ)
      → submit_connect e lib memory s socket target cb ≡ done s'
      → Readies e lib memory (Request.connect socket target cb) s s'
  unfolding submit_connect alloc_connect_work_item item_submit_connect
  connect-Readies s s' socket target cb h = elim (sockaddr_cases e target) [
    | inl (len, bytes, a, b) ↦ (
      (codes "connect-job"),
      (record (internal_alloc_work_item (memory s.pool) s.pool socket (codes "connect-job")).0 {
        connect_sock_len = len;
        buffer_for_uring =
            write
              (internal_alloc_work_item (memory s.pool) s.pool socket
                (codes "connect-job")).0.buffer_for_uring
              0 bytes;
        callback = connect_callback cb;
        work_type = WorkType.connect;
      }),
      readied e lib memory s (Request.connect socket target cb) (codes "connect-job") _ refl refl
          refl refl refl refl
          (
            bytes,
            a,
            b,
            ap (λ x. write x 0 bytes) (new_buffer e lib memory s socket (codes "connect-job")),
          ),
      ground arith,
    )
    | inr a ↦ absurd (ground arith)
  ]

  send-Readies :
      (s s' : IoUring K) (socket : Socket) (msg : List ℕ) (cb : ℕ)
      → send e lib memory s socket msg cb ≡ done s'
      → Readies e lib memory (Request.send socket msg cb) s s'
  unfolding send ackuire_send_workitem alloc_send_work_item get_send_packet submit_stream_data
  send-Readies s s' socket msg cb h =
      let w =
        (internal_alloc_work_item (memory s.pool) s.pool socket (codes "write-from-socket")).0 in
      elim (packet_cases (append (reset w.send_packet) msg)) [
        | inl (p, a) ↦ (
          (codes "write-from-socket"),
          (record w {
            send_packet = p;
            callback = send_callback cb;
            work_type = WorkType.send_stream_data;
          }),
          readied e lib memory s (Request.send socket msg cb) (codes "write-from-socket") _ refl
              refl refl refl refl refl
              (ap (λ x. append (reset x) msg)
                  (sym (new_packet e lib memory s socket (codes "write-from-socket")))
                ∙ a),
          ground arith,
        )
        | inr n ↦ absurd (ground arith)
      ]

  send_datagram-Readies :
      (s s' : IoUring K) (socket : Socket) (msg : List ℕ) (params : DatagramSendParameters) (cb : ℕ)
      → send_datagram e lib memory s socket msg params cb ≡ done s'
      → Readies e lib memory (Request.send_datagram socket msg params cb) s s'
  unfolding send_datagram ackuire_send_workitem alloc_send_work_item get_send_packet submit_packet
  send_datagram-Readies s s' socket msg params cb h =
      let w =
        (internal_alloc_work_item (memory s.pool) s.pool socket (codes "write-from-socket")).0 in
      elim (packet_cases (append (reset w.send_packet) msg)) [
        | inl (p, a) ↦ (
          (codes "write-from-socket"),
          (record w {
            send_packet = p;
            params = params;
            callback = send_callback cb;
            work_type = WorkType.send_workpacket;
          }),
          readied e lib memory s (Request.send_datagram socket msg params cb)
              (codes "write-from-socket") _ refl refl refl refl refl refl
              (
                (ap (λ x. append (reset x) msg)
                      (sym (new_packet e lib memory s socket (codes "write-from-socket")))
                    ∙ a),
                refl,
              ),
          ground arith,
        )
        | inr n ↦ absurd (ground arith)
      ]

  pub perform-Readies :
      (s s' : IoUring K) (r : Request)
      → perform e lib memory s r ≡ done s'
      → Readies e lib memory r s s'
  unfolding perform
  perform-Readies s s' (Request.connect socket target cb) h =
      connect-Readies s s' socket target cb h
  perform-Readies s s' (Request.accept socket cb) h = accept-Readies s s' socket cb h
  perform-Readies s s' (Request.recv socket cb) h = recv-Readies s s' socket cb h
  perform-Readies s s' (Request.close socket cb) h = close-Readies s s' socket cb h
  perform-Readies s s' (Request.send socket msg cb) h = send-Readies s s' socket msg cb h
  perform-Readies s s' (Request.send_datagram socket msg params cb) h =
      send_datagram-Readies s s' socket msg params cb h
