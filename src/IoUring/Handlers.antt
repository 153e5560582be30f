-- ===== src/IoUring/Handlers.antt =====
-- src/IOUring.cpp: the `call_..._callback` functions, which hand a completion to the handler of its
-- work item, with those of src/WorkItem.hpp that they use.
use iuring.Prelude.{ℕ, ◌/◌, ◌%◌, Bool, true, false, none, some, List, ◌∷◌, ◌==◌, ltb, if◌then◌else◌}
use iuring.Outcome.{Outcome, done, aborted, ◌>>=◌, ◌>>◌, assert}
use iuring.Endian.{Endian}
use iuring.SendPacket.{reset}
use iuring.Socket.{is_stream}
use iuring.IpAddress.{IpAddress, unset, of_sockaddr_in, of_sockaddr_in6, of_storage}
use iuring.IpAddress.Layout.{
  load16, load_sockaddr_in, load_sockaddr_in6, af_inet, af_inet6, sizeof_sockaddr_in,
  sizeof_sockaddr_in6, sizeof_sockaddr_storage,
}
use iuring.Completion.{
  Client, Call, connected, accepted, received, sent, closed, ReceivePostAction, re_submit,
  ReceivedMessage,
}
use iuring.Completion.Int.{is_negative, is_errno, magnitude}
use iuring.WorkItem.{
  WorkItem, Memory, Callback, connect_callback, accept_callback, recv_callback, send_callback,
  close_callback,
}
use iuring.WorkPool.{WorkPool, put}
use iuring.Liburing.{Liburing, Cqe, has_buffer, buffer_index, RecvmsgOut}
use iuring.IoUring.State.{IoUring}
use iuring.IoUring.Buffers.{get_buffer, recycle_buffer}
use iuring.IoUring.Requests.{perform_all}

-- `std::get` of the one alternative, after the assertion that it is held. Calling the empty
-- function of a new item throws, which nothing catches.
abbrev pub send_handler : Callback → Outcome ℕ
send_handler (send_callback h) = done h
send_handler _ = aborted

abbrev pub close_handler : Callback → Outcome ℕ
close_handler (close_callback h) = done h
close_handler _ = aborted

abbrev pub recv_handler : Callback → Outcome ℕ
recv_handler (recv_callback h) = done h
recv_handler _ = aborted

abbrev pub accept_handler : Callback → Outcome ℕ
accept_handler (accept_callback h) = done h
accept_handler _ = aborted

abbrev pub connect_handler : Callback → Outcome ℕ
connect_handler (connect_callback h) = done h
connect_handler _ = aborted

-- EFAULT, EINVAL, ENOBUFS, and EAI_INTR of <netdb.h>, which is -104.
abbrev pub eai_intr : ℕ
eai_intr = 104

abbrev pub enobufs : ℕ
enobufs = 105

-- MSG_TRUNC among the flags of a received message.
abbrev pub is_truncated : RecvmsgOut → Bool
is_truncated o = o.flags / 32 % 2 == 1

-- The address in the buffer that the connect request was made from.
unfoldable pub connect_address : Endian → List ℕ → IpAddress
connect_address e buffer =
    if load16 e buffer 0 == af_inet
    then of_sockaddr_in (load_sockaddr_in e buffer)
    else (if load16 e buffer 0 == af_inet6
        then of_sockaddr_in6 (load_sockaddr_in6 e buffer)
        else unset)

-- The `switch` on the length of the sender's name.
unfoldable pub source_address : Endian → RecvmsgOut → Outcome IpAddress
source_address e o =
    if o.namelen == 0
    then done (of_sockaddr_in (load_sockaddr_in e o.name))
    else (if o.namelen == sizeof_sockaddr_in
        then done (of_sockaddr_in (load_sockaddr_in e o.name))
        else (if o.namelen == sizeof_sockaddr_in6
            then done (of_sockaddr_in6 (load_sockaddr_in6 e o.name))
            else aborted))

module _ {K : Type 0} (e : Endian) (lib : Liburing K) (memory : WorkPool → Memory)
    (client : Client) where
  -- A handler runs: the call is recorded, and the client's requests are made in order.
  unfoldable pub invoke : IoUring K → Call → Outcome (ReceivePostAction × IoUring K)
  invoke s c = do
    let reaction = client (c ∷ s.calls)
    s' ← perform_all e lib memory (record s { calls = c ∷ s.calls }) reaction.requests
    done (reaction.action, s')

  -- `WorkItem::call_send_callback` clears the packet afterwards.
  unfoldable pub call_send_callback : IoUring K → WorkItem → Cqe → Outcome (IoUring K)
  call_send_callback s w c = elim (is_negative c.res) [
    | true ↦ done s
    | false ↦ do
      h ← send_handler w.callback
      (_, s') ← invoke s (sent h c.res)
      done (record s' { pool = put s'.pool (record w { send_packet = reset w.send_packet }) })
  ]

  unfoldable pub call_close_callback : IoUring K → WorkItem → Cqe → Outcome (IoUring K)
  call_close_callback s w c = do
    h ← close_handler w.callback
    (_, s') ← invoke s (closed h c.res)
    done s'

  unfoldable pub call_connect_callback : IoUring K → WorkItem → Cqe → Outcome (IoUring K)
  call_connect_callback s w c = elim (is_negative c.res) [
    | true ↦ done s
    | false ↦ do
      let addr = connect_address e w.buffer_for_uring
      h ← connect_handler w.callback
      (_, s') ← invoke s (connected h (record { status = magnitude c.res; address = addr }))
      done s'
  ]

  unfoldable pub call_accept_callback : IoUring K → WorkItem → Cqe → Outcome (IoUring K)
  call_accept_callback s w c = elim (is_negative c.res) [
    | true ↦ done s
    | false ↦ do
      addr ← of_storage e w.buffer_for_uring w.accept_sock_len
      h ← accept_handler w.callback
      (_, s') ← invoke s (accepted h (record { new_fd = magnitude c.res; address = addr }))
      done s'
  ]

  -- `WorkItem::call_recv_callback`.
  unfoldable pub deliver :
      IoUring K → WorkItem → ReceivedMessage → Outcome (ReceivePostAction × IoUring K)
  deliver s w m = do h ← recv_handler w.callback; invoke s (received h m)

  unfoldable pub call_recv_handler_stream :
      IoUring K → ℕ → WorkItem → Cqe → Outcome (ReceivePostAction × IoUring K)
  call_recv_handler_stream s buffer w c =
      deliver s w (record {
        payload = lib.read_memory s.ring buffer (magnitude c.res);
        source_address = unset;
      })

  unfoldable pub call_recv_handler_datagram :
      IoUring K → ℕ → WorkItem → Cqe → Outcome (ReceivePostAction × IoUring K)
  call_recv_handler_datagram s buffer w c = do
    assert (has_buffer c)
    elim (lib.recvmsg_validate s.ring buffer (magnitude c.res) w.msg) [
      | none ↦ done (re_submit, s)
      | some o ↦
          if ltb sizeof_sockaddr_storage o.namelen
          then done (re_submit, s)
          else (if is_truncated o
              then done (re_submit, s)
              else (source_address e o >>= λ source.
                  deliver s w (record { payload = o.payload; source_address = source })))
    ]

  -- A result below 0 aborts, but for EAI_INTR.
  unfoldable pub call_recv_callback :
      IoUring K → WorkItem → Cqe → Outcome (ReceivePostAction × IoUring K)
  call_recv_callback s w c = elim (is_negative c.res) [
    | true ↦ if is_errno c.res eai_intr then done (re_submit, s) else aborted
    | false ↦ do
      let idx = buffer_index c
      let buffer = get_buffer s idx
      (action, s') ← (elim (is_stream w.socket) [
        | true ↦ call_recv_handler_stream s buffer w c
        | false ↦ call_recv_handler_datagram s buffer w c
      ])
      done (action, recycle_buffer lib s' idx)
  ]
