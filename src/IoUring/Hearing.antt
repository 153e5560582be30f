-- ===== src/IoUring/Hearing.antt =====
-- src/IOUring.cpp: the completions of receives that got a message.
use iuring.Prelude.{
  ℕ, ◌≡◌, refl, ap, ◌∷◌, arith, some, none, Option, not, ◌&&◌, ltb, if◌then◌else◌, inl, inr,
  Option-cases, Bool-cases,
}
use iuring.Outcome.{done, aborted, undefined, Outcome-cases}
use iuring.Endian.{Endian}
use iuring.Socket.{is_stream}
use iuring.IpAddress.{unset}
use iuring.IpAddress.Layout.{sizeof_sockaddr_storage}
use iuring.Completion.{Client, received, ReceivedMessage}
use iuring.Completion.Int.{pos, magnitude}
use iuring.WorkItem.{WorkItem, Memory, recv_callback}
use iuring.WorkPool.{WorkPool}
use iuring.Liburing.{Liburing, Cqe, RecvmsgOut, buffer_index, has_buffer}
use iuring.IoUring.State.{IoUring}
use iuring.IoUring.Buffers.{recycle_buffer, get_buffer}
use iuring.IoUring.Requests.{perform_all}
use iuring.IoUring.Handlers.{
  invoke, deliver, call_recv_callback, call_recv_handler_stream, call_recv_handler_datagram,
  is_truncated, source_address,
}

-- A datagram that is whole and whose sender's name fits.
abbrev pub datagram_of : Endian → Cqe → Option RecvmsgOut → Option ReceivedMessage
datagram_of e c none = none
datagram_of e c (some o) =
    if has_buffer c && not (ltb sizeof_sockaddr_storage o.namelen) && not (is_truncated o)
    then elim (source_address e o) [
      | done source ↦ some (record { payload = o.payload; source_address = source })
      | aborted ↦ none
      | undefined ↦ none
    ]
    else none

module _ {K : Type 0} (e : Endian) (lib : Liburing K) (memory : WorkPool → Memory)
    (client : Client) where
  -- The message of a completion with n bytes, in the buffer that it names.
  abbrev pub message_of : IoUring K → WorkItem → Cqe → ℕ → Option ReceivedMessage
  message_of s w c n =
      let buffer = get_buffer s (buffer_index c) in
      if is_stream w.socket
      then some (record { payload = lib.read_memory s.ring buffer n; source_address = unset })
      else datagram_of e c (lib.recvmsg_validate s.ring buffer n w.msg)

  datagram_delivered :
      (s : IoUring K) (w : WorkItem) (c : Cqe) (n : ℕ) (m : ReceivedMessage)
      → c.res ≡ pos n
      → datagram_of e c (lib.recvmsg_validate s.ring (get_buffer s (buffer_index c)) n w.msg)
        ≡ some m
      → call_recv_handler_datagram e lib memory client s (get_buffer s (buffer_index c)) w c
        ≡ deliver e lib memory client s w m
  unfolding call_recv_handler_datagram
  datagram_delivered s w c n m good heard =
      elim (Option-cases (lib.recvmsg_validate s.ring (get_buffer s (buffer_index c)) n w.msg)) [
        | inl missing ↦ absurd (ground arith)
        | inr (o, valid) ↦ elim (Bool-cases (has_buffer c)) [
          | inr bare ↦ absurd (ground arith)
          | inl full ↦ elim (Bool-cases (ltb sizeof_sockaddr_storage o.namelen)) [
            | inl long ↦ absurd (ground arith)
            | inr short ↦ elim (Bool-cases (is_truncated o)) [
              | inl cut ↦ absurd (ground arith)
              | inr whole ↦ elim (Outcome-cases (source_address e o)) [
                | inl (a, source) ↦
                    let is : record { payload = o.payload; source_address = a } ≡ m =
                      ground arith in
                    rw (call_recv_handler_datagram, full, good, valid, short, whole, source)
                      (ap (deliver e lib memory client s w) is)
                | inr fails ↦ absurd (ground arith)
              ]
            ]
          ]
        ]
      ]

  pub recv_delivered :
      (s s1 : IoUring K) (w : WorkItem) (c : Cqe) (cb n : ℕ) (m : ReceivedMessage)
      → w.callback ≡ recv_callback cb
      → c.res ≡ pos n
      → message_of s w c n ≡ some m
      → let call = received cb m in
        perform_all e lib memory
            (record s { calls = call ∷ s.calls })
            (client (call ∷ s.calls)).requests
          ≡ done s1
        → call_recv_callback e lib memory client s w c
          ≡ done ((client (call ∷ s.calls)).action, recycle_buffer lib s1 (buffer_index c))
  unfolding call_recv_callback call_recv_handler_stream deliver invoke
  recv_delivered s s1 w c cb n m own good heard h = elim (Bool-cases (is_stream w.socket)) [
    | inl stream ↦
        let is : record {
          payload = lib.read_memory s.ring (get_buffer s (buffer_index c)) (magnitude c.res);
          source_address = unset;
        }
            ≡ m =
          rw good (ground arith) in
        rw (call_recv_callback, good, stream, own, is, h) refl
    | inr packet ↦
        let run = datagram_delivered s w c n m good (rw packet at heard) in
        rw (call_recv_callback, good, packet, run, own, h) refl
  ]
