-- ===== src/IoUring/Granting.antt =====
-- src/IOUring.cpp: which requests succeed.
use iuring.Outcome.{Outcome, done, ◌>>=◌}
use iuring.Prelude.{
  ℕ, ◌≡◌, ◌<◌, refl, true, false, arith, some, length, Bool-cases, inl, List, inr, lt→ltb,
  length-write, replicate, codes, ap, Option-cases, ◌∙◌, write, length-replicate, ◌+◌, ◌≤◌,
}
use iuring.IoUring.State.{IoUring}
use iuring.Completion.{Request}
use iuring.WorkItem.{
  submit_connect as item_submit_connect, submit_recv as item_submit_recv,
  submit_accept as item_submit_accept, submit_close as item_submit_close, make, Memory, WorkItem,
  WorkType, get_send_packet, submit_stream_data, submit_packet, send_callback,
}
use iuring.Socket.{Socket, is_stream, is_server}
use iuring.IoUring.Requests.{
  send, send_datagram, submit_connect, submit_recv, submit_accept, submit_close, perform,
  ackuire_send_workitem,
}
use iuring.IoUring.Submission.{submit, get_sqe, prepare, prepare_as, init_send_msg}
use iuring.IpAddress.{valid, size_sockaddr, data_sockaddr, IpAddress, on_family}
use iuring.IpAddress.Layout.{SockaddrIn, SockaddrIn6}
use iuring.Endian.{Endian}
use iuring.Liburing.{Liburing}
use iuring.SendPacket.{capacity, append, reset, SendPacket}
use iuring.NetworkProtocols.{ttl_value, ttl_value-pos, ttl_value-lt}
use iuring.WorkPool.{
  WorkPool, alloc_connect_work_item, alloc_accept_work_item, alloc_recv_work_item,
  alloc_close_work_item, internal_alloc_work_item, alloc_send_work_item,
}
use iuring.IoUring.Invariant.{alloc_made}
use iuring.SendPacket.Contents.{append_fits}

-- What a request has to be: an accept on a server's socket, a connect to an IPv4 address, a send on
-- a stream socket and a datagram on another, whose text fits and whose target is set.
abbrev pub IsGrantable : Request → Type 0
IsGrantable (Request.connect s target cb) = (v : SockaddrIn) × (target.in4 ≡ some v)
IsGrantable (Request.accept s cb) = is_server s.kind ≡ true
IsGrantable (Request.recv s cb) = Unit {0}
IsGrantable (Request.close s cb) = Unit {0}
IsGrantable (Request.send s msg cb) = (is_stream s ≡ true) × (length msg < capacity)
IsGrantable (Request.send_datagram s msg params cb) =
    (is_stream s ≡ false) × (length msg < capacity) × (valid params.destination_address ≡ true)

abbrev pub IsDone : {A : Type 0} → Outcome A → Type 0
IsDone {A} o = (a : A) × (o ≡ done a)

IsDone-bind :
    {A B : Type 0} (m : Outcome A) (f : A → Outcome B)
    → IsDone m
    → ((a : A) → IsDone (f a))
    → IsDone (m >>= f)
IsDone-bind m f (a, e) rest = rw e (rest a)

append_grants :
    (p : SendPacket) (msg : List ℕ)
    → p.size ≡ 0
    → length p.buf ≡ capacity
    → length msg < capacity
    → IsDone (append (reset p) msg)
unfolding reset
append_grants p msg none_yet full fits =
    let cleared = length-replicate {A = ℕ} p.size 0 in
    let room : 0 + length (replicate {A = ℕ} p.size 0) ≤ length p.buf = omega (arith, cleared) in
    let kept : length (write p.buf 0 (replicate p.size 0)) ≡ length p.buf =
      length-write _ _ _ room in
    (_, append_fits _ msg (omega (arith, kept)))

pub recv_grants : (e : Endian) (w : WorkItem) → IsDone (prepare_as e WorkType.recv w)
unfolding prepare_as
recv_grants e w = elim (Bool-cases (is_stream w.socket)) [
  | inl stream ↦ rw (prepare_as, stream) (_, refl)
  | inr packet ↦ rw (prepare_as, packet) (_, refl)
]

stream_grants :
    (e : Endian) (w : WorkItem)
    → is_stream w.socket ≡ true
    → IsDone (prepare_as e WorkType.send_stream_data w)
unfolding prepare_as
stream_grants e w stream = rw (prepare_as, stream) (_, refl)

family_grants :
    {A : Type 0} (a : IpAddress) (f : SockaddrIn → Outcome A) (g : SockaddrIn6 → Outcome A)
    → valid a ≡ true
    → ((v : SockaddrIn) → IsDone (f v))
    → ((v : SockaddrIn6) → IsDone (g v))
    → IsDone (on_family a f g)
unfolding valid
family_grants a f g set four six = elim (Option-cases a.in4) [
  | inr (v, n) ↦ rw n (four v)
  | inl n4 ↦ elim (Option-cases a.in6) [
    | inr (v, n) ↦ rw (n4, n) (six v)
    | inl n6 ↦ absurd (ground arith)
  ]
]

datagram_grants :
    (e : Endian) (w : WorkItem)
    → is_stream w.socket ≡ false
    → valid w.params.destination_address ≡ true
    → IsDone (prepare_as e WorkType.send_workpacket w)
unfolding prepare_as init_send_msg
datagram_grants e w packet set =
    rw
      (
        packet,
        lt→ltb 0 (ttl_value w.params.ttl) (ttl_value-pos w.params.ttl),
        lt→ltb (ttl_value w.params.ttl) 256 (ttl_value-lt w.params.ttl),
      )
      (IsDone-bind _ _
        (IsDone-bind _ _
          (family_grants w.params.destination_address _ _ set (λ v. (_, refl)) (λ v. (_, refl)))
          (λ r. (_, refl)))
        (λ r. (_, refl)))

module _ {K : Type 0} (e : Endian) (lib : Liburing K) (memory : WorkPool → Memory) where
  submit_grants :
      (w : WorkItem) (k k' : K)
      → lib.get_sqe k ≡ some k'
      → IsDone (prepare_as e w.work_type w)
      → IsDone (submit e lib w k)
  unfolding submit get_sqe prepare
  submit_grants w k k' room (r, ok) = rw (submit, get_sqe, prepare, room, ok) (_, refl)

  abbrev new : IoUring K → Socket → WorkItem
  new s socket =
      (internal_alloc_work_item (memory s.pool) s.pool socket (codes "write-from-socket")).0

  new_item :
      (s : IoUring K) (socket : Socket)
      → ((new s socket).socket ≡ socket)
        × ((new s socket).send_packet.size ≡ 0)
        × (length (new s socket).send_packet.buf ≡ length (memory s.pool).packet_bytes)
  new_item s socket =
      let made = alloc_made (memory s.pool) s.pool socket (codes "write-from-socket") in
      (
        ap (λ (w : WorkItem). w.socket) made ∙ unfold make in refl,
        ap (λ (w : WorkItem). w.send_packet.size) made ∙ unfold make in refl,
        ap (λ (w : WorkItem). length w.send_packet.buf) made ∙ unfold make in refl,
      )

  -- On an initialised ring with room in its queue, where the packet of a new item has its length,
  -- every request that is grantable succeeds.
  pub perform-granted :
      (s : IoUring K) (k : K) (r : Request)
      → s.initialized ≡ true
      → lib.get_sqe s.ring ≡ some k
      → length (memory s.pool).packet_bytes ≡ capacity
      → IsGrantable r
      → (s' : IoUring K) × (perform e lib memory s r ≡ done s')
  unfolding perform submit_connect submit_accept submit_recv submit_close alloc_connect_work_item
      alloc_accept_work_item alloc_recv_work_item alloc_close_work_item item_submit_connect
      item_submit_accept item_submit_recv item_submit_close prepare_as size_sockaddr data_sockaddr
      send send_datagram ackuire_send_workitem alloc_send_work_item get_send_packet
      submit_stream_data submit_packet
  perform-granted s k (Request.connect socket target cb) i room full (v, four) =
      rw (i, four)
        (IsDone-bind _ _ (IsDone-bind _ _ (submit_grants _ _ k room (_, refl)) (λ r. (_, refl)))
          (λ r. (_, refl)))
  perform-granted s k (Request.accept socket cb) i room full server =
      rw (i, server)
        (IsDone-bind _ _ (IsDone-bind _ _ (submit_grants _ _ k room (_, refl)) (λ r. (_, refl)))
          (λ r. (_, refl)))
  perform-granted s k (Request.recv socket cb) i room full g = rw i (
      IsDone-bind _ _
        (IsDone-bind _ _ (submit_grants _ _ k room (recv_grants e _)) (λ r. (_, refl)))
        (λ r. (_, refl)))
  perform-granted s k (Request.close socket cb) i room full g = rw i (
      IsDone-bind _ _ (IsDone-bind _ _ (submit_grants _ _ k room (_, refl)) (λ r. (_, refl)))
        (λ r. (_, refl)))
  perform-granted s k (Request.send socket msg cb) i room full (stream, fits) =
      let (made, empty_packet, same) = new_item s socket in
      let (q, ok) = append_grants (new s socket).send_packet msg empty_packet (same ∙ full) fits in
      rw (i, ok)
        (IsDone-bind _ _ (submit_grants _ _ k room (stream_grants e _ (ap is_stream made ∙ stream)))
          (λ r. (_, refl)))
  perform-granted s k (Request.send_datagram socket msg params cb) i room full (packet, fits, set) =
      let (made, empty_packet, same) = new_item s socket in
      let (q, ok) = append_grants (new s socket).send_packet msg empty_packet (same ∙ full) fits in
      let w : WorkItem = record (new s socket) {
        send_packet = q;
        params = params;
        callback = send_callback cb;
        work_type = WorkType.send_workpacket;
      } in
      rw (i, ok)
        (IsDone-bind _ _
          (submit_grants w _ k room (datagram_grants e w (ap is_stream made ∙ packet) set))
          (λ r. (_, refl)))
