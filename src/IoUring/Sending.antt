-- ===== src/IoUring/Sending.antt =====
-- src/IOUring.cpp: the submission entry that each request hands to the kernel.
use iuring.Prelude.{
  ℕ, ◌≡◌, refl, ap, ◌∙◌, Bool, true, false, none, some, List, ◌++◌, arith, length, inl, inr,
  Bool-cases, ◌+◌, if◌then◌else◌, take-append, drop, Option-cases, sym, subst, ◌*◌,
}
use iuring.Outcome.{done, >>=-eq-done, done-injective}
use iuring.Endian.{Endian}
use iuring.Socket.{is_stream}
use iuring.SendPacket.{append, reset, fresh as packet_in, SendPacket, to_string}
use iuring.IpAddress.{data_sockaddr, size_sockaddr}
use iuring.IpAddress.Layout.{
  SockaddrIn, bytes_of_sockaddr_in, sizeof_sockaddr_storage, bytes_of_sockaddr_in6,
}
use iuring.Completion.{Request, DatagramSendParameters}
use iuring.WorkItem.{WorkItem, WorkType, Memory, Msghdr, MsgName}
use iuring.WorkPool.{WorkPool}
use iuring.NetworkProtocols.{Dscp, dscp_value, ttl_value, dscp_value-lt}
use iuring.WorkPool.Slots.{find}
use iuring.Liburing.{Liburing, Sqe, Op}
use iuring.IoUring.State.{IoUring, buffer_size}
use iuring.IoUring.Submission.{
  submit, get_sqe, prepare, prepare_as, init_send_msg, control_of, tos_of, msg_trunc, cmsg_space,
  recv_msg,
}
use iuring.IoUring.Requests.{perform}
use iuring.IoUring.Entries.{prepare-SameItem}
use iuring.IoUring.Submitting.{type_of, submitted, socket_of, matches-type_of}
use iuring.IoUring.Invariant.{IsTyped}
use iuring.IoUring.Readied.{Readied}
use iuring.IoUring.Readying.{perform-Readies}

-- The message of a datagram: its target, its text, and its service class, in the six upper bits of
-- its byte, and lifetime.
abbrev pub message : List ℕ → ℕ → List ℕ → DatagramSendParameters → Msghdr
message name namelen msg params = record {
  msg_name = MsgName.socket_address name;
  msg_namelen = namelen;
  iov_base = some msg;
  iov_len = length msg;
  msg_control = control_of (dscp_value params.dscp * 4) (ttl_value params.ttl);
  msg_controllen = cmsg_space + cmsg_space;
  msg_flags = 0;
}

-- The operation that a request stands for.
abbrev pub Asks : Endian → Request → Op → Type 0
Asks e (Request.connect s target cb) op =
    (v : SockaddrIn) × (rest : List ℕ) × (target.in4 ≡ some v)
    × (op ≡ Op.connect s.fd (bytes_of_sockaddr_in e v ++ rest) 16)
Asks e (Request.accept s cb) op = op ≡ Op.accept s.fd 0
Asks e (Request.recv s cb) op =
    (msg : Msghdr) × (msg.msg_name ≡ MsgName.uring_buffer)
    × (msg.msg_namelen ≡ sizeof_sockaddr_storage)
    × (msg.iov_base ≡ none)
    × (op ≡ (
        if is_stream s
        then Op.recv s.fd buffer_size 0
        else Op.recvmsg_multishot s.fd msg msg_trunc))
Asks e (Request.close s cb) op = op ≡ Op.close s.fd
Asks e (Request.send s msg cb) op = op ≡ Op.send s.fd msg 0
Asks e (Request.send_datagram s msg params cb) op =
    (name : List ℕ) × (namelen : ℕ) × (data_sockaddr e params.destination_address ≡ done name)
    × (size_sockaddr params.destination_address ≡ done namelen)
    × (op ≡ Op.sendmsg s.fd (message name namelen msg params) 0)

abbrev pub is_recv : WorkType → Bool
is_recv WorkType.recv = true
is_recv _ = false

-- The packet that a send fills holds the text alone.
packet_text :
    (bytes msg : List ℕ) (q : SendPacket)
    → append (reset (packet_in bytes)) msg ≡ done q
    → (to_string q ≡ msg) × (q.size ≡ length msg)
unfolding append reset to_string
packet_text bytes msg q h = ground (arith, take-append msg (drop (length msg) bytes))

-- The service class does not overflow its byte.
tos_of_lem : (d : Dscp) → tos_of d ≡ dscp_value d * 4
unfolding tos_of
tos_of_lem d = omega (arith, dscp_value-lt d)

asked :
    (e : Endian) (m : Memory) (p : WorkPool) (descr : List ℕ) (r : Request) (w w' : WorkItem)
    (sqe : Sqe)
    → Readied e m p r descr w
    → prepare_as e (type_of r) w ≡ done (w', sqe)
    → Asks e r sqe.op
unfolding prepare_as init_send_msg data_sockaddr size_sockaddr
asked e m p descr (Request.connect s target cb) w w' sqe k h =
    let (bytes, sized, image, buffer) = k.carries in
    elim (Option-cases target.in4) [
      | inr (v, n) ↦
          let same : bytes_of_sockaddr_in e v ≡ bytes = ground arith in
          let op : sqe.op ≡ Op.connect w.socket.fd w.buffer_for_uring w.connect_sock_len =
            ground arith in
          let len : w.connect_sock_len ≡ 16 = ground arith in
          (v, drop (length bytes) m.old_buffer, n, op ∙ rw (k.new_socket, buffer, len, same) refl)
      | inl n4 ↦ elim (Option-cases target.in6) [
        | inr (v, n6) ↦ absurd (ground arith)
        | inl n6 ↦ absurd (ground arith)
      ]
    ]
asked e m p descr (Request.accept s cb) w w' sqe k h = ground (arith, k.new_socket, k.unlinked)
asked e m p descr (Request.recv s cb) w w' sqe k h = elim (Bool-cases (is_stream s)) [
  | inl stream ↦ (recv_msg w.msg, refl, refl, refl, ground (arith, k.new_socket))
  | inr packet ↦ (recv_msg w.msg, refl, refl, refl, ground (arith, k.new_socket))
]
asked e m p descr (Request.close s cb) w w' sqe k h = ground (arith, k.new_socket, k.unlinked)
asked e m p descr (Request.send s msg cb) w w' sqe k h =
    ground (arith, k.new_socket, k.unlinked, packet_text _ _ _ k.carries)
asked e m p descr (Request.send_datagram s msg params cb) w w' sqe k h =
    let (text, size) = packet_text m.packet_bytes msg w.send_packet k.carries.0 in
    elim (Option-cases params.destination_address.in4) [
      | inr (v, n) ↦ (
        bytes_of_sockaddr_in e v,
        16,
        ground arith,
        ground arith,
        ground (arith, k.new_socket, k.carries.1, tos_of_lem w.params.dscp, tos_of_lem params.dscp),
      )
      | inl n4 ↦ elim (Option-cases params.destination_address.in6) [
        | inr (v, n6) ↦ (
          bytes_of_sockaddr_in6 e v,
          28,
          ground arith,
          ground arith,
          ground
              (arith, k.new_socket, k.carries.1, tos_of_lem w.params.dscp, tos_of_lem params.dscp),
        )
        | inl n6 ↦ absurd (ground (arith, k.carries.1))
      ]
    ]

flags :
    (e : Endian) (t : WorkType) (w w' : WorkItem) (sqe : Sqe)
    → w.link_to_next_request ≡ false
    → prepare_as e t w ≡ done (w', sqe)
    → (sqe.io_link ≡ false) × (sqe.buffer_select ≡ is_recv t) × (sqe.buf_group ≡ 0)
unfolding prepare_as
flags e WorkType.unknown w w' sqe plain h = ground arith
flags e _ w w' sqe plain h = ground arith

module _ {K : Type 0} (e : Endian) (lib : Liburing K) (memory : WorkPool → Memory) where
  -- A request that succeeds on a typed pool takes an entry from the queue, after a submission if
  -- that was full, fills it for exactly what was asked, and submits it. The entry carries the
  -- identifier of a new item, which had none in the pool before; it is not linked to the next
  -- entry, and chooses a buffer, of group 0, exactly if the request is a receive.
  pub perform-Asks :
      (s s' : IoUring K) (r : Request)
      → IsTyped s.pool
      → perform e lib memory s r ≡ done s'
      → (k : K) × (sqe : Sqe) × (w : WorkItem) × (get_sqe e lib s.ring ≡ done k)
        × (s'.ring ≡ lib.submit (lib.prep k sqe))
        × Asks e r sqe.op
        × (sqe.io_link ≡ false)
        × (sqe.buffer_select ≡ is_recv (type_of r))
        × (sqe.buf_group ≡ 0)
        × (sqe.user_data ≡ w.id)
        × (find s.pool w.id ≡ none)
        × (find s'.pool w.id ≡ some w)
  unfolding submit prepare
  perform-Asks s s' r t h =
      let (descr, w, ready, run) = perform-Readies e lib memory s s' r h in
      let (wk, h1, h2) = >>=-eq-done (submit e lib w s.ring) _ run in
      let (k, got, rest) = >>=-eq-done (get_sqe e lib s.ring) _ h1 in
      let (ws, prepared, last) = >>=-eq-done (prepare e w) _ rest in
      let ready_type : prepare_as e (type_of r) w ≡ done ws =
        ap (λ (t : WorkType). prepare_as e t w) (sym ready.has_type) ∙ prepared in
      let (plain, select, group) = flags e (type_of r) w ws.0 ws.1 ready.unlinked ready_type in
      let (adds, same) =
        submitted e lib (memory s.pool) s.pool (socket_of r) descr w wk.0 s.ring wk.1 h1
          ready.new_id ready.new_state
          (cc (ready.has_type, ready.has_handler, matches-type_of r)) in
      let end = done-injective _ s' h2 in
      (
        k,
        ws.1,
        wk.0,
        got,
        sym (ap (λ (x : IoUring K). x.ring) end)
            ∙ sym (ap (λ (r : WorkItem × K). r.1) (done-injective _ wk last)),
        asked e (memory s.pool) s.pool descr r w ws.0 ws.1 ready ready_type,
        plain,
        select,
        group,
        (prepare-SameItem e w ws.0 ws.1 prepared).1 ∙ sym same.same_id,
        adds.fresh t,
        subst (λ (x : IoUring K). find x.pool wk.0.id ≡ some wk.0) end (adds.stored t),
      )
