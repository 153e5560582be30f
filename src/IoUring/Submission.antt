-- ===== src/IoUring/Submission.antt =====
-- src/IOUring.cpp: `submit`, which turns a work item into a submission entry, `init_send_msg` and
-- `get_sqe`.
use iuring.Prelude.{ℕ, ◌+◌, ◌*◌, ◌%◌, true, false, not, ◌&&◌, none, some, List, [], ◌∷◌, ◌==◌, ltb}
use iuring.Outcome.{Outcome, done, aborted, ◌>>=◌, ◌>>◌, assert}
use iuring.Endian.{Endian}
use iuring.SendPacket.{to_string}
use iuring.Socket.{is_stream}
use iuring.NetworkProtocols.{Dscp, dscp_value, ttl_value}
use iuring.IpAddress.{on_family}
use iuring.IpAddress.Layout.{
  bytes_of_sockaddr_in, bytes_of_sockaddr_in6, sizeof_sockaddr_in, sizeof_sockaddr_in6,
  sizeof_sockaddr_storage,
}
use iuring.WorkItem.{WorkItem, WorkType, MsgName, Msghdr, Cmsg, zeroed_msg}
use iuring.Liburing.{Liburing, Sqe, Op}
use iuring.IoUring.State.{buffer_size}

-- `IPPROTO_IP`, `IP_TOS`, `IP_TTL` and `MSG_TRUNC`.
abbrev pub ipproto_ip : ℕ
ipproto_ip = 0

abbrev pub ip_tos : ℕ
ip_tos = 1

abbrev pub ip_ttl : ℕ
ip_ttl = 2

abbrev pub msg_trunc : ℕ
msg_trunc = 0x20

-- `static_cast<uint8_t>(dscp) << 2 | 0`, in a `uint8_t`.
unfoldable pub tos_of : Dscp → ℕ
unfolding dscp_value
tos_of dscp = dscp_value dscp * 4 % 256

-- CMSG_LEN and CMSG_SPACE of <sys/socket.h> on a 64-bit host: a header of 16 bytes, aligned to 8.
abbrev pub cmsg_len : ℕ → ℕ
cmsg_len n = 16 + n

abbrev pub cmsg_space : ℕ
cmsg_space = 24

-- The two control messages, for the one byte of `tos` and the four of `ttl`.
abbrev pub control_of : ℕ → ℕ → List Cmsg
control_of tos ttl =
    record { level = ipproto_ip; type = ip_tos; len = cmsg_len 1; value = tos }
    ∷ record { level = ipproto_ip; type = ip_ttl; len = cmsg_len 4; value = ttl }
    ∷ []

-- `WorkItem::init_send_msg`, which `submit` calls for SEND_WORKPACKET only.
unfoldable pub init_send_msg : Endian → WorkItem → Outcome WorkItem
init_send_msg e w = do
  let ttl = ttl_value w.params.ttl
  assert (ltb 0 ttl && ltb ttl 256)
  let sa = w.params.destination_address
  (name, namelen) ←
      on_family sa (λ v. done (bytes_of_sockaddr_in e v, sizeof_sockaddr_in))
        (λ v. done (bytes_of_sockaddr_in6 e v, sizeof_sockaddr_in6))
  done (record w {
    sa = sa;
    msg = record {
      msg_name = MsgName.socket_address name;
      msg_namelen = namelen;
      iov_base = some (to_string w.send_packet);
      iov_len = w.send_packet.size;
      msg_control = control_of (tos_of w.params.dscp) ttl;
      msg_controllen = cmsg_space + cmsg_space;
      msg_flags = 0;
    };
  })

abbrev entry : WorkItem → Op → Sqe
entry w op = record {
  user_data = w.id;
  op = op;
  io_link = false;
  buffer_select = false;
  buf_group = 0;
}

abbrev pub recv_msg : Msghdr → Msghdr
recv_msg old = record (zeroed_msg old.iov_len) {
  msg_name = MsgName.uring_buffer;
  msg_namelen = sizeof_sockaddr_storage;
}

-- The `switch` of `submit`: the item after its changes, and the entry.
unfoldable pub prepare_as : Endian → WorkType → WorkItem → Outcome (WorkItem × Sqe)
unfolding init_send_msg
prepare_as e WorkType.unknown w = aborted
prepare_as e WorkType.close w = done (w, entry w (Op.close w.socket.fd))
prepare_as e WorkType.accept w =
    let w' = record w { accept_sock_len = 0 } in done (w', entry w' (Op.accept w.socket.fd 0))
prepare_as e WorkType.connect w = do
  assert (ltb 0 w.connect_sock_len)
  assert (w.connect_sock_len == sizeof_sockaddr_in)
  done (
    w,
    record (entry w (Op.connect w.socket.fd w.buffer_for_uring w.connect_sock_len)) {
      io_link = w.link_to_next_request;
    },
  )
prepare_as e WorkType.recv w = elim (is_stream w.socket) [
  | true ↦ done (
    w,
    record (entry w (Op.recv w.socket.fd buffer_size 0)) { buffer_select = true; buf_group = 0 },
  )
  | false ↦
      let w' = record w { msg = recv_msg w.msg } in
      done (
        w',
        record (entry w' (Op.recvmsg_multishot w.socket.fd w'.msg msg_trunc)) {
          buffer_select = true;
          buf_group = 0;
        },
      )
]
prepare_as e WorkType.send_stream_data w = do
  assert (is_stream w.socket)
  done (
    w,
    record (entry w (Op.send w.socket.fd (to_string w.send_packet) 0)) {
      io_link = w.link_to_next_request;
    },
  )
prepare_as e WorkType.send_workpacket w = do
  assert (not (is_stream w.socket))
  w' ← init_send_msg e w
  done
      (w', record (entry w' (Op.sendmsg w.socket.fd w'.msg 0)) { io_link = w.link_to_next_request })

unfoldable pub prepare : Endian → WorkItem → Outcome (WorkItem × Sqe)
unfolding prepare_as
prepare e w = prepare_as e w.work_type w

module _ {K : Type 0} (e : Endian) (lib : Liburing K) where
  -- A full queue is submitted once to make room.
  unfoldable pub get_sqe : K → Outcome K
  get_sqe k = elim (lib.get_sqe k) [
    | some k' ↦ done k'
    | none ↦ elim (lib.get_sqe (lib.submit k)) [ some k' ↦ done k' | none ↦ aborted ]
  ]

  unfoldable pub submit : WorkItem → K → Outcome (WorkItem × K)
  unfolding get_sqe
  submit w k = do k' ← get_sqe k; (w', sqe) ← prepare e w; done (w', lib.submit (lib.prep k' sqe))
