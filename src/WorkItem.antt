-- ===== src/WorkItem.antt =====
-- include/iuring/IWorkItem.hpp, src/WorkItem.hpp and src/WorkItem.cpp: one request on its way
-- through the ring, from allocation to its last completion.
use iuring.Prelude.{ℕ, ◌+◌, Bool, true, false, Option, none, some, List, [], ltb, write, codes}
use iuring.Outcome.{Outcome, done, ◌>>=◌, ◌>>◌, assert}
use iuring.Endian.{Endian}
use iuring.SendPacket.{SendPacket, fresh, reset}
use iuring.IpAddress.{IpAddress, unset, size_sockaddr, data_sockaddr}
use iuring.IpAddress.Layout.{sizeof_sockaddr_storage}
use iuring.Socket.{Socket, SocketType, unknown_port}
use iuring.Completion.{DatagramSendParameters, AcceptResult}

-- `IWorkItem::Type`.
pub data WorkType : Type 0 where
  unknown accept send_stream_data send_workpacket recv connect close : WorkType

pub data ItemState : Type 0 where
  in_use free : ItemState

-- The variant m_callback. A new item holds its first alternative, an empty connect function.
pub data Callback : Type 0 where
  empty_callback : Callback
  connect_callback accept_callback recv_callback send_callback close_callback : ℕ → Callback

-- `msg_name`: null, the address of m_buffer_for_uring, or that of m_sa, with the bytes there.
pub data MsgName : Type 0 where
  null_name : MsgName
  uring_buffer : MsgName
  socket_address : List ℕ → MsgName

pub record Cmsg : Type 0 where
  pub level : ℕ
  pub type : ℕ
  pub len : ℕ
  pub value : ℕ

-- The `msghdr` m_msg with its one `iovec`, of which the length and the bytes at the base are kept.
pub record Msghdr : Type 0 where
  pub msg_name : MsgName
  pub msg_namelen : ℕ
  pub iov_base : Option (List ℕ)
  pub iov_len : ℕ
  pub msg_control : List Cmsg
  pub msg_controllen : ℕ
  pub msg_flags : ℕ

abbrev pub zeroed_msg : ℕ → Msghdr
zeroed_msg iov_len = record {
  msg_name = null_name;
  msg_namelen = 0;
  iov_base = none;
  iov_len = iov_len;
  msg_control = [];
  msg_controllen = 0;
  msg_flags = 0;
}

pub record WorkItem : Type 0 where
  pub id : ℕ
  pub work_type : WorkType
  pub state : ItemState
  pub socket : Socket
  pub callback : Callback
  pub send_packet : SendPacket
  pub params : DatagramSendParameters
  pub msg : Msghdr
  pub sa : IpAddress
  pub buffer_for_uring : List ℕ
  pub accept_sock_len : ℕ
  pub connect_sock_len : ℕ
  pub descr : List ℕ
  pub link_to_next_request : Bool

-- What the members without an initialiser hold in a new object: the array of the packet, m_params,
-- m_msg and m_buffer_for_uring.
pub record Memory : Type 0 where
  pub packet_bytes : List ℕ
  pub old_params : DatagramSendParameters
  pub old_msg : Msghdr
  pub old_buffer : List ℕ

-- The constructor.
unfoldable pub make : Memory → ℕ → List ℕ → Socket → WorkItem
make m id descr s = record {
  id = id;
  work_type = WorkType.unknown;
  state = in_use;
  socket = s;
  callback = empty_callback;
  send_packet = fresh m.packet_bytes;
  params = m.old_params;
  msg = record m.old_msg { iov_base = none; iov_len = 0 };
  sa = unset;
  buffer_for_uring = m.old_buffer;
  accept_sock_len = 0;
  connect_sock_len = 0;
  descr = descr;
  link_to_next_request = false;
}

abbrev pub is_free_state : ItemState → Bool
is_free_state in_use = false
is_free_state free = true

abbrev pub is_free : WorkItem → Bool
is_free w = is_free_state w.state

unfoldable pub mark_in_use : WorkItem → Outcome WorkItem
mark_in_use w = do assert (is_free_state w.state); done (record w { state = in_use })

abbrev is_in_use : ItemState → Bool
is_in_use in_use = true
is_in_use free = false

unfoldable pub mark_is_free : WorkItem → Outcome WorkItem
mark_is_free w = do assert (is_in_use w.state); done (record w { state = free })

-- `type_to_string`.
unfoldable pub type_to_string : WorkType → List ℕ
type_to_string WorkType.accept = codes "accept"
type_to_string WorkType.connect = codes "connect"
type_to_string WorkType.recv = codes "recv"
type_to_string WorkType.send_stream_data = codes "send_stream_data"
type_to_string WorkType.send_workpacket = codes "send_workpacket"
type_to_string WorkType.unknown = codes "unknown"
type_to_string WorkType.close = codes "close"

-- `get_send_packet()` hands out the packet after a reset; the caller's changes are `fill`.
unfoldable pub get_send_packet : WorkItem → (SendPacket → Outcome SendPacket) → Outcome WorkItem
get_send_packet w fill = do p ← fill (reset w.send_packet); done (record w { send_packet = p })

-- The `submit` methods set the callback and the type, and pass the item to `IOUring::submit`, which
-- may change it: the interface's method is the parameter `submit`, on the ring's state `R`.
module _ {R : Type 0} (submit : WorkItem → R → Outcome (WorkItem × R)) where
  unfoldable pub submit_recv : WorkItem → ℕ → R → Outcome (WorkItem × R)
  submit_recv w cb r =
      submit (record w { callback = recv_callback cb; work_type = WorkType.recv }) r

  unfoldable pub submit_packet : WorkItem → DatagramSendParameters → ℕ → R → Outcome (WorkItem × R)
  submit_packet w params cb r =
      submit
        (record w {
          params = params;
          callback = send_callback cb;
          work_type = WorkType.send_workpacket;
        })
        r

  unfoldable pub submit_stream_data : WorkItem → ℕ → R → Outcome (WorkItem × R)
  submit_stream_data w cb r =
      submit (record w { callback = send_callback cb; work_type = WorkType.send_stream_data }) r

  unfoldable pub submit_accept : WorkItem → ℕ → R → Outcome (WorkItem × R)
  submit_accept w cb r =
      submit (record w { callback = accept_callback cb; work_type = WorkType.accept }) r

  -- The target is copied into the buffer for the ring.
  unfoldable pub submit_connect : Endian → WorkItem → IpAddress → ℕ → R → Outcome (WorkItem × R)
  submit_connect e w target cb r = do
    len ← size_sockaddr target
    assert (ltb len (sizeof_sockaddr_storage + 1))
    bytes ← data_sockaddr e target
    submit
        (record w {
          connect_sock_len = len;
          buffer_for_uring = write w.buffer_for_uring 0 bytes;
          callback = connect_callback cb;
          work_type = WorkType.connect;
        })
        r

  unfoldable pub submit_close : WorkItem → ℕ → R → Outcome (WorkItem × R)
  submit_close w cb r =
      submit (record w { callback = close_callback cb; work_type = WorkType.close }) r

-- `get_type(const AcceptResult&)` and `get_port(const AcceptResult&)`: the port is the stored
-- value, in network byte order.
unfoldable pub get_type : AcceptResult → SocketType
get_type res = elim res.address.in4 [
  | some _ ↦ SocketType.ipv4_tcp
  | none ↦ elim res.address.in6 [ some _ ↦ SocketType.ipv6_tcp | none ↦ SocketType.unknown ]
]

unfoldable pub get_port : AcceptResult → ℕ
get_port res = elim res.address.in4 [
  | some v ↦ v.sin_port
  | none ↦ elim res.address.in6 [ some w ↦ w.sin6_port | none ↦ unknown_port ]
]
