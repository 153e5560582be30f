-- ===== src/SocketImpl.antt =====
-- src/SocketImpl.hpp and src/SocketImpl.cpp: the sockets of the library and the system calls that
-- set them up. A descriptor is a natural number, since a negative one never leaves `create_socket`.
pub mod Setup
pub mod Multicast
use iuring.Prelude.{ℕ, ◌≡◌, Bool, true, false, not, List, [], ◌∷◌, ltb, length, ◌==◌, if◌then◌else◌}
use iuring.Outcome.{Outcome, done, aborted, assert}
use iuring.Endian.{Endian, u16, htons, htonl}
use iuring.Completion.{AcceptResult}
use iuring.Completion.Int.{ℤ, pos, negsuc, is_negative, is_errno, magnitude}
use iuring.Socket.{Socket, SocketType, SocketKind}
use iuring.WorkItem.{get_type, get_port}
use iuring.IpAddress.Layout.{af_inet, af_inet6, SockaddrIn, bytes_of_sockaddr_in}
use iuring.IpAddress.Text.{Inet, string_to_ipv4_address}
use iuring.Syscalls.{
  SockKind, SockOption, Mreq, OptionValue, int, mreq, Syscall, Kernel, Sys, ◌>>=◌, ◌>>◌, pure, lift,
  require, ask, is_zero,
}

-- The members of ISocket, and m_mreq.
pub record SocketImpl : Type 0 where
  pub base : Socket
  pub m_mreq : Mreq

abbrev pub zeroed_mreq : Mreq
zeroed_mreq = record { multiaddr = 0; interface = 0 }

-- `SocketImpl(logger, new_conn)`, for an accepted connection.
unfoldable pub of_accept : AcceptResult → Outcome SocketImpl
of_accept new_conn =
    if ltb 0 new_conn.new_fd
    then done (record {
      base = record {
        type = get_type new_conn;
        port = get_port new_conn;
        kind = SocketKind.server_stream_socket;
        fd = new_conn.new_fd;
      };
      m_mreq = zeroed_mreq;
    })
    else aborted

-- INADDR_ANY.
abbrev pub any_address : ℕ
any_address = 0

-- A cleared `sockaddr_in` with an address word and a port.
abbrev pub bound_address : Endian → ℕ → ℕ → SockaddrIn
bound_address e word port = record {
  sin_family = af_inet;
  sin_port = htons e (u16 port);
  sin_addr = word;
  sin_zero0 = 0;
  sin_zero1 = 0;
}

module _ (e : Endian) (kernel : Kernel) where
  unfoldable pub open_fd : ℕ → SockKind → Sys ℕ
  open_fd family kind = do
    fd ← ask kernel (Syscall.socket family kind)
    require (not (is_negative fd))
    pure (magnitude fd)

  -- For IPV6_UDP the socket is made, and then the process aborts.
  unfoldable pub create_socket : SocketType → Sys ℕ
  unfolding open_fd
  create_socket SocketType.unknown = lift aborted
  create_socket SocketType.ipv4_udp = open_fd af_inet SockKind.dgram
  create_socket SocketType.ipv4_tcp = open_fd af_inet SockKind.stream
  create_socket SocketType.ipv6_udp =
      ask kernel (Syscall.socket af_inet6 SockKind.dgram) >>= λ fd. lift aborted
  create_socket SocketType.ipv6_tcp = open_fd af_inet6 SockKind.stream

  -- What it finds is only logged.
  unfoldable pub dump_info : ℕ → Sys (Unit {0})
  dump_info fd = ask kernel (Syscall.getsockname fd) >>= λ res. pure tt

  unfoldable pub local_bind : ℕ → ℕ → Sys (Unit {0})
  unfolding dump_info
  local_bind fd port = do
    res ← ask kernel (Syscall.bind fd (bytes_of_sockaddr_in e (bound_address e any_address port)))
    require (not (is_negative res))
    dump_info fd

  -- The `switch` of the constructor.
  unfoldable pub set_up : SocketKind → ℕ → ℕ → Sys (Unit {0})
  unfolding local_bind
  set_up SocketKind.unicast_client_socket fd port = do
    res ← ask kernel (Syscall.setsockopt fd SockOption.reuse_port (int 1))
    require (not (is_errno res 1))
  set_up SocketKind.multicast_packet_socket fd port = do
    local_bind fd port
    res ← ask kernel (Syscall.setsockopt fd SockOption.multicast_ttl (int 1))
    require (is_zero res)
  set_up SocketKind.server_stream_socket fd port = do
    res ←
        ask kernel
          (Syscall.bind fd (bytes_of_sockaddr_in e (bound_address e (htonl e any_address) port)))
    require (not (is_negative res))
    res2 ← ask kernel (Syscall.listen fd 1024)
    require (not (is_negative res2))

  -- `SocketImpl(type, port, logger, kind)`.
  unfoldable pub construct : SocketType → ℕ → SocketKind → Sys SocketImpl
  unfolding create_socket set_up
  construct type port kind = do
    fd ← create_socket type
    res ← ask kernel (Syscall.setsockopt fd SockOption.reuse_addr (int 1))
    require (is_zero res)
    set_up kind fd port
    pure (record {
      base = record { type = type; port = port; kind = kind; fd = fd };
      m_mreq = zeroed_mreq;
    })

  unfoldable pub mcast_bind : SocketImpl → Sys ℤ
  mcast_bind s = do
    err ← ask kernel (Syscall.setsockopt s.base.fd SockOption.multicast_if (mreq s.m_mreq))
    pure (elim (is_zero err) [ true ↦ pos 0 | false ↦ negsuc 0 ])

  unfoldable pub leave_multicast_group : SocketImpl → Sys (Unit {0})
  leave_multicast_group s = do
    ret ← ask kernel (Syscall.setsockopt s.base.fd SockOption.drop_membership (mreq s.m_mreq))
    require (not (is_negative ret))

  module _ (inet : Inet) where
    unfoldable pub join_multicast_group : SocketImpl → List ℕ → List ℕ → Sys SocketImpl
    join_multicast_group s ip_address source_iface = do
      require (not (length ip_address == 0))
      require (not (length source_iface == 0))
      group ← lift (string_to_ipv4_address inet ip_address)
      iface ← lift (string_to_ipv4_address inet source_iface)
      let m : Mreq = record { multiaddr = group; interface = iface }
      ret ← ask kernel (Syscall.setsockopt s.base.fd SockOption.add_membership (mreq m))
      require (not (is_negative ret))
      err ← ask kernel (Syscall.setsockopt s.base.fd SockOption.multicast_loop (int 0))
      require (is_zero err)
      pure (record s { m_mreq = m })
