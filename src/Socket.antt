-- ===== src/Socket.antt =====
-- include/iuring/ISocket.hpp and the enumerations of include/iuring/NetworkProtocols.hpp and
-- include/iuring/SocketPortID.hpp.
use iuring.Prelude.{ℕ, Bool, true, false}

pub data SocketKind : Type 0 where
  multicast_packet_socket server_stream_socket unicast_client_socket : SocketKind

pub data SocketType : Type 0 where
  unknown ipv4_udp ipv4_tcp ipv6_udp ipv6_tcp : SocketType

-- m_type, m_port, m_kind and m_fd; the connection data is the client's own.
pub record Socket : Type 0 where
  pub type : SocketType
  pub port : ℕ
  pub kind : SocketKind
  pub fd : ℕ

abbrev pub stream_type : SocketType → Bool
stream_type SocketType.ipv4_tcp = true
stream_type SocketType.ipv6_tcp = true
stream_type SocketType.unknown = false
stream_type SocketType.ipv4_udp = false
stream_type SocketType.ipv6_udp = false

-- `ISocket::is_stream`.
abbrev pub is_stream : Socket → Bool
is_stream s = stream_type s.type

abbrev pub is_server : SocketKind → Bool
is_server SocketKind.server_stream_socket = true
is_server SocketKind.multicast_packet_socket = false
is_server SocketKind.unicast_client_socket = false

-- `SocketPortID::UNKNOWN`.
abbrev pub unknown_port : ℕ
unknown_port = 0xffff
