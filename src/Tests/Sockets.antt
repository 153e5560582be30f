-- ===== src/Tests/Sockets.antt =====
-- Examples of src/SocketImpl.cpp and src/ProbeUringFeatures.hpp.
use iuring.Prelude.{
  ℕ, ◌≡◌, refl, ◌≢◌, List, [], ◌∷◌, ◌++◌, some, none, false, codes, if◌then◌else◌, same_text,
}
use iuring.Outcome.{done, aborted}
use iuring.Endian.{little, htonl}
use iuring.Socket.{SocketType, SocketKind}
use iuring.Completion.Int.{pos}
use iuring.IpAddress.Text.{Inet, string_to_ipv4_address, without_mask}
use iuring.Syscalls.{int, Syscall, Kernel, SockOption, mreq, Mreq}
use iuring.SocketImpl.{
  SocketImpl, construct, create_socket, open_fd, set_up, join_multicast_group, mcast_bind,
}
use iuring.SocketImpl.Setup.{opening, finishing, reuse, made, construct-issues, construct-Granted}
use iuring.SocketImpl.Multicast.{Joined, join-leave, Method, joins, binds, elsewhere, run, call}
use iuring.Probe.{ProbeOp, tag, probe_features}
use iuring.Probe.Reported.{tag-injective, needed, all_reported, probe_features_lem}

-- A kernel that opens descriptor 3 and agrees to all else.
abbrev kernel : Kernel
kernel (Syscall.socket family kind ∷ t) = pos 3
kernel _ = pos 0

abbrev server : SocketImpl
server = made SocketType.ipv4_tcp 8080 SocketKind.server_stream_socket 3

abbrev server_calls : List Syscall
server_calls =
    finishing little SocketKind.server_stream_socket 3 8080 ++ reuse 3 ∷ opening SocketType.ipv4_tcp

server_made :
    construct little kernel SocketType.ipv4_tcp 8080 SocketKind.server_stream_socket []
    ≡ done (server, server_calls)
unfolding construct create_socket open_fd set_up htonl
server_made = refl

construct-issues_example :
    (fd : ℕ) × (server ≡ made SocketType.ipv4_tcp 8080 SocketKind.server_stream_socket fd)
    × (server_calls
        ≡ finishing little SocketKind.server_stream_socket fd 8080
          ++ reuse fd ∷ (opening SocketType.ipv4_tcp ++ []))
    × (opening SocketType.ipv4_tcp ≢ [])
    × (kernel (opening SocketType.ipv4_tcp ++ []) ≡ pos fd)
construct-issues_example =
    construct-issues little kernel SocketType.ipv4_tcp 8080 SocketKind.server_stream_socket server
      [] server_calls server_made

udp_opens : opening SocketType.ipv4_udp ≢ []
udp_opens h = cc

abbrev group_calls : List Syscall
group_calls =
    finishing little SocketKind.multicast_packet_socket 3 5000
    ++ reuse 3 ∷ (opening SocketType.ipv4_udp ++ [])

construct-Granted_example :
    construct little kernel SocketType.ipv4_udp 5000 SocketKind.multicast_packet_socket []
    ≡ done (made SocketType.ipv4_udp 5000 SocketKind.multicast_packet_socket 3, group_calls)
construct-Granted_example =
    construct-Granted little kernel SocketType.ipv4_udp 5000 3 SocketKind.multicast_packet_socket []
      udp_opens refl (refl, (refl, (refl, (refl, tt))))

-- All texts are read as one address.
abbrev inet : Inet
inet = record {
  pton4 = λ text. some (if same_text text (codes "224.0.0.2") then 0x020000e0 else 0x010000e0);
  pton6 = λ text. none;
  ntop4 = λ a. none;
  ntop6 = λ a. none;
  ends_with = λ text suffix. false;
}

abbrev listener : SocketImpl
listener = made SocketType.ipv4_udp 5000 SocketKind.multicast_packet_socket 3

abbrev group : Mreq
group = record { multiaddr = 0x010000e0; interface = 0x010000e0 }

abbrev other_group : Mreq
other_group = record { multiaddr = 0x020000e0; interface = 0x010000e0 }

abbrev joined_twice : SocketImpl
joined_twice = record listener { m_mreq = other_group }

abbrev joined : SocketImpl
joined = record listener { m_mreq = group }

abbrev joined_calls : List Syscall
joined_calls =
    Syscall.setsockopt 3 SockOption.multicast_loop (int 0)
    ∷ Syscall.setsockopt 3 SockOption.add_membership (mreq group)
    ∷ []

listener_joins :
    join_multicast_group little kernel inet listener (codes "224.0.0.1") (codes "eth0") []
    ≡ done (joined, joined_calls)
unfolding join_multicast_group string_to_ipv4_address without_mask same_text
listener_joins = refl

-- The socket binds, another one binds, and it joins once more.
abbrev methods : List Method
methods = binds ∷ elsewhere (Syscall.listen 4 1) ∷ joins (codes "224.0.0.2") (codes "eth0") ∷ []

abbrev all_calls : List Syscall
all_calls =
    Syscall.setsockopt 3 SockOption.multicast_loop (int 0)
    ∷ Syscall.setsockopt 3 SockOption.add_membership (mreq other_group)
    ∷ Syscall.listen 4 1
    ∷ Syscall.setsockopt 3 SockOption.multicast_if (mreq group)
    ∷ joined_calls

methods_return : run little kernel inet methods joined joined_calls ≡ done (joined_twice, all_calls)
unfolding run call mcast_bind join_multicast_group string_to_ipv4_address without_mask same_text
methods_return = refl

join-leave_example :
    Joined little kernel inet listener joined_twice
      (codes "224.0.0.1")
      (codes "eth0")
      methods
      []
      joined_calls
      all_calls
join-leave_example =
    join-leave little kernel inet listener joined joined_twice (codes "224.0.0.1") (codes "eth0")
      methods [] joined_calls all_calls listener_joins methods_return

-- A kernel without IORING_OP_CONNECT.
abbrev list : List ProbeOp
list = record { op = 14; flags = 1 } ∷ record { op = 17; flags = 0 } ∷ []

probe_features_lem_example :
    probe_features tag (some list) ≡ (if all_reported tag list needed then done tt else aborted)
probe_features_lem_example = probe_features_lem tag tag-injective (some list)
