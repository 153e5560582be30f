-- ===== src/SocketImpl/Setup.antt =====
-- src/SocketImpl.cpp: the system calls that the constructor makes, in their order.
use iuring.Prelude.{ℕ, ◌≡◌, ◌≢◌, refl, List, [], ◌∷◌, ◌++◌, arith, append_assoc}
use iuring.Outcome.{done}
use iuring.Endian.{Endian, little, big, htonl}
use iuring.Socket.{SocketType, SocketKind}
use iuring.IpAddress.Layout.{af_inet, af_inet6, bytes_of_sockaddr_in}
use iuring.Completion.Int.{pos}
use iuring.Syscalls.{>>=-eq-done, require, is_zero, SockKind, SockOption, int, Syscall, Kernel}
use iuring.SocketImpl.{
  SocketImpl, construct, create_socket, set_up, bound_address, any_address, zeroed_mreq,
}

abbrev pub opening : SocketType → List Syscall
opening SocketType.ipv4_udp = Syscall.socket af_inet SockKind.dgram ∷ []
opening SocketType.ipv4_tcp = Syscall.socket af_inet SockKind.stream ∷ []
opening SocketType.ipv6_tcp = Syscall.socket af_inet6 SockKind.stream ∷ []
opening SocketType.ipv6_udp = []
opening SocketType.unknown = []

-- What remains for a kind of socket, newest first. Both families bind an IPv4 address.
abbrev pub finishing : Endian → SocketKind → ℕ → ℕ → List Syscall
finishing e SocketKind.unicast_client_socket fd port =
    Syscall.setsockopt fd SockOption.reuse_port (int 1) ∷ []
finishing e SocketKind.multicast_packet_socket fd port =
    Syscall.setsockopt fd SockOption.multicast_ttl (int 1)
    ∷ Syscall.getsockname fd
    ∷ Syscall.bind fd (bytes_of_sockaddr_in e (bound_address e any_address port))
    ∷ []
finishing e SocketKind.server_stream_socket fd port =
    Syscall.listen fd 1024
    ∷ Syscall.bind fd (bytes_of_sockaddr_in e (bound_address e any_address port))
    ∷ []

htonl-zero : (e : Endian) → htonl e 0 ≡ 0
unfolding htonl
htonl-zero little = refl
htonl-zero big = refl

-- Each of some calls, newest first, is answered with 0.
abbrev pub Granted : Kernel → List Syscall → List Syscall → Type 0
Granted kernel [] t = Unit
Granted kernel (c ∷ cs) t = (kernel (c ∷ cs ++ t) ≡ pos 0) × Granted kernel cs t

Granted-append :
    (kernel : Kernel) (cs ds t : List Syscall)
    → Granted kernel (cs ++ ds) t
    → Granted kernel cs (ds ++ t) × Granted kernel ds t
Granted-append kernel [] ds t g = (tt, g)
Granted-append kernel (c ∷ cs) ds t g =
    let (later, earlier) = Granted-append kernel cs ds t g.1 in
    ((rw (← append_assoc cs ds t) g.0, later), earlier)

abbrev pub reuse : ℕ → Syscall
reuse fd = Syscall.setsockopt fd SockOption.reuse_addr (int 1)

abbrev pub made : SocketType → ℕ → SocketKind → ℕ → SocketImpl
made type port kind fd = record {
  base = record { type = type; port = port; kind = kind; fd = fd };
  m_mreq = zeroed_mreq;
}

module _ (e : Endian) (kernel : Kernel) where
  set_up-issues :
      (kind : SocketKind) (fd port : ℕ) (t t' : List Syscall)
      → set_up e kernel kind fd port t ≡ done (tt, t')
      → t' ≡ finishing e kind fd port ++ t
  unfolding set_up
  set_up-issues SocketKind.unicast_client_socket fd port t t' h = ground arith
  set_up-issues SocketKind.multicast_packet_socket fd port t t' h = ground arith
  set_up-issues SocketKind.server_stream_socket fd port t t' h = ground (arith, htonl-zero e)

  create_socket-issues :
      (type : SocketType) (fd : ℕ) (t t' : List Syscall)
      → create_socket e kernel type t ≡ done (fd, t')
      → (t' ≡ opening type ++ t) × (opening type ≢ []) × (kernel t' ≡ pos fd)
  unfolding create_socket
  create_socket-issues SocketType.unknown fd t t' h = absurd (cc)
  create_socket-issues SocketType.ipv4_udp fd t t' h = ground arith
  create_socket-issues SocketType.ipv4_tcp fd t t' h = ground arith
  create_socket-issues SocketType.ipv6_udp fd t t' h = absurd (cc)
  create_socket-issues SocketType.ipv6_tcp fd t t' h = ground arith

  -- A constructor that returns has made exactly these calls, in this order: it opened a socket of
  -- the type, allowed the reuse of addresses, and then did what the kind asks for, a bind to the
  -- given port included; the new socket has the descriptor that the kernel returned, and no group.
  -- The type is neither unknown nor IPV6_UDP.
  pub construct-issues :
      (type : SocketType) (port : ℕ) (kind : SocketKind) (s : SocketImpl) (t t' : List Syscall)
      → construct e kernel type port kind t ≡ done (s, t')
      → (fd : ℕ) × (s ≡ made type port kind fd)
        × (t' ≡ finishing e kind fd port ++ reuse fd ∷ (opening type ++ t))
        × (opening type ≢ [])
        × (kernel (opening type ++ t) ≡ pos fd)
  unfolding construct
  construct-issues type port kind s t t' h =
      let (fd, t1, opened, h1) = >>=-eq-done (create_socket e kernel type) _ t h in
      let (at, creatable, answer) = create_socket-issues type fd t t1 opened in
      let (u, t2, allowed, h2) =
        >>=-eq-done (require (is_zero (kernel (reuse fd ∷ t1)))) _ (reuse fd ∷ t1) h1 in
      let (v, t3, rest, h3) = >>=-eq-done (set_up e kernel kind fd port) _ t2 h2 in
      let same : t2 ≡ reuse fd ∷ t1 = ground arith in
      let issued = set_up-issues kind fd port t2 t3 rest in
      (fd, ground arith, ground arith, creatable, rw (← at) answer)

  create_socket-Granted :
      (type : SocketType) (fd : ℕ) (t : List Syscall)
      → opening type ≢ []
      → kernel (opening type ++ t) ≡ pos fd
      → create_socket e kernel type t ≡ done (fd, opening type ++ t)
  unfolding create_socket
  create_socket-Granted SocketType.unknown fd t n k = absurd (n refl)
  create_socket-Granted SocketType.ipv4_udp fd t n k = ground arith
  create_socket-Granted SocketType.ipv4_tcp fd t n k = ground arith
  create_socket-Granted SocketType.ipv6_udp fd t n k = absurd (n refl)
  create_socket-Granted SocketType.ipv6_tcp fd t n k = ground arith

  set_up-Granted :
      (kind : SocketKind) (fd port : ℕ) (t : List Syscall)
      → Granted kernel (finishing e kind fd port) t
      → set_up e kernel kind fd port t ≡ done (tt, finishing e kind fd port ++ t)
  unfolding set_up
  set_up-Granted SocketKind.unicast_client_socket fd port t g = ground arith
  set_up-Granted SocketKind.multicast_packet_socket fd port t g = ground arith
  set_up-Granted SocketKind.server_stream_socket fd port t g = rw (htonl-zero e) (ground arith)

  -- Where the kernel opens the socket, of a type that is neither unknown nor IPV6_UDP, and answers
  -- every further call of the kind with 0, the constructor returns.
  pub construct-Granted :
      (type : SocketType) (port fd : ℕ) (kind : SocketKind) (t : List Syscall)
      → opening type ≢ []
      → kernel (opening type ++ t) ≡ pos fd
      → Granted kernel (finishing e kind fd port ++ reuse fd ∷ []) (opening type ++ t)
      → construct e kernel type port kind t
        ≡ done (made type port kind fd, finishing e kind fd port ++ reuse fd ∷ (opening type ++ t))
  unfolding construct
  construct-Granted type port fd kind t n k g =
      let (finished, allowed) =
        Granted-append kernel (finishing e kind fd port) (reuse fd ∷ []) (opening type ++ t) g in
      let opened = create_socket-Granted type fd t n k in
      let rest = set_up-Granted kind fd port (reuse fd ∷ (opening type ++ t)) finished in
      ground (arith, opened, rest, allowed.0)
