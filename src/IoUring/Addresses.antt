-- ===== src/IoUring/Addresses.antt =====
-- src/IOUring.cpp, src/WorkItem.cpp: the addresses that connect and accept hand to their handlers.
use iuring.Prelude.{ℕ, ◌≡◌, ◌≢◌, ap, ◌∙◌, arith, none, List, ◌++◌, Option-cases, ◌⊎◌, inl, inr}
use iuring.Outcome.{done}
use iuring.IpAddress.{size_sockaddr, data_sockaddr, IpAddress, of_sockaddr_in, of_storage}
use iuring.WorkItem.{submit_connect as item_submit_connect, Memory, get_type}
use iuring.WorkPool.{alloc_connect_work_item, WorkPool}
use iuring.IoUring.Submission.{submit, prepare}
use iuring.Endian.{Endian}
use iuring.Socket.{Socket, SocketType}
use iuring.IpAddress.Layout.{
  SockaddrIn, IsSockaddrIn, af_inet, load16, load_sockaddr_in, bytes_of_sockaddr_in,
  load-bytes_of_sockaddr_in,
}
use iuring.Completion.{AcceptResult}
use iuring.Liburing.{Liburing}
use iuring.IoUring.State.{IoUring}
use iuring.IoUring.Handlers.{connect_address}
use iuring.IoUring.Requests.{submit_connect}

-- An address that was copied into the buffer for the ring is read back from it.
pub connect_address-bytes :
    (e : Endian) (v : SockaddrIn) (rest : List ℕ)
    → IsSockaddrIn v
    → v.sin_family ≡ af_inet
    → connect_address e (bytes_of_sockaddr_in e v ++ rest) ≡ of_sockaddr_in v
unfolding connect_address
connect_address-bytes e v rest fits inet =
    let whole = load-bytes_of_sockaddr_in e v rest fits in
    let family : load16 e (bytes_of_sockaddr_in e v ++ rest) 0 ≡ af_inet =
      unfold load_sockaddr_in in (ap (λ (x : SockaddrIn). x.sin_family) whole ∙ inet) in
    rw (family, whole)

-- The type that a socket for a new connection gets from the peer's address: an IPv4 address
-- is taken for an IPv6 one and an IPv6 address for an IPv4 one.
pub accept_type_swapped :
    (e : Endian) (storage : List ℕ) (len fd : ℕ) (a : IpAddress)
    → of_storage e storage len ≡ done a
    → let r : AcceptResult = record { new_fd = fd; address = a } in
      ((len ≡ 16) × (get_type r ≡ SocketType.ipv6_tcp))
      ⊎ ((len ≡ 28) × (get_type r ≡ SocketType.ipv4_tcp))
unfolding of_storage get_type
accept_type_swapped e storage len fd a h = ground arith

module _ {K : Type 0} (e : Endian) (lib : Liburing K) (memory : WorkPool → Memory) where
  -- A connect to an address that holds no IPv4 address never succeeds, on a ring in any state.
  pub connect_ipv6_fails :
      (s s' : IoUring K) (socket : Socket) (target : IpAddress) (cb : ℕ)
      → target.in4 ≡ none
      → submit_connect e lib memory s socket target cb ≢ done s'
  unfolding submit_connect alloc_connect_work_item item_submit_connect submit prepare size_sockaddr
      data_sockaddr
  connect_ipv6_fails s s' socket target cb v6 h = elim (Option-cases target.in6) [
    | inl n ↦ ground arith
    | inr (w, n) ↦ ground arith
  ]
