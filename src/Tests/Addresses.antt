-- ===== src/Tests/Addresses.antt =====
-- Examples of include/iuring/IPAddress.hpp and src/IPAddress.cpp.
use iuring.Outcome.{value, done, aborted}
use iuring.Socket.{SocketType}
use iuring.IpAddress.Port.{SetsPort, get_port-set_port}
use iuring.Prelude.{
  same_text, ℕ, ◌≡◌, refl, List, codes, some, if◌then◌else◌, ◌++◌, ◌≢◌, ◌∷◌, true, none, ◌==◌,
  false, arith, [], inr, ◌⊎◌, ◌↔◌, ◌&&◌, not, inl,
}
use iuring.Endian.{little}
use iuring.IpAddress.{
  IpAddress, of_sockaddr_in, of_sockaddr_in6, set_port, get_hash, less, of_storage, equal, valid,
  get_port,
}
use iuring.IpAddress.Layout.{af_inet, load_sockaddr_in6}
use iuring.Completion.{AcceptResult}
use iuring.IpAddress.Text.{create_sock_addr_in, parse, Inet, create_sock_addr_in-mask}
use iuring.WorkItem.{get_type}
use iuring.IpAddress.Order.{equal_equivalence, Agree}
use iuring.IoUring.Addresses.{accept_type_swapped}
use iuring.Tests.Rings.{peer, peer6}

abbrev near : IpAddress
near = of_sockaddr_in peer

abbrev v6 : IpAddress
v6 = of_sockaddr_in6 peer6

abbrev far : IpAddress
far = of_sockaddr_in (record peer { sin_addr = 0x0200007f })

get_port-set_port_example :
    ((valid near ≡ true) × SetsPort little near 443)
    ⊎ ((valid near ≡ false)
        × (set_port little near 443 ≡ aborted)
        × (get_port little near ≡ aborted))
get_port-set_port_example = get_port-set_port little near 443 (omega arith)

near_below_far : less near far ≡ done true
unfolding less get_hash
near_below_far = refl

equal_equivalence_example :
    ((equal near far ≡ true) ↔ Agree near far)
    × (equal near near ≡ true)
    × (equal far near ≡ equal near far)
    × (equal near far && (equal far v6 && not (equal near v6)) ≡ false)
    × ((equal near far ≡ false)
        ⊎ ((get_hash near ≡ get_hash far)
            × (less near far ≢ done true)
            × (less far near ≢ done true)))
equal_equivalence_example =
    equal_equivalence near far v6 (inl (peer, refl, refl)) (inl (_, refl, refl))
      (inr (peer6, refl, refl))

-- The bytes of an IPv4 address and port, as `accept` finds them, with nothing behind them.
abbrev storage : List ℕ
storage = 2 ∷ 0 ∷ 0x1f ∷ 0x90 ∷ 127 ∷ 0 ∷ 0 ∷ 1 ∷ []

accepted_as :
    of_storage little storage 16 ≡ done (of_sockaddr_in6 (load_sockaddr_in6 little storage))
unfolding of_storage
accepted_as = refl

accept_type_swapped_example :
    let r : AcceptResult = record {
      new_fd = 4;
      address = of_sockaddr_in6 (load_sockaddr_in6 little storage);
    } in
    let len : ℕ = 16 in
    ((len ≡ 16) × (get_type r ≡ SocketType.ipv6_tcp))
    ⊎ ((len ≡ 28) × (get_type r ≡ SocketType.ipv4_tcp))
accept_type_swapped_example =
    accept_type_swapped little storage 16 4 (of_sockaddr_in6 (load_sockaddr_in6 little storage))
      accepted_as

-- Functions for <arpa/inet.h> that know one address.
abbrev loopback : List ℕ
loopback = codes "127.0.0.1"

abbrev masked : List ℕ
masked = loopback ++ codes "/32"

abbrev inet : Inet
inet = record {
  pton4 = λ text. if same_text text loopback then some 0x0100007f else none;
  pton6 = λ text. none;
  ntop4 = λ sa. if sa == 0x0100007f then some loopback else none;
  ntop6 = λ sa. none;
  ends_with = λ text suffix. same_text text masked;
}

abbrev parsed : IpAddress
parsed = of_sockaddr_in (record peer { sin_addr = 0x0100007f; sin_family = af_inet })

loopback_text : parse inet peer peer6 loopback ≡ value parsed
unfolding parse same_text
loopback_text = refl

masked-ends : inet.ends_with masked (codes "/32") ≡ true
unfolding same_text
masked-ends = refl

loopback-plain : inet.ends_with loopback (codes "/32") ≡ false
unfolding same_text
loopback-plain = refl

create_sock_addr_in-mask_example :
    (create_sock_addr_in inet little masked 443 ≡ create_sock_addr_in inet little loopback 443)
    × (((inet.pton4 loopback ≡ none) × (create_sock_addr_in inet little loopback 443 ≡ aborted))
        ⊎ ((sa : ℕ) × (a : IpAddress) × (inet.pton4 loopback ≡ some sa)
            × (create_sock_addr_in inet little loopback 443 ≡ done a)
            × (get_hash a ≡ done sa)
            × (get_port little a ≡ done 443)))
create_sock_addr_in-mask_example =
    create_sock_addr_in-mask inet little loopback 443 masked-ends loopback-plain
