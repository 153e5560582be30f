-- ===== src/IpAddress/Port.antt =====
-- include/iuring/IPAddress.hpp: `set_port` against `get_port` and what else an address holds.
use iuring.Prelude.{
  ℕ, ◌<◌, ◌≡◌, refl, ap, ◌∙◌, true, false, Option, none, some, arith, ◌⊎◌, inl, inr,
}
use iuring.Outcome.{done, aborted}
use iuring.Endian.{Endian, u16, htons, htons_twice}
use iuring.IpAddress.Layout.{SockaddrIn, SockaddrIn6}
use iuring.IpAddress.{IpAddress, set_port, get_port, valid, get_hash, data_addr, size_sockaddr}

-- What an address is besides its port.
abbrev pub SameHost : Endian → IpAddress → IpAddress → Type 0
SameHost e a b =
    (get_hash b ≡ get_hash a)
    × (data_addr e b ≡ data_addr e a)
    × (size_sockaddr b ≡ size_sockaddr a)
    × (valid b ≡ valid a)

abbrev pub SetsPort : Endian → IpAddress → ℕ → Type 0
SetsPort e a port =
    (b : IpAddress) × (set_port e a port ≡ done b) × (get_port e b ≡ done port) × SameHost e a b

port_twice : (e : Endian) (port : ℕ) → port < 65536 → htons e (u16 (htons e (u16 port))) ≡ port
port_twice e port h = htons_twice e port ∙ omega arith

set_port_cases :
    (e : Endian) (port : ℕ) (in4 : Option SockaddrIn) (in6 : Option SockaddrIn6)
    → port < 65536
    → let a : IpAddress = record { in4 = in4; in6 = in6 } in
      ((valid a ≡ true) × SetsPort e a port)
      ⊎ ((valid a ≡ false) × (set_port e a port ≡ aborted) × (get_port e a ≡ aborted))
unfolding set_port get_port valid get_hash data_addr size_sockaddr
set_port_cases e port (some v) in6 h = inl (
  refl,
  (
    record { in4 = some (record v { sin_port = htons e (u16 port) }); in6 = in6 },
    refl,
    ap done (port_twice e port h),
    (refl, refl, refl, refl),
  ),
)
set_port_cases e port none (some w) h = inl (
  refl,
  (
    record { in4 = none; in6 = some (record w { sin6_port = htons e (u16 port) }) },
    refl,
    ap done (port_twice e port h),
    (refl, refl, refl, refl),
  ),
)
set_port_cases e port none none h = inr (refl, refl, refl)

-- On an address that holds a family, setting a 16-bit port succeeds on hosts of either byte order,
-- `get_port` then returns that port, and hash, raw address, structure size and validity stay; on an
-- address with no family both methods abort.
pub get_port-set_port :
    (e : Endian) (a : IpAddress) (port : ℕ)
    → port < 65536
    → ((valid a ≡ true) × SetsPort e a port)
      ⊎ ((valid a ≡ false) × (set_port e a port ≡ aborted) × (get_port e a ≡ aborted))
get_port-set_port e a port h = set_port_cases e port a.in4 a.in6 h
