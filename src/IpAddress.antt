-- ===== src/IpAddress.antt =====
-- include/iuring/IPAddress.hpp and src/IPAddress.cpp: an IPv4 or IPv6 socket address. The children
-- hold the layout in memory (Layout), the text forms (Text) and the proofs.
pub mod Layout
pub mod Port
pub mod Order
pub mod Text
use iuring.Prelude.{
  ℕ, ◌+◌, ◌*◌, ◌/◌, ◌%◌, ◌^◌, Bool, true, false, ◌&&◌, ◌||◌, Option, none, some, List, ◌==◌, ltb,
  if◌then◌else◌,
}
use iuring.Outcome.{Outcome, done, aborted, ◌>>=◌, ◌>>◌, assert}
use iuring.Endian.{Endian, u16, bytes32, htons}
use Layout.{
  In6Addr, SockaddrIn, SockaddrIn6, sizeof_sockaddr_in, sizeof_sockaddr_in6, af_inet, af_inet6,
  bytes_of_sockaddr_in, bytes_of_sockaddr_in6, bytes_of_in6_addr, load_sockaddr_in,
  load_sockaddr_in6,
}
use Prim.Native.Nat.{bit_or}

-- m_in4 and m_in6.
pub record IpAddress : Type 0 where
  pub in4 : Option SockaddrIn
  pub in6 : Option SockaddrIn6

-- `IPAddress() = default`.
abbrev pub unset : IpAddress
unset = record { in4 = none; in6 = none }

abbrev pub of_sockaddr_in : SockaddrIn → IpAddress
of_sockaddr_in sa = record { in4 = some sa; in6 = none }

abbrev pub of_sockaddr_in6 : SockaddrIn6 → IpAddress
of_sockaddr_in6 sa = record { in4 = none; in6 = some sa }

-- `IPAddress(const in_addr&, SocketPortID)`. `stack` is the uninitialised local: the `memset` of
-- `sizeof(sa)` clears its first 4 bytes only, so that its padding stays.
unfoldable pub of_in_addr : Endian → SockaddrIn → ℕ → ℕ → IpAddress
of_in_addr e stack sa port =
    of_sockaddr_in
      (record stack { sin_family = af_inet; sin_port = htons e (u16 port); sin_addr = sa })

-- `IPAddress(const in6_addr&, SocketPortID)`. The `memset` clears 16 of the 28 bytes, among them
-- `sin6_flowinfo`; `sin6_scope_id` stays.
unfoldable pub of_in6_addr : Endian → SockaddrIn6 → In6Addr → ℕ → IpAddress
of_in6_addr e stack sa port = of_sockaddr_in6 (record stack {
  sin6_family = af_inet6;
  sin6_port = htons e (u16 port);
  sin6_flowinfo = 0;
  sin6_addr = sa;
})

-- `IPAddress(const sockaddr_storage&, socklen_t)`, with the two conditions as they stand.
unfoldable pub of_storage : Endian → List ℕ → ℕ → Outcome IpAddress
of_storage e storage len = do
  assert (len == sizeof_sockaddr_in || len == sizeof_sockaddr_in6)
  done (record {
    in4 = if len == sizeof_sockaddr_in then none else some (load_sockaddr_in e storage);
    in6 = if len == sizeof_sockaddr_in6 then none else some (load_sockaddr_in6 e storage);
  })

-- `get_ipv4()` and `get_ipv6()` give the field, or null. What most methods do is to try the one,
-- then the other, and to abort if both are null.
abbrev pub on_family {ℓ} :
    {A : Type ℓ} → IpAddress → (SockaddrIn → Outcome A) → (SockaddrIn6 → Outcome A) → Outcome A
on_family a f g = elim a.in4 [ some v ↦ f v | none ↦ elim a.in6 [ some w ↦ g w | none ↦ aborted ] ]

unfoldable pub set_port : Endian → IpAddress → ℕ → Outcome IpAddress
set_port e a port =
    on_family a (λ v. done (record a { in4 = some (record v { sin_port = htons e (u16 port) }) }))
      (λ w. done (record a { in6 = some (record w { sin6_port = htons e (u16 port) }) }))

unfoldable pub get_port : Endian → IpAddress → Outcome ℕ
get_port e a =
    on_family a (λ v. done (htons e (u16 v.sin_port))) (λ w. done (htons e (u16 w.sin6_port)))

unfoldable pub valid : IpAddress → Bool
valid a = elim a.in4 [ some _ ↦ true | none ↦ elim a.in6 [ some _ ↦ true | none ↦ false ] ]

-- The bytes behind the pointer that `data_sockaddr()` returns, `size_sockaddr()` of them.
unfoldable pub data_sockaddr : Endian → IpAddress → Outcome (List ℕ)
data_sockaddr e a =
    on_family a (λ v. done (bytes_of_sockaddr_in e v)) (λ w. done (bytes_of_sockaddr_in6 e w))

unfoldable pub size_sockaddr : IpAddress → Outcome ℕ
size_sockaddr a = on_family a (λ _. done sizeof_sockaddr_in) (λ _. done sizeof_sockaddr_in6)

unfoldable pub data_addr : Endian → IpAddress → Outcome (List ℕ)
data_addr e a =
    on_family a (λ v. done (bytes32 e v.sin_addr)) (λ w. done (bytes_of_in6_addr e w.sin6_addr))

unfoldable pub size_addr : IpAddress → Outcome ℕ
size_addr a = on_family a (λ _. done 4) (λ _. done 16)

-- `((uint64_t) a[i]) << 32`; the words are below 2 ^ 32, so nothing is shifted out.
abbrev pub shl32 : ℕ → ℕ
shl32 n = n * 2 ^ 32

unfoldable pub get_hash : IpAddress → Outcome ℕ
get_hash a =
    on_family a (λ v. done v.sin_addr)
      (λ w.
        let x = w.sin6_addr in
        done (bit_or (bit_or (bit_or x.word0 (shl32 x.word1)) x.word2) (shl32 x.word3)))

abbrev same_in4 : SockaddrIn → SockaddrIn → Bool
same_in4 v w = v.sin_port == w.sin_port && v.sin_addr == w.sin_addr && v.sin_family == w.sin_family

-- `memcmp` over the 16 bytes of two addresses is 0 exactly when their words agree.
abbrev same_in6_addr : In6Addr → In6Addr → Bool
same_in6_addr v w =
    v.word0 == w.word0 && v.word1 == w.word1 && v.word2 == w.word2 && v.word3 == w.word3

abbrev same_in6 : SockaddrIn6 → SockaddrIn6 → Bool
same_in6 v w =
    v.sin6_port == w.sin6_port
    && same_in6_addr v.sin6_addr w.sin6_addr
    && v.sin6_family == w.sin6_family

abbrev both {ℓ} : {A : Type ℓ} → Option A → Option A → (A → A → Bool) → Bool → Bool
both (some v) (some w) f other = f v w
both none _ f other = other
both (some v) none f other = other

-- `operator==`.
unfoldable pub equal : IpAddress → IpAddress → Bool
equal a b = both a.in4 b.in4 same_in4 (both a.in6 b.in6 same_in6 false)

-- `operator<`.
unfoldable pub less : IpAddress → IpAddress → Outcome Bool
less a b = do h ← get_hash a; k ← get_hash b; done (ltb h k)
