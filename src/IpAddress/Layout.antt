-- ===== src/IpAddress/Layout.antt =====
-- The address structures of <netinet/in.h> that IPAddress.hpp reinterprets, and their bytes in
-- memory. `load` is a read through a cast pointer.
use iuring.Prelude.{ℕ, ◌+◌, ◌*◌, ◌<◌, ◌≡◌, List, ◌++◌, get_or, arith}
use iuring.Endian.{Endian, little, big, bytes16, bytes32}

abbrev pub af_inet : ℕ
af_inet = 2

abbrev pub af_inet6 : ℕ
af_inet6 = 10

-- `sin_port` is the stored value, `sin_addr` the word `s_addr`, `sin_zero` the padding as two
-- words.
pub record SockaddrIn : Type 0 where
  pub sin_family : ℕ
  pub sin_port : ℕ
  pub sin_addr : ℕ
  pub sin_zero0 : ℕ
  pub sin_zero1 : ℕ

-- `struct in6_addr`, by its four words `__u6_addr32`.
pub record In6Addr : Type 0 where
  pub word0 : ℕ
  pub word1 : ℕ
  pub word2 : ℕ
  pub word3 : ℕ

pub record SockaddrIn6 : Type 0 where
  pub sin6_family : ℕ
  pub sin6_port : ℕ
  pub sin6_flowinfo : ℕ
  pub sin6_addr : In6Addr
  pub sin6_scope_id : ℕ

abbrev pub sizeof_sockaddr_in : ℕ
sizeof_sockaddr_in = 16

abbrev pub sizeof_sockaddr_in6 : ℕ
sizeof_sockaddr_in6 = 28

abbrev pub sizeof_sockaddr_storage : ℕ
sizeof_sockaddr_storage = 128

unfoldable pub bytes_of_sockaddr_in : Endian → SockaddrIn → List ℕ
bytes_of_sockaddr_in e v =
    bytes16 e v.sin_family
    ++ (bytes16 e v.sin_port
        ++ (bytes32 e v.sin_addr ++ (bytes32 e v.sin_zero0 ++ bytes32 e v.sin_zero1)))

unfoldable pub bytes_of_in6_addr : Endian → In6Addr → List ℕ
bytes_of_in6_addr e a =
    bytes32 e a.word0 ++ (bytes32 e a.word1 ++ (bytes32 e a.word2 ++ bytes32 e a.word3))

unfoldable pub bytes_of_sockaddr_in6 : Endian → SockaddrIn6 → List ℕ
bytes_of_sockaddr_in6 e v =
    bytes16 e v.sin6_family
    ++ (bytes16 e v.sin6_port
        ++ (bytes32 e v.sin6_flowinfo
            ++ (bytes_of_in6_addr e v.sin6_addr ++ bytes32 e v.sin6_scope_id)))

unfoldable pub load16 : Endian → List ℕ → ℕ → ℕ
load16 little m i = get_or m i 0 + get_or m (i + 1) 0 * 256
load16 big m i = get_or m i 0 * 256 + get_or m (i + 1) 0

unfoldable pub load32 : Endian → List ℕ → ℕ → ℕ
load32 little m i =
    get_or m i 0
    + get_or m (i + 1) 0 * 256
    + get_or m (i + 2) 0 * 65536
    + get_or m (i + 3) 0 * 16777216
load32 big m i =
    get_or m i 0 * 16777216
    + get_or m (i + 1) 0 * 65536
    + get_or m (i + 2) 0 * 256
    + get_or m (i + 3) 0

unfoldable pub load_sockaddr_in : Endian → List ℕ → SockaddrIn
load_sockaddr_in e m = record {
  sin_family = load16 e m 0;
  sin_port = load16 e m 2;
  sin_addr = load32 e m 4;
  sin_zero0 = load32 e m 8;
  sin_zero1 = load32 e m 12;
}

unfoldable pub load_sockaddr_in6 : Endian → List ℕ → SockaddrIn6
load_sockaddr_in6 e m = record {
  sin6_family = load16 e m 0;
  sin6_port = load16 e m 2;
  sin6_flowinfo = load32 e m 4;
  sin6_addr = record {
    word0 = load32 e m 8;
    word1 = load32 e m 12;
    word2 = load32 e m 16;
    word3 = load32 e m 20;
  };
  sin6_scope_id = load32 e m 24;
}

-- The fields hold values of their types.
pub record IsSockaddrIn (v : SockaddrIn) : Type 0 where
  pub family_fits : v.sin_family < 65536
  pub port_fits : v.sin_port < 65536
  pub addr_fits : v.sin_addr < 4294967296
  pub zero0_fits : v.sin_zero0 < 4294967296
  pub zero1_fits : v.sin_zero1 < 4294967296

-- Reading back the bytes of an IPv4 socket address, with anything behind them.
pub load-bytes_of_sockaddr_in :
    (e : Endian) (v : SockaddrIn) (rest : List ℕ)
    → IsSockaddrIn v
    → load_sockaddr_in e (bytes_of_sockaddr_in e v ++ rest) ≡ v
unfolding load_sockaddr_in bytes_of_sockaddr_in load16 load32 bytes16 bytes32
load-bytes_of_sockaddr_in little v rest h = ground arith
load-bytes_of_sockaddr_in big v rest h = ground arith
