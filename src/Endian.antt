-- ===== src/Endian.antt =====
-- The byte order of the host, and the conversions of <arpa/inet.h> that depend on it. A value is a
-- native number; its bytes in memory are a list, lowest address first.
use iuring.Prelude.{ap, ◌∙◌, ℕ, ◌+◌, ◌*◌, ◌/◌, ◌%◌, ◌<◌, ◌≡◌, List, [], ◌∷◌, arith}

pub data Endian : Type 0 where
  little big : Endian

-- `uint16_t` and `uint32_t` arithmetic wraps.
abbrev pub u16 : ℕ → ℕ
u16 n = n % 65536

abbrev pub u32 : ℕ → ℕ
u32 n = n % 4294967296

-- The bytes of a `uint16_t` as `memcpy` sees them.
unfoldable pub bytes16 : Endian → ℕ → List ℕ
bytes16 little v = (v % 256) ∷ (v / 256 % 256) ∷ []
bytes16 big v = (v / 256 % 256) ∷ (v % 256) ∷ []

unfoldable pub bytes32 : Endian → ℕ → List ℕ
bytes32 little v = (v % 256) ∷ (v / 256 % 256) ∷ (v / 65536 % 256) ∷ (v / 16777216 % 256) ∷ []
bytes32 big v = (v / 16777216 % 256) ∷ (v / 65536 % 256) ∷ (v / 256 % 256) ∷ (v % 256) ∷ []

-- `htons` and `ntohs` are one function, and so are `htonl` and `ntohl`.
unfoldable pub htons : Endian → ℕ → ℕ
htons little v = v % 256 * 256 + v / 256 % 256
htons big v = u16 v

unfoldable pub htonl : Endian → ℕ → ℕ
htonl little v =
    v % 256 * 16777216 + v / 256 % 256 * 65536 + v / 65536 % 256 * 256 + v / 16777216 % 256
htonl big v = u32 v

-- Converting twice gives the value back.
pub htons-htons : (e : Endian) (v : ℕ) → htons e (htons e v) ≡ u16 v
unfolding htons
htons-htons little v = omega arith
htons-htons big v = omega arith

pub htons-lt : (e : Endian) (v : ℕ) → htons e v < 65536
unfolding htons
htons-lt little v = omega arith
htons-lt big v = omega arith

-- The same with the conversions to `uint16_t` that a parameter and a field make.
pub htons_twice : (e : Endian) (v : ℕ) → htons e (u16 (htons e (u16 v))) ≡ u16 v
htons_twice e v =
    let small : u16 (htons e (u16 v)) ≡ htons e (u16 v) = omega (arith, htons-lt e (u16 v)) in
    ap (htons e) small ∙ htons-htons e (u16 v) ∙ omega arith

-- A converted value lies in memory with its most significant byte first, on every host.
pub bytes16-htons : (e : Endian) (v : ℕ) → bytes16 e (htons e v) ≡ bytes16 big v
unfolding bytes16 htons
bytes16-htons little v = ground arith
bytes16-htons big v = ground arith

pub bytes32-htonl : (e : Endian) (v : ℕ) → bytes32 e (htonl e v) ≡ bytes32 big v
unfolding bytes32 htonl
bytes32-htonl little v = ground arith
bytes32-htonl big v = ground arith
