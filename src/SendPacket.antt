-- ===== src/SendPacket.antt =====
-- include/iuring/SendPacket.hpp: a packet under construction, in an array of 4096 bytes.
pub mod Contents
pub mod Fields
pub mod Clearing
use iuring.Prelude.{ℕ, ◌+◌, List, [], ◌∷◌, ltb, length, take, replicate, write}
use iuring.Outcome.{Outcome, done, ◌>>◌, assert}
use iuring.Endian.{Endian, bytes16, bytes32, htons, htonl}

-- `size` is m_size and `buf` is m_buf, which the constructor leaves uninitialised.
pub record SendPacket : Type 0 where
  pub size : ℕ
  pub buf : List ℕ

abbrev pub capacity : ℕ
capacity = 4096

-- The constructor: the array holds whatever the memory held.
abbrev pub fresh : List ℕ → SendPacket
fresh memory = record { size = 0; buf = memory }

-- `append(const uint8_t*, size_t)`.
unfoldable pub append : SendPacket → List ℕ → Outcome SendPacket
append p block = do
  assert (ltb (p.size + length block) (length p.buf))
  done (record p { size = p.size + length block; buf = write p.buf p.size block })

unfoldable pub append_byte : SendPacket → ℕ → Outcome SendPacket
append_byte p b = append p (b ∷ [])

-- The converted value is copied out of memory.
unfoldable pub append_uint16 : Endian → SendPacket → ℕ → Outcome SendPacket
append_uint16 e p v = let n = htons e v in append p (bytes16 e n)

unfoldable pub append_uint32 : Endian → SendPacket → ℕ → Outcome SendPacket
append_uint32 e p v = let n = htonl e v in append p (bytes32 e n)

-- `emplace_back<T>`: the object is built in place; `image` is what its constructor leaves there,
-- as long as `T`, after the memory was cleared.
unfoldable pub emplace_back : SendPacket → (List ℕ → List ℕ) → ℕ → Outcome SendPacket
emplace_back p image size_of = do
  assert (ltb (p.size + size_of) (length p.buf))
  let cleared = replicate size_of 0
  done (record p { size = p.size + size_of; buf = write p.buf p.size (image cleared) })

-- Only the bytes in use are cleared.
unfoldable pub reset : SendPacket → SendPacket
reset p = record p { size = 0; buf = write p.buf 0 (replicate p.size 0) }

-- The whole array is cleared.
unfoldable pub clean_proper : SendPacket → SendPacket
clean_proper p = record p { size = 0; buf = replicate (length p.buf) 0 }

-- `to_string`, and what `data()` and `size()` hand to a send.
unfoldable pub to_string : SendPacket → List ℕ
to_string p = take p.size p.buf
