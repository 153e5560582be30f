-- ===== src/SendPacket/Contents.antt =====
-- include/iuring/SendPacket.hpp: what the appending methods put into a packet, and when they fit.
use iuring.Prelude.{
  ℕ, ◌+◌, ◌<◌, ◌≡◌, refl, List, ◌++◌, arith, lt→ltb, length, write, length-write, take-write,
}
use iuring.Outcome.{done}
use iuring.SendPacket.{SendPacket, capacity, append, to_string}

-- The array has its fixed length, and the size stays inside it.
pub record IsValid (p : SendPacket) : Type 0 where
  pub whole : length p.buf ≡ capacity
  pub within : p.size < capacity

abbrev pub appended : SendPacket → List ℕ → SendPacket
appended p block = record p { size = p.size + length block; buf = write p.buf p.size block }

pub append_fits :
    (p : SendPacket) (block : List ℕ)
    → p.size + length block < length p.buf
    → append p block ≡ done (appended p block)
unfolding append
append_fits p block h = rw (lt→ltb _ _ h)

pub appended-IsValid :
    (p : SendPacket) (block : List ℕ)
    → IsValid p
    → p.size + length block < capacity
    → IsValid (appended p block)
appended-IsValid p block v h = record {
  whole = omega (arith, length-write p.buf p.size block, v.whole);
  within = h;
}

pub to_string-appended :
    (p : SendPacket) (block : List ℕ)
    → IsValid p
    → to_string (appended p block) ≡ to_string p ++ block
unfolding to_string
to_string-appended p block v =
    take-write p.buf p.size (p.size + length block) block (omega (arith, v.whole, v.within)) refl
