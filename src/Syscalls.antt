-- ===== src/Syscalls.antt =====
-- The system calls of src/SocketImpl.cpp. The kernel is a parameter: its answer to a call may
-- depend on all the calls before. A run is a list of calls, newest first.
use iuring.Prelude.{ℕ, List, ◌∷◌, Bool, false, ◌==◌, ◌≡◌, inl, arith, inr}
use iuring.Outcome.{Outcome, done, aborted, undefined, assert, Outcome-cases}
use iuring.Completion.Int.{ℤ, pos, negsuc}

-- SOCK_STREAM and SOCK_DGRAM.
pub data SockKind : Type 0 where
  stream dgram : SockKind

-- A level of `setsockopt` with an option of it: SO_REUSEADDR and SO_REUSEPORT of SOL_SOCKET, the
-- others of IPPROTO_IP.
pub data SockOption : Type 0 where
  reuse_addr reuse_port : SockOption
  multicast_ttl multicast_if multicast_loop add_membership drop_membership : SockOption

-- `struct ip_mreq`, by the words of its two addresses.
pub record Mreq : Type 0 where
  pub multiaddr : ℕ
  pub interface : ℕ

pub data OptionValue : Type 0 where
  int : ℕ → OptionValue
  mreq : Mreq → OptionValue

pub data Syscall : Type 0 where
  -- address family, kind
  socket : ℕ → SockKind → Syscall
  setsockopt : ℕ → SockOption → OptionValue → Syscall
  -- descriptor, bytes of the address
  bind : ℕ → List ℕ → Syscall
  listen : ℕ → ℕ → Syscall
  getsockname : ℕ → Syscall

abbrev pub Kernel : Type 0
Kernel = List Syscall → ℤ

-- Code that makes system calls.
abbrev pub Sys : Type 0 → Type 0
Sys A = List Syscall → Outcome (A × List Syscall)

infixl 5 ◌>>=◌ ◌>>◌
abbrev pub ◌>>=◌ : {A B : Type 0} → Sys A → (A → Sys B) → Sys B
◌>>=◌ m f t = elim (m t) [ done (a, t') ↦ f a t' | aborted ↦ aborted | undefined ↦ undefined ]

abbrev pub ◌>>◌ : {B : Type 0} → Sys (Unit {0}) → Sys B → Sys B
m >> k = m >>= λ _. k

abbrev pub pure : {A : Type 0} → A → Sys A
pure a t = done (a, t)

-- Code that makes none.
abbrev pub lift : {A : Type 0} → Outcome A → Sys A
lift (done a) t = done (a, t)
lift aborted t = aborted
lift undefined t = undefined

-- Code that ends the process where a test fails: by `assert`, `abort()` or `exit(1)`.
abbrev pub require : Bool → Sys (Unit {0})
require b = lift (assert b)

abbrev pub ask : Kernel → Syscall → Sys ℤ
ask kernel c t = done (kernel (c ∷ t), c ∷ t)

-- Tests of a result.
abbrev pub is_zero : ℤ → Bool
is_zero (pos n) = n == 0
is_zero (negsuc n) = false

-- Inversion of a chain that returns.
pub >>=-eq-done :
    {A B : Type 0} (m : Sys A) (f : A → Sys B) (t : List Syscall) {r : B × List Syscall}
    → (m >>= f) t ≡ done r
    → (a : A) × (t' : List Syscall) × (m t ≡ done (a, t')) × (f a t' ≡ done r)
>>=-eq-done m f t h = elim (Outcome-cases (m t)) [
  | inl ((a, t'), ends) ↦ (a, t', ends, ground arith)
  | inr (inl fails) ↦ absurd (ground arith)
  | inr (inr fails) ↦ absurd (ground arith)
]
