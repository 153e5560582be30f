-- ===== src/IoUring/State.antt =====
-- src/IOUring.hpp: the members of IOUring that requests and completions use, and its constants. The
-- members of hostname resolution are in Resolver.
use iuring.Prelude.{ℕ, ◌*◌, ◌^◌, Bool, false, List, []}
use iuring.WorkPool.{WorkPool, empty}
use iuring.Completion.{Call}

-- `calls` is no member: it lists the calls of handlers made so far, newest first.
pub record IoUring (K : Type 0) : Type 0 where
  pub initialized : Bool
  pub ring : K
  pub buffer_base : ℕ
  pub free_send_ids : List ℕ
  pub pool : WorkPool
  pub calls : List Call

abbrev pub qd : ℕ
qd = 64

abbrev pub buf_shift : ℕ
buf_shift = 12

abbrev pub buffers : ℕ
buffers = qd * 16

abbrev pub buffer_size : ℕ
buffer_size = 2 ^ buf_shift

-- The constructor.
abbrev pub new : {K : Type 0} → K → IoUring K
new ring = record {
  initialized = false;
  ring = ring;
  buffer_base = 0;
  free_send_ids = [];
  pool = empty;
  calls = [];
}
