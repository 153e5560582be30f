-- ===== src/IoUring/Buffers.antt =====
-- src/IOUring.cpp: the receive buffers that the kernel picks from, `setup_buffer_pool`,
-- `recycle_buffer` and `get_buffer`, and `init`.
use iuring.Prelude.{ℕ, zero, suc, ◌+◌, ◌-◌, ◌*◌, ◌/◌, ◌^◌, true, Option, none, some, List, ◌∷◌}
use iuring.Outcome.{Outcome, done, aborted, ◌>>=◌, ◌>>◌, Error, ok, mmap_failed}
use iuring.Completion.Int.{ℤ, pos, negsuc, negate}
use iuring.Liburing.{Liburing}
use iuring.Probe.{UringFeature, ProbeOp, probe_features}
use iuring.IoUring.State.{IoUring, buffers, buffer_size, buf_shift}

-- `sizeof(io_uring_buf)`.
abbrev pub sizeof_buf : ℕ
sizeof_buf = 16

-- The size of the mapping: the ring's entries, then the buffers.
abbrev pub buf_ring_size : ℕ
buf_ring_size = (sizeof_buf + buffer_size) * buffers

unfoldable pub get_buffer : {K : Type 0} → IoUring K → ℕ → ℕ
get_buffer s idx = s.buffer_base + idx * 2 ^ buf_shift

-- The second loop pushes the numbers from i on.
unfoldable pub push_ids : List ℕ → ℕ → ℕ → List ℕ
push_ids ids i zero = ids
push_ids ids i (suc left) = push_ids (i ∷ ids) (suc i) left

module _ {K : Type 0} (lib : Liburing K) where
  -- The first loop: buffer i is added at offset i.
  unfoldable pub add_buffers : IoUring K → ℕ → ℕ → IoUring K
  add_buffers s i zero = s
  add_buffers s i (suc left) =
      add_buffers (record s { ring = lib.buf_ring_add s.ring (get_buffer s i) buffer_size i i })
        (suc i) left

  -- `mapped` is the result of `mmap`, and `registered` that of `io_uring_register_buf_ring`;
  -- `errno_to_error` is slogger's. The first half of the buffers goes to the kernel, the rest to the sends.
  unfoldable pub setup_buffer_pool : (ℤ → Error) → Option ℕ → ℤ → IoUring K → IoUring K × Error
  setup_buffer_pool errno_to_error none registered s = (s, mmap_failed)
  setup_buffer_pool errno_to_error (some mapped) (negsuc n) s =
      (record s { buffer_base = mapped + sizeof_buf * buffers }, errno_to_error (negate (negsuc n)))
  setup_buffer_pool errno_to_error (some mapped) (pos (suc n)) s = (
    record s { buffer_base = mapped + sizeof_buf * buffers },
    errno_to_error (negate (pos (suc n))),
  )
  setup_buffer_pool errno_to_error (some mapped) (pos zero) s =
      let s1 = add_buffers (record s { buffer_base = mapped + sizeof_buf * buffers }) 0 buffers in
      (
        record s1 {
          ring = lib.buf_ring_advance s1.ring (buffers / 2);
          free_send_ids = push_ids s1.free_send_ids (buffers / 2) (buffers - buffers / 2);
        },
        ok,
      )

  unfoldable pub recycle_buffer : IoUring K → ℕ → IoUring K
  recycle_buffer s idx =
      let k = lib.buf_ring_add s.ring (get_buffer s idx) buffer_size idx 0 in
      record s { ring = lib.buf_ring_advance k 1 }

  -- `init_ring`, with `io_uring_queue_init` of a queue size, none where it fails. The other branch
  -- of the function stands under `if (false)`.
  unfoldable pub init_ring : (ℕ → Option K) → ℕ → IoUring K → Outcome (IoUring K)
  init_ring queue_init queue_size s = elim (queue_init queue_size) [
    | some ring ↦ done (record s { ring = ring })
    | none ↦ aborted
  ]

  -- `init`. `probe` is the kernel's list of operations, by the numbers of <liburing.h>.
  unfoldable pub init :
      (UringFeature → ℕ)
      → (ℕ → Option K)
      → ℕ
      → Option (List ProbeOp)
      → (ℤ → Error)
      → Option ℕ
      → ℤ
      → IoUring K
      → Outcome (IoUring K × Error)
  unfolding init_ring
  init number queue_init queue_size probe errno_to_error mapped registered s = do
    s1 ← init_ring queue_init queue_size s
    probe_features number probe
    let (s2, e) = setup_buffer_pool errno_to_error mapped registered s1
    done (record s2 { initialized = true }, e)
