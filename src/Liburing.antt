-- ===== src/Liburing.antt =====
-- What src/IOUring.cpp calls of liburing and of the kernel behind it. None of it is in the
-- repository: `Liburing` is a parameter, over a type `K` of the library's own state. The entries
-- and completions that are passed are those of <liburing.h>, as far as the code fills and reads
-- them.
use iuring.Prelude.{ℕ, ◌/◌, ◌%◌, ◌==◌, Bool, Option, List}
use iuring.Completion.Int.{ℤ}
use iuring.WorkItem.{Msghdr}

-- What an `io_uring_prep_...` function is called with.
pub data Op : Type 0 where
  close : ℕ → Op
  -- descriptor, flags
  accept : ℕ → ℕ → Op
  -- descriptor, bytes of the address, their number
  connect : ℕ → List ℕ → ℕ → Op
  -- descriptor, length, flags, with no buffer of its own
  recv : ℕ → ℕ → ℕ → Op
  recvmsg_multishot : ℕ → Msghdr → ℕ → Op
  -- descriptor, bytes, flags
  send : ℕ → List ℕ → ℕ → Op
  sendmsg : ℕ → Msghdr → ℕ → Op

-- A submission entry: the two flags are IOSQE_IO_LINK and IOSQE_BUFFER_SELECT.
pub record Sqe : Type 0 where
  pub user_data : ℕ
  pub op : Op
  pub io_link : Bool
  pub buffer_select : Bool
  pub buf_group : ℕ

-- A completion entry.
pub record Cqe : Type 0 where
  pub user_data : ℕ
  pub res : ℤ
  pub flags : ℕ

-- IORING_CQE_F_BUFFER is bit 0, IORING_CQE_F_MORE is bit 1; the buffer's number is in the upper
-- half.
abbrev pub has_buffer : Cqe → Bool
has_buffer c = c.flags % 2 == 1

abbrev pub has_more : Cqe → Bool
has_more c = c.flags / 2 % 2 == 1

abbrev pub buffer_index : Cqe → ℕ
buffer_index c = c.flags / 65536

-- `io_uring_recvmsg_out` and what its accessors return.
pub record RecvmsgOut : Type 0 where
  pub namelen : ℕ
  pub flags : ℕ
  pub name : List ℕ
  pub payload : List ℕ

pub data Peek : Type 0 where
  found : Cqe → Peek
  again : Peek
  failed : Peek

pub record Liburing (K : Type 0) : Type 0 where
  -- `io_uring_get_sqe`; none is the null pointer of a full queue.
  pub get_sqe : K → Option K
  -- Filling the entry that was handed out last.
  pub prep : K → Sqe → K
  -- `io_uring_submit`; its result is only logged.
  pub submit : K → K
  pub peek_cqe : K → K × Peek
  pub cq_advance : K → K
  -- `io_uring_buf_ring_add` of an address, a length, a number and an offset; `..._advance`.
  pub buf_ring_add : K → ℕ → ℕ → ℕ → ℕ → K
  pub buf_ring_advance : K → ℕ → K
  -- The memory at an address, as long as the given length.
  pub read_memory : K → ℕ → ℕ → List ℕ
  -- `io_uring_recvmsg_validate` of the buffer at an address, with its payload and name.
  pub recvmsg_validate : K → ℕ → ℕ → Msghdr → Option RecvmsgOut
  -- What the kernel has written into a work item's m_buffer_for_uring and m_accept_sock_len.
  pub accepted_address : K → ℕ → List ℕ → List ℕ × ℕ
