-- ===== src/Probe.antt =====
-- src/ProbeUringFeatures.hpp: which operations the kernel supports; enum UringFeature of
-- include/iuring/UringDefs.hpp, and `IOUring::probe_features`. The macro
-- SUPPORT_LISTEN_IN_LIBURING is defined nowhere, so the parts under it are left out.
pub mod Reported
use iuring.Prelude.{
  ℕ, ◌≡◌, Bool, true, false, ◌||◌, Option, none, some, List, [], ◌∷◌, ◌%◌, ◌==◌, if◌then◌else◌,
}
use iuring.Outcome.{Outcome, done, aborted, ◌>>=◌, ◌>>◌, assert}

pub data UringFeature : Type 0 where
  unknown nop readv writev fsync read_fixed write_fixed poll_add poll_remove sync_file_range sendmsg
        recvmsg timeout timeout_remove accept async_cancel link_timeout connect fallocate openat
        close files_update statx read write fadvise madvise send recv openat2 epoll_ctl splice
        provide_buffers remove_buffers tee shutdown renameat unlinkat mkdirat symlinkat linkat :
      UringFeature

-- The value of an enumerator, by which the map orders its keys.
unfoldable pub tag : UringFeature → ℕ
tag UringFeature.unknown = 0
tag UringFeature.nop = 1
tag UringFeature.readv = 2
tag UringFeature.writev = 3
tag UringFeature.fsync = 4
tag UringFeature.read_fixed = 5
tag UringFeature.write_fixed = 6
tag UringFeature.poll_add = 7
tag UringFeature.poll_remove = 8
tag UringFeature.sync_file_range = 9
tag UringFeature.sendmsg = 10
tag UringFeature.recvmsg = 11
tag UringFeature.timeout = 12
tag UringFeature.timeout_remove = 13
tag UringFeature.accept = 14
tag UringFeature.async_cancel = 15
tag UringFeature.link_timeout = 16
tag UringFeature.connect = 17
tag UringFeature.fallocate = 18
tag UringFeature.openat = 19
tag UringFeature.close = 20
tag UringFeature.files_update = 21
tag UringFeature.statx = 22
tag UringFeature.read = 23
tag UringFeature.write = 24
tag UringFeature.fadvise = 25
tag UringFeature.madvise = 26
tag UringFeature.send = 27
tag UringFeature.recv = 28
tag UringFeature.openat2 = 29
tag UringFeature.epoll_ctl = 30
tag UringFeature.splice = 31
tag UringFeature.provide_buffers = 32
tag UringFeature.remove_buffers = 33
tag UringFeature.tee = 34
tag UringFeature.shutdown = 35
tag UringFeature.renameat = 36
tag UringFeature.unlinkat = 37
tag UringFeature.mkdirat = 38
tag UringFeature.symlinkat = 39
tag UringFeature.linkat = 40

-- The cases of the `switch`, in its order. Each is labelled by the constant of its feature's name.
abbrev pub cases : List UringFeature
cases =
    UringFeature.nop ∷ UringFeature.readv ∷ UringFeature.writev ∷ UringFeature.fsync
    ∷ UringFeature.read_fixed ∷ UringFeature.write_fixed ∷ UringFeature.poll_add
    ∷ UringFeature.poll_remove ∷ UringFeature.sync_file_range ∷ UringFeature.sendmsg
    ∷ UringFeature.recvmsg ∷ UringFeature.timeout ∷ UringFeature.timeout_remove
    ∷ UringFeature.accept ∷ UringFeature.async_cancel ∷ UringFeature.link_timeout
    ∷ UringFeature.connect ∷ UringFeature.fallocate ∷ UringFeature.openat ∷ UringFeature.close
    ∷ UringFeature.files_update ∷ UringFeature.statx ∷ UringFeature.read ∷ UringFeature.write
    ∷ UringFeature.fadvise ∷ UringFeature.madvise ∷ UringFeature.send ∷ UringFeature.recv
    ∷ UringFeature.openat2 ∷ UringFeature.epoll_ctl ∷ UringFeature.splice
    ∷ UringFeature.provide_buffers ∷ UringFeature.remove_buffers ∷ UringFeature.tee
    ∷ UringFeature.shutdown ∷ UringFeature.renameat ∷ UringFeature.unlinkat ∷ UringFeature.mkdirat
    ∷ UringFeature.symlinkat ∷ UringFeature.linkat ∷ []

-- One entry of `io_uring_probe`.
pub record ProbeOp : Type 0 where
  pub op : ℕ
  pub flags : ℕ

-- IO_URING_OP_SUPPORTED is bit 0.
abbrev pub is_supported : ProbeOp → Bool
is_supported o = o.flags % 2 == 1

-- `std::map::contains`, on the keys of the map.
unfoldable pub contains : UringFeature → List UringFeature → Bool
contains f [] = false
contains f (g ∷ gs) = tag g == tag f || contains f gs

-- `number` has the values of the constants IORING_OP_... of <liburing.h>; that of `unknown` is not
-- used.
module _ (number : UringFeature → ℕ) where
  unfoldable pub first_case : List UringFeature → ℕ → UringFeature
  first_case [] op = UringFeature.unknown
  first_case (f ∷ fs) op = let rest = first_case fs op in if number f == op then f else rest

  unfoldable pub convert_uring_op_to_feature : ℕ → UringFeature
  convert_uring_op_to_feature op = first_case cases op

  -- The loop of the constructor: the keys of m_features.
  unfoldable pub add_features : List ProbeOp → List UringFeature
  add_features [] = []
  add_features (o ∷ os) =
      let rest = add_features os in
      if is_supported o then convert_uring_op_to_feature o.op ∷ rest else rest

  -- The constructor; `probe` is what `io_uring_get_probe_ring` returns.
  unfoldable pub new : Option (List ProbeOp) → Outcome (List UringFeature)
  new none = aborted
  new (some ops) = done (add_features ops)

  unfoldable pub supports : List UringFeature → UringFeature → Bool
  supports features f = contains f features

  -- `IOUring::probe_features`.
  unfoldable pub probe_features : Option (List ProbeOp) → Outcome (Unit {0})
  probe_features probe = do
    features ← new probe
    assert (supports features UringFeature.accept)
    assert (supports features UringFeature.recv)
    assert (supports features UringFeature.recvmsg)
    assert (supports features UringFeature.send)
    assert (supports features UringFeature.sendmsg)
    assert (supports features UringFeature.close)
    assert (supports features UringFeature.connect)
