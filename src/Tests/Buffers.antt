-- ===== src/Tests/Buffers.antt =====
-- Examples of src/IOUring.cpp: the buffers of a ring set up at the address 4096.
use iuring.Outcome.{ok, done, Error}
use iuring.Completion.Int.{ℤ, pos, magnitude}
use iuring.Prelude.{suc, ◌≢◌, inl, ◌≡◌, refl, some, List, [], Option, map, ℕ, true}
use iuring.IoUring.State.{IoUring}
use iuring.IoUring.Buffers.{setup_buffer_pool, init, init_ring}
use iuring.Probe.{
  UringFeature, ProbeOp, tag, new, supports, add_features, contains, convert_uring_op_to_feature,
  first_case, probe_features,
}
use iuring.Probe.Reported.{needed, all_reported, tag-injective}
use iuring.IoUring.Starting.{Shared, init-Shared}
use iuring.Tests.Rings.{same_ring, Kernel, lib, view, start}

-- A kernel with the seven operations.
abbrev supported : UringFeature → ProbeOp
supported f = record { op = tag f; flags = 1 }

abbrev pub list : List ProbeOp
list = map supported needed

-- Each errno is an error of its own.
abbrev pub errors : ℤ → Error
errors z = Error.other (magnitude z)

pub errors_not_ok : (n : ℕ) → errors (pos (suc n)) ≢ ok
errors_not_ok n h = absurd (cc)

abbrev queue_init : ℕ → Option Kernel
queue_init size = some start.ring

abbrev set_up : IoUring Kernel
set_up = record (setup_buffer_pool lib errors (some 4096) (pos 0) start).0 { initialized = true }

queue_ring : (k : Kernel) → queue_init 64 ≡ some k → k.published ≡ []
queue_ring k made = same_ring start.ring k made

initialised :
    init lib tag queue_init 64 (some list) errors (some 4096) (pos 0) start ≡ done (set_up, ok)
unfolding init init_ring probe_features new supports add_features contains
    convert_uring_op_to_feature first_case tag setup_buffer_pool
initialised = refl

init-Shared_example :
    ((ops : List ProbeOp) × (some list ≡ some ops) × (all_reported tag ops needed ≡ true))
    × Shared lib view errors (some 4096) (pos 0) set_up ok 700
    × (set_up.initialized ≡ true)
init-Shared_example =
    init-Shared lib view tag tag-injective queue_init 64 (some list) errors (some 4096) (pos 0)
      start set_up ok 700 errors_not_ok (inl refl) queue_ring refl initialised
