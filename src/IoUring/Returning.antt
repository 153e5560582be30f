-- ===== src/IoUring/Returning.antt =====
-- src/IOUring.cpp: what the requests of a handler leave of the item that was completed.
use iuring.Prelude.{ℕ, ◌≡◌, ◌∷◌, some}
use iuring.Outcome.{done}
use iuring.WorkItem.{Memory, WorkItem}
use iuring.WorkPool.Slots.{find}
use iuring.Endian.{Endian}
use iuring.Liburing.{Liburing}
use iuring.WorkPool.{WorkPool}
use iuring.Completion.{Client, Call}
use iuring.IoUring.State.{IoUring}
use iuring.IoUring.Invariant.{IsTyped}
use iuring.IoUring.Requests.{perform_all}
use iuring.IoUring.Adding.{perform_all-Extends}

module _ {K : Type 0} (e : Endian) (lib : Liburing K) (memory : WorkPool → Memory)
    (client : Client) where
  -- What the requests of a handler leave behind for its own item.
  pub still_held :
      (s s1 : IoUring K) (call : Call) (id : ℕ) (w : WorkItem)
      → IsTyped s.pool
      → find s.pool id ≡ some w
      → perform_all e lib memory
          (record s { calls = call ∷ s.calls })
          (client (call ∷ s.calls)).requests
        ≡ done s1
      → (find s1.pool id ≡ some w) × IsTyped s1.pool × (s1.calls ≡ call ∷ s.calls)
  still_held s s1 call id w t held h =
      let (t', x, calls, base) = perform_all-Extends e lib memory _ s1 _ t h in
      (x id w held, t', calls)
