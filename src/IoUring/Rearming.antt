-- ===== src/IoUring/Rearming.antt =====
-- src/IOUring.cpp: a work item that is submitted again after its completion.
use iuring.Prelude.{ℕ, ◌≡◌, refl, ap, ◌∙◌, arith, some, Option}
use iuring.Outcome.{done}
use iuring.Endian.{Endian}
use iuring.Completion.{Client}
use iuring.WorkItem.{WorkItem, Memory}
use iuring.WorkPool.{WorkPool, put}
use iuring.WorkPool.Slots.{IsValid, find}
use iuring.WorkPool.Refinement.{update, put-find, find-named}
use iuring.Liburing.{Liburing, Sqe}
use iuring.IoUring.State.{IoUring}
use iuring.IoUring.Submission.{submit, prepare, get_sqe}
use iuring.IoUring.Poll.{submit_again}
use iuring.IoUring.Entries.{SameItem, prepare-SameItem}

module _ {K : Type 0} (e : Endian) (lib : Liburing K) (memory : WorkPool → Memory)
    (client : Client) where
  -- `w` has gone to the kernel again, from the ring `k`, with the entry that its type asks for.
  abbrev pub Rearms : WorkItem → K → Option WorkItem → K → Type 0
  Rearms w k o k' =
      (w' : WorkItem) × (sqe : Sqe) × (k1 : K) × (o ≡ some w')
      × SameItem w w'
      × (prepare e w ≡ done (w', sqe))
      × (lib.get_sqe k ≡ some k1)
      × (k' ≡ lib.submit (lib.prep k1 sqe))

  submit_ready :
      (k k1 : K) (w w' : WorkItem) (sqe : Sqe)
      → lib.get_sqe k ≡ some k1
      → prepare e w ≡ done (w', sqe)
      → submit e lib w k ≡ done (w', lib.submit (lib.prep k1 sqe))
  unfolding submit get_sqe
  submit_ready k k1 w w' sqe room prepared = rw (submit, get_sqe, room, prepared) refl

  -- A version `w` of the item in the slot is submitted again, where the queue has room.
  pub rearmed :
      (s : IoUring K) (x w w' : WorkItem) (sqe : Sqe) (id : ℕ) (k1 : K)
      → IsValid s.pool
      → find s.pool id ≡ some x
      → w.id ≡ x.id
      → w.state ≡ x.state
      → prepare e w ≡ done (w', sqe)
      → lib.get_sqe s.ring ≡ some k1
      → (s' : IoUring K) × (submit_again e lib memory client s w ≡ done s')
        × (s'.calls ≡ s.calls)
        × ((o : Option WorkItem) × Rearms w s.ring o s'.ring
            × ((j : ℕ) → find s'.pool j ≡ update (find s.pool) id o j))
  unfolding submit_again
  rearmed s x w w' sqe id k1 v held i st prepared room =
      let (same, tagged) = prepare-SameItem e w w' sqe prepared in
      let (named, used) = find-named s.pool id x v held in
      let here : w'.id ≡ id = same.same_id ∙ i ∙ named in
      let held' : find s.pool w'.id ≡ some x = ap (find s.pool) here ∙ held in
      let entries = (put-find s.pool w' x v held' (same.same_state ∙ st ∙ used)).1 in
      let sent = submit_ready s.ring k1 w w' sqe room prepared in
      (
        record s { ring = lib.submit (lib.prep k1 sqe); pool = put s.pool w' },
        rw sent refl,
        refl,
        (
          some w',
          (w', sqe, k1, refl, same, prepared, room, refl),
          λ j. ground (arith, entries j, here),
        ),
      )
