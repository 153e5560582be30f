-- ===== src/Tests/Pools.antt =====
-- Examples of src/WorkPool.cpp: a pool with one item, and what calls make of it.
use iuring.WorkPool.Slots.{IsValid, find}
use Prim.Native.Nat.{max}
use iuring.Prelude.{ℕ, ◌≡◌, refl, ◌<◌, List, length, ◌∷◌, codes, arith, [], ◌≢◌, ◌⊎◌, none}
use iuring.Outcome.{done, aborted, undefined}
use iuring.WorkPool.{WorkPool, empty, internal_alloc_work_item, get_work_item, free_work_item}
use iuring.WorkPool.Growth.{
  alloc, PoolCall, run, IsTight, peak, call, release, empty-IsTight, run-peak,
}
use iuring.Tests.Rings.{after, memory, socket}
use iuring.WorkPool.Refinement.{
  Allocates, internal_alloc-Allocates, get_work_item-find, update, free_work_item-find,
}
use iuring.WorkItem.{make, mark_is_free}

abbrev call_alloc : PoolCall
call_alloc = alloc (memory empty) socket (codes "job")

abbrev one : WorkPool
one = (internal_alloc_work_item (memory empty) empty socket (codes "job")).1

one-IsValid : IsValid one
one-IsValid =
    (internal_alloc-Allocates (memory empty) empty socket (codes "job") (empty-IsTight).valid).0

in_one : 0 < length one.items
unfolding internal_alloc_work_item
in_one = omega arith

internal_alloc-Allocates_example :
    Allocates one
      (internal_alloc_work_item (memory one) one socket (codes "job")).0
      (internal_alloc_work_item (memory one) one socket (codes "job")).1
internal_alloc-Allocates_example =
    internal_alloc-Allocates (memory one) one socket (codes "job") one-IsValid

get_work_item-find_example :
    ((0 < length one.items) × (get_work_item one 0 ≡ done (find one 0)))
    ⊎ ((0 ≡ length one.items) × (get_work_item one 0 ≡ undefined))
    ⊎ ((length one.items < 0) × (get_work_item one 0 ≡ aborted))
get_work_item-find_example = get_work_item-find one 0 one-IsValid

free_work_item-find_example :
    ((find one 0 ≢ none)
      × ((q : WorkPool) × (free_work_item one 0 ≡ done q)
          × IsValid q
          × ((j : ℕ) → find q j ≡ update (find one) 0 none j)
          × (free_work_item q 0 ≡ aborted)))
    ⊎ ((find one 0 ≡ none) × (free_work_item one 0 ≡ aborted))
free_work_item-find_example = free_work_item-find one 0 one-IsValid in_one

abbrev some_calls : List PoolCall
some_calls = call_alloc ∷ call_alloc ∷ release 0 ∷ call_alloc ∷ release 1 ∷ []

abbrev last : WorkPool
last = after empty (run empty some_calls)

some_calls-ok : run empty some_calls ≡ done last
unfolding run call internal_alloc_work_item make free_work_item mark_is_free
some_calls-ok = refl

some_calls-peak : peak empty some_calls ≡ 2
unfolding peak call internal_alloc_work_item make free_work_item mark_is_free
some_calls-peak = refl

run-peak_example :
    IsTight last × (length last.items ≡ max (length empty.items) (peak empty some_calls))
run-peak_example = run-peak empty last some_calls empty-IsTight some_calls-ok
