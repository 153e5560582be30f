-- ===== src/WorkPool.antt =====
-- src/WorkPool.hpp and src/WorkPool.cpp: the work items in flight, by the identifier that the ring
-- carries. Slots are never removed; a stack keeps the identifiers whose slot is empty.
pub mod Slots
pub mod Refinement
pub mod Growth
use iuring.Prelude.{ℕ, not, Option, none, some, List, [], ◌∷◌, ◌++◌, leb, length, get_elem?, set}
use iuring.Outcome.{Outcome, done, aborted, undefined, ◌>>=◌, ◌>>◌, assert}
use iuring.Endian.{Endian}
use iuring.IpAddress.{IpAddress}
use iuring.Socket.{Socket}
use iuring.WorkItem.{
  WorkItem, Memory, make, is_free, mark_is_free, submit_recv, submit_accept, submit_connect,
  submit_close,
}

-- m_work_items, and m_free_ids with its top first.
pub record WorkPool : Type 0 where
  pub items : List (Option WorkItem)
  pub free_ids : List ℕ

abbrev pub empty : WorkPool
empty = record { items = []; free_ids = [] }

-- `m_work_items[id]`: an index past the end is undefined.
abbrev pub slot : WorkPool → ℕ → Outcome (Option WorkItem)
slot p id = elim (get_elem? p.items id) [ some o ↦ done o | none ↦ undefined ]

-- The pointer that `get_work_item` returns, after its last assertion.
abbrev checked : Option WorkItem → Outcome (Option WorkItem)
checked none = done none
checked (some w) = do assert (not (is_free w)); done (some w)

unfoldable pub get_work_item : WorkPool → ℕ → Outcome (Option WorkItem)
get_work_item p id = do assert (leb id (length p.items)); w ← slot p id; checked w

abbrev not_null : Option WorkItem → Outcome WorkItem
not_null none = aborted
not_null (some w) = done w

unfoldable pub free_work_item : WorkPool → ℕ → Outcome WorkPool
unfolding mark_is_free
free_work_item p id = do
  assert (leb id (length p.items))
  o ← slot p id
  w ← not_null o
  assert (not (is_free w))
  w' ← mark_is_free w
  done (record { items = set p.items id none; free_ids = id ∷ p.free_ids })

-- The new object is in its slot when the function returns.
unfoldable pub internal_alloc_work_item : Memory → WorkPool → Socket → List ℕ → WorkItem × WorkPool
internal_alloc_work_item m p s descr = elim p.free_ids [
  | [] ↦ let w = make m (length p.items) descr s in (w, record p { items = p.items ++ some w ∷ [] })
  | id ∷ rest ↦
      let w = make m id descr s in (w, record { items = set p.items id (some w); free_ids = rest })
]

unfoldable pub alloc_send_work_item : Memory → WorkPool → Socket → List ℕ → WorkItem × WorkPool
alloc_send_work_item m p s descr = internal_alloc_work_item m p s descr

-- A work item is shared by its slot: what a method changes in it is changed there.
unfoldable pub put : WorkPool → WorkItem → WorkPool
put p w = record p { items = set p.items w.id (some w) }

-- The other methods submit the new item at once, through the interface of the ring.
module _ {R : Type 0} (submit : WorkItem → R → Outcome (WorkItem × R)) where
  unfoldable pub alloc_recv_work_item :
      Memory → WorkPool → R → Socket → ℕ → List ℕ → Outcome (WorkItem × WorkPool × R)
  alloc_recv_work_item m p r s cb descr = do
    let (w, p') = internal_alloc_work_item m p s descr
    (w', r') ← submit_recv submit w cb r
    done (w', put p' w', r')

  unfoldable pub alloc_accept_work_item :
      Memory → WorkPool → R → Socket → ℕ → List ℕ → Outcome (WorkItem × WorkPool × R)
  alloc_accept_work_item m p r s cb descr = do
    let (w, p') = internal_alloc_work_item m p s descr
    (w', r') ← submit_accept submit w cb r
    done (w', put p' w', r')

  unfoldable pub alloc_connect_work_item :
      Endian
      → Memory
      → WorkPool
      → R
      → IpAddress
      → Socket
      → ℕ
      → List ℕ
      → Outcome (WorkItem × WorkPool × R)
  alloc_connect_work_item e m p r target s cb descr = do
    let (w, p') = internal_alloc_work_item m p s descr
    (w', r') ← submit_connect submit e w target cb r
    done (w', put p' w', r')

  unfoldable pub alloc_close_work_item :
      Memory → WorkPool → R → Socket → ℕ → List ℕ → Outcome (WorkItem × WorkPool × R)
  alloc_close_work_item m p r s cb descr = do
    let (w, p') = internal_alloc_work_item m p s descr
    (w', r') ← submit_close submit w cb r
    done (w', put p' w', r')
