-- ===== src/IoUring/Invariant.antt =====
-- src/IOUring.cpp and src/WorkPool.cpp: the types and handlers of the pool's items, and what a
-- request does to the pool.
use iuring.Prelude.{
  ℕ, ◌≡◌, refl, Bool, true, false, Option, none, some, List, [], ◌∷◌, arith, ◌∙◌, ap,
}
use iuring.Socket.{Socket}
use iuring.WorkItem.{
  WorkItem, WorkType, in_use, Memory, make, Callback, connect_callback, accept_callback,
  recv_callback, send_callback, close_callback,
}
use iuring.WorkPool.{WorkPool, internal_alloc_work_item, put}
use iuring.WorkPool.Slots.{IsValid, find}
use iuring.WorkPool.Refinement.{
  freed, freed-IsValid, find-freed, internal_alloc-Allocates, update, put-find,
}

-- Which alternative of m_callback belongs to a type. A new item, of no type yet, has no handler.
abbrev pub matches : WorkType → Callback → Bool
matches WorkType.unknown cb = true
matches WorkType.accept (accept_callback h) = true
matches WorkType.send_stream_data (send_callback h) = true
matches WorkType.send_workpacket (send_callback h) = true
matches WorkType.recv (recv_callback h) = true
matches WorkType.connect (connect_callback h) = true
matches WorkType.close (close_callback h) = true
matches _ _ = false

-- The pool is valid, and each of its items holds a handler of its type.
pub record IsTyped (p : WorkPool) : Type 0 where
  pub valid : IsValid p
  pub typed : (i : ℕ) (w : WorkItem) → find p i ≡ some w → matches w.work_type w.callback ≡ true

-- Every item of the first pool is in the second, unchanged.
abbrev pub Extends : WorkPool → WorkPool → Type 0
Extends p q = (j : ℕ) (w : WorkItem) → find p j ≡ some w → find q j ≡ some w

pub Extends-trans : (p q r : WorkPool) → Extends p q → Extends q r → Extends p r
Extends-trans p q r f g j w h = g j w (f j w h)

pub alloc_made :
    (m : Memory) (p : WorkPool) (s : Socket) (descr : List ℕ)
    → let w = (internal_alloc_work_item m p s descr).0 in w ≡ make m w.id descr s
alloc_made m p s descr = go p.items p.free_ids
  where
    go :
        (items : List (Option WorkItem)) (ids : List ℕ)
        → let w =
            (internal_alloc_work_item m (record { items = items; free_ids = ids }) s descr).0 in
          w ≡ make m w.id descr s
    go items [] = unfold internal_alloc_work_item make in refl
    go items (id ∷ ids) = unfold internal_alloc_work_item make in refl

-- What an allocation and the storing of the submitted item do together.
pub record Adds (p q : WorkPool) (w : WorkItem) : Type 0 where
  pub keeps : IsTyped p → IsTyped q
  pub extends : IsTyped p → Extends p q
  pub fresh : IsTyped p → find p w.id ≡ none
  pub stored : IsTyped p → find q w.id ≡ some w
  pub only : IsTyped p → (j : ℕ) → find q j ≡ update (find p) w.id (some w) j

pub put-IsTyped :
    (p : WorkPool) (w old : WorkItem)
    → IsTyped p
    → find p w.id ≡ some old
    → w.state ≡ in_use
    → matches w.work_type w.callback ≡ true
    → IsTyped (put p w)
put-IsTyped p w old t held s m =
    let (valid, entries) = put-find p w old t.valid held s in
    record { valid = valid; typed = λ i x e. ground (arith, entries i, t.typed i x, m) }

module _ (m : Memory) (p : WorkPool) (s : Socket) (descr : List ℕ) where
  -- An allocated item, changed in whatever keeps its identifier and state, with the handler of its
  -- type, and stored.
  pub alloc_put :
      let (w, q) = internal_alloc_work_item m p s descr in
      (w1 : WorkItem)
      → w1.id ≡ w.id
      → w1.state ≡ w.state
      → matches w1.work_type w1.callback ≡ true
      → Adds p (put q w1) w1
  alloc_put w1 same_id same_state m1 = record {
    keeps = λ t. let (a, b, c) = allocated t in put-IsTyped q w1 w (typed_q t) (held t) state_eq m1;
    extends = λ t. extends t;
    fresh = λ t. rw same_id (allocated t).1;
    stored = λ t. ground (arith, (put-find q w1 w (allocated t).0 (held t) state_eq).1 w1.id);
    only = λ t j. ground (
      arith,
      (put-find q w1 w (allocated t).0 (held t) state_eq).1 j,
      (allocated t).2 j,
      same_id,
    );
  }
    where
      w : WorkItem
      w = (internal_alloc_work_item m p s descr).0

      q : WorkPool
      q = (internal_alloc_work_item m p s descr).1

      allocated :
          IsTyped p
          → IsValid q
            × (find p w.id ≡ none)
            × ((j : ℕ) → find q j ≡ update (find p) w.id (some w) j)
      allocated t = internal_alloc-Allocates m p s descr t.valid

      made : w ≡ make m w.id descr s
      made = alloc_made m p s descr

      state_eq : w1.state ≡ in_use
      state_eq = same_state ∙ ap (λ (x : WorkItem). x.state) made ∙ unfold make in refl

      unknown_eq : w.work_type ≡ WorkType.unknown
      unknown_eq = ap (λ (x : WorkItem). x.work_type) made ∙ unfold make in refl

      typed_q : IsTyped p → IsTyped q
      typed_q t = record {
        valid = (allocated t).0;
        typed = λ i x e. ground (arith, (allocated t).2 i, t.typed i x, unknown_eq);
      }

      held : IsTyped p → find q w1.id ≡ some w
      held t = ground (arith, (allocated t).2 w1.id, same_id)

      extends : IsTyped p → Extends p (put q w1)
      extends t j x e =
          let others = (put-find q w1 w (allocated t).0 (held t) state_eq).1 j in
          ground (arith, others, (allocated t).2 j, (allocated t).1, same_id)

pub freed-IsTyped :
    (p : WorkPool) (id : ℕ) (w : WorkItem) → IsTyped p → find p id ≡ some w → IsTyped (freed p id)
freed-IsTyped p id w t held = record {
  valid = freed-IsValid p id w t.valid held;
  typed = λ i x e. ground (arith, find-freed p id w held i, t.typed i x);
}

-- The entry of an item that was just stored.
pub find-put :
    (p : WorkPool) (w old : WorkItem) (id : ℕ)
    → IsValid p
    → find p id ≡ some old
    → w.id ≡ id
    → w.state ≡ in_use
    → find (put p w) id ≡ some w
find-put p w old id v held i s =
    let held' : find p w.id ≡ some old = rw i held in
    ground (arith, (put-find p w old v held' s).1 id, i)
