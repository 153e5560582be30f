-- ===== src/WorkPool/Growth.antt =====
-- src/WorkPool.hpp: "we are not allowed to shrink this using erase(), we therefore append only and
-- have m_free_ids to track free indices". How long the vector grows, against the most items ever
-- live at once.
use iuring.Prelude.{
  ◌⊎◌, inl, ℕ, zero, suc, ◌+◌, ◌≤◌, ◌≡◌, refl, ap, subst, Option, none, some, List, [], ◌∷◌, ◌++◌,
  arith, length, get_elem?, set, length-set, length-append,
}
use iuring.Outcome.{Outcome, done, ◌>>=◌, >>=-eq-done, done-injective}
use iuring.Socket.{Socket}
use iuring.WorkItem.{WorkItem, Memory, make}
use iuring.WorkPool.{WorkPool, empty, internal_alloc_work_item, free_work_item}
use iuring.WorkPool.Slots.{IsValid, top_empty}
use iuring.WorkPool.Refinement.{
  internal_alloc-Allocates, free_work_item-eq-done, freed-IsValid, found_item,
}
use Prim.Native.Nat.{max}

-- How many slots hold an item.
abbrev pub live : List (Option WorkItem) → ℕ
live [] = 0
live (none ∷ os) = live os
live (some w ∷ os) = suc (live os)

-- Calls of the pool, with the memory and arguments of an allocation.
pub data PoolCall : Type 0 where
  alloc : Memory → Socket → List ℕ → PoolCall
  release : ℕ → PoolCall

unfoldable pub call : WorkPool → PoolCall → Outcome WorkPool
call p (alloc m s descr) = done (internal_alloc_work_item m p s descr).1
call p (release id) = free_work_item p id

unfoldable pub run : WorkPool → List PoolCall → Outcome WorkPool
run p [] = done p
run p (c ∷ cs) = call p c >>= λ q. run q cs

-- The most items live at once, from the start through every call that is made.
unfoldable pub peak : WorkPool → List PoolCall → ℕ
peak p [] = live p.items
peak p (c ∷ cs) = max (live p.items) (elim (call p c) [ done q ↦ peak q cs | _ ↦ 0 ])

live-append :
    (os : List (Option WorkItem)) (w : WorkItem) → live (os ++ some w ∷ []) ≡ suc (live os)
live-append [] w = refl
live-append (none ∷ os) w = live-append os w
live-append (some x ∷ os) w = ap suc (live-append os w)

live-fill :
    (os : List (Option WorkItem)) (i : ℕ) (w : WorkItem)
    → get_elem? os i ≡ some none
    → live (set os i (some w)) ≡ suc (live os)
live-fill [] i w h = absurd (cc)
live-fill (none ∷ os) zero w h = refl
live-fill (some x ∷ os) zero w h = absurd (cc)
live-fill (none ∷ os) (suc i) w h = live-fill os i w h
live-fill (some x ∷ os) (suc i) w h = ap suc (live-fill os i w h)

live-vacate :
    (os : List (Option WorkItem)) (i : ℕ) {w : WorkItem}
    → get_elem? os i ≡ some (some w)
    → suc (live (set os i none)) ≡ live os
live-vacate [] i h = absurd (cc)
live-vacate (none ∷ os) zero h = absurd (cc)
live-vacate (some x ∷ os) zero h = refl
live-vacate (none ∷ os) (suc i) h = live-vacate os i h
live-vacate (some x ∷ os) (suc i) h = ap suc (live-vacate os i h)

-- Every slot is live or on the stack.
pub record IsTight (p : WorkPool) : Type 0 where
  pub valid : IsValid p
  pub exact : length p.items ≡ live p.items + length p.free_ids

abbrev Grows : WorkPool → WorkPool → Type 0
Grows p q =
    (live q.items ≡ suc (live p.items))
    × ((length q.items ≡ length p.items) ⊎ (length q.items ≡ live q.items))
    × (length p.items ≤ length q.items)

alloc-exact :
    (m : Memory) (s : Socket) (descr : List ℕ) (p : WorkPool)
    → IsTight p
    → let q = (internal_alloc_work_item m p s descr).1 in
      (length q.items ≡ live q.items + length q.free_ids) × Grows p q
alloc-exact m s descr p t = go p.items p.free_ids t
  where
    go :
        (items : List (Option WorkItem)) (free_ids : List ℕ)
        → let p : WorkPool = record { items = items; free_ids = free_ids } in
          IsTight p
          → let q = (internal_alloc_work_item m p s descr).1 in
            (length q.items ≡ live q.items + length q.free_ids) × Grows p q
    go items [] t =
        let w = make m (length items) descr s in
        unfold internal_alloc_work_item in
        ground (arith, t.exact, live-append items w, length-append items (some w ∷ []))
    go items (id ∷ rest) t =
        let w = make m id descr s in
        let vacant =
          top_empty (record { items = items; free_ids = id ∷ rest }) id rest t.valid refl in
        unfold internal_alloc_work_item in
        ground (arith, t.exact, live-fill items id w vacant, length-set items id (some w))

alloc-IsTight :
    (m : Memory) (s : Socket) (descr : List ℕ) (p : WorkPool)
    → IsTight p
    → let q = (internal_alloc_work_item m p s descr).1 in IsTight q × Grows p q
alloc-IsTight m s descr p t =
    let (e, g) = alloc-exact m s descr p t in
    (record { valid = (internal_alloc-Allocates m p s descr t.valid).0; exact = e }, g)

release-exact :
    (p q : WorkPool) (id : ℕ)
    → IsTight p
    → free_work_item p id ≡ done q
    → (length q.items ≡ live q.items + length q.free_ids) × (length q.items ≡ length p.items)
release-exact p q id t e =
    let (w, held, eq) = free_work_item-eq-done p q id e in
    rw eq (
      omega (
        arith,
        t.exact,
        live-vacate p.items id (found_item p id w held),
        length-set p.items id none,
      ),
      length-set p.items id none,
    )

release-IsTight :
    (p q : WorkPool) (id : ℕ)
    → IsTight p
    → free_work_item p id ≡ done q
    → IsTight q × (length q.items ≡ length p.items)
release-IsTight p q id t e =
    let (exact, same) = release-exact p q id t e in
    let (w, held, eq) = free_work_item-eq-done p q id e in
    (record { valid = rw eq (freed-IsValid p id w t.valid held); exact = exact }, same)

live-le-peak : (p : WorkPool) (cs : List PoolCall) → live p.items ≤ peak p cs
unfolding peak
live-le-peak p [] = omega arith
live-le-peak p (c ∷ cs) = omega arith

pub empty-IsTight : IsTight empty
empty-IsTight = record {
  valid = record { free_once = λ i. refl; named = λ i w e. absurd (cc) };
  exact = omega arith;
}

call-IsTight :
    (c : PoolCall) (p q : WorkPool)
    → IsTight p
    → call p c ≡ done q
    → IsTight q
      × ((length q.items ≡ length p.items) ⊎ (length q.items ≡ live q.items))
      × (length p.items ≤ length q.items)
unfolding call
call-IsTight (alloc m s descr) p q t e =
    let (tight, grows) = alloc-IsTight m s descr p t in
    subst
      (λ r.
        IsTight r
        × ((length r.items ≡ length p.items) ⊎ (length r.items ≡ live r.items))
        × (length p.items ≤ length r.items))
      (done-injective _ q e) (tight, grows.1, grows.2)
call-IsTight (release id) p q t e =
    let (tight, same) = release-IsTight p q id t e in (tight, inl same, omega arith)

-- From a tight pool, a run of calls that all succeed ends with a tight pool whose vector is as long
-- as it was or as the most items ever live at once, whichever is more: it never grows while an
-- identifier is free.
pub run-peak :
    (p q : WorkPool) (cs : List PoolCall)
    → IsTight p
    → run p cs ≡ done q
    → IsTight q × (length q.items ≡ max (length p.items) (peak p cs))
unfolding run peak
run-peak p q [] t e =
    subst (λ r. IsTight r × (length r.items ≡ max (length p.items) (live p.items)))
      (done-injective p q e) (t, omega (arith, t.exact))
run-peak p q (c ∷ cs) t e =
    let (r, first, rest) = >>=-eq-done (call p c) (λ r. run r cs) e in
    let (tight, grows, mono) = call-IsTight c p r t first in
    let (tight', ih) = run-peak r q cs tight rest in
    (tight', rw first (omega (arith, t.exact, tight.exact, live-le-peak r cs)))
