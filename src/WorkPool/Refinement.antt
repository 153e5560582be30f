-- ===== src/WorkPool/Refinement.antt =====
-- src/WorkPool.cpp: the pool against a finite map from identifiers to items.
use iuring.Prelude.{
  Option-cases, length-set, ℕ, ◌<◌, ◌≡◌, refl, ap, ◌∙◌, Option, none, some, List, [], ◌∷◌, ◌++◌,
  ◌==◌, if◌then◌else◌, arith, length, get_elem?, set, inl, inr, ◌≢◌, ◌⊎◌,
}
use iuring.Outcome.{done, aborted, undefined}
use iuring.Socket.{Socket}
use iuring.WorkItem.{WorkItem, Memory, make, in_use}
use iuring.WorkPool.{WorkPool, internal_alloc_work_item, get_work_item, free_work_item, put}
use iuring.WorkPool.Slots.{
  slot_within, slot_beyond, find, IsValid, get_elem?-set, get_elem?-append_one, get_elem?-length,
  get_elem?-within, top_empty,
}

-- The map with one entry changed.
abbrev pub update : (ℕ → Option WorkItem) → ℕ → Option WorkItem → ℕ → Option WorkItem
update f i o j = if i == j then o else f j

abbrev pub Allocates : WorkPool → WorkItem → WorkPool → Type 0
Allocates p w q =
    IsValid q × (find p w.id ≡ none) × ((j : ℕ) → find q j ≡ update (find p) w.id (some w) j)

grown_valid :
    (m : Memory) (items : List (Option WorkItem)) (s : Socket) (descr : List ℕ)
    → IsValid (record { items = items; free_ids = [] })
    → let w = make m (length items) descr s in
      Allocates
        (record { items = items; free_ids = [] })
        w
        (record { items = items ++ some w ∷ []; free_ids = [] })
unfolding find make
grown_valid m items s descr v = (
  record {
    free_once = λ i. ground (arith, v.free_once i, get_elem?-append_one items i (some w));
    named = λ i x e. ground (arith, v.named i x, get_elem?-append_one items i (some w));
  },
  ground (arith, get_elem?-length items),
  λ j. ground (arith, get_elem?-append_one items j (some w)),
)
  where
    w : WorkItem
    w = make m (length items) descr s

reused_valid :
    (m : Memory) (items : List (Option WorkItem)) (id : ℕ) (rest : List ℕ) (s : Socket)
    (descr : List ℕ)
    → IsValid (record { items = items; free_ids = id ∷ rest })
    → let w = make m id descr s in
      Allocates
        (record { items = items; free_ids = id ∷ rest })
        w
        (record { items = set items id (some w); free_ids = rest })
unfolding find make
reused_valid m items id rest s descr v =
    let vacant = top_empty (record { items = items; free_ids = id ∷ rest }) id rest v refl in
    let within = get_elem?-within items id vacant in
    (
      record {
        free_once = λ i. ground (arith, v.free_once i, get_elem?-set items id i (some w) within);
        named = λ i x e. ground (arith, v.named i x, get_elem?-set items id i (some w) within);
      },
      ground (arith, vacant),
      λ j. ground (arith, get_elem?-set items id j (some w) within),
    )
  where
    w : WorkItem
    w = make m id descr s

-- Allocation on a valid pool never fails: it yields an item in use with an identifier that had no
-- item, adds exactly that entry to the map, and keeps the pool valid.
pub internal_alloc-Allocates :
    (m : Memory) (p : WorkPool) (s : Socket) (descr : List ℕ)
    → IsValid p
    → let (w, q) = internal_alloc_work_item m p s descr in Allocates p w q
internal_alloc-Allocates m p s descr v = go p.items p.free_ids v
  where
    go :
        (items : List (Option WorkItem)) (free_ids : List ℕ)
        → let p : WorkPool = record { items = items; free_ids = free_ids } in
          IsValid p → let (w, q) = internal_alloc_work_item m p s descr in Allocates p w q
    go items [] v = unfold internal_alloc_work_item in grown_valid m items s descr v
    go items (id ∷ rest) v =
        unfold internal_alloc_work_item in reused_valid m items id rest s descr v

pub found_item :
    (p : WorkPool) (id : ℕ) (w : WorkItem)
    → find p id ≡ some w
    → get_elem? p.items id ≡ some (some w)
unfolding find
found_item p id w e = ground arith

order : (a b : ℕ) → (a < b) ⊎ (a ≡ b) ⊎ (b < a)
order a b = grind arith

pub get_known :
    (p : WorkPool) (id : ℕ)
    → IsValid p
    → id < length p.items
    → get_work_item p id ≡ done (find p id)
unfolding get_work_item find
get_known p id v h =
    let (o, e) = slot_within p.items id h in
    elim (Option-cases o) [
      | inl n ↦ ground arith
      | inr (w, n) ↦ let named = v.named id w (e ∙ ap some n) in ground arith
    ]

-- On a valid pool `get_work_item` is the map's lookup for an identifier that was ever handed out.
-- The one past the last is let through by the assertion, and is undefined; beyond it the call
-- aborts.
pub get_work_item-find :
    (p : WorkPool) (id : ℕ)
    → IsValid p
    → ((id < length p.items) × (get_work_item p id ≡ done (find p id)))
      ⊎ ((id ≡ length p.items) × (get_work_item p id ≡ undefined))
      ⊎ ((length p.items < id) × (get_work_item p id ≡ aborted))
get_work_item-find p id v = elim (order id (length p.items)) [
  | inl l ↦ inl (l, get_known p id v l)
  | inr (inl e) ↦ inr (inl (e, unfold get_work_item in ground (arith, slot_beyond p.items id)))
  | inr (inr g) ↦ inr (inr (g, unfold get_work_item in ground arith))
]

abbrev pub freed : WorkPool → ℕ → WorkPool
freed p id = record { items = set p.items id none; free_ids = id ∷ p.free_ids }

freed_eq :
    (p : WorkPool) (id : ℕ) (w : WorkItem)
    → IsValid p
    → find p id ≡ some w
    → free_work_item p id ≡ done (freed p id)
unfolding free_work_item
freed_eq p id w v e =
    let held = found_item p id w e in
    let named = v.named id w held in ground (arith, get_elem?-within p.items id held)

pub freed-IsValid :
    (p : WorkPool) (id : ℕ) (w : WorkItem) → IsValid p → find p id ≡ some w → IsValid (freed p id)
freed-IsValid p id w v e =
    let held = found_item p id w e in
    let within = get_elem?-within p.items id held in
    record {
      free_once = λ i. ground (arith, v.free_once i, get_elem?-set p.items id i none within);
      named = λ i x f. ground (arith, v.named i x, get_elem?-set p.items id i none within);
    }

free_absent :
    (p : WorkPool) (id : ℕ) → find p id ≡ none → id < length p.items → free_work_item p id ≡ aborted
unfolding free_work_item find
free_absent p id e h = let (o, f) = slot_within p.items id h in ground arith

pub find-freed :
    (p : WorkPool) (id : ℕ) (w : WorkItem)
    → find p id ≡ some w
    → (j : ℕ) → find (freed p id) j ≡ update (find p) id none j
unfolding find
find-freed p id w e j =
    let within = get_elem?-within p.items id (unfold find in found_item p id w e) in
    ground (arith, get_elem?-set p.items id j none within)

-- What a successful call tells.
pub free_work_item-eq-done :
    (p q : WorkPool) (id : ℕ)
    → free_work_item p id ≡ done q
    → (w : WorkItem) × (find p id ≡ some w) × (q ≡ freed p id)
free_work_item-eq-done p q id e = elim (Option-cases (find p id)) [
  | inl n ↦ absurd (unfold free_work_item find in ground arith)
  | inr (w, n) ↦ (w, n, unfold free_work_item find in ground arith)
]

pub free_held :
    (p : WorkPool) (id : ℕ) (w : WorkItem)
    → IsValid p
    → find p id ≡ some w
    → (q : WorkPool) × (free_work_item p id ≡ done q)
      × IsValid q
      × ((j : ℕ) → find q j ≡ update (find p) id none j)
      × (free_work_item q id ≡ aborted)
free_held p id w v e = (
  freed p id,
  freed_eq p id w v e,
  freed-IsValid p id w v e,
  find-freed p id w e,
  free_absent (freed p id) id (find-freed p id w e id ∙ ground arith) (
      omega (arith, length-set p.items id none, get_elem?-within p.items id (found_item p id w e))),
)

-- On a valid pool, for an identifier that was ever handed out, `free_work_item` removes exactly its
-- entry, keeps the pool valid, and aborts when called once more; it aborts if there is no entry.
pub free_work_item-find :
    (p : WorkPool) (id : ℕ)
    → IsValid p
    → id < length p.items
    → ((find p id ≢ none)
        × ((q : WorkPool) × (free_work_item p id ≡ done q)
            × IsValid q
            × ((j : ℕ) → find q j ≡ update (find p) id none j)
            × (free_work_item q id ≡ aborted)))
      ⊎ ((find p id ≡ none) × (free_work_item p id ≡ aborted))
free_work_item-find p id v h = elim (Option-cases (find p id)) [
  | inl n ↦ inr (n, free_absent p id n h)
  | inr (w, e) ↦ inl ((λ n. cc), free_held p id w v e)
]

-- Storing an item in use back under its identifier changes that entry only, and keeps a pool valid.
pub put-find :
    (p : WorkPool) (w old : WorkItem)
    → IsValid p
    → find p w.id ≡ some old
    → w.state ≡ in_use
    → IsValid (put p w) × ((j : ℕ) → find (put p w) j ≡ update (find p) w.id (some w) j)
unfolding put find
put-find p w old v e s =
    let within = get_elem?-within p.items w.id (found_item p w.id old e) in
    let held = found_item p w.id old e in
    (
      record {
        free_once =
            λ i. ground (arith, v.free_once i, get_elem?-set p.items w.id i (some w) within);
        named = λ i x f. ground (arith, v.named i x, get_elem?-set p.items w.id i (some w) within);
      },
      λ j. ground (arith, get_elem?-set p.items w.id j (some w) within),
    )

pub get_work_item-eq-done :
    (p : WorkPool) (id : ℕ) (o : Option WorkItem) → get_work_item p id ≡ done o → o ≡ find p id
unfolding get_work_item find
get_work_item-eq-done p id o h = ground arith

-- An item of the map lies under its own identifier and is in use.
pub find-named :
    (p : WorkPool) (id : ℕ) (w : WorkItem)
    → IsValid p
    → find p id ≡ some w
    → (w.id ≡ id) × (w.state ≡ in_use)
find-named p id w v e = v.named id w (found_item p id w e)
