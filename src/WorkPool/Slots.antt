-- ===== src/WorkPool/Slots.antt =====
-- src/WorkPool.cpp: when the stack of free identifiers and the slots agree.
use iuring.Prelude.{
  ◌≤◌, ℕ, zero, suc, ◌<◌, ◌≡◌, refl, Option, none, some, List, [], ◌∷◌, ◌++◌, ◌==◌, if◌then◌else◌,
  arith, length, get_elem?, set,
}
use iuring.WorkItem.{WorkItem, in_use}
use iuring.WorkPool.{WorkPool}

-- How often an identifier is on the stack.
abbrev pub count : ℕ → List ℕ → ℕ
count i [] = 0
count i (j ∷ js) = if j == i then suc (count i js) else count i js

-- 1 for an empty slot, 0 for an item and for a slot that does not exist.
abbrev pub empty_slot : Option (Option WorkItem) → ℕ
empty_slot none = 0
empty_slot (some none) = 1
empty_slot (some (some w)) = 0

-- The item of an identifier, as `get_work_item` returns it.
abbrev pub found : Option (Option WorkItem) → Option WorkItem
found none = none
found (some o) = o

unfoldable pub find : WorkPool → ℕ → Option WorkItem
find p i = found (get_elem? p.items i)

-- Each empty slot is on the stack exactly once and nothing else is; an item lies in the slot of its
-- identifier and is in use.
pub record IsValid (p : WorkPool) : Type 0 where
  pub free_once : (i : ℕ) → count i p.free_ids ≡ empty_slot (get_elem? p.items i)
  pub named :
      (i : ℕ) (w : WorkItem) → get_elem? p.items i ≡ some (some w) → (w.id ≡ i) × (w.state ≡ in_use)

-- Reading after a write and after an append, in one form each.
pub get_elem?-set {ℓ} :
    {A : Type ℓ} (xs : List A) (i j : ℕ) (v : A)
    → i < length xs
    → get_elem? (set xs i v) j ≡ (if i == j then some v else get_elem? xs j)
get_elem?-set [] i j v h = elim h [ ]
get_elem?-set (x ∷ xs) zero zero v h = refl
get_elem?-set (x ∷ xs) zero (suc j) v h = ground arith
get_elem?-set (x ∷ xs) (suc i) zero v h = ground arith
get_elem?-set (x ∷ xs) (suc i) (suc j) v h = ground (arith, get_elem?-set xs i j v)

pub get_elem?-append_one {ℓ} :
    {A : Type ℓ} (xs : List A) (j : ℕ) (v : A)
    → get_elem? (xs ++ v ∷ []) j ≡ (if length xs == j then some v else get_elem? xs j)
get_elem?-append_one [] zero v = refl
get_elem?-append_one [] (suc j) v = ground arith
get_elem?-append_one (x ∷ xs) zero v = ground arith
get_elem?-append_one (x ∷ xs) (suc j) v = ground (arith, get_elem?-append_one xs j v)

pub get_elem?-length {ℓ} : {A : Type ℓ} (xs : List A) → get_elem? xs (length xs) ≡ none
get_elem?-length [] = refl
get_elem?-length (x ∷ xs) = get_elem?-length xs

-- A slot that holds something lies within the vector.
pub get_elem?-within {ℓ} :
    {A : Type ℓ} (xs : List A) (i : ℕ) {a : A} → get_elem? xs i ≡ some a → i < length xs
get_elem?-within [] i h = absurd (cc)
get_elem?-within (x ∷ xs) zero h = omega arith
get_elem?-within (x ∷ xs) (suc i) h = omega (arith, get_elem?-within xs i h)

-- The identifier on top of the stack is that of an empty slot.
pub top_empty :
    (p : WorkPool) (id : ℕ) (rest : List ℕ)
    → IsValid p
    → p.free_ids ≡ id ∷ rest
    → get_elem? p.items id ≡ some none
top_empty p id rest v e = ground (arith, v.free_once id)

-- Where a slot exists, it is empty or holds an item.
pub slot_within {ℓ} :
    {A : Type ℓ} (xs : List A) (i : ℕ) → i < length xs → (a : A) × (get_elem? xs i ≡ some a)
slot_within [] i h = elim h [ ]
slot_within (x ∷ xs) zero h = (x, refl)
slot_within (x ∷ xs) (suc i) h = slot_within xs i (omega arith)

pub slot_beyond {ℓ} : {A : Type ℓ} (xs : List A) (i : ℕ) → length xs ≤ i → get_elem? xs i ≡ none
slot_beyond [] i h = refl
slot_beyond (x ∷ xs) zero h = absurd (omega arith)
slot_beyond (x ∷ xs) (suc i) h = slot_beyond xs i (omega arith)
