-- ===== src/Resolver/Waiting.antt =====
-- src/IOUring.cpp: the handlers that are stored while a lookup runs, up to its end.
use iuring.Prelude.{
  same_text, ℕ, ◌≡◌, ◌≢◌, refl, ap, true, false, Option, none, some, List, [], ◌∷◌, ◌++◌, ◌⊎◌, inl,
  inr, arith, Bool-cases, All,
}
use iuring.Outcome.{Expected, value, unexpected, hostname_resolve_failed}
use iuring.Endian.{Endian}
use iuring.IpAddress.{IpAddress}
use iuring.IpAddress.Layout.{SockaddrIn, SockaddrIn6}
use iuring.IpAddress.Text.{Inet, parse}
use iuring.Resolver.{
  AddrInfo, RequestInfo, Resolver, ResolveArg, add_handler, start_lookup, resolve_hostname, notify,
  trigger_hostname_resolve_callbacks, is_for, cons_some, request_after, called, result_of,
}
use iuring.Resolver.Runs.{Event, asks, ends, step, run, asked, resolved}
use mathlib.Core.List.{Memᴰ}
use mathlib.Core.List.Memᴰ

-- The first request of this name waits for the lookup at the pointer.
abbrev pub IsWaiting : List ℕ → ℕ → List RequestInfo → Type 0
IsWaiting name ptr [] = ⊥
IsWaiting name ptr (r ∷ rs) =
    ((same_text r.hostname name ≡ true) × (is_for ptr r.request ≡ true))
    ⊎ ((same_text r.hostname name ≡ false) × IsWaiting name ptr rs)

-- A request that waits for the lookup at the pointer has the handler.
abbrev pub Stores : ℕ → ℕ → List RequestInfo → Type 0
Stores ptr h [] = ⊥
Stores ptr h (r ∷ rs) = ((is_for ptr r.request ≡ true) × Memᴰ h r.handlers) ⊎ Stores ptr h rs

-- Not the end with addresses of the lookup at the pointer.
abbrev pub Spares : ℕ → Event → Type 0
Spares ptr (asks name handler new) = Unit {0}
Spares ptr (ends p none) = Unit {0}
Spares ptr (ends p (some infos)) = p ≢ ptr

abbrev StoredIn : ℕ → ℕ → Option (List RequestInfo) → Type 0
StoredIn ptr h none = Unit {0}
StoredIn ptr h (some rs) = Stores ptr h rs

cons_some-first :
    (ptr h : ℕ) (r : RequestInfo) (x : Option (List RequestInfo))
    → (is_for ptr r.request ≡ true) × Memᴰ h r.handlers
    → StoredIn ptr h (cons_some r x)
cons_some-first ptr h r none here = tt
cons_some-first ptr h r (some rs) here = inl here

cons_some-rest :
    (ptr h : ℕ) (r : RequestInfo) (x : Option (List RequestInfo))
    → StoredIn ptr h x
    → StoredIn ptr h (cons_some r x)
cons_some-rest ptr h r none there = tt
cons_some-rest ptr h r (some rs) there = inr there

add_handler-keeps :
    (name : List ℕ) (ptr h k : ℕ) (rs : List RequestInfo)
    → Stores ptr h rs
    → StoredIn ptr h (add_handler name k rs)
unfolding add_handler
add_handler-keeps name ptr h k [] st = absurd st
add_handler-keeps name ptr h k (r ∷ rs) st = elim (Bool-cases (same_text r.hostname name)) [
  | inl same ↦
      rw same
        (elim st [ inl (waits, m) ↦ inl (waits, Memᴰ.append_left _ m) | inr there ↦ inr there ])
  | inr other ↦ rw other (elim st [
    | inl here ↦ cons_some-first ptr h r _ here
    | inr there ↦ cons_some-rest ptr h r _ (add_handler-keeps name ptr h k rs there)
  ])
]

add_handler-Stores :
    (name : List ℕ) (ptr h : ℕ) (rs : List RequestInfo)
    → IsWaiting name ptr rs
    → (qs : List RequestInfo) × (add_handler name h rs ≡ some qs) × Stores ptr h qs
unfolding add_handler
add_handler-Stores name ptr h [] w = absurd w
add_handler-Stores name ptr h (r ∷ rs) (inl (same, waits)) = (
  record r { handlers = r.handlers ++ h ∷ [] } ∷ rs,
  rw same refl,
  inl (waits, Memᴰ.append_right r.handlers (Memᴰ.head refl)),
)
add_handler-Stores name ptr h (r ∷ rs) (inr (other, w)) =
    let (qs, added, st) = add_handler-Stores name ptr h rs w in
    (r ∷ qs, rw (other, added) refl, inr st)

Stores-append : (ptr h : ℕ) (rs qs : List RequestInfo) → Stores ptr h rs → Stores ptr h (rs ++ qs)
Stores-append ptr h [] qs st = absurd st
Stores-append ptr h (r ∷ rs) qs (inl here) = inl here
Stores-append ptr h (r ∷ rs) qs (inr there) = inr (Stores-append ptr h rs qs there)

asked-Stores :
    (x : Option (List RequestInfo)) (name : List ℕ) (ptr h new : ℕ) (s : Resolver)
    → StoredIn ptr h x
    → Stores ptr h s.requests
    → Stores ptr h (asked x name new s).requests
unfolding start_lookup
asked-Stores (some qs) name ptr h new s kept st = kept
asked-Stores none name ptr h new s kept st = Stores-append ptr h s.requests _ st

resolved-Stores :
    (v : Expected IpAddress) (name : List ℕ) (ptr h k new : ℕ) (s : Resolver)
    → Stores ptr h s.requests
    → Stores ptr h (resolved v name k new s).requests
resolved-Stores (value addr) name ptr h k new s st = st
resolved-Stores (unexpected err) name ptr h k new s st =
    asked-Stores _ name ptr h new s (add_handler-keeps name ptr h k s.requests st) st

still_waits :
    (ptr p : ℕ) (result : Option (List AddrInfo)) (q : Option ℕ)
    → Spares ptr (ends p result)
    → is_for ptr q ≡ true
    → is_for p q ≡ true
    → is_for ptr (request_after result q) ≡ true
still_waits ptr p none q spares waits ended = waits
still_waits ptr p (some infos) none spares waits ended = absurd (cc)
still_waits ptr p (some infos) (some x) spares waits ended = absurd (ground arith)

notify-Stores :
    (e : Endian) (ptr p h : ℕ) (result : Option (List AddrInfo)) (rs : List RequestInfo)
    → Spares ptr (ends p result)
    → Stores ptr h rs
    → Stores ptr h (notify e p result rs).0
unfolding notify
notify-Stores e ptr p h result [] spares st = absurd st
notify-Stores e ptr p h result (r ∷ rs) spares st = elim (Bool-cases (is_for p r.request)) [
  | inl ended ↦ rw ended (elim st [
    | inl (waits, m) ↦ inl (still_waits ptr p result r.request spares waits ended, m)
    | inr there ↦ inr (notify-Stores e ptr p h result rs spares there)
  ])
  | inr other ↦ rw other (elim st [
    | inl here ↦ inl here
    | inr there ↦ inr (notify-Stores e ptr p h result rs spares there)
  ])
]

called-Mem : (arg : ResolveArg) (h : ℕ) (hs : List ℕ) → Memᴰ h hs → Memᴰ (h, arg) (called arg hs)
called-Mem arg h [] m = absurd (Memᴰ.not-nil m)
called-Mem arg h (k ∷ hs) (Memᴰ.head is) = Memᴰ.head (ap (λ (x : ℕ). (x, arg)) is)
called-Mem arg h (k ∷ hs) (Memᴰ.tail m) = Memᴰ.tail (called-Mem arg h hs m)

notify-calls :
    (e : Endian) (ptr h : ℕ) (result : Option (List AddrInfo)) (rs : List RequestInfo)
    → Stores ptr h rs
    → Memᴰ (h, result_of e result) (notify e ptr result rs).1
unfolding notify
notify-calls e ptr h result [] st = absurd st
notify-calls e ptr h result (r ∷ rs) (inl (waits, m)) =
    rw waits (Memᴰ.append_left _ (called-Mem (result_of e result) h r.handlers m))
notify-calls e ptr h result (r ∷ rs) (inr there) =
    let rest = notify-calls e ptr h result rs there in
    elim (Bool-cases (is_for ptr r.request)) [
      | inl ended ↦ rw ended (Memᴰ.append_right _ rest)
      | inr other ↦ rw other rest
    ]

module _ (e : Endian) (inet : Inet) (stack4 : SockaddrIn) (stack6 : SockaddrIn6) where
  step-Stores :
      (x : Event) (s : Resolver) (ptr h : ℕ)
      → Spares ptr x
      → Stores ptr h s.requests
      → Stores ptr h (step e inet stack4 stack6 x s).requests
  unfolding step resolve_hostname trigger_hostname_resolve_callbacks
  step-Stores (asks name k new) s ptr h spares st =
      resolved-Stores (parse inet stack4 stack6 name) name ptr h k new s st
  step-Stores (ends p result) s ptr h spares st =
      notify-Stores e ptr p h result s.requests spares st

  run-Stores :
      (xs : List Event) (s : Resolver) (ptr h : ℕ)
      → All (Spares ptr) xs
      → Stores ptr h s.requests
      → Stores ptr h (run e inet stack4 stack6 xs s).requests
  unfolding run
  run-Stores [] s ptr h spares st = st
  run-Stores (x ∷ xs) s ptr h spares st =
      run-Stores xs _ ptr h spares.1 (step-Stores x s ptr h spares.0 st)

  -- A handler that asks for a name, which is no address, while the first request of the name waits
  -- for a lookup is heard: whatever requests and ends of lookups follow, but for an end of this
  -- lookup with addresses, the next end of this lookup calls the handler, with the converted
  -- addresses or with an error.
  pub waiting_request_heard :
      (s : Resolver) (name : List ℕ) (handler ptr new : ℕ) (xs : List Event)
      (result : Option (List AddrInfo))
      → parse inet stack4 stack6 name ≡ unexpected hostname_resolve_failed
      → IsWaiting name ptr s.requests
      → All (Spares ptr) xs
      → let s1 =
          run e inet stack4 stack6 xs (resolve_hostname inet stack4 stack6 name handler new s) in
        (calls : List (ℕ × ResolveArg)) × ((trigger_hostname_resolve_callbacks e ptr result
            s1).resolved
          ≡ s1.resolved ++ calls)
        × Memᴰ (handler, result_of e result) calls
  unfolding resolve_hostname trigger_hostname_resolve_callbacks
  waiting_request_heard s name handler ptr new xs result p w spares =
      let (qs, added, st) = add_handler-Stores name ptr handler s.requests w in
      let is : resolve_hostname inet stack4 stack6 name handler new s ≡ record s { requests = qs } =
        ground (arith, p, added) in
      let last = run-Stores xs (record s { requests = qs }) ptr handler spares st in
      rw is (_, refl, notify-calls e ptr handler result _ last)
