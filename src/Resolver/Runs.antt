-- ===== src/Resolver/Runs.antt =====
-- src/IOUring.cpp: whole runs of `resolve_hostname` and of the notifications that end lookups.
use iuring.Prelude.{
  same_text, ℕ, ◌≡◌, refl, ap, ◌∙◌, true, false, Option, none, some, List, [], ◌∷◌, ◌++◌, ◌⊎◌, inl,
  inr, arith, Bool-cases,
}
use iuring.Outcome.{Expected, value, unexpected, hostname_resolve_failed}
use iuring.IpAddress.{IpAddress}
use iuring.Endian.{Endian}
use iuring.IpAddress.Layout.{SockaddrIn, SockaddrIn6}
use iuring.IpAddress.Text.{Inet, parse}
use iuring.Resolver.{
  AddrInfo, RequestInfo, Resolver, ResolveArg, add_handler, start_lookup, resolve_hostname, notify,
  trigger_hostname_resolve_callbacks, is_for, cons_some, request_after, called, result_of,
}

-- A call of `resolve_hostname`, with the pointer of a new request, or the end of a lookup.
pub data Event : Type 0 where
  asks : List ℕ → ℕ → ℕ → Event
  ends : ℕ → Option (List AddrInfo) → Event

-- The first request of this name has had its addresses.
abbrev pub IsOver : List ℕ → List RequestInfo → Type 0
IsOver name [] = ⊥
IsOver name (r ∷ rs) =
    ((same_text r.hostname name ≡ true) × (r.request ≡ none))
    ⊎ ((same_text r.hostname name ≡ false) × IsOver name rs)

-- The same requests, but for the handlers of those that are over.
abbrev Alike : List RequestInfo → List RequestInfo → Type 0
Alike [] [] = Unit {0}
Alike [] (q ∷ qs) = ⊥
Alike (r ∷ rs) [] = ⊥
Alike (r ∷ rs) (q ∷ qs) =
    (r.hostname ≡ q.hostname)
    × (r.request ≡ q.request)
    × ((r.handlers ≡ q.handlers) ⊎ (q.request ≡ none))
    × Alike rs qs

Alike-refl : (rs : List RequestInfo) → Alike rs rs
Alike-refl [] = tt
Alike-refl (r ∷ rs) = (refl, refl, inl refl, Alike-refl rs)

Alike-append : (rs qs xs : List RequestInfo) → Alike rs qs → Alike (rs ++ xs) (qs ++ xs)
Alike-append [] [] xs a = Alike-refl xs
Alike-append [] (q ∷ qs) xs a = absurd a
Alike-append (r ∷ rs) [] xs a = absurd a
Alike-append (r ∷ rs) (q ∷ qs) xs (n, p, h, a) = (n, p, h, Alike-append rs qs xs a)

abbrev BothAlike : Option (List RequestInfo) → Option (List RequestInfo) → Type 0
BothAlike none none = Unit {0}
BothAlike (some rs) (some qs) = Alike rs qs
BothAlike _ _ = ⊥

cons_some-Alike :
    (r q : RequestInfo) (x y : Option (List RequestInfo))
    → r.hostname ≡ q.hostname
    → r.request ≡ q.request
    → (r.handlers ≡ q.handlers) ⊎ (q.request ≡ none)
    → BothAlike x y
    → BothAlike (cons_some r x) (cons_some q y)
cons_some-Alike r q none none n p hs b = tt
cons_some-Alike r q (some rs) (some qs) n p hs b = (n, p, hs, b)
cons_some-Alike r q none (some qs) n p hs b = absurd b
cons_some-Alike r q (some rs) none n p hs b = absurd b

add_handler-Alike :
    (name : List ℕ) (h : ℕ) (rs qs : List RequestInfo)
    → Alike rs qs
    → BothAlike (add_handler name h rs) (add_handler name h qs)
unfolding add_handler
add_handler-Alike name h [] [] a = tt
add_handler-Alike name h [] (q ∷ qs) a = absurd a
add_handler-Alike name h (r ∷ rs) [] a = absurd a
add_handler-Alike name h (r ∷ rs) (q ∷ qs) (n, p, hs, a) =
    let as_q : same_text r.hostname name ≡ same_text q.hostname name =
      ap (λ (t : List ℕ). same_text t name) n in
    elim (Bool-cases (same_text q.hostname name)) [
      | inl same ↦
          rw (as_q ∙ same, same)
            (
              n,
              p,
              elim hs [
                | inl equal ↦ inl (ap (λ (x : List ℕ). x ++ h ∷ []) equal)
                | inr over ↦ inr over
              ],
              a,
            )
      | inr other ↦
          rw (as_q ∙ other, other)
            (cons_some-Alike r q _ _ n p hs (add_handler-Alike name h rs qs a))
    ]

notify-Alike :
    (e : Endian) (ptr : ℕ) (result : Option (List AddrInfo)) (rs qs : List RequestInfo)
    → Alike rs qs
    → Alike (notify e ptr result rs).0 (notify e ptr result qs).0
      × ((notify e ptr result rs).1 ≡ (notify e ptr result qs).1)
unfolding notify
notify-Alike e ptr result [] [] a = (tt, refl)
notify-Alike e ptr result [] (q ∷ qs) a = absurd a
notify-Alike e ptr result (r ∷ rs) [] a = absurd a
notify-Alike e ptr result (r ∷ rs) (q ∷ qs) (n, p, hs, a) =
    let rest = notify-Alike e ptr result rs qs a in
    let as_q : is_for ptr r.request ≡ is_for ptr q.request = ap (is_for ptr) p in
    elim (Bool-cases (is_for ptr q.request)) [
      | inl ended ↦
          let equal : r.handlers ≡ q.handlers = elim hs [
            | inl equal ↦ equal
            | inr over ↦ absurd (cc)
          ] in
          rw (as_q ∙ ended, ended)
            (
              (n, ap (request_after result) p, inl equal, rest.0),
              ap (λ (x : List ℕ). called (result_of e result) x ++ (notify e ptr result rs).1) equal
                  ∙ ap (λ (x : List (ℕ × ResolveArg)). called (result_of e result) q.handlers ++ x)
                      rest.1,
            )
      | inr other ↦ rw (as_q ∙ other, other) ((n, p, hs, rest.0), rest.1)
    ]

ignored :
    (name : List ℕ) (h : ℕ) (rs : List RequestInfo)
    → IsOver name rs
    → (qs : List RequestInfo) × (add_handler name h rs ≡ some qs) × Alike qs rs
unfolding add_handler
ignored name h [] o = absurd o
ignored name h (r ∷ rs) (inl (same, over)) = (
  record r { handlers = r.handlers ++ h ∷ [] } ∷ rs,
  rw same refl,
  (refl, refl, inr over, Alike-refl rs),
)
ignored name h (r ∷ rs) (inr (other, o)) =
    let (qs, added, a) = ignored name h rs o in
    (r ∷ qs, rw (other, added) refl, (refl, refl, inl refl, a))

-- Two states that differ in handlers that will not be called.
abbrev SameRuns : Resolver → Resolver → Type 0
SameRuns s t = Alike s.requests t.requests × (s.resolved ≡ t.resolved) × (s.started ≡ t.started)

-- What `resolve_hostname` does with a name that is no address.
abbrev pub asked : Option (List RequestInfo) → List ℕ → ℕ → Resolver → Resolver
asked o name ptr s = elim o [
  | some rs ↦ record s { requests = rs }
  | none ↦ start_lookup name ptr s
]

asked-SameRuns :
    (x y : Option (List RequestInfo)) (name : List ℕ) (ptr : ℕ) (s t : Resolver)
    → BothAlike x y
    → SameRuns s t
    → SameRuns (asked x name ptr s) (asked y name ptr t)
unfolding start_lookup
asked-SameRuns (some rs) (some qs) name ptr s t both (a, r, b) = (both, r, b)
asked-SameRuns none none name ptr s t both (a, r, b) = (
  Alike-append s.requests t.requests _ a,
  r,
  ap (λ (x : List (ℕ × List ℕ)). x ++ (ptr, name) ∷ []) b,
)
asked-SameRuns none (some qs) name ptr s t both same = absurd both
asked-SameRuns (some rs) none name ptr s t both same = absurd both

-- The same, by what `parse` makes of the name.
abbrev pub resolved : Expected IpAddress → List ℕ → ℕ → ℕ → Resolver → Resolver
resolved v name handler ptr s = elim v [
  | value addr ↦ record s { resolved = s.resolved ++ (handler, value (addr ∷ [])) ∷ [] }
  | unexpected _ ↦ asked (add_handler name handler s.requests) name ptr s
]

resolved-SameRuns :
    (v : Expected IpAddress) (name : List ℕ) (handler ptr : ℕ) (s t : Resolver)
    → SameRuns s t
    → SameRuns (resolved v name handler ptr s) (resolved v name handler ptr t)
resolved-SameRuns (value addr) name handler ptr s t (a, r, b) =
    (a, ap (λ (x : List (ℕ × ResolveArg)). x ++ (handler, value (addr ∷ [])) ∷ []) r, b)
resolved-SameRuns (unexpected err) name handler ptr s t (a, r, b) =
    asked-SameRuns _ _ name ptr s t (add_handler-Alike name handler s.requests t.requests a)
      (a, r, b)

module _ (e : Endian) (inet : Inet) (stack4 : SockaddrIn) (stack6 : SockaddrIn6) where
  unfoldable pub step : Event → Resolver → Resolver
  step (asks name handler ptr) s = resolve_hostname inet stack4 stack6 name handler ptr s
  step (ends ptr result) s = trigger_hostname_resolve_callbacks e ptr result s

  unfoldable pub run : List Event → Resolver → Resolver
  unfolding step
  run [] s = s
  run (x ∷ xs) s = run xs (step x s)

  step-SameRuns : (x : Event) (s t : Resolver) → SameRuns s t → SameRuns (step x s) (step x t)
  unfolding step resolve_hostname trigger_hostname_resolve_callbacks start_lookup
  step-SameRuns (ends ptr result) s t (a, r, b) =
      let (a', calls) = notify-Alike e ptr result s.requests t.requests a in
      (a', rw (r, calls) refl, b)
  step-SameRuns (asks name handler ptr) s t (a, r, b) =
      resolved-SameRuns (parse inet stack4 stack6 name) name handler ptr s t (a, r, b)

  run-SameRuns : (xs : List Event) (s t : Resolver) → SameRuns s t → SameRuns (run xs s) (run xs t)
  unfolding run
  run-SameRuns [] s t a = a
  run-SameRuns (x ∷ xs) s t a = run-SameRuns xs (step x s) (step x t) (step-SameRuns x s t a)

  -- Once the lookup of a name has found addresses, a further request for the name, if that is no
  -- address, is ignored for ever: whatever requests and ends of lookups follow, the same handlers
  -- are called with the same results, and the same lookups started, as without it.
  pub late_request_ignored :
      (s : Resolver) (name : List ℕ) (handler ptr : ℕ) (xs : List Event)
      → parse inet stack4 stack6 name ≡ unexpected hostname_resolve_failed
      → IsOver name s.requests
      → ((run xs (resolve_hostname inet stack4 stack6 name handler ptr s)).resolved
          ≡ (run xs s).resolved)
        × ((run xs (resolve_hostname inet stack4 stack6 name handler ptr s)).started
            ≡ (run xs s).started)
  unfolding resolve_hostname
  late_request_ignored s name handler ptr xs p over =
      let (qs, added, a) = ignored name handler s.requests over in
      let is : resolve_hostname inet stack4 stack6 name handler ptr s ≡ record s { requests = qs } =
        ground (arith, p, added) in
      let (alike, calls, lookups) =
        run-SameRuns xs (record s { requests = qs }) s (a, refl, refl) in
      rw is (calls, lookups)
