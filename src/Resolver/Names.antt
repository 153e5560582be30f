-- ===== src/Resolver/Names.antt =====
-- src/IOUring.cpp: the names that `resolve_hostname` starts lookups for.
use iuring.Prelude.{
  same_text, ℕ, ◌≡◌, refl, sym, ◌∙◌, false, Option, none, some, List, [], ◌∷◌, ◌++◌, map, arith,
  inl, inr, Bool-cases, Option-cases, All, map-append,
}
use iuring.Outcome.{Expected, value, unexpected}
use iuring.Endian.{Endian}
use iuring.IpAddress.{IpAddress}
use iuring.IpAddress.Layout.{SockaddrIn, SockaddrIn6}
use iuring.IpAddress.Text.{Inet, parse}
use iuring.Resolver.{
  AddrInfo, RequestInfo, Resolver, empty, add_handler, start_lookup, resolve_hostname, notify,
  trigger_hostname_resolve_callbacks,
}
use iuring.Resolver.Runs.{Event, asks, ends, step, run, asked, resolved}

abbrev pub names : List RequestInfo → List (List ℕ)
names rs = map (λ r. r.hostname) rs

abbrev pub looked_up : List (ℕ × List ℕ) → List (List ℕ)
looked_up ls = map (λ l. l.1) ls

-- No name stands there twice.
abbrev pub IsDistinct : List (List ℕ) → Type 0
IsDistinct [] = Unit {0}
IsDistinct (n ∷ ns) = All (λ m. same_text n m ≡ false) ns × IsDistinct ns

-- The lookups are those of the requests, in their order, and each is for another name.
pub record IsTidy (s : Resolver) : Type 0 where
  pub each_looked_up : looked_up s.started ≡ names s.requests
  pub distinct : IsDistinct (names s.requests)

All-snoc :
    (n name : List ℕ) (ns : List (List ℕ))
    → All (λ m. same_text n m ≡ false) ns
    → same_text n name ≡ false
    → All (λ m. same_text n m ≡ false) (ns ++ name ∷ [])
All-snoc n name [] h k = (k, tt)
All-snoc n name (m ∷ ns) (h, hs) k = (h, All-snoc n name ns hs k)

IsDistinct-snoc :
    (name : List ℕ) (ns : List (List ℕ))
    → IsDistinct ns
    → All (λ m. same_text m name ≡ false) ns
    → IsDistinct (ns ++ name ∷ [])
IsDistinct-snoc name [] d new = (tt, tt)
IsDistinct-snoc name (n ∷ ns) (h, d) (k, new) =
    (All-snoc n name ns h k, IsDistinct-snoc name ns d new)

notify-names :
    (e : Endian) (ptr : ℕ) (result : Option (List AddrInfo)) (rs : List RequestInfo)
    → names (notify e ptr result rs).0 ≡ names rs
unfolding notify
notify-names e ptr result [] = refl
notify-names e ptr result (r ∷ rs) = ground (arith, notify-names e ptr result rs)

add_handler-names :
    (name : List ℕ) (h : ℕ) (rs qs : List RequestInfo)
    → add_handler name h rs ≡ some qs
    → names qs ≡ names rs
unfolding add_handler
add_handler-names name h [] qs added = absurd (cc)
add_handler-names name h (r ∷ rs) qs added = elim (Bool-cases (same_text r.hostname name)) [
  | inl same ↦ ground arith
  | inr other ↦ elim (Option-cases (add_handler name h rs)) [
    | inl missing ↦ absurd (ground arith)
    | inr (xs, found) ↦ ground (arith, add_handler-names name h rs xs found)
  ]
]

add_handler-missing :
    (name : List ℕ) (h : ℕ) (rs : List RequestInfo)
    → add_handler name h rs ≡ none
    → All (λ m. same_text m name ≡ false) (names rs)
unfolding add_handler
add_handler-missing name h [] missing = tt
add_handler-missing name h (r ∷ rs) missing = elim (Bool-cases (same_text r.hostname name)) [
  | inl same ↦ absurd (ground arith)
  | inr other ↦ elim (Option-cases (add_handler name h rs)) [
    | inl rest ↦ (other, add_handler-missing name h rs rest)
    | inr (xs, found) ↦ absurd (ground arith)
  ]
]

asked-IsTidy :
    (x : Option (List RequestInfo)) (name : List ℕ) (h ptr : ℕ) (s : Resolver)
    → add_handler name h s.requests ≡ x
    → IsTidy s
    → IsTidy (asked x name ptr s)
unfolding start_lookup
asked-IsTidy (some qs) name h ptr s added t =
    let same = add_handler-names name h s.requests qs added in
    record { each_looked_up = t.each_looked_up ∙ sym same; distinct = rw same t.distinct }
asked-IsTidy none name h ptr s missing t = record {
  each_looked_up = simp (map-append, t.each_looked_up);
  distinct = rw map-append (
      IsDistinct-snoc name (names s.requests) t.distinct
        (add_handler-missing name h s.requests missing));
}

resolved-IsTidy :
    (v : Expected IpAddress) (name : List ℕ) (handler ptr : ℕ) (s : Resolver)
    → IsTidy s
    → IsTidy (resolved v name handler ptr s)
resolved-IsTidy (value addr) name handler ptr s t = record {
  each_looked_up = t.each_looked_up;
  distinct = t.distinct;
}
resolved-IsTidy (unexpected err) name handler ptr s t = asked-IsTidy _ name handler ptr s refl t

module _ (e : Endian) (inet : Inet) (stack4 : SockaddrIn) (stack6 : SockaddrIn6) where
  step-IsTidy : (x : Event) (s : Resolver) → IsTidy s → IsTidy (step e inet stack4 stack6 x s)
  unfolding step resolve_hostname trigger_hostname_resolve_callbacks
  step-IsTidy (asks name handler ptr) s t =
      resolved-IsTidy (parse inet stack4 stack6 name) name handler ptr s t
  step-IsTidy (ends ptr result) s t =
      let same = notify-names e ptr result s.requests in
      record { each_looked_up = t.each_looked_up ∙ sym same; distinct = rw same t.distinct }

  run-keeps : (xs : List Event) (s : Resolver) → IsTidy s → IsTidy (run e inet stack4 stack6 xs s)
  unfolding run
  run-keeps [] s t = t
  run-keeps (x ∷ xs) s t = run-keeps xs (step e inet stack4 stack6 x s) (step-IsTidy x s t)

  -- Over any run of requests and ends of lookups from the start, no name is looked up twice, even
  -- after its lookup has failed: the lookups started are those of the stored requests, in their
  -- order, and no two of these are for the same name.
  pub run-IsTidy : (xs : List Event) → IsTidy (run e inet stack4 stack6 xs empty)
  run-IsTidy xs = run-keeps xs empty (record { each_looked_up = refl; distinct = tt })
