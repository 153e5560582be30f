-- ===== src/Resolver/Handlers.antt =====
-- src/IOUring.cpp: the handlers of `resolve_hostname`, and their calls.
use iuring.Prelude.{
  same_text, ℕ, ◌≡◌, refl, false, List, [], ◌∷◌, ◌++◌, arith, All, some, none, Option, append-nil,
}
use iuring.Outcome.{value, unexpected, hostname_resolve_failed}
use iuring.Endian.{Endian}
use iuring.IpAddress.Layout.{SockaddrIn, SockaddrIn6}
use iuring.IpAddress.Text.{Inet, parse}
use iuring.Resolver.{
  convert_addresses, AddrInfo, RequestInfo, Resolver, add_handler, start_lookup, resolve_hostname,
  result_of, request_after, called, is_for, notify, trigger_hostname_resolve_callbacks,
}

-- No request waits for a lookup at this pointer.
abbrev pub IsUnused : ℕ → List RequestInfo → Type 0
IsUnused ptr rs = All (λ r. is_for ptr r.request ≡ false) rs

-- No request is for this name.
abbrev pub IsNew : List ℕ → List RequestInfo → Type 0
IsNew name rs = All (λ r. same_text r.hostname name ≡ false) rs

add_handler-new :
    (name : List ℕ) (h : ℕ) (rs : List RequestInfo) → IsNew name rs → add_handler name h rs ≡ none
unfolding add_handler
add_handler-new name h [] n = refl
add_handler-new name h (r ∷ rs) n = ground (arith, add_handler-new name h rs n.1)

notify-unused :
    (e : Endian) (ptr : ℕ) (result : Option (List AddrInfo)) (rs : List RequestInfo)
    → IsUnused ptr rs
    → notify e ptr result rs ≡ (rs, [])
unfolding notify
notify-unused e ptr result [] u = refl
notify-unused e ptr result (r ∷ rs) u = ground (arith, notify-unused e ptr result rs u.1)

notify-append :
    (e : Endian) (ptr : ℕ) (result : Option (List AddrInfo)) (rs qs : List RequestInfo)
    → IsUnused ptr rs
    → notify e ptr result (rs ++ qs)
      ≡ (rs ++ (notify e ptr result qs).0, (notify e ptr result qs).1)
unfolding notify
notify-append e ptr result [] qs u = refl
notify-append e ptr result (r ∷ rs) qs u = ground (arith, notify-append e ptr result rs qs u.1)

All-append {ℓ κ} :
    {A : Type ℓ} (P : A → Type κ) (xs ys : List A) → All P xs → All P ys → All P (xs ++ ys)
All-append P [] ys hx hy = hy
All-append P (x ∷ xs) ys hx hy = (hx.0, All-append P xs ys hx.1 hy)

module _ (e : Endian) (inet : Inet) (stack4 : SockaddrIn) (stack6 : SockaddrIn6) where
  resolve-new :
      (s : Resolver) (name : List ℕ) (handler ptr : ℕ)
      → parse inet stack4 stack6 name ≡ unexpected hostname_resolve_failed
      → IsNew name s.requests
      → resolve_hostname inet stack4 stack6 name handler ptr s ≡ start_lookup name ptr s
  unfolding resolve_hostname
  resolve-new s name handler ptr p n = ground (arith, add_handler-new name handler s.requests n)

  started_unheard :
      (s : Resolver) (name : List ℕ) (ptr : ℕ) (result : Option (List AddrInfo))
      → IsUnused ptr s.requests
      → (trigger_hostname_resolve_callbacks e ptr result (start_lookup name ptr s)).resolved
        ≡ s.resolved
  unfolding start_lookup trigger_hostname_resolve_callbacks notify
  started_unheard s name ptr result u =
      rw (notify-append e ptr result s.requests _ u) (ground (arith, append-nil s.resolved))

  -- The handler of the first request for a name, if the name is no address and no request waits at
  -- the new pointer, is not stored: a lookup is started, and when it ends, with addresses or
  -- without, nobody is called.
  pub first_handler_dropped :
      (s : Resolver) (name : List ℕ) (handler ptr : ℕ) (result : Option (List AddrInfo))
      → parse inet stack4 stack6 name ≡ unexpected hostname_resolve_failed
      → IsNew name s.requests
      → IsUnused ptr s.requests
      → let s1 = resolve_hostname inet stack4 stack6 name handler ptr s in
        (s1.started ≡ s.started ++ (ptr, name) ∷ [])
        × ((trigger_hostname_resolve_callbacks e ptr result s1).resolved ≡ s.resolved)
  first_handler_dropped s name handler ptr result p n u =
      rw (resolve-new s name handler ptr p n)
        (unfold start_lookup in refl, started_unheard s name ptr result u)

module _ (e : Endian) (before after : List RequestInfo) (r : RequestInfo) (ptr : ℕ) where
  abbrev waiting : List RequestInfo
  waiting = before ++ r ∷ after

  notify_waiting :
      (result : Option (List AddrInfo))
      → IsUnused ptr before
      → IsUnused ptr after
      → r.request ≡ some ptr
      → notify e ptr result waiting ≡ (
        before ++ record r { request = request_after result r.request } ∷ after,
        called (result_of e result) r.handlers,
      )
  unfolding notify
  notify_waiting result b a w = rw (notify-append e ptr result before (r ∷ after) b) (
      ground (
        arith,
        notify-unused e ptr result after a,
        append-nil (called (result_of e result) r.handlers),
      ))

  -- Where one request waits for a lookup, its end calls each of the request's stored handlers once,
  -- in their order, with the converted addresses or with an error. After a success a second
  -- notification calls nobody; after a failure it calls them all again.
  pub trigger_calls :
      (s : Resolver) (infos : List AddrInfo) (again : Option (List AddrInfo))
      → s.requests ≡ waiting
      → IsUnused ptr before
      → IsUnused ptr after
      → r.request ≡ some ptr
      → let won = trigger_hostname_resolve_callbacks e ptr (some infos) s in
        let lost = trigger_hostname_resolve_callbacks e ptr none s in
        (won.resolved ≡ s.resolved ++ called (value (convert_addresses e infos)) r.handlers)
        × ((trigger_hostname_resolve_callbacks e ptr again won).resolved ≡ won.resolved)
        × (lost.resolved ≡ s.resolved ++ called (unexpected hostname_resolve_failed) r.handlers)
        × ((trigger_hostname_resolve_callbacks e ptr again lost).resolved
            ≡ lost.resolved ++ called (result_of e again) r.handlers)
  unfolding trigger_hostname_resolve_callbacks
  trigger_calls s infos again q b a w =
      let won = notify_waiting (some infos) b a w in
      let lost = notify_waiting none b a w in
      let twice = notify_waiting again b a w in
      let unused = notify-unused e ptr again _ (
        All-append (λ x. is_for ptr x.request ≡ false) before (record r { request = none } ∷ after)
          b (refl, a)) in
      rw (q, won, lost, unused, twice) (refl, append-nil _, refl, refl)
