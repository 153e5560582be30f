-- ===== src/Resolver.antt =====
-- src/IOUring.cpp: the resolution of host names, `resolve_hostname`,
-- `trigger_hostname_resolve_callbacks` and `convert_addresses`, with class RequestInfo of
-- src/IOUring.hpp. `getaddrinfo_a` and the pointers that the allocator returns are the
-- environment's: a pointer is a number, and a lookup's result comes with its notification. A
-- handler that asks for another name while it runs is not modelled.
pub mod Handlers
pub mod Runs
pub mod Names
pub mod Waiting
use iuring.Prelude.{
  same_text, ℕ, ◌+◌, Bool, true, false, ◌&&◌, Option, none, some, List, [], ◌∷◌, ◌++◌, map, ◌==◌,
  if◌then◌else◌,
}
use iuring.Outcome.{Expected, value, unexpected, hostname_resolve_failed}
use iuring.Endian.{Endian}
use iuring.IpAddress.{IpAddress, of_sockaddr_in, of_sockaddr_in6}
use iuring.IpAddress.Layout.{
  SockaddrIn, SockaddrIn6, af_inet, af_inet6, load_sockaddr_in, load_sockaddr_in6,
}
use iuring.IpAddress.Text.{Inet, parse}

-- `struct addrinfo`: the family, and the bytes of `ai_addr`. The chain by `ai_next` is a list.
pub record AddrInfo : Type 0 where
  pub ai_family : ℕ
  pub ai_addr : List ℕ

unfoldable pub convert_addresses : Endian → List AddrInfo → List IpAddress
convert_addresses e [] = []
convert_addresses e (rp ∷ next) =
    let rest = convert_addresses e next in
    if rp.ai_family == af_inet
    then of_sockaddr_in (load_sockaddr_in e rp.ai_addr) ∷ rest
    else (if rp.ai_family == af_inet6
        then of_sockaddr_in6 (load_sockaddr_in6 e rp.ai_addr) ∷ rest
        else rest)

-- `request` is none for the null pointer.
pub record RequestInfo : Type 0 where
  pub hostname : List ℕ
  pub request : Option ℕ
  pub handlers : List ℕ

abbrev pub ResolveArg : Type 0
ResolveArg = Expected (List IpAddress)

-- m_hostname_DNS_requests; the calls of handlers made so far, oldest first, and the lookups
-- started, each by its pointer and name.
pub record Resolver : Type 0 where
  pub requests : List RequestInfo
  pub resolved : List (ℕ × ResolveArg)
  pub started : List (ℕ × List ℕ)

abbrev pub empty : Resolver
empty = record { requests = []; resolved = []; started = [] }

abbrev pub cons_some : RequestInfo → Option (List RequestInfo) → Option (List RequestInfo)
cons_some r none = none
cons_some r (some rs) = some (r ∷ rs)

-- The loop over the requests: the first of this name takes the handler; none if there is none.
unfoldable pub add_handler : List ℕ → ℕ → List RequestInfo → Option (List RequestInfo)
add_handler name handler [] = none
add_handler name handler (r ∷ rs) =
    let rest = add_handler name handler rs in
    if same_text r.hostname name
    then some (record r { handlers = r.handlers ++ handler ∷ [] } ∷ rs)
    else cons_some r rest

-- `emplace_back(hostname)`, then `getaddrinfo_a`, with `ptr` the address of the new `gaicb`.
unfoldable pub start_lookup : List ℕ → ℕ → Resolver → Resolver
start_lookup name ptr s = record s {
  requests = s.requests ++ record { hostname = name; request = some ptr; handlers = [] } ∷ [];
  started = s.started ++ (ptr, name) ∷ [];
}

unfoldable pub resolve_hostname :
    Inet → SockaddrIn → SockaddrIn6 → List ℕ → ℕ → ℕ → Resolver → Resolver
resolve_hostname inet stack4 stack6 name handler ptr s = elim (parse inet stack4 stack6 name) [
  | value addr ↦ record s { resolved = s.resolved ++ (handler, value (addr ∷ [])) ∷ [] }
  | unexpected _ ↦ elim (add_handler name handler s.requests) [
    | some rs ↦ record s { requests = rs }
    | none ↦ start_lookup name ptr s
  ]
]

-- What the handlers of a matching request get, and what becomes of the request: a failed one stays.
abbrev pub result_of : Endian → Option (List AddrInfo) → ResolveArg
result_of e none = unexpected hostname_resolve_failed
result_of e (some infos) = value (convert_addresses e infos)

abbrev pub request_after : Option (List AddrInfo) → Option ℕ → Option ℕ
request_after none r = r
request_after (some infos) r = none

abbrev pub called : ResolveArg → List ℕ → List (ℕ × ResolveArg)
called arg [] = []
called arg (h ∷ hs) = (h, arg) ∷ called arg hs

abbrev pub is_for : ℕ → Option ℕ → Bool
is_for ptr none = false
is_for ptr (some p) = p == ptr

-- The loop of `trigger_hostname_resolve_callbacks`, for the lookup at `ptr` and its result.
unfoldable pub notify :
    Endian
    → ℕ
    → Option (List AddrInfo)
    → List RequestInfo
    → List RequestInfo × List (ℕ × ResolveArg)
notify e ptr result [] = ([], [])
notify e ptr result (r ∷ rs) =
    let (rs', calls) = notify e ptr result rs in
    if is_for ptr r.request
    then (
      record r { request = request_after result r.request } ∷ rs',
      called (result_of e result) r.handlers ++ calls,
    )
    else (r ∷ rs', calls)

unfoldable pub trigger_hostname_resolve_callbacks :
    Endian → ℕ → Option (List AddrInfo) → Resolver → Resolver
trigger_hostname_resolve_callbacks e ptr result s =
    let (rs, calls) = notify e ptr result s.requests in
    record s { requests = rs; resolved = s.resolved ++ calls }
