-- ===== src/Tests/Lookups.antt =====
-- Examples of src/IOUring.cpp: lookups of host names, with functions for <arpa/inet.h> that read no
-- text.
use iuring.Outcome.{value, unexpected, hostname_resolve_failed}
use iuring.Endian.{little}
use iuring.Prelude.{
  same_text, true, inl, ℕ, ◌≡◌, refl, List, [], none, ◌∷◌, codes, some, false, ◌++◌, arith,
}
use iuring.Resolver.{
  trigger_hostname_resolve_callbacks, AddrInfo, Resolver, resolve_hostname, RequestInfo, empty,
  convert_addresses, ResolveArg,
}
use mathlib.Core.List.{Memᴰ}
use iuring.IpAddress.Text.{parse, Inet}
use iuring.Resolver.Runs.{Event, asks, ends, run, late_request_ignored}
use iuring.Resolver.Waiting.{waiting_request_heard}
use iuring.Resolver.Names.{IsTidy, run-IsTidy}
use iuring.IpAddress.Layout.{af_inet}
use iuring.Resolver.Handlers.{first_handler_dropped, trigger_calls}
use iuring.Tests.Rings.{peer, peer6}

abbrev inet : Inet
inet = record {
  pton4 = λ text. none;
  pton6 = λ text. none;
  ntop4 = λ sa. none;
  ntop6 = λ sa. none;
  ends_with = λ text suffix. false;
}

abbrev name : List ℕ
name = codes "host"

abbrev info : AddrInfo
info = record { ai_family = af_inet; ai_addr = 2 ∷ 0 ∷ 0x1f ∷ 0x90 ∷ 127 ∷ 0 ∷ 0 ∷ 1 ∷ [] }

abbrev unix : AddrInfo
unix = record { ai_family = 1; ai_addr = [] }

not_an_address : parse inet peer peer6 name ≡ unexpected hostname_resolve_failed
unfolding parse
not_an_address = refl

first_handler_dropped_example :
    let s1 = resolve_hostname inet peer peer6 name 5 64 empty in
    (s1.started ≡ (64, name) ∷ [])
    × ((trigger_hostname_resolve_callbacks little 64 (some (info ∷ [])) s1).resolved ≡ [])
first_handler_dropped_example =
    first_handler_dropped little inet peer peer6 empty name 5 64 (some (info ∷ [])) not_an_address
      tt tt

abbrev request : RequestInfo
request = record { hostname = name; request = some 64; handlers = 5 ∷ 6 ∷ [] }

abbrev looked_up : Resolver
looked_up = record { requests = request ∷ []; resolved = []; started = [] }

trigger_calls_example :
    let won = trigger_hostname_resolve_callbacks little 64 (some (info ∷ [])) looked_up in
    let lost = trigger_hostname_resolve_callbacks little 64 none looked_up in
    let addresses = value (convert_addresses little (info ∷ [])) in
    let error = unexpected hostname_resolve_failed in
    (won.resolved ≡ (5, addresses) ∷ (6, addresses) ∷ [])
    × ((trigger_hostname_resolve_callbacks little 64 none won).resolved ≡ won.resolved)
    × (lost.resolved ≡ (5, error) ∷ (6, error) ∷ [])
    × ((trigger_hostname_resolve_callbacks little 64 none lost).resolved
        ≡ lost.resolved ++ (5, error) ∷ (6, error) ∷ [])
trigger_calls_example =
    trigger_calls little [] [] request 64 looked_up (info ∷ []) none refl tt tt refl

-- Two requests for a name, the end of its lookup, and a request for another.
abbrev events : List Event
events =
    asks name 5 64 ∷ asks name 6 80 ∷ ends 64 (some (info ∷ [])) ∷ asks (codes "peer") 7 80 ∷ []

run-IsTidy_example : IsTidy (run little inet peer peer6 events empty)
run-IsTidy_example = run-IsTidy little inet peer peer6 events

-- The name's lookup is over.
abbrev answered : Resolver
answered = record {
  requests = record { hostname = name; request = none; handlers = 5 ∷ [] } ∷ [];
  resolved = [];
  started = (64, name) ∷ [];
}

name_over : same_text name name ≡ true
unfolding same_text
name_over = refl

late_request_ignored_example :
    ((run little inet peer peer6 events
        (resolve_hostname inet peer peer6 name 8 80 answered)).resolved
      ≡ (run little inet peer peer6 events answered).resolved)
    × ((run little inet peer peer6 events
          (resolve_hostname inet peer peer6 name 8 80 answered)).started
        ≡ (run little inet peer peer6 events answered).started)
late_request_ignored_example =
    late_request_ignored little inet peer peer6 answered name 8 80 events not_an_address
      (inl (name_over, refl))

-- Meanwhile another name is asked for and found, and the lookup itself fails.
abbrev meanwhile : List Event
meanwhile = asks (codes "peer") 7 80 ∷ ends 80 (some (info ∷ [])) ∷ ends 64 none ∷ []

waiting_request_heard_example :
    let s1 =
      run little inet peer peer6 meanwhile (resolve_hostname inet peer peer6 name 8 96 looked_up) in
    (calls : List (ℕ × ResolveArg)) × ((trigger_hostname_resolve_callbacks little 64
        (some (info ∷ []))
        s1).resolved
      ≡ s1.resolved ++ calls)
    × Memᴰ (8, value (convert_addresses little (info ∷ []))) calls
waiting_request_heard_example =
    waiting_request_heard little inet peer peer6 looked_up name 8 64 96 meanwhile (some (info ∷ []))
      not_an_address (inl (name_over, refl)) (tt, ((λ h. absurd (omega arith)), (tt, tt)))
