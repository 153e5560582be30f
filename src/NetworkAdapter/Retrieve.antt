-- ===== src/NetworkAdapter/Retrieve.antt =====
-- src/IOUringInterface.cpp: the loop of `retrieve_interface_ip`, and `init`.
use iuring.Prelude.{
  same_text, ℕ, zero, suc, ◌+◌, ◌<◌, ◌≡◌, refl, sym, ap, ◌∙◌, Bool, true, false, not, ◌&&◌, Option,
  none, some, List, [], ◌∷◌, ◌++◌, ◌==◌, if◌then◌else◌, length, arith, append-nil,
}
use iuring.Outcome.{Outcome, done, aborted, ◌>>=◌}
use iuring.Endian.{Endian}
use iuring.IpAddress.Layout.{af_inet, af_inet6, load16}
use iuring.IpAddress.Text.{Inet}
use iuring.NetworkAdapter.{
  NetworkAdapter, IfAddr, RunOpt, human4, human6, visit, visit_all, try_get_interface_ip,
  retrieve_interface_ip, tune, init,
}

-- The newer of two, if there is one.
abbrev pub latest : Option (List ℕ) → Option (List ℕ) → Option (List ℕ)
latest old none = old
latest old (some ip) = some ip

latest_assoc : (a b c : Option (List ℕ)) → latest (latest a b) c ≡ latest a (latest b c)
latest_assoc a b none = refl
latest_assoc a b (some ip) = refl

latest-none : (b : Option (List ℕ)) → latest none b ≡ b
latest-none none = refl
latest-none (some ip) = refl

-- The last entry of a list that has an address.
abbrev pub last_of : (IfAddr → Option (List ℕ)) → List IfAddr → Option (List ℕ)
last_of of [] = none
last_of of (ifa ∷ ifas) = latest (of ifa) (last_of of ifas)

-- The lists of the first `count` calls, one after the other.
abbrev pub seen : ℕ → (ℕ → List IfAddr) → List IfAddr
seen zero rounds = []
seen (suc count) rounds = rounds 0 ++ seen count (λ i. rounds (suc i))

last_of-append :
    (of : IfAddr → Option (List ℕ)) (xs ys : List IfAddr)
    → last_of of (xs ++ ys) ≡ latest (last_of of xs) (last_of of ys)
last_of-append of [] ys = sym (latest-none (last_of of ys))
last_of-append of (x ∷ xs) ys =
    ap (latest (of x)) (last_of-append of xs ys)
    ∙ sym (latest_assoc (of x) (last_of of xs) (last_of of ys))

module _ (inet : Inet) (e : Endian) where
  -- What an entry says of the interface of a name: its IPv4 address, and its IPv6 address.
  abbrev pub address_of : ℕ → (List ℕ → List ℕ) → List ℕ → IfAddr → Option (List ℕ)
  address_of family human name ifa = elim ifa.ifa_addr [
    | none ↦ none
    | some sa ↦
        if same_text ifa.ifa_name name && load16 e sa 0 == family then some (human sa) else none
  ]

  abbrev pub ip4_of : List ℕ → IfAddr → Option (List ℕ)
  ip4_of = address_of af_inet (human4 inet e)

  abbrev pub ip6_of : List ℕ → IfAddr → Option (List ℕ)
  ip6_of = address_of af_inet6 (human6 inet e)

  -- The adapter with the last addresses of a list.
  abbrev pub with_last : NetworkAdapter → List IfAddr → NetworkAdapter
  with_last n ifas = record n {
    m_interface_ip4 = latest n.m_interface_ip4 (last_of (ip4_of n.m_interface_name) ifas);
    m_interface_ip6 = latest n.m_interface_ip6 (last_of (ip6_of n.m_interface_name) ifas);
  }

  visit_lem :
      (n : NetworkAdapter) (s : Bool) (ifa : IfAddr)
      → (visit inet e n s ifa).0 ≡ with_last n (ifa ∷ [])
  unfolding visit
  visit_lem n s ifa = ground arith

  with_last-append :
      (n : NetworkAdapter) (xs ys : List IfAddr)
      → with_last (with_last n xs) ys ≡ with_last n (xs ++ ys)
  with_last-append n xs ys =
      let later = λ (of : IfAddr → Option (List ℕ)) (old : Option (List ℕ)).
        latest_assoc old (last_of of xs) (last_of of ys)
        ∙ ap (latest old) (sym (last_of-append of xs ys)) in
      let four = later (ip4_of n.m_interface_name) n.m_interface_ip4 in
      let six = later (ip6_of n.m_interface_name) n.m_interface_ip6 in cc

  visit_all_lem :
      (n : NetworkAdapter) (s : Bool) (ifas : List IfAddr)
      → (visit_all inet e n s ifas).0 ≡ with_last n ifas
  unfolding visit_all
  visit_all_lem n s [] = refl
  visit_all_lem n s (ifa ∷ ifas) =
      visit_all_lem (visit inet e n s ifa).0 _ ifas
      ∙ ap (λ (m : NetworkAdapter). with_last m ifas) (visit_lem n s ifa)
      ∙ with_last-append n (ifa ∷ []) ifas

  module _ (n : NetworkAdapter) (named : not (length n.m_interface_name == 0) ≡ true) where
    try_get_interface_ip-some :
        (ifas : List IfAddr)
        → try_get_interface_ip inet e (some ifas) n ≡ done (visit_all inet e n false ifas)
    unfolding try_get_interface_ip
    try_get_interface_ip-some ifas = rw named refl

    retrieve_interface_ip-suc :
        (fuel : ℕ) (rounds : ℕ → List IfAddr)
        → n.m_interface_ip4 ≡ none
        → retrieve_interface_ip inet e (suc fuel) (λ i. some (rounds i)) n
          ≡ retrieve_interface_ip inet e fuel (λ i. some (rounds (suc i))) (with_last n (rounds 0))
    unfolding retrieve_interface_ip
    retrieve_interface_ip-suc fuel rounds unset = simp (
      retrieve_interface_ip,
      unset,
      try_get_interface_ip-some (rounds 0),
      visit_all_lem n false (rounds 0),
    )

  retrieve_interface_ip-found :
      (fuel : ℕ) (answers : ℕ → Option (List IfAddr)) (n : NetworkAdapter) (ip : List ℕ)
      → n.m_interface_ip4 ≡ some ip
      → retrieve_interface_ip inet e (suc fuel) answers n ≡ done (some n)
  unfolding retrieve_interface_ip
  retrieve_interface_ip-found fuel answers n ip set = simp (retrieve_interface_ip, set)

  -- Fruitless rounds, then one with an IPv4 address of the interface.
  retrieve_interface_ip-returns :
      (k fuel : ℕ) (rounds : ℕ → List IfAddr) (n : NetworkAdapter) (ip : List ℕ)
      → k + 1 < fuel
      → not (length n.m_interface_name == 0) ≡ true
      → n.m_interface_ip4 ≡ none
      → ((i : ℕ) → i < k → last_of (ip4_of n.m_interface_name) (rounds i) ≡ none)
      → last_of (ip4_of n.m_interface_name) (rounds k) ≡ some ip
      → retrieve_interface_ip inet e fuel (λ i. some (rounds i)) n
        ≡ done (some (with_last n (seen (suc k) rounds)))
  retrieve_interface_ip-returns k zero rounds n ip enough named unset before found =
      absurd (omega arith)
  retrieve_interface_ip-returns k (suc zero) rounds n ip enough named unset before found =
      absurd (omega arith)
  retrieve_interface_ip-returns zero (suc (suc fuel)) rounds n ip enough named unset before found =
      retrieve_interface_ip-suc n named (suc fuel) rounds unset
      ∙ retrieve_interface_ip-found fuel _ (with_last n (rounds 0)) ip
          (ap (latest n.m_interface_ip4) found)
      ∙ ap (λ (ifas : List IfAddr). done (some (with_last n ifas))) (sym (append-nil (rounds 0)))
  retrieve_interface_ip-returns (suc k) (suc fuel) rounds n ip enough named unset before found =
      retrieve_interface_ip-suc n named fuel rounds unset
      ∙ retrieve_interface_ip-returns k fuel (λ i. rounds (suc i)) (with_last n (rounds 0)) ip
          (omega arith) named (ap (latest n.m_interface_ip4) (before 0 (omega arith)) ∙ unset)
          (λ i less. before (suc i) (omega arith)) found
      ∙ ap (λ (m : NetworkAdapter). done (some m)) (with_last-append n (rounds 0) _)

  -- no other round counts for the IPv4 address
  with_last-ip4 :
      (k : ℕ) (rounds : ℕ → List IfAddr) (name ip : List ℕ)
      → ((i : ℕ) → i < k → last_of (ip4_of name) (rounds i) ≡ none)
      → last_of (ip4_of name) (rounds k) ≡ some ip
      → last_of (ip4_of name) (seen (suc k) rounds) ≡ some ip
  with_last-ip4 zero rounds name ip before found =
      ap (last_of (ip4_of name)) (append-nil (rounds 0)) ∙ found
  with_last-ip4 (suc k) rounds name ip before found =
      last_of-append (ip4_of name) (rounds 0) _
      ∙ ap (latest (last_of (ip4_of name) (rounds 0))) (
          with_last-ip4 k (λ i. rounds (suc i)) name ip (λ i less. before (suc i) (omega arith))
            found)

  -- Let `getifaddrs` succeed in every round, no round before round `k` show an IPv4 address of the
  -- named interface, and round `k` show `ip` as the last one of its list. Then `init` of an adapter
  -- without an IPv4 address, for any fuel above k + 1, tunes once and ends as the tuning ends: if
  -- that returns, the adapter has the address `ip`, the last IPv6 address of all the rounds up to
  -- `k`, if any, and the host name; without a host name it aborts.
  pub init-returns :
      (run_cmd : List ℕ → RunOpt → Outcome (Unit {0})) (hostname : Option (List ℕ)) (k fuel : ℕ)
      (rounds : ℕ → List IfAddr) (n : NetworkAdapter) (ip : List ℕ)
      → k + 1 < fuel
      → not (length n.m_interface_name == 0) ≡ true
      → n.m_interface_ip4 ≡ none
      → ((i : ℕ) → i < k → last_of (ip4_of n.m_interface_name) (rounds i) ≡ none)
      → last_of (ip4_of n.m_interface_name) (rounds k) ≡ some ip
      → init inet e run_cmd hostname fuel (λ i. some (rounds i)) n ≡ (
          tune run_cmd n >>= λ _. elim hostname [
            | none ↦ aborted
            | some name ↦ done (
                some (record n {
                  m_interface_ip4 = some ip;
                  m_interface_ip6 =
                      latest n.m_interface_ip6
                        (last_of (ip6_of n.m_interface_name) (seen (suc k) rounds));
                  m_hostname = name;
                }))
          ])
  unfolding init tune
  init-returns run_cmd hostname k fuel rounds n ip enough named unset before found =
      let last : retrieve_interface_ip inet e fuel (λ i. some (rounds i)) n
          ≡ done (
              some (record n {
                m_interface_ip4 = some ip;
                m_interface_ip6 =
                    latest n.m_interface_ip6
                      (last_of (ip6_of n.m_interface_name) (seen (suc k) rounds));
              })) =
        retrieve_interface_ip-returns k fuel rounds n ip enough named unset before found
        ∙ ap
            (λ (ip4 : Option (List ℕ)). done (
              some (record n {
                m_interface_ip4 = latest n.m_interface_ip4 ip4;
                m_interface_ip6 =
                    latest n.m_interface_ip6
                      (last_of (ip6_of n.m_interface_name) (seen (suc k) rounds));
              })))
            (with_last-ip4 k rounds n.m_interface_name ip before found) in
      rw last refl
