-- ===== src/NetworkAdapter.antt =====
-- include/iuring/NetworkAdapter.hpp and src/IOUringInterface.cpp: the network interface that a
-- program selects, with the addresses found for it. `getifaddrs`, `gethostname`, the file system
-- and slogger's `run_cmd` and `trim` are parameters. A text is the list of its bytes.
pub mod Retrieve
pub mod Mac
use iuring.Prelude.{
  same_text, ℕ, zero, suc, ◌-◌, ◌++◌, Bool, true, false, not, Option, none, some, List, [], ◌∷◌,
  ◌==◌, ltb, leb, if◌then◌else◌, length, replicate, codes,
}
use iuring.Outcome.{Outcome, done, aborted, undefined, ◌>>=◌, ◌>>◌, assert}
use iuring.Endian.{Endian}
use iuring.IpAddress.{of_sockaddr_in, of_sockaddr_in6}
use iuring.IpAddress.Layout.{af_inet, af_inet6, load16, load_sockaddr_in, load_sockaddr_in6}
use iuring.IpAddress.Text.{Inet, to_human_readable_ip_string}
use iuring.MacAddress.{MacAddress, of_text}

pub record NetworkAdapter : Type 0 where
  pub m_hostname : List ℕ
  pub m_interface_ip4 : Option (List ℕ)
  pub m_interface_ip6 : Option (List ℕ)
  pub m_interface_name : List ℕ
  pub m_tune : Bool
  pub mac_opt : Option MacAddress

-- The constructor.
abbrev pub initial : List ℕ → Bool → NetworkAdapter
initial interface_name tune = record {
  m_hostname = [];
  m_interface_ip4 = none;
  m_interface_ip6 = none;
  m_interface_name = interface_name;
  m_tune = tune;
  mac_opt = none;
}

abbrev pub set_interface_ip4 : NetworkAdapter → List ℕ → NetworkAdapter
set_interface_ip4 n ip = record n { m_interface_ip4 = some ip }

abbrev pub set_interface_ip6 : NetworkAdapter → List ℕ → NetworkAdapter
set_interface_ip6 n ip = record n { m_interface_ip6 = some ip }

-- `struct ifaddrs`; `ifa_addr` is null, or points to the bytes of a socket address.
pub record IfAddr : Type 0 where
  pub ifa_name : List ℕ
  pub ifa_addr : Option (List ℕ)

-- `shell::RunOpt`, as far as it is used.
pub data RunOpt : Type 0 where
  log_error_as_warning abort_on_error : RunOpt

-- `tune`. `run_cmd` may end the process.
unfoldable pub tune : (List ℕ → RunOpt → Outcome (Unit {0})) → NetworkAdapter → Outcome (Unit {0})
tune run_cmd n = elim n.m_tune [
  | false ↦ done tt
  | true ↦ do
    let command = λ (setting : List ℕ). codes "ethtool -C " ++ (n.m_interface_name ++ setting)
    run_cmd (command (codes " tx-usecs 1")) RunOpt.log_error_as_warning
    run_cmd (command (codes " rx-usecs 1")) RunOpt.abort_on_error
    run_cmd (command (codes " rx-frames 1")) RunOpt.abort_on_error
    run_cmd (command (codes " tx-frames 1")) RunOpt.abort_on_error
]

module _ (inet : Inet) (e : Endian) where
  abbrev pub human4 : List ℕ → List ℕ
  human4 sa = to_human_readable_ip_string inet (of_sockaddr_in (load_sockaddr_in e sa))

  abbrev pub human6 : List ℕ → List ℕ
  human6 sa = to_human_readable_ip_string inet (of_sockaddr_in6 (load_sockaddr_in6 e sa))

  -- The `switch` over the family.
  abbrev pub take_address : NetworkAdapter → Bool → List ℕ → NetworkAdapter × Bool
  take_address n success sa =
      if load16 e sa 0 == af_inet
      then (set_interface_ip4 n (human4 sa), true)
      else (if load16 e sa 0 == af_inet6
          then (set_interface_ip6 n (human6 sa), success)
          else (n, success))

  -- The body of the loop over the list.
  unfoldable pub visit : NetworkAdapter → Bool → IfAddr → NetworkAdapter × Bool
  visit n success ifa = elim ifa.ifa_addr [
    | none ↦ (n, success)
    | some sa ↦
        if not (same_text ifa.ifa_name n.m_interface_name)
        then (n, success)
        else take_address n success sa
  ]

  unfoldable pub visit_all : NetworkAdapter → Bool → List IfAddr → NetworkAdapter × Bool
  unfolding visit
  visit_all n success [] = (n, success)
  visit_all n success (ifa ∷ rest) = visit_all (visit n success ifa).0 (visit n success ifa).1 rest

  -- `try_get_interface_ip`, with the list that `getifaddrs` makes, none where it fails.
  unfoldable pub try_get_interface_ip :
      Option (List IfAddr) → NetworkAdapter → Outcome (NetworkAdapter × Bool)
  try_get_interface_ip answer n = do
    assert (not (length n.m_interface_name == 0))
    elim answer [ some ifas ↦ done (visit_all n false ifas) | none ↦ aborted ]

  -- `retrieve_interface_ip`, on fuel: none where it runs out. The answers are those of the calls of
  -- `getifaddrs`, one a second.
  unfoldable pub retrieve_interface_ip :
      ℕ → (ℕ → Option (List IfAddr)) → NetworkAdapter → Outcome (Option NetworkAdapter)
  unfolding try_get_interface_ip
  retrieve_interface_ip zero answers n = done none
  retrieve_interface_ip (suc fuel) answers n = elim n.m_interface_ip4 [
    | some ip ↦ done (some n)
    | none ↦ do
      (n', success) ← try_get_interface_ip (answers 0) n
      retrieve_interface_ip fuel (λ i. answers (suc i)) n'
  ]

  -- `init`, with the result of `gethostname`, none where it fails.
  unfoldable pub init :
      (List ℕ → RunOpt → Outcome (Unit {0}))
      → Option (List ℕ)
      → ℕ
      → (ℕ → Option (List IfAddr))
      → NetworkAdapter
      → Outcome (Option NetworkAdapter)
  unfolding retrieve_interface_ip tune
  init run_cmd hostname fuel answers n = retrieve_interface_ip fuel answers n >>= λ res. elim res [
    | none ↦ done none
    | some n' ↦ do
      tune run_cmd n'
      elim hostname [ some name ↦ done (some (record n' { m_hostname = name })) | none ↦ aborted ]
  ]

-- The reads of the loop: `fread` gives these bytes at its calls, and it is called until some come.
unfoldable pub read_some : ℕ → (ℕ → List ℕ) → List ℕ
read_some zero reads = []
read_some (suc left) reads =
    let more = read_some left (λ i. reads (suc i)) in
    if ltb 0 (length (reads 0)) then reads 0 else more

-- A buffer as a C string: without a 0 in it, the string goes on in other memory.
unfoldable pub c_string : List ℕ → Outcome (List ℕ)
c_string [] = undefined
c_string (c ∷ cs) = let rest = c_string cs >>= λ s. done (c ∷ s) in if c == 0 then done [] else rest

abbrev pub buffer_size : ℕ
buffer_size = 128

-- The cleared buffer, filled from its start.
abbrev pub filled : List ℕ → List ℕ
filled bytes = bytes ++ replicate (buffer_size - length bytes) 0

abbrev pub address_file : NetworkAdapter → List ℕ
address_file n = codes "/sys/class/net/" ++ (n.m_interface_name ++ codes "/address")

-- `get_my_mac_address`: what stands in the file, remembered.
unfoldable pub get_my_mac_address :
    (List ℕ → List ℕ)
    → (List ℕ → Option (ℕ → List ℕ))
    → NetworkAdapter
    → Outcome (NetworkAdapter × Option MacAddress)
unfolding read_some c_string
get_my_mac_address trim fopen n = elim n.mac_opt [
  | some mac ↦ done (n, some mac)
  | none ↦ elim (fopen (address_file n)) [
    | none ↦ aborted
    | some reads ↦ do
      let bytes = read_some 10 reads
      assert (ltb 0 (length bytes))
      text ← c_string (filled bytes)
      let mac = of_text (trim text)
      done (record n { mac_opt = some mac }, some mac)
  ]
]
