-- ===== src/Tests/Adapters.antt =====
-- Examples of src/IOUringInterface.cpp and include/iuring/MacAddress.hpp.
use iuring.Prelude.{
  ℕ, zero, suc, ◌≡◌, refl, List, [], ◌∷◌, ◌++◌, some, none, true, false, codes, arith, same_text,
  take, ◌<◌, All,
}
use iuring.Outcome.{Outcome, done}
use iuring.Endian.{little, bytes16, bytes32}
use iuring.IpAddress.Layout.{bytes_of_sockaddr_in, load16, load_sockaddr_in, load32}
use iuring.IpAddress.Text.{Inet, to_human_readable_ip_string}
use iuring.MacAddress.{MacAddress, of_bytes, of_text, to_string, format_byte, hex_digit}
use iuring.MacAddress.RoundTrip.{of_text-to_string}
use iuring.NetworkAdapter.{NetworkAdapter, IfAddr, RunOpt, initial, init, tune, get_my_mac_address}
use iuring.NetworkAdapter.Retrieve.{last_of, ip4_of, init-returns}
use iuring.NetworkAdapter.Mac.{get_my_mac_address-to_string}
use iuring.Tests.Rings.{peer}

abbrev inet : Inet
inet = record {
  pton4 = λ text. none;
  pton6 = λ text. none;
  ntop4 = λ a. some (codes "127.0.0.1");
  ntop6 = λ a. none;
  ends_with = λ text suffix. false;
}

abbrev adapter : NetworkAdapter
adapter = initial (codes "eth0") true

-- The address shows up in the second round.
abbrev rounds : ℕ → List IfAddr
rounds zero = record { ifa_name = codes "eth0"; ifa_addr = none } ∷ []
rounds (suc zero) =
    record { ifa_name = codes "eth0"; ifa_addr = some (bytes_of_sockaddr_in little peer) } ∷ []
rounds (suc (suc i)) = []

abbrev run_cmd : List ℕ → RunOpt → Outcome (Unit {0})
run_cmd command option = done tt

not_yet : (i : ℕ) → i < 1 → last_of (ip4_of inet little (codes "eth0")) (rounds i) ≡ none
not_yet zero h = refl
not_yet (suc i) h = absurd (omega arith)

now_there : last_of (ip4_of inet little (codes "eth0")) (rounds 1) ≡ some (codes "127.0.0.1")
unfolding same_text bytes_of_sockaddr_in load16 load_sockaddr_in load32 bytes16 bytes32
    to_human_readable_ip_string
now_there = refl

init-returns_example :
    init inet little run_cmd (some (codes "host")) 3 (λ i. some (rounds i)) adapter
    ≡ done (
        some (record adapter {
          m_hostname = codes "host";
          m_interface_ip4 = some (codes "127.0.0.1");
        }))
unfolding tune same_text bytes_of_sockaddr_in load16 bytes16 bytes32
init-returns_example =
    init-returns inet little run_cmd (some (codes "host")) 1 3 rounds adapter (codes "127.0.0.1")
      (omega arith) refl refl not_yet now_there

abbrev mac : MacAddress
mac = of_bytes 0 17 34 171 205 239

mac_fits : All (λ b. b < 256) mac.bytes
mac_fits =
    (omega arith, (omega arith, (omega arith, (omega arith, (omega arith, (omega arith, tt))))))

of_text-to_string_example : of_text (to_string b':' mac ++ codes "/24") ≡ mac
of_text-to_string_example = of_text-to_string mac (codes "/24") refl mac_fits

abbrev newline : List ℕ
newline = 10 ∷ []

-- The first read gives nothing.
abbrev reads : ℕ → List ℕ
reads zero = []
reads (suc i) = to_string b':' mac ++ newline

no_bytes_yet : (i : ℕ) → i < 1 → reads i ≡ []
no_bytes_yet zero h = refl
no_bytes_yet (suc i) h = absurd (omega arith)

cut_off : take 17 (to_string b':' mac ++ newline) ≡ to_string b':' mac
unfolding to_string format_byte hex_digit
cut_off = refl

get_my_mac_address-to_string_example :
    (get_my_mac_address (take 17) (λ name. some reads) adapter
      ≡ done (record adapter { mac_opt = some mac }, some mac))
    × (get_my_mac_address (take 17) (λ name. none) (record adapter { mac_opt = some mac })
        ≡ done (record adapter { mac_opt = some mac }, some mac))
get_my_mac_address-to_string_example =
    get_my_mac_address-to_string (take 17) (λ name. some reads) (λ name. none) adapter mac reads 1
      refl refl mac_fits refl (omega arith) no_bytes_yet refl cut_off
