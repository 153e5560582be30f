-- ===== src/NetworkAdapter/Mac.antt =====
-- src/IOUringInterface.cpp: `get_my_mac_address` against the text of the address file.
use iuring.Prelude.{
  ℕ, zero, suc, ◌+◌, ◌-◌, ◌*◌, ◌/◌, ◌%◌, ◌<◌, ◌≡◌, refl, sym, ap, ◌∙◌, true, Option, none, some,
  List, [], ◌∷◌, ◌++◌, length, arith, replicate, All, length-append, append-nil,
}
use iuring.Outcome.{done}
use iuring.MacAddress.{MacAddress, of_text, to_string, join_bytes, format_byte, hex_digit}
use iuring.MacAddress.RoundTrip.{of_text-to_string}
use iuring.NetworkAdapter.{
  ltb, NetworkAdapter, read_some, c_string, filled, address_file, get_my_mac_address, buffer_size,
}

abbrev newline : List ℕ
newline = 10 ∷ []

-- No byte of a text is 0.
abbrev NoZero : List ℕ → Type 0
NoZero = All (λ c. 0 < c)

NoZero-append : (xs ys : List ℕ) → NoZero xs → NoZero ys → NoZero (xs ++ ys)
NoZero-append [] ys hx hy = hy
NoZero-append (x ∷ xs) ys (h, hx) hy = (h, NoZero-append xs ys hx hy)

hex_digit-positive : (d : ℕ) → 0 < hex_digit d
unfolding hex_digit
hex_digit-positive d = ground arith

format_byte-NoZero : (b : ℕ) → NoZero (format_byte b)
unfolding format_byte
format_byte-NoZero b = (hex_digit-positive (b / 16), (hex_digit-positive (b % 16), tt))

join_bytes-NoZero : (bs : List ℕ) → NoZero (join_bytes b':' bs)
join_bytes-NoZero [] = tt
join_bytes-NoZero (b ∷ []) = format_byte-NoZero b
join_bytes-NoZero (b ∷ c ∷ cs) =
    NoZero-append (format_byte b) _ (format_byte-NoZero b) (omega arith, join_bytes-NoZero (c ∷ cs))

-- Two digits for each byte, and the colons.
length-join_bytes : (b : ℕ) (bs : List ℕ) → length (join_bytes b':' (b ∷ bs)) ≡ 3 * length bs + 2
unfolding format_byte
length-join_bytes b [] = refl
length-join_bytes b (c ∷ cs) = omega (arith, length-join_bytes c cs)

length-line : (bs : List ℕ) → length bs ≡ 6 → length (join_bytes b':' bs ++ newline) ≡ 18
length-line [] six = absurd (omega arith)
length-line (b ∷ bs) six =
    omega (arith, length-append (join_bytes b':' (b ∷ bs)) newline, length-join_bytes b bs)

c_string-zero : (xs ys : List ℕ) → NoZero xs → c_string (xs ++ (0 ∷ ys)) ≡ done xs
unfolding c_string
c_string-zero [] ys h = refl
c_string-zero (x ∷ xs) ys (h, hs) = rw (c_string-zero xs ys hs) (ground arith)

filled_string : (xs : List ℕ) → length xs < buffer_size → NoZero xs → c_string (filled xs) ≡ done xs
filled_string xs short h =
    let left : buffer_size - length xs ≡ suc (buffer_size - length xs - 1) = omega arith in
    ap (λ (k : ℕ). c_string (xs ++ replicate k 0)) left ∙ c_string-zero xs _ h

-- The first call that gives bytes.
read_some-first :
    (k left : ℕ) (reads : ℕ → List ℕ)
    → k < left
    → ((i : ℕ) → i < k → reads i ≡ [])
    → 0 < length (reads k)
    → read_some left reads ≡ reads k
unfolding read_some
read_some-first k zero reads enough empty full = absurd (omega arith)
read_some-first zero (suc left) reads enough empty full = ground arith
read_some-first (suc k) (suc left) reads enough empty full =
    let here = empty 0 (omega arith) in
    let more =
      read_some-first k left (λ i. reads (suc i)) (omega arith) (λ i h. empty (suc i) (omega arith))
        full in
    rw (here) more

-- On an adapter without a remembered address, let the file of the interface hold the text of a MAC
-- address of six bytes below 256 and a newline, which one of the ten reads gives after reads of
-- nothing, and let `trim` cut the newline off. Then `get_my_mac_address` returns this address and
-- remembers it: further calls return it whatever the files hold.
pub get_my_mac_address-to_string :
    (trim : List ℕ → List ℕ) (fopen later : List ℕ → Option (ℕ → List ℕ)) (n : NetworkAdapter)
    (m : MacAddress) (reads : ℕ → List ℕ) (k : ℕ)
    → n.mac_opt ≡ none
    → length m.bytes ≡ 6
    → All (λ b. b < 256) m.bytes
    → fopen (address_file n) ≡ some reads
    → k < 10
    → ((i : ℕ) → i < k → reads i ≡ [])
    → reads k ≡ to_string b':' m ++ newline
    → trim (to_string b':' m ++ newline) ≡ to_string b':' m
    → (get_my_mac_address trim fopen n ≡ done (record n { mac_opt = some m }, some m))
      × (get_my_mac_address trim later (record n { mac_opt = some m })
          ≡ done (record n { mac_opt = some m }, some m))
unfolding get_my_mac_address to_string
get_my_mac_address-to_string trim fopen later n m reads k fresh six small opened few empty full
      trimmed =
    let line = to_string b':' m ++ newline in
    let size : length line ≡ 18 = length-line m.bytes six in
    let some_bytes : 0 < length (reads k) = rw (full) (omega (arith, size)) in
    let got : read_some 10 reads ≡ line = read_some-first k 10 reads few empty some_bytes ∙ full in
    let positive : ltb 0 (length line) ≡ true = rw (size) refl in
    let string : c_string (filled line) ≡ done line =
      filled_string line (omega (arith, size))
        (NoZero-append (to_string b':' m) newline (join_bytes-NoZero m.bytes) (omega arith, tt)) in
    let read : of_text (to_string b':' m) ≡ m =
      ap of_text (sym (append-nil (to_string b':' m))) ∙ of_text-to_string m [] six small in
    (simp (get_my_mac_address, fresh, opened, got, positive, string, trimmed, read), refl)
