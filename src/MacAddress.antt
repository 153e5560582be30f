-- ===== src/MacAddress.antt =====
-- include/iuring/MacAddress.hpp and, in src/IPAddress.cpp, its constructor from a text and
-- `to_string`. A text is the list of its bytes. `sscanf` reads as the C standard says: a conversion
-- skips white space and takes two characters at most, of which a sign is one; "0x" alone is no
-- number.
pub mod RoundTrip
use iuring.Prelude.{
  ℕ, zero, suc, ◌+◌, ◌-◌, ◌*◌, ◌/◌, ◌%◌, Bool, true, false, ◌&&◌, ◌||◌, Option, none, some, List,
  [], ◌∷◌, ◌++◌, ◌==◌, ltb, leb, if◌then◌else◌, length, replicate,
}

-- `bytes`, an array of six.
pub record MacAddress : Type 0 where
  pub bytes : List ℕ

abbrev pub of_bytes : ℕ → ℕ → ℕ → ℕ → ℕ → ℕ → MacAddress
of_bytes b0 b1 b2 b3 b4 b5 = record { bytes = b0 ∷ b1 ∷ b2 ∷ b3 ∷ b4 ∷ b5 ∷ [] }

-- The value of a hexadecimal digit.
unfoldable pub hex_value : ℕ → Option ℕ
hex_value c =
    if leb b'0' c && leb c b'9'
    then some (c - b'0')
    else (if leb b'a' c && leb c b'f'
        then some (c - b'a' + 10)
        else (if leb b'A' c && leb c b'F' then some (c - b'A' + 10) else none))

abbrev is_space : ℕ → Bool
is_space c = c == 32 || (leb 9 c && leb c 13)

abbrev skip_space : List ℕ → List ℕ
skip_space [] = []
skip_space (c ∷ cs) = let rest = skip_space cs in if is_space c then rest else c ∷ cs

-- One digit.
abbrev single : List ℕ → Option (ℕ × List ℕ)
single [] = none
single (c ∷ cs) = elim (hex_value c) [ some d ↦ some (d, cs) | none ↦ none ]

abbrev negated : Option (ℕ × List ℕ) → Option (ℕ × List ℕ)
negated none = none
negated (some (d, cs)) = some ((256 - d) % 256, cs)

-- A second digit `d`, if there is one.
abbrev second : ℕ → Bool → List ℕ → Option (ℕ × List ℕ)
second d was_zero [] = some (d, [])
second d was_zero (c ∷ cs) =
    if was_zero && (c == b'x' || c == b'X')
    then none
    else elim (hex_value c) [ some low ↦ some (d * 16 + low, cs) | none ↦ some (d, c ∷ cs) ]

-- "%02hhx", from the first character that is not white space.
unfoldable pub scan_number : List ℕ → Option (ℕ × List ℕ)
scan_number [] = none
scan_number (c ∷ cs) =
    if c == b'+'
    then single cs
    else (if c == b'-'
        then negated (single cs)
        else elim (hex_value c) [ some d ↦ second d (c == b'0') cs | none ↦ none ])

-- A further group begins with a colon.
abbrev pub after_colon : (List ℕ → List ℕ) → List ℕ → List ℕ
after_colon scan [] = []
after_colon scan (c ∷ cs) = let more = scan cs in if c == b':' then more else []

-- The values that `sscanf` assigns, for a format of so many groups.
unfoldable pub scan_groups : ℕ → List ℕ → List ℕ
scan_groups zero text = []
scan_groups (suc n) text = elim (scan_number (skip_space text)) [
  | none ↦ []
  | some (v, rest) ↦ v ∷ after_colon (scan_groups n) rest
]

-- `MacAddress(const std::string&)`: bytes that are not assigned stay 0.
unfoldable pub of_text : List ℕ → MacAddress
of_text text =
    let found = scan_groups 6 text in record { bytes = found ++ replicate (6 - length found) 0 }

unfoldable pub hex_digit : ℕ → ℕ
hex_digit d = if ltb d 10 then b'0' + d else b'a' + d - 10

-- "{:02x}".
unfoldable pub format_byte : ℕ → List ℕ
format_byte b = hex_digit (b / 16) ∷ hex_digit (b % 16) ∷ []

abbrev pub join_bytes : ℕ → List ℕ → List ℕ
join_bytes sep [] = []
join_bytes sep (b ∷ []) = format_byte b
join_bytes sep (b ∷ c ∷ cs) = format_byte b ++ sep ∷ join_bytes sep (c ∷ cs)

unfoldable pub to_string : ℕ → MacAddress → List ℕ
to_string sep m = join_bytes sep m.bytes
