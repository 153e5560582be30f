-- ===== src/MacAddress/RoundTrip.antt =====
-- include/iuring/MacAddress.hpp: a text that `to_string` writes, read again.
use iuring.Prelude.{
  ◌-◌, ◌==◌, ◌++◌, ◌/◌, ◌%◌, some, ℕ, ◌≡◌, refl, false, List, [], ◌∷◌, arith, ◌<◌, All,
  append_assoc, subst, ◌∙◌, ap, append-nil,
}
use iuring.MacAddress.{
  some, skip_space, is_space, length, join_bytes, after_colon, suc, zero, MacAddress, hex_value,
  hex_digit, format_byte, scan_number, scan_groups, of_text, to_string,
}

hex_value-hex_digit : (d : ℕ) → d < 16 → hex_value (hex_digit d) ≡ some d
unfolding hex_value hex_digit
hex_value-hex_digit d h = ground arith

hex_digit_plain :
    (d : ℕ)
    → d < 16
    → ((hex_digit d == b'+') ≡ false)
      × ((hex_digit d == b'-') ≡ false)
      × ((hex_digit d == b'x') ≡ false)
      × ((hex_digit d == b'X') ≡ false)
      × (is_space (hex_digit d) ≡ false)
unfolding hex_digit
hex_digit_plain d h = ground arith

scan_number-format_byte :
    (b : ℕ) (rest : List ℕ)
    → b < 256
    → scan_number (skip_space (format_byte b ++ rest)) ≡ some (b, rest)
unfolding format_byte scan_number
scan_number-format_byte b rest h =
    let high = hex_digit_plain (b / 16) (omega arith) in
    let low = hex_digit_plain (b % 16) (omega arith) in
    let a = hex_value-hex_digit (b / 16) (omega arith) in
    let c = hex_value-hex_digit (b % 16) (omega arith) in
    rw (high.4, high.0, high.1, a, low.2, low.3, c) (ground arith)

scan_groups-suc :
    (n : ℕ) (text : List ℕ) (v : ℕ) (rest : List ℕ)
    → scan_number (skip_space text) ≡ some (v, rest)
    → scan_groups (suc n) text ≡ v ∷ after_colon (scan_groups n) rest
unfolding scan_groups
scan_groups-suc n text v rest e = rw (scan_groups, e) refl

no_more : (rest : List ℕ) → after_colon (scan_groups zero) rest ≡ []
unfolding scan_groups
no_more [] = refl
no_more (c ∷ cs) = ground arith

scan_groups-join_bytes :
    (bs rest : List ℕ)
    → All (λ b. b < 256) bs
    → scan_groups (length bs) (join_bytes b':' bs ++ rest) ≡ bs
scan_groups-join_bytes [] rest h = unfold scan_groups in refl
scan_groups-join_bytes (b ∷ []) rest (h, _) =
    scan_groups-suc 0 _ b rest (scan_number-format_byte b rest h) ∙ ap (◌∷◌ b) (no_more rest)
scan_groups-join_bytes (b ∷ c ∷ cs) rest (h, hs) =
    let more = scan_groups-join_bytes (c ∷ cs) rest hs in
    let tail = b':' ∷ (join_bytes b':' (c ∷ cs) ++ rest) in
    ap (scan_groups (length (b ∷ c ∷ cs)))
      (append_assoc (format_byte b) (b':' ∷ join_bytes b':' (c ∷ cs)) rest)
    ∙ scan_groups-suc (length (c ∷ cs)) _ b tail (scan_number-format_byte b tail h)
    ∙ ap (◌∷◌ b) more

-- A text of six bytes below 256 with colons between them, whatever stands behind, is read as these
-- bytes.
pub of_text-to_string :
    (m : MacAddress) (rest : List ℕ)
    → length m.bytes ≡ 6
    → All (λ b. b < 256) m.bytes
    → of_text (to_string b':' m ++ rest) ≡ m
unfolding of_text to_string
of_text-to_string m rest six small =
    let read : scan_groups 6 (join_bytes b':' m.bytes ++ rest) ≡ m.bytes =
      subst (λ (n : ℕ). scan_groups n (join_bytes b':' m.bytes ++ rest) ≡ m.bytes) six
        (scan_groups-join_bytes m.bytes rest small) in
    let exact : (6 - length m.bytes) ≡ 0 = omega arith in
    ap (λ (bs : List ℕ). record { bytes = bs }) (rw (read, exact) (append-nil m.bytes))
