-- ===== src/IpAddress/Text.antt =====
-- src/IPAddress.cpp: the text forms of an address. `inet_pton` and `inet_ntop` are the system's,
-- and `StringUtils::ends_with` is slogger's: they are parameters. A text is the list of its bytes.
use iuring.Prelude.{
  ℕ, zero, suc, ◌+◌, ◌-◌, ◌/◌, ◌%◌, ◌≡◌, refl, Bool, true, false, Option, none, some, List, [], ◌∷◌,
  ◌++◌, ltb, if◌then◌else◌, take, length, arith, codes, take-append, length-append, Option-cases,
  ◌⊎◌, inl, inr, ap,
}
use iuring.Outcome.{
  Outcome, done, aborted, ◌>>=◌, Expected, value, unexpected, hostname_resolve_failed,
}
use iuring.IpAddress.{get_hash, IpAddress, of_sockaddr_in, of_sockaddr_in6, get_port, valid}
use iuring.Endian.{Endian, u16, htons, htons_twice}
use iuring.IpAddress.Layout.{SockaddrIn, SockaddrIn6, In6Addr, af_inet, af_inet6}

-- What the code calls to convert: `inet_pton` (none where it does not return 1) and `inet_ntop`
-- (none for a null result), for each family, and `ends_with text suffix`.
pub record Inet : Type 0 where
  pub pton4 : List ℕ → Option ℕ
  pub pton6 : List ℕ → Option In6Addr
  pub ntop4 : ℕ → Option (List ℕ)
  pub ntop6 : In6Addr → Option (List ℕ)
  pub ends_with : List ℕ → List ℕ → Bool

-- The digits of a number, as `std::format` writes them; a port has five at most.
abbrev digits_loop : ℕ → ℕ → List ℕ → List ℕ
digits_loop zero n rest = rest
digits_loop (suc fuel) n rest =
    let digit = (48 + n % 10) ∷ rest in
    let more = digits_loop fuel (n / 10) digit in if ltb n 10 then digit else more

unfoldable pub format_port : ℕ → List ℕ
format_port n = digits_loop 5 n []

abbrev invalid_text : List ℕ
invalid_text = codes "<INVALID>"

abbrev unknown_text : List ℕ
unknown_text = codes "?.?.?.?"

abbrev or_invalid : Option (List ℕ) → List ℕ
or_invalid none = invalid_text
or_invalid (some s) = s

module _ (inet : Inet) where
  -- `IPAddress::parse`. `stack4` and `stack6` are the uninitialised locals, whose ports and padding
  -- go into the result.
  unfoldable pub parse : SockaddrIn → SockaddrIn6 → List ℕ → Expected IpAddress
  parse stack4 stack6 text = elim (inet.pton4 text) [
    | some sa ↦ value (of_sockaddr_in (record stack4 { sin_addr = sa; sin_family = af_inet }))
    | none ↦ elim (inet.pton6 text) [
      | some sa ↦ value (of_sockaddr_in6 (record stack6 { sin6_addr = sa; sin6_family = af_inet6 }))
      | none ↦ unexpected hostname_resolve_failed
    ]
  ]

  unfoldable pub to_human_readable_ip_string : IpAddress → List ℕ
  to_human_readable_ip_string a = elim a.in4 [
    | some v ↦ or_invalid (inet.ntop4 v.sin_addr)
    | none ↦ elim a.in6 [ some w ↦ or_invalid (inet.ntop6 w.sin6_addr) | none ↦ unknown_text ]
  ]

  abbrev with_port : List ℕ → List ℕ → ℕ → List ℕ
  with_port family host port = family ++ (host ++ (codes ": port " ++ format_port port))

  unfoldable pub to_human_readable_string : Endian → IpAddress → Outcome (List ℕ)
  to_human_readable_string e a = elim a.in4 [
    | some v ↦
        get_port e a >>= λ p. done (with_port (codes "v4: ") (or_invalid (inet.ntop4 v.sin_addr)) p)
    | none ↦ elim a.in6 [
      | some w ↦ get_port e a >>= λ p.
          done (with_port (codes "v6: ") (or_invalid (inet.ntop6 w.sin6_addr)) p)
      | none ↦ done unknown_text
    ]
  ]

  unfoldable pub without_mask : List ℕ → List ℕ
  without_mask text =
      if inet.ends_with text (codes "/32") then take (length text - 3) text else text

  -- A trailing "/32" is cut off; a text that is no IPv4 address aborts.
  unfoldable pub string_to_ipv4_address : List ℕ → Outcome ℕ
  string_to_ipv4_address text = elim (inet.pton4 (without_mask text)) [
    | some sa ↦ done sa
    | none ↦ aborted
  ]

  -- `create_sock_addr_in`: here the whole structure is cleared first.
  unfoldable pub create_sock_addr_in : Endian → List ℕ → ℕ → Outcome IpAddress
  create_sock_addr_in e addr port = do
    sa ← string_to_ipv4_address addr
    done (
        of_sockaddr_in (record {
          sin_family = af_inet;
          sin_port = htons e (u16 port);
          sin_addr = sa;
          sin_zero0 = 0;
          sin_zero1 = 0;
        }))

  -- What a text is read as, and the text that the address is written as.
  abbrev pub Read : List ℕ → Expected IpAddress → Type 0
  Read text o =
      ((sa : ℕ) × (a : IpAddress) × (v : SockaddrIn) × (inet.pton4 text ≡ some sa)
        × (o ≡ value a)
        × (a.in4 ≡ some v)
        × (a.in6 ≡ none)
        × (v.sin_addr ≡ sa)
        × (v.sin_family ≡ af_inet)
        × (valid a ≡ true)
        × (to_human_readable_ip_string a ≡ text))
      ⊎ (((sa : In6Addr) × (a : IpAddress) × (v : SockaddrIn6) × (inet.pton4 text ≡ none)
            × (inet.pton6 text ≡ some sa)
            × (o ≡ value a)
            × (a.in4 ≡ none)
            × (a.in6 ≡ some v)
            × (v.sin6_addr ≡ sa)
            × (v.sin6_family ≡ af_inet6)
            × (valid a ≡ true)
            × (to_human_readable_ip_string a ≡ text))
          ⊎ ((inet.pton4 text ≡ none)
              × (inet.pton6 text ≡ none)
              × (o ≡ unexpected hostname_resolve_failed)))

  without_mask_lem :
      (host : List ℕ)
      → inet.ends_with (host ++ codes "/32") (codes "/32") ≡ true
      → without_mask (host ++ codes "/32") ≡ host
  unfolding without_mask
  without_mask_lem host masked =
      let cut : length (host ++ codes "/32") - 3 ≡ length host =
        omega (arith, length-append host (codes "/32")) in
      rw (masked, cut) (take-append host (codes "/32"))

  without_mask-plain :
      (host : List ℕ) → inet.ends_with host (codes "/32") ≡ false → without_mask host ≡ host
  unfolding without_mask
  without_mask-plain host plain = rw plain

  masked_host :
      (host : List ℕ)
      → inet.ends_with (host ++ codes "/32") (codes "/32") ≡ true
      → inet.ends_with host (codes "/32") ≡ false
      → string_to_ipv4_address (host ++ codes "/32") ≡ string_to_ipv4_address host
  unfolding string_to_ipv4_address
  masked_host host masked plain =
      rw (without_mask_lem host masked, without_mask-plain host plain, string_to_ipv4_address) refl

  read_host :
      (host : List ℕ) (sa : ℕ)
      → inet.ends_with host (codes "/32") ≡ false
      → inet.pton4 host ≡ some sa
      → string_to_ipv4_address host ≡ done sa
  unfolding string_to_ipv4_address
  read_host host sa plain n = rw (without_mask-plain host plain, n, string_to_ipv4_address) refl

  unread_aborts :
      (host : List ℕ)
      → inet.ends_with host (codes "/32") ≡ false
      → inet.pton4 host ≡ none
      → string_to_ipv4_address host ≡ aborted
  unfolding string_to_ipv4_address
  unread_aborts host plain unread =
      rw (without_mask-plain host plain, unread, string_to_ipv4_address) refl

  -- With a suffix test that is right at the two texts, a trailing "/32" changes nothing: the
  -- address is that of the host before it, with the port in network order; and both forms abort if
  -- the host is no IPv4 address.
  pub create_sock_addr_in-mask :
      (e : Endian) (host : List ℕ) (port : ℕ)
      → inet.ends_with (host ++ codes "/32") (codes "/32") ≡ true
      → inet.ends_with host (codes "/32") ≡ false
      → (create_sock_addr_in e (host ++ codes "/32") port ≡ create_sock_addr_in e host port)
        × (((inet.pton4 host ≡ none) × (create_sock_addr_in e host port ≡ aborted))
            ⊎ ((sa : ℕ) × (a : IpAddress) × (inet.pton4 host ≡ some sa)
                × (create_sock_addr_in e host port ≡ done a)
                × (get_hash a ≡ done sa)
                × (get_port e a ≡ done (u16 port))))
  unfolding create_sock_addr_in
  create_sock_addr_in-mask e host port masked plain = (
    rw (masked_host host masked plain) refl,
    elim (Option-cases (inet.pton4 host)) [
      | inl n ↦ inl (n, rw (unread_aborts host plain n) refl)
      | inr (sa, n) ↦ inr (
        sa,
        of_sockaddr_in (record {
          sin_family = af_inet;
          sin_port = htons e (u16 port);
          sin_addr = sa;
          sin_zero0 = 0;
          sin_zero1 = 0;
        }),
        n,
        rw (read_host host sa plain n) refl,
        unfold get_hash in refl,
        unfold get_port in ap done (htons_twice e port),
      )
    ],
  )
