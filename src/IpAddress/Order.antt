-- ===== src/IpAddress/Order.antt =====
-- include/iuring/IPAddress.hpp: `operator<` and `operator==` as relations.
use iuring.Prelude.{
  ◌≡◌, ◌≢◌, ◌↔◌, sym, refl, ◌∙◌, true, false, not, ◌&&◌, none, some, arith, Bool-cases, ◌⊎◌, inl,
  inr,
}
use iuring.Outcome.{done}
use iuring.IpAddress.Layout.{SockaddrIn, SockaddrIn6}
use iuring.IpAddress.{IpAddress, get_hash, less, equal}

-- One family is set, as every constructor with an argument leaves it.
abbrev pub IsSingle : IpAddress → Type 0
IsSingle a =
    ((v : SockaddrIn) × (a.in4 ≡ some v) × (a.in6 ≡ none))
    ⊎ ((v : SockaddrIn6) × (a.in4 ≡ none) × (a.in6 ≡ some v))

abbrev pub AgreeIn4 : SockaddrIn → SockaddrIn → Type 0
AgreeIn4 v w = (v.sin_port ≡ w.sin_port) × (v.sin_addr ≡ w.sin_addr) × (v.sin_family ≡ w.sin_family)

abbrev pub AgreeIn6 : SockaddrIn6 → SockaddrIn6 → Type 0
AgreeIn6 v w =
    (v.sin6_port ≡ w.sin6_port)
    × (v.sin6_addr.word0 ≡ w.sin6_addr.word0)
    × (v.sin6_addr.word1 ≡ w.sin6_addr.word1)
    × (v.sin6_addr.word2 ≡ w.sin6_addr.word2)
    × (v.sin6_addr.word3 ≡ w.sin6_addr.word3)
    × (v.sin6_family ≡ w.sin6_family)

-- The addresses have one family, and agree in the port, the address and the family's number.
abbrev pub Agree : IpAddress → IpAddress → Type 0
Agree a b =
    ((v : SockaddrIn) × (w : SockaddrIn) × (a.in4 ≡ some v) × (b.in4 ≡ some w) × AgreeIn4 v w)
    ⊎ ((v : SockaddrIn6) × (w : SockaddrIn6) × (a.in6 ≡ some v) × (b.in6 ≡ some w) × AgreeIn6 v w)

Agree-equal : (a b : IpAddress) → IsSingle a → IsSingle b → Agree a b → equal a b ≡ true
unfolding equal
Agree-equal a b s t (inl (v, w, x, y, (p, q, r))) = rw (x, y) (ground (arith, p, q, r))
Agree-equal a b (inl (u, x, n)) t (inr (v, w, y, z, g)) = absurd (cc)
Agree-equal a b (inr (u, n, x)) (inl (u2, y, m)) (inr (v, w, y2, z, g)) = absurd (cc)
Agree-equal a b (inr (u, n, x)) (inr (u2, m, y)) (inr (v, w, y2, z, (p, q0, q1, q2, q3, r))) =
    rw (n, y2, z) (ground (arith, p, q0, q1, q2, q3, r))

equal-Agree : (a b : IpAddress) → IsSingle a → IsSingle b → equal a b ≡ true → Agree a b
unfolding equal
equal-Agree a b (inl (v, x, n)) (inl (w, y, m)) h =
    let same = rw (x, y) at h in inl (v, w, x, y, (ground arith, ground arith, ground arith))
equal-Agree a b (inl (v, x, n)) (inr (w, m, y)) h = absurd (ground arith)
equal-Agree a b (inr (v, n, x)) (inl (w, y, m)) h = absurd (ground arith)
equal-Agree a b (inr (v, n, x)) (inr (w, m, y)) h =
    let same = rw (n, x, y) at h in
    inr (
      v,
      w,
      x,
      y,
      (ground arith, ground arith, ground arith, ground arith, ground arith, ground arith),
    )

Agree-refl : (a : IpAddress) → IsSingle a → Agree a a
Agree-refl a (inl (v, x, n)) = inl (v, v, x, x, (refl, refl, refl))
Agree-refl a (inr (v, n, x)) = inr (v, v, x, x, (refl, refl, refl, refl, refl, refl))

Agree-sym : (a b : IpAddress) → Agree a b → Agree b a
Agree-sym a b (inl (v, w, x, y, (p, q, r))) = inl (w, v, y, x, (sym p, sym q, sym r))
Agree-sym a b (inr (v, w, x, y, (p, q0, q1, q2, q3, r))) =
    inr (w, v, y, x, (sym p, sym q0, sym q1, sym q2, sym q3, sym r))

Agree-trans : (a b c : IpAddress) → IsSingle b → Agree a b → Agree b c → Agree a c
Agree-trans a b c s (inl (v, w, x, y, (p, q, r))) (inl (w2, z, y2, k, (p2, q2, r2))) =
    let same : w ≡ w2 = cc in
    inl (v, z, x, k, (rw same at p ∙ p2, rw same at q ∙ q2, rw same at r ∙ r2))
Agree-trans a b c (inl (u, e, n)) (inl (v, w, x, y, g)) (inr (w2, z, y2, k, g2)) = absurd (cc)
Agree-trans a b c (inr (u, n, e)) (inl (v, w, x, y, g)) (inr (w2, z, y2, k, g2)) = absurd (cc)
Agree-trans a b c (inl (u, e, n)) (inr (v, w, x, y, g)) (inl (w2, z, y2, k, g2)) = absurd (cc)
Agree-trans a b c (inr (u, n, e)) (inr (v, w, x, y, g)) (inl (w2, z, y2, k, g2)) = absurd (cc)
Agree-trans a b c s (inr (v, w, x, y, (p, q0, q1, q2, q3, r)))
      (inr (w2, z, y2, k, (p2, m0, m1, m2, m3, r2))) =
    let same : w ≡ w2 = cc in
    inr (
      v,
      z,
      x,
      k,
      (
        rw same at p ∙ p2,
        rw same at q0 ∙ m0,
        rw same at q1 ∙ m1,
        rw same at q2 ∙ m2,
        rw same at q3 ∙ m3,
        rw same at r ∙ r2,
      ),
    )

Agree-hash : (a b : IpAddress) → IsSingle a → IsSingle b → Agree a b → get_hash a ≡ get_hash b
unfolding get_hash
Agree-hash a b s t (inl (v, w, x, y, (p, q, r))) = rw (x, y, q) refl
Agree-hash a b (inl (u, x, n)) t (inr (v, w, y, z, g)) = absurd (cc)
Agree-hash a b (inr (u, n, x)) (inl (u2, y, m)) (inr (v, w, y2, z, g)) = absurd (cc)
Agree-hash a b (inr (u, n, x)) (inr (u2, m, y)) (inr (v, w, y2, z, (p, q0, q1, q2, q3, r))) =
    rw (n, m, y2, z, q0, q1, q2, q3) refl

less-same : (a b : IpAddress) → get_hash a ≡ get_hash b → less a b ≢ done true
unfolding less
less-same a b e h = ground arith

equal-sym : (a b : IpAddress) → IsSingle a → IsSingle b → equal a b ≡ true → equal b a ≡ true
equal-sym a b s t h = Agree-equal b a t s (Agree-sym a b (equal-Agree a b s t h))

-- On addresses of one family, `operator==` finds two equal exactly if they have the same family
-- and agree in the port, the address and the family's number; it is reflexive, symmetric and
-- transitive. Two addresses are different, or they have one hash and neither is less than the
-- other.
pub equal_equivalence :
    (a b c : IpAddress)
    → IsSingle a
    → IsSingle b
    → IsSingle c
    → ((equal a b ≡ true) ↔ Agree a b)
      × (equal a a ≡ true)
      × (equal b a ≡ equal a b)
      × (equal a b && (equal b c && not (equal a c)) ≡ false)
      × ((equal a b ≡ false)
          ⊎ ((get_hash a ≡ get_hash b) × (less a b ≢ done true) × (less b a ≢ done true)))
equal_equivalence a b c s t u = (
  (equal-Agree a b s t, Agree-equal a b s t),
  Agree-equal a a s s (Agree-refl a s),
  elim (Bool-cases (equal a b)) [
    | inl found ↦ rw (found, equal-sym a b s t found) refl
    | inr other ↦ elim (Bool-cases (equal b a)) [
      | inl found ↦ absurd (cc (other, equal-sym b a t s found))
      | inr other2 ↦ rw (other, other2) refl
    ]
  ],
  elim (Bool-cases (equal a b)) [
    | inl found ↦ elim (Bool-cases (equal b c)) [
      | inl also ↦
          let both =
            Agree-equal a c s u
              (Agree-trans a b c t (equal-Agree a b s t found) (equal-Agree b c t u also)) in
          rw (found, also, both) refl
      | inr other ↦ rw (found, other) refl
    ]
    | inr other ↦ rw other refl
  ],
  elim (Bool-cases (equal a b)) [
    | inl found ↦
        let same = Agree-hash a b s t (equal-Agree a b s t found) in
        inr (same, less-same a b same, less-same b a (sym same))
    | inr other ↦ inl other
  ],
)
