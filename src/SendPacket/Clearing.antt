-- ===== src/SendPacket/Clearing.antt =====
-- include/iuring/SendPacket.hpp: `reset`, which clears only the bytes in use, against
-- `clean_proper`, which clears the whole array.
use iuring.Prelude.{
  sym, subst, ◌<◌, inl, inr, Bool-cases, ℕ, zero, suc, ◌+◌, ◌-◌, ◌≤◌, ◌≡◌, refl, ap, ◌∙◌, List, [],
  ◌∷◌, ◌++◌, arith, ltb, ltb→lt, length, drop, write, length-write, drop-write, replicate,
  length-replicate,
}
use iuring.Outcome.{done, done-injective, Outcome}
use iuring.SendPacket.{SendPacket, append, emplace_back, reset, clean_proper}
use iuring.SendPacket.Contents.{IsValid, appended, appended-IsValid}

-- The bytes behind the size are zero.
abbrev pub IsClean : SendPacket → Type 0
IsClean p = drop p.size p.buf ≡ replicate (length p.buf - p.size) 0

-- Clearing the first n of the bytes clears all of them.
write-replicate :
    (xs : List ℕ) (n : ℕ)
    → n ≤ length xs
    → drop n xs ≡ replicate (length xs - n) 0
    → replicate n 0 ++ drop n xs ≡ replicate (length xs) 0
write-replicate xs zero h e = e ∙ ap (λ (k : ℕ). replicate k 0) (omega arith)
write-replicate [] (suc n) h e = absurd (omega arith)
write-replicate (x ∷ xs) (suc n) h e =
    ap (◌∷◌ 0)
      (write-replicate xs n (omega arith) (e ∙ ap (λ (k : ℕ). replicate k 0) (omega arith)))

-- On a valid packet whose unused bytes are zero, `reset` leaves what `clean_proper` leaves.
pub reset-eq-clean_proper : (p : SendPacket) → IsValid p → IsClean p → reset p ≡ clean_proper p
unfolding reset clean_proper
reset-eq-clean_proper p v c =
    ap (λ (b : List ℕ). record { size = 0; buf = b })
      (rw (length-replicate {A = ℕ} p.size 0)
        (write-replicate p.buf p.size (omega (arith, v.whole, v.within)) c))

drop-replicate : (n m : ℕ) → drop n (replicate m 0) ≡ replicate {A = ℕ} (m - n) 0
drop-replicate zero m = ap (λ (k : ℕ). replicate k 0) (omega arith)
drop-replicate (suc n) zero = ap (λ (k : ℕ). replicate k 0) {x = 0} (omega arith)
drop-replicate (suc n) (suc m) = drop-replicate n m ∙ ap (λ (k : ℕ). replicate k 0) (omega arith)

drop-nil : (n : ℕ) → drop {A = ℕ} n [] ≡ []
drop-nil zero = refl
drop-nil (suc n) = refl

drop-drop : (n m : ℕ) (xs : List ℕ) → drop n (drop m xs) ≡ drop (m + n) xs
drop-drop n zero xs = ap (λ (k : ℕ). drop k xs) (omega arith)
drop-drop n (suc m) [] = drop-nil n ∙ sym (drop-nil (suc m + n))
drop-drop n (suc m) (x ∷ xs) =
    let e : suc m + n ≡ suc (m + n) = omega arith in rw e (drop-drop n m xs)

written-IsClean :
    (p : SendPacket) (block : List ℕ)
    → p.size + length block ≤ length p.buf
    → IsClean p
    → IsClean (record { size = p.size + length block; buf = write p.buf p.size block })
written-IsClean p block h c =
    drop-write p.buf p.size _ block (omega arith) refl
    ∙ sym (drop-drop (length block) p.size p.buf)
    ∙ ap (drop (length block)) c
    ∙ drop-replicate (length block) (length p.buf - p.size)
    ∙ ap (λ (k : ℕ). replicate k 0) (omega (arith, length-write p.buf p.size block))

cleaned : (p : SendPacket) → IsValid p → IsValid (clean_proper p) × IsClean (clean_proper p)
unfolding clean_proper
cleaned p v = (
  record {
    whole = omega (arith, length-replicate {A = ℕ} (length p.buf) 0, v.whole);
    within = omega arith;
  },
  ap (λ (k : ℕ). replicate k 0) (omega (arith, length-replicate {A = ℕ} (length p.buf) 0)),
)

append_keeps :
    (p q : SendPacket) (block : List ℕ)
    → IsValid p
    → IsClean p
    → append p block ≡ done q
    → IsValid q × IsClean q
unfolding append
append_keeps p q block v c e = elim (Bool-cases (ltb (p.size + length block) (length p.buf))) [
  | inl fits ↦
      let room : p.size + length block < length p.buf = ltb→lt _ _ fits in
      let q_eq : appended p block ≡ q = ground arith in
      subst (λ (r : SendPacket). IsValid r × IsClean r) q_eq
        (
          appended-IsValid p block v (omega (arith, v.whole)),
          written-IsClean p block (omega arith) c,
        )
  | inr full ↦ cc
]

emplace_back-append :
    (p : SendPacket) (image : List ℕ → List ℕ) (n : ℕ)
    → ((xs : List ℕ) → length (image xs) ≡ length xs)
    → emplace_back p image n ≡ append p (image (replicate n 0))
unfolding emplace_back append
emplace_back-append p image n size_of = rw (size_of (replicate n 0) ∙ length-replicate {A = ℕ} n 0)

-- The methods that change a packet; `emplace` is `emplace_back` for an object of a given size.
pub data Method : Type 0 where
  appends : List ℕ → Method
  emplaces :
      (image : List ℕ → List ℕ) → ((xs : List ℕ) → length (image xs) ≡ length xs) → ℕ → Method
  resets : Method
  cleans : Method

abbrev pub method : Method → SendPacket → Outcome SendPacket
method (appends block) p = append p block
method (emplaces image size_of n) p = emplace_back p image n
method resets p = done (reset p)
method cleans p = done (clean_proper p)

-- Every method that succeeds on a valid packet whose unused bytes are zero leaves such a packet.
pub method-keeps_IsClean :
    (m : Method) (p q : SendPacket)
    → IsValid p
    → IsClean p
    → method m p ≡ done q
    → IsValid q × IsClean q
method-keeps_IsClean (appends block) p q v c e = append_keeps p q block v c e
method-keeps_IsClean (emplaces image size_of n) p q v c e =
    append_keeps p q (image (replicate n 0)) v c (sym (emplace_back-append p image n size_of) ∙ e)
method-keeps_IsClean resets p q v c e =
    subst (λ (r : SendPacket). IsValid r × IsClean r)
      (sym (reset-eq-clean_proper p v c) ∙ done-injective (reset p) q e) (cleaned p v)
method-keeps_IsClean cleans p q v c e =
    subst (λ (r : SendPacket). IsValid r × IsClean r) (done-injective (clean_proper p) q e)
      (cleaned p v)
