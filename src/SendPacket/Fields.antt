-- ===== src/SendPacket/Fields.antt =====
-- include/iuring/SendPacket.hpp: a packet that is filled field by field.
use iuring.Prelude.{
  ℕ, ◌+◌, ◌/◌, ◌%◌, ◌≤◌, ◌<◌, ◌≡◌, ◌⊎◌, inl, inr, refl, sym, ap, ◌∙◌, List, [], ◌∷◌, ◌++◌, length,
  arith, Bool-cases, ltb, ltb→lt, append-nil, append_assoc, length-append,
}
use iuring.Outcome.{Outcome, done, aborted, ◌>>=◌}
use iuring.Endian.{Endian, bytes16, bytes32, bytes16-htons, bytes32-htonl}
use iuring.SendPacket.{
  SendPacket, capacity, append, append_byte, append_uint16, append_uint32, to_string,
}
use iuring.SendPacket.Contents.{
  IsValid, appended, append_fits, appended-IsValid, to_string-appended,
}

-- An argument of one of the appending methods.
pub data Field : Type 0 where
  byte : ℕ → Field
  uint16 : ℕ → Field
  uint32 : ℕ → Field
  block : List ℕ → Field

unfoldable pub append_field : Endian → SendPacket → Field → Outcome SendPacket
append_field e p (Field.byte b) = append_byte p b
append_field e p (Field.uint16 v) = append_uint16 e p v
append_field e p (Field.uint32 v) = append_uint32 e p v
append_field e p (Field.block bytes) = append p bytes

unfoldable pub append_fields : Endian → SendPacket → List Field → Outcome SendPacket
unfolding append_field
append_fields e p [] = done p
append_fields e p (f ∷ fs) = append_field e p f >>= λ q. append_fields e q fs

-- A field on the wire: integers with their most significant byte first.
abbrev pub wire : Field → List ℕ
wire (Field.byte b) = b ∷ []
wire (Field.uint16 v) = (v / 256 % 256) ∷ (v % 256) ∷ []
wire (Field.uint32 v) = (v / 16777216 % 256) ∷ (v / 65536 % 256) ∷ (v / 256 % 256) ∷ (v % 256) ∷ []
wire (Field.block bytes) = bytes

abbrev pub wires : List Field → List ℕ
wires [] = []
wires (f ∷ fs) = wire f ++ wires fs

append_field_lem :
    (e : Endian) (p : SendPacket) (f : Field) → append_field e p f ≡ append p (wire f)
unfolding append_field append_byte append_uint16 append_uint32 bytes16 bytes32
append_field_lem e p (Field.byte b) = refl
append_field_lem e p (Field.uint16 v) = ap (append p) (bytes16-htons e v)
append_field_lem e p (Field.uint32 v) = ap (append p) (bytes32-htonl e v)
append_field_lem e p (Field.block bytes) = refl

append_full :
    (p : SendPacket) (bytes : List ℕ)
    → length p.buf ≡ capacity
    → capacity ≤ p.size + length bytes
    → append p bytes ≡ aborted
unfolding append
append_full p bytes whole full = ground (arith, whole)

-- What a run of fields does to a valid packet.
abbrev pub Filled : Endian → SendPacket → List Field → Type 0
Filled e p fs =
    ((p.size + length (wires fs) < capacity)
      × ((q : SendPacket) × (append_fields e p fs ≡ done q)
          × IsValid q
          × (to_string q ≡ to_string p ++ wires fs)))
    ⊎ ((capacity ≤ p.size + length (wires fs)) × (append_fields e p fs ≡ aborted))

after_field :
    (e : Endian) (p : SendPacket) (f : Field) (fs : List Field)
    → IsValid p
    → p.size + length (wire f) < capacity
    → Filled e (appended p (wire f)) fs
    → Filled e p (f ∷ fs)
unfolding append_fields
after_field e p f fs v fits rest =
    let count = length-append (wire f) (wires fs) in
    let step : append_field e p f ≡ done (appended p (wire f)) =
      append_field_lem e p f ∙ append_fits p (wire f) (omega (arith, v.whole)) in
    elim rest [
      | inl (room, (q, run, valid, text)) ↦ inl (
        omega (arith, count),
        (
          q,
          rw step run,
          valid,
          text
              ∙ ap (λ (xs : List ℕ). xs ++ wires fs) (to_string-appended p (wire f) v)
              ∙ append_assoc (to_string p) (wire f) (wires fs),
        ),
      )
      | inr (full, run) ↦ inr (omega (arith, count), rw step run)
    ]

-- On a valid packet and hosts of either byte order, a run of appending calls, of any of the four
-- methods, succeeds exactly when the size and the bytes of all the fields stay below the capacity;
-- then the packet holds the old contents and after them the fields in their order, each integer
-- with its most significant byte first. Otherwise the run aborts.
pub append_fields_lem : (e : Endian) (p : SendPacket) (fs : List Field) → IsValid p → Filled e p fs
unfolding append_fields
append_fields_lem e p [] v =
    inl (omega (arith, v.within), (p, refl, v, sym (append-nil (to_string p))))
append_fields_lem e p (f ∷ fs) v = elim (Bool-cases (ltb (p.size + length (wire f)) capacity)) [
  | inl fits ↦
      let h = ltb→lt _ _ fits in
      after_field e p f fs v h
        (append_fields_lem e (appended p (wire f)) fs (appended-IsValid p (wire f) v h))
  | inr no_room ↦
      let full : capacity ≤ p.size + length (wire f) = ground arith in
      let stops : append_field e p f ≡ aborted =
        append_field_lem e p f ∙ append_full p (wire f) v.whole full in
      inr (omega (arith, length-append (wire f) (wires fs)), rw stops refl)
]
