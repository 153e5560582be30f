-- ===== src/Tests/Packets.antt =====
-- Examples of include/iuring/SendPacket.hpp, on a cleared packet.
use iuring.SendPacket.Contents.{IsValid, appended, append_fits}
use iuring.SendPacket.Fields.{Field, Filled, append_fields_lem}
use iuring.Outcome.{done}
use iuring.Endian.{little}
use iuring.Prelude.{ℕ, ◌≡◌, replicate, ap, ◌∷◌, [], length-replicate, sym, arith}
use iuring.SendPacket.Clearing.{IsClean, method-keeps_IsClean, reset-eq-clean_proper, appends}
use iuring.SendPacket.{reset, append, clean_proper, SendPacket, capacity}

abbrev cleared : SendPacket
cleared = record { size = 0; buf = replicate capacity 0 }

cleared-IsValid : IsValid cleared
cleared-IsValid = record { whole = length-replicate {A = ℕ} capacity 0; within = omega arith }

cleared-IsClean : IsClean cleared
cleared-IsClean = ap (λ (n : ℕ). replicate n 0) (sym (length-replicate {A = ℕ} capacity 0))

append_fields_lem_example : Filled little cleared (Field.uint16 0x1234 ∷ Field.byte 7 ∷ [])
append_fields_lem_example =
    append_fields_lem little cleared (Field.uint16 0x1234 ∷ Field.byte 7 ∷ []) cleared-IsValid

reset-eq-clean_proper_example : reset cleared ≡ clean_proper cleared
reset-eq-clean_proper_example = reset-eq-clean_proper cleared cleared-IsValid cleared-IsClean

abbrev written : SendPacket
written = appended cleared (7 ∷ 8 ∷ [])

append_two : append cleared (7 ∷ 8 ∷ []) ≡ done written
append_two = append_fits cleared (7 ∷ 8 ∷ []) (omega (arith, length-replicate {A = ℕ} capacity 0))

method-keeps_IsClean_example : IsValid written × IsClean written
method-keeps_IsClean_example =
    method-keeps_IsClean (appends (7 ∷ 8 ∷ [])) cleared written cleared-IsValid cleared-IsClean
      append_two
