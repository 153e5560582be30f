-- ===== src/Completion/Int.antt =====
-- Signed integers, for the results of completions: a count or a descriptor, or a negated errno.
use iuring.Prelude.{ℕ, zero, suc, Bool, true, false, ◌==◌}

-- `negsuc n` is -(n + 1).
pub data ℤ : Type 0 where
  pos : ℕ → ℤ
  negsuc : ℕ → ℤ

abbrev pub is_negative : ℤ → Bool
is_negative (pos n) = false
is_negative (negsuc n) = true

-- Is it `-code`? For a positive errno.
abbrev pub is_errno : ℤ → ℕ → Bool
is_errno (pos n) code = false
is_errno (negsuc n) code = suc n == code

abbrev pub negate : ℤ → ℤ
negate (pos zero) = pos 0
negate (pos (suc n)) = negsuc n
negate (negsuc n) = pos (suc n)

-- The value of a result that is not negative.
abbrev pub magnitude : ℤ → ℕ
magnitude (pos n) = n
magnitude (negsuc n) = suc n
