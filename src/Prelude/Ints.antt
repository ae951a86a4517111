-- ===== src/Prelude/Ints.antt =====
-- Signed numbers over the native ones, with the operations that the source makes on `i64`.
use Prim.Native.Nat.{ℕ, zero, suc, ◌+◌, ◌-◌}
use mathlib.Core.Bool.{Bool, false}
use mathlib.Core.Option.{Option, none, some}
use mathlib.Core.List.{[], ◌∷◌}
use canonical_api_server_rs.Prelude.Texts.{Text, parse_digits, parse_unsigned}
use canonical_api_server_rs.Prelude.Tests.{ltb, ◌==◌, if◌then◌else◌}

pub data ℤ : Type 0 where
  pos negsuc : ℕ → ℤ

abbrev pub i64_max : ℕ
i64_max = 9223372036854775807

abbrev pub int_eq : ℤ → ℤ → Bool
int_eq (pos a) (pos b) = a == b
int_eq (negsuc a) (negsuc b) = a == b
int_eq _ _ = false

abbrev pub is_positive : ℤ → Bool
is_positive (pos n) = ltb 0 n
is_positive (negsuc n) = false

-- `checked_add(1)`
abbrev pub checked_inc : ℤ → Option ℤ
checked_inc (pos n) = if ltb n i64_max then some (pos (suc n)) else none
checked_inc (negsuc zero) = some (pos 0)
checked_inc (negsuc (suc n)) = some (negsuc n)

abbrev pub abs_diff : ℤ → ℤ → ℕ
abs_diff (pos a) (pos b) = (a - b) + (b - a)
abs_diff (negsuc a) (negsuc b) = (a - b) + (b - a)
abs_diff (pos a) (negsuc b) = suc (a + b)
abs_diff (negsuc a) (pos b) = suc (a + b)

-- `a - b > n`
abbrev pub exceeds_by : ℕ → ℤ → ℤ → Bool
exceeds_by n (pos a) (pos b) = ltb (b + n) a
exceeds_by n (pos a) (negsuc b) = ltb n (suc (a + b))
exceeds_by n (negsuc a) (pos b) = false
exceeds_by n (negsuc a) (negsuc b) = ltb (a + n) b

-- `i64::parse`
abbrev pub negate : ℕ → ℤ
negate zero = pos 0
negate (suc n) = negsuc n

abbrev pub map_pos : Option ℕ → Option ℤ
map_pos none = none
map_pos (some n) = some (pos n)

abbrev pub map_negate : Option ℕ → Option ℤ
map_negate none = none
map_negate (some n) = some (negate n)

abbrev pub parse_negative : Text → Option ℤ
parse_negative [] = none
parse_negative (c ∷ s) = map_negate (parse_digits (suc i64_max) (c ∷ s) 0)

unfoldable pub parse_i64 : Text → Option ℤ
unfolding parse_unsigned
parse_i64 [] = none
parse_i64 (c ∷ s) = if c == b'-' then parse_negative s else map_pos (parse_unsigned i64_max (c ∷ s))
