-- ===== src/Http/Numbers.antt =====
-- `strconv.ParseInt` in base 10 for 64 bits, as the source uses it, and `strconv.Atoi`.
use webhook_delivery_system.Prelude.{
  ℕ, zero, suc, ◌+◌, ◌*◌, ◌-◌, Bool, ◌&&◌, Option, none, some, [], ◌∷◌, Text, leb, if◌then◌else◌,
  ◌==◌,
}

-- `negsuc n` is -(n + 1).
pub data ℤ : Type 0 where
  pos negsuc : ℕ → ℤ

abbrev pub is_digit : ℕ → Bool
is_digit c = leb 48 c && leb c 57

-- The digits after the number `acc`.
unfoldable pub digits_from : ℕ → Text → Option ℕ
digits_from acc [] = some acc
digits_from acc (c ∷ s) =
    let rest = digits_from (acc * 10 + (c - 48)) s in if is_digit c then rest else none

unfoldable pub digits : Text → Option ℕ
unfolding digits_from
digits [] = none
digits (c ∷ s) = digits_from 0 (c ∷ s)

abbrev pub positive : Option ℕ → Option ℤ
positive none = none
positive (some n) = if leb n 9223372036854775807 then some (pos n) else none

abbrev pub negative : Option ℕ → Option ℤ
negative none = none
negative (some zero) = some (pos 0)
negative (some (suc n)) = if leb n 9223372036854775807 then some (negsuc n) else none

unfoldable pub parse_int : Text → Option ℤ
unfolding digits
parse_int [] = none
parse_int (c ∷ s) =
    if c == 45
    then negative (digits s)
    else if c == 43
    then positive (digits s)
    else positive (digits (c ∷ s))
