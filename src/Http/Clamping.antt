-- ===== src/Http/Clamping.antt =====
-- `parseClampedInt`, `parseLimit` and `parseHours` of internal/api/request.go.
use webhook_delivery_system.Prelude.{
  ℕ, ◌≤◌, Option, none, some, [], ◌∷◌, Text, arith, ltb, if◌then◌else◌,
}
use webhook_delivery_system.Http.Numbers.{ℤ, pos, negsuc, parse_int}

abbrev pub clamped : ℕ → ℕ → Option ℤ → ℕ
clamped def max none = def
clamped def max (some (negsuc n)) = def
clamped def max (some (pos n)) = if ltb n 1 then def else if ltb max n then max else n

-- An absent parameter is the empty text, which is no number.
unfoldable pub parse_clamped_int : Text → ℕ → ℕ → ℕ
unfolding parse_int
parse_clamped_int [] def max = def
parse_clamped_int (c ∷ s) def max = clamped def max (parse_int (c ∷ s))

abbrev pub parse_limit : Text → ℕ → ℕ → ℕ
parse_limit v def max = parse_clamped_int v def max

abbrev pub parse_hours : Text → ℕ → ℕ
parse_hours v def = parse_clamped_int v def 8760

clamped_bounds :
    (def max : ℕ) (o : Option ℤ)
    → 1 ≤ def
    → def ≤ max
    → (1 ≤ clamped def max o) × (clamped def max o ≤ max)
clamped_bounds def max none h l = (h, l)
clamped_bounds def max (some (negsuc n)) h l = (h, l)
clamped_bounds def max (some (pos n)) h l = ground arith

-- A numeric query parameter whose default is within 1 and the maximum gives a number within 1 and
-- the maximum, whatever text it is.
pub parse_clamped_int_bounds :
    (v : Text) (def max : ℕ)
    → 1 ≤ def
    → def ≤ max
    → (1 ≤ parse_clamped_int v def max) × (parse_clamped_int v def max ≤ max)
unfolding parse_clamped_int
parse_clamped_int_bounds [] def max h l = (h, l)
parse_clamped_int_bounds (c ∷ s) def max h l = clamped_bounds def max (parse_int (c ∷ s)) h l
