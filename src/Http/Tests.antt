-- ===== src/Http/Tests.antt =====
-- Runs of the number parsing of internal/api/request.go.
use webhook_delivery_system.Prelude.{◌≤◌, ◌≡◌, refl, none, some, [], ◌∷◌, arith}
use webhook_delivery_system.Http.Numbers.{negsuc, parse_int}
use webhook_delivery_system.Http.Clamping.{parse_clamped_int, parse_clamped_int_bounds}

minus_twelve : parse_int (45 ∷ 49 ∷ 50 ∷ []) ≡ some (negsuc 11)
unfolding parse_int
minus_twelve = refl

no_digits : parse_int (43 ∷ []) ≡ none
unfolding parse_int
no_digits = refl

-- limit=500
capped_limit : parse_clamped_int (53 ∷ 48 ∷ 48 ∷ []) 20 100 ≡ 100
unfolding parse_clamped_int parse_int
capped_limit = refl

parse_clamped_int_bounds_example :
    (1 ≤ parse_clamped_int (45 ∷ 51 ∷ []) 20 100) × (parse_clamped_int (45 ∷ 51 ∷ []) 20 100 ≤ 100)
parse_clamped_int_bounds_example =
    parse_clamped_int_bounds (45 ∷ 51 ∷ []) 20 100 (omega arith) (omega arith)
