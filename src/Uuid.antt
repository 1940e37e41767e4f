-- ===== src/Uuid.antt =====
-- internal/domain/uuid.go: the grammar of the identifiers that come from outside.
pub mod Generation
mod Tests
use webhook_delivery_system.Prelude.{
  ℕ, ◌+◌, Bool, true, ◌&&◌, ◌||◌, [], ◌∷◌, Text, leb, length, if◌then◌else◌, ◌==◌,
}

abbrev pub is_hex : ℕ → Bool
is_hex c = (leb 48 c && leb c 57) || ((leb 97 c && leb c 102) || (leb 65 c && leb c 70))

abbrev pub is_hyphen_place : ℕ → Bool
is_hyphen_place i = i == 8 || (i == 13 || (i == 18 || i == 23))

-- The bytes from position `i` on. A byte that is not ASCII is not a hexadecimal digit, so that the
-- positions of the characters that the loop meets before it stops are those of the bytes.
pub valid_from : ℕ → Text → Bool
valid_from i [] = true
valid_from i (c ∷ s) = (if is_hyphen_place i then c == 45 else is_hex c) && valid_from (i + 1) s

unfoldable pub valid_uuid : Text → Bool
unfolding valid_from
valid_uuid s = length s == 36 && valid_from 0 s
