-- ===== src/Api/Cursor.antt =====
-- `encodeCursor` and `decodeCursor` of internal/api/dto.go. Base64, the text of a time and the text of an
-- identifier are parameters; PostgreSQL reads an identifier from its text.
pub mod Codec
use webhook_delivery_system.Prelude.{
  ℕ, Bool, Option, none, some, [], ◌∷◌, ◌++◌, Text, text_eq, if◌then◌else◌, ◌==◌,
}
use webhook_delivery_system.Domain.{RecoveryCursor, invalid_input, Result, ok, err}
use webhook_delivery_system.Uuid.{valid_uuid}

pub record CursorLibrary : Type 0 where
  pub trim_space : Text → Text
  pub encode64 : Text → Text
  pub decode64 : Text → Option Text
  pub format_time : ℕ → Text
  pub parse_time : Text → Option ℕ
  pub id_text : ℕ → Text
  pub id_of : Text → ℕ

abbrev pub comma : ℕ
comma = 44

unfoldable pub encode_cursor : CursorLibrary → Option RecoveryCursor → Option Text
encode_cursor l none = none
encode_cursor l (some c) = some (l.encode64 (l.format_time c.due_at ++ (comma ∷ l.id_text c.id)))

-- `strings.SplitN(raw, ",", 2)`: the parts around the first comma.
abbrev pub before_first : ℕ → Option (Text × Text) → Option (Text × Text)
before_first c none = none
before_first c (some (a, b)) = some (c ∷ a, b)

abbrev pub split_comma : Text → Option (Text × Text)
split_comma [] = none
split_comma (c ∷ s) = if c == comma then some ([], s) else before_first c (split_comma s)

abbrev pub cursor_at : CursorLibrary → Text → Option ℕ → Result (Option RecoveryCursor)
cursor_at l id none = err invalid_input
cursor_at l id (some ts) =
    if valid_uuid id then ok (some (record { due_at = ts; id = l.id_of id })) else err invalid_input

abbrev pub decode_parts : CursorLibrary → Option (Text × Text) → Result (Option RecoveryCursor)
decode_parts l none = err invalid_input
decode_parts l (some (ts, id)) = cursor_at l id (l.parse_time ts)

abbrev pub decode_raw : CursorLibrary → Option Text → Result (Option RecoveryCursor)
decode_raw l none = err invalid_input
decode_raw l (some raw) = decode_parts l (split_comma raw)

-- The empty token starts from the beginning.
unfoldable pub decode_cursor : CursorLibrary → Text → Result (Option RecoveryCursor)
decode_cursor l token =
    if text_eq (l.trim_space token) []
    then ok none
    else decode_raw l (l.decode64 (l.trim_space token))
