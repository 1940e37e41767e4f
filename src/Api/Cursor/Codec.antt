-- ===== src/Api/Cursor/Codec.antt =====
-- The round trip of a cursor through its token: internal/api/dto.go.
use webhook_delivery_system.Prelude.{
  ℕ, ◌≡◌, refl, Bool, true, false, some, [], ◌∷◌, ◌++◌, Text, arith, text_eq, if◌then◌else◌, ◌==◌,
}
use webhook_delivery_system.Domain.{RecoveryCursor, ok}
use webhook_delivery_system.Uuid.{valid_uuid}
use webhook_delivery_system.Api.Cursor.{
  CursorLibrary, comma, encode_cursor, decode_cursor, split_comma,
}

abbrev pub has_comma : Text → Bool
has_comma [] = false
has_comma (c ∷ s) = if c == comma then true else has_comma s

-- What base64 and RFC 3339 promise: decoding undoes encoding, the alphabet has no space, only the empty
-- text has the empty encoding, and the text of a time has no comma and is read back.
pub record IsCodec (l : CursorLibrary) : Type 0 where
  pub decodes : (t : Text) → l.decode64 (l.encode64 t) ≡ some t
  pub unspaced : (t : Text) → l.trim_space (l.encode64 t) ≡ l.encode64 t
  pub given : (c : ℕ) (t : Text) → text_eq (l.encode64 (c ∷ t)) [] ≡ false
  pub no_comma : (t : ℕ) → has_comma (l.format_time t) ≡ false
  pub reads_time : (t : ℕ) → l.parse_time (l.format_time t) ≡ some t

split_at : (a b : Text) → has_comma a ≡ false → split_comma (a ++ (comma ∷ b)) ≡ some (a, b)
split_at [] b h = refl
split_at (c ∷ a) b h = ground (arith, split_at a b)

nonempty :
    (l : CursorLibrary) (k : IsCodec l) (a b : Text)
    → text_eq (l.encode64 (a ++ (comma ∷ b))) [] ≡ false
nonempty l k [] b = k.given comma b
nonempty l k (c ∷ a) b = k.given c (a ++ (comma ∷ b))

-- A cursor that was encoded is decoded to itself, for any time, and any identifier whose text is a UUID
-- that is read back as the identifier.
pub decode_cursor-encode_cursor :
    (l : CursorLibrary) (c : RecoveryCursor) (token : Text)
    → IsCodec l
    → valid_uuid (l.id_text c.id) ≡ true
    → l.id_of (l.id_text c.id) ≡ c.id
    → encode_cursor l (some c) ≡ some token
    → decode_cursor l token ≡ ok (some c)
unfolding encode_cursor decode_cursor
decode_cursor-encode_cursor l c token k valid same h =
    let raw = l.format_time c.due_at ++ (comma ∷ l.id_text c.id) in
    let e : l.encode64 raw ≡ token = cc in
    rw (← e) (
      rw (k.unspaced raw) (
        rw (nonempty l k (l.format_time c.due_at) (l.id_text c.id)) (
          rw (k.decodes raw) (
            rw (split_at (l.format_time c.due_at) (l.id_text c.id) (k.no_comma c.due_at))
              (rw (k.reads_time c.due_at) (rw valid (rw same refl)))))))
