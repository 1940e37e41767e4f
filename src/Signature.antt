-- ===== src/Signature.antt =====
-- internal/infra/signature/hmac.go: the signed message, its signature, and the grammar of the
-- idempotency keys. HMAC-SHA256 is a parameter; bytes are numbers.
pub mod Binding
mod Tests
use webhook_delivery_system.Prelude.{
  ℕ, Bool, true, false, ◌&&◌, ◌||◌, List, [], ◌∷◌, ◌++◌, Text, leb, ltb, length, text_eq,
  if◌then◌else◌, ◌==◌,
}

abbrev pub dot : ℕ
dot = 46

-- `BuildMessage`
unfoldable pub build_message : Text → Text → Text → Text
build_message timestamp idempotency_key body = timestamp ++ (dot ∷ idempotency_key ++ (dot ∷ body))

-- `hex.EncodeToString` of HMAC-SHA256 of the message under the secret.
pub record Mac : Type 0 where
  pub hex_mac : Text → Text → Text

-- "sha256="
abbrev pub sig_prefix : Text
sig_prefix = 115 ∷ 104 ∷ 97 ∷ 50 ∷ 53 ∷ 54 ∷ 61 ∷ []

unfoldable pub sign : Mac → Text → Text → Text
sign h message secret = sig_prefix ++ h.hex_mac message secret

-- `hmac.Equal` compares the bytes.
unfoldable pub verify : Mac → Text → Text → Text → Bool
unfolding sign
verify h message secret signature = text_eq (sign h message secret) signature

abbrev pub in_range : ℕ → ℕ → ℕ → Bool
in_range lo hi c = leb lo c && leb c hi

-- [A-Za-z0-9_-]
abbrev pub key_byte : ℕ → Bool
key_byte c = in_range 65 90 c || (in_range 97 122 c || (in_range 48 57 c || (c == 95 || c == 45)))

abbrev pub key_bytes : Text → Bool
key_bytes [] = true
key_bytes (c ∷ k) = key_byte c && key_bytes k

-- `ValidIdempotencyKey`: an absent key is valid.
unfoldable pub valid_idempotency_key : Text → Bool
valid_idempotency_key [] = true
valid_idempotency_key (c ∷ k) = if ltb 128 (length (c ∷ k)) then false else key_bytes (c ∷ k)
