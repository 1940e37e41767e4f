-- ===== src/Uuid/Tests.antt =====
-- Runs of internal/infra/idgen/idgen.go.
use webhook_delivery_system.Prelude.{ℕ, ◌%◌, ◌<◌, ◌≡◌, refl, true, some, Text, arith, length}
use webhook_delivery_system.Uuid.{valid_uuid}
use webhook_delivery_system.Uuid.Generation.{
  format_uuid, hex_from, new_uuid_v4, new_secret_key, item_at, is_variant, new_uuid_v4_valid,
  new_secret_key_injective,
}

-- The bytes 0, 1, 2, and so on.
abbrev counting : ℕ → ℕ
counting i = i % 256

minted : new_uuid_v4 (some counting) ≡ some (format_uuid counting)
unfolding new_uuid_v4
minted = refl

new_uuid_v4_valid_example :
    (valid_uuid (format_uuid counting) ≡ true)
    × (item_at 14 (format_uuid counting) ≡ some 52)
    × ((v : ℕ) × (item_at 19 (format_uuid counting) ≡ some v) × (is_variant v ≡ true))
new_uuid_v4_valid_example =
    new_uuid_v4_valid counting (format_uuid counting) (λ i. omega arith) minted

abbrev secret : Text
secret = hex_from counting 0 32

secret_minted : new_secret_key (some counting) ≡ some secret
unfolding new_secret_key
secret_minted = refl

new_secret_key_injective_example :
    (length secret ≡ 64) × ((k : ℕ) → k < 32 → counting k ≡ counting k)
new_secret_key_injective_example =
    new_secret_key_injective counting counting secret (λ i. omega arith) (λ i. omega arith)
      secret_minted secret_minted
