-- ===== src/Signature/Tests.antt =====
-- Runs of the message and key grammar of internal/infra/signature/hmac.go.
use webhook_delivery_system.Prelude.{◌≡◌, Text, refl, true, false, [], ◌∷◌}
use webhook_delivery_system.Signature.{valid_idempotency_key}
use webhook_delivery_system.Signature.Binding.{build_message_injective}

no_dot_in_key : valid_idempotency_key (97 ∷ 46 ∷ []) ≡ false
unfolding valid_idempotency_key
no_dot_in_key = refl

valid_key : valid_idempotency_key (97 ∷ 45 ∷ []) ≡ true
unfolding valid_idempotency_key
valid_key = refl

abbrev stamp : Text
stamp = 49 ∷ 55 ∷ []

abbrev client_key : Text
client_key = 97 ∷ 45 ∷ []

abbrev body : Text
body = 123 ∷ 46 ∷ 125 ∷ []

build_message_injective_example : (stamp ≡ stamp) × ((client_key ≡ client_key) × (body ≡ body))
build_message_injective_example =
    build_message_injective stamp stamp client_key client_key body body refl refl valid_key
      valid_key refl
