-- ===== src/Targets/Tests.antt =====
-- Runs of the target checks of internal/domain/subscription.go and internal/infra/safedial.
use webhook_delivery_system.Prelude.{◌≡◌, refl, true, false, some, [], ◌∷◌}
use webhook_delivery_system.Domain.{invalid_input, infrastructure, ok, err}
use webhook_delivery_system.Store.Lifecycle.{Validators}
use webhook_delivery_system.Targets.{
  Url, UrlLibrary, http, https, validate_target_url, check_redirect,
}
use webhook_delivery_system.Targets.Schemes.{IsTarget, validate_target_url-IsTarget}

abbrev lenient : Validators
lenient = record { json_valid = λ t. true; utf8_valid = λ t. true; rune_count = λ t. 3 }

-- Every text parses to a plain http URL of the host "h".
abbrev plain : UrlLibrary
plain = record {
  trim_space = λ t. t;
  parse = λ t. some (record { scheme = http; host = 104 ∷ [] });
}

no_plain_http : validate_target_url lenient plain false (104 ∷ []) ≡ err invalid_input
unfolding validate_target_url
no_plain_http = refl

fourth_request : check_redirect true 3 https ≡ err infrastructure
unfolding check_redirect
fourth_request = refl

accepts_http : validate_target_url lenient plain true (104 ∷ []) ≡ ok tt
unfolding validate_target_url
accepts_http = refl

validate_target_url-IsTarget_example : (u : Url) × IsTarget lenient plain true (104 ∷ []) u
validate_target_url-IsTarget_example =
    validate_target_url-IsTarget lenient plain true (104 ∷ []) accepts_http
