-- ===== src/Targets.antt =====
-- `ValidateTargetURL` of internal/domain/subscription.go, and the redirect policy of
-- internal/infra/safedial/dialer.go. `url.Parse`, `strings.TrimSpace` and the UTF-8 functions are
-- parameters.
pub mod Schemes
mod Tests
use webhook_delivery_system.Prelude.{
  ℕ, Bool, true, false, ◌&&◌, ◌||◌, not, Option, none, some, List, [], ◌∷◌, Text, text_eq, ltb, leb,
  length, if◌then◌else◌,
}
use webhook_delivery_system.Domain.{
  Error, invalid_input, infrastructure, Result, ok, err, max_target_url_length,
}
use webhook_delivery_system.Store.Lifecycle.{Validators}

pub record Url : Type 0 where
  pub scheme : Text
  pub host : Text

pub record UrlLibrary : Type 0 where
  pub trim_space : Text → Text
  pub parse : Text → Option Url

abbrev pub http : Text
http = 104 ∷ 116 ∷ 116 ∷ 112 ∷ []

abbrev pub https : Text
https = 104 ∷ 116 ∷ 116 ∷ 112 ∷ 115 ∷ []

-- https, or http where it is allowed.
abbrev pub scheme_allowed : Bool → Text → Bool
scheme_allowed allow_http scheme = text_eq scheme https || (text_eq scheme http && allow_http)

unfoldable pub url_checked : Bool → Option Url → Result (Unit {0})
url_checked allow_http none = err invalid_input
url_checked allow_http (some u) =
    if text_eq u.host []
    then err invalid_input
    else if scheme_allowed allow_http u.scheme
    then ok tt
    else err invalid_input

unfoldable pub validate_target_url : Validators → UrlLibrary → Bool → Text → Result (Unit {0})
unfolding url_checked
validate_target_url v l allow_http raw =
    if text_eq (l.trim_space raw) []
    then err invalid_input
    else if not (v.utf8_valid raw) || ltb max_target_url_length (v.rune_count raw)
    then err invalid_input
    else url_checked allow_http (l.parse raw)

-- `checkRedirect`: the scheme of the next request, after `hops` requests.
unfoldable pub check_redirect : Bool → ℕ → Text → Result (Unit {0})
check_redirect allow_http hops scheme =
    if leb 3 hops
    then err infrastructure
    else if scheme_allowed allow_http scheme
    then ok tt
    else err infrastructure
