-- ===== src/Targets/Schemes.antt =====
-- What a target that was accepted, and a redirect that is followed, have in common.
use webhook_delivery_system.Prelude.{
  ◌≤◌, ◌≡◌, ◌≢◌, ◌⊎◌, refl, Bool, true, false, Option, none, some, [], Text, arith, text_eq,
  text_eq_iff, text_ne, inl, inr, Bool-cases,
}
use webhook_delivery_system.Domain.{ok, max_target_url_length}
use webhook_delivery_system.Store.Lifecycle.{Validators}
use webhook_delivery_system.Targets.{
  Url, UrlLibrary, https, http, scheme_allowed, url_checked, validate_target_url,
}

-- A parsed target with a host, over https unless http is allowed.
pub record IsTarget (v : Validators) (l : UrlLibrary) (allow_http : Bool) (raw : Text) (u : Url)
    : Type 0 where
  pub parsed : l.parse raw ≡ some u
  pub has_host : u.host ≢ []
  pub short : v.rune_count raw ≤ max_target_url_length
  pub valid : v.utf8_valid raw ≡ true
  pub secure : (u.scheme ≡ https) ⊎ ((u.scheme ≡ http) × (allow_http ≡ true))

scheme_secure :
    (allow_http : Bool) (s : Text)
    → scheme_allowed allow_http s ≡ true
    → (s ≡ https) ⊎ ((s ≡ http) × (allow_http ≡ true))
scheme_secure allow_http s h = elim (Bool-cases (text_eq s https)) [
  | inl secure ↦ inl ((text_eq_iff s https).0 secure)
  | inr other ↦ inr ((text_eq_iff s http).0 (ground arith), ground arith)
]

checked-secure :
    (allow_http : Bool) (u : Url)
    → url_checked allow_http (some u) ≡ ok tt
    → (text_eq u.host [] ≡ false) × (scheme_allowed allow_http u.scheme ≡ true)
unfolding url_checked
checked-secure allow_http u h = ground arith

no_url : (a : Bool) → url_checked a none ≡ ok tt → ⊥
unfolding url_checked
no_url a h = cc

-- The tests before the scheme is looked at.
accepted :
    (v : Validators) (l : UrlLibrary) (allow_http : Bool) (raw : Text)
    → validate_target_url v l allow_http raw ≡ ok tt
    → (v.utf8_valid raw ≡ true)
      × (v.rune_count raw ≤ max_target_url_length)
      × (url_checked allow_http (l.parse raw) ≡ ok tt)
unfolding validate_target_url
accepted v l allow_http raw h = ground arith

of_parsed :
    (v : Validators) (l : UrlLibrary) (allow_http : Bool) (raw : Text) (o : Option Url)
    → l.parse raw ≡ o
    → v.utf8_valid raw ≡ true
    → v.rune_count raw ≤ max_target_url_length
    → url_checked allow_http o ≡ ok tt
    → (u : Url) × IsTarget v l allow_http raw u
of_parsed v l allow_http raw none e valid short h = absurd (no_url allow_http h)
of_parsed v l allow_http raw (some u) e valid short h =
    let (host, secure) = checked-secure allow_http u h in
    (
      u,
      record {
        parsed = e;
        has_host = λ empty. text_ne u.host [] host empty;
        short = short;
        valid = valid;
        secure = scheme_secure allow_http u.scheme secure;
      },
    )

-- A target URL that is accepted is valid UTF-8 of at most 2048 characters, and parses to a URL with
-- a host, whose scheme is https, or http where plain http is allowed.
pub validate_target_url-IsTarget :
    (v : Validators) (l : UrlLibrary) (allow_http : Bool) (raw : Text)
    → validate_target_url v l allow_http raw ≡ ok tt
    → (u : Url) × IsTarget v l allow_http raw u
validate_target_url-IsTarget v l allow_http raw h =
    let (valid, short, checked) = accepted v l allow_http raw h in
    of_parsed v l allow_http raw (l.parse raw) refl valid short checked
