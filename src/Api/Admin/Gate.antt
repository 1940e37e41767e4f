-- ===== src/Api/Admin/Gate.antt =====
-- What the admin gate of internal/api/middleware.go lets through.
use webhook_delivery_system.Prelude.{
  ◌≡◌, ◌≢◌, ◌≤◌, ◌⊎◌, inl, inr, refl, Bool, true, Option, none, some, [], ◌∷◌, ◌++◌, Text, arith,
  text_eq, text_eq_iff, text_ne, Bool-cases,
}
use webhook_delivery_system.Http.{Response, write_error}
use webhook_delivery_system.Api.Admin.{
  after_prefix, bearer, secure_compare, with_token, admin_auth, Endpoint, is_admin, is_routed,
  routed,
}

-- A configured key, and a bearer token with the hash of the key.
pub record IsAdmin (sha256 : Text → Text) (api_key authorization : Text) : Type 0 where
  pub configured : api_key ≢ []
  pub token : Text
  pub carried : authorization ≡ bearer ++ token
  pub matching : sha256 token ≡ sha256 api_key

-- The answer is an error, whatever the handler would do.
abbrev pub Barred : {B : Type 0} → (Response B → Response B) → Type 0
Barred {B} f = (a : Response B) × (400 ≤ a.status) × ((next : Response B) → f next ≡ a)

after_prefix_lem : (p s rest : Text) → after_prefix p s ≡ some rest → s ≡ p ++ rest
after_prefix_lem [] s rest h = cc
after_prefix_lem (p ∷ ps) [] rest h = absurd (cc)
after_prefix_lem (p ∷ ps) (c ∷ s) rest h = ground (arith, after_prefix_lem ps s rest)

module _ {B : Type 0} (sha256 : Text → Text) (api_key : Text) where
  -- Whatever the handler would do, the answer is its own.
  Passed : (Response B → Response B) → Type 0
  Passed f = (next : Response B) → f next ≡ next

  token_or_Barred :
      (o : Option Text)
      → ((token : Text) × (o ≡ some token)
          × (sha256 token ≡ sha256 api_key)
          × Passed (with_token sha256 api_key o))
        ⊎ Barred {B = B} (with_token sha256 api_key o)
  unfolding Passed
  token_or_Barred none =
      inr (write_error 401 "missing or malformed Authorization header", omega arith, λ next. refl)
  token_or_Barred (some token) = elim (Bool-cases (secure_compare sha256 token api_key)) [
    | inl same ↦
        inl
          (token, refl, (text_eq_iff (sha256 token) (sha256 api_key)).0 same, λ next. rw same refl)
    | inr other ↦
        inr (write_error 401 "invalid admin credentials", omega arith, λ next. rw other refl)
  ]

  IsAdmin-or_Barred :
      (authorization : Text)
      → (IsAdmin sha256 api_key authorization × Passed (admin_auth sha256 api_key authorization))
        ⊎ Barred {B = B} (admin_auth sha256 api_key authorization)
  unfolding admin_auth Passed
  IsAdmin-or_Barred authorization = elim (Bool-cases (text_eq api_key [])) [
    | inl unset ↦
        inr (write_error 503 "admin API key not configured", omega arith, λ next. rw unset refl)
    | inr set ↦ elim (token_or_Barred (after_prefix bearer authorization)) [
      | inr (a, h, e) ↦ inr (a, h, λ next. rw set (e next))
      | inl (token, found, same, passed) ↦ inl (
        record {
          configured = λ empty. text_ne api_key [] set empty;
          token = token;
          carried = after_prefix_lem bearer authorization token found;
          matching = same;
        },
        λ next. rw set (passed next),
      )
    ]
  ]

-- A request for an endpoint of the management group either carries "Bearer " and a token with the hash of
-- a configured, non-empty key, and then its answer is the handler's where the route is registered; or its
-- answer is an error that does not depend on the handler.
pub routed-IsAdmin :
    {B : Type 0} (sha256 : Text → Text) (api_key : Text) (enable_pprof : Bool) (e : Endpoint)
    (authorization : Text)
    → is_admin e ≡ true
    → (IsAdmin sha256 api_key authorization
        × (is_routed enable_pprof e ≡ true
            → (next : Response B) → routed sha256 api_key enable_pprof e authorization next ≡ next))
      ⊎ Barred {B = B} (routed sha256 api_key enable_pprof e authorization)
unfolding routed
routed-IsAdmin {B} sha256 api_key enable_pprof e authorization gated =
    elim (Bool-cases (is_routed enable_pprof e)) [
      | inr unrouted ↦
          inr (write_error 404 "404 page not found", omega arith, λ next. rw unrouted refl)
      | inl known ↦ elim (IsAdmin-or_Barred {B = B} sha256 api_key authorization) [
        | inl (admin, passed) ↦
            inl (admin, λ _ next. rw known (rw gated (unfold Passed in passed next)))
        | inr (a, h, barred) ↦ inr (a, h, λ next. rw known (rw gated (barred next)))
      ]
    ]
