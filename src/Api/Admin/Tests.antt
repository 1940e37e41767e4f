-- ===== src/Api/Admin/Tests.antt =====
-- Runs of the middleware and the routes of internal/api.
use webhook_delivery_system.Prelude.{ℕ, ◌≡◌, ◌⊎◌, refl, true, false, none, [], ◌∷◌, ◌++◌}
use webhook_delivery_system.Http.{Response, write_json, write_error}
use webhook_delivery_system.Api.Admin.{
  bearer, monitor, pprof, is_admin, is_routed, routed, panicked, cors,
}
use webhook_delivery_system.Api.Admin.Gate.{IsAdmin, Barred, routed-IsAdmin}

-- Every text is its own hash, and the key is "k".
wrong_key :
    routed {B = ℕ} (λ t. t) (107 ∷ []) false monitor (bearer ++ (106 ∷ [])) (write_json 200 7)
    ≡ write_error 401 "invalid admin credentials"
unfolding routed
wrong_key = refl

no_profiles :
    routed {B = ℕ} (λ t. t) (107 ∷ []) false pprof (bearer ++ (107 ∷ [])) (write_json 200 7)
    ≡ write_error 404 "404 page not found"
unfolding routed
no_profiles = refl

other_origin : (cors {B = ℕ} ((97 ∷ []) ∷ []) [] (98 ∷ []) panicked).0 ≡ none
unfolding cors
other_origin = refl

monitored : is_admin monitor ≡ true
unfolding is_admin
monitored = refl

routed-IsAdmin_example :
    (IsAdmin (λ t. t) (107 ∷ []) (bearer ++ (107 ∷ []))
      × (is_routed false monitor ≡ true
          → (next : Response ℕ)
          → routed (λ t. t) (107 ∷ []) false monitor (bearer ++ (107 ∷ [])) next ≡ next))
    ⊎ Barred {B = ℕ} (routed (λ t. t) (107 ∷ []) false monitor (bearer ++ (107 ∷ [])))
routed-IsAdmin_example =
    routed-IsAdmin {B = ℕ} (λ t. t) (107 ∷ []) false monitor (bearer ++ (107 ∷ [])) monitored
