-- ===== src/Api/Admin.antt =====
-- internal/api/middleware.go, and the routes and the chain of internal/api/server.go: which handler a
-- request reaches. SHA-256 is a parameter. A handler is given by its result.
mod Tests
pub mod Gate
use Prim.Native.String.{String}
use webhook_delivery_system.Prelude.{
  ℕ, zero, suc, ◌+◌, ◌-◌, Bool, true, false, ◌&&◌, ◌||◌, not, Option, none, some, List, [], ◌∷◌,
  ◌++◌, Text, text_eq, if◌then◌else◌, ◌==◌,
}
use webhook_delivery_system.Http.{Response, write_error, empty}

-- `strings.HasPrefix` and `strings.TrimPrefix`: what follows the prefix.
abbrev pub after_prefix : Text → Text → Option Text
after_prefix [] s = some s
after_prefix (p ∷ ps) [] = none
after_prefix (p ∷ ps) (c ∷ s) = let rest = after_prefix ps s in if p == c then rest else none

-- "Bearer "
abbrev pub bearer : Text
bearer = 66 ∷ 101 ∷ 97 ∷ 114 ∷ 101 ∷ 114 ∷ 32 ∷ []

-- `secureCompare`: the hashes are compared.
abbrev pub secure_compare : (Text → Text) → Text → Text → Bool
secure_compare sha256 a b = text_eq (sha256 a) (sha256 b)

module _ {B : Type 0} where
  abbrev pub with_token : (Text → Text) → Text → Option Text → Response B → Response B
  with_token sha256 api_key none next = write_error 401 "missing or malformed Authorization header"
  with_token sha256 api_key (some token) next =
      if not (secure_compare sha256 token api_key)
      then write_error 401 "invalid admin credentials"
      else next

  -- `adminAuthMiddleware`
  unfoldable pub admin_auth : (Text → Text) → Text → Text → Response B → Response B
  admin_auth sha256 api_key authorization next =
      if text_eq api_key []
      then write_error 503 "admin API key not configured"
      else with_token sha256 api_key (after_prefix bearer authorization) next

-- The requests that `routes` knows; `pprof` stands for the profiles below /debug/pprof/.
pub data Endpoint : Type 0 where
  health ready openapi docs : Endpoint
  create_subscription list_subscriptions get_subscription update_subscription : Endpoint
  delete_subscription list_attempts rotate_secret replay ack_dlq : Endpoint
  ingest : Endpoint
  metrics_summary webhook_status monitor debug_vars pprof : Endpoint

-- Which endpoints `routes` wraps with `s.admin`.
unfoldable pub is_admin : Endpoint → Bool
is_admin health = false
is_admin ready = false
is_admin openapi = false
is_admin docs = false
is_admin ingest = false
is_admin _ = true

-- Which it registers.
unfoldable pub is_routed : Bool → Endpoint → Bool
is_routed enable_pprof pprof = enable_pprof
is_routed enable_pprof _ = true

-- The mux answers a path that is not registered by itself.
unfoldable pub routed :
    {B : Type 0} → (Text → Text) → Text → Bool → Endpoint → Text → Response B → Response B
unfolding is_admin is_routed admin_auth
routed sha256 api_key enable_pprof e authorization next =
    if not (is_routed enable_pprof e)
    then write_error 404 "404 page not found"
    else if is_admin e
    then admin_auth sha256 api_key authorization next
    else next

-- `corsMiddleware`: the origin that the response allows, and whether the request goes on.
unfoldable pub allowed_origin : List Text → Text → Option Text
allowed_origin [] origin = none
allowed_origin (o ∷ allowed) origin =
    let rest = allowed_origin allowed origin in
    if not (text_eq origin []) && text_eq o origin then some origin else rest

-- "OPTIONS"
abbrev pub options : Text
options = 79 ∷ 80 ∷ 84 ∷ 73 ∷ 79 ∷ 78 ∷ 83 ∷ []

-- A handler runs to its answer, or panics before it has written one.
pub data Run (B : Type 0) : Type 0 where
  completed : Response B → Run B
  panicked : Run B

unfoldable pub cors : {B : Type 0} → List Text → Text → Text → Run B → Option Text × Run B
unfolding allowed_origin
cors allowed method origin next = (
  allowed_origin allowed origin,
  if text_eq method options then completed (record { status = 204; body = empty }) else next,
)

-- `recoveryMiddleware`
unfoldable pub recovery : {B : Type 0} → Run B → Response B
recovery (completed r) = r
recovery panicked = write_error 500 "internal server error"

-- `requestIDMiddleware`
abbrev pub request_id : Text → Text → Text
request_id given minted = if text_eq given [] then minted else given

-- `statusRecorder`: the status that is logged.
pub record StatusRecorder : Type 0 where
  pub status : ℕ
  pub wrote : Bool
  pub sent : List ℕ  -- what reached the underlying writer, newest first

abbrev pub write_header : ℕ → StatusRecorder → StatusRecorder
write_header code s =
    if s.wrote then s else record { status = code; wrote = true; sent = code ∷ s.sent }

-- The underlying writer sends 200 before the first bytes.
abbrev pub write : StatusRecorder → StatusRecorder
write s = if not s.wrote then record { status = 200; wrote = true; sent = 200 ∷ s.sent } else s

-- `loggingMiddleware`: the status of the log line, and what was sent.
abbrev pub logged : {B : Type 0} → Response B → StatusRecorder
logged r = write_header r.status (record { status = 200; wrote = false; sent = [] })

-- `Handler`: the chain around the mux. The request id and the allowed origin are response headers.
pub record Served (B : Type 0) : Type 0 where
  pub request_id_header : Text
  pub allow_origin : Option Text
  pub response : Response B
  pub log : StatusRecorder

unfoldable pub handler : {B : Type 0} → List Text → Text → Text → Text → Text → Run B → Served B
unfolding cors recovery
handler allowed given minted method origin next =
    let (allow, run) = cors allowed method origin next in
    record {
      request_id_header = request_id given minted;
      allow_origin = allow;
      response = recovery run;
      log = logged (recovery run);
    }
