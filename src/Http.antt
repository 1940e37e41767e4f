-- ===== src/Http.antt =====
-- internal/api/response.go and internal/api/request.go: responses, the statuses of the domain
-- errors, and the reading of numbers and of JSON bodies from a request.
pub mod Numbers
pub mod Clamping
mod Tests
use Prim.Native.String.{String}
use webhook_delivery_system.Prelude.{
  ℕ, zero, suc, ◌+◌, ◌*◌, ◌-◌, ◌≤◌, ◌≡◌, Bool, true, false, ◌&&◌, ◌||◌, Option, none, some, List,
  [], ◌∷◌, Text, ltb, leb, length, if◌then◌else◌, ◌==◌,
}
use webhook_delivery_system.Domain.{
  Error, not_found, conflict, invalid_input, inactive_subscription,
}

-- The body of an error response: a fixed message, or the text of an error.
pub data Message : Type 0 where
  message : String → Message
  text_of : Error → Message

-- A response: its status, and the value that is written as JSON.
pub data Body (B : Type 0) : Type 0 where
  empty : Body B
  error_body : Message → Body B
  json : B → Body B

pub record Response (B : Type 0) : Type 0 where
  pub status : ℕ
  pub body : Body B

module _ {B : Type 0} where
  -- `writeJSON` and `writeError`
  abbrev pub write_json : ℕ → B → Response B
  write_json status b = record { status = status; body = json b }

  abbrev pub write_error : ℕ → String → Response B
  write_error status m = record { status = status; body = error_body (message m) }

  -- `writeDomainError`
  unfoldable pub write_domain_error : Error → Response B
  write_domain_error not_found = write_error 404 "not found"
  write_domain_error invalid_input = record {
    status = 400;
    body = error_body (text_of invalid_input);
  }
  write_domain_error conflict = record { status = 409; body = error_body (text_of conflict) }
  write_domain_error inactive_subscription = write_error 403 "subscription is inactive"
  write_domain_error _ = write_error 500 "internal server error"

-- A body as it arrives: whole, or cut off by a failure of the connection.
pub data Incoming : Type 0 where
  whole cut : Text → Incoming

pub data Read : Type 0 where
  content : Text → Read
  too_large broken : Read

-- `io.ReadAll` of `http.MaxBytesReader`.
unfoldable pub read_all : ℕ → Incoming → Read
read_all limit (whole t) = if ltb limit (length t) then too_large else content t
read_all limit (cut t) = if ltb limit (length t) then too_large else broken

-- What the JSON decoder makes of a body, without unknown fields: one value, after it the end or
-- something else; a body over the limit; or an error.
pub data Decoded (A : Type 0) : Type 0 where
  one_value trailing_data : A → Decoded A
  oversize malformed : Decoded A

-- `readJSON`: the value, or the response that was written. `none` is a request without a body.
pub data Parsed (A B : Type 0) : Type 0 where
  parsed : A → Parsed A B
  answered : Response B → Parsed A B

unfoldable pub read_json : {A B : Type 0} → Option (Decoded A) → Parsed A B
read_json none = answered (write_error 400 "empty request body")
read_json (some oversize) = answered (write_error 413 "request body too large")
read_json (some malformed) = answered (write_error 400 "invalid JSON body")
read_json (some (trailing_data a)) = answered (write_error 400 "invalid JSON body")
read_json (some (one_value a)) = parsed a
