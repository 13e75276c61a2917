-- ===== src/Api/Http.antt =====
-- What package api reads of an HTTP request and writes as a response: api/util.go, and the types of
-- the responses in api/endpoints.go and api/api.go.
use Prim.Native.String.{String}
use ezproxy.Base.{ℕ, Bool, Option, List}
use ezproxy.Api.Perms.{Perm}

-- A text as its characters.
abbrev pub Text : Type 0
Text = List ℕ

-- r.Method, and the query parameters that the endpoints ask for; none if a parameter is missing.
pub record Request : Type 0 where
  pub method : String
  pub key : Option Text
  pub perms : Option Text

-- authValue
pub record AuthValue : Type 0 where
  pub value : ℕ
  pub check_status : Bool
  pub close : Bool
  pub use_websocket : Bool
  pub filter : Bool
  pub inject : Bool
  pub make_keys : Bool
  pub duplicate_keys : Bool
  pub admin : Bool

-- The field Data of a baseResponse.
pub data Body : Type 0 where
  message : String → Body
  new_key : Text → ℕ → Body  -- newKeyData: the key in hexadecimal and its permissions
  auth_value : AuthValue → Body
  lacking_permission : Perm → Body  -- lacking permission to add '…' permission

-- writeResponse puts its status into the JSON body, and sends 200 as the status of HTTP. A `raw`
-- response is written by WriteHeader and Write; `method_must_be` is addEndpoint's own, with 405.
pub data Response : Type 0 where
  json : ℕ → Body → Response
  raw : ℕ → String → Response
  method_must_be : String → Response

-- The status that the program means.
abbrev pub status : Response → ℕ
status (json s b) = s
status (raw s t) = s
status (method_must_be m) = 405

-- A check that lets a request pass with a value, or answers it.
pub data Checked (A : Type 0) : Type 0 where
  pass : A → Checked A
  refuse : Response → Checked A
