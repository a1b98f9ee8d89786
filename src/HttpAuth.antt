-- ===== src/HttpAuth.antt =====
-- src/auth/authMiddleware.ts, src/transports/sessionAuth.ts, and from src/transports/http.ts the handler of
-- the requests with an Mcp-Session-Id, up to where the transport takes over. An answer is its status with
-- its error, and the rate limiters of express-rate-limit are left out. SHA-256 is a parameter.
pub mod Bearer
pub mod Access
mod Tests
use Prim.Native.String
use mcp_server_db2i.Prelude.{
  ℕ, ◌+◌, ◌-◌, String, Bool, true, false, not, ◌&&◌, ◌||◌, Option, none, some, List, [], ◌∷◌, ◌++◌,
  ◌==◌, if◌then◌else◌, str_eq, map, leb,
}
use mcp_server_db2i.Prelude.Text.{codes, codes_eq, is_upper}
use mcp_server_db2i.Tokens.{
  TokenSession, TokenManager, Validation, valid, invalid, validate_token, session_pool_key,
}
use mcp_server_db2i.Sessions.{
  McpSession, SessionManager, increment_active_requests, decrement_active_requests, begin_close,
}
use mcp_server_db2i.Sessions

pub data AuthMode : Type 0 where
  required_mode token_mode none_mode : AuthMode

pub record HttpConfig : Type 0 where
  pub auth_mode : AuthMode
  pub static_token : Option String
  pub public_url : Option String

-- `split(' ')`
unfoldable pub split_spaces : String → String → List String
split_spaces part String.[] = part ∷ []
split_spaces part (String.◌∷◌ c s) = elim (str_eq (String.◌∷◌ c String.[]) " ") [
  | true ↦ part ∷ split_spaces "" s
  | false ↦ split_spaces (String.◌++◌ part (String.◌∷◌ c String.[])) s
]

-- The lower case of ASCII letters; no other character has a lower case in "bearer".
abbrev pub lower : ℕ → ℕ
lower c = if is_upper c then c + 32 else c

abbrev pub is_bearer : String → Bool
is_bearer scheme = codes_eq (map lower (codes scheme)) (codes "bearer")

abbrev pub bearer_of : List String → Option String
bearer_of [] = none
bearer_of (scheme ∷ []) = none
bearer_of (scheme ∷ token ∷ []) = if is_bearer scheme then some token else none
bearer_of (scheme ∷ token ∷ part ∷ parts) = none

unfoldable pub extract_bearer_token : Option String → Option String
unfolding split_spaces
extract_bearer_token none = none
extract_bearer_token (some header) =
    if str_eq header "" then none else bearer_of (split_spaces "" header)

-- `!token`
abbrev pub given : Option String → Option String
given none = none
given (some token) = if str_eq token "" then none else some token

-- AuthenticatedRequest
pub record Caller : Type 0 where
  pub auth_token : Option String
  pub token_session : Option TokenSession

-- `next`, or a 401 with the challenge of its WWW-Authenticate header, its error and description.
pub data Answer : Type 0 where
  passes : Caller → Answer
  refuses : Option String → String → String → Answer

abbrev pub missing_header : String
missing_header = "Missing or invalid Authorization header. Use: Authorization: Bearer <token>"

abbrev pub or_empty : Option String → String
or_empty none = ""
or_empty (some s) = s

abbrev pub challenge : HttpConfig → String → Option String
challenge c error = elim c.public_url [
  | none ↦ none
  | some url ↦ some (
      String.◌++◌ "Bearer resource_metadata=\"" (
        String.◌++◌ url (
          String.◌++◌ "/.well-known/oauth-protected-resource/mcp\""
            (if str_eq error "" then "" else String.◌++◌ ", error=\"" (String.◌++◌ error "\"")))))
]

abbrev pub check_session : HttpConfig → String → Validation → Answer
check_session c token (valid s) =
    passes (record { auth_token = some token; token_session = some s })
check_session c token (invalid error) = refuses (challenge c "invalid_token") "invalid_token" error

abbrev pub require_session : HttpConfig → ℕ → TokenManager → Option String → TokenManager × Answer
require_session c now m none = (m, refuses (challenge c "") "unauthorized" missing_header)
require_session c now m (some token) =
    let (used, result) = validate_token token now m in (used, check_session c token result)

module _ (sha256 : String → String) where
  abbrev pub check_static : HttpConfig → Option String → Answer
  check_static c none = refuses none "unauthorized" missing_header
  check_static c (some token) =
      if str_eq (sha256 token) (sha256 (or_empty c.static_token))
      then passes (record { auth_token = some token; token_session = none })
      else refuses none "invalid_token" "Invalid authentication token"

  abbrev pub auth_in_mode :
      AuthMode → HttpConfig → Option String → ℕ → TokenManager → TokenManager × Answer
  auth_in_mode none_mode c header now m =
      (m, passes (record { auth_token = none; token_session = none }))
  auth_in_mode token_mode c header now m = (m, check_static c (given (extract_bearer_token header)))
  auth_in_mode required_mode c header now m =
      require_session c now m (given (extract_bearer_token header))

  unfoldable pub auth_middleware :
      HttpConfig → Option String → ℕ → TokenManager → TokenManager × Answer
  unfolding extract_bearer_token
  auth_middleware c header now m = auth_in_mode c.auth_mode c header now m

abbrev pub global_session_key : String
global_session_key = "global"

abbrev pub grant_of : Option TokenSession → Option String
grant_of none = none
grant_of (some s) = s.grant_id

abbrev pub own_key : Option String → Option TokenSession → String
own_key none s = ""
own_key (some token) s = if str_eq token "" then "" else session_pool_key token (grant_of s)

unfoldable pub resolve_caller_session_key : AuthMode → Caller → String
resolve_caller_session_key none_mode r = global_session_key
resolve_caller_session_key token_mode r = global_session_key
resolve_caller_session_key required_mode r = own_key r.auth_token r.token_session

unfoldable pub is_session_owned_by_caller : String → String → Bool
is_session_owned_by_caller owner key = str_eq owner key

pub data Method : Type 0 where
  get_method delete_method post_method other_method : Method

-- What the handler does: a status, a transport that takes over, a close that begins, or a new session.
pub data Outcome : Type 0 where
  status : ℕ → Outcome
  hands_over : McpSession → Outcome
  closes : Bool → Outcome
  opens : String → Outcome

abbrev pub owned : String → Option McpSession → Option McpSession
owned key none = none
owned key (some s) = if is_session_owned_by_caller s.auth_token key then some s else none

abbrev pub on_get : Option McpSession → SessionManager → SessionManager × Outcome
on_get none m = (m, status 404)
on_get (some s) m = (m, hands_over s)

abbrev pub on_delete : String → Option McpSession → SessionManager → SessionManager × Outcome
on_delete id none m = (m, status 404)
on_delete id (some s) m = let (marked, going) = begin_close id m in (marked, closes going)

abbrev pub on_post : String → ℕ → Option McpSession → SessionManager → SessionManager × Outcome
on_post id now none m = (m, status 404)
on_post id now (some s) m = (increment_active_requests id now m, hands_over s)

-- The request with a session ID, in every method. The session is looked up before it is known whose.
abbrev pub with_session : Method → String → String → ℕ → SessionManager → SessionManager × Outcome
with_session method key id now m =
    let (used, s) = Sessions.get_session id now m in
    elim method [
      | get_method ↦ on_get (owned key s) used
      | delete_method ↦ on_delete id (owned key s) used
      | post_method ↦ on_post id now (owned key s) used
      | other_method ↦ (m, status 405)
    ]

abbrev pub without_session : Method → String → Bool → SessionManager → SessionManager × Outcome
without_session get_method key initializes m = (m, status 400)
without_session delete_method key initializes m = (m, status 400)
without_session post_method key initializes m = (m, if initializes then opens key else status 400)
without_session other_method key initializes m = (m, status 405)

-- In required mode a POST without its session or token is refused, before its session ID is read.
abbrev pub is_bare : AuthMode → Method → Caller → Bool
is_bare none_mode method r = false
is_bare token_mode method r = false
is_bare required_mode get_method r = false
is_bare required_mode delete_method r = false
is_bare required_mode other_method r = false
is_bare required_mode post_method r = elim r.token_session [
  | none ↦ true
  | some s ↦ str_eq (or_empty r.auth_token) ""
]

unfoldable pub handle_stateful_legacy_request :
    AuthMode
    → Method
    → Caller
    → Option String
    → Bool
    → ℕ
    → SessionManager
    → SessionManager × Outcome
unfolding resolve_caller_session_key is_session_owned_by_caller
handle_stateful_legacy_request mode method r id initializes now m =
    if is_bare mode method r then (m, status 401) else elim (given id) [
      | none ↦ without_session method (resolve_caller_session_key mode r) initializes m
      | some session_id ↦ with_session method (resolve_caller_session_key mode r) session_id now m
    ]
