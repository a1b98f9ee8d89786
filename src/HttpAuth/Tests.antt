-- ===== src/HttpAuth/Tests.antt =====
-- src/auth/authMiddleware.ts and src/transports/http.ts: requests at concrete headers and sessions.
use mcp_server_db2i.Prelude.{
  ℕ, String, Bool, true, false, Option, none, some, List, [], ◌∷◌, ◌≡◌, refl,
}
use mcp_server_db2i.Prelude.Table.{get}
use mcp_server_db2i.Tokens.{Db2iConfig, TokenSession, TokenManager, has_expired, revoke_token}
use mcp_server_db2i.Sessions.{McpSession, SessionManager}
use mcp_server_db2i.HttpAuth.{
  required_mode, HttpConfig, extract_bearer_token, given, Caller, Answer, passes, refuses,
  challenge, auth_middleware, post_method, Outcome, status, hands_over,
  handle_stateful_legacy_request,
}
use mcp_server_db2i.HttpAuth.Access.{
  is_entitled, handle_stateful_legacy_request-auth_middleware, auth_middleware-revoke_token,
}
use mcp_server_db2i.HttpAuth.Bearer.{header_of, extract_bearer_token-header_of}

abbrev digest : String → String
digest s = s

abbrev db : Db2iConfig
db = record {
  hostname = "ibmi";
  port = 446;
  username = "bob";
  password = "secret";
  database = "*LOCAL";
  schema = "LIB";
  driver = "jdbc";
  jdbc_options = [];
  odbc_options = [];
  mapepire_options = none;
  query_timeout = none;
}

abbrev signed_in : TokenSession
signed_in = record {
  token = "t1";
  config = db;
  system = "default";
  client_id = none;
  grant_id = some "g";
  created_at = 0;
  expires_at = 90;
  last_used_at = 7;
}

abbrev tokens : TokenManager
tokens = record { sessions = ("t1", signed_in) ∷ []; timer = true; callback = false; notified = [] }

abbrev http : HttpConfig
http = record { auth_mode = required_mode; static_token = none; public_url = some "https://x" }

abbrev caller : Caller
caller = record { auth_token = some "t1"; token_session = some signed_in }

abbrev opened : McpSession
opened = record {
  server = "srv";
  auth_token = "grant:g";
  created_at = 0;
  last_accessed_at = 8;
  active_requests = 0;
  is_closing = false;
}

abbrev foreign : McpSession
foreign = record opened { auth_token = "grant:h" }

abbrev manager : SessionManager
manager = record { sessions = ("a", opened) ∷ ("b", foreign) ∷ []; closed = []; timer = true }

foreign_hidden :
    (handle_stateful_legacy_request required_mode post_method caller (some "b") false 8 manager).1
    ≡ status 404
unfolding handle_stateful_legacy_request mcp_server_db2i.Sessions.get_session get
    mcp_server_db2i.Tokens.session_pool_key
foreign_hidden = refl

handle_stateful_legacy_request-auth_middleware_example :
    is_entitled 7 tokens "grant:g" (given (extract_bearer_token (some "Bearer t1"))) ≡ true
unfolding auth_middleware mcp_server_db2i.Prelude.Text.codes_eq
    mcp_server_db2i.Tokens.validate_token get handle_stateful_legacy_request
    mcp_server_db2i.Sessions.get_session mcp_server_db2i.Tokens.session_pool_key
handle_stateful_legacy_request-auth_middleware_example =
    handle_stateful_legacy_request-auth_middleware digest http (some "Bearer t1") 7 8 tokens caller
      post_method (some "a") false manager opened refl refl refl

auth_middleware-revoke_token_example :
    (auth_middleware digest http (some "bearer t1") 9 (revoke_token "t1" tokens).0).1
    ≡ refuses
        (some
          "Bearer resource_metadata=\"https://x/.well-known/oauth-protected-resource/mcp\", error=\"invalid_token\"")
        "invalid_token"
        "Token not found or expired"
unfolding extract_bearer_token mcp_server_db2i.Prelude.Text.codes_eq
auth_middleware-revoke_token_example =
    auth_middleware-revoke_token digest http (some "bearer t1") "t1" 9 tokens refl refl

extract_bearer_token-header_of_example :
    extract_bearer_token (some (header_of "BeaRer" "t1")) ≡ some "t1"
unfolding mcp_server_db2i.Prelude.Text.codes_eq mcp_server_db2i.HttpAuth.Bearer.is_word
extract_bearer_token-header_of_example = extract_bearer_token-header_of "BeaRer" "t1" refl refl refl
