-- ===== src/HttpAuth/Access.antt =====
-- src/auth/authMiddleware.ts and src/transports/http.ts: whose MCP session a request reaches.
use mcp_server_db2i.Prelude.{
  ℕ, String, Bool, true, false, not, ◌&&◌, Option, none, some, ◌≡◌, ◌≢◌, ◌∙◌, refl, sym, ap, inl,
  inr, arith, str_eq, eq_iff, Option-cases, Bool-cases, some-eq-some, subst,
}
use mcp_server_db2i.Prelude.Table.{get}
use mcp_server_db2i.Tokens.{
  TokenSession, TokenManager, validate_token, validate_found, has_expired, session_pool_key,
  revoke_token,
}
use mcp_server_db2i.Tokens.Lifetime.{revoked_invalid}
use mcp_server_db2i.Sessions
use mcp_server_db2i.Sessions.{McpSession, SessionManager, begin_close, increment_active_requests}
use mcp_server_db2i.HttpAuth.{
  AuthMode, required_mode, HttpConfig, extract_bearer_token, given, Caller, Answer, passes, refuses,
  challenge, check_session, require_session, auth_in_mode, auth_middleware,
  resolve_caller_session_key, is_session_owned_by_caller, Method, get_method, delete_method,
  post_method, other_method, Outcome, status, hands_over, closes, opens, owned, on_get, on_delete,
  on_post, with_session, without_session, is_bare, handle_stateful_legacy_request,
}

-- The owner of the session that a request reaches, or that it closes.
abbrev pub owner_of : Outcome → String
owner_of (status code) = ""
owner_of (hands_over s) = s.auth_token
owner_of (closes going) = ""
owner_of (opens key) = ""

abbrev pub reaches : Outcome → Bool
reaches (status code) = false
reaches (hands_over s) = true
reaches (closes going) = false
reaches (opens key) = false

-- Is there a live token session for the token of a request, and does the key belong to it?
abbrev pub is_live : ℕ → String → String → Option TokenSession → Bool
is_live now token key none = false
is_live now token key (some s) =
    not (has_expired now s) && str_eq key (session_pool_key token s.grant_id)

abbrev pub is_entitled : ℕ → TokenManager → String → Option String → Bool
is_entitled now m key none = false
is_entitled now m key (some token) = is_live now token key (get token m.sessions)

on_get-owned :
    (key : String) (o : Option McpSession) (m : SessionManager)
    → reaches (on_get (owned key o) m).1 ≡ true
    → str_eq (owner_of (on_get (owned key o) m).1) key ≡ true
unfolding is_session_owned_by_caller
on_get-owned key none m h = cc
on_get-owned key (some s) m h = elim (Bool-cases (str_eq s.auth_token key)) [
  | inl own ↦ rw own own
  | inr other ↦ absurd (ground (arith, h, other))
]

on_post-owned :
    (id key : String) (now : ℕ) (o : Option McpSession) (m : SessionManager)
    → reaches (on_post id now (owned key o) m).1 ≡ true
    → str_eq (owner_of (on_post id now (owned key o) m).1) key ≡ true
unfolding is_session_owned_by_caller
on_post-owned id key now none m h = cc
on_post-owned id key now (some s) m h = elim (Bool-cases (str_eq s.auth_token key)) [
  | inl own ↦ rw own own
  | inr other ↦ absurd (ground (arith, h, other))
]

on_delete_silent :
    (id : String) (o : Option McpSession) (m : SessionManager)
    → reaches (on_delete id o m).1 ≡ false
on_delete_silent id none m = refl
on_delete_silent id (some s) m = refl

with_session_owned :
    (method : Method) (key id : String) (now : ℕ) (m : SessionManager)
    → reaches (with_session method key id now m).1 ≡ true
    → str_eq (owner_of (with_session method key id now m).1) key ≡ true
with_session_owned get_method key id now m h =
    on_get-owned key (Sessions.get_session id now m).1 (Sessions.get_session id now m).0 h
with_session_owned delete_method key id now m h = absurd (
    ground (
      arith,
      h,
      on_delete_silent id (owned key (Sessions.get_session id now m).1)
          (Sessions.get_session id now m).0,
    ))
with_session_owned post_method key id now m h =
    on_post-owned id key now (Sessions.get_session id now m).1 (Sessions.get_session id now m).0 h
with_session_owned other_method key id now m h = cc

without_session_silent :
    (method : Method) (key : String) (initializes : Bool) (m : SessionManager)
    → reaches (without_session method key initializes m).1 ≡ false
without_session_silent get_method key initializes m = refl
without_session_silent delete_method key initializes m = refl
without_session_silent post_method key true m = refl
without_session_silent post_method key false m = refl
without_session_silent other_method key initializes m = refl

handled_owned :
    (mode : AuthMode) (method : Method) (r : Caller) (id : Option String) (initializes : Bool)
    (now : ℕ) (m : SessionManager)
    → reaches (handle_stateful_legacy_request mode method r id initializes now m).1 ≡ true
    → str_eq
        (owner_of (handle_stateful_legacy_request mode method r id initializes now m).1)
        (resolve_caller_session_key mode r)
      ≡ true
unfolding handle_stateful_legacy_request
handled_owned mode method r id initializes now m h = elim (Bool-cases (is_bare mode method r)) [
  | inl bare ↦ absurd (ground (arith, rw (bare, handle_stateful_legacy_request) at h))
  | inr full ↦
      let key = resolve_caller_session_key mode r in
      elim (Option-cases (given id)) [
        | inl missing ↦ absurd (
            ground (
              arith,
              rw (full, missing, handle_stateful_legacy_request) at h,
              without_session_silent method key initializes m,
            ))
        | inr (session_id, found) ↦
            rw (full, found, handle_stateful_legacy_request)
              (with_session_owned method key session_id now m
                (rw (full, found, handle_stateful_legacy_request) at h))
      ]
]

-- The key of the caller that an answer lets pass.
abbrev pub key_of : Answer → String
key_of (passes r) = resolve_caller_session_key required_mode r
key_of (refuses c e d) = ""

abbrev pub is_pass : Answer → Bool
is_pass (passes r) = true
is_pass (refuses c e d) = false

given_text : (t : Option String) (token : String) → given t ≡ some token → str_eq token "" ≡ false
given_text none token h = cc
given_text (some t) token h = elim (Bool-cases (str_eq t "")) [
  | inl empty ↦ absurd (let e = rw empty at h in cc)
  | inr text ↦
      let q : t ≡ token = some-eq-some (rw text at h) in
      sym (ap (λ (u : String). str_eq u "") q) ∙ text
]

found_live :
    (c : HttpConfig) (now : ℕ) (m : TokenManager) (token : String) (s : TokenSession)
    → str_eq token "" ≡ false
    → is_pass (check_session c token (validate_found token now s m).1) ≡ true
    → is_live now token (key_of (check_session c token (validate_found token now s m).1)) (some s)
      ≡ true
unfolding validate_found resolve_caller_session_key
found_live c now m token s text h = elim (Bool-cases (has_expired now s)) [
  | inl over ↦ absurd (ground (arith, rw (over, validate_found) at h))
  | inr live ↦
      rw (live, text, validate_found)
        ((eq_iff (session_pool_key token s.grant_id) (session_pool_key token s.grant_id)).1 refl)
]

token_entitled :
    (c : HttpConfig) (now : ℕ) (m : TokenManager) (token : String)
    → str_eq token "" ≡ false
    → is_pass (require_session c now m (some token)).1 ≡ true
    → is_entitled now m (key_of (require_session c now m (some token)).1) (some token) ≡ true
unfolding validate_token
token_entitled c now m token text h = elim (Option-cases (get token m.sessions)) [
  | inl missing ↦ absurd (ground (arith, rw (text, missing, validate_token) at h))
  | inr (s, found) ↦
      rw (text, found, validate_token)
        (found_live c now m token s text (rw (text, found, validate_token) at h))
]

required_entitled :
    (c : HttpConfig) (now : ℕ) (m : TokenManager) (t : Option String)
    → is_pass (require_session c now m (given t)).1 ≡ true
    → is_entitled now m (key_of (require_session c now m (given t)).1) (given t) ≡ true
required_entitled c now m t h = elim (Option-cases (given t)) [
  | inl missing ↦ absurd (ground (arith, rw missing at h))
  | inr (token, found) ↦
      let text = given_text t token found in
      rw found (token_entitled c now m token text (rw found at h))
]

passed : (a : Answer) (r : Caller) → a ≡ passes r → is_pass a ≡ true
passed a r h = ap is_pass h

middleware_entitled :
    (sha256 : String → String) (c : HttpConfig) (header : Option String) (now : ℕ)
    (m : TokenManager) (r : Caller)
    → c.auth_mode ≡ required_mode
    → (auth_middleware sha256 c header now m).1 ≡ passes r
    → is_entitled now m
        (resolve_caller_session_key required_mode r)
        (given (extract_bearer_token header))
      ≡ true
unfolding auth_middleware
middleware_entitled sha256 c header now m r mode h =
    let e : (require_session c now m (given (extract_bearer_token header))).1 ≡ passes r =
      ap (λ (a : AuthMode). (auth_in_mode sha256 a c header now m).1) (sym mode) ∙ h in
    subst
      (λ (a : Answer). is_entitled now m (key_of a) (given (extract_bearer_token header)) ≡ true) e
      (required_entitled c now m (extract_bearer_token header) (ap is_pass e))

-- In required mode, when a request that passed the authentication is handed over to the transport of
-- an MCP session, its Authorization header has the bearer token of a token session that is held and
-- has not expired, and the MCP session was opened under the key of that token session, which is its
-- sign-in if it has one and else the token itself; so no caller reaches a session of another.
pub handle_stateful_legacy_request-auth_middleware :
    (sha256 : String → String) (c : HttpConfig) (header : Option String) (at now : ℕ)
    (tokens : TokenManager) (r : Caller) (method : Method) (id : Option String) (initializes : Bool)
    (m : SessionManager) (s : McpSession)
    → c.auth_mode ≡ required_mode
    → (auth_middleware sha256 c header at tokens).1 ≡ passes r
    → (handle_stateful_legacy_request required_mode method r id initializes now m).1 ≡ hands_over s
    → is_entitled at tokens s.auth_token (given (extract_bearer_token header)) ≡ true
handle_stateful_legacy_request-auth_middleware sha256 c header at now tokens r method id initializes
      m s mode pass over =
    let owns = handled_owned required_mode method r id initializes now m (ap reaches over) in
    let key : s.auth_token ≡ resolve_caller_session_key required_mode r =
      sym (ap owner_of over) ∙ (eq_iff _ _).0 owns in
    subst (λ (k : String). is_entitled at tokens k (given (extract_bearer_token header)) ≡ true)
      (sym key) (middleware_entitled sha256 c header at tokens r mode pass)

-- Once a token is revoked, every request that carries it is refused in required mode, with a 401 that
-- names the token as invalid and points a client to the sign-in server if there is one.
pub auth_middleware-revoke_token :
    (sha256 : String → String) (c : HttpConfig) (header : Option String) (token : String) (now : ℕ)
    (tokens : TokenManager)
    → c.auth_mode ≡ required_mode
    → given (extract_bearer_token header) ≡ some token
    → (auth_middleware sha256 c header now (revoke_token token tokens).0).1
      ≡ refuses (challenge c "invalid_token") "invalid_token" "Token not found or expired"
unfolding auth_middleware
auth_middleware-revoke_token sha256 c header token now tokens mode found =
    let text : token ≢ "" = λ e.
      ground (arith, given_text (extract_bearer_token header) token found, eq_iff token "", e) in
    rw (mode, found) (ap (check_session c token) (revoked_invalid token now tokens text))
