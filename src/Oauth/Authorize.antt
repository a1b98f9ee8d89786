-- ===== src/Oauth/Authorize.antt =====
-- src/auth/oauth.ts: isRedirectUriAllowed, GET /oauth/authorize, and the check of the signed request in
-- POST /oauth/authorize; with isLoopbackHost and hostnameOf of src/config.ts. The URL parser of the
-- JavaScript runtime and the encoding of a login request are parameters. A page is the name of its
-- text, and a redirect its target with its error. The texts of a URL are lists of characters.
use mcp_server_db2i.Prelude.{
  ℕ, ◌+◌, String, Bool, true, false, not, ◌&&◌, ◌||◌, Option, none, some, List, [], ◌∷◌, any, ◌==◌,
  ltb, if◌then◌else◌, str_eq, length,
}
use mcp_server_db2i.Prelude.Text.{codes, codes_eq, is_letter, is_digit, is_upper, is_space}
use mcp_server_db2i.Oauth.{OauthConfig, Crypto, login_ttl_ms}
use mcp_server_db2i.Oauth.Signed.{max_signed_value_length, text_length, sign, verify_signed}
use mcp_server_db2i.Oauth.Clients.{
  ClientPayload, RegisteredClient, includes, read_client, is_own_resource, present,
}

-- What `new URL` gives.
pub record Url : Type 0 where
  pub protocol : List ℕ
  pub hostname : List ℕ
  pub hash : List ℕ
  pub username : List ℕ
  pub password : List ℕ
  pub href : List ℕ

abbrev pub is_nil : List ℕ → Bool
is_nil [] = true
is_nil (c ∷ s) = false

-- The text before and behind the first of a character.
unfoldable pub split_first : ℕ → List ℕ → Option (List ℕ × List ℕ)
split_first q [] = none
split_first q (c ∷ s) = elim (c == q) [
  | true ↦ some ([], s)
  | false ↦ elim (split_first q s) [ none ↦ none | some (a, b) ↦ some (c ∷ a, b) ]
]

abbrev pub are_digits : List ℕ → Bool
are_digits s = not (is_nil s) && not (any (λ c. not (is_digit c)) s)

abbrev pub is_port_or_nil : List ℕ → Bool
is_port_or_nil [] = true
is_port_or_nil (c ∷ s) = c == b':' && are_digits s

abbrev pub in_brackets : Option (List ℕ × List ℕ) → Option (List ℕ)
in_brackets none = none
in_brackets (some (host, rest)) =
    if is_nil host || not (is_port_or_nil rest) then none else some host

-- One colon must have a port behind it, and more colons are refused.
abbrev pub without_port : List ℕ → Option (List ℕ × List ℕ) → Option (List ℕ)
without_port host none = some host
without_port host (some (before, port)) = if are_digits port then some before else none

-- `replace(/\.$/, '')` and the lower case of ASCII letters.
unfoldable pub bare_name : List ℕ → List ℕ
bare_name [] = []
bare_name (c ∷ s) =
    let rest = bare_name s in
    if c == b'.' && is_nil s then [] else (if is_upper c then c + 32 else c) ∷ rest

abbrev pub named : Option (List ℕ) → Option (List ℕ)
named none = none
named (some host) = if is_nil (bare_name host) then none else some (bare_name host)

unfoldable pub trim_end : List ℕ → List ℕ
trim_end [] = []
trim_end (c ∷ s) = let rest = trim_end s in if is_space c && is_nil rest then [] else c ∷ rest

unfoldable pub trim : List ℕ → List ℕ
unfolding trim_end
trim [] = []
trim (c ∷ s) = let rest = trim s in if is_space c then rest else trim_end (c ∷ s)

abbrev pub is_refused : ℕ → Bool
is_refused c = c == b'@' || c == b'/' || c == b'?' || c == b'\\' || c == b'#' || is_space c

abbrev pub name_of : List ℕ → Option (List ℕ)
name_of [] = none
name_of (c ∷ s) = elim (c == b'[') [
  | true ↦ named (in_brackets (split_first b']' s))
  | false ↦ named (without_port (c ∷ s) (split_first b':' (c ∷ s)))
]

unfoldable pub hostname_of : List ℕ → Option (List ℕ)
unfolding split_first bare_name trim
hostname_of header = if any is_refused (trim header) then none else name_of (trim header)

abbrev pub loopback_hosts : List String
loopback_hosts = "localhost" ∷ "127.0.0.1" ∷ "::1" ∷ []

abbrev pub is_one_of : List String → List ℕ → Bool
is_one_of names s = any (λ n. codes_eq (codes n) s) names

abbrev pub is_loopback_name : Option (List ℕ) → Bool
is_loopback_name none = false
is_loopback_name (some host) = is_one_of loopback_hosts host

unfoldable pub is_loopback_host : List ℕ → Bool
unfolding hostname_of
is_loopback_host host = is_loopback_name (hostname_of host)

-- An entry of the allowlist: a text, or what stands before its last `*`.
unfoldable pub entry_allows : List ℕ → List ℕ → Bool
entry_allows [] [] = true
entry_allows [] (c ∷ s) = false
entry_allows (e ∷ es) href = elim (e == b'*' && is_nil es) [
  | true ↦ true
  | false ↦ elim href [ [] ↦ false | c ∷ s ↦ e == c && entry_allows es s ]
]

abbrev pub is_http : List ℕ → Bool
is_http protocol = is_one_of ("http:" ∷ "https:" ∷ []) protocol

abbrev pub url_allowed : List (List ℕ) → Option Url → Bool
url_allowed allowlist none = false
url_allowed allowlist (some u) =
    not (not (is_nil u.hash) || not (is_nil u.username) || not (is_nil u.password))
    && (is_http u.protocol && is_loopback_host u.hostname
        || any (λ entry. entry_allows entry u.href) allowlist)

pub record AuthorizeParams : Type 0 where
  pub client_id : Option String
  pub redirect_uri : Option String
  pub response_type : Option String
  pub code_challenge : Option String
  pub code_challenge_method : Option String
  pub resource : Option String
  pub state : Option String

pub record LoginRequest : Type 0 where
  pub client_id : String
  pub redirect_uri : String
  pub redirect_uri_explicit : Bool
  pub code_challenge : String
  pub state : Option String
  pub expires_at : ℕ

-- An error page, an error that goes back to the client, or the sign-in page with its signed request.
pub data Reply : Type 0 where
  error_page : String → Reply
  redirect : String → String → Option String → Reply
  login_page : RegisteredClient → String → String → Reply

-- CODE_CHALLENGE
abbrev pub is_challenge : String → Bool
is_challenge s =
    length (codes s) == 43
    && not (any (λ c. not (is_letter c || is_digit c || c == b'_' || c == b'-')) (codes s))

abbrev pub is_text : String → Option String → Bool
is_text t none = false
is_text t (some s) = str_eq s t

abbrev pub only_one : List String → Option String
only_one [] = none
only_one (uri ∷ []) = some uri
only_one (uri ∷ other ∷ uris) = none

abbrev pub uri_of : Option String → RegisteredClient → Option String
uri_of none client = only_one client.redirect_uris
uri_of (some uri) client = some uri

abbrev pub is_given : Option String → Bool
is_given none = false
is_given (some s) = true

abbrev pub fits_resource : OauthConfig → Option String → Bool
fits_resource o none = true
fits_resource o (some resource) = is_own_resource o resource

module _ (parse_url : String → Option Url) where
  unfoldable pub is_redirect_uri_allowed : String → List (List ℕ) → Bool
  unfolding is_loopback_host entry_allows
  is_redirect_uri_allowed uri allowlist = url_allowed allowlist (parse_url uri)

  abbrev pub may_use : List (List ℕ) → RegisteredClient → String → Bool
  may_use allowlist client uri =
      not (str_eq uri "")
      && (includes client.redirect_uris uri && is_redirect_uri_allowed uri allowlist)

  module _ (x : Crypto) (decode : String → Option ClientPayload) (encode : LoginRequest → String)
      (read : String → Option LoginRequest) (o : OauthConfig) (allowlist : List (List ℕ)) where
    -- The sign-in page, if its signed request is short enough to come back.
    abbrev pub send_login : RegisteredClient → LoginRequest → Reply
    send_login client r =
        if ltb max_signed_value_length (text_length (sign x "login" encode r))
        then redirect r.redirect_uri "invalid_request" r.state
        else login_page client r.redirect_uri (sign x "login" encode r)

    -- The checks whose errors go back to the client.
    abbrev pub check_request : AuthorizeParams → ℕ → String → RegisteredClient → String → Reply
    check_request p now client_id client uri =
        if not (is_text "code" p.response_type)
        then redirect uri "unsupported_response_type" p.state
        else elim (present p.code_challenge) [
          | none ↦ redirect uri "invalid_request" p.state
          | some challenge ↦
              if not (is_text "S256" p.code_challenge_method) || not (is_challenge challenge)
              then redirect uri "invalid_request" p.state
              else if not (fits_resource o p.resource)
              then redirect uri "invalid_target" p.state
              else send_login client (record {
                client_id = client_id;
                redirect_uri = uri;
                redirect_uri_explicit = is_given p.redirect_uri;
                code_challenge = challenge;
                state = p.state;
                expires_at = now + login_ttl_ms;
              })
        ]

    abbrev pub check_uri : AuthorizeParams → ℕ → String → RegisteredClient → Option String → Reply
    check_uri p now client_id client none = error_page "errorRedirectUri"
    check_uri p now client_id client (some uri) =
        if may_use allowlist client uri
        then check_request p now client_id client uri
        else error_page "errorRedirectUri"

    abbrev pub authorize_client : AuthorizeParams → ℕ → String → Option RegisteredClient → Reply
    authorize_client p now client_id none = error_page "errorUnknownClient"
    authorize_client p now client_id (some client) =
        check_uri p now client_id client (uri_of p.redirect_uri client)

    -- GET /oauth/authorize
    unfoldable pub authorize : AuthorizeParams → ℕ → Reply
    unfolding is_redirect_uri_allowed
    authorize p now = elim (present p.client_id) [
      | none ↦ error_page "errorUnknownClient"
      | some client_id ↦ authorize_client p now client_id (read_client x decode client_id)
    ]

    abbrev pub check_pending_client :
        LoginRequest → Option RegisteredClient → Option (LoginRequest × RegisteredClient)
    check_pending_client r none = none
    check_pending_client r (some client) =
        if includes client.redirect_uris r.redirect_uri
          && is_redirect_uri_allowed r.redirect_uri allowlist
        then some (r, client)
        else none

    abbrev pub check_pending : ℕ → Option LoginRequest → Option (LoginRequest × RegisteredClient)
    check_pending now none = none
    check_pending now (some r) =
        if ltb r.expires_at now
        then none
        else check_pending_client r (read_client x decode r.client_id)

    -- The request that a sign-in form carries back, or nothing if a page refuses it.
    unfoldable pub check_login : Option String → ℕ → Option (LoginRequest × RegisteredClient)
    unfolding is_redirect_uri_allowed
    check_login none now = none
    check_login (some request) now = check_pending now (verify_signed x "login" read request)
