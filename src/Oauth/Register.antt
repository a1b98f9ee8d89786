-- ===== src/Oauth/Register.antt =====
-- src/auth/oauth.ts: POST /oauth/register. A field of the body is missing, of a wrong type or given;
-- a `null` counts as missing, but as wrong for client_name. The name is the list of its UTF-16 code units.
use mcp_server_db2i.Prelude.{
  ℕ, ◌/◌, String, Bool, not, ◌&&◌, ◌||◌, Option, none, some, List, [], ◌∷◌, any, ltb, if◌then◌else◌,
  str_eq, length, take,
}
use mcp_server_db2i.Oauth.{Crypto}
use mcp_server_db2i.Oauth.Signed.{text_length, sign}
use mcp_server_db2i.Oauth.Clients.{
  ClientPayload, RegisteredClient, includes, token_auth_methods, client_secret_for,
}
use mcp_server_db2i.Oauth.Authorize.{Url, is_redirect_uri_allowed, trim}

pub data Field {ℓ} (A : Type ℓ) : Type ℓ where
  missing wrong : Field A
  given : A → Field A

pub record Registration : Type 0 where
  pub redirect_uris : Field (List String)
  pub auth_method : Field String
  pub grant_types : Field (List String)
  pub response_types : Field (List String)
  pub client_name : Field (List ℕ)

-- The metadata inside the client ID, in seconds.
pub record NewClient : Type 0 where
  pub client : RegisteredClient
  pub name : List ℕ
  pub issued_at : ℕ
  pub nonce : String

pub data RegisterReply : Type 0 where
  refused : String → String → RegisterReply
  registered : String → Option String → NewClient → RegisterReply

abbrev pub max_redirect_uris : ℕ
max_redirect_uris = 10

abbrev pub max_redirect_uri_length : ℕ
max_redirect_uri_length = 2048

abbrev pub max_client_name_length : ℕ
max_client_name_length = 100

abbrev pub max_client_id_length : ℕ
max_client_id_length = 4096

abbrev pub all_grant_types : List String
all_grant_types = "authorization_code" ∷ "refresh_token" ∷ []

-- `value ?? default`
abbrev pub or_default {ℓ} : {A : Type ℓ} → A → Field A → Option A
or_default d missing = some d
or_default d wrong = none
or_default d (given v) = some v

abbrev pub all_in : List String → List String → Bool
all_in allowed xs = not (any (λ t. not (includes allowed t)) xs)

-- The value of a field if it passes its test.
abbrev pub passing {ℓ} : {A : Type ℓ} → (A → Bool) → Option A → Option A
passing test none = none
passing test (some v) = if test v then some v else none

-- `[...new Set(xs)]`: the first of each text.
unfoldable pub without : String → List String → List String
without t [] = []
without t (x ∷ xs) = let rest = without t xs in if str_eq x t then rest else x ∷ rest

unfoldable pub distinct : List String → List String
unfolding without
distinct [] = []
distinct (x ∷ xs) = x ∷ without x (distinct xs)

abbrev pub name_of : Field (List ℕ) → Option (List ℕ)
name_of missing = some []
name_of wrong = none
name_of (given name) = some (take max_client_name_length (trim name))

abbrev pub is_count : List String → Bool
is_count uris = ltb 0 (length uris) && not (ltb max_redirect_uris (length uris))

module _ (parse_url : String → Option Url) (x : Crypto) (decode : String → Option ClientPayload)
    (encode : NewClient → String) (allowlist : List (List ℕ)) where
  abbrev pub is_refused_uri : String → Bool
  is_refused_uri uri =
      ltb max_redirect_uri_length (text_length uri)
      || not (is_redirect_uri_allowed parse_url uri allowlist)

  abbrev pub secret_of : String → String → Option String
  secret_of method id = if str_eq method "none" then none else some (client_secret_for x decode id)

  abbrev pub issue_id : NewClient → RegisterReply
  issue_id c =
      if ltb max_client_id_length (text_length (sign x "client" encode c))
      then refused "invalid_client_metadata"
          "The client metadata is too large. Register fewer or shorter redirect URIs."
      else registered (sign x "client" encode c)
          (secret_of c.client.auth_method (sign x "client" encode c)) c

  abbrev pub check_name :
      List String → String → List String → ℕ → String → Option (List ℕ) → RegisterReply
  check_name uris method types now nonce none =
      refused "invalid_client_metadata" "client_name must be a string"
  check_name uris method types now nonce (some name) = issue_id (record {
    client = record { redirect_uris = uris; grant_types = distinct types; auth_method = method };
    name = name;
    issued_at = now / 1000;
    nonce = nonce;
  })

  abbrev pub check_responses :
      Registration
      → List String
      → String
      → List String
      → ℕ
      → String
      → Option (List String)
      → RegisterReply
  check_responses r uris method types now nonce none =
      refused "invalid_client_metadata" "response_types may contain only code"
  check_responses r uris method types now nonce (some codes) =
      check_name uris method types now nonce (name_of r.client_name)

  abbrev pub check_types :
      Registration → List String → String → ℕ → String → Option (List String) → RegisterReply
  check_types r uris method now nonce none =
      refused "invalid_client_metadata" "grant_types may contain: authorization_code, refresh_token"
  check_types r uris method now nonce (some types) =
      check_responses r uris method types now nonce
        (passing (all_in ("code" ∷ [])) (or_default ("code" ∷ []) r.response_types))

  abbrev pub check_method : Registration → List String → ℕ → String → Option String → RegisterReply
  check_method r uris now nonce none =
      refused "invalid_client_metadata"
        "token_endpoint_auth_method must be one of: none, client_secret_basic, client_secret_post"
  check_method r uris now nonce (some method) =
      check_types r uris method now nonce
        (passing (all_in all_grant_types) (or_default all_grant_types r.grant_types))

  abbrev pub check_uris : Registration → ℕ → String → Option (List String) → RegisterReply
  check_uris r now nonce none =
      refused "invalid_redirect_uri" "redirect_uris must list 1 to 10 URLs"
  check_uris r now nonce (some uris) =
      if any is_refused_uri uris
      then refused "invalid_redirect_uri" "A redirect URI is not allowed by MCP_OAUTH_REDIRECT_URIS"
      else check_method r uris now nonce
          (passing (includes token_auth_methods) (or_default "client_secret_basic" r.auth_method))

  abbrev pub uris_of : Field (List String) → Option (List String)
  uris_of missing = none
  uris_of wrong = none
  uris_of (given uris) = passing is_count (some uris)

  unfoldable pub register : Registration → ℕ → String → RegisterReply
  unfolding distinct client_secret_for
  register r now nonce = check_uris r now nonce (uris_of r.redirect_uris)
