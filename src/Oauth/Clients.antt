-- ===== src/Oauth/Clients.antt =====
-- src/auth/oauth.ts: readClient, clientSecretFor, isOwnResource and authenticateClient.
use Prim.Native.Char.{code}
use mcp_server_db2i.Prelude.{
  ℕ, String, Bool, true, false, ◌&&◌, ◌||◌, Option, none, some, List, [], ◌∷◌, any, ◌==◌,
  if◌then◌else◌, str_eq,
}
use mcp_server_db2i.Oauth.{OauthConfig, Crypto}
use mcp_server_db2i.Oauth.Signed.{verify_signed, safe_equal}

-- A decoded payload that is not known to be a client: a field is `none` unless it has the type that
-- isStringArray or the comparison asks for.
pub record ClientPayload : Type 0 where
  pub version : Option ℕ
  pub redirect_uris : Option (List String)
  pub grant_types : Option (List String)
  pub auth_method : Option String

pub record RegisteredClient : Type 0 where
  pub redirect_uris : List String
  pub grant_types : List String
  pub auth_method : String

abbrev pub includes : List String → String → Bool
includes xs t = any (λ s. str_eq s t) xs

abbrev pub token_auth_methods : List String
token_auth_methods = "none" ∷ "client_secret_basic" ∷ "client_secret_post" ∷ []

abbrev is_version_one : Option ℕ → Bool
is_version_one none = false
is_version_one (some v) = v == 1

-- The checks of readClient on a payload.
unfoldable pub as_client : ClientPayload → Option RegisteredClient
as_client p = elim p.redirect_uris [
  | none ↦ none
  | some uris ↦ elim p.grant_types [
    | none ↦ none
    | some types ↦ elim p.auth_method [
      | none ↦ none
      | some method ↦
          if is_version_one p.version && includes token_auth_methods method
          then some (record { redirect_uris = uris; grant_types = types; auth_method = method })
          else none
    ]
  ]
]

abbrev pub checked : Option ClientPayload → Option RegisteredClient
checked none = none
checked (some p) = as_client p

module _ (x : Crypto) (decode : String → Option ClientPayload) where
  unfoldable pub read_client : String → Option RegisteredClient
  unfolding as_client
  read_client client_id = checked (verify_signed x "client" decode client_id)

  unfoldable pub client_secret_for : String → String
  client_secret_for client_id = x.mac "client-secret" client_id

-- The credentials of a request: those of HTTP Basic, which may be malformed, and the body's.
pub record Credentials : Type 0 where
  pub basic : Option (Option (String × String))
  pub client_id : Option String
  pub client_secret : Option String

pub data ClientAuth : Type 0 where
  authenticated : String → RegisteredClient → ClientAuth
  rejected : Bool → String → ClientAuth

-- `!value` for a text that may be missing.
abbrev pub present : Option String → Option String
present none = none
present (some t) = if str_eq t "" then none else some t

module _ (x : Crypto) (decode : String → Option ClientPayload) where
  -- The secret of a confidential client.
  unfoldable pub has_secret : String → RegisteredClient → Option String → Bool
  unfolding client_secret_for
  has_secret client_id client secret = str_eq client.auth_method "none" || (elim (present secret) [
    | none ↦ false
    | some given ↦ safe_equal x given (client_secret_for x decode client_id)
  ])

  unfoldable pub check_client : Bool → Option String → Option String → ClientAuth
  unfolding read_client has_secret
  check_client basic client_id secret = elim (present client_id) [
    | none ↦ rejected basic "Unknown client. Register the client again."
    | some id ↦ elim (read_client x decode id) [
      | none ↦ rejected basic "Unknown client. Register the client again."
      | some client ↦
          if has_secret id client secret
          then authenticated id client
          else rejected basic "Client authentication failed"
    ]
  ]

  unfoldable pub authenticate_client : Credentials → ClientAuth
  unfolding check_client
  authenticate_client c = elim c.basic [
    | none ↦ check_client false c.client_id c.client_secret
    | some none ↦ rejected true "Malformed Basic credentials"
    | some (some (id, secret)) ↦ check_client true (some id) (some secret)
  ]

-- `resource.replace(/\/+$/, '')`
unfoldable pub strip_slashes : String → String
strip_slashes String.[] = String.[]
strip_slashes (String.◌∷◌ c s) =
    let rest = strip_slashes s in
    if code c == b'/' && str_eq rest "" then String.[] else String.◌∷◌ c rest

unfoldable pub is_own_resource : OauthConfig → String → Bool
unfolding strip_slashes
is_own_resource o resource =
    let normalized = strip_slashes resource in
    str_eq normalized o.resource || str_eq normalized o.public_url
