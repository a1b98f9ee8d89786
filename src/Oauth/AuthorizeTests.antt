-- ===== src/Oauth/AuthorizeTests.antt =====
-- src/auth/oauth.ts: the authorization endpoint at concrete requests.
use Prim.Native.String
use mcp_server_db2i.Prelude.{
  String, Bool, false, Option, none, some, List, [], ◌∷◌, ◌≡◌, refl, str_eq, if◌then◌else◌,
}
use mcp_server_db2i.Oauth.{OauthConfig, Crypto}
use mcp_server_db2i.Oauth.Clients.{ClientPayload, RegisteredClient, read_client}
use mcp_server_db2i.Prelude.Text.{codes, codes_eq}
use mcp_server_db2i.Oauth.Authorize.{
  Url, AuthorizeParams, LoginRequest, Reply, send_login, authorize, check_login, hostname_of,
  is_loopback_host, split_first, bare_name, trim, trim_end,
}
use mcp_server_db2i.Oauth.Register.{missing, given, Registration, NewClient}
use mcp_server_db2i.Oauth.Targets.{IsRegistered}
use mcp_server_db2i.Oauth.Redirects.{authorize-IsRegistered, check_login-send_login}

-- Digests and keys that are the texts themselves, and signatures that start with the purpose.
abbrev crypto : Crypto
crypto = record {
  grant_key = λ t. t;
  s256 = λ t. t;
  digest = λ t. t;
  mac = λ purpose body. String.◌++◌ purpose body;
}

abbrev settings : OauthConfig
settings = record {
  public_url = "https://mcp";
  resource = "https://mcp/mcp";
  refresh_expiry = 3600;
  limits = record { max_sessions = 5; token_expiry = 60 };
}

abbrev desktop : ClientPayload
desktop = record {
  version = some 1;
  redirect_uris = some ("http://localhost/cb" ∷ []);
  grant_types = some ("authorization_code" ∷ []);
  auth_method = some "none";
}

abbrev desktop_client : RegisteredClient
desktop_client = record {
  redirect_uris = "http://localhost/cb" ∷ [];
  grant_types = "authorization_code" ∷ [];
  auth_method = "none";
}

abbrev decode_client : String → Option ClientPayload
decode_client body = if str_eq body "c" then some desktop else none

abbrev parse : String → Option Url
parse uri = some (record {
  protocol = codes "http:";
  hostname = codes "LocalHost.";
  hash = [];
  username = [];
  password = [];
  href = codes uri;
})

abbrev asked : AuthorizeParams
asked = record {
  client_id = some "c.clientc";
  redirect_uri = none;
  response_type = some "token";
  code_challenge = none;
  code_challenge_method = none;
  resource = none;
  state = none;
}

abbrev login : LoginRequest
login = record {
  client_id = "c.clientc";
  redirect_uri = "http://localhost/cb";
  redirect_uri_explicit = false;
  code_challenge = "0123456789012345678901234567890123456789abc";
  state = some "s";
  expires_at = 100;
}

abbrev encode_login : LoginRequest → String
encode_login r = r.redirect_uri

abbrev read_login : String → Option LoginRequest
read_login body = some login

authorize-IsRegistered_example :
    (client : RegisteredClient) × (read_client crypto decode_client "c.clientc" ≡ some client)
    × IsRegistered parse [] client "http://localhost/cb"
unfolding authorize read_client mcp_server_db2i.Oauth.Signed.verify_signed
    mcp_server_db2i.Prelude.Text.codes_eq
authorize-IsRegistered_example =
    authorize-IsRegistered parse crypto decode_client encode_login read_login settings [] asked 5
      "http://localhost/cb" refl

check_login-send_login_example :
    check_login parse crypto decode_client encode_login read_login settings []
      (some "http://localhost/cb.loginhttp://localhost/cb")
      100
    ≡ some (login, desktop_client)
unfolding mcp_server_db2i.Oauth.Signed.split_last_dot mcp_server_db2i.Oauth.Signed.text_length
    mcp_server_db2i.Oauth.Signed.sign read_client mcp_server_db2i.Oauth.Signed.verify_signed
    mcp_server_db2i.Oauth.Authorize.is_redirect_uri_allowed mcp_server_db2i.Prelude.Text.codes_eq
check_login-send_login_example =
    check_login-send_login parse crypto decode_client encode_login read_login settings [] login
      desktop_client "http://localhost/cb.loginhttp://localhost/cb" 100 refl refl refl refl refl
      refl refl

abbrev registration : Registration
registration = record {
  redirect_uris = given ("http://localhost/cb" ∷ []);
  auth_method = given "none";
  grant_types = given ("authorization_code" ∷ "authorization_code" ∷ []);
  response_types = missing;
  client_name = given (codes " Desk ");
}

abbrev new_client : NewClient
new_client = record { client = desktop_client; name = codes "Desk"; issued_at = 7; nonce = "n" }

abbrev encode_client : NewClient → String
encode_client c = "c"

-- Names of this machine, and others.
local_names :
    (hostname_of (codes " LocalHost.:80 ") ≡ some (codes "localhost"))
    × (hostname_of (codes "[::1]:8080") ≡ some (codes "::1"))
    × (hostname_of (codes "[::1]x") ≡ none)
    × (hostname_of (codes "a@localhost") ≡ none)
    × (hostname_of (codes "localhost.evil.com") ≡ some (codes "localhost.evil.com"))
    × (is_loopback_host (codes "localhost.evil.com") ≡ false)
    × (is_loopback_host (codes "10.0.0.1") ≡ false)
unfolding hostname_of is_loopback_host split_first bare_name trim trim_end codes_eq
local_names = (refl, refl, refl, refl, refl, refl, refl)
