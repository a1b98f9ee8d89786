-- ===== src/Oauth/Registered.antt =====
-- src/auth/oauth.ts: a client that registered, at its next request.
use mcp_server_db2i.Prelude.{ℕ, String, true, false, Option, some, List, ◌≡◌, any, ltb}
use mcp_server_db2i.Oauth.{Crypto}
use mcp_server_db2i.Oauth.Signed.{text_length, sign}
use mcp_server_db2i.Oauth.Clients.{ClientPayload, RegisteredClient, token_auth_methods, includes}
use mcp_server_db2i.Oauth.Authorize.{Url}
use mcp_server_db2i.Oauth.Register.{
  NewClient, RegisterReply, refused, registered, max_client_id_length, is_refused_uri, secret_of,
}

-- The fields of the metadata that readClient looks at, as JSON.stringify writes them.
abbrev pub payload_of : RegisteredClient → ClientPayload
payload_of client = record {
  version = some 1;
  redirect_uris = some client.redirect_uris;
  grant_types = some client.grant_types;
  auth_method = some client.auth_method;
}

module _ (parse_url : String → Option Url) (x : Crypto) (decode : String → Option ClientPayload)
    (encode : NewClient → String) (allowlist : List (List ℕ)) where
  -- What a reply with a client ID shows.
  abbrev pub IsSound : RegisterReply → Type 0
  IsSound (refused error text) = Unit
  IsSound (registered id secret c) =
      (sign x "client" encode c ≡ id)
      × (secret ≡ secret_of parse_url x decode encode allowlist c.client.auth_method id)
      × (any (is_refused_uri parse_url x decode encode allowlist) c.client.redirect_uris ≡ false)
      × (ltb max_client_id_length (text_length id) ≡ false)
      × (includes token_auth_methods c.client.auth_method ≡ true)
