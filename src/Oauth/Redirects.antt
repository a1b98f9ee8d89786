-- ===== src/Oauth/Redirects.antt =====
-- src/auth/oauth.ts: where GET /oauth/authorize sends a browser, and what its sign-in form brings back.
use mcp_server_db2i.Prelude.{
  ℕ, ◌≤◌, String, Bool, true, false, not, ◌&&◌, ◌||◌, Option, none, some, List, ◌≡◌, ◌∙◌, refl, sym,
  ap, inl, inr, arith, ltb, str_eq, Option-cases, Bool-cases, some-eq-some, subst,
}
use mcp_server_db2i.Oauth.{OauthConfig, Crypto}
use mcp_server_db2i.Oauth.Signed.{
  max_signed_value_length, text_length, split_last_dot, sign, verify_signed,
}
use mcp_server_db2i.Oauth.Clients.{ClientPayload, RegisteredClient, includes, read_client, present}
use mcp_server_db2i.Oauth.Forgery.{verify_signed-sign}
use mcp_server_db2i.Oauth.Targets.{IsRegistered, open_uri}
use mcp_server_db2i.Oauth.Authorize.{
  Url, is_redirect_uri_allowed, may_use, AuthorizeParams, LoginRequest, Reply, error_page, redirect,
  login_page, is_challenge, is_text, uri_of, fits_resource, send_login, check_request, check_uri,
  authorize, check_pending, check_login,
}

-- Where an answer sends the browser or will send it after the sign-in.
abbrev pub target_of : Reply → Option String
target_of (error_page text) = none
target_of (redirect uri error state) = some uri
target_of (login_page client uri request) = some uri

abbrev pub request_of : Reply → Option String
request_of (error_page text) = none
request_of (redirect uri error state) = none
request_of (login_page client uri request) = some request

abbrev pub id_of : Option String → String
id_of none = ""
id_of (some id) = id

module _ (parse_url : String → Option Url) (x : Crypto) (decode : String → Option ClientPayload)
    (encode : LoginRequest → String) (read : String → Option LoginRequest) (o : OauthConfig)
    (allowlist : List (List ℕ)) where
  -- Is the URI one that the signed client registered, and that a client may use?
  abbrev pub is_open_to : Option RegisteredClient → String → Bool
  is_open_to none uri = false
  is_open_to (some client) uri =
      includes client.redirect_uris uri && is_redirect_uri_allowed parse_url uri allowlist

  send_login-target_of :
      (client : RegisteredClient) (r : LoginRequest)
      → target_of (send_login parse_url x decode encode read o allowlist client r)
        ≡ some r.redirect_uri
  send_login-target_of client r =
      elim (Bool-cases (ltb max_signed_value_length (text_length (sign x "login" encode r)))) [
        | inl long ↦ rw long refl
        | inr short ↦ rw short refl
      ]

  check_request-target_of :
      (p : AuthorizeParams) (now : ℕ) (id : String) (client : RegisteredClient) (uri : String)
      → target_of (check_request parse_url x decode encode read o allowlist p now id client uri)
        ≡ some uri
  check_request-target_of p now id client uri = elim (Bool-cases (is_text "code" p.response_type)) [
    | inr other ↦ rw other refl
    | inl is_code ↦ elim (Option-cases (present p.code_challenge)) [
      | inl missing ↦ rw (is_code, missing) refl
      | inr (c, found) ↦
          elim (Bool-cases (not (is_text "S256" p.code_challenge_method) || not (is_challenge c))) [
            | inl plain ↦ rw (is_code, found, plain) refl
            | inr hashed ↦ elim (Bool-cases (fits_resource o p.resource)) [
              | inr foreign ↦ rw (is_code, found, hashed, foreign) refl
              | inl own ↦ rw (is_code, found, hashed, own) (send_login-target_of client _)
            ]
          ]
    ]
  ]

  check_uri_open :
      (p : AuthorizeParams) (now : ℕ) (id : String) (client : RegisteredClient)
      (given : Option String) (uri : String)
      → target_of (check_uri parse_url x decode encode read o allowlist p now id client given)
        ≡ some uri
      → is_open_to (some client) uri ≡ true
  check_uri_open p now id client none uri h = cc
  check_uri_open p now id client (some given) uri h =
      elim (Bool-cases (may_use parse_url allowlist client given)) [
        | inr refused ↦ absurd (let e = rw refused at h in cc)
        | inl allowed ↦
            let q : given ≡ uri =
              some-eq-some
                (sym (check_request-target_of p now id client given) ∙ rw allowed at h) in
            subst (λ (u : String). is_open_to (some client) u ≡ true) q (ground (arith, allowed))
      ]

  authorize-is_open_to :
      (p : AuthorizeParams) (now : ℕ) (uri : String)
      → target_of (authorize parse_url x decode encode read o allowlist p now) ≡ some uri
      → is_open_to (read_client x decode (id_of (present p.client_id))) uri ≡ true
  unfolding authorize
  authorize-is_open_to p now uri h = elim (Option-cases (present p.client_id)) [
    | inl missing ↦ absurd (let e = rw (missing, authorize) at h in cc)
    | inr (id, found) ↦ rw found (elim (Option-cases (read_client x decode id)) [
      | inl unknown ↦ absurd (let e = rw (found, unknown, authorize) at h in cc)
      | inr (client, known) ↦ rw known (
          check_uri_open p now id client (uri_of p.redirect_uri client) uri
            (rw (found, known, authorize) at h))
    ])
  ]

  known_target :
      (found : Option RegisteredClient) (uri : String)
      → is_open_to found uri ≡ true
      → (client : RegisteredClient) × (found ≡ some client)
        × IsRegistered parse_url allowlist client uri
  known_target none uri h = cc
  known_target (some client) uri h = (client, refl, open_uri parse_url allowlist client uri h)

  -- Whatever a request asks for, GET /oauth/authorize redirects, or lets a sign-in redirect, only to a
  -- URI that the client signed by this server registered; the URI parses as a URL without a fragment,
  -- user name or password, and it is an http or https URL whose host is localhost, 127.0.0.1 or ::1, or
  -- equals an entry of the allowlist, or starts with what an entry has before its last `*`. Every
  -- other request gets an error page.
  pub authorize-IsRegistered :
      (p : AuthorizeParams) (now : ℕ) (uri : String)
      → target_of (authorize parse_url x decode encode read o allowlist p now) ≡ some uri
      → (client : RegisteredClient) × (read_client x decode (id_of (present p.client_id))
          ≡ some client)
        × IsRegistered parse_url allowlist client uri
  authorize-IsRegistered p now uri h =
      known_target (read_client x decode (id_of (present p.client_id))) uri
        (authorize-is_open_to p now uri h)

  check_pending_accepts :
      (r : LoginRequest) (client : RegisteredClient) (later : ℕ)
      → ltb r.expires_at later ≡ false
      → read_client x decode r.client_id ≡ some client
      → is_open_to (some client) r.redirect_uri ≡ true
      → check_pending parse_url x decode encode read o allowlist later (some r) ≡ some (r, client)
  check_pending_accepts r client later live known allowed = rw (live, known, allowed) refl

  short_request :
      (client : RegisteredClient) (r : LoginRequest) (request : String)
      → request_of (send_login parse_url x decode encode read o allowlist client r) ≡ some request
      → (sign x "login" encode r ≡ request)
        × (text_length (sign x "login" encode r) ≤ max_signed_value_length)
  short_request client r request h =
      elim (Bool-cases (ltb max_signed_value_length (text_length (sign x "login" encode r)))) [
        | inl long ↦ absurd (let e = rw long at h in cc)
        | inr short ↦ (some-eq-some (rw short at h), ground (arith, short))
      ]

  -- A sign-in page that the server sends brings back the same request: posted until its expiry, its
  -- signed text is accepted, with the redirect URI, the challenge and the state that it was made for, if
  -- the client is still known and its URI still allowed, the encoding of the request reads back and is
  -- not empty, and a signature has no dot.
  pub check_login-send_login :
      (r : LoginRequest) (client : RegisteredClient) (request : String) (later : ℕ)
      → read (encode r) ≡ some r
      → str_eq (encode r) "" ≡ false
      → split_last_dot (x.mac "login" (encode r)) ≡ none
      → request_of (send_login parse_url x decode encode read o allowlist client r) ≡ some request
      → ltb r.expires_at later ≡ false
      → read_client x decode r.client_id ≡ some client
      → is_open_to (some client) r.redirect_uri ≡ true
      → check_login parse_url x decode encode read o allowlist (some request) later
        ≡ some (r, client)
  unfolding check_login
  check_login-send_login r client request later reads full plain sent live known allowed =
      let q = short_request client r request sent in
      let v : verify_signed x "login" read request ≡ some r =
        ap (verify_signed x "login" read) (sym q.0)
        ∙ verify_signed-sign x "login" encode read r reads full plain q.1 in
      ap (check_pending parse_url x decode encode read o allowlist later) v
      ∙ check_pending_accepts r client later live known allowed
