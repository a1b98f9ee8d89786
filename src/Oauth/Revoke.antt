-- ===== src/Oauth/Revoke.antt =====
-- src/auth/oauth.ts: POST /oauth/revoke after the client is authenticated, and the part of the
-- sign-in that adds a pending code.
use mcp_server_db2i.Prelude.{
  ℕ, ◌+◌, String, Bool, true, false, Option, none, some, leb, if◌then◌else◌, str_eq, is_text,
  length,
}
use mcp_server_db2i.Prelude.Table.{get, set}
use mcp_server_db2i.Tokens.{TokenSession, get_session, revoke_token}
use mcp_server_db2i.Oauth.{
  Crypto, PendingCode, OauthState, Response, accepted, closes, act, code_ttl_ms, max_pending_codes,
}
use mcp_server_db2i.Oauth.Clients.{present}
use mcp_server_db2i.Oauth.Issue.{revoke_sign_in, sweep_expired}

-- An access token of another kind is revoked alone.
abbrev pub revoke_alone : String → OauthState → OauthState
revoke_alone token s = record s { tokens = (revoke_token token s.tokens).0 }

abbrev pub end_sign_in : Option String → String → OauthState → OauthState
end_sign_in none token s = revoke_alone token s
end_sign_in (some g) token s = if str_eq g "" then revoke_alone token s else revoke_sign_in g s

-- The owner of the token: its refresh grant, or else its session, as client and grant ID.
abbrev pub owner_of_session : Option TokenSession → Option (Option String × Option String)
owner_of_session none = none
owner_of_session (some t) = some (t.client_id, t.grant_id)

module _ (x : Crypto) where
  unfoldable pub token_owner : String → OauthState → Option (Option String × Option String)
  unfolding get_session
  token_owner token s = elim (get (x.grant_key token) s.refresh_grants) [
    | none ↦ owner_of_session (get_session token s.tokens)
    | some g ↦ some (some g.client_id, some g.grant_id)
  ]

  -- The answer is the same whether or not the token was known.
  unfoldable pub revoke : String → Option String → OauthState → OauthState × Response
  unfolding token_owner revoke_sign_in
  revoke client token s = elim (present token) [
    | none ↦ (s, accepted)
    | some t ↦ elim (token_owner t s) [
      | none ↦ (s, accepted)
      | some (owner, grant) ↦ (if is_text owner client then end_sign_in grant t s else s, accepted)
    ]
  ]

-- The end of POST /oauth/authorize: a code for a sign-in that succeeded, or none at the limit.
unfoldable pub add_code : String → PendingCode → ℕ → OauthState → OauthState × Bool
unfolding sweep_expired
add_code code p now s =
    let swept = sweep_expired (λ (c : PendingCode). c.expires_at) now s.pending_codes in
    let kept : OauthState = record s { pending_codes = swept } in
    if leb max_pending_codes (length swept) then (act (closes p.pool) kept, false) else (
      record kept { pending_codes = set code (record p { expires_at = now + code_ttl_ms }) swept },
      true,
    )
