-- ===== src/Oauth/Issue.antt =====
-- src/auth/oauth.ts: revokeGrant, sweepExpired and issueTokens.
use mcp_server_db2i.Prelude.{
  ℕ, ◌+◌, ◌-◌, ◌*◌, String, Bool, true, false, ◌&&◌, none, some, List, leb, ltb, if◌then◌else◌,
  str_eq, length, take,
}
use mcp_server_db2i.Prelude.Table.{Table, get, set, delete_all, keys_where}
use mcp_server_db2i.Tokens.{Db2iConfig, Issued, create_session, session_pool_key, revoke_grant}
use mcp_server_db2i.Prelude.Text.{codes_eq}
use mcp_server_db2i.Oauth.{
  OauthConfig, Crypto, RefreshGrant, Flight, OauthState, Response, failure, issued, closes,
  hands_over, act, user_key, max_refresh_grants_per_user,
}

-- A revocation marks the refreshes of the grant that wait.
unfoldable pub mark_flight : String → Table Flight → Table Flight
mark_flight g flights = elim (get g flights) [
  | none ↦ flights
  | some f ↦ set g (record f { revoked = true }) flights
]

abbrev pub grant_is : String → RefreshGrant → Bool
grant_is g r = str_eq r.grant_id g

-- End every access and refresh token issued from one sign-in.
unfoldable pub revoke_sign_in : String → OauthState → OauthState
unfolding mark_flight
revoke_sign_in g s = record s {
  refreshing = mark_flight g s.refreshing;
  refresh_grants = delete_all (keys_where (grant_is g) s.refresh_grants) s.refresh_grants;
  tokens = (revoke_grant g s.tokens).0;
}

-- The loop deletes the entries whose time has come.
unfoldable pub sweep_expired {ℓ} : {V : Type ℓ} → (V → ℕ) → ℕ → Table V → Table V
sweep_expired expires_at now m = delete_all (keys_where (λ v. leb (expires_at v) now) m) m

-- The texts that are drawn for one issue.
pub record Draws : Type 0 where
  pub access : String
  pub refresh : String

-- Who signed in, where, and the grant that the tokens descend from.
pub record GrantContext : Type 0 where
  pub grant_id : String
  pub system : String
  pub config : Db2iConfig

-- The user's own grants go first, oldest first, until one more fits under the user's cap.
unfoldable pub evict_own : List ℕ → Table RefreshGrant → Table RefreshGrant
evict_own user m =
    let own = keys_where (λ (r : RefreshGrant). codes_eq r.user user) m in
    delete_all (take (length own + 1 - max_refresh_grants_per_user) own) m

-- The refresh grants after one more is stored, and whether it was.
unfoldable pub store_grant :
    OauthConfig → String → RefreshGrant → ℕ → Table RefreshGrant → Table RefreshGrant × Bool
unfolding sweep_expired evict_own
store_grant o key grant now m =
    let kept = evict_own grant.user (sweep_expired (λ (r : RefreshGrant). r.expires_at) now m) in
    if leb o.limits.max_sessions (length kept) then (kept, false) else (set key grant kept, true)

module _ (x : Crypto) (o : OauthConfig) where
  -- issueTokens once the access token exists.
  unfoldable pub issue_refresh :
      String → Bool → GrantContext → Draws → ℕ → Issued → OauthState → OauthState × Response
  unfolding store_grant
  issue_refresh client may_refresh grant draws now access s =
      let refresh : RefreshGrant = record {
        client_id = client;
        grant_id = grant.grant_id;
        user = user_key grant.system grant.config;
        system = grant.system;
        config = grant.config;
        expires_at = now + o.refresh_expiry * 1000;
      } in
      let stored = store_grant o (x.grant_key draws.refresh) refresh now s.refresh_grants in
      if ltb 0 o.refresh_expiry && may_refresh
      then (
        record s { refresh_grants = stored.0 },
        issued access.token access.expires_in (if stored.1 then some draws.refresh else none),
      )
      else (s, issued access.token access.expires_in none)

  unfoldable pub issue_tokens :
      String → Bool → GrantContext → String → Draws → ℕ → OauthState → OauthState × Response
  unfolding issue_refresh
  issue_tokens client may_refresh grant pool draws now s =
      elim (create_session o.limits draws.access now grant.config none grant.system (some client)
        (some grant.grant_id) s.tokens) [
          | none ↦ (
            act (closes pool) s,
            failure 503 "temporarily_unavailable" "Maximum concurrent sessions reached.",
          )
          | some (tokens, access) ↦ issue_refresh client may_refresh grant draws now access (
              act (hands_over pool (session_pool_key access.token (some grant.grant_id)))
                (record s { tokens = tokens }))
        ]
