-- ===== src/Oauth/Gone.antt =====
-- src/auth/oauth.ts: what adds a token of a sign-in, and what does not.
use mcp_server_db2i.Prelude.{
  ℕ, String, Bool, false, ◌&&◌, Option, none, some, ◌≡◌, inl, inr, arith, Bool-cases, str_eq, subst,
  length, any, leb, ltb,
}
use mcp_server_db2i.Prelude.Table.{
  Table, delete, values, IsDistinct, keys_where, any-set, any-delete_all, any-delete_all-keys_where,
}
use mcp_server_db2i.Tokens.{Issued, session_pool_key}
use mcp_server_db2i.Tokens.Invariant.{after_create}
use mcp_server_db2i.Tokens.Grants.{
  IsWithout, after_create-IsWithout, revoke_token-IsWithout, revoke_grant-IsWithout,
  revoke_grant_own,
}
use mcp_server_db2i.Oauth.{
  OauthConfig, Crypto, RefreshGrant, PendingCode, OauthState, act, hands_over,
}
use mcp_server_db2i.Oauth.Issue.{
  Draws, GrantContext, revoke_sign_in, issue_tokens, issue_refresh, grant_is, store_grant,
  evict_own, sweep_expired,
}
use mcp_server_db2i.Oauth.Token.{Caller, Exchange, exchange_code, use_up}
use mcp_server_db2i.Oauth.Cases.{
  remembered, context_of, replay_cases, issue_tokens_cases, redeem_cases, exchange_code_cases,
  revoke_cases,
}
use mcp_server_db2i.Oauth.Revoke.{revoke, end_sign_in, add_code}

module _ (g : String) where
  -- No refresh token and no access token of the sign-in is held.
  abbrev pub IsGone : OauthState → Type 0
  IsGone s = (any (grant_is g) (values s.refresh_grants) ≡ false) × IsWithout g s.tokens

  pub revoke_sign_in-IsGone : (h : String) (s : OauthState) → IsGone s → IsGone (revoke_sign_in h s)
  unfolding revoke_sign_in
  revoke_sign_in-IsGone h s d = (
    any-delete_all (grant_is g) (keys_where (grant_is h) s.refresh_grants) s.refresh_grants d.0,
    revoke_grant-IsWithout g h s.tokens d.1,
  )

  -- The revocation of the sign-in itself leaves none.
  pub revoke_sign_in_own :
      (s : OauthState)
      → IsDistinct s.refresh_grants
      → IsDistinct s.tokens.sessions
      → IsGone (revoke_sign_in g s)
  unfolding revoke_sign_in
  revoke_sign_in_own s d e =
      (any-delete_all-keys_where (grant_is g) s.refresh_grants d, revoke_grant_own g s.tokens e)

  use_up-IsGone : (code : String) (now : ℕ) (s : OauthState) → IsGone s → IsGone (use_up code now s)
  unfolding use_up
  use_up-IsGone code now s d =
      replay_cases IsGone code now (record s { pending_codes = delete code s.pending_codes }) d
        (λ u found.
          let t : OauthState = record s {
            pending_codes = delete code s.pending_codes;
            used_codes = delete code s.used_codes;
          } in
          (d, revoke_sign_in-IsGone u.grant_id t d))

  end_sign_in-IsGone :
      (h : Option String) (token : String) (s : OauthState)
      → IsGone s
      → IsGone (end_sign_in h token s)
  end_sign_in-IsGone none token s d = (d.0, revoke_token-IsWithout g token s.tokens d.1)
  end_sign_in-IsGone (some h) token s d = elim (Bool-cases (str_eq h "")) [
    | inl empty ↦ rw empty (d.0, revoke_token-IsWithout g token s.tokens d.1)
    | inr full ↦ rw full (revoke_sign_in-IsGone h s d)
  ]

  pub add_code-IsGone :
      (code : String) (p : PendingCode) (now : ℕ) (s : OauthState)
      → IsGone s
      → IsGone (add_code code p now s).0
  unfolding add_code
  add_code-IsGone code p now s d = ground arith

  store_grant-keeps :
      (o : OauthConfig) (key : String) (r : RefreshGrant) (now : ℕ) (m : Table RefreshGrant)
      → grant_is g r ≡ false
      → any (grant_is g) (values m) ≡ false
      → any (grant_is g) (values (store_grant o key r now m).0) ≡ false
  unfolding store_grant evict_own sweep_expired
  store_grant-keeps o key r now m other d =
      let swept = sweep_expired (λ (v : RefreshGrant). v.expires_at) now m in
      let a =
        any-delete_all (grant_is g) (keys_where (λ (v : RefreshGrant). leb v.expires_at now) m) m
          d in
      let b = any-delete_all (grant_is g) _ swept a in
      elim (Bool-cases (leb o.limits.max_sessions (length (evict_own r.user swept)))) [
        | inl full ↦ rw (full, store_grant) b
        | inr room ↦
            rw (room, store_grant) (any-set (grant_is g) key r (evict_own r.user swept) other b)
      ]

module _ (g : String) (x : Crypto) (o : OauthConfig) where
  issue_refresh-IsGone :
      (client : String) (may : Bool) (grant : GrantContext) (draws : Draws) (now : ℕ) (i : Issued)
      (s : OauthState)
      → str_eq grant.grant_id g ≡ false
      → IsGone g s
      → IsGone g (issue_refresh x o client may grant draws now i s).0
  unfolding issue_refresh
  issue_refresh-IsGone client may grant draws now i s other d =
      elim (Bool-cases (ltb 0 o.refresh_expiry && may)) [
        | inr off ↦ rw (off, issue_refresh) d
        | inl on ↦
            rw (on, issue_refresh)
              (
                store_grant-keeps g o (x.grant_key draws.refresh) _ now s.refresh_grants other d.0,
                d.1,
              )
      ]

  pub issue_tokens-IsGone :
      (client : String) (may : Bool) (grant : GrantContext) (pool : String) (draws : Draws)
      (now : ℕ) (s : OauthState)
      → str_eq grant.grant_id g ≡ false
      → IsGone g s
      → IsGone g (issue_tokens x o client may grant pool draws now s).0
  issue_tokens-IsGone client may grant pool draws now s other d =
      issue_tokens_cases x o (λ r. IsGone g r.0) client may grant pool draws now s (λ r. d)
        (λ t i room.
          issue_refresh-IsGone client may grant draws now i
            (act (hands_over pool (session_pool_key i.token (some grant.grant_id)))
              (record s { tokens = t }))
            other
            (
              d.0,
              subst (λ c. IsWithout g (after_create s.tokens c)) room
                  (after_create-IsWithout g o.limits draws.access now grant.config none grant.system
                    (some client) (some grant.grant_id) s.tokens other d.1),
            ))

  pub exchange_code-IsGone :
      (caller : Caller) (e : Exchange) (grant : String) (draws : Draws) (now : ℕ) (s : OauthState)
      → str_eq grant g ≡ false
      → IsGone g s
      → IsGone g (exchange_code x o caller e grant draws now s).0
  exchange_code-IsGone caller e grant draws now s other d =
      exchange_code_cases x o (λ r. IsGone g r.0) caller e grant draws now s d
        (λ code. use_up-IsGone g code now s d)
        (λ code p given found.
          redeem_cases x o (λ r. IsGone g r.0) caller e code p grant draws now (use_up code now s)
            (λ why. use_up-IsGone g code now s d)
            (λ live own same right.
              issue_tokens-IsGone caller.client_id caller.may_refresh (context_of grant p) p.pool
                draws now (remembered x o code grant now (use_up code now s)) other
                (use_up-IsGone g code now s d)))

  pub revoke-IsGone :
      (client : String) (token : Option String) (s : OauthState)
      → IsGone g s
      → IsGone g (revoke x client token s).0
  revoke-IsGone client token s d =
      revoke_cases x o (IsGone g) client token s d (λ t h. end_sign_in-IsGone g h t s d)
