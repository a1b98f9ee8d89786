-- ===== src/Oauth/Sane.antt =====
-- src/auth/oauth.ts: the tables of the server over every event.
use mcp_server_db2i.Prelude.{
  ℕ, String, Bool, true, false, ◌&&◌, Option, none, some, List, [], ◌∷◌, inl, inr, Bool-cases,
  str_eq, subst, length, leb, ltb,
}
use mcp_server_db2i.Prelude.Table.{
  Table, delete, IsDistinct, keys_where, set-IsDistinct, delete-IsDistinct, delete_all-IsDistinct,
}
use mcp_server_db2i.Tokens.{Issued, session_pool_key}
use mcp_server_db2i.Tokens.Invariant.{
  IsValid, creates, revokes, revokes_grant, after_create, step-IsValid,
}
use mcp_server_db2i.Tokens.Invariant
use mcp_server_db2i.Oauth.{
  OauthConfig, Crypto, RefreshGrant, PendingCode, OauthState, act, hands_over, Waiting,
}
use mcp_server_db2i.Oauth.Issue.{
  Draws, GrantContext, revoke_sign_in, issue_tokens, issue_refresh, grant_is, store_grant,
  evict_own, sweep_expired,
}
use mcp_server_db2i.Oauth.Token.{
  Caller, Exchange, Check, passed, failed, threw, exchange_code, use_up, after_check, resume,
}
use mcp_server_db2i.Oauth.Cases.{
  remembered, context_of, context_of_grant, replay_cases, issue_tokens_cases, redeem_cases,
  exchange_code_cases, begin_refresh_cases, finish_refresh_cases, revoke_cases,
}
use mcp_server_db2i.Oauth.Revoke.{end_sign_in, add_code}
use mcp_server_db2i.Oauth.Events.{
  Event, exchanges, begins, finishes, revokes as revokes_token, signs_in, manages, step, run,
}

module _ (x : Crypto) (o : OauthConfig) where
  -- No refresh token is held twice, and the token manager is valid.
  abbrev pub IsSane : OauthState → Type 0
  IsSane s = IsDistinct s.refresh_grants × IsValid o.limits s.tokens.sessions

  revoke_sign_in-IsSane : (h : String) (s : OauthState) → IsSane s → IsSane (revoke_sign_in h s)
  unfolding revoke_sign_in Invariant.step
  revoke_sign_in-IsSane h s d = (
    delete_all-IsDistinct (keys_where (grant_is h) s.refresh_grants) s.refresh_grants d.0,
    step-IsValid o.limits s.tokens (revokes_grant h) d.1,
  )

  use_up-IsSane : (code : String) (now : ℕ) (s : OauthState) → IsSane s → IsSane (use_up code now s)
  unfolding use_up
  use_up-IsSane code now s d =
      replay_cases IsSane code now (record s { pending_codes = delete code s.pending_codes }) d
        (λ u found.
          let t : OauthState = record s {
            pending_codes = delete code s.pending_codes;
            used_codes = delete code s.used_codes;
          } in
          (d, revoke_sign_in-IsSane u.grant_id t d))

  end_sign_in-IsSane :
      (h : Option String) (token : String) (s : OauthState)
      → IsSane s
      → IsSane (end_sign_in h token s)
  unfolding Invariant.step
  end_sign_in-IsSane none token s d = (d.0, step-IsValid o.limits s.tokens (revokes token) d.1)
  end_sign_in-IsSane (some h) token s d = elim (Bool-cases (str_eq h "")) [
    | inl empty ↦ rw empty (d.0, step-IsValid o.limits s.tokens (revokes token) d.1)
    | inr full ↦ rw full (revoke_sign_in-IsSane h s d)
  ]

  add_code-IsSane :
      (code : String) (p : PendingCode) (now : ℕ) (s : OauthState)
      → IsSane s
      → IsSane (add_code code p now s).0
  unfolding add_code
  add_code-IsSane code p now s d =
      elim (Bool-cases (
        leb 1000
          (length (sweep_expired (λ (c : PendingCode). c.expires_at) now s.pending_codes)))) [
            | inl full ↦ rw (full, add_code) d
            | inr room ↦ rw (room, add_code) d
          ]

  store_grant-IsDistinct :
      (key : String) (r : RefreshGrant) (now : ℕ) (m : Table RefreshGrant)
      → IsDistinct m
      → IsDistinct (store_grant o key r now m).0
  unfolding store_grant evict_own sweep_expired
  store_grant-IsDistinct key r now m d =
      let swept = sweep_expired (λ (v : RefreshGrant). v.expires_at) now m in
      let a =
        delete_all-IsDistinct (keys_where (λ (v : RefreshGrant). leb v.expires_at now) m) m d in
      let b = delete_all-IsDistinct _ swept a in
      elim (Bool-cases (leb o.limits.max_sessions (length (evict_own r.user swept)))) [
        | inl full ↦ rw (full, store_grant) b
        | inr room ↦ rw (room, store_grant) (set-IsDistinct key r (evict_own r.user swept) b)
      ]

  issue_refresh-IsSane :
      (client : String) (may : Bool) (grant : GrantContext) (draws : Draws) (now : ℕ) (i : Issued)
      (s : OauthState)
      → IsSane s
      → IsSane (issue_refresh x o client may grant draws now i s).0
  unfolding issue_refresh
  issue_refresh-IsSane client may grant draws now i s d =
      elim (Bool-cases (ltb 0 o.refresh_expiry && may)) [
        | inr off ↦ rw (off, issue_refresh) d
        | inl on ↦
            rw (on, issue_refresh)
              (store_grant-IsDistinct (x.grant_key draws.refresh) _ now s.refresh_grants d.0, d.1)
      ]

  issue_tokens-IsSane :
      (client : String) (may : Bool) (grant : GrantContext) (pool : String) (draws : Draws)
      (now : ℕ) (s : OauthState)
      → IsSane s
      → IsSane (issue_tokens x o client may grant pool draws now s).0
  unfolding Invariant.step
  issue_tokens-IsSane client may grant pool draws now s d =
      issue_tokens_cases x o (λ r. IsSane r.0) client may grant pool draws now s (λ r. d)
        (λ t i room.
          issue_refresh-IsSane client may grant draws now i
            (act (hands_over pool (session_pool_key i.token (some grant.grant_id)))
              (record s { tokens = t }))
            (
              d.0,
              subst (λ c. IsValid o.limits (after_create s.tokens c).sessions) room
                  (step-IsValid o.limits s.tokens
                    (creates draws.access now grant.config none grant.system (some client)
                      (some grant.grant_id))
                    d.1),
            ))

  exchange_code-IsSane :
      (caller : Caller) (e : Exchange) (grant : String) (draws : Draws) (now : ℕ) (s : OauthState)
      → IsSane s
      → IsSane (exchange_code x o caller e grant draws now s).0
  exchange_code-IsSane caller e grant draws now s d =
      exchange_code_cases x o (λ r. IsSane r.0) caller e grant draws now s d
        (λ code. use_up-IsSane code now s d)
        (λ code p given found.
          redeem_cases x o (λ r. IsSane r.0) caller e code p grant draws now (use_up code now s)
            (λ why. use_up-IsSane code now s d)
            (λ live own same right.
              issue_tokens-IsSane caller.client_id caller.may_refresh (context_of grant p) p.pool
                draws now (remembered x o code grant now (use_up code now s))
                (use_up-IsSane code now s d)))

  after_check-IsSane :
      (w : Waiting) (marked : Bool) (check : Check) (draws : Draws) (now : ℕ) (s : OauthState)
      → IsSane s
      → IsSane (after_check x o w marked check draws now s).0
  unfolding after_check
  after_check-IsSane w true (passed pool) draws now s d = d
  after_check-IsSane w true (failed transient) draws now s d = d
  after_check-IsSane w true threw draws now s d = d
  after_check-IsSane w false threw draws now s d = d
  after_check-IsSane w false (failed true) draws now s d =
      (set-IsDistinct w.key w.grant s.refresh_grants d.0, d.1)
  after_check-IsSane w false (failed false) draws now s d =
      revoke_sign_in-IsSane w.grant.grant_id s d
  after_check-IsSane w false (passed pool) draws now s d =
      issue_tokens-IsSane w.client_id w.may_refresh (context_of_grant w.grant) pool draws now s d

  step-IsSane : (s : OauthState) (e : Event) → IsSane s → IsSane (step x o s e)
  unfolding step resume
  step-IsSane s (exchanges caller e grant draws now) d =
      exchange_code-IsSane caller e grant draws now s d
  step-IsSane s (begins caller token now) d =
      begin_refresh_cases x o (λ r. IsSane r.0) caller token now s d
        (λ t grant given found own.
          let less = delete-IsDistinct (x.grant_key t) s.refresh_grants d.0 in
          (λ late. (less, d.1), λ live. (less, d.1)))
  step-IsSane s (finishes i check draws now) d =
      finish_refresh_cases x o IsSane i check draws now s d
        (λ w found. after_check-IsSane w _ check draws now _ d)
  step-IsSane s (revokes_token client token) d =
      revoke_cases x o IsSane client token s d (λ t g. end_sign_in-IsSane g t s d)
  step-IsSane s (signs_in code p now) d = add_code-IsSane code p now s d
  step-IsSane s (manages call) d = (d.0, step-IsValid o.limits s.tokens call d.1)

  -- After any sequence of events, no refresh token is held twice, and the token manager still keeps to
  -- maxSessions, holds no token twice, and holds every session under its own token with an expiry within
  -- the configured one, if all this was so before.
  pub run-IsSane : (s : OauthState) (es : List Event) → IsSane s → IsSane (run x o s es)
  unfolding run
  run-IsSane s [] d = d
  run-IsSane s (e ∷ es) d = run-IsSane (step x o s e) es (step-IsSane s e d)
