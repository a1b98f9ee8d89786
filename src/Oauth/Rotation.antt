-- ===== src/Oauth/Rotation.antt =====
-- src/auth/oauth.ts: the replay of a used code, and the rotation of refresh tokens.
use mcp_server_db2i.Prelude.{
  ℕ, ◌+◌, ◌<◌, String, Bool, true, false, Option, none, some, ◌≡◌, ◌∙◌, refl, sym, ap, inl, inr,
  arith, Option-cases, eq_iff, or_else, ltb, some-eq-some,
}
use mcp_server_db2i.Prelude.Table.{get, delete, IsDistinct, get-set, get-delete}
use mcp_server_db2i.Oauth.{
  OauthConfig, Crypto, RefreshGrant, Waiting, OauthState, Response, get_elem?, UsedCode, issued,
  used_code_ttl_ms,
}
use mcp_server_db2i.Oauth.Clients.{present}
use mcp_server_db2i.Oauth.Issue.{Draws, GrantContext, issue_tokens, issue_refresh}
use mcp_server_db2i.Oauth.Token.{
  Caller, Exchange, Check, passed, failed, threw, exchange_code, use_up, replay, begin_refresh,
  after_check, resume, finish_refresh, bad_refresh, remember,
}
use mcp_server_db2i.Oauth.Cases.{
  remembered, context_of, issue_tokens_cases, redeem_cases, exchange_code_cases,
  begin_refresh_cases,
}
use mcp_server_db2i.Oauth.Flights.{flight_revoked}
use mcp_server_db2i.Oauth.Gone.{IsGone, revoke_sign_in_own}
use mcp_server_db2i.Oauth.Redemption.{exchange_code_own}

module _ (x : Crypto) (o : OauthConfig) where
  pub used_codes-issue_tokens :
      (client : String) (may : Bool) (grant : GrantContext) (pool : String) (draws : Draws)
      (now : ℕ) (s : OauthState)
      → (issue_tokens x o client may grant pool draws now s).0.used_codes ≡ s.used_codes
  unfolding issue_refresh
  used_codes-issue_tokens client may grant pool draws now s =
      issue_tokens_cases x o (λ r. r.0.used_codes ≡ s.used_codes) client may grant pool draws now s
        (λ r. refl) (λ t i room. ground arith)

  -- A redeemed code is remembered with the grant of its tokens.
  pub exchange_code_remembers :
      (caller : Caller) (e : Exchange) (code : String) (grant : String) (draws : Draws) (now : ℕ)
      (s : OauthState) (token : String) (seconds : ℕ) (refresh : Option String)
      → present e.code ≡ some code
      → (exchange_code x o caller e grant draws now s).1 ≡ issued token seconds refresh
      → get code (exchange_code x o caller e grant draws now s).0.used_codes
        ≡ some (record { grant_id = grant; expires_at = now + used_code_ttl_ms })
  unfolding remember
  exchange_code_remembers caller e code grant draws now s token seconds refresh asked =
      let used : UsedCode = record { grant_id = grant; expires_at = now + used_code_ttl_ms } in
      let P = λ (r : OauthState × Response).
        r.1 ≡ issued token seconds refresh → get code r.0.used_codes ≡ some used in
      exchange_code_cases x o P caller e grant draws now s (λ h. absurd cc) (λ c h. absurd cc)
        (λ c p given found.
          redeem_cases x o P caller e c p grant draws now (use_up c now s) (λ why h. absurd cc)
            (λ live own same right h.
              ap (λ u. get code u)
                (used_codes-issue_tokens caller.client_id caller.may_refresh (context_of grant p)
                  p.pool draws now (remembered x o c grant now (use_up c now s)))
              ∙ get-set c code used _
              ∙ ground (arith, eq_iff c code, some-eq-some (sym given ∙ asked))))

  pub replay_used :
      (caller : Caller) (e : Exchange) (code : String) (grant : String) (draws : Draws) (now : ℕ)
      (s : OauthState) (u : UsedCode)
      → present e.code ≡ some code
      → get code s.pending_codes ≡ none
      → get code s.used_codes ≡ some u
      → now < u.expires_at
      → IsDistinct s.refresh_grants
      → IsDistinct s.tokens.sessions
      → IsGone u.grant_id (exchange_code x o caller e grant draws now s).0
  unfolding exchange_code use_up replay
  replay_used caller e code grant draws now s u given used found soon d t =
      let live : ltb now u.expires_at ≡ true = ground arith in
      rw (given, used, found, live, exchange_code, use_up, replay)
        (revoke_sign_in_own u.grant_id
          (record s {
            pending_codes = delete code s.pending_codes;
            used_codes = delete code s.used_codes;
          })
          d t)

  -- A code exchange that issued tokens is undone by a replay: when the same code is exchanged
  -- again within ten minutes, no access or refresh token of the grant that the first exchange
  -- issued is left, if the tables of refresh grants and of sessions have distinct keys after the
  -- first exchange.
  pub exchange_code_replay :
      (caller caller2 : Caller) (e e2 : Exchange) (code grant grant2 : String)
      (draws draws2 : Draws) (now now2 : ℕ) (s : OauthState) (token : String) (seconds : ℕ)
      (refresh : Option String)
      → present e.code ≡ some code
      → present e2.code ≡ some code
      → (exchange_code x o caller e grant draws now s).1 ≡ issued token seconds refresh
      → now2 < now + used_code_ttl_ms
      → IsDistinct (exchange_code x o caller e grant draws now s).0.refresh_grants
      → IsDistinct (exchange_code x o caller e grant draws now s).0.tokens.sessions
      → IsGone grant
          (exchange_code x o caller2 e2 grant2 draws2 now2
            (exchange_code x o caller e grant draws now s).0).0
  exchange_code_replay caller caller2 e e2 code grant grant2 draws draws2 now now2 s token seconds
        refresh p p2 got soon d t =
      replay_used caller2 e2 code grant2 draws2 now2
        (exchange_code x o caller e grant draws now s).0
        (record { grant_id = grant; expires_at = now + used_code_ttl_ms }) p2
        (exchange_code_own code x o caller e grant draws now s p)
        (exchange_code_remembers caller e code grant draws now s token seconds refresh p got) soon d
        t

  -- What a refresh that begins does not refuse shows: the token is kept in the store for this client and
  -- has not expired, and it is taken out of the store.
  pub record IsTaken (caller : Caller) (token : String) (now : ℕ) (s t : OauthState) : Type 0 where
    pub grant : RefreshGrant
    pub found : get (x.grant_key token) s.refresh_grants ≡ some grant
    pub own : grant.client_id ≡ caller.client_id
    pub live : now < grant.expires_at
    pub removed : get (x.grant_key token) t.refresh_grants ≡ none

  begin_refresh-IsTaken :
      (caller : Caller) (token : String) (now : ℕ) (s : OauthState)
      → present (some token) ≡ some token
      → (begin_refresh x o caller (some token) now s).1 ≡ none
      → IsTaken caller token now s (begin_refresh x o caller (some token) now s).0
  begin_refresh-IsTaken caller token now s given =
      begin_refresh_cases x o (λ r. r.1 ≡ none → IsTaken caller token now s r.0) caller (some token)
        now s (λ h. absurd cc)
        (λ t grant asked found own.
          let same : t ≡ token = some-eq-some (sym asked ∙ given) in
          let k : String = x.grant_key token in
          (
            (λ late h. absurd cc),
            (λ live h. record {
              grant = grant;
              found = ap (λ (u : String). get (x.grant_key u) s.refresh_grants) (sym same) ∙ found;
              own = (eq_iff grant.client_id caller.client_id).0 own;
              live = ground arith;
              removed =
                  ap (λ (u : String). get k (delete (x.grant_key u) s.refresh_grants)) same
                  ∙ ground (arith, get-delete k k s.refresh_grants, eq_iff k k);
            }),
          ))

  -- A refresh waits for the credential check only with a refresh token that is held for this
  -- client and not expired; the token is taken out of the store first, so that the same token
  -- presented right afterwards, by whatever client, is refused.
  pub begin_refresh-begin_refresh :
      (caller caller2 : Caller) (token : String) (now now2 : ℕ) (s : OauthState)
      → present (some token) ≡ some token
      → (begin_refresh x o caller (some token) now s).1 ≡ none
      → IsTaken caller token now s (begin_refresh x o caller (some token) now s).0
        × ((begin_refresh x o caller2
              (some token)
              now2
              (begin_refresh x o caller (some token) now s).0).1
            ≡ some bad_refresh)
  unfolding begin_refresh
  begin_refresh-begin_refresh caller caller2 token now now2 s given waits =
      let taken = begin_refresh-IsTaken caller token now s given waits in
      let gone = taken.removed in (taken, rw (given, gone, begin_refresh) refl)

  after_check_issued :
      (w : Waiting) (marked : Bool) (check : Check) (draws : Draws) (now : ℕ) (s : OauthState)
      (token : String) (seconds : ℕ) (refresh : Option String)
      → (after_check x o w marked check draws now s).1 ≡ issued token seconds refresh
      → ((pool : String) × (check ≡ passed pool)) × (marked ≡ false)
  unfolding after_check
  after_check_issued w true (passed pool) draws now s token seconds refresh h = absurd cc
  after_check_issued w true (failed transient) draws now s token seconds refresh h = absurd cc
  after_check_issued w true threw draws now s token seconds refresh h = absurd cc
  after_check_issued w false threw draws now s token seconds refresh h = absurd cc
  after_check_issued w false (failed true) draws now s token seconds refresh h = absurd cc
  after_check_issued w false (failed false) draws now s token seconds refresh h = absurd cc
  after_check_issued w false (passed pool) draws now s token seconds refresh h =
      ((pool, refl), refl)

  -- A refresh that waited issues tokens only when its credential check passed and its sign-in was not
  -- revoked meanwhile.
  pub finish_refresh_issued :
      (i : ℕ) (check : Check) (draws : Draws) (now : ℕ) (s : OauthState) (token : String)
      (seconds : ℕ) (refresh : Option String)
      → (finish_refresh x o i check draws now s).1 ≡ some (issued token seconds refresh)
      → (w : Waiting) × (get_elem? s.waiting i ≡ some w)
        × ((pool : String) × (check ≡ passed pool))
        × (flight_revoked (get w.grant.grant_id s.refreshing) ≡ false)
  unfolding finish_refresh resume
  finish_refresh_issued i check draws now s token seconds refresh h =
      elim (Option-cases (get_elem? s.waiting i)) [
        | inl missing ↦ absurd (ground (arith, rw (missing, finish_refresh) at h))
        | inr (w, found) ↦
            let r =
              after_check_issued w
                (or_else (get w.grant.grant_id s.refreshing)
                  (record { count = 1; revoked = false })).revoked
                check draws now _ token seconds refresh
                (some-eq-some (rw (found, finish_refresh, resume) at h)) in
            (w, found, r.0, ground (arith, r.1))
      ]
