-- ===== src/Oauth/Redemption.antt =====
-- src/auth/oauth.ts: the exchange of an authorization code.
use mcp_server_db2i.Prelude.{
  ℕ, ◌+◌, ◌<◌, ◌≤◌, length, String, Bool, true, false, not, Option, none, some, List, [], ◌∷◌, ◌≡◌,
  refl, inl, inr, arith, Option-cases, Bool-cases, str_eq, eq_iff, leb,
}
use mcp_server_db2i.Prelude.Table.{
  get, delete, keys_where, get-set, get-delete, get-delete_all-none,
}
use mcp_server_db2i.Prelude.Text.{codes}
use mcp_server_db2i.Oauth.{
  OauthConfig, Crypto, PendingCode, Waiting, OauthState, issued, code_ttl_ms,
}
use mcp_server_db2i.Oauth.Clients.{present}
use mcp_server_db2i.Oauth.Issue.{
  Draws, GrantContext, revoke_sign_in, issue_tokens, issue_refresh, sweep_expired,
}
use mcp_server_db2i.Oauth.Token.{
  Caller, Exchange, Check, passed, failed, threw, exchange_code, redeem, use_up, replay,
  after_check, resume, bad_code, redirect_matches, verifier_matches, is_code_verifier,
}
use mcp_server_db2i.Oauth.Cases.{
  remembered, context_of, context_of_grant, replay_cases, issue_tokens_cases, redeem_cases,
  exchange_code_cases, begin_refresh_cases, finish_refresh_cases, revoke_cases,
}
use mcp_server_db2i.Oauth.Revoke.{end_sign_in, add_code}
use mcp_server_db2i.Oauth.Events.{
  Event, exchanges, begins, finishes, revokes, signs_in, manages, step, run,
}

-- The exchange names the redirect URI of the authorization request, or none where that had none.
abbrev pub IsSameUri : Option String → PendingCode → Type 0
IsSameUri none p = p.redirect_uri_explicit ≡ false
IsSameUri (some uri) p = uri ≡ p.redirect_uri

redirect_matches-IsSameUri :
    (uri : Option String) (p : PendingCode) → redirect_matches uri p ≡ true → IsSameUri uri p
redirect_matches-IsSameUri none p h = ground (arith, h)
redirect_matches-IsSameUri (some uri) p h = (eq_iff uri p.redirect_uri).0 h

module _ (x : Crypto) (o : OauthConfig) where
  -- What a code exchange that issues tokens shows of the request and of the state.
  pub record IsEntitled (caller : Caller) (e : Exchange) (now : ℕ) (s : OauthState) : Type 0 where
    pub code : String
    pub pending : PendingCode
    pub given : present e.code ≡ some code
    pub found : get code s.pending_codes ≡ some pending
    pub live : now < pending.expires_at
    pub own : pending.client_id ≡ caller.client_id
    pub same : IsSameUri e.redirect_uri pending
    pub verifier : String
    pub offered : present e.code_verifier ≡ some verifier
    pub least : 43 ≤ length (codes verifier)
    pub most : length (codes verifier) ≤ 128
    pub hashed : x.digest (x.s256 verifier) ≡ x.digest pending.code_challenge

  verifier_proves :
      (v : Option String) (p : PendingCode)
      → verifier_matches x o v p ≡ true
      → (t : String) × (present v ≡ some t)
        × (43 ≤ length (codes t))
        × (length (codes t) ≤ 128)
        × (x.digest (x.s256 t) ≡ x.digest p.code_challenge)
  unfolding verifier_matches is_code_verifier
  verifier_proves v p h = elim (Option-cases (present v)) [
    | inl missing ↦ absurd (ground (arith, rw (missing, verifier_matches) at h))
    | inr (t, found) ↦
        let both = rw (found, verifier_matches) at h in
        (
          t,
          found,
          ground (arith, both),
          ground (arith, both),
          (eq_iff (x.digest (x.s256 t)) (x.digest p.code_challenge)).0 (ground (arith, both)),
        )
  ]

  -- A code exchange issues tokens only for a code that is pending and not expired, to the client
  -- that the code was made for, with the redirect URI of the authorization request, or none if that
  -- request had none, and with a verifier of 43 to 128 characters whose S256 transform has the digest
  -- of the code's challenge.
  pub exchange_code-IsEntitled :
      (caller : Caller) (e : Exchange) (grant : String) (draws : Draws) (now : ℕ) (s : OauthState)
      (token : String) (seconds : ℕ) (refresh : Option String)
      → (exchange_code x o caller e grant draws now s).1 ≡ issued token seconds refresh
      → IsEntitled caller e now s
  exchange_code-IsEntitled caller e grant draws now s token seconds refresh =
      exchange_code_cases x o (λ r. r.1 ≡ issued token seconds refresh → IsEntitled caller e now s)
        caller e grant draws now s (λ h. absurd cc) (λ code h. absurd cc)
        (λ code p given found.
          redeem_cases x o (λ r. r.1 ≡ issued token seconds refresh → IsEntitled caller e now s)
            caller e code p grant draws now (use_up code now s) (λ why h. absurd cc)
            (λ live own same right h.
              let (t, offered, least, most, hashed) = verifier_proves e.code_verifier p right in
              record {
                code = code;
                pending = p;
                given = given;
                found = found;
                live = ground arith;
                own = (eq_iff p.client_id caller.client_id).0 own;
                same = redirect_matches-IsSameUri e.redirect_uri p same;
                verifier = t;
                offered = offered;
                least = least;
                most = most;
                hashed = hashed;
              }))

-- The code is not pending.
abbrev pub IsUsed : String → OauthState → Type 0
IsUsed code s = get code s.pending_codes ≡ none

-- The event does not add the code again.
abbrev pub is_other_code : String → Event → Bool
is_other_code code (signs_in c p now) = not (str_eq c code)
is_other_code code (exchanges caller e grant draws now) = true
is_other_code code (manages call) = true
is_other_code code (begins caller token now) = true
is_other_code code (finishes i check draws now) = true
is_other_code code (revokes client token) = true

unfoldable pub AllOther : String → List Event → Type 0
AllOther code [] = Unit
AllOther code (e ∷ es) = (is_other_code code e ≡ true) × AllOther code es

module _ (code : String) where
  revoke_sign_in-IsUsed :
      (g : String) (s : OauthState) → IsUsed code s → IsUsed code (revoke_sign_in g s)
  unfolding revoke_sign_in
  revoke_sign_in-IsUsed g s h = h

  replay-IsUsed :
      (c : String) (now : ℕ) (s : OauthState) → IsUsed code s → IsUsed code (replay c now s)
  replay-IsUsed c now s h = replay_cases (IsUsed code) c now s h (λ u found.
      (h, revoke_sign_in-IsUsed u.grant_id (record s { used_codes = delete c s.used_codes }) h))

  use_up-IsUsed :
      (c : String) (now : ℕ) (s : OauthState) → IsUsed code s → IsUsed code (use_up c now s)
  unfolding use_up
  use_up-IsUsed c now s h =
      replay-IsUsed c now (record s { pending_codes = delete c s.pending_codes })
        (ground (arith, get-delete c code s.pending_codes))

  -- The code of the request itself.
  use_up_own : (now : ℕ) (s : OauthState) → IsUsed code (use_up code now s)
  unfolding use_up
  use_up_own now s =
      replay-IsUsed code now (record s { pending_codes = delete code s.pending_codes })
        (ground (arith, get-delete code code s.pending_codes, eq_iff code code))

  end_sign_in-IsUsed :
      (h : Option String) (token : String) (s : OauthState)
      → IsUsed code s
      → IsUsed code (end_sign_in h token s)
  end_sign_in-IsUsed none token s d = d
  end_sign_in-IsUsed (some h) token s d = elim (Bool-cases (str_eq h "")) [
    | inl empty ↦ rw empty d
    | inr full ↦ rw full (revoke_sign_in-IsUsed h s d)
  ]

  add_code-IsUsed :
      (c : String) (p : PendingCode) (now : ℕ) (s : OauthState)
      → str_eq c code ≡ false
      → IsUsed code s
      → IsUsed code (add_code c p now s).0
  unfolding add_code sweep_expired
  add_code-IsUsed c p now s other h =
      let swept = sweep_expired (λ (v : PendingCode). v.expires_at) now s.pending_codes in
      let ks = keys_where (λ (v : PendingCode). leb v.expires_at now) s.pending_codes in
      let gone = get-delete_all-none ks code s.pending_codes h in
      ground (arith, gone, get-set c code (record p { expires_at = now + code_ttl_ms }) swept)

module _ (code : String) (x : Crypto) (o : OauthConfig) where
  issue_tokens-IsUsed :
      (client : String) (may : Bool) (grant : GrantContext) (pool : String) (draws : Draws)
      (now : ℕ) (s : OauthState)
      → IsUsed code s
      → IsUsed code (issue_tokens x o client may grant pool draws now s).0
  unfolding issue_refresh
  issue_tokens-IsUsed client may grant pool draws now s h =
      issue_tokens_cases x o (λ r. IsUsed code r.0) client may grant pool draws now s (λ r. h)
        (λ t i room. ground arith)

  redeem-IsUsed :
      (caller : Caller) (e : Exchange) (c : String) (p : PendingCode) (grant : String)
      (draws : Draws) (now : ℕ) (s : OauthState)
      → IsUsed code s
      → IsUsed code (redeem x o caller e c p grant draws now s).0
  redeem-IsUsed caller e c p grant draws now s h =
      redeem_cases x o (λ r. IsUsed code r.0) caller e c p grant draws now s (λ why. h)
        (λ live own same right.
          issue_tokens-IsUsed caller.client_id caller.may_refresh (context_of grant p) p.pool draws
            now (remembered x o c grant now s) h)

  exchange_code-IsUsed :
      (caller : Caller) (e : Exchange) (grant : String) (draws : Draws) (now : ℕ) (s : OauthState)
      → IsUsed code s
      → IsUsed code (exchange_code x o caller e grant draws now s).0
  exchange_code-IsUsed caller e grant draws now s h =
      exchange_code_cases x o (λ r. IsUsed code r.0) caller e grant draws now s h
        (λ c. use_up-IsUsed code c now s h)
        (λ c p given found.
          redeem-IsUsed caller e c p grant draws now (use_up c now s)
            (use_up-IsUsed code c now s h))

  -- The exchange of the code itself.
  pub exchange_code_own :
      (caller : Caller) (e : Exchange) (grant : String) (draws : Draws) (now : ℕ) (s : OauthState)
      → present e.code ≡ some code
      → IsUsed code (exchange_code x o caller e grant draws now s).0
  unfolding exchange_code
  exchange_code_own caller e grant draws now s given =
      elim (Option-cases (get code s.pending_codes)) [
        | inl missing ↦ rw (given, missing, exchange_code) (use_up_own code now s)
        | inr (p, found) ↦
            rw (given, found, exchange_code)
              (redeem-IsUsed caller e code p grant draws now (use_up code now s)
                (use_up_own code now s))
      ]

  after_check-IsUsed :
      (w : Waiting) (marked : Bool) (check : Check) (draws : Draws) (now : ℕ) (s : OauthState)
      → IsUsed code s
      → IsUsed code (after_check x o w marked check draws now s).0
  unfolding after_check
  after_check-IsUsed w true (passed pool) draws now s h = h
  after_check-IsUsed w true (failed transient) draws now s h = h
  after_check-IsUsed w true threw draws now s h = h
  after_check-IsUsed w false threw draws now s h = h
  after_check-IsUsed w false (failed true) draws now s h = h
  after_check-IsUsed w false (failed false) draws now s h =
      revoke_sign_in-IsUsed code w.grant.grant_id s h
  after_check-IsUsed w false (passed pool) draws now s h =
      issue_tokens-IsUsed w.client_id w.may_refresh (context_of_grant w.grant) pool draws now s h

  resume-IsUsed :
      (i : ℕ) (w : Waiting) (check : Check) (draws : Draws) (now : ℕ) (s : OauthState)
      → IsUsed code s
      → IsUsed code (resume x o i w check draws now s).0
  unfolding resume
  resume-IsUsed i w check draws now s h = after_check-IsUsed w _ check draws now _ h

  pub step-IsUsed :
      (s : OauthState) (e : Event)
      → is_other_code code e ≡ true
      → IsUsed code s
      → IsUsed code (step x o s e)
  unfolding step
  step-IsUsed s (exchanges caller e grant draws now) _ h =
      exchange_code-IsUsed caller e grant draws now s h
  step-IsUsed s (begins caller token now) _ h =
      begin_refresh_cases x o (λ r. IsUsed code r.0) caller token now s h
        (λ t grant given found own. (λ late. h, λ live. h))
  step-IsUsed s (finishes i check draws now) _ h =
      finish_refresh_cases x o (IsUsed code) i check draws now s h
        (λ w found. resume-IsUsed i w check draws now s h)
  step-IsUsed s (revokes client token) _ h =
      revoke_cases x o (IsUsed code) client token s h (λ t g. end_sign_in-IsUsed code g t s h)
  step-IsUsed s (signs_in c p now) other h = add_code-IsUsed code c p now s (ground arith) h
  step-IsUsed s (manages call) _ h = h

  run-IsUsed :
      (s : OauthState) (es : List Event)
      → AllOther code es
      → IsUsed code s
      → IsUsed code (run x o s es)
  unfolding run AllOther
  run-IsUsed s [] a h = h
  run-IsUsed s (e ∷ es) a h = run-IsUsed (step x o s e) es a.1 (step-IsUsed s e a.0 h)

  refused_when_used :
      (caller : Caller) (e : Exchange) (grant : String) (draws : Draws) (now : ℕ) (s : OauthState)
      → present e.code ≡ some code
      → IsUsed code s
      → (exchange_code x o caller e grant draws now s).1 ≡ bad_code
  unfolding exchange_code
  refused_when_used caller e grant draws now s given h = rw (given, h, exchange_code) refl

-- An authorization code is used up by its first exchange, whether or not that succeeds: after any
-- events that do not add the same code, a second exchange of it, by whatever client, is refused as
-- an invalid code.
pub exchange_code-exchange_code :
    (x : Crypto) (o : OauthConfig) (code : String) (s : OauthState) (es : List Event)
    (caller caller2 : Caller) (e e2 : Exchange) (grant grant2 : String) (draws draws2 : Draws)
    (now now2 : ℕ)
    → present e.code ≡ some code
    → present e2.code ≡ some code
    → AllOther code es
    → (exchange_code x o caller2 e2 grant2 draws2 now2
        (run x o (exchange_code x o caller e grant draws now s).0 es)).1
      ≡ bad_code
exchange_code-exchange_code x o code s es caller caller2 e e2 grant grant2 draws draws2 now now2 p
      p2 a =
    refused_when_used code x o caller2 e2 grant2 draws2 now2
      (run x o (exchange_code x o caller e grant draws now s).0 es) p2
      (run-IsUsed code x o (exchange_code x o caller e grant draws now s).0 es a
        (exchange_code_own code x o caller e grant draws now s p))
