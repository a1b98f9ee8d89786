-- ===== src/Oauth/Cases.antt =====
-- src/auth/oauth.ts: the branches of the endpoints, as rules for a predicate on the outcome.
use mcp_server_db2i.Prelude.{
  ℕ, ◌+◌, String, Bool, true, false, Option, none, some, ◌∷◌, ◌≡◌, inl, inr, Option-cases,
  Bool-cases, str_eq, or_else, leb, ltb, is_text,
}
use mcp_server_db2i.Prelude.Table.{get, set, delete}
use mcp_server_db2i.Tokens.{TokenManager, Issued, create_session, session_pool_key}
use mcp_server_db2i.Oauth.{
  OauthConfig, Crypto, RefreshGrant, PendingCode, UsedCode, Flight, Waiting, OauthState, Response,
  failure, closes, hands_over, act, used_code_ttl_ms, get_elem?,
}
use mcp_server_db2i.Oauth.Clients.{present}
use mcp_server_db2i.Oauth.Issue.{Draws, GrantContext, issue_tokens, issue_refresh, revoke_sign_in}
use mcp_server_db2i.Oauth.Token.{
  Caller, Exchange, Check, exchange_code, redeem, use_up, begin_refresh, start_refresh, resume,
  finish_refresh, bad_code, bad_refresh, redirect_matches, verifier_matches, remember, replay,
}
use mcp_server_db2i.Oauth.Revoke.{revoke, end_sign_in, token_owner}

-- The state in which a redeemed code is remembered.
abbrev pub remembered : Crypto → OauthConfig → String → String → ℕ → OauthState → OauthState
remembered x o code grant now s = record s {
  used_codes =
      remember x o code (record { grant_id = grant; expires_at = now + used_code_ttl_ms }) now
        s.used_codes;
}

abbrev pub context_of : String → PendingCode → GrantContext
context_of grant p = record { grant_id = grant; system = p.system; config = p.config }

abbrev pub context_of_grant : RefreshGrant → GrantContext
context_of_grant g = record { grant_id = g.grant_id; system = g.system; config = g.config }

pub replay_cases {ℓ} :
    (P : OauthState → Type ℓ) (code : String) (now : ℕ) (s : OauthState)
    → P s
    → ((u : UsedCode)
        → get code s.used_codes ≡ some u
        → P (record s { used_codes = delete code s.used_codes })
          × P (revoke_sign_in u.grant_id (record s { used_codes = delete code s.used_codes })))
    → P (replay code now s)
unfolding replay
replay_cases P code now s stays ends = elim (Option-cases (get code s.used_codes)) [
  | inl missing ↦ rw (missing, replay) stays
  | inr (u, found) ↦ elim (Bool-cases (ltb now u.expires_at)) [
    | inl live ↦ rw (found, live, replay) (ends u found).1
    | inr late ↦ rw (found, late, replay) (ends u found).0
  ]
]

module _ (x : Crypto) (o : OauthConfig) where
  pub issue_tokens_cases {ℓ} :
      (P : OauthState × Response → Type ℓ) (client : String) (may : Bool) (grant : GrantContext)
      (pool : String) (draws : Draws) (now : ℕ) (s : OauthState)
      → ((r : Response) → P (act (closes pool) s, r))
      → ((t : TokenManager) (i : Issued)
          → create_session o.limits draws.access now grant.config none grant.system
              (some client)
              (some grant.grant_id)
              s.tokens
            ≡ some (t, i)
          → P (
              issue_refresh x o client may grant draws now i (
                act
                  (hands_over pool (session_pool_key i.token (some grant.grant_id)))
                  (record s { tokens = t }))))
      → P (issue_tokens x o client may grant pool draws now s)
  unfolding issue_tokens
  issue_tokens_cases P client may grant pool draws now s full issues =
      elim (Option-cases (
        create_session o.limits draws.access now grant.config none grant.system (some client)
          (some grant.grant_id) s.tokens)) [
            | inl none_left ↦ rw (none_left, issue_tokens) (full _)
            | inr ((t, i), room) ↦ rw (room, issue_tokens) (issues t i room)
          ]

  pub redeem_cases {ℓ} :
      (P : OauthState × Response → Type ℓ) (caller : Caller) (e : Exchange) (code : String)
      (p : PendingCode) (grant : String) (draws : Draws) (now : ℕ) (s : OauthState)
      → ((d : String) → P (act (closes p.pool) s, failure 400 "invalid_grant" d))
      → (leb p.expires_at now ≡ false
          → str_eq p.client_id caller.client_id ≡ true
          → redirect_matches e.redirect_uri p ≡ true
          → verifier_matches x o e.code_verifier p ≡ true
          → P (
              issue_tokens x o caller.client_id caller.may_refresh
                (context_of grant p)
                p.pool
                draws
                now
                (remembered x o code grant now s)))
      → P (redeem x o caller e code p grant draws now s)
  unfolding redeem
  redeem_cases P caller e code p grant draws now s refuses issues =
      elim (Bool-cases (leb p.expires_at now)) [
        | inl late ↦ rw (late, redeem) (refuses _)
        | inr live ↦ elim (Bool-cases (str_eq p.client_id caller.client_id)) [
          | inr other ↦ rw (live, other, redeem) (refuses _)
          | inl own ↦ elim (Bool-cases (redirect_matches e.redirect_uri p)) [
            | inr moved ↦ rw (live, own, moved, redeem) (refuses _)
            | inl same ↦ elim (Bool-cases (verifier_matches x o e.code_verifier p)) [
              | inr wrong ↦ rw (live, own, same, wrong, redeem) (refuses _)
              | inl right ↦ rw (live, own, same, right, redeem) (issues live own same right)
            ]
          ]
        ]
      ]

  pub exchange_code_cases {ℓ} :
      (P : OauthState × Response → Type ℓ) (caller : Caller) (e : Exchange) (grant : String)
      (draws : Draws) (now : ℕ) (s : OauthState)
      → P (s, bad_code)
      → ((code : String) → P (use_up code now s, bad_code))
      → ((code : String) (p : PendingCode)
          → present e.code ≡ some code
          → get code s.pending_codes ≡ some p
          → P (redeem x o caller e code p grant draws now (use_up code now s)))
      → P (exchange_code x o caller e grant draws now s)
  unfolding exchange_code
  exchange_code_cases P caller e grant draws now s empty unknown redeems =
      elim (Option-cases (present e.code)) [
        | inl missing ↦ rw (missing, exchange_code) empty
        | inr (code, given) ↦ elim (Option-cases (get code s.pending_codes)) [
          | inl missing ↦ rw (given, missing, exchange_code) (unknown code)
          | inr (p, found) ↦ rw (given, found, exchange_code) (redeems code p given found)
        ]
      ]

  -- The state in which a refresh waits for its check.
  abbrev pub taking_off : Caller → String → RefreshGrant → OauthState → OauthState
  taking_off caller key grant s =
      let flight : Flight =
        or_else (get grant.grant_id s.refreshing) (record { count = 0; revoked = false }) in
      record s {
        refresh_grants = delete key s.refresh_grants;
        refreshing = set grant.grant_id (record flight { count = flight.count + 1 }) s.refreshing;
        waiting =
            record {
              key = key;
              grant = grant;
              client_id = caller.client_id;
              may_refresh = caller.may_refresh;
            }
            ∷ s.waiting;
      }

  pub begin_refresh_cases {ℓ} :
      (P : OauthState × Option Response → Type ℓ) (caller : Caller) (token : Option String)
      (now : ℕ) (s : OauthState)
      → P (s, some bad_refresh)
      → ((t : String) (grant : RefreshGrant)
          → present token ≡ some t
          → get (x.grant_key t) s.refresh_grants ≡ some grant
          → str_eq grant.client_id caller.client_id ≡ true
          → (leb grant.expires_at now ≡ true
              → P (
                record s { refresh_grants = delete (x.grant_key t) s.refresh_grants },
                some bad_refresh,
              ))
            × (leb grant.expires_at now ≡ false
                → P (taking_off caller (x.grant_key t) grant s, none)))
      → P (begin_refresh x o caller token now s)
  unfolding begin_refresh start_refresh
  begin_refresh_cases P caller token now s unknown found_one = elim (Option-cases (present token)) [
    | inl missing ↦ rw (missing, begin_refresh) unknown
    | inr (t, given) ↦ elim (Option-cases (get (x.grant_key t) s.refresh_grants)) [
      | inl missing ↦ rw (given, missing, begin_refresh) unknown
      | inr (grant, found) ↦ elim (Bool-cases (str_eq grant.client_id caller.client_id)) [
        | inr other ↦ rw (given, found, begin_refresh, start_refresh, other) unknown
        | inl own ↦ elim (Bool-cases (leb grant.expires_at now)) [
          | inl late ↦
              rw (given, found, begin_refresh, start_refresh, own, late)
                ((found_one t grant given found own).0 late)
          | inr live ↦
              rw (given, found, begin_refresh, start_refresh, own, live)
                ((found_one t grant given found own).1 live)
        ]
      ]
    ]
  ]

  pub finish_refresh_cases {ℓ} :
      (P : OauthState → Type ℓ) (i : ℕ) (check : Check) (draws : Draws) (now : ℕ) (s : OauthState)
      → P s
      → ((w : Waiting) → get_elem? s.waiting i ≡ some w → P (resume x o i w check draws now s).0)
      → P (finish_refresh x o i check draws now s).0
  unfolding finish_refresh
  finish_refresh_cases P i check draws now s nobody resumes =
      elim (Option-cases (get_elem? s.waiting i)) [
        | inl missing ↦ rw (missing, finish_refresh) nobody
        | inr (w, found) ↦ rw (found, finish_refresh) (resumes w found)
      ]

  pub revoke_cases {ℓ} :
      (P : OauthState → Type ℓ) (client : String) (token : Option String) (s : OauthState)
      → P s
      → ((t : String) (g : Option String) → P (end_sign_in g t s))
      → P (revoke x client token s).0
  unfolding revoke
  revoke_cases P client token s keeps ends = elim (Option-cases (present token)) [
    | inl missing ↦ rw (missing, revoke) keeps
    | inr (t, given) ↦ elim (Option-cases (token_owner x t s)) [
      | inl unknown ↦ rw (given, unknown, revoke) keeps
      | inr ((owner, g), known) ↦ elim (Bool-cases (is_text owner client)) [
        | inl own ↦ rw (given, known, own, revoke) (ends t g)
        | inr other ↦ rw (given, known, other, revoke) keeps
      ]
    ]
  ]
