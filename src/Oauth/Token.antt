-- ===== src/Oauth/Token.antt =====
-- src/auth/oauth.ts: POST /oauth/token, after the client is authenticated and the resource checked.
-- The code exchange runs without waiting for anything but the revocation of a replayed code's grant;
-- a refresh is cut where it waits for the credential check. CODE_VERIFIER is the test of RFC 7636.
use mcp_server_db2i.Prelude.{
  ℕ, ◌+◌, ◌-◌, String, Bool, true, false, not, ◌&&◌, ◌||◌, Option, none, some, List, [], ◌∷◌, leb,
  ltb, ◌==◌, if◌then◌else◌, str_eq, length, all, map, or_else,
}
use mcp_server_db2i.Prelude.Table.{Table, get, set, delete}
use mcp_server_db2i.Prelude.Text.{codes, is_letter, is_digit}
use mcp_server_db2i.Oauth.{
  OauthConfig, Crypto, RefreshGrant, PendingCode, UsedCode, Flight, Waiting, OauthState, Response,
  failure, closes, act, used_code_ttl_ms, max_pending_codes, remove_at, get_elem?,
}
use mcp_server_db2i.Oauth.Signed.{safe_equal}
use mcp_server_db2i.Oauth.Clients.{present}
use mcp_server_db2i.Oauth.Issue.{Draws, revoke_sign_in, sweep_expired, issue_tokens}

-- /^[A-Za-z0-9._~-]{43,128}$/
unfoldable pub is_code_verifier : String → Bool
is_code_verifier v =
    leb 43 (length (codes v))
    && leb (length (codes v)) 128
    && all (λ c. is_letter c || is_digit c || c == b'.' || c == b'_' || c == b'~' || c == b'-')
        (codes v)

-- The client of the request, and whether it may use refresh tokens.
pub record Caller : Type 0 where
  pub client_id : String
  pub may_refresh : Bool

pub record Exchange : Type 0 where
  pub code : Option String
  pub redirect_uri : Option String
  pub code_verifier : Option String

abbrev pub bad_code : Response
bad_code = failure 400 "invalid_grant" "The authorization code is invalid or expired"

abbrev pub bad_refresh : Response
bad_refresh = failure 400 "invalid_grant" "The refresh token is invalid or expired"

-- A replay ends what the code's grant issued, while the code is remembered.
unfoldable pub replay : String → ℕ → OauthState → OauthState
unfolding revoke_sign_in
replay code now s = elim (get code s.used_codes) [
  | none ↦ s
  | some used ↦
      let forgotten : OauthState = record s { used_codes = delete code s.used_codes } in
      if ltb now used.expires_at then revoke_sign_in used.grant_id forgotten else forgotten
]

-- The code is used up: a replayed code finds nothing.
unfoldable pub use_up : String → ℕ → OauthState → OauthState
unfolding replay
use_up code now s = replay code now (record s { pending_codes = delete code s.pending_codes })

abbrev pub redirect_matches : Option String → PendingCode → Bool
redirect_matches none p = not p.redirect_uri_explicit
redirect_matches (some uri) p = str_eq uri p.redirect_uri

module _ (x : Crypto) (o : OauthConfig) where
  unfoldable pub verifier_matches : Option String → PendingCode → Bool
  unfolding is_code_verifier
  verifier_matches v p = elim (present v) [
    | none ↦ false
    | some t ↦ is_code_verifier t && safe_equal x (x.s256 t) p.code_challenge
  ]

  -- The loop forgets the oldest used codes until one more may be remembered.
  unfoldable pub make_room : List String → Table UsedCode → Table UsedCode
  make_room [] m = m
  make_room (k ∷ ks) m =
      let rest = make_room ks (delete k m) in if ltb (length m) max_pending_codes then m else rest

  unfoldable pub remember : String → UsedCode → ℕ → Table UsedCode → Table UsedCode
  unfolding sweep_expired make_room
  remember code used now m =
      let swept = sweep_expired (λ (u : UsedCode). u.expires_at) now m in
      set code used (make_room (map (λ (e : String × UsedCode). e.0) swept) swept)

  -- The exchange of a code that was pending; `grant` is the drawn grant ID.
  unfoldable pub redeem :
      Caller
      → Exchange
      → String
      → PendingCode
      → String
      → Draws
      → ℕ
      → OauthState
      → OauthState × Response
  unfolding verifier_matches remember issue_tokens
  redeem caller e code p grant draws now s =
      if leb p.expires_at now || not (str_eq p.client_id caller.client_id)
      then (act (closes p.pool) s, bad_code)
      else if not (redirect_matches e.redirect_uri p)
      then (
        act (closes p.pool) s,
        failure 400 "invalid_grant" "redirect_uri does not match the authorization request",
      )
      else if not (verifier_matches e.code_verifier p)
      then (
        act (closes p.pool) s,
        failure 400 "invalid_grant" "code_verifier does not match the code challenge",
      )
      else issue_tokens x o caller.client_id caller.may_refresh
          (record { grant_id = grant; system = p.system; config = p.config }) p.pool draws now
          (record s {
            used_codes =
                remember code (record { grant_id = grant; expires_at = now + used_code_ttl_ms }) now
                  s.used_codes;
          })

  unfoldable pub exchange_code :
      Caller → Exchange → String → Draws → ℕ → OauthState → OauthState × Response
  unfolding use_up redeem
  exchange_code caller e grant draws now s = elim (present e.code) [
    | none ↦ (s, bad_code)
    | some code ↦ elim (get code s.pending_codes) [
      | none ↦ (use_up code now s, bad_code)
      | some p ↦ redeem caller e code p grant draws now (use_up code now s)
    ]
  ]

  -- The refresh of a grant that was found, up to the credential check.
  unfoldable pub start_refresh :
      Caller → String → RefreshGrant → ℕ → OauthState → OauthState × Option Response
  start_refresh caller key grant now s =
      let flight : Flight =
        or_else (get grant.grant_id s.refreshing) (record { count = 0; revoked = false }) in
      let waits : Waiting = record {
        key = key;
        grant = grant;
        client_id = caller.client_id;
        may_refresh = caller.may_refresh;
      } in
      let taken : OauthState = record s { refresh_grants = delete key s.refresh_grants } in
      if not (str_eq grant.client_id caller.client_id)
      then (s, some bad_refresh)
      else if leb grant.expires_at now
      then (taken, some bad_refresh)
      else (
        record taken {
          refreshing = set grant.grant_id (record flight { count = flight.count + 1 }) s.refreshing;
          waiting = waits ∷ s.waiting;
        },
        none,
      )

  -- `none` as the response: the request waits for the credential check.
  unfoldable pub begin_refresh :
      Caller → Option String → ℕ → OauthState → OauthState × Option Response
  unfolding start_refresh
  begin_refresh caller token now s = elim (present token) [
    | none ↦ (s, some bad_refresh)
    | some t ↦ elim (get (x.grant_key t) s.refresh_grants) [
      | none ↦ (s, some bad_refresh)
      | some grant ↦ start_refresh caller (x.grant_key t) grant now s
    ]
  ]

-- The outcome of testCredentials: an open pool, a failure that may be transient, or an exception.
pub data Check : Type 0 where
  passed : String → Check
  failed : Bool → Check
  threw : Check

abbrev pub server_error : Response
server_error = failure 500 "server_error" "An unexpected error occurred"

-- A refresh leaves the flight of its grant; the last one removes the entry.
unfoldable pub land : String → Flight → Table Flight → Table Flight
land g f flights =
    if f.count - 1 == 0 then delete g flights else set g (record f { count = f.count - 1 }) flights

module _ (x : Crypto) (o : OauthConfig) where
  -- What follows the check, once the flight was left. An exception of the check goes to the handler's `catch`.
  unfoldable pub after_check :
      Waiting → Bool → Check → Draws → ℕ → OauthState → OauthState × Response
  unfolding issue_tokens revoke_sign_in
  after_check w true (passed pool) draws now s = (act (closes pool) s, bad_refresh)
  after_check w true (failed transient) draws now s = (s, bad_refresh)
  after_check w false (failed true) draws now s = (
    record s { refresh_grants = set w.key w.grant s.refresh_grants },
    failure 503 "temporarily_unavailable" "The IBM i could not be reached. Try again shortly.",
  )
  after_check w false (failed false) draws now s = (
    revoke_sign_in w.grant.grant_id s,
    failure 400 "invalid_grant" "The IBM i credentials are no longer accepted. Sign in again.",
  )
  after_check w true threw draws now s = (s, server_error)
  after_check w false threw draws now s = (s, server_error)
  after_check w false (passed pool) draws now s =
      issue_tokens x o w.client_id w.may_refresh
        (record { grant_id = w.grant.grant_id; system = w.grant.system; config = w.grant.config })
        pool draws now s

  -- The waiting refresh at a position goes on with the outcome of its check.
  unfoldable pub resume : ℕ → Waiting → Check → Draws → ℕ → OauthState → OauthState × Response
  unfolding after_check land
  resume i w check draws now s =
      let g : String = w.grant.grant_id in
      let f : Flight = or_else (get g s.refreshing) (record { count = 1; revoked = false }) in
      after_check w f.revoked check draws now
        (record s { waiting = remove_at i s.waiting; refreshing = land g f s.refreshing })

  unfoldable pub finish_refresh : ℕ → Check → Draws → ℕ → OauthState → OauthState × Option Response
  unfolding resume
  finish_refresh i check draws now s = elim (get_elem? s.waiting i) [
    | none ↦ (s, none)
    | some w ↦ let r = resume i w check draws now s in (r.0, some r.1)
  ]
