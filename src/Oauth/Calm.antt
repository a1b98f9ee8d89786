-- ===== src/Oauth/Calm.antt =====
-- src/auth/oauth.ts: the bookkeeping of waiting refreshes over every event.
use mcp_server_db2i.Prelude.{
  ℕ, String, Bool, true, false, Option, none, some, List, [], ◌∷◌, ◌≡◌, ◌∙◌, refl, sym, ap, inl,
  inr, arith, Bool-cases, str_eq,
}
use mcp_server_db2i.Prelude.Table.{get, delete}
use mcp_server_db2i.Oauth.{OauthConfig, Crypto, PendingCode, Waiting, OauthState}
use mcp_server_db2i.Oauth.Issue.{Draws, GrantContext, revoke_sign_in, issue_tokens, issue_refresh}
use mcp_server_db2i.Oauth.Token.{
  Caller, Exchange, Check, passed, failed, threw, exchange_code, redeem, use_up, replay,
  after_check, resume,
}
use mcp_server_db2i.Oauth.Cases.{
  remembered, context_of, context_of_grant, replay_cases, issue_tokens_cases, redeem_cases,
  exchange_code_cases, begin_refresh_cases, finish_refresh_cases, revoke_cases,
}
use mcp_server_db2i.Oauth.Revoke.{revoke, end_sign_in, revoke_alone, add_code}
use mcp_server_db2i.Oauth.Events.{
  Event, exchanges, begins, finishes, revokes, signs_in, manages, step, run,
}
use mcp_server_db2i.Oauth.Flights.{
  waiting_of, flight_count, flight_revoked, IsFlying, flight_count-mark_flight,
  flight_revoked-mark_flight, taking_off-IsFlying, land-IsFlying,
}

-- A step that starts and ends no refresh, and takes no mark off.
pub record IsCalm (s t : OauthState) : Type 0 where
  pub waiting : t.waiting ≡ s.waiting
  pub counts : (g : String) → flight_count (get g t.refreshing) ≡ flight_count (get g s.refreshing)
  pub marks :
      (g : String)
      → flight_revoked (get g s.refreshing) ≡ true
      → flight_revoked (get g t.refreshing) ≡ true

pub refl-IsCalm :
    (s t : OauthState) → t.waiting ≡ s.waiting → t.refreshing ≡ s.refreshing → IsCalm s t
refl-IsCalm s t w r = record {
  waiting = w;
  counts = λ g. ap (λ m. flight_count (get g m)) r;
  marks = λ g h. ap (λ m. flight_revoked (get g m)) r ∙ h;
}

pub trans-IsCalm : {s t u : OauthState} → IsCalm s t → IsCalm t u → IsCalm s u
trans-IsCalm a b = record {
  waiting = b.waiting ∙ a.waiting;
  counts = λ g. b.counts g ∙ a.counts g;
  marks = λ g h. b.marks g (a.marks g h);
}

pub revoke_sign_in-IsCalm : (g : String) (s : OauthState) → IsCalm s (revoke_sign_in g s)
unfolding revoke_sign_in
revoke_sign_in-IsCalm g s = record {
  waiting = refl;
  counts = λ h. flight_count-mark_flight h g s.refreshing;
  marks = λ h. flight_revoked-mark_flight h g s.refreshing;
}

replay-IsCalm : (code : String) (now : ℕ) (s : OauthState) → IsCalm s (replay code now s)
replay-IsCalm code now s =
    replay_cases (IsCalm s) code now s (refl-IsCalm s s refl refl) (λ u found.
      let t : OauthState = record s { used_codes = delete code s.used_codes } in
      let forgot = refl-IsCalm s t refl refl in
      (forgot, trans-IsCalm forgot (revoke_sign_in-IsCalm u.grant_id t)))

pub use_up-IsCalm : (code : String) (now : ℕ) (s : OauthState) → IsCalm s (use_up code now s)
unfolding use_up
use_up-IsCalm code now s =
    let t : OauthState = record s { pending_codes = delete code s.pending_codes } in
    trans-IsCalm (refl-IsCalm s t refl refl) (replay-IsCalm code now t)

end_sign_in-IsCalm :
    (g : Option String) (token : String) (s : OauthState) → IsCalm s (end_sign_in g token s)
end_sign_in-IsCalm none token s = refl-IsCalm s _ refl refl
end_sign_in-IsCalm (some g) token s = elim (Bool-cases (str_eq g "")) [
  | inl empty ↦ rw empty (refl-IsCalm s (revoke_alone token s) refl refl)
  | inr full ↦ rw full (revoke_sign_in-IsCalm g s)
]

pub add_code-IsCalm :
    (code : String) (p : PendingCode) (now : ℕ) (s : OauthState)
    → IsCalm s (add_code code p now s).0
unfolding add_code
add_code-IsCalm code p now s = refl-IsCalm s (add_code code p now s).0 (ground arith) (ground arith)

module _ (x : Crypto) (o : OauthConfig) where
  pub issue_tokens-IsCalm :
      (client : String) (may : Bool) (grant : GrantContext) (pool : String) (draws : Draws)
      (now : ℕ) (s : OauthState)
      → IsCalm s (issue_tokens x o client may grant pool draws now s).0
  unfolding issue_refresh
  issue_tokens-IsCalm client may grant pool draws now s =
      issue_tokens_cases x o (λ r. IsCalm s r.0) client may grant pool draws now s
        (λ r. refl-IsCalm s _ refl refl) (λ t i room. refl-IsCalm s _ (ground arith) (ground arith))

  redeem-IsCalm :
      (caller : Caller) (e : Exchange) (code : String) (p : PendingCode) (grant : String)
      (draws : Draws) (now : ℕ) (s : OauthState)
      → IsCalm s (redeem x o caller e code p grant draws now s).0
  redeem-IsCalm caller e code p grant draws now s =
      redeem_cases x o (λ r. IsCalm s r.0) caller e code p grant draws now s
        (λ d. refl-IsCalm s _ refl refl)
        (λ live own same right.
          trans-IsCalm (refl-IsCalm s (remembered x o code grant now s) refl refl) (
            issue_tokens-IsCalm caller.client_id caller.may_refresh (context_of grant p) p.pool
              draws now (remembered x o code grant now s)))

  pub exchange_code-IsCalm :
      (caller : Caller) (e : Exchange) (grant : String) (draws : Draws) (now : ℕ) (s : OauthState)
      → IsCalm s (exchange_code x o caller e grant draws now s).0
  exchange_code-IsCalm caller e grant draws now s =
      exchange_code_cases x o (λ r. IsCalm s r.0) caller e grant draws now s
        (refl-IsCalm s s refl refl) (λ code. use_up-IsCalm code now s)
        (λ code p given found.
          trans-IsCalm (use_up-IsCalm code now s)
            (redeem-IsCalm caller e code p grant draws now (use_up code now s)))

  pub revoke-IsCalm :
      (client : String) (token : Option String) (s : OauthState)
      → IsCalm s (revoke x client token s).0
  revoke-IsCalm client token s =
      revoke_cases x o (IsCalm s) client token s (refl-IsCalm s s refl refl)
        (λ t g. end_sign_in-IsCalm g t s)

  pub after_check-IsCalm :
      (w : Waiting) (marked : Bool) (check : Check) (draws : Draws) (now : ℕ) (s : OauthState)
      → IsCalm s (after_check x o w marked check draws now s).0
  unfolding after_check
  after_check-IsCalm w true (passed pool) draws now s = refl-IsCalm s _ refl refl
  after_check-IsCalm w true (failed transient) draws now s = refl-IsCalm s _ refl refl
  after_check-IsCalm w true threw draws now s = refl-IsCalm s _ refl refl
  after_check-IsCalm w false threw draws now s = refl-IsCalm s _ refl refl
  after_check-IsCalm w false (failed true) draws now s = refl-IsCalm s _ refl refl
  after_check-IsCalm w false (failed false) draws now s = revoke_sign_in-IsCalm w.grant.grant_id s
  after_check-IsCalm w false (passed pool) draws now s =
      issue_tokens-IsCalm w.client_id w.may_refresh (context_of_grant w.grant) pool draws now s

-- The flights stay balanced.
calm-IsFlying :
    {s t : OauthState}
    → IsCalm s t
    → IsFlying s.refreshing s.waiting
    → IsFlying t.refreshing t.waiting
calm-IsFlying c f g = c.counts g ∙ f g ∙ ap (waiting_of g) (sym c.waiting)

module _ (x : Crypto) (o : OauthConfig) where
  pub step-IsFlying :
      (s : OauthState) (e : Event)
      → IsFlying s.refreshing s.waiting
      → IsFlying (step x o s e).refreshing (step x o s e).waiting
  unfolding step resume
  step-IsFlying s (exchanges caller e grant draws now) f =
      calm-IsFlying (exchange_code-IsCalm x o caller e grant draws now s) f
  step-IsFlying s (begins caller token now) f =
      begin_refresh_cases x o (λ r. IsFlying r.0.refreshing r.0.waiting) caller token now s f
        (λ t grant given found own.
          (λ late. f, λ live. taking_off-IsFlying x o caller (x.grant_key t) grant s f))
  step-IsFlying s (finishes i check draws now) f =
      finish_refresh_cases x o (λ t. IsFlying t.refreshing t.waiting) i check draws now s f
        (λ w found.
          calm-IsFlying (after_check-IsCalm x o w _ check draws now _)
            (land-IsFlying i w s found f))
  step-IsFlying s (revokes client token) f = calm-IsFlying (revoke-IsCalm x o client token s) f
  step-IsFlying s (signs_in code p now) f = calm-IsFlying (add_code-IsCalm code p now s) f
  step-IsFlying s (manages call) f = f

  -- After any sequence of events, the entry of a grant counts the refreshes of that grant that wait
  -- for their credential check, if it did before.
  pub run-IsFlying :
      (s : OauthState) (es : List Event)
      → IsFlying s.refreshing s.waiting
      → IsFlying (run x o s es).refreshing (run x o s es).waiting
  unfolding run
  run-IsFlying s [] f = f
  run-IsFlying s (e ∷ es) f = run-IsFlying (step x o s e) es (step-IsFlying s e f)
