-- ===== src/Oauth/Revoked.antt =====
-- src/auth/oauth.ts: the events of the server after a sign-in is revoked.
use mcp_server_db2i.Prelude.{
  ℕ, String, Bool, true, false, not, Option, some, List, [], ◌∷◌, ◌≡◌, ◌∙◌, ap, inl, inr, arith,
  Bool-cases, str_eq, eq_iff, or_else, ◌⊎◌,
}
use mcp_server_db2i.Prelude.Table.{get, IsDistinct, any-set, any-delete, any-get}
use mcp_server_db2i.Tokens.Grants.{spares, step-IsWithout}
use mcp_server_db2i.Oauth.{OauthConfig, Crypto, Waiting, OauthState, get_elem?}
use mcp_server_db2i.Oauth.Issue.{Draws, revoke_sign_in, grant_is}
use mcp_server_db2i.Oauth.Token.{
  Caller, Check, passed, failed, threw, begin_refresh, after_check, resume,
}
use mcp_server_db2i.Oauth.Cases.{context_of_grant, begin_refresh_cases, finish_refresh_cases}
use mcp_server_db2i.Oauth.Events.{
  Event, exchanges, begins, finishes, revokes, signs_in, manages, step, run,
}
use mcp_server_db2i.Oauth.Flights.{IsFlying, waiting_of-remove_at, flight_count-mark_flight}
use mcp_server_db2i.Oauth.Calm.{
  exchange_code-IsCalm, revoke-IsCalm, add_code-IsCalm, after_check-IsCalm, step-IsFlying,
}
use mcp_server_db2i.Oauth.Gone.{
  IsGone, revoke_sign_in-IsGone, revoke_sign_in_own, add_code-IsGone, issue_tokens-IsGone,
  exchange_code-IsGone, revoke-IsGone,
}
use mcp_server_db2i.Oauth.Marked.{
  IsMarked, calm-IsMarked, taking_off-IsMarked, land-IsMarked, revoke_sign_in-IsMarked,
}

-- The event neither draws the grant ID for a new sign-in nor puts a session of it into the manager.
abbrev pub is_foreign : String → Event → Bool
is_foreign g (exchanges caller e grant draws now) = not (str_eq grant g)
is_foreign g (manages call) = spares g call
is_foreign g (begins caller token now) = true
is_foreign g (finishes i check draws now) = true
is_foreign g (revokes client token) = true
is_foreign g (signs_in code p now) = true

unfoldable pub AllForeign : String → List Event → Type 0
AllForeign g [] = Unit
AllForeign g (e ∷ es) = (is_foreign g e ≡ true) × AllForeign g es

-- No token of the sign-in is held, and no refresh of it that waits can bring one.
pub record IsOver (g : String) (s : OauthState) : Type 0 where
  pub gone : IsGone g s
  pub marked : IsMarked g s.refreshing s.waiting
  pub flying : IsFlying s.refreshing s.waiting

module _ (g : String) (x : Crypto) (o : OauthConfig) where
  after_check-IsGone :
      (w : Waiting) (marked : Bool) (check : Check) (draws : Draws) (now : ℕ) (s : OauthState)
      → (marked ≡ true) ⊎ (str_eq w.grant.grant_id g ≡ false)
      → IsGone g s
      → IsGone g (after_check x o w marked check draws now s).0
  unfolding after_check
  after_check-IsGone w true (passed pool) draws now s m d = d
  after_check-IsGone w true (failed transient) draws now s m d = d
  after_check-IsGone w true threw draws now s m d = d
  after_check-IsGone w false threw draws now s m d = d
  after_check-IsGone w false check draws now s (inl absurd_mark) d = absurd cc
  after_check-IsGone w false (failed true) draws now s (inr other) d =
      (any-set (grant_is g) w.key w.grant s.refresh_grants other d.0, d.1)
  after_check-IsGone w false (failed false) draws now s (inr other) d =
      revoke_sign_in-IsGone g w.grant.grant_id s d
  after_check-IsGone w false (passed pool) draws now s (inr other) d =
      issue_tokens-IsGone g x o w.client_id w.may_refresh (context_of_grant w.grant) pool draws now
        s other d

  -- A waiting refresh of the sign-in finds the mark.
  finds_mark :
      (i : ℕ) (w : Waiting) (s : OauthState)
      → get_elem? s.waiting i ≡ some w
      → IsMarked g s.refreshing s.waiting
      → ((or_else
            (get w.grant.grant_id s.refreshing)
            (record { count = 1; revoked = false })).revoked
          ≡ true)
        ⊎ (str_eq w.grant.grant_id g ≡ false)
  finds_mark i w s e m =
      let h : String = w.grant.grant_id in
      let one = waiting_of-remove_at g i s.waiting w e in
      elim (Bool-cases (str_eq h g)) [
        | inr other ↦ inr other
        | inl same ↦ elim m [
          | inl none_waits ↦ absurd (ground (arith, one))
          | inr marked ↦
              inl (ground (arith, ap (λ (k : String). get k s.refreshing) ((eq_iff h g).0 same)))
        ]
      ]

  resume-IsOver :
      (i : ℕ) (w : Waiting) (check : Check) (draws : Draws) (now : ℕ) (s : OauthState)
      → get_elem? s.waiting i ≡ some w
      → IsOver g s
      → IsGone g (resume x o i w check draws now s).0
        × IsMarked g
            (resume x o i w check draws now s).0.refreshing
            (resume x o i w check draws now s).0.waiting
  unfolding resume
  resume-IsOver i w check draws now s e d = (
    after_check-IsGone w _ check draws now _ (finds_mark i w s e d.marked) d.gone,
    calm-IsMarked g (after_check-IsCalm x o w _ check draws now _)
        (land-IsMarked g i w s e d.flying d.marked),
  )

  begin_refresh-IsOver :
      (caller : Caller) (token : Option String) (now : ℕ) (s : OauthState)
      → IsOver g s
      → IsGone g (begin_refresh x o caller token now s).0
        × IsMarked g
            (begin_refresh x o caller token now s).0.refreshing
            (begin_refresh x o caller token now s).0.waiting
  begin_refresh-IsOver caller token now s d =
      begin_refresh_cases x o (λ r. IsGone g r.0 × IsMarked g r.0.refreshing r.0.waiting) caller
        token now s (d.gone, d.marked)
        (λ t grant given found own.
          let k : String = x.grant_key t in
          let less = any-delete (grant_is g) k s.refresh_grants d.gone.0 in
          (
            (λ late. ((less, d.gone.1), d.marked)),
            (λ live. (
              (less, d.gone.1),
              taking_off-IsMarked g x o caller k grant s
                  (any-get (grant_is g) k grant s.refresh_grants found d.gone.0) d.marked,
            )),
          ))

  step-IsOver :
      (s : OauthState) (e : Event) → is_foreign g e ≡ true → IsOver g s → IsOver g (step x o s e)
  unfolding step
  step-IsOver s (exchanges caller e grant draws now) other d = record {
    gone = exchange_code-IsGone g x o caller e grant draws now s (ground arith) d.gone;
    marked = calm-IsMarked g (exchange_code-IsCalm x o caller e grant draws now s) d.marked;
    flying = step-IsFlying x o s (exchanges caller e grant draws now) d.flying;
  }
  step-IsOver s (begins caller token now) other d = record {
    gone = (begin_refresh-IsOver caller token now s d).0;
    marked = (begin_refresh-IsOver caller token now s d).1;
    flying = step-IsFlying x o s (begins caller token now) d.flying;
  }
  step-IsOver s (finishes i check draws now) other d =
      let both =
        finish_refresh_cases x o (λ t. IsGone g t × IsMarked g t.refreshing t.waiting) i check draws
          now s (d.gone, d.marked) (λ w found. resume-IsOver i w check draws now s found d) in
      record {
        gone = both.0;
        marked = both.1;
        flying = step-IsFlying x o s (finishes i check draws now) d.flying;
      }
  step-IsOver s (revokes client token) other d = record {
    gone = revoke-IsGone g x o client token s d.gone;
    marked = calm-IsMarked g (revoke-IsCalm x o client token s) d.marked;
    flying = step-IsFlying x o s (revokes client token) d.flying;
  }
  step-IsOver s (signs_in code p now) other d = record {
    gone = add_code-IsGone g code p now s d.gone;
    marked = calm-IsMarked g (add_code-IsCalm code p now s) d.marked;
    flying = step-IsFlying x o s (signs_in code p now) d.flying;
  }
  step-IsOver s (manages call) other d = record {
    gone = (d.gone.0, step-IsWithout g o.limits s.tokens call other d.gone.1);
    marked = d.marked;
    flying = d.flying;
  }

  run-IsOver :
      (s : OauthState) (es : List Event) → AllForeign g es → IsOver g s → IsOver g (run x o s es)
  unfolding run AllForeign
  run-IsOver s [] a d = d
  run-IsOver s (e ∷ es) a d = run-IsOver (step x o s e) es a.1 (step-IsOver s e a.0 d)

-- Once a sign-in is revoked, no access token and no refresh token of it is ever held again: not
-- after any sequence of exchanges, refreshes that begin or finish (those that were waiting when it was
-- revoked too, whatever their credential checks answer), revocations, sign-ins and calls on the token
-- manager, as long as no new exchange draws the same grant ID and no session is created for it. The
-- state before the revocation has distinct keys and an entry for each grant that counts its waiting
-- refreshes.
pub run-revoke_sign_in :
    (x : Crypto) (o : OauthConfig) (g : String) (s : OauthState) (es : List Event)
    → IsDistinct s.refresh_grants
    → IsDistinct s.tokens.sessions
    → IsFlying s.refreshing s.waiting
    → AllForeign g es
    → IsOver g (run x o (revoke_sign_in g s) es)
unfolding revoke_sign_in
run-revoke_sign_in x o g s es d t f a = run-IsOver g x o (revoke_sign_in g s) es a (record {
  gone = revoke_sign_in_own g s d t;
  marked = revoke_sign_in-IsMarked g s.refreshing s.waiting f;
  flying = λ h. flight_count-mark_flight h g s.refreshing ∙ f h;
})
