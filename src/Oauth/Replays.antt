-- ===== src/Oauth/Replays.antt =====
-- src/auth/oauth.ts: a code that is exchanged again later.
use mcp_server_db2i.Prelude.{
  ℕ, ◌+◌, ◌<◌, String, Bool, true, false, Option, none, some, List, [], ◌∷◌, map, ◌≡◌, ◌∙◌, sym, ap,
  subst, inl, inr, arith, Bool-cases, str_eq, eq_iff, ltb, leb, length, some-eq-some,
}
use mcp_server_db2i.Prelude.Table.{Table, get, delete, delete_all, keys_where, get-set, get-delete}
use mcp_server_db2i.Oauth.{
  OauthConfig, Crypto, PendingCode, UsedCode, Waiting, OauthState, issued, used_code_ttl_ms,
  max_pending_codes,
}
use mcp_server_db2i.Oauth.Clients.{present}
use mcp_server_db2i.Oauth.Issue.{Draws, GrantContext, revoke_sign_in, issue_tokens, sweep_expired}
use mcp_server_db2i.Oauth.Token.{
  Caller, Exchange, Check, passed, failed, threw, exchange_code, use_up, replay, make_room,
  remember, after_check, resume,
}
use mcp_server_db2i.Oauth.Cases.{
  remembered, context_of, context_of_grant, replay_cases, redeem_cases, exchange_code_cases,
  begin_refresh_cases, finish_refresh_cases, revoke_cases,
}
use mcp_server_db2i.Oauth.Revoke.{end_sign_in, add_code}
use mcp_server_db2i.Oauth.Events.{
  Event, exchanges, begins, finishes, revokes, signs_in, manages, step, run,
}
use mcp_server_db2i.Oauth.Gone.{IsGone}
use mcp_server_db2i.Oauth.Sane.{IsSane, run-IsSane}
use mcp_server_db2i.Oauth.Redemption.{IsUsed, AllOther, step-IsUsed, exchange_code_own}
use mcp_server_db2i.Oauth.Rotation.{used_codes-issue_tokens, exchange_code_remembers, replay_used}

get-delete-some :
    (code k : String) (m : Table UsedCode) (u : UsedCode)
    → get code (delete k m) ≡ some u
    → get code m ≡ some u
get-delete-some code k m u h = elim (Bool-cases (str_eq k code)) [
  | inl same ↦ absurd (let e = get-delete k code m in ground (arith, e, same, h))
  | inr other ↦ let e = get-delete k code m in ground (arith, e, other, h)
]

get-delete_all-some :
    (code : String) (ks : List String) (m : Table UsedCode) (u : UsedCode)
    → get code (delete_all ks m) ≡ some u
    → get code m ≡ some u
unfolding delete_all
get-delete_all-some code [] m u h = h
get-delete_all-some code (k ∷ ks) m u h =
    get-delete-some code k m u (get-delete_all-some code ks (delete k m) u h)

module _ (x : Crypto) (o : OauthConfig) where
  get-make_room :
      (code : String) (ks : List String) (m : Table UsedCode) (u : UsedCode)
      → get code (make_room x o ks m) ≡ some u
      → get code m ≡ some u
  unfolding make_room
  get-make_room code [] m u h = h
  get-make_room code (k ∷ ks) m u h = elim (Bool-cases (ltb (length m) max_pending_codes)) [
    | inl room ↦ rw (room, make_room) at h
    | inr full ↦
        get-delete-some code k m u
          (get-make_room code ks (delete k m) u (rw (full, make_room) at h))
  ]

  -- Another code that is remembered leaves this one as it was, or forgets it.
  get-remember :
      (code c : String) (used : UsedCode) (now : ℕ) (m : Table UsedCode) (u : UsedCode)
      → str_eq c code ≡ false
      → get code (remember x o c used now m) ≡ some u
      → get code m ≡ some u
  unfolding remember sweep_expired
  get-remember code c used now m u other h =
      let ks = keys_where (λ (v : UsedCode). leb v.expires_at now) m in
      let swept = delete_all ks m in
      let keys = map (λ (e : String × UsedCode). e.0) swept in
      let e = get-set c code used (make_room x o keys swept) in
      get-delete_all-some code ks m u
        (get-make_room code keys swept u (ground (arith, e, other, h)))

-- If the code is remembered, then with this grant.
abbrev IsOnly : String → String → OauthState → Type 0
IsOnly code grant s = (u : UsedCode) → get code s.used_codes ≡ some u → u.grant_id ≡ grant

module _ (code grant : String) where
  replay-IsOnly :
      (c : String) (now : ℕ) (s : OauthState)
      → IsOnly code grant s
      → IsOnly code grant (replay c now s)
  unfolding revoke_sign_in
  replay-IsOnly c now s h = replay_cases (IsOnly code grant) c now s h (λ v found.
      let less = λ (u : UsedCode) (e : get code (delete c s.used_codes) ≡ some u).
        h u (get-delete-some code c s.used_codes u e) in
      (less, less))

  use_up-IsOnly :
      (c : String) (now : ℕ) (s : OauthState)
      → IsOnly code grant s
      → IsOnly code grant (use_up c now s)
  unfolding use_up
  use_up-IsOnly c now s h =
      replay-IsOnly c now (record s { pending_codes = delete c s.pending_codes }) h

  end_sign_in-IsOnly :
      (h : Option String) (token : String) (s : OauthState)
      → IsOnly code grant s
      → IsOnly code grant (end_sign_in h token s)
  unfolding revoke_sign_in
  end_sign_in-IsOnly none token s d = d
  end_sign_in-IsOnly (some h) token s d = elim (Bool-cases (str_eq h "")) [
    | inl empty ↦ rw empty d
    | inr full ↦ rw full d
  ]

  add_code-IsOnly :
      (c : String) (p : PendingCode) (now : ℕ) (s : OauthState)
      → IsOnly code grant s
      → IsOnly code grant (add_code c p now s).0
  unfolding add_code
  add_code-IsOnly c p now s h =
      let swept = sweep_expired (λ (v : PendingCode). v.expires_at) now s.pending_codes in
      elim (Bool-cases (leb max_pending_codes (length swept))) [
        | inl full ↦ rw (full, add_code) h
        | inr room ↦ rw (room, add_code) h
      ]

module _ (code grant : String) (x : Crypto) (o : OauthConfig) where
  issue_tokens-IsOnly :
      (client : String) (may : Bool) (context : GrantContext) (pool : String) (draws : Draws)
      (now : ℕ) (s : OauthState)
      → IsOnly code grant s
      → IsOnly code grant (issue_tokens x o client may context pool draws now s).0
  issue_tokens-IsOnly client may context pool draws now s h u e = h u (
      sym (ap (λ m. get code m) (used_codes-issue_tokens x o client may context pool draws now s))
      ∙ e)

  other_code :
      (c : String) (p : PendingCode) (s : OauthState)
      → IsUsed code s
      → get c s.pending_codes ≡ some p
      → str_eq c code ≡ false
  other_code c p s used found = elim (Bool-cases (str_eq c code)) [
    | inr other ↦ other
    | inl same ↦
        let e : get c s.pending_codes ≡ get code s.pending_codes =
          ap (λ k. get k s.pending_codes) ((eq_iff c code).0 same) in
        absurd (let bad = sym found ∙ e ∙ used in cc)
  ]

  -- The code is not pending, so that it is another code that is redeemed.
  exchange_code-IsOnly :
      (caller : Caller) (e : Exchange) (g : String) (draws : Draws) (now : ℕ) (s : OauthState)
      → IsUsed code s
      → IsOnly code grant s
      → IsOnly code grant (exchange_code x o caller e g draws now s).0
  exchange_code-IsOnly caller e g draws now s used h =
      exchange_code_cases x o (λ r. IsOnly code grant r.0) caller e g draws now s h
        (λ c. use_up-IsOnly code grant c now s h)
        (λ c p given found.
          let up = use_up c now s in
          let kept = use_up-IsOnly code grant c now s h in
          let other : str_eq c code ≡ false = other_code c p s used found in
          redeem_cases x o (λ r. IsOnly code grant r.0) caller e c p g draws now up (λ why. kept)
            (λ live own same right.
              issue_tokens-IsOnly caller.client_id caller.may_refresh (context_of g p) p.pool draws
                now (remembered x o c g now up)
                (λ u f. kept u (
                  get-remember x o code c
                    (record { grant_id = g; expires_at = now + used_code_ttl_ms }) now up.used_codes
                    u other f))))

  after_check-IsOnly :
      (w : Waiting) (marked : Bool) (check : Check) (draws : Draws) (now : ℕ) (s : OauthState)
      → IsOnly code grant s
      → IsOnly code grant (after_check x o w marked check draws now s).0
  unfolding after_check revoke_sign_in
  after_check-IsOnly w true (passed pool) draws now s h = h
  after_check-IsOnly w true (failed transient) draws now s h = h
  after_check-IsOnly w true threw draws now s h = h
  after_check-IsOnly w false threw draws now s h = h
  after_check-IsOnly w false (failed true) draws now s h = h
  after_check-IsOnly w false (failed false) draws now s h = h
  after_check-IsOnly w false (passed pool) draws now s h =
      issue_tokens-IsOnly w.client_id w.may_refresh (context_of_grant w.grant) pool draws now s h

  resume-IsOnly :
      (i : ℕ) (w : Waiting) (check : Check) (draws : Draws) (now : ℕ) (s : OauthState)
      → IsOnly code grant s
      → IsOnly code grant (resume x o i w check draws now s).0
  unfolding resume
  resume-IsOnly i w check draws now s h = after_check-IsOnly w _ check draws now _ h

  step-IsOnly :
      (s : OauthState) (e : Event)
      → IsUsed code s
      → IsOnly code grant s
      → IsOnly code grant (step x o s e)
  unfolding step
  step-IsOnly s (exchanges caller e g draws now) used h =
      exchange_code-IsOnly caller e g draws now s used h
  step-IsOnly s (begins caller token now) used h =
      begin_refresh_cases x o (λ r. IsOnly code grant r.0) caller token now s h
        (λ t g given found own. (λ late. h, λ live. h))
  step-IsOnly s (finishes i check draws now) used h =
      finish_refresh_cases x o (IsOnly code grant) i check draws now s h
        (λ w found. resume-IsOnly i w check draws now s h)
  step-IsOnly s (revokes client token) used h =
      revoke_cases x o (IsOnly code grant) client token s h
        (λ t g. end_sign_in-IsOnly code grant g t s h)
  step-IsOnly s (signs_in c p now) used h = add_code-IsOnly code grant c p now s h
  step-IsOnly s (manages call) used h = h

  run-IsOnly :
      (s : OauthState) (es : List Event)
      → AllOther code es
      → IsUsed code s
      → IsOnly code grant s
      → IsUsed code (run x o s es) × IsOnly code grant (run x o s es)
  unfolding run AllOther
  run-IsOnly s [] a used h = (used, h)
  run-IsOnly s (e ∷ es) a used h =
      run-IsOnly (step x o s e) es a.1 (step-IsUsed code x o s e a.0 used) (step-IsOnly s e used h)

-- A code exchange that issued tokens is undone by a replay, whatever requests ran in between, if the code
-- is still remembered and the time for which it is remembered has not passed: when the same code is
-- exchanged again, by whatever client, no access or refresh token of the grant that the first exchange
-- issued is left. Before the first exchange the keys of the refresh grants are distinct and the token
-- manager keeps its invariant, and no event in between adds the same code again.
pub run-exchange_code_replay :
    (x : Crypto) (o : OauthConfig) (caller caller2 : Caller) (e e2 : Exchange)
    (code grant grant2 : String) (draws draws2 : Draws) (now now2 : ℕ) (s : OauthState)
    (es : List Event) (token : String) (seconds : ℕ) (refresh : Option String) (u : UsedCode)
    → present e.code ≡ some code
    → present e2.code ≡ some code
    → (exchange_code x o caller e grant draws now s).1 ≡ issued token seconds refresh
    → IsSane x o s
    → AllOther code es
    → get code (run x o s (exchanges caller e grant draws now ∷ es)).used_codes ≡ some u
    → now2 < u.expires_at
    → IsGone grant
        (exchange_code x o caller2 e2 grant2 draws2 now2
          (run x o s (exchanges caller e grant draws now ∷ es))).0
unfolding run step
run-exchange_code_replay x o caller caller2 e e2 code grant grant2 draws draws2 now now2 s es token
      seconds refresh u p p2 got sane others known soon =
    let first = (exchange_code x o caller e grant draws now s).0 in
    let t = run x o first es in
    let remembers =
      exchange_code_remembers x o caller e code grant draws now s token seconds refresh p got in
    let only : IsOnly code grant first =
      λ v f. ap (λ (w : UsedCode). w.grant_id) (some-eq-some (sym f ∙ remembers)) in
    let (used, kept) =
      run-IsOnly code grant x o first es others
        (exchange_code_own code x o caller e grant draws now s p) only in
    let after = run-IsSane x o s (exchanges caller e grant draws now ∷ es) sane in
    subst (λ (g : String). IsGone g (exchange_code x o caller2 e2 grant2 draws2 now2 t).0)
      (kept u known)
      (replay_used x o caller2 e2 code grant2 draws2 now2 t u p2 used known soon after.0
        after.1.distinct)
