-- ===== src/Tokens/Grants.antt =====
-- src/auth/tokenManager.ts: the calls that can give a grant a token.
use mcp_server_db2i.Prelude.{
  ℕ, String, Bool, true, false, not, Option, some, [], ◌∷◌, ◌≡◌, ◌∙◌, ap, inl, inr, arith, length,
  any, Option-cases, Bool-cases, is_text, str_eq, leb,
}
use mcp_server_db2i.Prelude.Table.{
  get, delete, IsDistinct, values, keys_where, any-set, any-delete, any-delete_all, any-get,
  any-delete_all-keys_where,
}
use mcp_server_db2i.Tokens.{
  Db2iConfig, TokenSession, Limits, TokenManager, create_session, validate_found, validate_token,
  revoke_token, revoke_grant, of_grant, begin_shutdown, report_session, new_session, notify_cleanup,
  has_expired, set_cleanup_callback,
}
use mcp_server_db2i.Tokens.Invariant.{
  Call, creates, validates, revokes, revokes_grant, drops, shuts_down, reports, registers, step,
  after_create, sessions-revoke_token, sessions-revoke_tokens, sessions-drop_expired,
  sessions-notify_cleanup,
}

-- The call creates no token of the grant.
abbrev pub spares : String → Call → Bool
spares g (creates t now c d sys client grant) = not (is_text grant g)
spares g (validates t now) = true
spares g (revokes t) = true
spares g (revokes_grant h) = true
spares g (drops t s) = true
spares g shuts_down = true
spares g (reports t s) = true
spares g registers = true

module _ (g : String) where
  abbrev pub IsWithout : TokenManager → Type 0
  IsWithout m = any (of_grant g) (values m.sessions) ≡ false

  pub after_create-IsWithout :
      (l : Limits) (token : String) (now : ℕ) (c : Db2iConfig) (d : Option ℕ) (sys : String)
      (client grant : Option String) (m : TokenManager)
      → is_text grant g ≡ false
      → IsWithout m
      → IsWithout (after_create m (create_session l token now c d sys client grant m))
  unfolding create_session new_session
  after_create-IsWithout l token now c d sys client grant m other h =
      elim (Bool-cases (leb l.max_sessions (length m.sessions))) [
        | inl full ↦ rw (full, create_session) h
        | inr room ↦
            rw (room, create_session)
              (any-set (of_grant g) token (new_session l token now c d sys client grant) m.sessions
                other h)
      ]

  pub revoke_token-IsWithout :
      (t : String) (m : TokenManager) → IsWithout m → IsWithout (revoke_token t m).0
  revoke_token-IsWithout t m h =
      ap (λ u. any (of_grant g) (values u)) (sessions-revoke_token t m)
      ∙ any-delete (of_grant g) t m.sessions h

  pub revoke_grant-IsWithout :
      (f : String) (m : TokenManager) → IsWithout m → IsWithout (revoke_grant f m).0
  unfolding revoke_grant
  revoke_grant-IsWithout f m h =
      ap (λ u. any (of_grant g) (values u))
        (sessions-revoke_tokens (keys_where (of_grant f) m.sessions) m)
      ∙ any-delete_all (of_grant g) (keys_where (of_grant f) m.sessions) m.sessions h

  -- The revocation of the grant itself.
  pub revoke_grant_own : (m : TokenManager) → IsDistinct m.sessions → IsWithout (revoke_grant g m).0
  unfolding revoke_grant
  revoke_grant_own m d =
      ap (λ u. any (of_grant g) (values u))
        (sessions-revoke_tokens (keys_where (of_grant g) m.sessions) m)
      ∙ any-delete_all-keys_where (of_grant g) m.sessions d

  validate_found-IsWithout :
      (t : String) (now : ℕ) (s : TokenSession) (m : TokenManager)
      → get t m.sessions ≡ some s
      → IsWithout m
      → IsWithout (validate_found t now s m).0
  unfolding validate_found notify_cleanup
  validate_found-IsWithout t now s m found h = elim (Bool-cases (has_expired now s)) [
    | inl late ↦
        rw (late, validate_found)
          (ap (λ u. any (of_grant g) (values u))
              (sessions-notify_cleanup ((t, s) ∷ []) (record m { sessions = delete t m.sessions }))
            ∙ any-delete (of_grant g) t m.sessions h)
    | inr live ↦
        rw (live, validate_found)
          (any-set (of_grant g) t (record s { last_used_at = now }) m.sessions
            (any-get (of_grant g) t s m.sessions found h) h)
  ]

  validate_token-IsWithout :
      (t : String) (now : ℕ) (m : TokenManager) → IsWithout m → IsWithout (validate_token t now m).0
  unfolding validate_token
  validate_token-IsWithout t now m h = elim (Bool-cases (str_eq t "")) [
    | inl empty ↦ rw (empty, validate_token) h
    | inr full ↦ elim (Option-cases (get t m.sessions)) [
      | inl missing ↦ rw (full, missing, validate_token) h
      | inr (s, found) ↦
          rw (full, found, validate_token) (validate_found-IsWithout t now s m found h)
    ]
  ]

  pub step-IsWithout :
      (l : Limits) (m : TokenManager) (call : Call)
      → spares g call ≡ true
      → IsWithout m
      → IsWithout (step l m call)
  unfolding step begin_shutdown report_session set_cleanup_callback
  step-IsWithout l m (creates t now c d sys client grant) other h =
      after_create-IsWithout l t now c d sys client grant m (ground arith) h
  step-IsWithout l m (validates t now) _ h = validate_token-IsWithout t now m h
  step-IsWithout l m (revokes t) _ h = revoke_token-IsWithout t m h
  step-IsWithout l m (revokes_grant f) _ h = revoke_grant-IsWithout f m h
  step-IsWithout l m (drops t s) _ h =
      ap (λ u. any (of_grant g) (values u)) (sessions-drop_expired t s m)
      ∙ any-delete (of_grant g) t m.sessions h
  step-IsWithout l m shuts_down _ h = λ i. false
  step-IsWithout l m (reports t s) _ h =
      ap (λ u. any (of_grant g) (values u)) (sessions-notify_cleanup ((t, s) ∷ []) m) ∙ h
  step-IsWithout l m registers _ h = h
