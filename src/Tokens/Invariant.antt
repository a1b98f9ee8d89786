-- ===== src/Tokens/Invariant.antt =====
-- src/auth/tokenManager.ts: what holds of the manager after any sequence of calls.
use mcp_server_db2i.Prelude.{
  ℕ, ◌+◌, ◌*◌, ◌≤◌, String, Option, none, some, List, [], ◌∷◌, ◌≡◌, leb, lt_of_leb, refl, inl, inr,
  arith, length, Option-cases, Bool-cases, str_eq,
}
use mcp_server_db2i.Prelude.Table.{
  Table, get, set, delete, IsDistinct, Every, set-Every, delete-Every, nil-Every, set-IsDistinct,
  delete-IsDistinct, length-delete-le, delete_absent, delete_all, length-set-le, length-set_present,
}
use mcp_server_db2i.Tokens.{
  Db2iConfig, TokenSession, Limits, TokenManager, notify_cleanup, create_session, validate_found,
  validate_token, revoke_token, revoke_tokens, revoke_grant, drop_expired, begin_shutdown,
  report_session, set_cleanup_callback, init, has_expired,
}

-- A session is stored under its own token, and lives no longer than the configured expiry.
abbrev pub IsSound : Limits → String → TokenSession → Type 0
IsSound l k s = (s.token ≡ k) × (s.expires_at ≤ s.created_at + l.token_expiry * 1000)

pub record IsValid (l : Limits) (sessions : Table TokenSession) : Type 0 where
  pub distinct : IsDistinct sessions
  pub bounded : length sessions ≤ l.max_sessions
  pub sound : Every (IsSound l) sessions

-- The calls that change the manager, and the turns of the loops that wait: a turn of the sweep drops and
-- one of a shutdown reports whatever session was collected before.
pub data Call : Type 0 where
  creates : String → ℕ → Db2iConfig → Option ℕ → String → Option String → Option String → Call
  validates : String → ℕ → Call
  revokes : String → Call
  revokes_grant : String → Call
  drops : String → TokenSession → Call
  shuts_down : Call
  reports : String → TokenSession → Call
  registers : Call

-- A refused call leaves the manager as it was.
abbrev pub after_create {ℓ} : {A : Type ℓ} → TokenManager → Option (TokenManager × A) → TokenManager
after_create m none = m
after_create m (some (m', _)) = m'

unfoldable pub step : Limits → TokenManager → Call → TokenManager
step l m (creates t now c d sys client grant) =
    after_create m (create_session l t now c d sys client grant m)
step l m (validates t now) = (validate_token t now m).0
step l m (revokes t) = (revoke_token t m).0
step l m (revokes_grant g) = (revoke_grant g m).0
step l m (drops t s) = drop_expired t s m
step l m shuts_down = (begin_shutdown m).0
step l m (reports t s) = report_session t s m
step l m registers = set_cleanup_callback m

unfoldable pub run : Limits → TokenManager → List Call → TokenManager
unfolding step
run l m [] = m
run l m (c ∷ cs) = run l (step l m c) cs

pub sessions-notify_cleanup :
    (gone : List (String × TokenSession)) (m : TokenManager)
    → (notify_cleanup gone m).sessions ≡ m.sessions
unfolding notify_cleanup
sessions-notify_cleanup gone m = ground arith

pub sessions-revoke_token :
    (t : String) (m : TokenManager) → (revoke_token t m).0.sessions ≡ delete t m.sessions
unfolding revoke_token notify_cleanup
sessions-revoke_token t m = ground (arith, delete_absent t m.sessions)

pub sessions-revoke_tokens :
    (ts : List String) (m : TokenManager) → (revoke_tokens ts m).sessions ≡ delete_all ts m.sessions
unfolding revoke_tokens delete_all
sessions-revoke_tokens [] m = refl
sessions-revoke_tokens (t ∷ ts) m =
    rw (← sessions-revoke_token t m) (sessions-revoke_tokens ts (revoke_token t m).0)

pub sessions-drop_expired :
    (t : String) (s : TokenSession) (m : TokenManager)
    → (drop_expired t s m).sessions ≡ delete t m.sessions
unfolding drop_expired
sessions-drop_expired t s m =
    sessions-notify_cleanup ((t, s) ∷ []) (record m { sessions = delete t m.sessions })

module _ (l : Limits) where
  pub nil-IsValid : IsValid l []
  unfolding IsDistinct
  nil-IsValid = record { distinct = tt; bounded = omega arith; sound = nil-Every (IsSound l) }

  set-IsValid :
      (k : String) (s : TokenSession) (m : Table TokenSession)
      → IsSound l k s
      → length (set k s m) ≤ l.max_sessions
      → IsValid l m
      → IsValid l (set k s m)
  set-IsValid k s m sound room v = record {
    distinct = set-IsDistinct k s m v.distinct;
    bounded = room;
    sound = set-Every (IsSound l) k s m sound v.sound;
  }

  delete-IsValid : (k : String) (m : Table TokenSession) → IsValid l m → IsValid l (delete k m)
  delete-IsValid k m v = record {
    distinct = delete-IsDistinct k m v.distinct;
    bounded = omega (arith, length-delete-le k m, v.bounded);
    sound = delete-Every (IsSound l) k m v.sound;
  }

  delete_all-IsValid :
      (ks : List String) (m : Table TokenSession) → IsValid l m → IsValid l (delete_all ks m)
  unfolding delete_all
  delete_all-IsValid [] m v = v
  delete_all-IsValid (k ∷ ks) m v = delete_all-IsValid ks (delete k m) (delete-IsValid k m v)

  create_session-IsValid :
      (t : String) (now : ℕ) (c : Db2iConfig) (d : Option ℕ) (sys : String)
      (client grant : Option String) (m : TokenManager)
      → IsValid l m.sessions
      → IsValid l (after_create m (create_session l t now c d sys client grant m)).sessions
  unfolding create_session
  create_session-IsValid t now c d sys client grant m v =
      elim (Bool-cases (leb l.max_sessions (length m.sessions))) [
        | inl full ↦ rw (full, create_session) v
        | inr room ↦
            rw (room, create_session)
              (set-IsValid t _ m.sessions (refl, omega arith)
                (omega (
                  arith,
                  length-set-le t _ m.sessions,
                  lt_of_leb l.max_sessions (length m.sessions) room,
                ))
                v)
      ]

  validate_found-IsValid :
      (t : String) (now : ℕ) (s : TokenSession) (m : TokenManager)
      → get t m.sessions ≡ some s
      → IsValid l m.sessions
      → IsValid l (validate_found t now s m).0.sessions
  unfolding validate_found
  validate_found-IsValid t now s m e v = elim (Bool-cases (has_expired now s)) [
    | inl late ↦ rw (late, validate_found, sessions-notify_cleanup) (delete-IsValid t m.sessions v)
    | inr early ↦
        rw (early, validate_found)
          (set-IsValid t _ m.sessions (v.sound t s e)
            (omega (
              arith,
              length-set_present t (record s { last_used_at = now }) m.sessions (rw e refl),
            ))
            v)
  ]

  validate_token-IsValid :
      (t : String) (now : ℕ) (m : TokenManager)
      → IsValid l m.sessions
      → IsValid l (validate_token t now m).0.sessions
  unfolding validate_token
  validate_token-IsValid t now m v = elim (Bool-cases (str_eq t "")) [
    | inl empty ↦ rw (empty, validate_token) v
    | inr text ↦ elim (Option-cases (get t m.sessions)) [
      | inl missing ↦ rw (text, missing, validate_token) v
      | inr (s, found) ↦ rw (text, found, validate_token) (validate_found-IsValid t now s m found v)
    ]
  ]

  pub step-IsValid :
      (m : TokenManager) (c : Call) → IsValid l m.sessions → IsValid l (step l m c).sessions
  unfolding step revoke_grant begin_shutdown report_session set_cleanup_callback
  step-IsValid m (creates t now c d sys client grant) v =
      create_session-IsValid t now c d sys client grant m v
  step-IsValid m (validates t now) v = validate_token-IsValid t now m v
  step-IsValid m (revokes t) v = rw sessions-revoke_token (delete-IsValid t m.sessions v)
  step-IsValid m (revokes_grant g) v = rw sessions-revoke_tokens (delete_all-IsValid _ m.sessions v)
  step-IsValid m (drops t s) v = rw sessions-drop_expired (delete-IsValid t m.sessions v)
  step-IsValid m shuts_down v = nil-IsValid
  step-IsValid m (reports t s) v = rw sessions-notify_cleanup v
  step-IsValid m registers v = v

  run_from-IsValid :
      (m : TokenManager) (cs : List Call) → IsValid l m.sessions → IsValid l (run l m cs).sessions
  unfolding run
  run_from-IsValid m [] v = v
  run_from-IsValid m (c ∷ cs) v = run_from-IsValid (step l m c) cs (step-IsValid m c v)

-- After any sequence of calls on a new manager, the turns of a sweep or a shutdown among them in any order, no token is stored twice, at most maxSessions
-- sessions are held, and every session is stored under its own token with an expiry at most
-- tokenExpiry seconds after its creation.
pub run-IsValid : (l : Limits) (cs : List Call) → IsValid l (run l init cs).sessions
unfolding init
run-IsValid l cs = run_from-IsValid l init cs (nil-IsValid l)
