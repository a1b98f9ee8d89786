-- ===== src/Sessions/Closing.antt =====
-- src/transports/sessionManager.ts: the events between two waits, and the closing of a session.
use mcp_server_db2i.Prelude.{
  ℕ, ◌+◌, ◌-◌, ◌≤◌, String, Bool, true, false, none, List, [], ◌∷◌, ◌++◌, ◌≡◌, inl, inr, arith,
  if◌then◌else◌, str_eq, eq_iff, Option-cases,
}
use mcp_server_db2i.Prelude.Table.{get, get-set, get-delete}
use mcp_server_db2i.Sessions.{
  SessionManager, create_session, get_session, is_open, increment_active_requests,
  decrement_active_requests, begin_close, end_close, begin_shutdown,
}

-- What runs between two waits. The sweep, the closing of a token's sessions and the shutdown are, after
-- what they collect, `begins` and `ends` for one session after the other.
pub data Event : Type 0 where
  creates : String → String → String → Bool → ℕ → Event
  gets : String → ℕ → Event
  increments : String → ℕ → Event
  decrements : String → ℕ → Event
  begins : String → Event
  ends : String → Event
  stops : Event

unfoldable pub step : SessionManager → Event → SessionManager
step m (creates id server token connected now) = (create_session id server token connected now m).0
step m (gets id now) = (get_session id now m).0
step m (increments id now) = increment_active_requests id now m
step m (decrements id now) = decrement_active_requests id now m
step m (begins id) = (begin_close id m).0
step m (ends id) = end_close id m
step m stops = (begin_shutdown m).0

unfoldable pub run : SessionManager → List Event → SessionManager
unfolding step
run m [] = m
run m (e ∷ es) = run (step m e) es

-- How often a session's transport was closed.
unfoldable pub times : String → List String → ℕ
times id [] = 0
times id (j ∷ js) = (if str_eq j id then 1 else 0) + times id js

-- A session ID is drawn only once.
abbrev pub DrawsNew : SessionManager → Event → Type 0
DrawsNew m (creates id server token connected now) =
    (times id m.closed ≡ 0) × (get id m.sessions ≡ none)
DrawsNew m (gets id now) = Unit
DrawsNew m (increments id now) = Unit
DrawsNew m (decrements id now) = Unit
DrawsNew m (begins id) = Unit
DrawsNew m (ends id) = Unit
DrawsNew m stops = Unit

unfoldable pub AllNew : SessionManager → List Event → Type 0
unfolding step
AllNew m [] = Unit
AllNew m (e ∷ es) = DrawsNew m e × AllNew (step m e) es

-- A session that is open was not closed, and every other one at most once.
abbrev pub IsOnce : SessionManager → Type 0
IsOnce m = (id : String) → times id m.closed + (if is_open (get id m.sessions) then 1 else 0) ≤ 1

times-snoc :
    (id j : String) (js : List String)
    → times id (js ++ j ∷ []) ≡ times id js + (if str_eq j id then 1 else 0)
unfolding times
times-snoc id j [] = ground arith
times-snoc id j (k ∷ js) = ground (arith, times-snoc id j js)

step-IsOnce : (m : SessionManager) (e : Event) → DrawsNew m e → IsOnce m → IsOnce (step m e)
unfolding step create_session get_session increment_active_requests decrement_active_requests
    begin_close end_close begin_shutdown
step-IsOnce m (creates j server token connected now) new h id = ground (
  arith,
  h id,
  eq_iff j id,
  get-set j id
      (record {
        server = server;
        auth_token = token;
        created_at = now;
        last_accessed_at = now;
        active_requests = 0;
        is_closing = false;
      })
      m.sessions,
)
step-IsOnce m (gets j now) _ h id = elim (Option-cases (get j m.sessions)) [
  | inl missing ↦ rw (missing, step, get_session) (h id)
  | inr (s, found) ↦
      rw (found, step, get_session)
        (ground (
          arith,
          h id,
          h j,
          eq_iff j id,
          get-set j id (record s { last_accessed_at = now }) m.sessions,
        ))
]
step-IsOnce m (increments j now) _ h id = elim (Option-cases (get j m.sessions)) [
  | inl missing ↦ rw (missing, step, increment_active_requests) (h id)
  | inr (s, found) ↦
      rw (found, step, increment_active_requests)
        (ground (
          arith,
          h id,
          h j,
          eq_iff j id,
          get-set j id
              (record s { active_requests = s.active_requests + 1; last_accessed_at = now })
              m.sessions,
        ))
]
step-IsOnce m (decrements j now) _ h id = elim (Option-cases (get j m.sessions)) [
  | inl missing ↦ rw (missing, step, decrement_active_requests) (h id)
  | inr (s, found) ↦
      rw (found, step, decrement_active_requests)
        (ground (
          arith,
          h id,
          h j,
          eq_iff j id,
          get-set j id
              (record s { active_requests = s.active_requests - 1; last_accessed_at = now })
              m.sessions,
        ))
]
step-IsOnce m (begins j) _ h id = elim (Option-cases (get j m.sessions)) [
  | inl missing ↦ rw (missing, step, begin_close) (h id)
  | inr (s, found) ↦
      rw (found, step, begin_close)
        (ground (
          arith,
          h id,
          h j,
          eq_iff j id,
          times-snoc id j m.closed,
          get-set j id (record s { is_closing = true }) m.sessions,
        ))
]
step-IsOnce m (ends j) _ h id = ground (arith, h id, get-delete j id m.sessions)
step-IsOnce m stops _ h id = h id

-- Whatever runs while sessions close, the transport of a session is closed at most once, and that of an
-- open session never was, if every session ID is drawn once and the state before was so.
pub run-IsOnce : (m : SessionManager) (es : List Event) → AllNew m es → IsOnce m → IsOnce (run m es)
unfolding run AllNew
run-IsOnce m [] a h = h
run-IsOnce m (e ∷ es) a h = run-IsOnce (step m e) es a.1 (step-IsOnce m e a.0 h)
