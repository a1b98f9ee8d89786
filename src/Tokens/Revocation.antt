-- ===== src/Tokens/Revocation.antt =====
-- src/auth/tokenManager.ts: what a revocation removes, and what it reports
-- to the cleanup callback.
use mcp_server_db2i.Prelude.{
  String, Bool, true, false, not, some, List, [], ◌∷◌, ◌++◌, ◌≡◌, refl, sym, ap, ◌∙◌, inl, inr,
  arith, length, Bool-cases, any,
}
use mathlib.Core.List.{append_assoc, append-nil}
use mcp_server_db2i.Prelude.Table.{
  Table, get, delete, IsDistinct, keep, keys_where, values, Found, delete-Found, self-Found,
  delete_all-keys_where,
}
use mcp_server_db2i.Tokens.{
  TokenSession, TokenManager, notify_cleanup, revoke_token, revoke_tokens, revoke_grant, has_grant,
  of_grant,
}
use mcp_server_db2i.Tokens.Invariant.{sessions-revoke_tokens}

module _ (m : TokenManager) (on : m.callback ≡ true) where
  pub revoke_token_found :
      (t : String) (s : TokenSession)
      → get t m.sessions ≡ some s
      → (revoke_token t m).0
        ≡ record m { sessions = delete t m.sessions; notified = m.notified ++ (t, s) ∷ [] }
  unfolding revoke_token notify_cleanup
  revoke_token_found t s e = rw (e, on, revoke_token, notify_cleanup)

notified-revoke_tokens :
    (p : TokenSession → Bool) (es : Table TokenSession) (m : TokenManager)
    → m.callback ≡ true
    → IsDistinct es
    → Found m.sessions es
    → (revoke_tokens (keys_where p es) m).notified ≡ m.notified ++ keep p es
unfolding revoke_tokens keys_where keep IsDistinct
notified-revoke_tokens p [] m on d f = sym (append-nil m.notified)
notified-revoke_tokens p ((t, s) ∷ es) m on d f = elim (Bool-cases (p s)) [
  | inl hit ↦
      let m' : TokenManager = record m {
        sessions = delete t m.sessions;
        notified = m.notified ++ (t, s) ∷ [];
      } in
      rw hit (
        ap (λ x. (revoke_tokens (keys_where p es) x).notified) (revoke_token_found m on t s f.0)
        ∙ notified-revoke_tokens p es m' on d.1 (delete-Found t m.sessions es d.0 f.1)
        ∙ append_assoc m.notified ((t, s) ∷ []) (keep p es))
  | inr miss ↦ rw miss (notified-revoke_tokens p es m on d.1 f.1)
]

pub notify_cleanup_on :
    (gone : List (String × TokenSession)) (m : TokenManager)
    → m.callback ≡ true
    → notify_cleanup gone m ≡ record m { notified = m.notified ++ gone }
unfolding notify_cleanup
notify_cleanup_on gone m on = ground arith

any-keep-not :
    (p : TokenSession → Bool) (m : Table TokenSession)
    → any p (values (keep (λ s. not (p s)) m)) ≡ false
unfolding keep
any-keep-not p [] = refl
any-keep-not p ((k, s) ∷ m) = ground (arith, any-keep-not p m)

length-keys_where :
    (p : TokenSession → Bool) (m : Table TokenSession) → length (keys_where p m) ≡ length (keep p m)
unfolding keep keys_where
length-keys_where p [] = refl
length-keys_where p ((k, s) ∷ m) = ground (arith, length-keys_where p m)

-- Revoking a grant removes exactly the sessions of that grant and keeps the others as they were,
-- reports each removed session to the callback once and in order, returns their number, and leaves
-- no token of the grant behind.
pub revoke_grant_lem :
    (g : String) (m : TokenManager)
    → IsDistinct m.sessions
    → m.callback ≡ true
    → ((revoke_grant g m).0.sessions ≡ keep (λ s. not (of_grant g s)) m.sessions)
      × ((revoke_grant g m).0.notified ≡ m.notified ++ keep (of_grant g) m.sessions)
      × ((revoke_grant g m).1 ≡ length (keep (of_grant g) m.sessions))
      × (has_grant g (revoke_grant g m).0 ≡ false)
unfolding revoke_grant has_grant
revoke_grant_lem g m d on =
    let kept =
      sessions-revoke_tokens (keys_where (of_grant g) m.sessions) m
      ∙ delete_all-keys_where (of_grant g) m.sessions d in
    (
      kept,
      notified-revoke_tokens (of_grant g) m.sessions m on d (self-Found m.sessions d),
      length-keys_where (of_grant g) m.sessions,
      rw kept (any-keep-not (of_grant g) m.sessions),
    )
