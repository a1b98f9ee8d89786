-- ===== src/Oauth/Events.antt =====
-- src/auth/oauth.ts: the events of the server, one for each stretch that runs without waiting.
use mcp_server_db2i.Prelude.{ℕ, String, Option, List, [], ◌∷◌}
use mcp_server_db2i.Tokens.Invariant
use mcp_server_db2i.Oauth.{OauthConfig, Crypto, PendingCode, OauthState}
use mcp_server_db2i.Oauth.Issue.{Draws}
use mcp_server_db2i.Oauth.Token.{
  Caller, Exchange, Check, exchange_code, begin_refresh, finish_refresh,
}
use mcp_server_db2i.Oauth.Revoke.{revoke, add_code}

-- What can happen to the server between two waits. A refresh is two events; `finishes` picks one of
-- those that wait, so checks may end in any order, with other requests between.
pub data Event : Type 0 where
  exchanges : Caller → Exchange → String → Draws → ℕ → Event
  begins : Caller → Option String → ℕ → Event
  finishes : ℕ → Check → Draws → ℕ → Event
  revokes : String → Option String → Event
  signs_in : String → PendingCode → ℕ → Event
  manages : Invariant.Call → Event

module _ (x : Crypto) (o : OauthConfig) where
  unfoldable pub step : OauthState → Event → OauthState
  step s (exchanges caller e grant draws now) = (exchange_code x o caller e grant draws now s).0
  step s (begins caller token now) = (begin_refresh x o caller token now s).0
  step s (finishes i check draws now) = (finish_refresh x o i check draws now s).0
  step s (revokes client token) = (revoke x client token s).0
  step s (signs_in code p now) = (add_code code p now s).0
  step s (manages call) = record s { tokens = Invariant.step o.limits s.tokens call }

  unfoldable pub run : OauthState → List Event → OauthState
  unfolding step
  run s [] = s
  run s (e ∷ es) = run (step s e) es
