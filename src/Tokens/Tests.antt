-- ===== src/Tokens/Tests.antt =====
-- src/auth/tokenManager.ts: the theorems at concrete inputs.
use mcp_server_db2i.Prelude.{
  ℕ, ◌+◌, ◌*◌, min, String, true, false, Option, none, some, List, [], ◌∷◌, ◌≡◌, refl, leb, or_else,
  if◌then◌else◌, ◌≢◌, eq_iff,
}
use mcp_server_db2i.Prelude.Table.{get, set, IsDistinct}
use mcp_server_db2i.Tokens.{
  Db2iConfig, TokenSession, Limits, TokenManager, Issued, valid, invalid, create_session,
  validate_token, init, new_session, expiry_seconds,
}
use mcp_server_db2i.Tokens.Invariant.{
  IsValid, Call, creates, validates, revokes_grant, drops, reports, shuts_down, run, run-IsValid,
}
use mcp_server_db2i.Tokens.Lifetime.{validate_token-create_session}

abbrev config : Db2iConfig
config = record {
  hostname = "ibmi";
  port = 446;
  username = "bob";
  password = "secret";
  database = "*LOCAL";
  schema = "LIB";
  driver = "jdbc";
  jdbc_options = [];
  odbc_options = [];
  mapepire_options = none;
  query_timeout = none;
}

abbrev limits : Limits
limits = record { max_sessions = 2; token_expiry = 60 }

-- Made at a time, with an expiry time, for a grant.
abbrev session : String → ℕ → Option String → TokenSession
session token expires grant = record {
  token = token;
  config = config;
  system = "default";
  client_id = none;
  grant_id = grant;
  created_at = 0;
  expires_at = expires;
  last_used_at = 0;
}

abbrev three : TokenManager
three = record {
  sessions =
      ("a", session "a" 10 (some "g"))
      ∷ ("b", session "b" 90 (some "h"))
      ∷ ("c", session "c" 95 (some "g"))
      ∷ [];
  timer = true;
  callback = true;
  notified = [];
}

three-IsDistinct : IsDistinct three.sessions
unfolding IsDistinct get
three-IsDistinct = (refl, (refl, (refl, tt)))

abbrev calls : List Call
calls =
    creates "a" 0 config none "default" none (some "g")
    ∷ creates "b" 5 config (some 600) "default" none (some "h")
    ∷ creates "c" 6 config none "default" none none
    ∷ validates "a" 7
    ∷ revokes_grant "h"
    ∷ drops "a" (session "a" 60_000 (some "g"))
    ∷ validates "a" 8
    ∷ shuts_down
    ∷ reports "c" (session "c" 60_006 none)
    ∷ []

run-IsValid_example : IsValid limits (run limits init calls).sessions
run-IsValid_example = run-IsValid limits calls

abbrev opened_manager : TokenManager
opened_manager = record {
  sessions = ("a", session "a" 60_000 none) ∷ [];
  timer = true;
  callback = false;
  notified = [];
}

abbrev opened_token : Issued
opened_token = record { token = "a"; expires_at = 60_000; expires_in = 60 }

opened_eq :
    create_session limits "a" 0 config
      (some 600)
      "default"
      none
      none
      (record { sessions = []; timer = true; callback = false; notified = [] })
    ≡ some (opened_manager, opened_token)
unfolding create_session new_session expiry_seconds set
opened_eq = refl

validate_token-create_session_example :
    (opened_token.token ≡ "a")
    × (opened_token.expires_at ≡ 0 + min (or_else (some 600) 60) 60 * 1000)
    × ((validate_token "a" 60_000 opened_manager).1 ≡ (
        if leb 60_000 60_000
        then valid (record {
          token = "a";
          config = config;
          system = "default";
          client_id = none;
          grant_id = none;
          created_at = 0;
          expires_at = 60_000;
          last_used_at = 60_000;
        })
        else invalid "Token expired"))
validate_token-create_session_example =
    validate_token-create_session limits "a" 0 config (some 600) "default" none none
      (record { sessions = []; timer = true; callback = false; notified = [] }) opened_manager
      opened_token 60_000 (λ h. cc) opened_eq

b_is_not_a : ◌≢◌ {A = String} "b" "a"
b_is_not_a h = let e : false ≡ true = (eq_iff "b" "a").1 h in absurd cc
