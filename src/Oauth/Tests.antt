-- ===== src/Oauth/Tests.antt =====
-- src/auth/oauth.ts: the theorems at concrete inputs.
use Prim.Native.String
use mcp_server_db2i.Prelude.{◌≤◌, String, true, false, none, some, List, [], ◌∷◌, ◌≡◌, refl, arith}
use mcp_server_db2i.Prelude.Table.{get, set, delete, delete_all, keys_where, IsDistinct}
use mcp_server_db2i.Prelude.Text.{codes_eq}
use mcp_server_db2i.Tokens.{Db2iConfig, TokenManager, create_session, new_session, expiry_seconds}
use mcp_server_db2i.Oauth.{
  OauthConfig, Crypto, RefreshGrant, PendingCode, OauthState, issued, user_key,
}
use mcp_server_db2i.Oauth.Signed.{
  sign, verify_signed, split_last_dot, text_length, sign_body, max_signed_value_length,
}
use mcp_server_db2i.Oauth.Clients.{
  ClientPayload, RegisteredClient, authenticated, check_client, client_secret_for, read_client,
  has_secret, as_client,
}
use mcp_server_db2i.Oauth.Issue.{
  Draws, revoke_sign_in, store_grant, issue_refresh, issue_tokens, evict_own, sweep_expired,
}
use mcp_server_db2i.Oauth.Token.{
  Caller, Exchange, passed, exchange_code, begin_refresh, bad_code, bad_refresh, redeem, use_up,
  replay, verifier_matches, is_code_verifier, start_refresh,
}
use mcp_server_db2i.Oauth.Events.{Event, exchanges, begins, finishes, run}
use mcp_server_db2i.Oauth.Flights.{IsFlying, waiting_of}
use mcp_server_db2i.Oauth.Calm.{run-IsFlying}
use mcp_server_db2i.Oauth.Gone.{IsGone}
use mcp_server_db2i.Oauth.Revoked.{AllForeign, IsOver, run-revoke_sign_in}
use mcp_server_db2i.Oauth.Redemption.{
  IsEntitled, exchange_code-IsEntitled, AllOther, exchange_code-exchange_code,
}
use mcp_server_db2i.Oauth.Sane.{IsSane}
use mcp_server_db2i.Oauth.Replays.{run-exchange_code_replay}
use mcp_server_db2i.Oauth.Rotation.{IsTaken, begin_refresh-begin_refresh}
use mcp_server_db2i.Oauth.Forgery.{IsProven, check_client-IsProven}

-- Digests and keys that are the texts themselves, and signatures that start with the purpose.
abbrev crypto : Crypto
crypto = record {
  grant_key = λ t. t;
  s256 = λ t. t;
  digest = λ t. t;
  mac = λ purpose body. String.◌++◌ purpose body;
}

abbrev settings : OauthConfig
settings = record {
  public_url = "https://mcp";
  resource = "https://mcp/mcp";
  refresh_expiry = 3600;
  limits = record { max_sessions = 5; token_expiry = 60 };
}

abbrev config : Db2iConfig
config = record {
  hostname = "ibmi";
  port = 446;
  username = "bob";
  password = "secret";
  database = "*LOCAL";
  schema = "LIB";
  driver = "jdbc";
  jdbc_options = [];
  odbc_options = [];
  mapepire_options = none;
  query_timeout = none;
}

abbrev verifier : String
verifier = "0123456789012345678901234567890123456789abc"

abbrev caller : Caller
caller = record { client_id = "client"; may_refresh = true }

abbrev pending : PendingCode
pending = record {
  client_id = "client";
  redirect_uri = "https://app/cb";
  redirect_uri_explicit = true;
  code_challenge = verifier;
  system = "default";
  config = config;
  pool = "p";
  expires_at = 60_000;
}

abbrev exchange : Exchange
exchange = record {
  code = some "code";
  redirect_uri = some "https://app/cb";
  code_verifier = some verifier;
}

abbrev manager : TokenManager
manager = record { sessions = []; timer = true; callback = true; notified = [] }

abbrev with_code : OauthState
with_code = record {
  pending_codes = ("code", pending) ∷ [];
  refresh_grants = [];
  used_codes = [];
  refreshing = [];
  waiting = [];
  tokens = manager;
  pools = [];
}

abbrev draws : Draws
draws = record { access = "access"; refresh = "refresh" }

redeems :
    (exchange_code crypto settings caller exchange "g" draws 1000 with_code).1
    ≡ issued "access" 60 (some "refresh")
unfolding exchange_code use_up replay redeem verifier_matches is_code_verifier issue_tokens
    create_session new_session expiry_seconds issue_refresh store_grant evict_own sweep_expired get
    set delete delete_all keys_where user_key codes_eq
redeems = refl

exchange_code-IsEntitled_example : IsEntitled crypto settings caller exchange 1000 with_code
exchange_code-IsEntitled_example =
    exchange_code-IsEntitled crypto settings caller exchange "g" draws 1000 with_code "access" 60
      (some "refresh") redeems

abbrev again : List Event
again = exchanges caller exchange "h" draws 2000 ∷ begins caller (some "refresh") 3000 ∷ []

again-AllOther : AllOther "code" again
unfolding AllOther
again-AllOther = (refl, (refl, tt))

exchange_code-exchange_code_example :
    (exchange_code crypto settings caller exchange "i" draws 4000 (
      run crypto settings
        (exchange_code crypto settings caller exchange "g" draws 1000 with_code).0
        again)).1
    ≡ bad_code
exchange_code-exchange_code_example =
    exchange_code-exchange_code crypto settings "code" with_code again caller caller exchange
      exchange "g" "i" draws draws 1000 4000 refl refl again-AllOther

with_code-IsSane : IsSane crypto settings with_code
unfolding IsDistinct get
with_code-IsSane =
    (tt, record { distinct = tt; bounded = omega arith; sound = λ k s found. absurd cc })

-- A refresh begins between the exchange of the code and its replay.
abbrev between : List Event
between = begins caller (some "refresh") 2000 ∷ []

between-AllOther : AllOther "code" between
unfolding AllOther
between-AllOther = (refl, tt)

abbrev replayed : OauthState
replayed = run crypto settings with_code (exchanges caller exchange "g" draws 1000 ∷ between)

still_known :
    get "code" replayed.used_codes ≡ some (record { grant_id = "g"; expires_at = 601_000 })
unfolding run exchange_code use_up replay redeem verifier_matches is_code_verifier issue_tokens
    create_session new_session expiry_seconds issue_refresh store_grant evict_own sweep_expired get
    set delete delete_all keys_where user_key codes_eq begin_refresh start_refresh
still_known = refl

run-exchange_code_replay_example :
    IsGone "g" (exchange_code crypto settings caller exchange "h" draws 5000 replayed).0
run-exchange_code_replay_example =
    run-exchange_code_replay crypto settings caller caller exchange exchange "code" "g" "h" draws
      draws 1000 5000 with_code between "access" 60 (some "refresh")
      (record { grant_id = "g"; expires_at = 601_000 }) refl refl redeems with_code-IsSane
      between-AllOther still_known (omega arith)

abbrev grant : RefreshGrant
grant = record {
  client_id = "client";
  grant_id = "g";
  user = [];
  system = "default";
  config = config;
  expires_at = 90_000;
}

abbrev with_grant : OauthState
with_grant = record {
  pending_codes = [];
  refresh_grants = ("refresh", grant) ∷ [];
  used_codes = [];
  refreshing = [];
  waiting = [];
  tokens = manager;
  pools = [];
}

waits : (begin_refresh crypto settings caller (some "refresh") 1000 with_grant).1 ≡ none
unfolding begin_refresh start_refresh get
waits = refl

begin_refresh-begin_refresh_example :
    IsTaken crypto settings caller "refresh" 1000 with_grant
      (begin_refresh crypto settings caller (some "refresh") 1000 with_grant).0
    × ((begin_refresh crypto settings caller
          (some "refresh")
          2000
          (begin_refresh crypto settings caller (some "refresh") 1000 with_grant).0).1
        ≡ some bad_refresh)
begin_refresh-begin_refresh_example =
    begin_refresh-begin_refresh crypto settings caller caller "refresh" 1000 2000 with_grant refl
      waits

-- A refresh of the sign-in "g" waits, and its session is open.
abbrev in_flight : OauthState
in_flight = record {
  pending_codes = [];
  refresh_grants = ("other", grant) ∷ [];
  used_codes = [];
  refreshing = ("g", record { count = 1; revoked = false }) ∷ [];
  waiting =
      record { key = "refresh"; grant = grant; client_id = "client"; may_refresh = true } ∷ [];
  tokens = manager;
  pools = [];
}

in_flight-IsFlying : IsFlying in_flight.refreshing in_flight.waiting
unfolding waiting_of get
in_flight-IsFlying h = ground arith

in_flight-grants : IsDistinct in_flight.refresh_grants
unfolding IsDistinct get
in_flight-grants = (refl, tt)

in_flight-sessions : IsDistinct in_flight.tokens.sessions
unfolding IsDistinct
in_flight-sessions = tt

-- The refresh that was waiting when the sign-in was revoked finishes with a good check.
abbrev later : List Event
later = begins caller (some "other") 1000 ∷ finishes 0 (passed "p") draws 2000 ∷ []

later-AllForeign : AllForeign "g" later
unfolding AllForeign
later-AllForeign = (refl, (refl, tt))

run-revoke_sign_in_example : IsOver "g" (run crypto settings (revoke_sign_in "g" in_flight) later)
run-revoke_sign_in_example =
    run-revoke_sign_in crypto settings "g" in_flight later in_flight-grants in_flight-sessions
      in_flight-IsFlying later-AllForeign

run-IsFlying_example :
    IsFlying
      (run crypto settings in_flight later).refreshing
      (run crypto settings in_flight later).waiting
run-IsFlying_example = run-IsFlying crypto settings in_flight later in_flight-IsFlying

signature_plain : split_last_dot "clientpayload" ≡ none
unfolding split_last_dot
signature_plain = refl

short_enough :
    text_length (sign {P = String} crypto "client" (λ t. t) "payload") ≤ max_signed_value_length
unfolding text_length sign sign_body
short_enough = omega arith

abbrev payload : ClientPayload
payload = record {
  version = some 1;
  redirect_uris = some ("https://app/cb" ∷ []);
  grant_types = some ("authorization_code" ∷ []);
  auth_method = some "client_secret_post";
}

abbrev client : RegisteredClient
client = record {
  redirect_uris = "https://app/cb" ∷ [];
  grant_types = "authorization_code" ∷ [];
  auth_method = "client_secret_post";
}

signed_in :
    check_client crypto
      (λ t. some payload)
      false
      (some "body.clientbody")
      (some "client-secretbody.clientbody")
    ≡ authenticated "body.clientbody" client
unfolding check_client read_client has_secret client_secret_for as_client verify_signed text_length
    split_last_dot
signed_in = refl

check_client-IsProven_example :
    IsProven crypto
      (λ t. some payload)
      (some "body.clientbody")
      (some "client-secretbody.clientbody")
      "body.clientbody"
      client
check_client-IsProven_example =
    check_client-IsProven crypto (λ t. some payload) false (some "body.clientbody")
      (some "client-secretbody.clientbody") "body.clientbody" client signed_in
