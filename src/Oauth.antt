-- ===== src/Oauth.antt =====
-- src/auth/oauth.ts and src/auth/grantStore.ts: the authorization server's state, the grants it
-- holds, and the events of its token and revocation endpoints. The first children
-- have the signed values, the client checks, the issuing of tokens and the endpoints, and the others
-- the proofs.
-- Random texts, digests and the clock (milliseconds, one reading for each stretch that runs without
-- waiting) are arguments. The state file of the grants is left out: the table is the memory.
pub mod Signed
pub mod Clients
pub mod Issue
pub mod Token
pub mod Revoke
pub mod Authorize
pub mod Redirects
pub mod Targets
pub mod Register
pub mod Registered
pub mod Cases
pub mod Events
pub mod Flights
pub mod Calm
pub mod Sane
pub mod Gone
pub mod Marked
pub mod Revoked
pub mod Redemption
pub mod Rotation
pub mod Replays
pub mod Forgery
mod Tests
mod AuthorizeTests
use mcp_server_db2i.Prelude.{
  ℕ, ◌+◌, String, Bool, true, false, ◌&&◌, Option, none, some, List, [], ◌∷◌, ◌++◌, map, ◌==◌, suc,
  zero, if◌then◌else◌,
}
use mcp_server_db2i.Prelude.Table.{Table}
use mcp_server_db2i.Prelude.Text.{codes, upper}
use mcp_server_db2i.Tokens.{Db2iConfig, Limits, TokenManager}

-- The settings of the OAuth server that the endpoints read.
pub record OauthConfig : Type 0 where
  pub public_url : String
  pub resource : String
  pub refresh_expiry : ℕ
  pub limits : Limits

-- What node:crypto computes: the grant key of a refresh token, the S256 challenge of a verifier, the
-- digest that safeEqual compares, and the signature of a body for a purpose.
pub record Crypto : Type 0 where
  pub grant_key : String → String
  pub s256 : String → String
  pub digest : String → String
  pub mac : String → String → String

pub record RefreshGrant : Type 0 where
  pub client_id : String
  pub grant_id : String
  pub user : List ℕ
  pub system : String
  pub config : Db2iConfig
  pub expires_at : ℕ

pub record PendingCode : Type 0 where
  pub client_id : String
  pub redirect_uri : String
  pub redirect_uri_explicit : Bool
  pub code_challenge : String
  pub system : String
  pub config : Db2iConfig
  pub pool : String
  pub expires_at : ℕ

pub record UsedCode : Type 0 where
  pub grant_id : String
  pub expires_at : ℕ

-- A grant with a refresh that waits on the IBM i sign-on.
pub record Flight : Type 0 where
  pub count : ℕ
  pub revoked : Bool

-- A refresh request that waits: its grant, its key in the store, and its client.
pub record Waiting : Type 0 where
  pub key : String
  pub grant : RefreshGrant
  pub client_id : String
  pub may_refresh : Bool

-- What happens to the pool of a credential check.
pub data PoolAction : Type 0 where
  closes : String → PoolAction
  hands_over : String → String → PoolAction

pub record OauthState : Type 0 where
  pub pending_codes : Table PendingCode
  pub refresh_grants : Table RefreshGrant
  pub used_codes : Table UsedCode
  pub refreshing : Table Flight
  pub waiting : List Waiting
  pub tokens : TokenManager
  pub pools : List PoolAction

pub data Response : Type 0 where
  failure : ℕ → String → String → Response
  issued : String → ℕ → Option String → Response
  accepted : Response

-- CODE_TTL_MS, LOGIN_TTL_MS, USED_CODE_TTL_MS, MAX_PENDING_CODES, MAX_REFRESH_GRANTS_PER_USER.
abbrev pub code_ttl_ms : ℕ
code_ttl_ms = 60_000

abbrev pub login_ttl_ms : ℕ
login_ttl_ms = 600_000

abbrev pub used_code_ttl_ms : ℕ
used_code_ttl_ms = login_ttl_ms

abbrev pub max_pending_codes : ℕ
max_pending_codes = 1000

abbrev pub max_refresh_grants_per_user : ℕ
max_refresh_grants_per_user = 10

-- `${system}\n${username.toUpperCase()}`, for names in ASCII.
unfoldable pub user_key : String → Db2iConfig → List ℕ
user_key system config = codes system ++ (10 ∷ map upper (codes config.username))

abbrev pub act : PoolAction → OauthState → OauthState
act a s = record s { pools = s.pools ++ a ∷ [] }

-- The waiting requests, by position.
unfoldable pub remove_at {ℓ} : {A : Type ℓ} → ℕ → List A → List A
remove_at i [] = []
remove_at zero (x ∷ xs) = xs
remove_at (suc i) (x ∷ xs) = x ∷ remove_at i xs

unfoldable pub get_elem? {ℓ} : {A : Type ℓ} → List A → ℕ → Option A
get_elem? [] i = none
get_elem? (x ∷ xs) zero = some x
get_elem? (x ∷ xs) (suc i) = get_elem? xs i
