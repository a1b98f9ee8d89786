-- ===== src/Oauth/Flights.antt =====
-- src/auth/oauth.ts: the entries that count the refreshes of a grant that wait.
use mcp_server_db2i.Prelude.{
  ℕ, zero, suc, ◌+◌, ◌-◌, String, Bool, true, false, Option, none, some, List, [], ◌∷◌, ◌≡◌, inl,
  inr, arith, Option-cases, if◌then◌else◌, str_eq, eq_iff, or_else,
}
use mcp_server_db2i.Prelude.Table.{Table, get, get-set, get-delete}
use mcp_server_db2i.Oauth.{
  OauthConfig, Crypto, RefreshGrant, Flight, Waiting, OauthState, remove_at, get_elem?,
}
use mcp_server_db2i.Oauth.Issue.{mark_flight}
use mcp_server_db2i.Oauth.Token.{Caller, land}
use mcp_server_db2i.Oauth.Cases.{taking_off}

abbrev pub is_of : String → Waiting → Bool
is_of g w = str_eq w.grant.grant_id g

-- How many refreshes of a grant wait.
unfoldable pub waiting_of : String → List Waiting → ℕ
waiting_of g [] = 0
waiting_of g (w ∷ ws) = (if is_of g w then 1 else 0) + waiting_of g ws

abbrev pub flight_count : Option Flight → ℕ
flight_count none = 0
flight_count (some f) = f.count

abbrev pub flight_revoked : Option Flight → Bool
flight_revoked none = false
flight_revoked (some f) = f.revoked

-- The entry of each grant counts the refreshes of that grant that wait.
abbrev pub IsFlying : Table Flight → List Waiting → Type 0
IsFlying flights ws = (g : String) → flight_count (get g flights) ≡ waiting_of g ws

pub waiting_of-remove_at :
    (g : String) (i : ℕ) (ws : List Waiting) (w : Waiting)
    → get_elem? ws i ≡ some w
    → waiting_of g (remove_at i ws) + (if is_of g w then 1 else 0) ≡ waiting_of g ws
unfolding waiting_of remove_at get_elem?
waiting_of-remove_at g i [] w e = cc
waiting_of-remove_at g zero (v ∷ ws) w e = ground arith
waiting_of-remove_at g (suc i) (v ∷ ws) w e = omega (arith, waiting_of-remove_at g i ws w e)

pub flight_count-mark_flight :
    (g h : String) (flights : Table Flight)
    → flight_count (get g (mark_flight h flights)) ≡ flight_count (get g flights)
unfolding mark_flight
flight_count-mark_flight g h flights = elim (Option-cases (get h flights)) [
  | inl missing ↦ rw (missing, mark_flight)
  | inr (f, found) ↦
      rw (found, mark_flight)
        (ground (arith, get-set h g (record f { revoked = true }) flights, eq_iff h g))
]

-- A mark is never taken off, and the marked grant's entry has it.
pub flight_revoked-mark_flight :
    (g h : String) (flights : Table Flight)
    → flight_revoked (get g flights) ≡ true
    → flight_revoked (get g (mark_flight h flights)) ≡ true
unfolding mark_flight
flight_revoked-mark_flight g h flights old = elim (Option-cases (get h flights)) [
  | inl missing ↦ rw (missing, mark_flight) old
  | inr (f, found) ↦
      rw (found, mark_flight) (ground (arith, get-set h g (record f { revoked = true }) flights))
]

pub taking_off-IsFlying :
    (x : Crypto) (o : OauthConfig) (caller : Caller) (key : String) (grant : RefreshGrant)
    (s : OauthState)
    → IsFlying s.refreshing s.waiting
    → IsFlying
        (taking_off x o caller key grant s).refreshing
        (taking_off x o caller key grant s).waiting
unfolding waiting_of
taking_off-IsFlying x o caller key grant s f g =
    let here = f grant.grant_id in
    let there = f g in
    elim (Option-cases (get grant.grant_id s.refreshing)) [
      | inl missing ↦ rw missing (
          ground (
            arith,
            rw missing at here,
            get-set grant.grant_id g (record { count = 1; revoked = false }) s.refreshing,
            eq_iff grant.grant_id g,
          ))
      | inr (v, found) ↦ rw found (
          ground (
            arith,
            rw found at here,
            get-set grant.grant_id g (record v { count = v.count + 1 }) s.refreshing,
            eq_iff grant.grant_id g,
          ))
    ]

pub land-IsFlying :
    (i : ℕ) (w : Waiting) (s : OauthState)
    → get_elem? s.waiting i ≡ some w
    → IsFlying s.refreshing s.waiting
    → IsFlying
        (land w.grant.grant_id
          (or_else (get w.grant.grant_id s.refreshing) (record { count = 1; revoked = false }))
          s.refreshing)
        (remove_at i s.waiting)
unfolding land
land-IsFlying i w s e f g =
    let h : String = w.grant.grant_id in
    let here = f h in
    let there = f g in
    let one = waiting_of-remove_at h i s.waiting w e in
    let all = waiting_of-remove_at g i s.waiting w e in
    elim (Option-cases (get h s.refreshing)) [
      | inl missing ↦
          rw (missing, land)
            (ground
              (arith, rw missing at here, get-delete h g s.refreshing, eq_iff h g, eq_iff h h))
      | inr (v, found) ↦
          rw (found, land)
            (ground (
              arith,
              rw found at here,
              get-delete h g s.refreshing,
              eq_iff h g,
              eq_iff h h,
              get-set h g (record v { count = v.count - 1 }) s.refreshing,
            ))
    ]
