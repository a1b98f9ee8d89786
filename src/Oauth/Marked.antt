-- ===== src/Oauth/Marked.antt =====
-- src/auth/oauth.ts: the marks on the refreshes of a sign-in that wait.
use mcp_server_db2i.Prelude.{
  ℕ, ◌+◌, ◌-◌, String, true, false, none, some, List, ◌≡◌, ◌∙◌, refl, sym, ap, inl, inr, arith,
  Option-cases, Bool-cases, if◌then◌else◌, str_eq, eq_iff, or_else, ◌==◌, subst, ◌⊎◌,
}
use mcp_server_db2i.Prelude.Table.{Table, get, get-set, get-delete}
use mcp_server_db2i.Oauth.{
  OauthConfig, Crypto, RefreshGrant, Flight, Waiting, OauthState, remove_at, get_elem?,
}
use mcp_server_db2i.Oauth.Issue.{mark_flight}
use mcp_server_db2i.Oauth.Token.{Caller, land}
use mcp_server_db2i.Oauth.Cases.{taking_off}
use mcp_server_db2i.Oauth.Flights.{waiting_of, flight_revoked, IsFlying, waiting_of-remove_at}
use mcp_server_db2i.Oauth.Calm.{IsCalm}

-- Every refresh of the sign-in that waits is marked.
abbrev pub IsMarked : String → Table Flight → List Waiting → Type 0
IsMarked g flights ws = (waiting_of g ws ≡ 0) ⊎ (flight_revoked (get g flights) ≡ true)

pub get-land :
    (g h : String) (f : Flight) (flights : Table Flight)
    → get g (land h f flights) ≡ (
        if str_eq h g
        then (if f.count - 1 == 0 then none else some (record f { count = f.count - 1 }))
        else get g flights)
unfolding land
get-land g h f flights =
    ground (arith, get-delete h g flights, get-set h g (record f { count = f.count - 1 }) flights)

module _ (g : String) where
  pub calm-IsMarked :
      {s t : OauthState}
      → IsCalm s t
      → IsMarked g s.refreshing s.waiting
      → IsMarked g t.refreshing t.waiting
  calm-IsMarked c (inl none_waits) = inl (ap (waiting_of g) c.waiting ∙ none_waits)
  calm-IsMarked c (inr marked) = inr (c.marks g marked)

  pub taking_off-IsMarked :
      (x : Crypto) (o : OauthConfig) (caller : Caller) (key : String) (grant : RefreshGrant)
      (s : OauthState)
      → str_eq grant.grant_id g ≡ false
      → IsMarked g s.refreshing s.waiting
      → IsMarked g
          (taking_off x o caller key grant s).refreshing
          (taking_off x o caller key grant s).waiting
  unfolding waiting_of
  taking_off-IsMarked x o caller key grant s other m =
      let flight : Flight =
        or_else (get grant.grant_id s.refreshing) (record { count = 0; revoked = false }) in
      let placed =
        rw other at
          (get-set grant.grant_id g (record flight { count = flight.count + 1 }) s.refreshing) in
      elim m [
        | inl none_waits ↦ inl (rw other (omega arith))
        | inr marked ↦ inr (ap flight_revoked placed ∙ marked)
      ]

  pub land-IsMarked :
      (i : ℕ) (w : Waiting) (s : OauthState)
      → get_elem? s.waiting i ≡ some w
      → IsFlying s.refreshing s.waiting
      → IsMarked g s.refreshing s.waiting
      → IsMarked g
          (land w.grant.grant_id
            (or_else (get w.grant.grant_id s.refreshing) (record { count = 1; revoked = false }))
            s.refreshing)
          (remove_at i s.waiting)
  unfolding land
  land-IsMarked i w s e f m =
      let h : String = w.grant.grant_id in
      let one = waiting_of-remove_at g i s.waiting w e in
      let here = f g in
      elim (Bool-cases (str_eq h g)) [
        | inr other ↦ elim m [
          | inl none_waits ↦ inl (omega arith)
          | inr marked ↦ inr (
              ap flight_revoked (
                rw other at (
                  get-land g h
                    (or_else (get h s.refreshing) (record { count = 1; revoked = false }))
                    s.refreshing))
              ∙ marked)
        ]
        | inl same ↦ elim m [
          | inl none_waits ↦ absurd (ground (arith, one))
          | inr marked ↦
              subst
                (λ (k : String).
                  IsMarked g
                    (land k (or_else (get k s.refreshing) (record { count = 1; revoked = false }))
                      s.refreshing)
                    (remove_at i s.waiting))
                (sym ((eq_iff h g).0 same))
                (elim (Option-cases (get g s.refreshing)) [
                  | inl missing ↦ absurd (ground arith)
                  | inr (v, found) ↦ elim (Bool-cases (v.count - 1 == 0)) [
                    | inl last ↦ inl (ground (arith, one, here))
                    | inr more ↦
                        inr (rw (found, get-land g g v s.refreshing) (ground (arith, eq_iff g g)))
                  ]
                ])
        ]
      ]

pub revoke_sign_in-IsMarked :
    (g : String) (flights : Table Flight) (ws : List Waiting)
    → IsFlying flights ws
    → IsMarked g (mark_flight g flights) ws
unfolding mark_flight
revoke_sign_in-IsMarked g flights ws f = elim (Option-cases (get g flights)) [
  | inl missing ↦ inl (sym (f g) ∙ rw missing refl)
  | inr (v, found) ↦ inr (
      rw (found, mark_flight)
        (ground (arith, get-set g g (record v { revoked = true }) flights, eq_iff g g)))
]
