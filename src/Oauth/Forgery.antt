-- ===== src/Oauth/Forgery.antt =====
-- src/auth/oauth.ts: the acceptance of signed values and of clients.
use Prim.Native.Char.{Char, code}
use Prim.Native.String
use text.Mathlib.TextLemmas.{cons-append, nil-append}
use mcp_server_db2i.Prelude.{
  ◌≤◌, String, Bool, true, false, Option, none, some, ◌≡◌, ◌∙◌, refl, ap, inl, inr, arith, ltb,
  str_eq, eq_iff, Option-cases, Bool-cases, ◌⊎◌, subst₂,
}
use mcp_server_db2i.Oauth.{Crypto}
use mcp_server_db2i.Oauth.Signed.{
  max_signed_value_length, text_length, split_last_dot, safe_equal, sign_body, sign, open_parts,
  verify_signed,
}
use mcp_server_db2i.Oauth.Clients.{
  ClientPayload, RegisteredClient, authenticated, read_client, client_secret_for, has_secret,
  check_client, present,
}

split_last_dot_first :
    (c : Char) (d rest : String)
    → code c ≡ 46
    → split_last_dot rest ≡ none
    → d ≡ String.◌∷◌ c ""
    → split_last_dot (String.◌++◌ d rest) ≡ some ("", rest)
unfolding split_last_dot
split_last_dot_first c d rest dot h e =
    ap (λ (t : String). split_last_dot (String.◌++◌ t rest)) e
    ∙ ap split_last_dot
        (cons-append c "" rest ∙ ap (λ (t : String). String.◌∷◌ c t) (nil-append rest))
    ∙ rw (h, split_last_dot) (rw dot refl)

split_last_dot_dot :
    (rest : String)
    → split_last_dot rest ≡ none
    → split_last_dot (String.◌++◌ "." rest) ≡ some ("", rest)
split_last_dot_dot rest h = split_last_dot_first _ "." rest refl h refl

-- A text without a dot after another text and a dot: the last dot is that one.
split_last_dot_join :
    (body rest : String)
    → split_last_dot rest ≡ none
    → split_last_dot (String.◌++◌ body (String.◌++◌ "." rest)) ≡ some (body, rest)
unfolding split_last_dot
split_last_dot_join String.[] rest h =
    ap split_last_dot (nil-append (String.◌++◌ "." rest)) ∙ split_last_dot_dot rest h
split_last_dot_join (String.◌∷◌ c body) rest h =
    ap split_last_dot (cons-append c body (String.◌++◌ "." rest))
    ∙ rw (split_last_dot_join body rest h, split_last_dot) refl

module _ {ℓ} {P : Type ℓ} (x : Crypto) (purpose : String) where
  -- A value that the server signed is accepted with its payload for the purpose it was signed for, if it
  -- is short enough, its encoded payload is not empty and its signature has no dot, and the payload is
  -- read back from its text.
  pub verify_signed-sign :
      (encode : P → String) (decode : String → Option P) (payload : P)
      → decode (encode payload) ≡ some payload
      → str_eq (encode payload) "" ≡ false
      → split_last_dot (x.mac purpose (encode payload)) ≡ none
      → text_length (sign x purpose encode payload) ≤ max_signed_value_length
      → verify_signed x purpose decode (sign x purpose encode payload) ≡ some payload
  unfolding verify_signed sign sign_body
  verify_signed-sign encode decode payload reads full plain short =
      let body = encode payload in
      let m = x.mac purpose body in
      let room : ltb max_signed_value_length (text_length (sign_body x purpose body)) ≡ false =
        ground arith in
      let parts = split_last_dot_join body m plain in
      let equal : str_eq (x.digest m) (x.digest m) ≡ true =
        (eq_iff (x.digest m) (x.digest m)).1 refl in
      rw (room, parts, verify_signed, sign, sign_body) (rw (full, equal) reads)

-- What an accepted signed value shows: its body, and a signature with the digest that the server's
-- own signature of the body for this purpose has.
pub record IsSigned {ℓ} {P : Type ℓ} (x : Crypto) (purpose : String) (decode : String → Option P)
    (value : String) (payload : P) : Type ℓ where
  pub body : String
  pub signature : String
  pub parts : split_last_dot value ≡ some (body, signature)
  pub right : x.digest signature ≡ x.digest (x.mac purpose body)
  pub means : decode body ≡ some payload

module _ {ℓ} {P : Type ℓ} (x : Crypto) (purpose : String) (decode : String → Option P) where
  open_parts-IsSigned :
      (value : String) (payload : P) (body signature : String)
      → split_last_dot value ≡ some (body, signature)
      → open_parts x purpose decode (some (body, signature)) ≡ some payload
      → IsSigned x purpose decode value payload
  open_parts-IsSigned value payload body signature parts h = elim (Bool-cases (str_eq body "")) [
    | inl empty ↦ absurd (ground (arith, rw empty at h))
    | inr full ↦ elim (Bool-cases (safe_equal x signature (x.mac purpose body))) [
      | inr wrong ↦ absurd (ground (arith, rw (full, wrong) at h))
      | inl right ↦ record {
        body = body;
        signature = signature;
        parts = parts;
        right = (eq_iff (x.digest signature) (x.digest (x.mac purpose body))).0 right;
        means = rw (full, right) at h;
      }
    ]
  ]

  verify_signed-IsSigned :
      (value : String) (payload : P)
      → verify_signed x purpose decode value ≡ some payload
      → IsSigned x purpose decode value payload
  unfolding verify_signed
  verify_signed-IsSigned value payload h =
      elim (Bool-cases (ltb max_signed_value_length (text_length value))) [
        | inl long ↦ absurd (ground (arith, rw (long, verify_signed) at h))
        | inr short ↦ elim (Option-cases (split_last_dot value)) [
          | inl none_found ↦ absurd (ground (arith, rw (short, none_found, verify_signed) at h))
          | inr ((body, signature), parts) ↦
              open_parts-IsSigned value payload body signature parts
                (rw (short, parts, verify_signed) at h)
        ]
      ]

module _ (x : Crypto) (decode : String → Option ClientPayload) where
  -- What an authenticated request shows of the client ID and the client.
  pub IsProven : Option String → Option String → String → RegisteredClient → Type 0
  IsProven client_id secret id client =
      (present client_id ≡ some id)
      × ((p : ClientPayload) × IsSigned x "client" decode id p)
      × ((client.auth_method ≡ "none")
          ⊎ ((given : String) × (present secret ≡ some given)
              × (x.digest given ≡ x.digest (client_secret_for x decode id))))

  has_secret_shown :
      (id : String) (client : RegisteredClient) (secret : Option String)
      → has_secret x decode id client secret ≡ true
      → (client.auth_method ≡ "none")
        ⊎ ((given : String) × (present secret ≡ some given)
            × (x.digest given ≡ x.digest (client_secret_for x decode id)))
  unfolding has_secret
  has_secret_shown id client secret h = elim (Bool-cases (str_eq client.auth_method "none")) [
    | inl public ↦ inl ((eq_iff client.auth_method "none").0 public)
    | inr confidential ↦ elim (Option-cases (present secret)) [
      | inl missing ↦ absurd (ground (arith, rw (confidential, missing, has_secret) at h))
      | inr (given, sent) ↦ inr (
        given,
        sent,
        (eq_iff (x.digest given) (x.digest (client_secret_for x decode id))).0
            (rw (confidential, sent, has_secret) at h),
      )
    ]
  ]

  read_client_shown :
      (id : String) (client : RegisteredClient)
      → read_client x decode id ≡ some client
      → (p : ClientPayload) × IsSigned x "client" decode id p
  unfolding read_client
  read_client_shown id client h = elim (Option-cases (verify_signed x "client" decode id)) [
    | inl bad ↦ absurd (ground (arith, rw (bad, read_client) at h))
    | inr (p, good) ↦ (p, verify_signed-IsSigned x "client" decode id p good)
  ]

  -- A client that is authenticated sent a client ID that the server signed, and, unless the client's
  -- method says that it has no secret, the secret with the digest of the one derived from the ID.
  pub check_client-IsProven :
      (basic : Bool) (client_id secret : Option String) (id : String) (client : RegisteredClient)
      → check_client x decode basic client_id secret ≡ authenticated id client
      → IsProven client_id secret id client
  unfolding check_client IsProven
  check_client-IsProven basic client_id secret id client h =
      elim (Option-cases (present client_id)) [
        | inl missing ↦ absurd (ground (arith, rw (missing, check_client) at h))
        | inr (i, sent) ↦ elim (Option-cases (read_client x decode i)) [
          | inl unknown ↦ absurd (ground (arith, rw (sent, unknown, check_client) at h))
          | inr (c, known) ↦ elim (Bool-cases (has_secret x decode i c secret)) [
            | inr wrong ↦ absurd (ground (arith, rw (sent, known, wrong, check_client) at h))
            | inl right ↦
                let same : authenticated i c ≡ authenticated id client =
                  rw (sent, known, right, check_client) at h in
                let id_same : i ≡ id = cc in
                let client_same : c ≡ client = cc in
                subst₂ (IsProven client_id secret) id_same client_same
                  (sent, read_client_shown i c known, has_secret_shown i c secret right)
          ]
        ]
      ]
