-- ===== src/Oauth/Targets.antt =====
-- src/auth/oauth.ts and hostnameOf of src/config.ts: what an allowed redirect URI looks like.
use mcp_server_db2i.Prelude.{
  ℕ, String, true, ◌&&◌, Option, some, List, [], ◌∷◌, ◌++◌, ◌≡◌, refl, sym, ap, inl, inr, ◌⊎◌,
  arith, any, ◌==◌, Bool-cases, Option-cases,
}
use mcp_server_db2i.Prelude.Text.{codes, codes_eq, codes_eq_iff}
use mcp_server_db2i.Oauth.Clients.{RegisteredClient, includes}
use mcp_server_db2i.Oauth.Authorize.{
  Url, is_nil, hostname_of, loopback_hosts, is_one_of, is_loopback_host, entry_allows, is_http,
  url_allowed, is_redirect_uri_allowed,
}

-- The URL is an entry of the allowlist, or starts with what stands before an entry's last `*`.
abbrev pub IsEntry : List ℕ → List ℕ → Type 0
IsEntry entry href =
    (entry ≡ href)
    ⊎ ((start : List ℕ) × (rest : List ℕ) × (entry ≡ start ++ b'*' ∷ []) × (href ≡ start ++ rest))

abbrev pub IsListed : List (List ℕ) → List ℕ → Type 0
IsListed [] href = ⊥
IsListed (entry ∷ entries) href = IsEntry entry href ⊎ IsListed entries href

-- An http or https URL whose host name is one of this machine.
pub record IsLocal (u : Url) : Type 0 where
  pub web : (u.protocol ≡ codes "http:") ⊎ (u.protocol ≡ codes "https:")
  pub host : List ℕ
  pub named : hostname_of u.hostname ≡ some host
  pub here : (host ≡ codes "localhost") ⊎ (host ≡ codes "127.0.0.1") ⊎ (host ≡ codes "::1")

-- A URL that an authorization code may be sent to.
pub record IsSafe (allowlist : List (List ℕ)) (u : Url) : Type 0 where
  pub no_fragment : u.hash ≡ []
  pub no_user : u.username ≡ []
  pub no_password : u.password ≡ []
  pub reached : IsLocal u ⊎ IsListed allowlist u.href

is_nil_empty : (s : List ℕ) → is_nil s ≡ true → s ≡ []
is_nil_empty [] h = refl
is_nil_empty (c ∷ s) h = cc

only_star : (e : ℕ) (es : List ℕ) → (e == b'*' && is_nil es) ≡ true → e ∷ es ≡ b'*' ∷ []
only_star e [] h = ap (λ (c : ℕ). c ∷ []) (ground (arith, h))
only_star e (c ∷ es) h = absurd (ground (arith, h))

longer-IsEntry : (e c : ℕ) (es s : List ℕ) → e ≡ c → IsEntry es s → IsEntry (e ∷ es) (c ∷ s)
longer-IsEntry e c es s same (inl whole) = inl (rw (same, whole) refl)
longer-IsEntry e c es s same (inr (start, rest, p, q)) =
    inr (c ∷ start, rest, rw (same, p) refl, ap (λ (u : List ℕ). c ∷ u) q)

entry_allows-IsEntry : (entry href : List ℕ) → entry_allows entry href ≡ true → IsEntry entry href
unfolding entry_allows
entry_allows-IsEntry [] [] h = inl refl
entry_allows-IsEntry [] (c ∷ s) h = cc
entry_allows-IsEntry (e ∷ es) [] h = elim (Bool-cases (e == b'*' && is_nil es)) [
  | inl star ↦ inr ([], [], only_star e es star, refl)
  | inr other ↦ absurd (let bad = rw (other, entry_allows) at h in cc)
]
entry_allows-IsEntry (e ∷ es) (c ∷ s) h = elim (Bool-cases (e == b'*' && is_nil es)) [
  | inl star ↦ inr ([], c ∷ s, only_star e es star, refl)
  | inr other ↦
      let both : (e == c && entry_allows es s) ≡ true = rw (other, entry_allows) at h in
      longer-IsEntry e c es s (ground (arith, both))
        (entry_allows-IsEntry es s (ground (arith, both)))
]

found_entry :
    (entries : List (List ℕ)) (href : List ℕ)
    → any (λ (entry : List ℕ). entry_allows entry href) entries ≡ true
    → IsListed entries href
found_entry [] href h = cc
found_entry (entry ∷ entries) href h = elim (Bool-cases (entry_allows entry href)) [
  | inl this ↦ inl (entry_allows-IsEntry entry href this)
  | inr other ↦ inr (found_entry entries href (ground (arith, h, other)))
]

web_protocol : (p : List ℕ) → is_http p ≡ true → (p ≡ codes "http:") ⊎ (p ≡ codes "https:")
web_protocol p h = elim (Bool-cases (codes_eq (codes "http:") p)) [
  | inl plain ↦ inl (sym ((codes_eq_iff (codes "http:") p).0 plain))
  | inr other ↦ inr (sym ((codes_eq_iff (codes "https:") p).0 (ground (arith, h, other))))
]

loopback_name :
    (s : List ℕ)
    → is_one_of loopback_hosts s ≡ true
    → (s ≡ codes "localhost") ⊎ (s ≡ codes "127.0.0.1") ⊎ (s ≡ codes "::1")
loopback_name s h = elim (Bool-cases (codes_eq (codes "localhost") s)) [
  | inl a ↦ inl (sym ((codes_eq_iff (codes "localhost") s).0 a))
  | inr x ↦ elim (Bool-cases (codes_eq (codes "127.0.0.1") s)) [
    | inl b ↦ inr (inl (sym ((codes_eq_iff (codes "127.0.0.1") s).0 b)))
    | inr y ↦ inr (inr (sym ((codes_eq_iff (codes "::1") s).0 (ground (arith, h, x, y)))))
  ]
]

this_machine :
    (u : Url) → is_http u.protocol ≡ true → is_loopback_host u.hostname ≡ true → IsLocal u
unfolding is_loopback_host
this_machine u w h = elim (Option-cases (hostname_of u.hostname)) [
  | inl missing ↦ absurd (ground (arith, rw (missing, is_loopback_host) at h))
  | inr (host, found) ↦ record {
    web = web_protocol u.protocol w;
    host = host;
    named = found;
    here = loopback_name host (rw (found, is_loopback_host) at h);
  }
]

allowed_facts :
    (allowlist : List (List ℕ)) (u : Url)
    → url_allowed allowlist (some u) ≡ true
    → IsSafe allowlist u
allowed_facts allowlist u h = record {
  no_fragment = is_nil_empty u.hash (ground (arith, h));
  no_user = is_nil_empty u.username (ground (arith, h));
  no_password = is_nil_empty u.password (ground (arith, h));
  reached = elim (Bool-cases (is_http u.protocol && is_loopback_host u.hostname)) [
    | inl local ↦ inl (this_machine u (ground (arith, local)) (ground (arith, local)))
    | inr far ↦ inr (found_entry allowlist u.href (ground (arith, h, far)))
  ];
}

-- A URI that the client registered, which parses as such a URL.
pub record IsRegistered (parse_url : String → Option Url) (allowlist : List (List ℕ))
    (client : RegisteredClient) (uri : String) : Type 0 where
  pub registered : includes client.redirect_uris uri ≡ true
  pub url : Url
  pub parsed : parse_url uri ≡ some url
  pub safe : IsSafe allowlist url

pub open_uri :
    (parse_url : String → Option Url) (allowlist : List (List ℕ)) (client : RegisteredClient)
    (uri : String)
    → (includes client.redirect_uris uri && is_redirect_uri_allowed parse_url uri allowlist) ≡ true
    → IsRegistered parse_url allowlist client uri
unfolding is_redirect_uri_allowed
open_uri parse_url allowlist client uri h = elim (Option-cases (parse_url uri)) [
  | inl bad ↦ absurd (ground (arith, rw (bad, is_redirect_uri_allowed) at h))
  | inr (u, found) ↦ record {
    registered = ground (arith, h);
    url = u;
    parsed = found;
    safe = allowed_facts allowlist u (ground (arith, rw (found, is_redirect_uri_allowed) at h));
  }
]
