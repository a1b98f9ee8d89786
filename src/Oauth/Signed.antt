-- ===== src/Oauth/Signed.antt =====
-- src/auth/oauth.ts: sign and verifySigned. A payload is written and read by functions that stand
-- for JSON in base64url.
use Prim.Native.Char.{code}
use Prim.Native.String
use mcp_server_db2i.Prelude.{
  ℕ, ◌+◌, String, Bool, Option, none, some, ltb, ◌==◌, if◌then◌else◌, str_eq,
}
use mcp_server_db2i.Oauth.{Crypto}

abbrev pub max_signed_value_length : ℕ
max_signed_value_length = 16384

-- The length of a text in UTF-16 code units.
unfoldable pub text_length : String → ℕ
text_length String.[] = 0
text_length (String.◌∷◌ c s) = (if ltb (code c) 65536 then 1 else 2) + text_length s

-- Where the last dot splits a text: what stands before it and after it.
unfoldable pub split_last_dot : String → Option (String × String)
split_last_dot String.[] = none
split_last_dot (String.◌∷◌ c s) = elim (split_last_dot s) [
  | some (body, rest) ↦ some (String.◌∷◌ c body, rest)
  | none ↦ if code c == b'.' then some (String.[], s) else none
]

-- safeEqual: the digests are compared.
abbrev pub safe_equal : Crypto → String → String → Bool
safe_equal x a b = str_eq (x.digest a) (x.digest b)

unfoldable pub sign_body : Crypto → String → String → String
sign_body x purpose body = String.◌++◌ body (String.◌++◌ "." (x.mac purpose body))

module _ {ℓ} {P : Type ℓ} (x : Crypto) (purpose : String) where
  unfoldable pub sign : (P → String) → P → String
  unfolding sign_body
  sign encode payload = sign_body x purpose (encode payload)

  -- The parts of a signed value, if there is a dot that is not the first character.
  abbrev pub open_parts : (String → Option P) → Option (String × String) → Option P
  open_parts decode none = none
  open_parts decode (some (body, signature)) =
      if str_eq body ""
      then none
      else if safe_equal x signature (x.mac purpose body)
      then decode body
      else none

  unfoldable pub verify_signed : (String → Option P) → String → Option P
  unfolding text_length split_last_dot
  verify_signed decode value =
      if ltb max_signed_value_length (text_length value)
      then none
      else open_parts decode (split_last_dot value)
