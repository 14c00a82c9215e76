-- ===== src/Api/Tokens/Separate.antt =====
-- The two tokens of a pair that internal/api/auth/auth.go issues serve one purpose each.
use trqsh.Prelude.{
  ℕ, ◌+◌, ◌<◌, ◌≡◌, refl, ap, ◌∙◌, String, Bool, false, not, none, some, ◌&&◌, if◌then◌else◌, ◌==◌,
  string_eq, arith, eq_iff, Option-cases, inl, inr,
}
use trqsh.Prelude.Text.{strip_prefix}
use trqsh.Store.State.{MemStore}
use trqsh.Api.Keys.{Revoked, is_revoked}
use trqsh.Api.Tokens.{
  Jwt, Claims, Tokens, claims_of, numeric_date, access_ttl, refresh_ttl, bearer_token, issue_tokens,
  refresh, middleware, session_principal,
}

module _ (jwt : Jwt) (now : ℕ) (jti jti' user_id org_id : String) (t : Tokens)
    (issued : issue_tokens jwt now jti jti' user_id org_id ≡ some t) where
  issued_signed :
      jwt.signed (claims_of now jti user_id org_id "access" access_ttl) ≡ some t.access
      × jwt.signed (claims_of now jti' user_id org_id "refresh" refresh_ttl) ≡ some t.refresh
  unfolding issue_tokens
  issued_signed = elim (Option-cases (jwt.signed made)) [
    | inl e ↦ absurd (ground arith)
    | inr (a, e) ↦ elim (Option-cases (jwt.signed made')) [
      | inl f ↦ absurd (ground arith)
      | inr (r, f) ↦ (ground arith, ground arith)
    ]
  ]
    where
      made : Claims
      made = claims_of now jti user_id org_id "access" access_ttl

      made' : Claims
      made' = claims_of now jti' user_id org_id "refresh" refresh_ttl

module _ (jwt : Jwt) (verify_key : String → String → Bool) (later : ℕ) (header : String)
    (m : MemStore) (c : Claims) (tok : String) (signed : jwt.signed c ≡ some tok) (exp : ℕ)
    (expires : c.expires_at ≡ some exp) (fresh : later < exp) where
  middleware-signed :
      bearer_token header ≡ tok
      → middleware jwt verify_key later header m ≡ (session_principal jwt (some c), m)
  unfolding middleware
  middleware-signed h =
      let (n, k) = jwt.signed_no_key c tok signed in
      let e : (tok == "") ≡ false = ground (arith, eq_iff tok "") in
      let p = jwt.parse-signed c tok later exp signed expires fresh in
      rw (ap (λ b. b == "") h ∙ e, ap (strip_prefix "tq_") h ∙ k, ap (jwt.parse later) h ∙ p) refl

  refresh-signed :
      (jti jti' : String) (r : Revoked)
      → (refresh jwt later jti jti' tok r).0 ≡ (
          if c.kind == "refresh" && not (is_revoked later c.id r).0
          then issue_tokens jwt later jti jti' c.subject c.org_id
          else none)
  unfolding refresh
  refresh-signed jti jti' r =
      rw (jwt.parse-signed c tok later exp signed expires fresh, refresh) (ground arith)

-- Before the access token of an issued pair expires: a request with the access token goes on as the
-- user and the organisation that it was issued for, and one with the refresh token is refused; the
-- access token is never exchanged, and the refresh token is exchanged for a pair of the same user and
-- organisation exactly where its identifier is not found revoked.
pub issue_tokens-separate :
    (jwt : Jwt) (now : ℕ) (jti jti' user_id org_id : String) (t : Tokens)
    (verify_key : String → String → Bool) (later : ℕ) (header header' : String) (m : MemStore)
    (k k' : String) (r : Revoked)
    → issue_tokens jwt now jti jti' user_id org_id ≡ some t
    → later < numeric_date (now + access_ttl)
    → bearer_token header ≡ t.access
    → bearer_token header' ≡ t.refresh
    → middleware jwt verify_key later header m ≡ (
      some (record { user_id = user_id; org_id = org_id; via_api_key = false; api_key_id = "" }),
      m,
    )
      × middleware jwt verify_key later header' m ≡ (none, m)
      × (refresh jwt later k k' t.access r).0 ≡ none
      × (refresh jwt later k k' t.refresh r).0
        ≡ (if (is_revoked later jti' r).0 then none else issue_tokens jwt later k k' user_id org_id)
unfolding session_principal
issue_tokens-separate jwt now jti jti' user_id org_id t verify_key later header header' m k k' r e l
      h h' =
    let (a, b) = issued_signed jwt now jti jti' user_id org_id t e in
    let c = claims_of now jti user_id org_id "access" access_ttl in
    let d = claims_of now jti' user_id org_id "refresh" refresh_ttl in
    let x = numeric_date (now + access_ttl) in
    let y = numeric_date (now + refresh_ttl) in
    let n : later < y = omega arith in
    (
      middleware-signed jwt verify_key later header m c t.access a x refl l h,
      middleware-signed jwt verify_key later header' m d t.refresh b y refl n h',
      refresh-signed jwt verify_key later header m c t.access a x refl l k k' r,
      refresh-signed jwt verify_key later header' m d t.refresh b y refl n k k' r ∙ ground arith,
    )
