-- ===== src/Api/Tokens.antt =====
-- Session tokens and the middleware of internal/api/auth (auth.go, middleware.go). The JWT library is
-- the interface Jwt: signing, and the parsing that checks the method, the signature and the expiry.
pub mod Logout
pub mod Separate
pub mod Tests
use trqsh.Prelude.{
  ℕ, zero, suc, ◌+◌, ◌-◌, ◌*◌, ◌/◌, ◌^◌, ◌<◌, ◌≡◌, ◌≢◌, String, Bool, true, false, not, ◌||◌,
  Option, none, some, ltb, if◌then◌else◌, ◌==◌, string_eq, nat_eq,
}
use trqsh.Prelude.Text.{strip_prefix, to_lower, trim_space}
use trqsh.Store.State.{MemStore}
use trqsh.Api.Keys.{
  Revoked, revoke, is_revoked, KeyCheck, authenticated, unauthorized, key_revoked,
  authenticate_api_key,
}

-- The claims of a token, with the registered ones that the code sets.
pub record Claims : Type 0 where
  pub org_id : String
  pub kind : String
  pub id : String
  pub subject : String
  pub issued_at : ℕ
  pub expires_at : Option ℕ
  pub issuer : String

-- github.com/golang-jwt/jwt/v5 with the server's secret, and what its documentation says: a signed
-- token parses to its claims until it expires, and is three base64 texts, which do not start as an API
-- key does; a token has the same claims whenever it parses, and none once it has expired.
pub record Jwt : Type 0 where
  pub signed : Claims → Option String
  pub parse : ℕ → String → Option Claims
  pub parse-signed :
      (c : Claims) (t : String) (now exp : ℕ)
      → signed c ≡ some t
      → c.expires_at ≡ some exp
      → now < exp
      → parse now t ≡ some c
  pub signed_no_key :
      (c : Claims) (t : String) → signed c ≡ some t → t ≢ "" × strip_prefix "tq_" t ≡ none
  pub parse_stable :
      (t : String) (now later : ℕ) (c d : Claims)
      → parse now t ≡ some c
      → parse later t ≡ some d
      → c ≡ d
  pub parse_unexpired :
      (t : String) (now exp : ℕ) (c : Claims)
      → parse now t ≡ some c
      → c.expires_at ≡ some exp
      → now < exp

pub record Tokens : Type 0 where
  pub access : String
  pub refresh : String
  pub expires_in : ℕ
  pub token_type : String

abbrev pub second : ℕ
second = 10 ^ 9

-- 1 * time.Hour
abbrev pub access_ttl : ℕ
access_ttl = 3600 * second

-- 30 * 24 * time.Hour
abbrev pub refresh_ttl : ℕ
refresh_ttl = 2592000 * second

-- jwt.NewNumericDate, which keeps whole seconds
abbrev pub numeric_date : ℕ → ℕ
numeric_date t = t / second * second

-- The claims that sign makes; `jti` is what newJTI draws.
abbrev pub claims_of : ℕ → String → String → String → String → ℕ → Claims
claims_of now jti user_id org_id kind ttl = record {
  org_id = org_id;
  kind = kind;
  id = jti;
  subject = user_id;
  issued_at = numeric_date now;
  expires_at = some (numeric_date (now + ttl));
  issuer = "trqsh-api";
}

-- Who a request comes from.
pub record Principal : Type 0 where
  pub user_id : String
  pub org_id : String
  pub via_api_key : Bool
  pub api_key_id : String

-- h[len("bearer "):], which is called where there are seven characters
skip : ℕ → String → String
skip zero h = h
skip (suc n) String.[] = String.[]
skip (suc n) (String.◌∷◌ c h) = skip n h

-- The Authorization header; the first seven characters are cut where they say bearer.
unfoldable pub bearer_token : String → String
unfolding skip
bearer_token h = elim (strip_prefix "bearer " (to_lower h)) [
  | none ↦ trim_space h
  | some _ ↦ trim_space (skip 7 h)
]

module _ (jwt : Jwt) where
  -- `jti` and `jti'` are the two identifiers that are drawn.
  unfoldable pub issue_tokens : ℕ → String → String → String → String → Option Tokens
  issue_tokens now jti jti' user_id org_id =
      elim (jwt.signed (claims_of now jti user_id org_id "access" access_ttl)) [
        | none ↦ none
        | some a ↦ elim (jwt.signed (claims_of now jti' user_id org_id "refresh" refresh_ttl)) [
          | none ↦ none
          | some r ↦
              some (record { access = a; refresh = r; expires_in = 3600; token_type = "Bearer" })
        ]
      ]

  unfoldable pub refresh : ℕ → String → String → String → Revoked → Option Tokens × Revoked
  refresh now jti jti' token m = elim (jwt.parse now token) [
    | none ↦ (none, m)
    | some c ↦
        if not (c.kind == "refresh")
        then (none, m)
        else let (revoked, m') = is_revoked now c.id m in
          (if revoked then none else issue_tokens now jti jti' c.subject c.org_id, m')
  ]

  unfoldable pub revoke_refresh : ℕ → String → Revoked → Revoked
  revoke_refresh now token m = elim (jwt.parse now token) [
    | none ↦ m
    | some c ↦ if not (c.kind == "refresh") || c.id == "" then m else elim c.expires_at [
      | none ↦ m
      | some exp ↦ if ltb now exp then revoke now c.id (exp - now) m else m
    ]
  ]

  session_principal : Option Claims → Option Principal
  session_principal none = none
  session_principal (some c) =
      if c.kind == "access"
      then some
          (record { user_id = c.subject; org_id = c.org_id; via_api_key = false; api_key_id = "" })
      else none

  key_principal : KeyCheck × MemStore → Option Principal × MemStore
  key_principal (authenticated k, m) =
      (some (record { user_id = ""; org_id = k.org_id; via_api_key = true; api_key_id = k.id }), m)
  key_principal (unauthorized, m) = (none, m)
  key_principal (key_revoked, m) = (none, m)

  -- Middleware: the principal that the request goes on with, none for the answer 401.
  unfoldable pub middleware :
      (String → String → Bool) → ℕ → String → MemStore → Option Principal × MemStore
  unfolding session_principal key_principal
  middleware verify_key now header m =
      let tok = bearer_token header in
      if tok == "" then (none, m) else elim (strip_prefix "tq_" tok) [
        | some _ ↦ key_principal (authenticate_api_key verify_key now tok m)
        | none ↦ (session_principal (jwt.parse now tok), m)
      ]
