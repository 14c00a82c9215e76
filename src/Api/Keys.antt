-- ===== src/Api/Keys.antt =====
-- API keys and refresh-token revocation of internal/api/auth (apikey.go, auth.go, revoke.go), on the
-- in-memory store. The Argon2 check of a key against its hash is a parameter.
pub mod Revocation
use trqsh.Prelude.{
  ℕ, ◌+◌, String, Bool, true, false, not, ◌||◌, Option, none, some, nat_beq, ltb, if◌then◌else◌,
  ◌==◌, string_eq, nat_eq, List, [], ◌∷◌,
}
use trqsh.Prelude.Text.{◌<>◌, strip_prefix, before}
use trqsh.Prelude.Dict.{Dict, get, put, delete, delete_where}
use trqsh.Prelude.Result.{Result, ok, err}
use trqsh.Store.Types.{ApiKey}
use trqsh.Store.State.{MemStore}
use trqsh.Store.Accounts.{get_api_key_by_prefix, touch_api_key}

abbrev pub key_env : String
key_env = "tq_live_"

-- The lookup prefix of a raw key: what stands before the next underscore (95).
unfoldable pub key_prefix : String → Option String
key_prefix raw = elim (strip_prefix key_env raw) [
  | none ↦ none
  | some rest ↦ elim (before 95 rest) [ none ↦ none | some p ↦ some (key_env <> p) ]
]

pub data KeyCheck : Type 0 where
  authenticated : ApiKey → KeyCheck
  unauthorized : KeyCheck
  key_revoked : KeyCheck

module _ (verify_key : String → String → Bool) where
  -- An error of TouchAPIKey is ignored.
  checked : ℕ → String → Result ApiKey → MemStore → KeyCheck × MemStore
  checked now raw (err _) m = (unauthorized, m)
  checked now raw (ok k) m = elim k.revoked_at [
    | some _ ↦ (key_revoked, m)
    | none ↦
        if verify_key raw k.hash
        then (authenticated k, (touch_api_key k.id now m).1)
        else (unauthorized, m)
  ]

  unfoldable pub authenticate_api_key : ℕ → String → MemStore → KeyCheck × MemStore
  unfolding checked
  authenticate_api_key now raw m = elim (key_prefix raw) [
    | none ↦ (unauthorized, m)
    | some prefix ↦ checked now raw (get_api_key_by_prefix prefix m) m
  ]

-- memRevoker: the identifiers of the revoked tokens with the time when each entry lapses.
abbrev pub Revoked : Type 0
Revoked = Dict String ℕ

-- A `ttl` that is not positive is 0.
unfoldable pub revoke : ℕ → String → ℕ → Revoked → Revoked
revoke now jti ttl m = if jti == "" || ttl == 0 then m else put m jti (now + ttl)

unfoldable pub is_revoked : ℕ → String → Revoked → Bool × Revoked
is_revoked now jti m = if jti == "" then (false, m) else elim (get m jti) [
  | none ↦ (false, m)
  | some exp ↦ if ltb exp now then (false, delete m jti) else (true, m)
]

-- one tick of the reaper
unfoldable pub reap : ℕ → Revoked → Revoked
reap now m = delete_where (λ exp. ltb exp now) m
