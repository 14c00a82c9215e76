-- ===== src/Api/Keys/Revocation.antt =====
-- Revoked keys and tokens of internal/api/auth stay refused.
use trqsh.Prelude.{
  ℕ, ◌+◌, ◌≤◌, String, ◌≡◌, ◌≢◌, Bool, true, false, ◌||◌, some, List, [], ◌∷◌, arith, eq_iff, ltb,
  ◌==◌, string_eq, nat_eq, Bool-cases, Option-cases, inl, inr, subst, sym,
}
use trqsh.Prelude.Dict.{get, delete, get-put, get-put_same, get-delete, get-delete_where}
use trqsh.Prelude.Result.{ok}
use trqsh.Store.State.{MemStore}
use trqsh.Store.Accounts.{get_api_key_by_prefix, revoke_api_key}
use trqsh.Api.Keys.{
  key_prefix, key_revoked, checked, authenticate_api_key, Revoked, revoke, is_revoked, reap,
}

-- Once the organisation has revoked a key, a raw key whose prefix leads to it is answered as revoked,
-- whatever its secret, and the store is left as it is.
pub revoked_key_refused :
    (verify_key : String → String → Bool) (now at : ℕ) (raw prefix id org_id : String)
    (m : MemStore)
    → (revoke_api_key id org_id at m).0 ≡ ok tt
    → key_prefix raw ≡ some prefix
    → get m.key_prefix prefix ≡ some id
    → let m' = (revoke_api_key id org_id at m).1 in
      authenticate_api_key verify_key now raw m' ≡ (key_revoked, m')
unfolding authenticate_api_key checked get_api_key_by_prefix revoke_api_key
revoked_key_refused verify_key now at raw prefix id org_id m h e f =
    elim (Option-cases (get m.keys id)) [
      | inl g ↦ absurd (ground arith)
      | inr (k, g) ↦ ground (arith, get-put_same m.keys id (record k { revoked_at = some at }))
    ]

-- What can reach the revoker, each call at its time.
pub data Call : Type 0 where
  revokes : String → ℕ → Call
  asks : String → Call
  reaps : Call

unfoldable pub after_calls : List (ℕ × Call) → Revoked → Revoked
after_calls [] m = m
after_calls ((now, revokes jti ttl) ∷ cs) m = after_calls cs (revoke now jti ttl m)
after_calls ((now, asks jti) ∷ cs) m = after_calls cs (is_revoked now jti m).1
after_calls ((now, reaps) ∷ cs) m = after_calls cs (reap now m)

-- The calls stand at times up to `end`, and none revokes `jti` for a shorter time.
abbrev pub Within : ℕ → String → List (ℕ × Call) → Type 0
Within end jti [] = Unit
Within end jti ((now, revokes i ttl) ∷ cs) =
    (i ≡ jti → ttl ≢ 0 → end ≤ now + ttl) × Within end jti cs
Within end jti ((now, asks i) ∷ cs) = now ≤ end × Within end jti cs
Within end jti ((now, reaps) ∷ cs) = now ≤ end × Within end jti cs

abbrev Until : ℕ → String → Revoked → Type 0
Until end jti m = (exp : ℕ) × get m jti ≡ some exp × end ≤ exp

Until-delete :
    (end : ℕ) (jti i : String) (m : Revoked)
    → (i == jti) ≡ false
    → Until end jti m
    → Until end jti (delete m i)
Until-delete end jti i m e (exp, g, h) = (exp, ground (arith, get-delete m i jti), h)

revoke-Until_new :
    (now ttl : ℕ) (jti : String) (m : Revoked)
    → jti ≢ ""
    → ttl ≢ 0
    → Until (now + ttl) jti (revoke now jti ttl m)
unfolding revoke
revoke-Until_new now ttl jti m n z =
    (now + ttl, ground (arith, eq_iff jti "", get-put_same m jti (now + ttl)), omega arith)

revoke-Until :
    (end now ttl : ℕ) (jti i : String) (m : Revoked)
    → (i ≡ jti → ttl ≢ 0 → end ≤ now + ttl)
    → Until end jti m
    → Until end jti (revoke now i ttl m)
unfolding revoke
revoke-Until end now ttl jti i m w (exp, g, h) = elim (Bool-cases (i == "" || ttl == 0)) [
  | inl e ↦ rw e (exp, g, h)
  | inr e ↦ rw e (elim (Bool-cases (i == jti)) [
    | inl f ↦ (
      now + ttl,
      ground (arith, get-put m i jti (now + ttl)),
      w ((eq_iff i jti).0 f) (ground arith),
    )
    | inr f ↦ (exp, ground (arith, get-put m i jti (now + ttl)), h)
  ])
]

is_revoked-Until :
    (end now : ℕ) (jti i : String) (m : Revoked)
    → now ≤ end
    → Until end jti m
    → Until end jti (is_revoked now i m).1
unfolding is_revoked
is_revoked-Until end now jti i m w (exp, g, h) = elim (Bool-cases (i == jti)) [
  | inl e ↦
      let f = (eq_iff i jti).0 e in
      subst (λ j. Until end jti (is_revoked now j m).1) (sym f) (exp, ground arith, h)
  | inr e ↦ (exp, ground (arith, get-delete m i jti), h)
]

reap-Until :
    (end now : ℕ) (jti : String) (m : Revoked)
    → now ≤ end
    → Until end jti m
    → Until end jti (reap now m)
unfolding reap
reap-Until end now jti m w (exp, g, h) =
    (exp, get-delete_where (λ x. ltb x now) m jti exp g (ground arith), h)

after_calls-Until :
    (end : ℕ) (jti : String) (cs : List (ℕ × Call)) (m : Revoked)
    → Within end jti cs
    → Until end jti m
    → Until end jti (after_calls cs m)
unfolding after_calls
after_calls-Until end jti [] m w u = u
after_calls-Until end jti ((now, revokes i ttl) ∷ cs) m (w, ws) u =
    after_calls-Until end jti cs _ ws (revoke-Until end now ttl jti i m w u)
after_calls-Until end jti ((now, asks i) ∷ cs) m (w, ws) u =
    after_calls-Until end jti cs _ ws (is_revoked-Until end now jti i m w u)
after_calls-Until end jti ((now, reaps) ∷ cs) m (w, ws) u =
    after_calls-Until end jti cs _ ws (reap-Until end now jti m w u)

-- A token that is revoked for a time that is not 0 is found revoked whenever it is asked for up to
-- the end of that time, whatever calls came between: later revocations, of this token only for at
-- least as long, other questions, and the reaper.
pub revoke-is_revoked :
    (now ttl later : ℕ) (jti : String) (cs : List (ℕ × Call)) (m : Revoked)
    → jti ≢ ""
    → ttl ≢ 0
    → Within (now + ttl) jti cs
    → later ≤ now + ttl
    → (is_revoked later jti (after_calls cs (revoke now jti ttl m))).0 ≡ true
unfolding is_revoked
revoke-is_revoked now ttl later jti cs m n z w l =
    let (exp, g, h) =
      after_calls-Until (now + ttl) jti cs _ w (revoke-Until_new now ttl jti m n z) in
    ground (arith, eq_iff jti "")
