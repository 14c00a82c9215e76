-- ===== src/Api/Tokens/Logout.antt =====
-- A refresh token of internal/api/auth/auth.go that was revoked at a logout mints no tokens again.
use trqsh.Prelude.{
  ℕ, ◌+◌, ◌-◌, ◌≤◌, ◌<◌, ◌≡◌, ◌≢◌, refl, sym, ap, subst, ◌∙◌, String, true, none, some, List, [],
  ◌∷◌, ltb, lt→ltb, string_eq, nat_eq, arith, eq_iff, Option-cases, inl, inr,
}
use trqsh.Api.Keys.{Revoked, revoke, is_revoked}
use trqsh.Api.Keys.Revocation.{Call, revokes, asks, reaps, after_calls, Within, revoke-is_revoked}
use trqsh.Api.Tokens.{Jwt, Claims, refresh, revoke_refresh}

module _ (jwt : Jwt) (now : ℕ) (token : String) (c : Claims) (exp : ℕ)
    (parsed : jwt.parse now token ≡ some c) (kind : c.kind ≡ "refresh") (named : c.id ≢ "")
    (expires : c.expires_at ≡ some exp) where
  revoke_refresh-revoke :
      (m : Revoked) → revoke_refresh jwt now token m ≡ revoke now c.id (exp - now) m
  unfolding revoke_refresh
  revoke_refresh-revoke m =
      let l : ltb now exp ≡ true =
        lt→ltb now exp (jwt.parse_unexpired token now exp c parsed expires) in
      ground (arith, eq_iff c.kind "refresh", eq_iff c.id "")

  unparsed :
      (later : ℕ) (jti jti' : String) (k : Revoked)
      → jwt.parse later token ≡ none
      → (refresh jwt later jti jti' token k).0 ≡ none
  unfolding refresh
  unparsed later jti jti' k e = rw (e, refresh) refl

  refused :
      (later : ℕ) (jti jti' : String) (k : Revoked)
      → jwt.parse later token ≡ some c
      → (is_revoked later c.id k).0 ≡ true
      → (refresh jwt later jti jti' token k).0 ≡ none
  unfolding refresh
  refused later jti jti' k e r = ground (arith, eq_iff c.kind "refresh")

  -- Calls that reach the revoker up to the time `later`; one that revokes this token does so for at
  -- least as long as the token lasts.
  abbrev pub Before : ℕ → List (ℕ × Call) → Type 0
  Before later [] = Unit
  Before later ((at, revokes i ttl) ∷ cs) = (i ≡ c.id → ttl ≢ 0 → exp ≤ at + ttl) × Before later cs
  Before later ((at, asks i) ∷ cs) = at ≤ later × Before later cs
  Before later ((at, reaps) ∷ cs) = at ≤ later × Before later cs

  Before-Within :
      (later : ℕ) (cs : List (ℕ × Call)) → later < exp → Before later cs → Within exp c.id cs
  Before-Within later [] l w = tt
  Before-Within later ((at, revokes i ttl) ∷ cs) l (w, ws) = (w, Before-Within later cs l ws)
  Before-Within later ((at, asks i) ∷ cs) l (w, ws) = (omega arith, Before-Within later cs l ws)
  Before-Within later ((at, reaps) ∷ cs) l (w, ws) = (omega arith, Before-Within later cs l ws)

  -- Once a refresh token with an identifier and an expiry has been revoked at a logout, it is not
  -- exchanged for tokens at any later time, before its expiry or after it, whatever has reached the
  -- revoker up to then: questions, ticks of the reaper at any times up to then, also after the expiry,
  -- and other revocations, of this identifier only for at least as long as the token lasts.
  pub refresh-revoke_refresh :
      (later : ℕ) (jti jti' : String) (cs : List (ℕ × Call)) (m : Revoked)
      → Before later cs
      → (refresh jwt later jti jti' token (after_calls cs (revoke_refresh jwt now token m))).0
        ≡ none
  refresh-revoke_refresh later jti jti' cs m w = elim (Option-cases (jwt.parse later token)) [
    | inl e ↦ unparsed later jti jti' _ e
    | inr (d, e) ↦
        let f : c ≡ d = jwt.parse_stable token now later c d parsed e in
        let l : later < exp =
          jwt.parse_unexpired token later exp d e (ap (λ x. x.expires_at) (sym f) ∙ expires) in
        let n : now < exp = jwt.parse_unexpired token now exp c parsed expires in
        let s : now + (exp - now) ≡ exp = omega arith in
        let r : (is_revoked later c.id (after_calls cs (revoke now c.id (exp - now) m))).0 ≡ true =
          revoke-is_revoked now (exp - now) later c.id cs m named (λ z. omega arith)
            (subst (λ x. Within x c.id cs) (sym s) (Before-Within later cs l w)) (omega arith) in
        rw (revoke_refresh-revoke m) (refused later jti jti' _ (e ∙ ap some (sym f)) r)
  ]
