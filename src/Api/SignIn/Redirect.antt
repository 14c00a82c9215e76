-- ===== src/Api/SignIn/Redirect.antt =====
-- What a finished OAuth callback of internal/api/handlers_auth.go has checked, and where it leads.
use trqsh.Prelude.{
  ℕ, ◌≡◌, ◌≢◌, refl, ap, ◌∙◌, String, Bool, true, false, not, ◌||◌, Option, none, some,
  if◌then◌else◌, ◌==◌, string_eq, arith, eq_iff, Bool-cases, inl, inr,
}
use trqsh.Prelude.Text.{◌<>◌, strip_prefix}
use trqsh.Store.Types.{User, Org}
use trqsh.Api.OauthState.{check_state}
use trqsh.Api.Tokens.{Jwt, Tokens}
use trqsh.Api.SignIn.{
  Config, Server, Drawn, Profile, Reply, answered, refused, app_base, safe_next_path, starts,
  destination, signed_in, redirected, handle_oauth_callback, provision_user,
}

-- A path on the same site: it starts with one slash, which no slash and no backslash follows.
abbrev pub OnSite : String → Type 0
OnSite p = starts "/" p ≡ true × starts "//" p ≡ false × starts "/\\" p ≡ false

safe_next_path-OnSite : (p : String) → safe_next_path p ≢ "" → OnSite (safe_next_path p)
unfolding safe_next_path
safe_next_path-OnSite p n =
    elim (Bool-cases (p == "" || (not (starts "/" p) || (starts "//" p || starts "/\\" p)))) [
      | inl e ↦ absurd (n (ap (λ b. if b then "" else p) e))
      | inr e ↦ rw e (ground arith, ground arith, ground arith)
    ]

destination-OnSite :
    (cfg : Config) (next : Option String)
    → (p : String) × destination cfg next ≡ app_base cfg <> p × OnSite p
unfolding strip_prefix
destination-OnSite cfg none = ("/", refl, (refl, refl, refl))
destination-OnSite cfg (some n) = elim (Bool-cases (safe_next_path n == "")) [
  | inl e ↦ rw e ("/", refl, (refl, refl, refl))
  | inr e ↦ rw e (
    safe_next_path n,
    refl,
    safe_next_path-OnSite n (λ z. ground (arith, eq_iff (safe_next_path n) "")),
  )
]

module _ (jwt : Jwt) (cfg : Config) (next : Option String) (dest : String) (t : Tokens) where
  redirected-answered :
      (x : Reply (User × Org × Tokens) × Server)
      → (redirected jwt cfg next x).0 ≡ answered (dest, t)
      → dest ≡ destination cfg next
  redirected-answered (refused n, s) h = absurd (ground arith)
  redirected-answered (answered (u, o, t'), s) h = ground arith

  exchanged :
      (now : ℕ) (d : Drawn) (profile : Profile) (s : Server)
      → (elim profile as (λ _. Reply (String × Tokens) × Server) [
        | none ↦ (refused 502, s)
        | some (email, name, avatar, provider) ↦
            redirected jwt cfg next
              (signed_in jwt cfg now d s (provision_user now d email name avatar provider s.store))
      ]).0
        ≡ answered (dest, t)
      → dest ≡ destination cfg next
  exchanged now d none s h = absurd (ground arith)
  exchanged now d (some (email, name, avatar, provider)) s h = redirected-answered _ h

  checked :
      (now : ℕ) (d : Drawn) (profile : Profile) (s s' : Server) (b v : Bool)
      → (if not b
          then (refused 400, s)
          else if not v
          then (refused 400, s')
          else elim profile as (λ _. Reply (String × Tokens) × Server) [
            | none ↦ (refused 502, s')
            | some (email, name, avatar, provider) ↦ redirected jwt cfg next (
                signed_in jwt cfg now d s'
                  (provision_user now d email name avatar provider s'.store))
          ]).0
        ≡ answered (dest, t)
      → b ≡ true × v ≡ true × dest ≡ destination cfg next
  checked now d profile s s' false v h = absurd (ground arith)
  checked now d profile s s' true false h = absurd (ground arith)
  checked now d profile s s' true true h = (refl, refl, exchanged now d profile s' h)

  -- A callback that signs a browser in has been given the state cookie of the flow, with the same
  -- nonce as the provider returned, and the nonce was open; and it sends the browser to a path on the
  -- dashboard's own site: one that starts with a slash, which neither a slash nor a backslash follows.
  pub handle_oauth_callback-answered :
      (now : ℕ) (d : Drawn) (known : Bool) (qstate : String) (cookie : Option String)
      (profile : Profile) (s : Server)
      → (handle_oauth_callback jwt cfg now d known qstate cookie next profile s).0
        ≡ answered (dest, t)
      → cookie ≡ some qstate
        × (check_state now qstate s.states).0 ≡ true
        × ((p : String) × dest ≡ app_base cfg <> p × OnSite p)
  unfolding handle_oauth_callback
  handle_oauth_callback-answered now d false qstate cookie profile s h = absurd (ground arith)
  handle_oauth_callback-answered now d true qstate none profile s h = absurd (ground arith)
  handle_oauth_callback-answered now d true qstate (some c) profile s h =
      let (valid, states) = check_state now qstate s.states in
      let (b, v, e) =
        checked now d profile s (record s { states = states }) (c == qstate) valid h in
      let (p, f, on_site) = destination-OnSite cfg next in
      (ap some ((eq_iff c qstate).0 b), v, (p, e ∙ f, on_site))
