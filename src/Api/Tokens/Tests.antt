-- ===== src/Api/Tokens/Tests.antt =====
-- The theorems on session tokens with a library that signs the two tokens of one pair.
use trqsh.Prelude.{
  ℕ, ◌+◌, ◌*◌, ◌<◌, ◌≡◌, ◌≢◌, refl, sym, ap, ◌∙◌, String, Bool, true, false, ◌&&◌, Option, none,
  some, [], ◌∷◌, ltb, if◌then◌else◌, ◌==◌, string_eq, nat_eq, arith, eq_iff, Bool-cases, inl, inr,
}
use trqsh.Prelude.Text.{strip_prefix, to_lower, trim_space}
use trqsh.Prelude.Dict.{get, put, delete, empty}
use trqsh.Store.State.{new_mem_store}
use trqsh.Api.Keys.{is_revoked, revoke}
use trqsh.Api.Keys.Revocation.{asks, reaps, after_calls}
use trqsh.Api.Tokens.{
  Jwt, Claims, claims_of, access_ttl, refresh_ttl, second, bearer_token, issue_tokens, refresh,
  revoke_refresh, middleware,
}
use trqsh.Api.Tokens.Logout.{refresh-revoke_refresh}
use trqsh.Api.Tokens.Separate.{issue_tokens-separate}

abbrev pub same_time : Option ℕ → Option ℕ → Bool
same_time none none = true
same_time none (some b) = false
same_time (some a) none = false
same_time (some a) (some b) = a == b

unfoldable pub same_claims : Claims → Claims → Bool
same_claims c d =
    c.org_id == d.org_id
    && (c.kind == d.kind
        && (c.id == d.id
            && (c.subject == d.subject
                && (c.issued_at == d.issued_at
                    && (same_time c.expires_at d.expires_at && c.issuer == d.issuer)))))

same_claims_eq : (c d : Claims) → same_claims c d ≡ true → c ≡ d
unfolding same_claims
same_claims_eq c d h = ground (
  arith,
  eq_iff c.org_id d.org_id,
  eq_iff c.kind d.kind,
  eq_iff c.id d.id,
  eq_iff c.subject d.subject,
  eq_iff c.issuer d.issuer,
)

abbrev pub made : Claims
made = claims_of 0 "j1" "usr_1" "org_1" "access" access_ttl

abbrev pub made' : Claims
made' = claims_of 0 "j2" "usr_1" "org_1" "refresh" refresh_ttl

unfoldable pub signed : Claims → Option String
signed c =
    if same_claims c made then some "eyA" else if same_claims c made' then some "eyR" else none

unfoldable pub parse : ℕ → String → Option Claims
parse now t =
    if t == "eyA" && ltb now access_ttl
    then some made
    else if t == "eyR" && ltb now refresh_ttl
    then some made'
    else none

one_of : (t : String) → (t == "eyA") ≡ true → (t == "eyR") ≡ false
one_of t e = ap (λ u. u == "eyR") ((eq_iff t "eyA").0 e)

pub parse-signed_lem :
    (c : Claims) (t : String) (now exp : ℕ)
    → signed c ≡ some t
    → c.expires_at ≡ some exp
    → now < exp
    → parse now t ≡ some c
unfolding signed parse
parse-signed_lem c t now exp s e l = elim (Bool-cases (same_claims c made)) [
  | inl a ↦
      let q = same_claims_eq c made a in
      let r : t ≡ "eyA" = ground arith in
      let x : now < access_ttl = ground arith in ground (arith, eq_iff t "eyA")
  | inr a ↦ elim (Bool-cases (same_claims c made')) [
    | inl b ↦
        let q = same_claims_eq c made' b in
        let r : t ≡ "eyR" = ground arith in
        let x : now < refresh_ttl = ground arith in
        let f : (t == "eyA") ≡ false = ap (λ u. u == "eyA") r in
        ground (arith, eq_iff t "eyA", eq_iff t "eyR")
    | inr b ↦ absurd (ground arith)
  ]
]

pub signed_no_key_lem :
    (c : Claims) (t : String) → signed c ≡ some t → t ≢ "" × strip_prefix "tq_" t ≡ none
unfolding signed strip_prefix
signed_no_key_lem c t s = elim (Bool-cases (same_claims c made)) [
  | inl a ↦ named "eyA" refl (λ e. ground (arith, eq_iff "eyA" "")) (ground arith)
  | inr a ↦ elim (Bool-cases (same_claims c made')) [
    | inl b ↦ named "eyR" refl (λ e. ground (arith, eq_iff "eyR" "")) (ground arith)
    | inr b ↦ absurd (ground arith)
  ]
]
  where
    named :
        (u : String)
        → strip_prefix "tq_" u ≡ none
        → u ≢ ""
        → u ≡ t
        → t ≢ "" × strip_prefix "tq_" t ≡ none
    named u k n e = (λ z. n (e ∙ z), ap (strip_prefix "tq_") (sym e) ∙ k)

pub parse_stable_lem :
    (t : String) (now later : ℕ) (c d : Claims)
    → parse now t ≡ some c
    → parse later t ≡ some d
    → c ≡ d
unfolding parse
parse_stable_lem t now later c d p q = ground (arith, one_of t)

pub parse_unexpired_lem :
    (t : String) (now exp : ℕ) (c : Claims)
    → parse now t ≡ some c
    → c.expires_at ≡ some exp
    → now < exp
unfolding parse
parse_unexpired_lem t now exp c p e = ground arith

abbrev pub jwt : Jwt
jwt = record {
  signed = signed;
  parse = parse;
  parse-signed = parse-signed_lem;
  signed_no_key = signed_no_key_lem;
  parse_stable = parse_stable_lem;
  parse_unexpired = parse_unexpired_lem;
}

program : Unit {0}
unfolding get put delete empty strip_prefix to_lower trim_space same_claims signed parse is_revoked
    revoke bearer_token issue_tokens refresh revoke_refresh middleware after_calls new_mem_store
program = tt

issue_tokens-separate_example :
    (middleware jwt (λ a b. false) second "Bearer eyA" new_mem_store).0
      ≡ some (record { user_id = "usr_1"; org_id = "org_1"; via_api_key = false; api_key_id = "" })
    × (middleware jwt (λ a b. false) second "Bearer eyR" new_mem_store).0 ≡ none
    × (refresh jwt second "j1" "j2" "eyA" empty).0 ≡ none
    × (refresh jwt second "j1" "j2" "eyR" empty).0 ≡ none
unfolding program
issue_tokens-separate_example =
    let (a, b, c, d) =
      issue_tokens-separate jwt 0 "j1" "j2" "usr_1" "org_1"
        (record { access = "eyA"; refresh = "eyR"; expires_in = 3600; token_type = "Bearer" })
        (λ x y. false) second "Bearer eyA" "Bearer eyR" new_mem_store "j1" "j2" empty refl
        (omega arith) refl refl in
    (ap (λ x. x.0) a, ap (λ x. x.0) b, c, d)

-- Four seconds after the logout, and again after the token's expiry, when the reaper has forgotten it.
refresh-revoke_refresh_example :
    (refresh jwt (5 * second) "j1" "j2" "eyR" (
        after_calls
          ((second, asks "j9") ∷ (second, reaps) ∷ [])
          (revoke_refresh jwt second "eyR" empty))).0
      ≡ none
    × (refresh jwt (refresh_ttl + 5 * second) "j1" "j2" "eyR" (
        after_calls
          ((second, asks "j9") ∷ (refresh_ttl + 2 * second, reaps) ∷ [])
          (revoke_refresh jwt second "eyR" empty))).0
      ≡ none
unfolding parse
refresh-revoke_refresh_example = (
  refresh-revoke_refresh jwt second "eyR" made' refresh_ttl parsed refl
      (λ z. ground (arith, eq_iff "j2" "")) refl (5 * second) "j1" "j2"
      ((second, asks "j9") ∷ (second, reaps) ∷ []) empty (omega arith),
  refresh-revoke_refresh jwt second "eyR" made' refresh_ttl parsed refl
      (λ z. ground (arith, eq_iff "j2" "")) refl (refresh_ttl + 5 * second) "j1" "j2"
      ((second, asks "j9") ∷ (refresh_ttl + 2 * second, reaps) ∷ []) empty (omega arith),
)
  where
    parsed : jwt.parse second "eyR" ≡ some made'
    parsed = refl
