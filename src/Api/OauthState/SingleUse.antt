-- ===== src/Api/OauthState/SingleUse.antt =====
-- A nonce of internal/api/oauth_state.go is accepted once, and in time.
use trqsh.Prelude.{
  ℕ, ◌+◌, ◌<◌, ◌≡◌, ◌≢◌, ◌↔◌, String, true, Option, none, some, List, [], ◌∷◌, if◌then◌else◌, ◌==◌,
  string_eq, arith, eq_iff, Bool-cases, Option-cases, inl, inr,
}
use trqsh.Prelude.Dict.{empty, get, get-put, get-delete, get-empty}
use trqsh.Api.OauthState.{States, oauth_state_ttl, new_states, new_state, check_state}

-- The calls, each at its time; a call of New with the nonce that it draws.
pub data Call : Type 0 where
  issues checks : String → Call

abbrev pub after_calls : List (ℕ × Call) → States → States
after_calls [] m = m
after_calls ((now, issues s) ∷ cs) m = after_calls cs (new_state now s m).1
after_calls ((now, checks s) ∷ cs) m = after_calls cs (check_state now s m).1

-- When the nonce was issued last, where it has not been checked since; before the calls it was as
-- given.
abbrev pub open_since : String → List (ℕ × Call) → Option ℕ → Option ℕ
open_since s [] o = o
open_since s ((now, issues t) ∷ cs) o = open_since s cs (if t == s then some now else o)
open_since s ((now, checks t) ∷ cs) o = open_since s cs (if t == s then none else o)

abbrev until : Option ℕ → Option ℕ
until none = none
until (some t) = some (t + oauth_state_ttl)

get-after_calls :
    (s : String) (cs : List (ℕ × Call)) (o : Option ℕ) (m : States)
    → s ≢ ""
    → get m s ≡ until o
    → get (after_calls cs m) s ≡ until (open_since s cs o)
unfolding new_state check_state
get-after_calls s [] o m n h = h
get-after_calls s ((now, issues t) ∷ cs) o m n h = elim (Bool-cases (t == s)) [
  | inl e ↦ rw e (
      get-after_calls s cs (some now) (new_state now t m).1 n
        (ground (arith, get-put m t s (now + oauth_state_ttl))))
  | inr e ↦ rw e (
      get-after_calls s cs o (new_state now t m).1 n
        (ground (arith, get-put m t s (now + oauth_state_ttl))))
]
get-after_calls s ((now, checks t) ∷ cs) o m n h = elim (Bool-cases (t == s)) [
  | inl e ↦ rw e (
      get-after_calls s cs none (check_state now t m).1 n
        (ground (arith, get-delete m t s, eq_iff t s, eq_iff t "")))
  | inr e ↦
      rw e (get-after_calls s cs o (check_state now t m).1 n (ground (arith, get-delete m t s)))
]

-- After any calls on a new store, Check accepts a nonce exactly where it is not empty, was issued
-- before and not checked since, and less than ten minutes have passed since it was issued last.
pub check_state_iff :
    (now : ℕ) (s : String) (cs : List (ℕ × Call))
    → ((check_state now s (after_calls cs new_states)).0 ≡ true)
      ↔ (s ≢ "" × ((t : ℕ) × open_since s cs none ≡ some t × now < t + oauth_state_ttl))
unfolding check_state new_states
check_state_iff now s cs = (
  λ h.
      let n : s ≢ "" = λ e. ground (arith, eq_iff s "") in
      let g = get-after_calls s cs none empty n (get-empty s) in
      elim (Option-cases (open_since s cs none)) [
        | inl e ↦ absurd (ground (arith, eq_iff s ""))
        | inr (t, e) ↦ (n, (t, e, ground (arith, eq_iff s "")))
      ],
  λ (n, (t, e, l)).
      let g = get-after_calls s cs none empty n (get-empty s) in ground (arith, eq_iff s ""),
)
