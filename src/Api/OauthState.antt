-- ===== src/Api/OauthState.antt =====
-- memStateStore of internal/api/oauth_state.go: nonces with the time up to which they hold.
pub mod SingleUse
use trqsh.Prelude.{
  ℕ, ◌+◌, ◌*◌, ◌^◌, String, Bool, true, false, Option, none, some, ltb, if◌then◌else◌, ◌==◌,
  string_eq,
}
use trqsh.Prelude.Dict.{Dict, empty, get, put, delete}

-- 10 * time.Minute
abbrev pub oauth_state_ttl : ℕ
oauth_state_ttl = 600 * 10 ^ 9

abbrev pub States : Type 0
States = Dict String ℕ

-- newMemStateStore
unfoldable pub new_states : States
new_states = empty

-- New; `state` is the nonce that is drawn.
unfoldable pub new_state : ℕ → String → States → String × States
new_state now state m = (state, put m state (now + oauth_state_ttl))

unfoldable pub check_state : ℕ → String → States → Bool × States
check_state now state m =
    if state == ""
    then (false, m)
    else (elim (get m state) [ none ↦ false | some exp ↦ ltb now exp ], delete m state)
