-- ===== src/Edge/Ports/Reserve.antt =====
-- What portManager.reserve of internal/server/ingress_tcp.go gives and refuses.
use trqsh.Prelude.{
  ℕ, zero, suc, ◌+◌, ◌-◌, ◌≤◌, ◌<◌, String, ◌≡◌, refl, ◌⊎◌, inl, inr, Bool, true, false, not, ◌&&◌,
  ◌||◌, Option, none, some, arith, ◌==◌, string_eq, nat_eq, ltb, Bool-cases, subst,
}
use trqsh.Prelude.Dict.{Dict, get-put}
use trqsh.Edge.Ports.{PortManager, marked, used, taken, reserved, first_free, reserve}

-- The loop stops at the first port that is free, and at none only when all are marked.
abbrev Found : Dict ℕ Bool → ℕ → ℕ → Option ℕ → Type 0
Found d p n none = (q : ℕ) → p ≤ q → q < p + n → marked d q ≡ true
Found d p n (some q) =
    p ≤ q × q < p + n × marked d q ≡ false × ((r : ℕ) → p ≤ r → r < q → marked d r ≡ true)

split_first :
    (d : Dict ℕ Bool) (p q : ℕ)
    → marked d p ≡ true
    → (suc p ≤ q → marked d q ≡ true)
    → p ≤ q
    → marked d q ≡ true
split_first d p q e h a = elim (Bool-cases (p == q)) [
  | inl f ↦ subst (λ r. marked d r ≡ true) (ground arith) e
  | inr f ↦ h (ground arith)
]

later :
    (d : Dict ℕ Bool) (p n : ℕ) (o : Option ℕ)
    → marked d p ≡ true
    → Found d (suc p) n o
    → Found d p (suc n) o
later d p n none e h = λ q a b. split_first d p q e (λ x. h q x (omega arith)) a
later d p n (some r) e (a, b, c, h) =
    (omega arith, omega arith, c, λ q x y. split_first d p q e (λ z. h q z y) x)

first_free_lem : (d : Dict ℕ Bool) (p n : ℕ) → Found d p n (first_free d p n)
unfolding first_free
first_free_lem d p zero = λ q a b. absurd (omega arith)
first_free_lem d p (suc n) = elim (Bool-cases (marked d p)) [
  | inl e ↦ rw e (later d p n (first_free d (suc p) n) e (first_free_lem d (suc p) n))
  | inr e ↦ rw e (omega arith, omega arith, e, λ r a b. absurd (omega arith))
]

-- `pm'` has port `p` of `proto` marked and is otherwise as `pm` was.
abbrev Marks : String → ℕ → PortManager → PortManager → Type 0
Marks proto p pm pm' =
    ((q : ℕ)
      → marked pm'.used_tcp q ≡ (not (proto == "udp") && q == p || marked pm.used_tcp q)
        × marked pm'.used_udp q ≡ (proto == "udp" && q == p || marked pm.used_udp q))
    × pm'.tcp ≡ pm.tcp
    × pm'.udp ≡ pm.udp
    × pm'.min ≡ pm.min
    × pm'.max ≡ pm.max

taken-Marks : (proto : String) (p : ℕ) (pm : PortManager) → Marks proto p pm (taken proto p pm)
taken-Marks proto p pm = elim (Bool-cases (proto == "udp")) [
  | inl e ↦ rw e (λ q. (refl, ground (arith, get-put pm.used_udp p q true)), refl, refl, refl, refl)
  | inr e ↦ rw e (λ q. (ground (arith, get-put pm.used_tcp p q true), refl), refl, refl, refl, refl)
]

abbrev pub Outcome : String → ℕ → PortManager → Option ℕ × PortManager → Type 0
Outcome proto want pm (some p, pm') =
    (want ≡ 0 ⊎ want ≡ p)
    × pm.min ≤ p
    × p ≤ pm.max
    × marked (used proto pm) p ≡ false
    × Marks proto p pm pm'
Outcome proto want pm (none, pm') =
    pm' ≡ pm
    × ((q : ℕ) → want ≡ 0 ⊎ want ≡ q → pm.min ≤ q → q ≤ pm.max → marked (used proto pm) q ≡ true)

reserved_any :
    (proto : String) (want : ℕ) (pm : PortManager) (o : Option ℕ)
    → want ≡ 0
    → Found (used proto pm) pm.min (suc pm.max - pm.min) o
    → Outcome proto want pm (reserved proto o pm)
reserved_any proto want pm none e h = (refl, λ q _ a b. h q a (omega arith))
reserved_any proto want pm (some p) e (a, b, c, _) =
    (inl e, a, omega arith, c, taken-Marks proto p pm)

-- A reserved port is in the pool's range and was free, it is the one asked for where one was asked
-- for, and nothing but its mark changes. A refusal changes nothing, and says that the port asked
-- for, or every port of the range where none was asked for, is marked or out of the range.
pub reserve_lem :
    (proto : String) (want : ℕ) (pm : PortManager) → Outcome proto want pm (reserve proto want pm)
unfolding reserve
reserve_lem proto want pm = elim (Bool-cases (want == 0)) [
  | inl e ↦ rw e (
      reserved_any proto want pm _ (ground arith)
        (first_free_lem (used proto pm) pm.min (suc pm.max - pm.min)))
  | inr e ↦
      rw e (elim (Bool-cases (ltb want pm.min || ltb pm.max want || marked (used proto pm) want)) [
        | inl f ↦ rw f (refl, λ q a b c. refused q e f a b c)
        | inr f ↦
            rw f (inr refl, ground arith, ground arith, ground arith, taken-Marks proto want pm)
      ])
]
  where
    refused :
        (q : ℕ)
        → (want == 0) ≡ false
        → (ltb want pm.min || ltb pm.max want || marked (used proto pm) want) ≡ true
        → want ≡ 0 ⊎ want ≡ q
        → pm.min ≤ q
        → q ≤ pm.max
        → marked (used proto pm) q ≡ true
    refused q e f (inl a) b c = absurd (ground arith)
    refused q e f (inr a) b c = subst (λ r. marked (used proto pm) r ≡ true) a (ground arith)
