-- ===== src/Prelude/Dict.antt =====
-- Go's `map`. The representation is private: clients have the laws. The entries stand in an order
-- that no theorem fixes, as Go's iteration order is not fixed.
use mathlib.Core.Path.{◌≡◌, refl, sym, ap, subst, ◌∙◌}
use mathlib.Core.Bool.{Bool, false}
use mathlib.Core.Logic.{inl, inr}
use mathlib.Core.Option.{Option, none, some, none-ne-some, some_inj}
use mathlib.Core.List.{List, [], ◌∷◌, map}
use Prim.Native.Nat.{ℕ, ◌+◌}
use native.Mathlib.Omega.{arith}
use trqsh.Prelude.Tests.{Comparable, ◌==◌, if◌then◌else◌, Bool-cases}
use trqsh.Prelude.Lists.{length}

pub record Dict {ℓ κ} (K : Type ℓ) (V : Type κ) : Type (ℓ ⊔ κ) where
  pub entries : List (K × V)

module _ {ℓ κ} {K : Type ℓ} {V : Type κ} ⦃e : Comparable K⦄ where
  value_at : K → List (K × V) → Option V
  value_at k [] = none
  value_at k ((j, v) ∷ m) = if j == k then some v else value_at k m

  set_at : K → V → List (K × V) → List (K × V)
  set_at k v [] = (k, v) ∷ []
  set_at k v ((j, w) ∷ m) = if j == k then (j, v) ∷ m else (j, w) ∷ set_at k v m

  without : K → List (K × V) → List (K × V)
  without k [] = []
  without k ((j, w) ∷ m) = let rest = without k m in if j == k then rest else (j, w) ∷ rest

  unfoldable pub empty : Dict K V
  empty = record { entries = [] }

  -- v, ok := m[k]
  unfoldable pub get : Dict K V → K → Option V
  unfolding value_at
  get d k = value_at k d.entries

  -- m[k] = v
  unfoldable pub put : Dict K V → K → V → Dict K V
  unfolding set_at
  put d k v = record { entries = set_at k v d.entries }

  -- delete(m, k)
  unfoldable pub delete : Dict K V → K → Dict K V
  unfolding without
  delete d k = record { entries = without k d.entries }

  drop_where : (V → Bool) → List (K × V) → List (K × V)
  drop_where p [] = []
  drop_where p ((k, v) ∷ m) = let rest = drop_where p m in if p v then rest else (k, v) ∷ rest

  -- for k, v := range m { if p(v) { delete(m, k) } }
  unfoldable pub delete_where : (V → Bool) → Dict K V → Dict K V
  unfolding drop_where
  delete_where p d = record { entries = drop_where p d.entries }

  updated : (V → V) → List (K × V) → List (K × V)
  updated f [] = []
  updated f ((k, v) ∷ m) = (k, f v) ∷ updated f m

  -- for _, v := range m, where each turn changes what v refers to
  unfoldable pub update_values : (V → V) → Dict K V → Dict K V
  unfolding updated
  update_values f d = record { entries = updated f d.entries }

  value_at-updated :
      (f : V → V) (k : K) (v : V) (m : List (K × V))
      → value_at k m ≡ some v
      → value_at k (updated f m) ≡ some (f v)
  unfolding value_at updated
  value_at-updated f k v [] h = absurd (none-ne-some v h)
  value_at-updated f k v ((j, w) ∷ m) h = elim (Bool-cases (j == k)) [
    | inl b ↦
        rw b
          (ap some (ap f (some_inj.0 (sym (ap (λ t. if t then some w else value_at k m) b) ∙ h))))
    | inr b ↦
        rw b (value_at-updated f k v m (sym (ap (λ t. if t then some w else value_at k m) b) ∙ h))
  ]

  pub get-update_values :
      (f : V → V) (d : Dict K V) (k : K) (v : V)
      → get d k ≡ some v
      → get (update_values f d) k ≡ some (f v)
  unfolding get update_values
  get-update_values f d k v h = value_at-updated f k v d.entries h

  value_at-drop_where :
      (p : V → Bool) (k : K) (v : V) (m : List (K × V))
      → value_at k m ≡ some v
      → p v ≡ false
      → value_at k (drop_where p m) ≡ some v
  unfolding value_at drop_where
  value_at-drop_where p k v [] h e = absurd (none-ne-some v h)
  value_at-drop_where p k v ((j, w) ∷ m) h e = ground (arith, value_at-drop_where p k v m)

  value_at-set_at :
      (k j : K) (v : V) (m : List (K × V))
      → value_at j (set_at k v m) ≡ (if k == j then some v else value_at j m)
  unfolding value_at set_at
  value_at-set_at k j v [] = refl
  value_at-set_at k j v ((i, w) ∷ m) =
      ground (arith, e.same_iff k j, e.same_iff i k, e.same_iff i j, value_at-set_at k j v m)

  value_at-without :
      (k j : K) (m : List (K × V))
      → value_at j (without k m) ≡ (if k == j then none else value_at j m)
  unfolding value_at without
  value_at-without k j [] = ground arith
  value_at-without k j ((i, w) ∷ m) =
      ground (arith, e.same_iff k j, e.same_iff i k, e.same_iff i j, value_at-without k j m)

  pub get-put :
      (d : Dict K V) (k j : K) (v : V) → get (put d k v) j ≡ (if k == j then some v else get d j)
  unfolding get put
  get-put d k j v = value_at-set_at k j v d.entries

  pub get-put_same : (d : Dict K V) (k : K) (v : V) → get (put d k v) k ≡ some v
  get-put_same d k v = ground (arith, get-put d k k v, e.same_iff k k)

  pub get-delete :
      (d : Dict K V) (k j : K) → get (delete d k) j ≡ (if k == j then none else get d j)
  unfolding get delete
  get-delete d k j = value_at-without k j d.entries

  pub get-delete_where :
      (p : V → Bool) (d : Dict K V) (k : K) (v : V)
      → get d k ≡ some v
      → p v ≡ false
      → get (delete_where p d) k ≡ some v
  unfolding get delete_where
  get-delete_where p d k v h e = value_at-drop_where p k v d.entries h e

  pub get-empty : (k : K) → get empty k ≡ none
  unfolding get empty
  get-empty k = refl

module _ {ℓ κ} {K : Type ℓ} {V : Type κ} where
  -- range m, the values
  abbrev pub values : Dict K V → List V
  values d = map (λ p. p.1) d.entries

  -- range m, the keys
  abbrev pub keys : Dict K V → List K
  keys d = map (λ p. p.0) d.entries

  -- len(m)
  abbrev pub size : Dict K V → ℕ
  size d = length d.entries

pub ruleset dict_laws = (get-empty, get-put, get-delete)

-- Every value of a map has a property.
module _ {ℓ κ μ} {K : Type ℓ} {V : Type κ} (P : V → Type μ) where
  abbrev pub All : List (K × V) → Type μ
  All [] = Unit
  All ((k, v) ∷ m) = P v × All m

  abbrev pub AllValues : Dict K V → Type μ
  AllValues d = All d.entries

  module _ ⦃e : Comparable K⦄ where
    All-set_at : (k : K) (v : V) (m : List (K × V)) → P v → All m → All (set_at k v m)
    unfolding set_at
    All-set_at k v [] h a = (h, a)
    All-set_at k v ((j, w) ∷ m) h (b, a) = elim (Bool-cases (j == k)) [
      | inl e ↦ rw e (h, a)
      | inr e ↦ rw e (b, All-set_at k v m h a)
    ]

    All-without : (k : K) (m : List (K × V)) → All m → All (without k m)
    unfolding without
    All-without k [] a = a
    All-without k ((j, w) ∷ m) (b, a) = elim (Bool-cases (j == k)) [
      | inl e ↦ rw e (All-without k m a)
      | inr e ↦ rw e (b, All-without k m a)
    ]

    value_at-All : (k : K) (v : V) (m : List (K × V)) → All m → value_at k m ≡ some v → P v
    unfolding value_at
    value_at-All k v [] a h = absurd (none-ne-some v h)
    value_at-All k v ((j, w) ∷ m) (b, a) h = elim (Bool-cases (j == k)) [
      | inl e ↦ subst P (some_inj.0 (sym (ap (λ c. if c then some w else value_at k m) e) ∙ h)) b
      | inr e ↦ value_at-All k v m a (sym (ap (λ c. if c then some w else value_at k m) e) ∙ h)
    ]

    pub AllValues-put : (d : Dict K V) (k : K) (v : V) → P v → AllValues d → AllValues (put d k v)
    unfolding put
    AllValues-put d k v h a = All-set_at k v d.entries h a

    pub AllValues-delete : (d : Dict K V) (k : K) → AllValues d → AllValues (delete d k)
    unfolding delete
    AllValues-delete d k a = All-without k d.entries a

    pub AllValues-get : (d : Dict K V) (k : K) (v : V) → AllValues d → get d k ≡ some v → P v
    unfolding get
    AllValues-get d k v a h = value_at-All k v d.entries a h

    All-updated :
        (f : V → V) (m : List (K × V)) → ((v : V) → P v → P (f v)) → All m → All (updated f m)
    unfolding updated
    All-updated f [] h a = a
    All-updated f ((k, v) ∷ m) h (a, b) = (h v a, All-updated f m h b)

    pub AllValues-update_values :
        (f : V → V) (d : Dict K V)
        → ((v : V) → P v → P (f v))
        → AllValues d
        → AllValues (update_values f d)
    unfolding update_values
    AllValues-update_values f d h a = All-updated f d.entries h a

abbrev pub or_nothing {κ} : {V : Type κ} → (V → ℕ) → Option V → ℕ
or_nothing f none = 0
or_nothing f (some v) = f v

-- Sums over the values of a map.
module _ {ℓ κ} {K : Type ℓ} {V : Type κ} (f : V → ℕ) where
  unfoldable pub sum_entries : List (K × V) → ℕ
  sum_entries [] = 0
  sum_entries ((k, v) ∷ m) = f v + sum_entries m

  unfoldable pub sum_values : Dict K V → ℕ
  unfolding sum_entries
  sum_values d = sum_entries d.entries

  module _ ⦃c : Comparable K⦄ where
    sum_entries-set_at :
        (k : K) (v : V) (m : List (K × V))
        → sum_entries (set_at k v m) + or_nothing f (value_at k m) ≡ sum_entries m + f v
    unfolding sum_entries set_at value_at
    sum_entries-set_at k v [] = omega arith
    sum_entries-set_at k v ((j, w) ∷ m) = elim (Bool-cases (j == k)) [
      | inl e ↦ rw e (omega arith)
      | inr e ↦ rw e (omega (arith, sum_entries-set_at k v m))
    ]

    pub sum_values-put :
        (d : Dict K V) (k : K) (v : V)
        → sum_values (put d k v) + or_nothing f (get d k) ≡ sum_values d + f v
    unfolding sum_values put get
    sum_values-put d k v = sum_entries-set_at k v d.entries
