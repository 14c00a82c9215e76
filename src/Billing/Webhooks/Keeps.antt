-- ===== src/Billing/Webhooks/Keeps.antt =====
-- What holds of a store through the handlers of internal/billing/webhooks.go: one rule for each way
-- to build an action.
use trqsh.Prelude.{Bool, true, false, Option, none, some}
use trqsh.Prelude.Result.{
  Exec, Result, ok, err, not_found, conflict, failure, ◌>>=◌, pure, continue,
}
use trqsh.Billing.Interface.{Keeps}
use trqsh.Billing.Webhooks.{
  decoded, when, or_done, attempt, unless_missing, finish, attempted, unless,
}

module _ {S : Type 0} {P : S → Type 0} where
  pub Keeps-pure : {A : Type 0} (a : A) → Keeps P (pure a)
  Keeps-pure a = record { at = λ s h. h }

  pub Keeps-decoded : {A : Type 0} (o : Option A) → Keeps P (decoded o)
  Keeps-decoded none = record { at = λ s h. h }
  Keeps-decoded (some a) = record { at = λ s h. h }

  pub Keeps-when : (b : Bool) (m : Exec S Unit) → Keeps P m → Keeps P (when b m)
  Keeps-when true m k = k
  Keeps-when false m k = record { at = λ s h. h }

  module _ {A B : Type 0} where
    continue_keeps :
        (r : Result A) (s : S) (f : A → Exec S B)
        → P s
        → ((a : A) → Keeps P (f a))
        → P (continue (r, s) f).1
    continue_keeps (ok a) s f h k = (k a).at s h
    continue_keeps (err e) s f h k = h

    pub Keeps-bind :
        (act : Exec S A) (cont : A → Exec S B)
        → Keeps P act
        → ((a : A) → Keeps P (cont a))
        → Keeps P (act >>= cont)
    Keeps-bind act cont first rest = record {
      at = λ s h. let (r, t) = act s in continue_keeps r t cont (first.at s h) rest;
    }

  module _ {A : Type 0} where
    finish_keeps :
        (r : Result A) (s : S) (f : A → Exec S Unit)
        → P s
        → ((a : A) → Keeps P (f a))
        → P (finish (r, s) f).1
    unfolding finish
    finish_keeps (ok a) s f h k = (k a).at s h
    finish_keeps (err not_found) s f h k = h
    finish_keeps (err conflict) s f h k = h
    finish_keeps (err failure) s f h k = h

    pub Keeps-or_done :
        (m : Exec S A) (f : A → Exec S Unit)
        → Keeps P m
        → ((a : A) → Keeps P (f a))
        → Keeps P (or_done m f)
    unfolding finish
    Keeps-or_done m f km kf = record {
      at = λ s h. let (r, t) = m s in finish_keeps r t f (km.at s h) kf;
    }

    attempted_keeps :
        (r : Result A) (s : S) (f : A → Exec S Unit)
        → P s
        → ((a : A) → Keeps P (f a))
        → P (attempted (r, s) f).1
    unfolding attempted
    attempted_keeps (ok a) s f h k = (k a).at s h
    attempted_keeps (err e) s f h k = h

    pub Keeps-attempt :
        (m : Exec S A) (f : A → Exec S Unit)
        → Keeps P m
        → ((a : A) → Keeps P (f a))
        → Keeps P (attempt m f)
    unfolding attempted
    Keeps-attempt m f km kf = record {
      at = λ s h. let (r, t) = m s in attempted_keeps r t f (km.at s h) kf;
    }

module _ {S : Type 0} (P : S → Type 0) where
  unless_keeps : (r : Result Unit) (s : S) → P s → P (unless (r, s)).1
  unfolding unless
  unless_keeps (ok u) s h = h
  unless_keeps (err not_found) s h = h
  unless_keeps (err conflict) s h = h
  unless_keeps (err failure) s h = h

  pub Keeps-unless_missing : (m : Exec S Unit) → Keeps P m → Keeps P (unless_missing m)
  unfolding unless
  Keeps-unless_missing m k = record { at = λ s h. let (r, t) = m s in unless_keeps r t (k.at s h) }

pub ruleset keeps_rules = (
  Keeps-pure, Keeps-decoded, Keeps-when, Keeps-bind, Keeps-or_done, Keeps-attempt,
  Keeps-unless_missing,
)
