-- ===== src/Entitlerpc/Cache.antt =====
-- The answers that the client of internal/entitlerpc keeps are at most thirty seconds old.
use trqsh.Prelude.{
  ℕ, ◌+◌, ◌<◌, ◌≡◌, ◌⊎◌, inl, inr, refl, sym, ap, subst, ◌∙◌, String, true, Option, none, some,
  List, [], ◌∷◌, ltb, ltb→lt, if◌then◌else◌, ◌==◌, string_eq, nat_eq, arith, eq_iff, Bool-cases,
  Option-cases,
}
use mathlib.Core.Option.{some_inj, none-ne-some}
use trqsh.Prelude.Dict.{get, put, get-put, get-empty}
use trqsh.Entitlerpc.{
  Codecs, Exchange, Client, AuthCacheEntry, new_client, cache_ttl, cached, fetch, authenticate,
  remembered,
}

-- A call of Authenticate: when it starts, when its answer has come, and its key.
abbrev pub Call : Type 0
Call = ℕ × ℕ × String

module _ {S : Type 0} (json : Codecs) (token : String) (exchange : Exchange S) where
  abbrev pub after_calls : List Call → Client × S → Client × S
  after_calls [] x = x
  after_calls ((now, later, key) ∷ cs) x =
      after_calls cs (authenticate json token exchange now later key x).1

  -- In one of the calls the control plane gave this account and plan for the key, at the time t.
  abbrev pub AnsweredAt : ℕ → String → String × String → List Call → Client × S → Type 0
  AnsweredAt t key who [] x = ⊥
  AnsweredAt t key who ((now, later, k) ∷ cs) x =
      (k ≡ key × later ≡ t × (fetch json token exchange key x.1).0 ≡ some who)
      ⊎ AnsweredAt t key who cs (authenticate json token exchange now later k x).1

  abbrev pub entry : String × String → ℕ → AuthCacheEntry
  entry (account_id, plan) t = record {
    account_id = account_id;
    plan = plan;
    expiry = t + cache_ttl;
  }

  get-remembered :
      (later : ℕ) (k key : String) (r : Option (String × String)) (c : Client) (e : AuthCacheEntry)
      → get (remembered json token exchange later k r c).auth_cache key ≡ some e
      → get c.auth_cache key ≡ some e
        ⊎ (k ≡ key × ((who : String × String) × r ≡ some who × e ≡ entry who later))
  get-remembered later k key none c e h = inl h
  get-remembered later k key (some who) c e h = elim (Bool-cases (k == key)) [
    | inl b ↦ inr ((eq_iff k key).0 b, (who, refl, sym (some_inj.0 (sym (put_at who b) ∙ h))))
    | inr b ↦ inl (
        sym (
          get-put c.auth_cache k key (entry who later)
          ∙ ap (λ t. if t then some (entry who later) else get c.auth_cache key) b)
        ∙ h)
  ]
    where
      put_at :
          (who : String × String)
          → (k == key) ≡ true
          → get (put c.auth_cache k (entry who later)) key ≡ some (entry who later)
      put_at who b =
          get-put c.auth_cache k key (entry who later)
          ∙ ap (λ t. if t then some (entry who later) else get c.auth_cache key) b

  authenticate-cached :
      (now later : ℕ) (k : String) (r : String × String) (c : Client) (s : S)
      → cached now (get c.auth_cache k) ≡ some r
      → authenticate json token exchange now later k (c, s) ≡ (some r, (c, s))
  unfolding authenticate
  authenticate-cached now later k r c s n = rw (n, authenticate) refl

  pub authenticate-fetched :
      (now later : ℕ) (k : String) (c : Client) (s : S)
      → cached now (get c.auth_cache k) ≡ none
      → authenticate json token exchange now later k (c, s) ≡ (
          let (r, s') = fetch json token exchange k s in
          (r, (remembered json token exchange later k r c, s')))
  unfolding authenticate
  authenticate-fetched now later k c s n = rw (n, authenticate) refl

  get-authenticate :
      (now later : ℕ) (k key : String) (c : Client) (s : S) (e : AuthCacheEntry)
      → get (authenticate json token exchange now later k (c, s)).1.0.auth_cache key ≡ some e
      → get c.auth_cache key ≡ some e
        ⊎ (k ≡ key
            × ((who : String × String) × (fetch json token exchange k s).0 ≡ some who
                × e ≡ entry who later))
  get-authenticate now later k key c s e h = elim (Option-cases (cached now (get c.auth_cache k))) [
    | inl n ↦
        get-remembered later k key (fetch json token exchange k s).0 c e
          (sym (ap (λ y. get y.1.0.auth_cache key) (authenticate-fetched now later k c s n)) ∙ h)
    | inr (r, n) ↦
        inl (sym (ap (λ y. get y.1.0.auth_cache key) (authenticate-cached now later k r c s n)) ∙ h)
  ]

  -- An entry was there before the calls, or was made of an answer in one of them.
  get-after_calls :
      (key : String) (cs : List Call) (c : Client) (s : S) (e : AuthCacheEntry)
      → get (after_calls cs (c, s)).0.auth_cache key ≡ some e
      → get c.auth_cache key ≡ some e
        ⊎ ((t : ℕ) × (who : String × String) × e ≡ entry who t × AnsweredAt t key who cs (c, s))
  get-after_calls key [] c s e h = inl h
  get-after_calls key ((now, later, k) ∷ cs) c s e h =
      let x = (authenticate json token exchange now later k (c, s)).1 in
      elim (get-after_calls key cs x.0 x.1 e h) [
        | inr (t, who, f, a) ↦ inr (t, who, f, inr a)
        | inl g ↦ elim (get-authenticate now later k key c s e g) [
          | inl b ↦ inl b
          | inr (q, (who, f, b)) ↦ inr (
            later,
            who,
            b,
            inl (q, refl, subst (λ z. (fetch json token exchange z s).0 ≡ some who) q f),
          )
        ]
      ]

  cached-some :
      (now : ℕ) (o : Option AuthCacheEntry) (r : String × String)
      → cached now o ≡ some r
      → (e : AuthCacheEntry) × o ≡ some e × now < e.expiry × r ≡ (e.account_id, e.plan)
  cached-some now none r h = absurd (ground arith)
  cached-some now (some e) r h = elim (Bool-cases (ltb now e.expiry)) [
    | inl b ↦ (
      e,
      refl,
      ltb→lt now e.expiry b,
      some_inj.0 (sym h ∙ ap (λ t. if t then some (e.account_id, e.plan) else none) b),
    )
    | inr b ↦ absurd (ground arith)
  ]

  -- After any calls on a new client, an account and a plan that Authenticate gives for a key are what
  -- the control plane gives for it now, or what it gave for the same key in an earlier call whose answer
  -- came less than thirty seconds ago.
  pub authenticate-after_calls :
      (now later : ℕ) (key : String) (who : String × String) (cs : List Call) (s : S)
      → let x = after_calls cs (new_client, s) in
        (authenticate json token exchange now later key x).0 ≡ some who
        → (fetch json token exchange key x.1).0 ≡ some who
          ⊎ ((t : ℕ) × now < t + cache_ttl × AnsweredAt t key who cs (new_client, s))
  authenticate-after_calls now later key who cs s h =
      let x = after_calls cs (new_client, s) in
      elim (Option-cases (cached now (get x.0.auth_cache key))) [
        | inl n ↦ inl (sym (ap (λ y. y.0) (authenticate-fetched now later key x.0 x.1 n)) ∙ h)
        | inr (r, n) ↦
            let (e, f, l, g) = cached-some now (get x.0.auth_cache key) r n in
            let w : r ≡ who =
              some_inj.0
                (sym (ap (λ y. y.0) (authenticate-cached now later key r x.0 x.1 n)) ∙ h) in
            inr (earlier e l (sym g ∙ w) (get-after_calls key cs new_client s e f))
      ]
    where
      earlier :
          (e : AuthCacheEntry)
          → now < e.expiry
          → (e.account_id, e.plan) ≡ who
          → get new_client.auth_cache key ≡ some e
            ⊎ ((t : ℕ) × (w : String × String) × e ≡ entry w t
                × AnsweredAt t key w cs (new_client, s))
          → (t : ℕ) × now < t + cache_ttl × AnsweredAt t key who cs (new_client, s)
      earlier e l p (inl g) = absurd (none-ne-some e (sym (get-empty key) ∙ g))
      earlier e l p (inr (t, w, q, a)) = (
        t,
        subst (λ z. now < z.expiry) q l,
        subst (λ z. AnsweredAt t key z cs (new_client, s))
            (ap (λ z. (z.account_id, z.plan)) (sym q) ∙ p) a,
      )
