-- ===== src/Api/Rpc/Edge.antt =====
-- The client of internal/entitlerpc against the service of internal/api/rpc.go.
use trqsh.Prelude.{
  ℕ, zero, suc, ◌≤◌, ◌^◌, ◌≡◌, ◌≢◌, ◌⊎◌, inl, inr, refl, ap, ◌∙◌, String, Bool, true, false, not,
  ◌||◌, Option, none, some, List, [], ◌∷◌, length, take, ◌==◌, string_eq, nat_eq, arith, eq_iff,
  eq_refl, Option-cases,
}
use trqsh.Authz.{BindRequest, Usage}
use trqsh.Store.State.{MemStore}
use trqsh.Entitlerpc.{
  Json, Codecs, Request, Response, CheckBindRequest, TunnelReport, AuthRequest, bind_body,
  decision_of, fetch, post, received, decided, parsed, account_of, report_usage, report_tunnel,
  path_report_usage, path_report_tunnel, new_client, Client, cached, remembered, succeeded,
  path_check_bind, path_authenticate,
}
use trqsh.Entitlerpc
use trqsh.Entitlerpc.Cache.{authenticate-fetched}
use trqsh.Prelude.Dict.{get}
use trqsh.Api.Entitlements.{Quota}
use trqsh.Api.Entitlements
use trqsh.Api.Rpc.{
  Geo, decode, internal_rpc, served, status_only, write_json, bind_response, rpc_check_bind,
}

take_all : (n : ℕ) (xs : List ℕ) → length xs ≤ n → take n xs ≡ xs
take_all zero [] h = refl
take_all zero (x ∷ xs) h = absurd (omega arith)
take_all (suc n) [] h = refl
take_all (suc n) (x ∷ xs) h = ap (λ t. x ∷ t) (take_all n xs (omega arith))

-- A message of at most 1 MiB is decoded to what was encoded.
decode-marshal :
    {A : Type 0}
    → (j : Json A) (a : A) (b : List ℕ) → j.marshal a ≡ some b
    → length b ≤ 2 ^ 20
    → decode j b ≡ some a
decode-marshal j a b h l = ap j.parse (take_all (2 ^ 20) b l) ∙ j.parse-marshal a b h

-- A message that is sent comes back as the body of the answer with the status 200.
post-answered :
    {S A : Type 0}
    → (json : Codecs) (token : String) (exchange : Request → S → Option Response × S) (j : Json A)
      (path : String) (a : A) (s s' : S) (b b' : List ℕ)
    → j.marshal a ≡ some b
    → exchange (record { path = path; token = token; body = b }) s
      ≡ (some (record { status = 200; body = b' }), s')
    → post json token exchange j path a s ≡ (some b', s')
post-answered json token exchange j path a s s' b b' h e =
    rw (h, post) (ap (received json token exchange) e)

module _ (json : Codecs) (internal_token : String) (verify_key : String → String → Bool)
    (quota : Quota) (geo : Geo) (now : ℕ) (random fresh : String) where
  abbrev service : Request → MemStore → Response × MemStore
  service = internal_rpc json internal_token verify_key quota geo now random fresh

  abbrev pub to_service : Request → MemStore → Option Response × MemStore
  to_service = served json internal_token verify_key quota geo now random fresh

  module _ (guarded : internal_token ≢ "") where
    passed : (internal_token == "" || not (internal_token == internal_token)) ≡ false
    passed = ground (arith, eq_iff internal_token "", eq_refl internal_token)

    service-check_bind :
        (b : List ℕ) (m : MemStore)
        → service (record { path = path_check_bind; token = internal_token; body = b }) m
          ≡ rpc_check_bind json internal_token verify_key quota geo now random fresh b m
    unfolding internal_rpc
    service-check_bind b m = rw passed refl

    rpc_check_bind-decoded :
        (req : BindRequest) (b : List ℕ) (m : MemStore)
        → decode json.check_bind_request b ≡ some (bind_body req)
        → rpc_check_bind json internal_token verify_key quota geo now random fresh b m ≡ (
            let (dec, m') = Entitlements.check_bind quota random verify_key now req m in
            (write_json json.check_bind_response (bind_response dec), m'))
    unfolding rpc_check_bind
    rpc_check_bind-decoded req b m h = rw (h, rpc_check_bind) refl

    -- The edge's CheckBind, through an exchange that reaches the service and with its token, gives the
    -- decision of the service's own CheckBind and leaves the store as that does. The request is at most
    -- 1 MiB of JSON and the decision can be encoded.
    pub check_bind-served :
        (req : BindRequest) (m : MemStore) (b b' : List ℕ)
        → json.check_bind_request.marshal (bind_body req) ≡ some b
        → length b ≤ 2 ^ 20
        → json.check_bind_response.marshal
            (bind_response (Entitlements.check_bind quota random verify_key now req m).0)
          ≡ some b'
        → Entitlerpc.check_bind json internal_token to_service req m ≡ (
            let (dec, m') = Entitlements.check_bind quota random verify_key now req m in
            (some dec, m'))
    unfolding Entitlerpc.check_bind
    check_bind-served req m b b' h l h' =
        let (dec, m') = Entitlements.check_bind quota random verify_key now req m in
        let e =
          service-check_bind b m
          ∙ rpc_check_bind-decoded req b m
              (decode-marshal json.check_bind_request (bind_body req) b h l) in
        let f : to_service (record { path = path_check_bind; token = internal_token; body = b }) m
            ≡ (some (record { status = 200; body = b' }), m') =
          ap (λ x. (some x.0, x.1)) e
          ∙ ap
              (λ o. (
                some (record {
                  status = 200;
                  body = elim o as (λ _. List ℕ) [ none ↦ [] | some c ↦ c ];
                }),
                m',
              ))
              h' in
        let g =
          post-answered json internal_token to_service json.check_bind_request path_check_bind
            (bind_body req) m m' b b' h f in
        rw g (
          ap (λ o. (decided json internal_token to_service o, m'))
            (json.check_bind_response.parse-marshal (bind_response dec) b' h'))

  module _ (token : String) (h : token ≢ internal_token ⊎ internal_token ≡ "") (m : MemStore) where
    guard : (internal_token == "" || not (token == internal_token)) ≡ true
    guard = elim h [
      | inl d ↦ ground (arith, eq_iff token internal_token)
      | inr d ↦ ground (arith, eq_iff internal_token "")
    ]

    turned_away :
        (path : String) (b : List ℕ)
        → service (record { path = path; token = token; body = b }) m ≡ (status_only 401, m)
    unfolding internal_rpc
    turned_away path b = rw guard refl

    closed :
        {A : Type 0}
        → (j : Json A) (path : String) (a : A) → post json token to_service j path a m ≡ (none, m)
    closed j path a = elim (Option-cases (j.marshal a)) [
      | inl e ↦ rw (e, post) refl
      | inr (b, e) ↦
          rw (e, post)
            (ap (λ x. received json token to_service (some x.0, x.1)) (turned_away path b))
    ]

  -- A client that does not have the service's token, or any client of a service that has none: each of
  -- its calls fails, unless Authenticate is answered from its cache, and the store stays as it is.
  pub refused-served :
      (token : String) (c : Client) (m : MemStore) (t later : ℕ) (key : String) (req : BindRequest)
      (u : Usage) (tr : TunnelReport)
      → (token ≢ internal_token ⊎ internal_token ≡ "")
      → cached t (get c.auth_cache key) ≡ none
      → Entitlerpc.authenticate json token to_service t later key (c, m) ≡ (none, (c, m))
        × Entitlerpc.check_bind json token to_service req m ≡ (none, m)
        × report_usage json token to_service u m ≡ (false, m)
        × report_tunnel json token to_service tr m ≡ (false, m)
  unfolding Entitlerpc.check_bind fetch report_usage report_tunnel
  refused-served token c m t later key req u tr h n = (
    authenticate-fetched json token to_service t later key c m n
        ∙ ap
            (λ x. (
              account_of json token to_service
                  (parsed json token to_service json.auth_response x.0),
              (
                remembered json token to_service later key
                    (account_of json token to_service
                      (parsed json token to_service json.auth_response x.0))
                    c,
                x.1,
              ),
            ))
            (closed token h m json.auth_request path_authenticate (record { api_key = key })),
    ap
        (λ x. (
          decided json token to_service (parsed json token to_service json.check_bind_response x.0),
          x.1,
        ))
        (closed token h m json.check_bind_request path_check_bind (bind_body req)),
    ap (λ x. (succeeded json token to_service x.0, x.1))
        (closed token h m json.usage_request path_report_usage _),
    ap (λ x. (succeeded json token to_service x.0, x.1))
        (closed token h m json.tunnel_report path_report_tunnel tr),
  )
