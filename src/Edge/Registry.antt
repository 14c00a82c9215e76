-- ===== src/Edge/Registry.antt =====
-- InMemoryRegistry of internal/server/registry.go. A call reads the clock at `now`; a duration that
-- is not positive is 0, and so is Go's zero time.
use trqsh.Prelude.{
  ℕ, ◌+◌, String, not, ◌&&◌, Option, none, some, ltb, if◌then◌else◌, ◌==◌, string_eq, nat_eq,
}
use trqsh.Prelude.Dict.{Dict, empty, get, put, delete}
use trqsh.Edge.Routes.{Route, RouteKey, route_key, route_key_eq, Binding}

pub record MemEntry {ℓ} (A : Type ℓ) : Type ℓ where
  pub value : A
  pub expiry : ℕ

pub record Registry : Type 0 where
  pub routes : Dict RouteKey (MemEntry Binding)
  pub edges : Dict String (MemEntry String)

unfoldable pub new_registry : Registry
new_registry = record { routes = empty; edges = empty }

abbrev pub expiry_from : ℕ → ℕ → ℕ
expiry_from now ttl = if ttl == 0 then 0 else now + ttl

-- The entry's value, unless its expiry has passed.
abbrev live {ℓ} : {A : Type ℓ} → ℕ → Option (MemEntry A) → Option A
live now none = none
live now (some e) = if not (e.expiry == 0) && ltb e.expiry now then none else some e.value

unfoldable pub bind : ℕ → Route → Binding → ℕ → Registry → Registry
bind now route b ttl r = record r {
  routes = put r.routes (route_key route) (record { value = b; expiry = expiry_from now ttl });
}

unfoldable pub refresh : ℕ → Route → ℕ → Registry → Registry
refresh now route ttl r = elim (get r.routes (route_key route)) [
  | none ↦ r
  | some e ↦ record r {
    routes = put r.routes (route_key route) (record e { expiry = expiry_from now ttl });
  }
]

unfoldable pub lookup : ℕ → Route → Registry → Option Binding
lookup now route r = live now (get r.routes (route_key route))

unfoldable pub unbind : Route → Registry → Registry
unbind route r = record r { routes = delete r.routes (route_key route) }

unfoldable pub register_edge : ℕ → String → String → ℕ → Registry → Registry
register_edge now edge_id addr ttl r = record r {
  edges = put r.edges edge_id (record { value = addr; expiry = expiry_from now ttl });
}

unfoldable pub lookup_edge : ℕ → String → Registry → Option String
lookup_edge now edge_id r = live now (get r.edges edge_id)

unfoldable pub unregister_edge : String → Registry → Registry
unregister_edge edge_id r = record r { edges = delete r.edges edge_id }
