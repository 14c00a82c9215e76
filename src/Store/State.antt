-- ===== src/Store/State.antt =====
-- `MemStore` of internal/api/store/mem.go. Every method holds the mutex, so it is one atomic step.
use trqsh.Prelude.{ℕ, String, Bool, List, [], if◌then◌else◌, ◌==◌, string_eq, nat_eq}
use trqsh.Prelude.Dict.{Dict, empty}
use trqsh.Store.Types.{
  User, Org, OrgMember, ApiKey, ReservedSubdomain, CustomDomain, UsageRecord, TunnelSession,
  Subscription, MeteredUsage,
}

pub record MemStore : Type 0 where
  pub users : Dict String User
  pub users_email : Dict String String
  pub orgs : Dict String Org
  pub members : List OrgMember
  pub keys : Dict String ApiKey
  pub key_prefix : Dict String String
  pub subs : Dict String ReservedSubdomain
  pub sub_by_name : Dict String String
  pub domains : Dict String CustomDomain
  pub dom_by_name : Dict String String
  pub usage : List UsageRecord
  pub subs_by_org : Dict String Subscription
  pub subs_by_stripe : Dict String String
  pub events : Dict String Bool
  pub metered : List MeteredUsage
  pub metered_seq : ℕ
  pub tunnels : List TunnelSession

unfoldable pub new_mem_store : MemStore
unfolding empty
new_mem_store = record {
  users = empty;
  users_email = empty;
  orgs = empty;
  members = [];
  keys = empty;
  key_prefix = empty;
  subs = empty;
  sub_by_name = empty;
  domains = empty;
  dom_by_name = empty;
  usage = [];
  subs_by_org = empty;
  subs_by_stripe = empty;
  events = empty;
  metered = [];
  metered_seq = 0;
  tunnels = [];
}

-- if id == "" { id = NewID(prefix) }: the identifier that the call would draw is an argument.
abbrev pub or_new_id : String → String → String
or_new_id id fresh = if id == "" then fresh else id

-- if at.IsZero() { at = time.Now() }
abbrev pub or_now : ℕ → ℕ → ℕ
or_now at now = if at == 0 then now else at
