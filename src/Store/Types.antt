-- ===== src/Store/Types.antt =====
-- The domain types of internal/api/store/store.go. A `time.Time` is a number, with 0 for Go's zero
-- time; a `*time.Time` is an `Option`; an `int64` counter is a bit pattern (Prelude/Int64).
use trqsh.Prelude.{ℕ, String, Bool, Option}

pub record User : Type 0 where
  pub id : String
  pub email : String
  pub name : String
  pub avatar_url : String
  pub oauth_provider : String
  pub created_at : ℕ

pub record Org : Type 0 where
  pub id : String
  pub name : String
  pub plan : String
  pub stripe_customer_id : String
  pub created_at : ℕ
  pub plan_expires_at : Option ℕ

pub record OrgMember : Type 0 where
  pub org_id : String
  pub user_id : String
  pub role : String

pub record ApiKey : Type 0 where
  pub id : String
  pub org_id : String
  pub name : String
  pub prefix : String
  pub hash : String
  pub last_used_at : Option ℕ
  pub revoked_at : Option ℕ
  pub created_at : ℕ

pub record ReservedSubdomain : Type 0 where
  pub id : String
  pub org_id : String
  pub subdomain : String
  pub created_at : ℕ

pub record CustomDomain : Type 0 where
  pub id : String
  pub org_id : String
  pub domain : String
  pub verify_token : String
  pub verified_at : Option ℕ
  pub cert_status : String
  pub created_at : ℕ

pub record UsageRecord : Type 0 where
  pub org_id : String
  pub tunnel_id : String
  pub bytes_in : ℕ
  pub bytes_out : ℕ
  pub requests : ℕ
  pub window_start : ℕ
  pub window_end : ℕ

pub record TunnelSession : Type 0 where
  pub id : String
  pub org_id : String
  pub edge_id : String
  pub session_id : String
  pub tunnel_id : String
  pub type : String
  pub public_url : String
  pub host : String
  pub port : ℕ
  pub region : String
  pub client_ip : String
  pub country : String
  pub city : String
  pub bytes_in : ℕ
  pub bytes_out : ℕ
  pub requests : ℕ
  pub status : String
  pub started_at : ℕ
  pub ended_at : Option ℕ

pub record TunnelSessionFilter : Type 0 where
  pub org_id : String
  pub active_only : Bool
  pub limit : ℕ
  pub offset : ℕ

pub record Subscription : Type 0 where
  pub id : String
  pub org_id : String
  pub stripe_sub_id : String
  pub stripe_customer_id : String
  pub plan : String
  pub status : String
  pub current_period_end : ℕ
  pub cancel_at_period_end : Bool
  pub created_at : ℕ
  pub updated_at : ℕ

pub record MeteredUsage : Type 0 where
  pub id : ℕ
  pub org_id : String
  pub metric : String
  pub quantity : ℕ
  pub window_start : ℕ
  pub window_end : ℕ
  pub reported_at : Option ℕ
  pub created_at : ℕ
