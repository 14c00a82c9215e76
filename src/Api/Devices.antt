-- ===== src/Api/Devices.antt =====
-- deviceStore of internal/api/auth/device.go. The codes that a call draws are arguments.
pub mod Delivery
use trqsh.Prelude.{
  ℕ, ◌+◌, ◌*◌, ◌^◌, String, Bool, true, false, Option, none, some, ltb, if◌then◌else◌, ◌==◌,
  string_eq,
}
use trqsh.Prelude.Text.{to_upper, trim_space}
use trqsh.Prelude.Dict.{Dict, empty, get, put, delete}

pub record DeviceRequest : Type 0 where
  pub device_code : String
  pub user_code : String
  pub org_id : String
  pub api_key : String
  pub approved : Bool
  pub created_at : ℕ

pub record DeviceStore : Type 0 where
  pub by_device : Dict String DeviceRequest
  pub by_user : Dict String String

-- ten minutes, in nanoseconds
abbrev pub device_ttl : ℕ
device_ttl = 10 * 60 * 10 ^ 9

unfoldable pub new_device_store : DeviceStore
new_device_store = record { by_device = empty; by_user = empty }

unfoldable pub create : ℕ → String → String → DeviceStore → DeviceRequest × DeviceStore
create now device_code user_code d =
    let req : DeviceRequest = record {
      device_code = device_code;
      user_code = user_code;
      org_id = "";
      api_key = "";
      approved = false;
      created_at = now;
    } in
    (
      req,
      record {
        by_device = put d.by_device device_code req;
        by_user = put d.by_user user_code device_code;
      },
    )

-- ErrDeviceUnknown is false.
unfoldable pub approve : String → String → String → DeviceStore → Bool × DeviceStore
approve user_code org_id api_key d = elim (get d.by_user (to_upper (trim_space user_code))) [
  | none ↦ (false, d)
  | some dc ↦ elim (get d.by_device dc) [
    | none ↦ (false, d)
    | some req ↦
        let req' = record req { approved = true; org_id = org_id; api_key = api_key } in
        (true, record d { by_device = put d.by_device dc req' })
  ]
]

pub data PollResult : Type 0 where
  delivered : String → PollResult
  device_pending : PollResult
  device_expired : PollResult
  device_unknown : PollResult

abbrev forget : DeviceRequest → String → DeviceStore → DeviceStore
forget req device_code d = record {
  by_device = delete d.by_device device_code;
  by_user = delete d.by_user req.user_code;
}

unfoldable pub poll : ℕ → String → DeviceStore → PollResult × DeviceStore
poll now device_code d = elim (get d.by_device device_code) [
  | none ↦ (device_unknown, d)
  | some req ↦
      if ltb (req.created_at + device_ttl) now
      then (device_expired, forget req device_code d)
      else if req.approved
      then (delivered req.api_key, forget req device_code d)
      else (device_pending, d)
]
