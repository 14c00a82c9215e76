-- ===== src/Api/Devices/Delivery.antt =====
-- The key of a device login (internal/api/auth/device.go) is delivered once, after approval.
use trqsh.Prelude.{
  ℕ, ◌+◌, ◌≤◌, String, ◌≡◌, ◌≢◌, refl, true, some, arith, eq_refl, string_eq, Option-cases, inl,
  inr, ap, ◌∙◌,
}
use trqsh.Prelude.Text.{to_upper, trim_space}
use trqsh.Prelude.Dict.{get, put, get-put_same, get-delete}
use trqsh.Api.Devices.{
  DeviceRequest, DeviceStore, device_ttl, create, approve, poll, delivered, device_pending,
  device_unknown,
}

-- A device code answers a key, or that it has expired, once: every later poll finds it unknown.
pub poll_once :
    (now now' : ℕ) (code : String) (d : DeviceStore)
    → (poll now code d).0 ≢ device_pending
    → (poll now' code (poll now code d).1).0 ≡ device_unknown
unfolding poll
poll_once now now' code d h = elim (Option-cases (get d.by_device code)) [
  | inl e ↦ ground arith
  | inr (req, e) ↦ ground (arith, get-delete d.by_device code code, eq_refl code)
]

approve_lem :
    (typed org key : String) (d : DeviceStore) (code : String) (req : DeviceRequest)
    → get d.by_user (to_upper (trim_space typed)) ≡ some code
    → get d.by_device code ≡ some req
    → approve typed org key d ≡ (
      true,
      record d {
        by_device =
            put d.by_device code (record req { approved = true; org_id = org; api_key = key });
      },
    )
unfolding approve
approve_lem typed org key d code req e f = ground arith

module _ (now now' : ℕ) (code user : String) (d : DeviceStore) (h : now' ≤ now + device_ttl) where
  requested : DeviceRequest
  unfolding create
  requested = (create now code user d).0

  poll_pending : let d1 = (create now code user d).1 in poll now' code d1 ≡ (device_pending, d1)
  unfolding create poll requested
  poll_pending = ground (arith, get-put_same d.by_device code requested)

  approve-poll :
      (typed org key : String)
      → to_upper (trim_space typed) ≡ user
      → let (done, d2) = approve typed org key (create now code user d).1 in
        done ≡ true × (poll now' code d2).0 ≡ delivered key
  unfolding create poll requested
  approve-poll typed org key e =
      let req : DeviceRequest = record requested { approved = true; org_id = org; api_key = key } in
      let d1 = (create now code user d).1 in
      let named : get d1.by_user (to_upper (trim_space typed)) ≡ some code =
        ap (get d1.by_user) e ∙ get-put_same d.by_user user code in
      let f =
        approve_lem typed org key d1 code requested named
          (get-put_same d.by_device code requested) in
      rw f (refl, ground (arith, get-put_same d1.by_device code req))

-- A login that is created, approved under its user code, however it is typed, and polled within ten
-- minutes is given the key of the approval; polled before the approval it is pending.
pub create-approve-poll :
    (now now' : ℕ) (code user typed org key : String) (d : DeviceStore)
    → to_upper (trim_space typed) ≡ user
    → now' ≤ now + device_ttl
    → let d1 = (create now code user d).1 in
      let (done, d2) = approve typed org key d1 in
      poll now' code d1 ≡ (device_pending, d1) × done ≡ true × (poll now' code d2).0 ≡ delivered key
create-approve-poll now now' code user typed org key d e h =
    let (done, got) = approve-poll now now' code user d h typed org key e in
    (poll_pending now now' code user d h, done, got)
