-- ===== src/Api.antt =====
-- The control plane of internal/api: keys and tokens, sign-in, entitlements, names, and pairing.
pub mod Keys
pub mod Devices
pub mod Entitlements
pub mod Resources
pub mod Remote
pub mod Tokens
pub mod OauthState
pub mod SignIn
pub mod Rpc
mod Tests
