-- ===== src/Auth.antt =====
-- route/auth: request authentication.
pub mod Crypto
pub mod Principals
pub mod KeyRing
pub mod Binding
pub mod Nonce
pub mod Requests
pub mod Examples
