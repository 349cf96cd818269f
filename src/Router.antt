-- ===== src/Router.antt =====
-- processrouter: which programs go through the proxy.
pub mod Wildcard
pub mod Patterns
pub mod Requests
pub mod Commands
pub mod Manager
pub mod Diagnostics
pub mod Examples
