-- ===== src/Core.antt =====
-- core: the process of the proxy core.
pub mod Events
pub mod Launch
pub mod LogWriter
pub mod Examples
