-- ===== src/Sysproxy.antt =====
-- route/sysproxyapi: the proxy settings of the system that the service owns.
pub mod Snapshot
pub mod Lease
pub mod Records
pub mod Guard
pub mod Requests
pub mod Examples
