-- ===== src/CoreApi.antt =====
-- route/coreapi: what the clients of the service want of the core.
pub mod Desired
pub mod Examples
