-- ===== src/Dns.antt =====
-- route/dnsapi: the lease of DNS settings. The manager's mutex makes each operation one step.
-- A list of servers is `none` for a nil slice, which `reflect.DeepEqual` tells from an empty one.
-- The operating system is part of the state: the settings, the active service, the record file, the clock,
-- and a list of faults, one for each call that can fail, which is over where nothing fails any more.
pub mod Lease
pub mod Operations
pub mod Reconcile
pub mod Bounds
pub mod Safety
pub mod Following
pub mod Reach
pub mod Crash
pub mod Recovery
pub mod Examples
