-- ===== src/Firewall.antt =====
-- internal/winfirewall: the rules of the application in the Windows Firewall.
pub mod Policy
pub mod Examples
