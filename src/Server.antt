-- ===== src/Server.antt =====
-- internal/server: the RPC handlers of the daemon. `Server.mu` is held from a handler's first step
-- to its last (only Exec, Put and GetSession run without it, and write no record), so that a
-- handler is one action.
pub mod Records
pub mod Fault
pub mod Bootstrap
pub mod Draft
pub mod Lifecycle
pub mod Lease
pub mod Guest
pub mod Create
pub mod Apply
pub mod Timeline
