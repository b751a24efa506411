-- ===== src/Sync.antt =====
-- The sync subsystem (packages/snjs/lib/Services/Sync).
pub mod OpStatus
pub mod Response
pub mod Operation
pub mod Service
pub mod Priority
pub mod Loading
