-- ===== src/Payloads.antt =====
-- The payload manager (packages/snjs/lib/Services/Payloads).
pub mod Models
pub mod Manager
