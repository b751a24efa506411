-- ===== src/Items.antt =====
-- Items and the hierarchy of tags (packages/snjs/lib/Services/Items).
pub mod Tags
pub mod Rooted
pub mod Ancestors
pub mod Changes
pub mod Forest
pub mod Parent
pub mod Titles
pub mod Named
pub mod FindOrCreate
pub mod Hierarchy
mod Examples
