-- ===== src/Castore.antt =====
-- The tvix-castore data model (castore/src).
pub mod Component
pub mod Path
pub mod Nodes
pub mod Proto
pub mod OrderValidator
pub mod Fs
mod Examples
