-- ===== src/Eval.antt =====
-- The evaluator (eval/src).
pub mod Chunk
pub mod Scope
pub mod Upvalues
pub mod Attrs
pub mod Versions
mod Examples
