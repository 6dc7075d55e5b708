-- ===== src/NixCompat.antt =====
-- The formats of Nix (nix-compat/src).
pub mod Nixbase32
pub mod StorePath
pub mod NixHash
pub mod Nar
pub mod Wire
pub mod Examples
