-- ===== src/Castore/Examples.antt =====
-- The theorems of castore at concrete inputs, and small tests.
mod Paths
mod Directories
mod Inodes
