-- ===== src/NixCompat/StorePath/Utils/References.antt =====
-- nix-compat/src/store_path/utils.rs: the self-references that are refused.
use tvix.NixCompat.NixHash.{NixHash}
