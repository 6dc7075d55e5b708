-- ===== src/Castore/OrderValidator.antt =====
-- castore/src/directoryservice/order_validator.rs: the two checks of the order in which the
-- directories of a closure arrive. The digest of a directory is a BLAKE3 hash of its encoding, neither of
-- which is implemented here: it is the parameter `digest`.
pub mod Closure
use tvix.Prelude.{
  ℕ, ◌≡◌, Bool, true, false, List, [], ◌∷◌, ◌||◌, ◌&&◌, if◌then◌else◌, is_empty, bytes_eq, not,
}
use tvix.Castore.Nodes.{B3Digest, Node, directory, file, symlink}
use tvix.Castore.Nodes.Directory.{Directory, Entry}

-- `HashSet<B3Digest>`: `contains` and `insert`.
unfoldable pub contains : List B3Digest → B3Digest → Bool
contains [] d = false
contains (x ∷ xs) d = bytes_eq x.bytes d.bytes || contains xs d

unfoldable pub insert : B3Digest → List B3Digest → List B3Digest
insert d xs = if contains xs d then xs else d ∷ xs

pub record RootToLeavesValidator : Type 0 where
  pub expected_digests : List B3Digest

pub record LeavesToRootValidator : Type 0 where
  pub allowed_references : List B3Digest

-- `RootToLeavesValidator::default`, and `LeavesToRootValidator::default`.
abbrev pub any_root : RootToLeavesValidator
any_root = record { expected_digests = [] }

abbrev pub no_references : LeavesToRootValidator
no_references = record { allowed_references = [] }

unfoldable pub new_with_root_digest : B3Digest → RootToLeavesValidator
unfolding insert
new_with_root_digest root_digest = record { expected_digests = insert root_digest [] }

unfoldable pub digest_allowed : RootToLeavesValidator → B3Digest → Bool
unfolding contains
digest_allowed v digest = is_empty v.expected_digests || contains v.expected_digests digest

-- The loop that lets the children of a directory appear next.
allow_children : List Entry → List B3Digest → List B3Digest
allow_children [] expected = expected
allow_children ((name, directory digest size) ∷ es) expected =
    allow_children es (insert digest expected)
allow_children ((name, file digest size executable) ∷ es) expected = allow_children es expected
allow_children ((name, symlink target) ∷ es) expected = allow_children es expected

-- The loop that looks for a reference to an unknown directory; false where it returns.
references_known : List Entry → List B3Digest → Bool
references_known [] allowed = true
references_known ((name, directory digest size) ∷ es) allowed =
    let rest = references_known es allowed in if not (contains allowed digest) then false else rest
references_known ((name, file digest size executable) ∷ es) allowed = references_known es allowed
references_known ((name, symlink target) ∷ es) allowed = references_known es allowed

module _ (digest : Directory → B3Digest) where
  unfoldable pub add_directory_unchecked : RootToLeavesValidator → Directory → RootToLeavesValidator
  unfolding insert allow_children
  add_directory_unchecked v d =
      let expected =
        if is_empty v.expected_digests
        then insert (digest d) v.expected_digests
        else v.expected_digests in
      record { expected_digests = allow_children d.nodes expected }

  -- `add_directory` of each validator: the validator afterwards, and whether it accepts.
  unfoldable pub root_to_leaves_add :
      RootToLeavesValidator → Directory → RootToLeavesValidator × Bool
  unfolding digest_allowed
  root_to_leaves_add v d =
      if not (digest_allowed v (digest d)) then (v, false) else (add_directory_unchecked v d, true)

  unfoldable pub leaves_to_root_add :
      LeavesToRootValidator → Directory → LeavesToRootValidator × Bool
  unfolding references_known insert
  leaves_to_root_add v d =
      if references_known d.nodes v.allowed_references
      then (record { allowed_references = insert (digest d) v.allowed_references }, true)
      else (v, false)

  -- A caller that hands over one directory after the other, and stops at the first refusal: false
  -- where one is refused.
  unfoldable pub add_all_leaves_to_root :
      LeavesToRootValidator → List Directory → LeavesToRootValidator × Bool
  add_all_leaves_to_root v [] = (v, true)
  add_all_leaves_to_root v (d ∷ ds) =
      let (v', accepted) = leaves_to_root_add v d in
      let rest = add_all_leaves_to_root v' ds in if accepted then rest else (v', false)

  unfoldable pub add_all_root_to_leaves :
      RootToLeavesValidator → List Directory → RootToLeavesValidator × Bool
  add_all_root_to_leaves v [] = (v, true)
  add_all_root_to_leaves v (d ∷ ds) =
      let (v', accepted) = root_to_leaves_add v d in
      let rest = add_all_root_to_leaves v' ds in if accepted then rest else (v', false)
