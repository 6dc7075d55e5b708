-- ===== src/Castore/Fs/Inodes.antt =====
-- castore/src/fs/inodes.rs: the data of an inode.
use tvix.Prelude.{ℕ, ◌≡◌, ap, Bool, true, false, List, Bytes, bytes_eq, bytes_eq→eq, bytes_eq_refl}
use tvix.Castore.Component.{PathComponent}
use tvix.Castore.Nodes.{B3Digest, Node}

-- A child: its inode, its name and its node.
abbrev pub Child : Type 0
Child = ℕ × PathComponent × Node

pub data DirectoryInodeData : Type 0 where
  sparse : B3Digest → ℕ → DirectoryInodeData
  populated : B3Digest → List Child → DirectoryInodeData

pub data InodeData : Type 0 where
  regular : B3Digest → ℕ → Bool → InodeData
  symlink : Bytes → InodeData
  directory : DirectoryInodeData → InodeData

-- `InodeData::from_node`.
unfoldable pub from_node : Node → InodeData
from_node (Node.directory digest size) = directory (sparse digest size)
from_node (Node.file digest size executable) = regular digest size executable
from_node (Node.symlink target) = symlink target.inner

-- What an inode is looked up by.
pub data Key : Type 0 where
  blob : B3Digest → Key
  link : Bytes → Key
  dir : B3Digest → Key

unfoldable pub key_of : InodeData → Key
key_of (regular digest size executable) = blob digest
key_of (symlink target) = link target
key_of (directory (sparse digest size)) = dir digest
key_of (directory (populated digest children)) = dir digest

abbrev pub digest_eq : B3Digest → B3Digest → Bool
digest_eq a b = bytes_eq a.bytes b.bytes

abbrev pub key_eq : Key → Key → Bool
key_eq (blob a) (blob b) = digest_eq a b
key_eq (link a) (link b) = bytes_eq a b
key_eq (dir a) (dir b) = digest_eq a b
key_eq _ _ = false

digest_eq→eq : (a b : B3Digest) → digest_eq a b ≡ true → a ≡ b
digest_eq→eq a b h = ap (λ s. record { bytes = s }) (bytes_eq→eq a.bytes b.bytes h)

pub key_eq→eq : (a b : Key) → key_eq a b ≡ true → a ≡ b
key_eq→eq (blob a) (blob b) h = ap blob (digest_eq→eq a b h)
key_eq→eq (link a) (link b) h = ap link (bytes_eq→eq a b h)
key_eq→eq (dir a) (dir b) h = ap dir (digest_eq→eq a b h)
key_eq→eq (blob a) (link b) h = cc
key_eq→eq (blob a) (dir b) h = cc
key_eq→eq (link a) (blob b) h = cc
key_eq→eq (link a) (dir b) h = cc
key_eq→eq (dir a) (blob b) h = cc
key_eq→eq (dir a) (link b) h = cc

pub key_eq_refl : (a : Key) → key_eq a a ≡ true
key_eq_refl (blob a) = bytes_eq_refl a.bytes
key_eq_refl (link a) = bytes_eq_refl a
key_eq_refl (dir a) = bytes_eq_refl a.bytes
