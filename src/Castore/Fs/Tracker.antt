-- ===== src/Castore/Fs/Tracker.antt =====
-- castore/src/fs/inode_tracker.rs: the inodes that are allocated. A `HashMap` is the function that looks its
-- keys up; a panic is `none`.
pub mod Invariant
pub mod Growth
pub mod Put
pub mod Replace
use tvix.Prelude.{
  ℕ, ◌+◌, ◌%◌, ◌^◌, ◌≡◌, refl, Bool, true, false, List, Option, none, some, Bytes, bytes_eq, ◌==◌,
  if◌then◌else◌,
}
use tvix.Castore.Nodes.{B3Digest}
use tvix.Castore.Fs.Inodes.{
  DirectoryInodeData, InodeData, regular, symlink, directory, sparse, populated, Key, blob, link,
  dir, key_of, key_eq, digest_eq,
}

-- `HashMap::insert`.
abbrev pub insert {ℓ κ} :
    {K : Type ℓ} {V : Type κ} → (K → K → Bool) → K → V → (K → Option V) → K → Option V
insert eq k v m j = if eq k j then some v else m j

pub record InodeTracker : Type 0 where
  pub data_of : ℕ → Option InodeData
  pub blob_digest_to_inode : B3Digest → Option ℕ
  pub symlink_target_to_inode : Bytes → Option ℕ
  pub directory_digest_to_inode : B3Digest → Option ℕ
  pub next_inode : ℕ

-- `InodeTracker::default`.
abbrev pub no_inodes : InodeTracker
no_inodes = record {
  data_of = λ _. none;
  blob_digest_to_inode = λ _. none;
  symlink_target_to_inode = λ _. none;
  directory_digest_to_inode = λ _. none;
  next_inode = 2;
}

unfoldable pub get : ℕ → InodeTracker → Option InodeData
get ino t = t.data_of ino

-- `replace`, which panics on an inode that is not known.
unfoldable pub replace : ℕ → InodeData → InodeTracker → Option InodeTracker
replace ino d t = elim (t.data_of ino) [
  | none ↦ none
  | some old ↦ some (record t { data_of = insert ◌==◌ ino d t.data_of })
]

-- The match of `insert_and_increment` that inserts into the lookup tables.
abbrev pub register : InodeData → ℕ → InodeTracker → InodeTracker
register (regular digest size executable) ino t = record t {
  blob_digest_to_inode = insert digest_eq digest ino t.blob_digest_to_inode;
}
register (symlink target) ino t = record t {
  symlink_target_to_inode = insert bytes_eq target ino t.symlink_target_to_inode;
}
register (directory (sparse digest size)) ino t = record t {
  directory_digest_to_inode = insert digest_eq digest ino t.directory_digest_to_inode;
}
register (directory (populated digest children)) ino t = record t {
  directory_digest_to_inode = insert digest_eq digest ino t.directory_digest_to_inode;
}

unfoldable pub insert_and_increment : InodeData → InodeTracker → ℕ × InodeTracker
insert_and_increment d t =
    let ino = t.next_inode in
    let registered = register d ino t in
    (
      ino,
      record registered {
        data_of = insert ◌==◌ ino d t.data_of;
        next_inode = (t.next_inode + 1) % 2 ^ 64;
      },
    )

abbrev found_or_insert : InodeData → InodeTracker → Option ℕ → ℕ × InodeTracker
found_or_insert d t (some found_ino) = (found_ino, t)
found_or_insert d t none = insert_and_increment d t

-- `put`, which panics on a populated directory.
unfoldable pub put : InodeData → InodeTracker → Option (ℕ × InodeTracker)
put (regular digest size executable) t =
    some (found_or_insert (regular digest size executable) t (t.blob_digest_to_inode digest))
put (symlink target) t =
    some (found_or_insert (symlink target) t (t.symlink_target_to_inode target))
put (directory (sparse digest size)) t =
    some (found_or_insert (directory (sparse digest size)) t (t.directory_digest_to_inode digest))
put (directory (populated digest children)) t = none
