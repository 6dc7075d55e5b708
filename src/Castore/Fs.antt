-- ===== src/Castore/Fs.antt =====
-- castore/src/fs/mod.rs: the lookups of `TvixStoreFs`, one after the other, as functions of its state. The
-- services that it asks are parameters, and so is the error that they give.
pub mod Inodes
pub mod Tracker
pub mod Children
pub mod Lookup
use tvix.Prelude.{
  ℕ, ◌≡◌, Bool, true, false, List, [], ◌∷◌, Option, none, some, Bytes, bytes_eq, ◌==◌,
  if◌then◌else◌, Result, ok, err, Failure, error, panic,
}
use tvix.Castore.Component.{PathComponent, try_from}
use tvix.Castore.Nodes.{B3Digest, Node}
use tvix.Castore.Nodes.Directory.{Directory, Entry}
use tvix.Castore.Fs.Inodes.{
  Child, InodeData, DirectoryInodeData, regular, symlink, directory, sparse, populated, from_node,
}
use tvix.Castore.Fs.Tracker.{InodeTracker, get, replace, put, insert}

-- The errors of the file system: EIO, ENOENT, ENOTDIR, `ErrorKind::NotFound`, which has no number of the
-- operating system, and what the directory service reports.
pub data Errno (E : Type 0) : Type 0 where
  io no_entry not_directory not_found : Errno E
  service : E → Errno E

-- `TvixStoreFs`: its inode tracker and the inodes of the root's names.
pub record TvixStoreFs : Type 0 where
  pub root_nodes : PathComponent → Option ℕ
  pub inode_tracker : InodeTracker

abbrev pub root_id : ℕ
root_id = 1

-- The loop that allocates inodes for children; `none` where `put` panics.
unfoldable pub put_children : List Entry → InodeTracker → Option (List Child × InodeTracker)
put_children [] t = some ([], t)
put_children ((name, node) ∷ es) t = elim (put (from_node node) t) [
  | none ↦ none
  | some (ino, u) ↦ elim (put_children es u) [
    | none ↦ none
    | some (children, v) ↦ some ((ino, name, node) ∷ children, v)
  ]
]

abbrev pub name_eq : PathComponent → PathComponent → Bool
name_eq a b = bytes_eq a.inner b.inner

-- `children.iter().find`.
unfoldable pub find_child : PathComponent → List Child → Option ℕ
find_child name [] = none
find_child name ((ino, n, node) ∷ cs) =
    let rest = find_child name cs in if name_eq n name then some ino else rest

abbrev pub FsResult : Type 0 → Type 0 → Type 0
FsResult E A = Result (Failure (Errno E)) A

module _ {E : Type 0} (get_directory : B3Digest → Result E (Option Directory)) where
  -- The rest of `get_directory_children` for a directory that was fetched.
  unfoldable pub populate :
      ℕ → B3Digest → Directory → InodeTracker → FsResult E ((B3Digest × List Child) × InodeTracker)
  populate ino digest dir t = elim (put_children dir.nodes t) [
    | none ↦ err panic
    | some (children, u) ↦ elim (replace ino (directory (populated digest children)) u) [
      | none ↦ err panic
      | some v ↦ ok ((digest, children), v)
    ]
  ]

  unfoldable pub children_of :
      ℕ → InodeData → InodeTracker → FsResult E ((B3Digest × List Child) × InodeTracker)
  children_of ino (directory (populated digest children)) t = ok ((digest, children), t)
  children_of ino (directory (sparse digest size)) t = elim (get_directory digest) [
    | err e ↦ err (error (service e))
    | ok none ↦ err (error io)
    | ok (some dir) ↦ populate ino digest dir t
  ]
  children_of ino (regular digest size executable) t = err (error not_directory)
  children_of ino (symlink target) t = err (error not_directory)

  unfoldable pub get_directory_children :
      ℕ → InodeTracker → FsResult E ((B3Digest × List Child) × InodeTracker)
  get_directory_children ino t = elim (get ino t) [
    | none ↦ err panic
    | some d ↦ children_of ino d t
  ]

  -- The answer to a lookup, an inode and its data, and the state after it.
  abbrev pub Reply : Type 0
  Reply = FsResult E (ℕ × InodeData) × TvixStoreFs

  abbrev pub known_inode : ℕ → TvixStoreFs → Reply
  known_inode ino fs = elim (get ino fs.inode_tracker) [
    | none ↦ (err panic, fs)
    | some d ↦ (ok (ino, d), fs)
  ]

  module _ (get_by_basename : PathComponent → Result E (Option Node)) where
    abbrev pub root_node : PathComponent → Node → TvixStoreFs → Reply
    root_node name node fs = elim (fs.root_nodes name) [
      | some ino ↦ known_inode ino fs
      | none ↦ elim (put (from_node node) fs.inode_tracker) [
        | none ↦ (err panic, fs)
        | some (ino, t) ↦ (
          ok (ino, from_node node),
          record { root_nodes = insert name_eq name ino fs.root_nodes; inode_tracker = t },
        )
      ]
    ]

    unfoldable pub name_in_root_to_ino_and_data : PathComponent → TvixStoreFs → Reply
    name_in_root_to_ino_and_data name fs = elim (fs.root_nodes name) [
      | some ino ↦ known_inode ino fs
      | none ↦ elim (get_by_basename name) [
        | err e ↦ (err (error io), fs)
        | ok none ↦ (err (error no_entry), fs)
        | ok (some node) ↦ root_node name node fs
      ]
    ]

    -- The rest of `lookup` in a directory whose children are known.
    unfoldable pub lookup_child : PathComponent → List Child → TvixStoreFs → Reply
    lookup_child name children fs = elim (find_child name children) [
      | none ↦ (err (error no_entry), fs)
      | some ino ↦ known_inode ino fs
    ]

    -- `lookup` of a name that is one, up to the entry of the reply, which is made of the inode and its
    -- data.
    unfoldable pub lookup_component : ℕ → PathComponent → TvixStoreFs → Reply
    lookup_component parent name fs = elim (parent == root_id) [
      | true ↦ name_in_root_to_ino_and_data name fs
      | false ↦ elim (get_directory_children parent fs.inode_tracker) [
        | err e ↦ (err e, fs)
        | ok ((digest, children), t) ↦ lookup_child name children (record fs { inode_tracker = t })
      ]
    ]

    -- `lookup`, of the bytes of a C string.
    unfoldable pub lookup : ℕ → Bytes → TvixStoreFs → Reply
    lookup parent name fs = elim (try_from name) [
      | err e ↦ (err (error not_found), fs)
      | ok component ↦ lookup_component parent component fs
    ]
