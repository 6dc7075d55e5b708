-- ===== src/Castore/Proto.antt =====
-- castore/src/proto/mod.rs: the messages of castore/protos/castore.proto, and the conversions
-- between them and the nodes and directories of the model.
mod Kinds
mod Messages
pub mod RoundTrip
mod Canonical
mod Accepts
pub mod Accepted
pub mod Size
use tvix.Prelude.{
  ℕ, ◌+◌, Bool, true, false, List, [], ◌∷◌, ◌++◌, Option, none, some, Bytes, Ordering,
  if◌then◌else◌, is_empty, length, bytes_cmp, ◌==◌, Result, ok, err, map_err, ok_or, ◌>>=◌,
}
use tvix.Castore.Component
use tvix.Castore.Component.{PathComponent}
use tvix.Castore.Nodes
use tvix.Castore.Nodes.{
  B3Digest, SymlinkTarget, DirectoryError, duplicate_name, invalid_node, invalid_name,
  wrong_sorting, name_in_anonymous_node, no_node_set, ValidateNodeError, digest_try_from,
  target_try_from, from_digest_error, invalid_symlink_target, u64_max,
}
use tvix.Castore.Nodes.Directory.{Entry, Directory, checked_sum, try_from_iter}

pub record DirectoryNode : Type 0 where
  pub name : Bytes
  pub digest : Bytes
  pub size : ℕ

pub record FileNode : Type 0 where
  pub name : Bytes
  pub digest : Bytes
  pub size : ℕ
  pub executable : Bool

pub record SymlinkNode : Type 0 where
  pub name : Bytes
  pub target : Bytes

pub record DirectoryMessage : Type 0 where
  pub directories : List DirectoryNode
  pub files : List FileNode
  pub symlinks : List SymlinkNode

-- `node::Node`, the `oneof` of the message `Node`.
pub data NodeKind : Type 0 where
  directory : DirectoryNode → NodeKind
  file : FileNode → NodeKind
  symlink : SymlinkNode → NodeKind

pub record NodeMessage : Type 0 where
  pub node : Option NodeKind

sizes : List DirectoryNode → List ℕ
sizes [] = []
sizes (e ∷ es) = e.size ∷ sizes es

-- `Directory::size_checked`, of the message.
unfoldable pub size_checked : DirectoryMessage → Option ℕ
unfolding checked_sum sizes
size_checked d = elim (checked_sum (sizes d.directories)) [
  | none ↦ none
  | some s ↦ checked_sum (length d.files ∷ length d.symlinks ∷ length d.directories ∷ s ∷ [])
]

-- The match of `Node::try_into_unchecked_name_and_checked_node`.
checked_kind : NodeKind → Result DirectoryError (Bytes × Nodes.Node)
checked_kind (directory n) = do
  digest ← map_err (λ e. invalid_node n.name (from_digest_error e)) (digest_try_from n.digest)
  ok (n.name, Nodes.Node.directory digest n.size)
checked_kind (file n) = do
  digest ← map_err (λ e. invalid_node n.name (from_digest_error e)) (digest_try_from n.digest)
  ok (n.name, Nodes.Node.file digest n.size n.executable)
checked_kind (symlink n) = do
  target ← map_err (λ e. invalid_node n.name (invalid_symlink_target e)) (target_try_from n.target)
  ok (n.name, Nodes.Node.symlink target)

try_into_unchecked_name_and_checked_node : NodeMessage → Result DirectoryError (Bytes × Nodes.Node)
unfolding checked_kind
try_into_unchecked_name_and_checked_node m = do kind ← ok_or m.node no_node_set; checked_kind kind

unfoldable pub try_into_name_and_node : NodeMessage → Result DirectoryError Entry
unfolding try_into_unchecked_name_and_checked_node
try_into_name_and_node m = do
  (name_bytes, node) ← try_into_unchecked_name_and_checked_node m
  name ← map_err invalid_name (Component.try_from name_bytes)
  ok (name, node)

unfoldable pub try_into_anonymous_node : NodeMessage → Result DirectoryError Nodes.Node
unfolding try_into_unchecked_name_and_checked_node
try_into_anonymous_node m = do
  (name, node) ← try_into_unchecked_name_and_checked_node m
  if is_empty name then ok node else err name_in_anonymous_node

unfoldable pub from_name_and_node : Bytes → Nodes.Node → NodeMessage
from_name_and_node name (Nodes.Node.directory digest size) = record {
  node = some (directory (record { name = name; digest = digest.bytes; size = size }));
}
from_name_and_node name (Nodes.Node.file digest size executable) = record {
  node =
      some (
        file (record { name = name; digest = digest.bytes; size = size; executable = executable }));
}
from_name_and_node name (Nodes.Node.symlink target) = record {
  node = some (symlink (record { name = name; target = target.inner }));
}

-- One round of the three checks that names increase.
unfoldable pub check_order : Bytes → Bytes → Result DirectoryError Bytes
check_order prev_name name = elim (bytes_cmp name prev_name) [
  | Ordering.lt ↦ err (wrong_sorting name)
  | Ordering.eq ↦ map_err invalid_name (Component.try_from name) >>= λ c. err (duplicate_name c)
  | Ordering.gt ↦ ok name
]

unfoldable pub check_sorted :
    {A : Type 0} → (A → Bytes) → Bytes → List A → Result DirectoryError Bytes
check_sorted name_of prev_name [] = ok prev_name
check_sorted name_of prev_name (e ∷ es) = do
  name ← check_order prev_name (name_of e)
  check_sorted name_of name es

-- One of the three loops that push onto `elems`.
unfoldable pub push_all :
    {A : Type 0} → (A → NodeKind) → List A → List Entry → Result DirectoryError (List Entry)
push_all wrap [] elems = ok elems
push_all wrap (e ∷ es) elems = do
  elem ← try_into_name_and_node (record { node = some (wrap e) })
  push_all wrap es (elems ++ elem ∷ [])

-- `TryFrom<Directory> for crate::Directory`.
unfoldable pub try_from : DirectoryMessage → Result DirectoryError Directory
try_from value = do
  _ ← check_sorted (λ e. e.name) [] value.directories
  _ ← check_sorted (λ e. e.name) [] value.files
  _ ← check_sorted (λ e. e.name) [] value.symlinks
  elems ← push_all directory value.directories []
  elems ← push_all file value.files elems
  elems ← push_all symlink value.symlinks elems
  try_from_iter elems

-- `From<crate::Directory> for Directory`: the loop over the nodes, with its three vectors.
unfoldable pub from_loop : List Entry → DirectoryMessage → DirectoryMessage
from_loop [] d = d
from_loop ((name, Nodes.Node.directory digest size) ∷ es) d =
    let n : DirectoryNode = record { name = name.inner; digest = digest.bytes; size = size } in
    from_loop es (record d { directories = d.directories ++ n ∷ [] })
from_loop ((name, Nodes.Node.file digest size executable) ∷ es) d =
    let n : FileNode = record {
      name = name.inner;
      digest = digest.bytes;
      size = size;
      executable = executable;
    } in
    from_loop es (record d { files = d.files ++ n ∷ [] })
from_loop ((name, Nodes.Node.symlink target) ∷ es) d =
    let n : SymlinkNode = record { name = name.inner; target = target.inner } in
    from_loop es (record d { symlinks = d.symlinks ++ n ∷ [] })

unfoldable pub from : Directory → DirectoryMessage
unfolding from_loop
from d = from_loop d.nodes (record { directories = []; files = []; symlinks = [] })
