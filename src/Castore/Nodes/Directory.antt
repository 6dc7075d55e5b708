-- ===== src/Castore/Nodes/Directory.antt =====
-- castore/src/nodes/directory.rs: a directory is a map from names to nodes, built under a check of
-- its size. The `BTreeMap` is the list of its entries in the order of their keys.
pub mod Insertion
pub mod Order
use tvix.Prelude.{
  ℕ, ◌+◌, ◌*◌, ◌%◌, ◌^◌, ◌≤◌, ◌≡◌, refl, Bool, List, [], ◌∷◌, map, Option, none, some, Bytes,
  Ordering, if◌then◌else◌, leb, length, All, bytes_cmp, BytesLt, Result, ok, err, ok_or, ◌>>=◌,
}
use tvix.Castore.Component.{PathComponent, IsName}
use tvix.Castore.Nodes.{
  Node, directory, file, symlink, DirectoryError, size_overflow, duplicate_name, u64_max, IsNode,
}

abbrev pub Entry : Type 0
Entry = PathComponent × Node

abbrev pub Nodes : Type 0
Nodes = List Entry

pub record Directory : Type 0 where
  pub nodes : Nodes

-- `BTreeMap::get`.
unfoldable pub lookup : PathComponent → Nodes → Option Node
lookup k [] = none
lookup k ((j, w) ∷ m) =
    let rest = lookup k m in
    elim (bytes_cmp k.inner j.inner) [
      | Ordering.eq ↦ some w
      | Ordering.lt ↦ rest
      | Ordering.gt ↦ rest
    ]

-- `BTreeMap::insert`.
unfoldable pub insert : PathComponent → Node → Nodes → Nodes
insert k v [] = (k, v) ∷ []
insert k v ((j, w) ∷ m) =
    let rest = insert k v m in
    elim (bytes_cmp k.inner j.inner) [
      | Ordering.lt ↦ (k, v) ∷ (j, w) ∷ m
      | Ordering.eq ↦ (j, v) ∷ m
      | Ordering.gt ↦ (j, w) ∷ rest
    ]

unfoldable pub checked_add : ℕ → ℕ → Option ℕ
checked_add a b = if leb (a + b) u64_max then some (a + b) else none

-- `try_fold` over `checked_add`.
unfoldable pub checked_fold : ℕ → List ℕ → Option ℕ
checked_fold acc [] = some acc
checked_fold acc (i ∷ is) = elim (checked_add acc i) [ none ↦ none | some a ↦ checked_fold a is ]

unfoldable pub checked_sum : List ℕ → Option ℕ
unfolding checked_fold checked_add
checked_sum is = checked_fold 0 is

-- The size field of a directory node; 0 for the other nodes.
unfoldable pub node_size : Node → ℕ
node_size (directory d size) = size
node_size (file d size x) = 0
node_size (symlink t) = 0

unfoldable pub check_insert_node :
    ℕ → Nodes → PathComponent → Node → Result DirectoryError (ℕ × Nodes)
unfolding checked_sum
check_insert_node current_size nodes name node = do
  new_size ← ok_or (checked_sum (current_size ∷ 1 ∷ node_size node ∷ [])) size_overflow
  elim (lookup name nodes) [
    | none ↦ ok (new_size, insert name node nodes)
    | some _ ↦ err (duplicate_name name)
  ]

unfoldable pub insert_all : List Entry → ℕ → Nodes → Result DirectoryError (ℕ × Nodes)
insert_all [] size nodes = ok (size, nodes)
insert_all ((name, node) ∷ es) size nodes = do
  (size', nodes') ← check_insert_node size nodes name node
  insert_all es size' nodes'

unfoldable pub try_from_iter : List Entry → Result DirectoryError Directory
try_from_iter es = do (size, nodes) ← insert_all es 0 []; ok (record { nodes = nodes })

-- u64 addition as a release build makes it; a debug build panics where it wraps.
unfoldable pub add_u64 : ℕ → ℕ → ℕ
add_u64 a b = (a + b) % 2 ^ 64

unfoldable pub entry_size : Node → ℕ
entry_size (directory d size) = add_u64 1 size
entry_size (file d size x) = 1
entry_size (symlink t) = 1

unfoldable pub sum_u64 : List ℕ → ℕ
sum_u64 [] = 0
sum_u64 (n ∷ ns) = add_u64 n (sum_u64 ns)

-- `Directory::size`.
unfoldable pub size : Directory → ℕ
unfolding add_u64 entry_size sum_u64
size d = add_u64 (length d.nodes % 2 ^ 64) (sum_u64 (map (λ e. entry_size e.1) d.nodes))

-- `Directory::add`. The nodes are changed in place, and only if the call succeeds.
unfoldable pub add : Directory → PathComponent → Node → Result DirectoryError Directory
unfolding check_insert_node
add d name node = do
  (new_size, nodes) ← check_insert_node (size d) d.nodes name node
  ok (record { nodes = nodes })

abbrev pub Below : PathComponent → Entry → Type 0
Below k e = BytesLt k.inner e.0.inner

abbrev pub IsSorted : Nodes → Type 0
IsSorted [] = Unit {0}
IsSorted (e ∷ m) = All (Below e.0) m × IsSorted m

-- What the documentation calls the size: one for each entry, and the size fields of directories.
abbrev pub total : Nodes → ℕ
total [] = 0
total (e ∷ m) = 1 + node_size e.1 + total m

pub record IsDirectory (d : Directory) : Type 0 where
  pub sorted : IsSorted d.nodes
  pub names : All (λ e. IsName e.0.inner) d.nodes
  pub valid : All (λ e. IsNode e.1) d.nodes
  pub fits : total d.nodes ≤ u64_max
