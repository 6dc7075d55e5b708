-- ===== src/Castore/Examples/Directories.antt =====
-- Directories, their messages and the order validators of castore at concrete inputs.
use tvix.Prelude.{
  ℕ, ◌+◌, ◌≡◌, ◌≢◌, refl, true, [], ◌∷◌, some, arith, Bytes, codes, ok, ◌↔◌, replicate, length,
}
use tvix.Castore.Component.{PathComponent, IsName}
use tvix.Castore.Nodes
use tvix.Castore.Nodes.{B3Digest, SymlinkTarget, IsTarget, u64_max}
use tvix.Castore.Nodes.Directory.{Entry, Directory, IsDirectory, size, total, try_from_iter}
use tvix.Castore.Nodes.Directory.Order.{try_from_iter-IsDirectory}
use tvix.Castore.Proto
use tvix.Castore.Proto.{DirectoryMessage, from, from_loop, size_checked}
use tvix.Castore.Proto.RoundTrip.{try_from-from}
use tvix.Castore.Proto.Accepted.{IsMessage, from-try_from}
use tvix.Castore.Proto.Size.{size_checked-from, size-size_checked}
use tvix.Castore.OrderValidator.{
  add_all_leaves_to_root, add_all_root_to_leaves, no_references, new_with_root_digest,
}
use tvix.Castore.OrderValidator.Closure.{
  LeavesFirst, RootFirst, leaves_to_root_iff, root_to_leaves_iff,
}

abbrev named : Bytes → PathComponent
named s = record { inner = s }

abbrev some_digest : B3Digest
some_digest = record { bytes = replicate 32 7 }

abbrev target : SymlinkTarget
target = record { inner = codes "b" }

-- A directory `a` of size 3, a file `b` and a symlink `c`.
abbrev complicated : Directory
complicated = record {
  nodes =
      (named (codes "a"), Nodes.Node.directory some_digest 3)
      ∷ (named (codes "b"), Nodes.Node.file some_digest 5 true)
      ∷ (named (codes "c"), Nodes.Node.symlink target)
      ∷ [];
}

one_letter : (c : ℕ) → c ≢ 0 → c ≢ b'.' → c ≢ b'/' → IsName (c ∷ [])
one_letter c not_null not_dot not_slash = record {
  not_empty = λ e. cc;
  not_cur_dir = ground arith;
  not_parent = ground arith;
  short = omega arith;
  no_null = (not_null, tt);
  no_slash = (not_slash, tt);
}

complicated-IsDirectory : IsDirectory complicated
unfolding Nodes.Directory.node_size
complicated-IsDirectory = record {
  sorted = ((omega arith, (omega arith, tt)), ((omega arith, tt), (tt, tt)));
  names = (
    one_letter b'a' (omega arith) (omega arith) (omega arith),
    (
      one_letter b'b' (omega arith) (omega arith) (omega arith),
      (one_letter b'c' (omega arith) (omega arith) (omega arith), tt),
    ),
  );
  valid = (
    (refl, omega arith),
    (
      (refl, omega arith),
      (record { not_empty = λ e. cc; short = omega arith; no_null = omega arith }, tt),
    ),
  );
  fits = omega arith;
}

try_from-from_example : Proto.try_from (from complicated) ≡ ok complicated
try_from-from_example = try_from-from complicated complicated-IsDirectory

sizes-IsMessage : IsMessage (from complicated)
unfolding from
sizes-IsMessage = record {
  directory_sizes = (omega arith, tt);
  file_sizes = (omega arith, tt);
  symlink_sizes = (tt, tt);
}

from-try_from_example : (from complicated ≡ from complicated) × IsDirectory complicated
from-try_from_example =
    from-try_from (from complicated) complicated sizes-IsMessage try_from-from_example

try_from_iter-IsDirectory_example :
    IsDirectory complicated × (total complicated.nodes ≡ total complicated.nodes)
unfolding try_from_iter Nodes.Directory.insert_all Nodes.Directory.check_insert_node
    Nodes.Directory.node_size Nodes.Directory.insert Nodes.Directory.lookup
try_from_iter-IsDirectory_example =
    try_from_iter-IsDirectory complicated.nodes complicated refl complicated-IsDirectory.names
      complicated-IsDirectory.valid

size_checked-from_example : size_checked (from complicated) ≡ some (total complicated.nodes)
size_checked-from_example = size_checked-from complicated complicated-IsDirectory

size-size_checked_example :
    (size_checked (from complicated) ≡ some (total complicated.nodes))
    × (size complicated ≡ total complicated.nodes + length complicated.nodes)
unfolding Nodes.Directory.node_size
size-size_checked_example = size-size_checked complicated complicated-IsDirectory (omega arith)

-- Six entries, of which three lie in the directory `a`; the message says six, `size` says nine.
six_or_nine : (size_checked (from complicated) ≡ some 6) × (size complicated ≡ 9)
unfolding size_checked from size Nodes.Directory.node_size
six_or_nine = (refl, refl)

-- A digest that tells directories by their number of entries.
abbrev counted : Directory → B3Digest
counted d = record { bytes = replicate 32 (length d.nodes) }

abbrev leaf : Directory
leaf = record { nodes = [] }

abbrev parent_of_leaf : Directory
parent_of_leaf = record { nodes = (named (codes "a"), Nodes.Node.directory (counted leaf) 0) ∷ [] }

leaves_to_root_iff_example :
    ((add_all_leaves_to_root counted no_references (leaf ∷ parent_of_leaf ∷ [])).1 ≡ true)
    ↔ LeavesFirst counted [] (leaf ∷ parent_of_leaf ∷ [])
leaves_to_root_iff_example = leaves_to_root_iff counted (leaf ∷ parent_of_leaf ∷ [])

root_to_leaves_iff_example :
    ((add_all_root_to_leaves counted
        (new_with_root_digest (counted parent_of_leaf))
        (parent_of_leaf ∷ leaf ∷ [])).1
      ≡ true)
    ↔ RootFirst counted (counted parent_of_leaf ∷ []) (parent_of_leaf ∷ leaf ∷ [])
root_to_leaves_iff_example =
    root_to_leaves_iff counted (counted parent_of_leaf) (parent_of_leaf ∷ leaf ∷ [])
