-- ===== src/Castore/Examples/Inodes.antt =====
-- The theorems on inodes and lookups at concrete inputs, and runs of the lookups.
use tvix.Prelude.{
  ℕ, ◌+◌, ◌^◌, ◌<◌, ◌≡◌, refl, true, false, List, [], ◌∷◌, Option, none, some, arith, Bytes, codes,
  Result, ok, err, error, length, replicate, ◌↔◌, inl, inr, All, subst,
}
use tvix.Castore.Component.{PathComponent, try_from, validate_name}
use tvix.Castore.Nodes
use tvix.Castore.Nodes.{B3Digest}
use tvix.Castore.Nodes.Directory.{Directory}
use tvix.Castore.Fs.{
  no_entry, not_found, TvixStoreFs, lookup, lookup_component, get_directory_children, children_of,
  populate, put_children, lookup_child, find_child, name_in_root_to_ino_and_data,
}
use tvix.Castore.Fs.Inodes.{
  Child, InodeData, regular, symlink, directory, sparse, key_of, from_node,
}
use tvix.Castore.Fs.Tracker.{InodeTracker, no_inodes, get, put, replace, insert_and_increment}
use tvix.Castore.Fs.Tracker.Invariant.{IsTracker, no_inodes-IsTracker}
use tvix.Castore.Fs.Tracker.Growth.{grown, grown_before, grown-IsTracker}
use tvix.Castore.Fs.Tracker.Put.{put_twice_iff, put-first_mode}
use tvix.Castore.Fs.Children.{Known, ChildrenKnown, Populated, get_directory_children_lem}
use tvix.Castore.Fs.Lookup.{IsFs, Answered, lookup-Answered}

abbrev digest_a : B3Digest
digest_a = record { bytes = replicate 32 1 }

abbrev digest_b : B3Digest
digest_b = record { bytes = replicate 32 2 }

abbrev named : Bytes → PathComponent
named s = record { inner = s }

-- A directory with a file `f`.
abbrev dir_a : Directory
dir_a = record { nodes = (named (codes "f"), Nodes.Node.file digest_b 3 false) ∷ [] }

-- A service that has that directory, and a root `r` that refers to it.
abbrev service_a : B3Digest → Result ℕ (Option Directory)
service_a digest = ok (some dir_a)

abbrev roots_a : PathComponent → Result ℕ (Option Nodes.Node)
roots_a name = ok (some (Nodes.Node.directory digest_a 1))

-- A tracker with a directory at inode 2, and one with a file there.
abbrev sparse_a : InodeData
sparse_a = directory (sparse digest_a 1)

abbrev plain_b : InodeData
plain_b = regular digest_b 3 false

abbrev with_dir : InodeTracker
with_dir = grown sparse_a no_inodes

abbrev with_file : InodeTracker
with_file = grown plain_b no_inodes

with_dir-IsTracker : IsTracker with_dir
unfolding key_of
with_dir-IsTracker = grown-IsTracker sparse_a no_inodes no_inodes-IsTracker refl (omega arith)

with_file-IsTracker : IsTracker with_file
unfolding key_of
with_file-IsTracker = grown-IsTracker plain_b no_inodes no_inodes-IsTracker refl (omega arith)

dir_there : get 2 with_dir ≡ some sparse_a
unfolding get insert_and_increment
dir_there = refl

file_there : get 2 with_file ≡ some plain_b
unfolding get insert_and_increment
file_there = refl

dir_next : with_dir.next_inode ≡ 3
unfolding insert_and_increment
dir_next = refl

abbrev mounted : TvixStoreFs
mounted = record { root_nodes = λ _. none; inode_tracker = with_dir }

with_dir-ChildrenKnown : ChildrenKnown with_dir
unfolding get
with_dir-ChildrenKnown ino digest children h =
    elim (grown_before sparse_a no_inodes ino _ h) as (λ _. All (Known with_dir) children) [
      | inl same ↦ cc
      | inr old ↦ cc
    ]

mounted-IsFs : IsFs mounted
mounted-IsFs = record {
  tracker = with_dir-IsTracker;
  children = with_dir-ChildrenKnown;
  roots = λ name ino h. cc;
}

dir_fits :
    (digest : B3Digest) (size : ℕ) (dir : Directory)
    → get 2 with_dir ≡ some (directory (sparse digest size))
    → service_a digest ≡ ok (some dir)
    → with_dir.next_inode + length dir.nodes < 2 ^ 64
dir_fits digest size dir sparse_there h =
    let same : dir_a ≡ dir = cc in
    subst (λ d. with_dir.next_inode + length d.nodes < 2 ^ 64) same (omega (arith, dir_next))

put_twice_iff_example :
    (i j : ℕ) × (u v : InodeTracker) × (put (symlink (codes "x")) no_inodes ≡ some (i, u))
    × (put (regular digest_a 3 true) u ≡ some (j, v))
    × IsTracker v
    × ((i ≡ j) ↔ (key_of (symlink (codes "x")) ≡ key_of (regular digest_a 3 true)))
put_twice_iff_example =
    put_twice_iff (symlink (codes "x")) (regular digest_a 3 true) no_inodes refl refl
      no_inodes-IsTracker (omega arith)

put-first_mode_example :
    (u : InodeTracker) × (put (regular digest_b 3 true) with_file ≡ some (2, u))
    × (get 2 u ≡ some (regular digest_b 3 false))
put-first_mode_example =
    put-first_mode digest_b 3 true with_file 2 3 false with_file-IsTracker file_there

get_directory_children_lem_example :
    (children : List Child) × (u : InodeTracker) × Populated service_a 2 digest_a dir_a with_dir
      children u
get_directory_children_lem_example =
    get_directory_children_lem service_a 2 digest_a 1 dir_a with_dir with_dir-IsTracker dir_there
      refl (omega (arith, dir_next))

lookup-Answered_example : Answered mounted (lookup service_a roots_a 2 (codes "f") mounted)
lookup-Answered_example =
    lookup-Answered service_a roots_a 2 (codes "f") mounted mounted-IsFs
      (λ root. omega (arith, dir_next)) dir_fits (inr (sparse_a, dir_there))

found_child : (lookup service_a roots_a 2 (codes "f") mounted).0 ≡ ok (3, regular digest_b 3 false)
unfolding lookup lookup_component try_from validate_name get_directory_children get
    insert_and_increment children_of populate put_children put from_node replace lookup_child
    find_child
found_child = refl

absent_child : (lookup service_a roots_a 2 (codes "g") mounted).0 ≡ err (error no_entry)
unfolding lookup lookup_component try_from validate_name get_directory_children get
    insert_and_increment children_of populate put_children put from_node replace lookup_child
    find_child
absent_child = refl

found_root : (lookup service_a roots_a 1 (codes "r") mounted).0 ≡ ok (2, sparse_a)
unfolding lookup lookup_component try_from validate_name get_directory_children get
    insert_and_increment children_of populate put_children put from_node replace lookup_child
    find_child name_in_root_to_ino_and_data
found_root = refl

dotted : (lookup service_a roots_a 2 (codes "..") mounted).0 ≡ err (error not_found)
unfolding lookup try_from validate_name
dotted = refl
