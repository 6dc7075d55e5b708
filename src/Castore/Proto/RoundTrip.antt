-- ===== src/Castore/Proto/RoundTrip.antt =====
-- Directories survive the way through their messages (castore/src/proto/mod.rs).
use tvix.Prelude.{
  ◌≤◌, ◌≡◌, refl, ap, ◌∙◌, List, [], ◌∷◌, ◌++◌, append_assoc, append-nil, Bytes, arith, All,
  All-map, All-append, BytesLt, ok,
}
use tvix.Castore.Component.{IsName}
use tvix.Castore.Nodes
use tvix.Castore.Nodes.{DirectoryError, IsNode, u64_max}
use tvix.Castore.Nodes.Directory.{
  Entry, Nodes, Directory, Below, IsSorted, IsDirectory, total, insert_all, try_from_iter,
}
use tvix.Castore.Nodes.Directory.Insertion.{insert_all_middle}
use tvix.Castore.Proto.{DirectoryMessage, from_loop, from, try_from}
use tvix.Castore.Proto.Kinds.{picked, keep, keep-All, push_all-picked, check_sorted-picked}
use tvix.Castore.Proto.Messages.{
  directories, files, symlinks, pick_directory, pick_file, pick_symlink,
}

pub from_loop-picked :
    (es : List Entry) (d : DirectoryMessage)
    → from_loop es d ≡ record {
      directories = d.directories ++ picked directories es;
      files = d.files ++ picked files es;
      symlinks = d.symlinks ++ picked symlinks es;
    }
unfolding from_loop picked pick_directory pick_file pick_symlink
from_loop-picked [] d = rw (append-nil d.directories, append-nil d.files, append-nil d.symlinks)
from_loop-picked ((k, Nodes.Node.directory x s) ∷ es) d = from_loop-picked es _ ∙ rw append_assoc
from_loop-picked ((k, Nodes.Node.file x s e) ∷ es) d = from_loop-picked es _ ∙ rw append_assoc
from_loop-picked ((k, Nodes.Node.symlink t) ∷ es) d = from_loop-picked es _ ∙ rw append_assoc

-- The entries, first those of directories, then those of files, then those of symlinks.
abbrev grouped : List Entry → List Entry
grouped m = keep directories m ++ (keep files m ++ keep symlinks m)

grouped-All {ℓ} :
    (P : Entry → Type ℓ) (m : Nodes) → All P m → All P (keep files m ++ keep symlinks m)
grouped-All P m h =
    All-append P (keep files m) (keep symlinks m) (keep-All files P m h) (keep-All symlinks P m h)

-- Whatever the kind of the least entry, it may be inserted in its group.
insert_all-grouped :
    (m : Nodes) → IsSorted m → total m ≤ u64_max → insert_all (grouped m) 0 [] ≡ ok (total m, m)
unfolding keep pick_directory pick_file pick_symlink
insert_all-grouped [] s h = unfold insert_all in refl
insert_all-grouped ((k, Nodes.Node.directory x z) ∷ m) (b, s) h =
    let below =
      All-append (Below k) (keep directories m) _ (keep-All directories (Below k) m b)
        (grouped-All (Below k) m b) in
    insert_all_middle k (Nodes.Node.directory x z) [] (grouped m) (total m) m tt below (omega arith)
      (insert_all-grouped m s (omega arith))
    ∙ ap (λ n. ok (n, (k, Nodes.Node.directory x z) ∷ m)) (omega arith)
insert_all-grouped ((k, Nodes.Node.file x z e) ∷ m) (b, s) h =
    insert_all_middle k (Nodes.Node.file x z e) (keep directories m)
      (keep files m ++ keep symlinks m) (total m) m (keep-All directories (Below k) m b)
      (grouped-All (Below k) m b) (omega arith) (insert_all-grouped m s (omega arith))
    ∙ ap (λ n. ok (n, (k, Nodes.Node.file x z e) ∷ m)) (omega arith)
insert_all-grouped ((k, Nodes.Node.symlink t) ∷ m) (b, s) h =
    let first = keep directories m ++ keep files m in
    let below =
      All-append (Below k) (keep directories m) _ (keep-All directories (Below k) m b)
        (keep-All files (Below k) m b) in
    rw
      (← append_assoc (keep directories m) (keep files m)
        ((k, Nodes.Node.symlink t) ∷ keep symlinks m))
      (insert_all_middle k (Nodes.Node.symlink t) first (keep symlinks m) (total m) m below
          (keep-All symlinks (Below k) m b) (omega arith)
          (rw (append_assoc (keep directories m) (keep files m) (keep symlinks m))
            (insert_all-grouped m s (omega arith)))
        ∙ ap (λ n. ok (n, (k, Nodes.Node.symlink t) ∷ m)) (omega arith))

names-after_empty : (m : Nodes) → All (λ e. IsName e.0.inner) m → All (λ e. BytesLt [] e.0.inner) m
names-after_empty = All-map _ _ (λ e n. after e.0.inner n.not_empty)
  where
    after : (v : Bytes) → ¬ (v ≡ []) → BytesLt [] v
    after [] h = h refl
    after (c ∷ v) h = tt

-- A directory that is written as a message and read back is the same directory: the three lists pass
-- the checks of their order, every entry is valid, and the insertions meet no duplicate and no
-- overflow.
pub try_from-from : (d : Directory) → IsDirectory d → try_from (from d) ≡ ok d
unfolding try_from from try_from_iter
try_from-from d v =
    let after = names-after_empty d.nodes v.names in
    let (l1, sorted1) = check_sorted-picked directories [] d.nodes after v.sorted in
    let (l2, sorted2) = check_sorted-picked files [] d.nodes after v.sorted in
    let (l3, sorted3) = check_sorted-picked symlinks [] d.nodes after v.sorted in
    rw (
      from_loop-picked d.nodes,
      sorted1,
      sorted2,
      sorted3,
      push_all-picked directories d.nodes [] v.names v.valid,
      push_all-picked files d.nodes (keep directories d.nodes) v.names v.valid,
      push_all-picked symlinks d.nodes (keep directories d.nodes ++ keep files d.nodes) v.names
          v.valid,
      append_assoc (keep directories d.nodes) (keep files d.nodes) (keep symlinks d.nodes),
      insert_all-grouped d.nodes v.sorted v.fits,
    )
