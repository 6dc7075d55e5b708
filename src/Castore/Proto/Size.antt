-- ===== src/Castore/Proto/Size.antt =====
-- The two sizes of a directory: `Directory::size` of castore/src/nodes/directory.rs, and
-- `Directory::size_checked` of its message in castore/src/proto/mod.rs.
use tvix.Prelude.{
  ℕ, ◌+◌, ◌^◌, ◌≤◌, ◌<◌, ◌≡◌, refl, sym, ap, ◌∙◌, List, [], ◌∷◌, map, some, arith, length,
}
use tvix.Castore.Nodes
use tvix.Castore.Nodes.{u64_max}
use tvix.Castore.Nodes.Directory.{
  Nodes, Directory, IsDirectory, total, node_size, size, checked_sum, checked_add, checked_fold,
  add_u64, sum_u64, entry_size,
}
use tvix.Castore.Proto.{DirectoryMessage, sizes, size_checked, from}
use tvix.Castore.Proto.Kinds.{picked}
use tvix.Castore.Proto.Messages.{
  directories, files, symlinks, pick_directory, pick_file, pick_symlink,
}
use tvix.Castore.Proto.RoundTrip.{from_loop-picked}

abbrev pub sum : List ℕ → ℕ
sum [] = 0
sum (n ∷ ns) = n + sum ns

checked_fold-fits :
    (acc : ℕ) (is : List ℕ) → acc + sum is ≤ u64_max → checked_fold acc is ≡ some (acc + sum is)
unfolding checked_fold checked_add
checked_fold-fits acc [] h = ap some (omega arith)
checked_fold-fits acc (i ∷ is) h = ground (arith, checked_fold-fits (acc + i) is)

checked_sum-fits : (is : List ℕ) → sum is ≤ u64_max → checked_sum is ≡ some (sum is)
unfolding checked_sum
checked_sum-fits is h = checked_fold-fits 0 is (omega arith) ∙ ap some (omega arith)

-- What the entries weigh, by kind.
total-picked :
    (m : Nodes)
    → total m
      ≡ length (picked files m)
        + length (picked symlinks m)
        + length (picked directories m)
        + sum (sizes (picked directories m))
unfolding picked pick_directory pick_file pick_symlink sizes node_size
total-picked [] = refl
total-picked ((k, Nodes.Node.directory d s) ∷ m) = omega (arith, total-picked m)
total-picked ((k, Nodes.Node.file d s x) ∷ m) = omega (arith, total-picked m)
total-picked ((k, Nodes.Node.symlink t) ∷ m) = omega (arith, total-picked m)

size_checked-sum :
    (m : DirectoryMessage)
    → length m.files + length m.symlinks + length m.directories + sum (sizes m.directories)
      ≤ u64_max
    → size_checked m
      ≡ some (length m.files + length m.symlinks + length m.directories + sum (sizes m.directories))
unfolding size_checked
size_checked-sum m h =
    rw (size_checked, checked_sum-fits (sizes m.directories) (omega arith))
      (checked_sum-fits
          (length m.files
            ∷ length m.symlinks
            ∷ length m.directories
            ∷ sum (sizes m.directories)
            ∷ [])
          (omega arith)
        ∙ ap some (omega arith))

-- The size of the message of a well-formed directory is what the documentation says: the number of
-- files, of symlinks and of directories, and the size fields of the directories. It never overflows.
pub size_checked-from :
    (d : Directory) → IsDirectory d → size_checked (from d) ≡ some (total d.nodes)
unfolding from
size_checked-from d v =
    ap size_checked
      (from_loop-picked d.nodes (record { directories = []; files = []; symlinks = [] }))
    ∙ size_checked-sum _ (omega (arith, total-picked d.nodes, v.fits))
    ∙ ap some (sym (total-picked d.nodes))

no_wrap :
    (m : Nodes) → total m + length m < 2 ^ 64 → sum_u64 (map (λ e. entry_size e.1) m) ≡ total m
unfolding sum_u64 entry_size add_u64 node_size
no_wrap [] h = refl
no_wrap ((k, Nodes.Node.directory d s) ∷ m) h = rw (no_wrap m (omega arith)) (omega arith)
no_wrap ((k, Nodes.Node.file d s x) ∷ m) h = rw (no_wrap m (omega arith)) (omega arith)
no_wrap ((k, Nodes.Node.symlink t) ∷ m) h = rw (no_wrap m (omega arith)) (omega arith)

-- As long as nothing wraps around, `Directory::size` counts every entry twice: it exceeds the size of
-- the directory's message by the number of entries.
pub size-size_checked :
    (d : Directory)
    → IsDirectory d
    → total d.nodes + length d.nodes < 2 ^ 64
    → (size_checked (from d) ≡ some (total d.nodes)) × (size d ≡ total d.nodes + length d.nodes)
unfolding size
size-size_checked d v h = (size_checked-from d v, counted)
  where
    counted : size d ≡ total d.nodes + length d.nodes
    counted = rw (no_wrap d.nodes h) (omega arith)
