-- ===== src/Castore/Proto/Accepted.antt =====
-- Reading a directory message (castore/src/proto/mod.rs) accepts canonical messages alone.
use tvix.Prelude.{
  ℕ, ◌≤◌, ◌≡◌, refl, sym, ap, ◌∙◌, subst, List, [], ◌++◌, none, some, All, All-append, ok,
  >>=-eq-ok, ok-injective,
}
use tvix.Castore.Component.{IsName}
use tvix.Castore.Nodes
use tvix.Castore.Nodes.{u64_max, IsNode}
use tvix.Castore.Nodes.Directory.{Entry, Nodes, Directory, insert_all, IsDirectory, try_from_iter}
use tvix.Castore.Nodes.Directory.Insertion.{insert_all-append}
use tvix.Castore.Nodes.Directory.Order.{insert_all-IsSorted, insert_all-IsDirectory}
use tvix.Castore.Proto.{
  DirectoryMessage, DirectoryNode, FileNode, SymlinkNode, directory, file, symlink, check_sorted,
  push_all, try_from, from,
}
use tvix.Castore.Proto.Kinds.{Kind, picked, keep}
use tvix.Castore.Proto.Messages.{
  directories, files, symlinks, pick_directory, pick_file, pick_symlink,
}
use tvix.Castore.Proto.Canonical.{
  keep-insert_all_other, keep-insert_all_last, picked-keep, Ascending,
}
use tvix.Castore.Proto.Accepts.{
  Reads, push_all-Reads, Reads-picked, Reads-All, check_sorted-Ascending,
}
use tvix.Castore.Proto.RoundTrip.{from_loop-picked}

-- The sizes of a message are u64.
pub record IsMessage (m : DirectoryMessage) : Type 0 where
  pub directory_sizes : All (λ (n : DirectoryNode). n.size ≤ u64_max) m.directories
  pub file_sizes : All (λ (n : FileNode). n.size ≤ u64_max) m.files
  pub symlink_sizes : All (λ (n : SymlinkNode). Unit {0}) m.symlinks

-- An entry is of one kind only.
directory-other :
    (e : Entry) (a : DirectoryNode)
    → pick_directory e ≡ some a
    → (pick_file e ≡ none) × (pick_symlink e ≡ none)
unfolding pick_directory pick_file pick_symlink
directory-other (k, Nodes.Node.directory d s) a h = (refl, refl)
directory-other (k, Nodes.Node.file d s x) a h = cc
directory-other (k, Nodes.Node.symlink t) a h = cc

file-other :
    (e : Entry) (a : FileNode)
    → pick_file e ≡ some a
    → (pick_directory e ≡ none) × (pick_symlink e ≡ none)
unfolding pick_directory pick_file pick_symlink
file-other (k, Nodes.Node.directory d s) a h = cc
file-other (k, Nodes.Node.file d s x) a h = (refl, refl)
file-other (k, Nodes.Node.symlink t) a h = cc

symlink-other :
    (e : Entry) (a : SymlinkNode)
    → pick_symlink e ≡ some a
    → (pick_directory e ≡ none) × (pick_file e ≡ none)
unfolding pick_directory pick_file pick_symlink
symlink-other (k, Nodes.Node.directory d s) a h = cc
symlink-other (k, Nodes.Node.file d s x) a h = cc
symlink-other (k, Nodes.Node.symlink t) a h = (refl, refl)

-- The three groups of entries that an accepted message stands for, and the run that inserts them.
record Groups (msg : DirectoryMessage) (d : Directory) : Type 0 where
  ds : List Entry
  fs : List Entry
  ss : List Entry
  reads_ds : Reads directories msg.directories ds
  reads_fs : Reads files msg.files fs
  reads_ss : Reads symlinks msg.symlinks ss
  order_ds : Ascending directories [] ds
  order_fs : Ascending files [] fs
  order_ss : Ascending symlinks [] ss
  size : ℕ
  run : insert_all ((ds ++ fs) ++ ss) 0 [] ≡ ok (size, d.nodes)

try_from-Groups :
    (msg : DirectoryMessage) (d : Directory) → IsMessage msg → try_from msg ≡ ok d → Groups msg d
unfolding try_from try_from_iter
try_from-Groups msg d z h =
    let (l1, o1, h1) = >>=-eq-ok (check_sorted directories.name_of [] msg.directories) _ h in
    let (l2, o2, h2) = >>=-eq-ok (check_sorted files.name_of [] msg.files) _ h1 in
    let (l3, o3, h3) = >>=-eq-ok (check_sorted symlinks.name_of [] msg.symlinks) _ h2 in
    let (r1, p1, h4) = >>=-eq-ok (push_all directory msg.directories []) _ h3 in
    let (r2, p2, h5) = >>=-eq-ok (push_all file msg.files r1) _ h4 in
    let (r3, p3, h6) = >>=-eq-ok (push_all symlink msg.symlinks r2) _ h5 in
    let ((t, m), run, built) = >>=-eq-ok (insert_all r3 0 []) _ h6 in
    let (ds, e1, reads_ds) =
      push_all-Reads directories msg.directories [] r1 z.directory_sizes p1 in
    let (fs, e2, reads_fs) = push_all-Reads files msg.files r1 r2 z.file_sizes p2 in
    let (ss, e3, reads_ss) = push_all-Reads symlinks msg.symlinks r2 r3 z.symlink_sizes p3 in
    let all : r3 ≡ (ds ++ fs) ++ ss = e3 ∙ ap (λ t. t ++ ss) (e2 ∙ ap (λ t. t ++ fs) e1) in
    let nodes : m ≡ d.nodes = ap (λ (x : Directory). x.nodes) (ok-injective _ _ built) in
    record {
      ds = ds;
      fs = fs;
      ss = ss;
      reads_ds = reads_ds;
      reads_fs = reads_fs;
      reads_ss = reads_ss;
      order_ds =
          check_sorted-Ascending directories [] l1 msg.directories [] ds o1 reads_ds (λ _ _. tt);
      order_fs = check_sorted-Ascending files [] l2 msg.files [] fs o2 reads_fs (λ _ _. tt);
      order_ss = check_sorted-Ascending symlinks [] l3 msg.symlinks [] ss o3 reads_ss (λ _ _. tt);
      size = t;
      run = ap (λ l. insert_all l 0 []) (sym all) ∙ run ∙ ap (λ n. ok (t, n)) nodes;
    }

module _ {A : Type 0} (kind : Kind A) where
  -- The group of one kind is the list of it in the directory.
  group_last :
      (as' : List A) (es : List Entry) (m : Nodes)
      → Reads kind as' es
      → keep kind m ≡ es
      → picked kind m ≡ as'
  group_last as' es m r e =
      sym (picked-keep kind m) ∙ ap (picked kind) e ∙ Reads-picked kind as' es r

module _ (msg : DirectoryMessage) (d : Directory) (g : Groups msg d) where
  open g use {ds, fs, ss}

  lists :
      (picked directories d.nodes ≡ msg.directories)
      × (picked files d.nodes ≡ msg.files)
      × (picked symlinks d.nodes ≡ msg.symlinks)
  unfolding keep
  lists =
      let ((s2, m2), run12, run3) =
        >>=-eq-ok (insert_all (ds ++ fs) 0 []) _
          (sym (insert_all-append (ds ++ fs) ss 0 []) ∙ g.run) in
      let ((s1, m1), run1, run2) =
        >>=-eq-ok (insert_all ds 0 []) _ (sym (insert_all-append ds fs 0 []) ∙ run12) in
      let sorted1 = (insert_all-IsSorted ds 0 [] s1 m1 run1 tt).0 in
      let sorted2 = (insert_all-IsSorted fs s1 m1 s2 m2 run2 sorted1).0 in
      let not_d_f =
        Reads-All files (λ e. pick_directory e ≡ none) (λ a e w. (file-other e a w.picks).0)
          msg.files fs g.reads_fs in
      let not_d_s =
        Reads-All symlinks (λ e. pick_directory e ≡ none) (λ a e w. (symlink-other e a w.picks).0)
          msg.symlinks ss g.reads_ss in
      let not_f_d =
        Reads-All directories (λ e. pick_file e ≡ none) (λ a e w. (directory-other e a w.picks).0)
          msg.directories ds g.reads_ds in
      let not_f_s =
        Reads-All symlinks (λ e. pick_file e ≡ none) (λ a e w. (symlink-other e a w.picks).1)
          msg.symlinks ss g.reads_ss in
      let not_s_d =
        Reads-All directories (λ e. pick_symlink e ≡ none)
          (λ a e w. (directory-other e a w.picks).1) msg.directories ds g.reads_ds in
      let not_s_f =
        Reads-All files (λ e. pick_symlink e ≡ none) (λ a e w. (file-other e a w.picks).1) msg.files
          fs g.reads_fs in
      let no_f : keep files m1 ≡ [] = keep-insert_all_other files ds 0 [] s1 m1 not_f_d run1 in
      let no_s : keep symlinks m2 ≡ [] =
        keep-insert_all_other symlinks fs s1 m1 s2 m2 not_s_f run2
        ∙ keep-insert_all_other symlinks ds 0 [] s1 m1 not_s_d run1 in
      let all_d : keep directories d.nodes ≡ ds =
        keep-insert_all_other directories ss s2 m2 g.size d.nodes not_d_s run3
        ∙ keep-insert_all_other directories fs s1 m1 s2 m2 not_d_f run2
        ∙ keep-insert_all_last directories ds 0 [] s1 m1 tt g.order_ds run1 in
      let all_f : keep files d.nodes ≡ fs =
        keep-insert_all_other files ss s2 m2 g.size d.nodes not_f_s run3
        ∙ keep-insert_all_last files fs s1 m1 s2 m2 sorted1
            (subst (λ l. Ascending files l fs) (sym no_f) g.order_fs) run2
        ∙ ap (λ l. l ++ fs) no_f in
      let all_s : keep symlinks d.nodes ≡ ss =
        keep-insert_all_last symlinks ss s2 m2 g.size d.nodes sorted2
          (subst (λ l. Ascending symlinks l ss) (sym no_s) g.order_ss) run3
        ∙ ap (λ l. l ++ ss) no_s in
      (
        group_last directories msg.directories ds d.nodes g.reads_ds all_d,
        group_last files msg.files fs d.nodes g.reads_fs all_f,
        group_last symlinks msg.symlinks ss d.nodes g.reads_ss all_s,
      )

  everywhere {ℓ} :
      (P : Entry → Type ℓ)
      → ((e : Entry) → IsName e.0.inner → IsNode e.1 → P e)
      → All P ((ds ++ fs) ++ ss)
  everywhere P f =
      All-append P (ds ++ fs) ss
        (All-append P ds fs
          (Reads-All directories P (λ a e w. f e w.name w.node) msg.directories ds g.reads_ds)
          (Reads-All files P (λ a e w. f e w.name w.node) msg.files fs g.reads_fs))
        (Reads-All symlinks P (λ a e w. f e w.name w.node) msg.symlinks ss g.reads_ss)

  well_formed : IsDirectory d
  well_formed =
      insert_all-IsDirectory ((ds ++ fs) ++ ss) g.size d.nodes g.run
        (everywhere (λ e. IsName e.0.inner) (λ e n v. n))
        (everywhere (λ e. IsNode e.1) (λ e n v. v))

-- A message that is accepted is the very message that the directory read from it is written as, so
-- no two accepted messages stand for one directory; and the directory is well-formed: sorted, with
-- valid names, none twice, with valid nodes and a size that fits a u64.
pub from-try_from :
    (msg : DirectoryMessage) (d : Directory)
    → IsMessage msg
    → try_from msg ≡ ok d
    → (from d ≡ msg) × IsDirectory d
unfolding from
from-try_from msg d z h =
    let g = try_from-Groups msg d z h in
    let (l1, l2, l3) = lists msg d g in
    (
      from_loop-picked d.nodes _
          ∙ (λ i. record { directories = l1 i; files = l2 i; symlinks = l3 i }),
      well_formed msg d g,
    )
