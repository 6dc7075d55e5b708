-- ===== src/Castore/Proto/Messages.antt =====
-- The messages of directories, files and symbolic links (castore/src/proto/mod.rs), as three kinds.
use tvix.Prelude.{
  ◌≡◌, sym, ap, ◌∙◌, Option, none, some, Bytes, arith, ◌≤◌, length, ok, >>=-eq-ok, map_err,
  map_err-eq-ok, ok-injective, subst,
}
use mathlib.Core.Option.{some-injective}
use tvix.Castore.Component
use tvix.Castore.Component.{PathComponent, IsName, try_from_name, try_from-IsName}
use tvix.Castore.Nodes
use tvix.Castore.Nodes.{
  u64_max, IsTarget, digest_try_from, target_try_from, digest_try_from-length,
  target_try_from-IsTarget, B3Digest, SymlinkTarget, DirectoryError, IsNode,
  IsTarget-target_try_from, length-digest_try_from,
}
use tvix.Castore.Nodes.Directory.{Entry}
use tvix.Castore.Proto.{
  DirectoryNode, FileNode, SymlinkNode, NodeKind, directory, file, symlink, try_into_name_and_node,
  from_name_and_node, checked_kind,
}
use tvix.Castore.Proto.Kinds.{Kind, Written}

unfoldable pub pick_directory : Entry → Option DirectoryNode
pick_directory (k, Nodes.Node.directory d s) =
    some (record { name = k.inner; digest = d.bytes; size = s })
pick_directory (k, Nodes.Node.file d s x) = none
pick_directory (k, Nodes.Node.symlink t) = none

unfoldable pub pick_file : Entry → Option FileNode
pick_file (k, Nodes.Node.directory d s) = none
pick_file (k, Nodes.Node.file d s x) =
    some (record { name = k.inner; digest = d.bytes; size = s; executable = x })
pick_file (k, Nodes.Node.symlink t) = none

unfoldable pub pick_symlink : Entry → Option SymlinkNode
pick_symlink (k, Nodes.Node.directory d s) = none
pick_symlink (k, Nodes.Node.file d s x) = none
pick_symlink (k, Nodes.Node.symlink t) = some (record { name = k.inner; target = t.inner })

-- What is read back from the message of an entry.
read_node :
    (e : Entry)
    → IsName e.0.inner
    → IsNode e.1
    → try_into_name_and_node (from_name_and_node e.0.inner e.1) ≡ ok e
unfolding try_into_name_and_node from_name_and_node checked_kind
read_node (k, Nodes.Node.directory d s) n v =
    rw (length-digest_try_from d v.0, try_from_name k.inner n)
read_node (k, Nodes.Node.file d s x) n v =
    rw (length-digest_try_from d v.0, try_from_name k.inner n)
read_node (k, Nodes.Node.symlink t) n v = rw (IsTarget-target_try_from t v, try_from_name k.inner n)

-- What an accepted message of a node tells: the conversion of its kind, and a valid name.
accepted :
    (k : NodeKind) (e : Entry)
    → try_into_name_and_node (record { node = some k }) ≡ ok e
    → (checked_kind k ≡ ok (e.0.inner, e.1)) × IsName e.0.inner
unfolding try_into_name_and_node
accepted k e h =
    let ((name_bytes, node), checked, after) = >>=-eq-ok (checked_kind k) _ h in
    let (name, named, same) =
      >>=-eq-ok (map_err Nodes.invalid_name (Component.try_from name_bytes)) _ after in
    let (valid, is) =
      try_from-IsName name_bytes name
        (map_err-eq-ok Nodes.invalid_name (Component.try_from name_bytes) name named) in
    let entry : (record { inner = name_bytes }, node) ≡ e =
      ap (λ n. (n, node)) is ∙ ok-injective _ _ same in
    rw (← entry) (checked, valid)

abbrev digest_error : Bytes → Nodes.DigestError → DirectoryError
digest_error name x = Nodes.invalid_node name (Nodes.from_digest_error x)

abbrev target_error : Bytes → Nodes.SymlinkTargetError → DirectoryError
target_error name x = Nodes.invalid_node name (Nodes.invalid_symlink_target x)

pub named_directory :
    (e : Entry) (a : DirectoryNode) → pick_directory e ≡ some a → a.name ≡ e.0.inner
unfolding pick_directory
named_directory (k, Nodes.Node.directory d s) a h = ground arith
named_directory (k, Nodes.Node.file d s x) a h = cc
named_directory (k, Nodes.Node.symlink t) a h = cc

pub read_directory :
    (e : Entry) (a : DirectoryNode)
    → pick_directory e ≡ some a
    → IsName e.0.inner
    → IsNode e.1
    → try_into_name_and_node (record { node = some (directory a) }) ≡ ok e
unfolding pick_directory from_name_and_node
read_directory (k, Nodes.Node.directory d s) a h n v =
    let same = some-injective _ _ h in rw (← same) (read_node (k, Nodes.Node.directory d s) n v)
read_directory (k, Nodes.Node.file d s x) a h n v = cc
read_directory (k, Nodes.Node.symlink t) a h n v = cc

pub directory-Written :
    (a : DirectoryNode) (e : Entry)
    → try_into_name_and_node (record { node = some (directory a) }) ≡ ok e
    → a.size ≤ u64_max
    → Written pick_directory a e
unfolding checked_kind pick_directory
directory-Written a e h fits =
    let (checked, valid) = accepted (directory a) e h in
    let (c, got, built) =
      >>=-eq-ok (map_err (digest_error a.name) (digest_try_from a.digest)) _ checked in
    let (len, bytes) =
      digest_try_from-length a.digest c
        (map_err-eq-ok (digest_error a.name) (digest_try_from a.digest) c got) in
    let same = ok-injective _ _ built in
    let name = ap (λ x. x.0) same in
    let here : Written pick_directory a (record { inner = a.name }, Nodes.Node.directory c a.size) =
      record {
        picks = ap (λ b. some (record { name = a.name; digest = b; size = a.size })) bytes;
        name = subst IsName (sym name) valid;
        node = (ap length bytes ∙ len, fits);
      } in
    subst (Written pick_directory a) (λ i. (record { inner = (same i).0 }, (same i).1)) here

abbrev pub directories : Kind DirectoryNode
directories = record {
  pick = pick_directory;
  name_of = λ a. a.name;
  wrap = directory;
  named = named_directory;
  read = read_directory;
  Sized = λ a. a.size ≤ u64_max;
  written = directory-Written;
}

pub named_file : (e : Entry) (a : FileNode) → pick_file e ≡ some a → a.name ≡ e.0.inner
unfolding pick_file
named_file (k, Nodes.Node.directory d s) a h = cc
named_file (k, Nodes.Node.file d s x) a h = ground arith
named_file (k, Nodes.Node.symlink t) a h = cc

pub read_file :
    (e : Entry) (a : FileNode)
    → pick_file e ≡ some a
    → IsName e.0.inner
    → IsNode e.1
    → try_into_name_and_node (record { node = some (file a) }) ≡ ok e
unfolding pick_file from_name_and_node
read_file (k, Nodes.Node.directory d s) a h n v = cc
read_file (k, Nodes.Node.file d s x) a h n v =
    let same = some-injective _ _ h in rw (← same) (read_node (k, Nodes.Node.file d s x) n v)
read_file (k, Nodes.Node.symlink t) a h n v = cc

pub file-Written :
    (a : FileNode) (e : Entry)
    → try_into_name_and_node (record { node = some (file a) }) ≡ ok e
    → a.size ≤ u64_max
    → Written pick_file a e
unfolding checked_kind pick_file
file-Written a e h fits =
    let (checked, valid) = accepted (file a) e h in
    let (c, got, built) =
      >>=-eq-ok (map_err (digest_error a.name) (digest_try_from a.digest)) _ checked in
    let (len, bytes) =
      digest_try_from-length a.digest c
        (map_err-eq-ok (digest_error a.name) (digest_try_from a.digest) c got) in
    let same = ok-injective _ _ built in
    let name = ap (λ x. x.0) same in
    let here : Written pick_file a
        (record { inner = a.name }, Nodes.Node.file c a.size a.executable) =
      record {
        picks =
            ap
              (λ b.
                some
                  (record { name = a.name; digest = b; size = a.size; executable = a.executable }))
              bytes;
        name = subst IsName (sym name) valid;
        node = (ap length bytes ∙ len, fits);
      } in
    subst (Written pick_file a) (λ i. (record { inner = (same i).0 }, (same i).1)) here

abbrev pub files : Kind FileNode
files = record {
  pick = pick_file;
  name_of = λ a. a.name;
  wrap = file;
  named = named_file;
  read = read_file;
  Sized = λ a. a.size ≤ u64_max;
  written = file-Written;
}

pub named_symlink : (e : Entry) (a : SymlinkNode) → pick_symlink e ≡ some a → a.name ≡ e.0.inner
unfolding pick_symlink
named_symlink (k, Nodes.Node.directory d s) a h = cc
named_symlink (k, Nodes.Node.file d s x) a h = cc
named_symlink (k, Nodes.Node.symlink t) a h = ground arith

pub read_symlink :
    (e : Entry) (a : SymlinkNode)
    → pick_symlink e ≡ some a
    → IsName e.0.inner
    → IsNode e.1
    → try_into_name_and_node (record { node = some (symlink a) }) ≡ ok e
unfolding pick_symlink from_name_and_node
read_symlink (k, Nodes.Node.directory d s) a h n v = cc
read_symlink (k, Nodes.Node.file d s x) a h n v = cc
read_symlink (k, Nodes.Node.symlink t) a h n v =
    let same = some-injective _ _ h in rw (← same) (read_node (k, Nodes.Node.symlink t) n v)

pub symlink-Written :
    (a : SymlinkNode) (e : Entry)
    → try_into_name_and_node (record { node = some (symlink a) }) ≡ ok e
    → Unit {0}
    → Written pick_symlink a e
unfolding checked_kind pick_symlink
symlink-Written a e h fits =
    let (checked, valid) = accepted (symlink a) e h in
    let (c, got, built) =
      >>=-eq-ok (map_err (target_error a.name) (target_try_from a.target)) _ checked in
    let (target, bytes) =
      target_try_from-IsTarget a.target c
        (map_err-eq-ok (target_error a.name) (target_try_from a.target) c got) in
    let same = ok-injective _ _ built in
    let name = ap (λ x. x.0) same in
    let here : Written pick_symlink a (record { inner = a.name }, Nodes.Node.symlink c) = record {
      picks = ap (λ b. some (record { name = a.name; target = b })) bytes;
      name = subst IsName (sym name) valid;
      node = subst IsTarget (sym bytes) target;
    } in
    subst (Written pick_symlink a) (λ i. (record { inner = (same i).0 }, (same i).1)) here

abbrev pub symlinks : Kind SymlinkNode
symlinks = record {
  pick = pick_symlink;
  name_of = λ a. a.name;
  wrap = symlink;
  named = named_symlink;
  read = read_symlink;
  Sized = λ a. Unit {0};
  written = symlink-Written;
}
