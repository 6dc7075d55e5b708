-- ===== src/Castore/Fs/Children.antt =====
-- castore/src/fs/mod.rs: the inodes of the children of a directory.
use tvix.Prelude.{
  ℕ, ◌+◌, ◌^◌, ◌≤◌, ◌<◌, ◌≡◌, refl, sym, ap, ◌∙◌, true, List, [], ◌∷◌, map, Option, some, length,
  All, All-map, Result, ok, arith, ◌⊎◌, inl, inr, subst,
}
use tvix.Castore.Nodes.{B3Digest, Node}
use tvix.Castore.Nodes.Directory.{Directory, Entry}
use tvix.Castore.Fs.Inodes.{Child, InodeData, directory, sparse, populated, from_node, key_of}
use tvix.Castore.Fs.Tracker.{InodeTracker, get, put}
use tvix.Castore.Fs.Tracker.Invariant.{IsTracker, Keeps, Keeps-refl, Keeps-trans}
use tvix.Castore.Fs.Tracker.Put.{plain, put_lem}
use tvix.Castore.Fs.Tracker.Replace.{
  replaced, replace_done, get-replaced_same, replaced_now, replaced-Keeps, replaced-IsTracker,
}
use tvix.Castore.Fs.{put_children, populate, children_of, get_directory_children}

-- The tracker has data of the key of the child's node under its inode.
abbrev pub Allocated : InodeTracker → Child → Type 0
Allocated t (ino, name, node) =
    (d : InodeData) × (get ino t ≡ some d) × (key_of d ≡ key_of (from_node node))

Allocated-Keeps : (t u : InodeTracker) → Keeps t u → (c : Child) → Allocated t c → Allocated u c
Allocated-Keeps t u keeps (ino, name, node) (d, there, key) =
    let (e, still, same) = keeps ino d there in (e, still, same ∙ key)

pub from_node-plain : (n : Node) → plain (from_node n) ≡ true
unfolding from_node
from_node-plain (Node.directory digest size) = refl
from_node-plain (Node.file digest size executable) = refl
from_node-plain (Node.symlink target) = refl

abbrev pub Known : InodeTracker → Child → Type 0
Known t (ino, name, node) = (d : InodeData) × (get ino t ≡ some d)

pub Known-Keeps : (t u : InodeTracker) → Keeps t u → (c : Child) → Known t c → Known u c
Known-Keeps t u keeps (ino, name, node) (d, there) =
    let (e, still, same) = keeps ino d there in (e, still)

pub Allocated-Known : (t : InodeTracker) (c : Child) → Allocated t c → Known t c
Allocated-Known t (ino, name, node) (d, there, key) = (d, there)

-- The inodes of the children of every populated directory are there.
abbrev pub ChildrenKnown : InodeTracker → Type 0
ChildrenKnown t =
    (ino : ℕ) (digest : B3Digest) (children : List Child)
    → get ino t ≡ some (directory (populated digest children))
    → All (Known t) children

-- They stay so where populated directories are not added.
pub ChildrenKnown-Keeps :
    (t u : InodeTracker)
    → Keeps t u
    → ((j : ℕ) (e : InodeData) → get j u ≡ some e → (plain e ≡ true) ⊎ (get j t ≡ some e))
    → ChildrenKnown t
    → ChildrenKnown u
ChildrenKnown-Keeps t u keeps before known j digest children h = elim (before j _ h) [
  | inl is_plain ↦ cc
  | inr old ↦
      All-map (Known t) (Known u) (Known-Keeps t u keeps) children (known j digest children old)
]

abbrev pub entry_of : Child → Entry
entry_of (ino, name, node) = (name, node)

pub record PutChildren (es : List Entry) (t : InodeTracker) (children : List Child)
    (u : InodeTracker) : Type 0 where
  pub stored : put_children es t ≡ some (children, u)
  pub tracker : IsTracker u
  pub keeps : Keeps t u
  pub allocated : All (Allocated u) children
  pub entries : map entry_of children ≡ es
  pub next : u.next_inode ≤ t.next_inode + length es
  pub before : (j : ℕ) (e : InodeData) → get j u ≡ some e → (plain e ≡ true) ⊎ (get j t ≡ some e)

pub put_children_lem :
    (es : List Entry) (t : InodeTracker)
    → IsTracker t
    → t.next_inode + length es < 2 ^ 64
    → (children : List Child) × (u : InodeTracker) × PutChildren es t children u
unfolding put_children
put_children_lem [] t w room = (
  [],
  t,
  record {
    stored = refl;
    tracker = w;
    keeps = Keeps-refl t;
    allocated = tt;
    entries = refl;
    next = omega arith;
    before = λ j e h. inr h;
  },
)
put_children_lem ((name, node) ∷ es) t w room =
    let (ino, u, first) =
      put_lem (from_node node) t (from_node-plain node) w (omega (arith, room)) in
    let (children, v, others) =
      put_children_lem es u first.tracker (omega (arith, room, first.next)) in
    let (d, there, key) = first.tracker.found (key_of (from_node node)) ino first.at in
    (
      (ino, name, node) ∷ children,
      v,
      record {
        stored = rw (put_children, first.stored, others.stored) refl;
        tracker = others.tracker;
        keeps = Keeps-trans t u v first.keeps others.keeps;
        allocated =
            (Allocated-Keeps u v others.keeps (ino, name, node) (d, there, key), others.allocated);
        entries = ap (λ rest. (name, node) ∷ rest) others.entries;
        next = omega (arith, first.next, others.next);
        before = λ j e h. elim (others.before j e h) [
          | inl is_plain ↦ inl is_plain
          | inr old ↦ first.before j e old
        ];
      },
    )

module _ {E : Type 0} (get_directory : B3Digest → Result E (Option Directory)) where
  -- What is known after the children of a directory were asked for.
  pub record Populated (ino : ℕ) (digest : B3Digest) (dir : Directory) (t : InodeTracker)
      (children : List Child) (u : InodeTracker) : Type 0 where
    pub answer : get_directory_children get_directory ino t ≡ ok ((digest, children), u)
    pub again : get_directory_children get_directory ino u ≡ ok ((digest, children), u)
    pub tracker : IsTracker u
    pub keeps : Keeps t u
    pub allocated : All (Allocated u) children
    pub entries : map entry_of children ≡ dir.nodes
    pub known : ChildrenKnown t → ChildrenKnown u

  -- A sparse directory that the service has becomes populated: its children are its nodes in order, each
  -- under an inode that has data of the node's key; asked again it answers the same without a change. The
  -- tracker stays well-formed and keeps its inodes, as long as the new ones fit a u64.
  pub get_directory_children_lem :
      (ino : ℕ) (digest : B3Digest) (size : ℕ) (dir : Directory) (t : InodeTracker)
      → IsTracker t
      → get ino t ≡ some (directory (sparse digest size))
      → get_directory digest ≡ ok (some dir)
      → t.next_inode + length dir.nodes < 2 ^ 64
      → (children : List Child) × (u : InodeTracker) × Populated ino digest dir t children u
  unfolding get_directory_children children_of populate key_of
  get_directory_children_lem ino digest size dir t w there fetched room =
      let (children, u, put) = put_children_lem dir.nodes t w room in
      let (d, still, key) = put.keeps ino (directory (sparse digest size)) there in
      let new = directory (populated digest children) in
      let v = replaced d new u ino still in
      let after = replaced-Keeps d new u ino still (sym key) in
      let here = get-replaced_same d new u ino still in
      (
        children,
        v,
        record {
          answer =
              rw
                (
                  get_directory_children,
                  there,
                  children_of,
                  fetched,
                  populate,
                  put.stored,
                  replace_done d new u ino still,
                )
                refl;
          again = rw (get_directory_children, here) refl;
          tracker = replaced-IsTracker d new u ino still (sym key) put.tracker;
          keeps = Keeps-trans t u v put.keeps after;
          allocated =
              All-map (Allocated u) (Allocated v) (Allocated-Keeps u v after) children
                put.allocated;
          entries = put.entries;
          known = λ before j digest' cs h.
              elim (replaced_now d new u ino still j _ h) as (λ _. All (Known v) cs) [
                | inl same ↦
                    let cs_same : children ≡ cs = cc in
                    subst (λ x. All (Known v) x) cs_same
                      (All-map (Allocated u) (Known v)
                        (λ c a. Known-Keeps u v after c (Allocated-Known u c a)) children
                        put.allocated)
                | inr old ↦
                    All-map (Known u) (Known v) (Known-Keeps u v after) cs
                      (ChildrenKnown-Keeps t u put.keeps put.before before j digest' cs old)
              ];
        },
      )
