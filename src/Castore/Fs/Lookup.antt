-- ===== src/Castore/Fs/Lookup.antt =====
-- castore/src/fs/mod.rs: the lookups of names, from a well-formed state.
use tvix.Prelude.{
  ℕ, ◌+◌, ◌^◌, ◌<◌, ◌≡◌, refl, subst, false, List, [], ◌∷◌, Option, none, some, Bytes, ◌==◌, ==_iff,
  length, All, All-map, Result, ok, err, error, Bool-cases, Option-cases, Result-cases, ◌⊎◌, inl,
  inr,
}
use tvix.Castore.Component.{PathComponent, try_from}
use tvix.Castore.Nodes.{B3Digest, Node}
use tvix.Castore.Nodes.Directory.{Directory}
use tvix.Castore.Fs.Inodes.{
  Child, InodeData, regular, symlink, directory, sparse, populated, from_node, key_of,
}
use tvix.Castore.Fs.Tracker.{InodeTracker, get}
use tvix.Castore.Fs.Tracker.Invariant.{IsTracker, Keeps, Keeps-refl}
use tvix.Castore.Fs.Tracker.Put.{put_lem}
use tvix.Castore.Fs.Children.{
  Allocated, Allocated-Known, Known, ChildrenKnown, ChildrenKnown-Keeps, from_node-plain,
  get_directory_children_lem,
}
use tvix.Castore.Fs.{
  Errno, io, no_entry, not_directory, not_found, service, TvixStoreFs, root_id, name_eq, find_child,
  FsResult, get_directory_children, children_of, known_inode, root_node,
  name_in_root_to_ino_and_data, lookup_child, lookup_component, lookup,
}

abbrev pub HasInode : InodeTracker → ℕ → Type 0
HasInode t ino = (d : InodeData) × (get ino t ≡ some d)

HasInode-Keeps : (t u : InodeTracker) → Keeps t u → (ino : ℕ) → HasInode t ino → HasInode u ino
HasInode-Keeps t u keeps ino (d, there) = let (e, still, same) = keeps ino d there in (e, still)

-- The tracker is well-formed, and all inodes that are handed out are in it.
pub record IsFs (fs : TvixStoreFs) : Type 0 where
  pub tracker : IsTracker fs.inode_tracker
  pub children : ChildrenKnown fs.inode_tracker
  pub roots :
      (name : PathComponent) (ino : ℕ)
      → fs.root_nodes name ≡ some ino
      → HasInode fs.inode_tracker ino

find_child-Known :
    (t : InodeTracker) (name : PathComponent) (children : List Child) (ino : ℕ)
    → All (Known t) children
    → find_child name children ≡ some ino
    → HasInode t ino
unfolding find_child
find_child-Known t name [] ino known h = cc
find_child-Known t name ((i, n, node) ∷ cs) ino (here, others) h =
    elim (Bool-cases (name_eq n name)) [
      | inl same ↦
          let found : some i ≡ some ino = rw (rw same at h) in
          let i_same : i ≡ ino = cc in subst (HasInode t) i_same here
      | inr other ↦ find_child-Known t name cs ino others (rw other at h)
    ]

module _ {E : Type 0} where
  -- A lookup in `fs` that went through: it gives an inode of the new state or an error of the file system,
  -- never a panic, and all inodes of `fs` stay.
  pub record Answered (fs : TvixStoreFs) (reply : FsResult E (ℕ × InodeData) × TvixStoreFs)
      : Type 0 where
    pub no_panic :
        ((ino : ℕ) × (d : InodeData) × (reply.0 ≡ ok (ino, d))
          × HasInode (reply.1).inode_tracker ino)
        ⊎ ((e : Errno E) × (reply.0 ≡ err (error e)))
    pub state : IsFs reply.1
    pub keeps : Keeps fs.inode_tracker (reply.1).inode_tracker

  refused : (fs : TvixStoreFs) (e : Errno E) → IsFs fs → Answered fs (err (error e), fs)
  refused fs e w = record {
    no_panic = inr (e, refl);
    state = w;
    keeps = Keeps-refl fs.inode_tracker;
  }

module _ {E : Type 0} (get_directory : B3Digest → Result E (Option Directory)) where
  known_inode-Answered :
      (ino : ℕ) (fs : TvixStoreFs)
      → IsFs fs
      → HasInode fs.inode_tracker ino
      → Answered fs (known_inode get_directory ino fs)
  known_inode-Answered ino fs w (d, there) =
      rw (known_inode, there)
        (record {
          no_panic = inl (ino, d, refl, (d, there));
          state = w;
          keeps = Keeps-refl fs.inode_tracker;
        })

  module _ (get_by_basename : PathComponent → Result E (Option Node)) where
    -- A root node that was not there is stored under its name.
    root_node-Answered :
        (name : PathComponent) (node : Node) (fs : TvixStoreFs)
        → IsFs fs
        → fs.inode_tracker.next_inode + 1 < 2 ^ 64
        → fs.root_nodes name ≡ none
        → Answered fs (root_node get_directory get_by_basename name node fs)
    root_node-Answered name node fs w room new =
        let (ino, t, done) =
          put_lem (from_node node) fs.inode_tracker (from_node-plain node) w.tracker room in
        let (d, there, key) = done.tracker.found (key_of (from_node node)) ino done.at in
        rw (root_node, new, done.stored)
          (record {
            no_panic = inl (ino, from_node node, refl, (d, there));
            state = record {
              tracker = done.tracker;
              children = ChildrenKnown-Keeps fs.inode_tracker t done.keeps done.before w.children;
              roots = λ n i h. elim (Bool-cases (name_eq name n)) [
                | inl same ↦
                    let stored : some ino ≡ some i = rw (rw same at h) in
                    let i_same : ino ≡ i = cc in subst (HasInode t) i_same (d, there)
                | inr other ↦
                    HasInode-Keeps fs.inode_tracker t done.keeps i (w.roots n i (rw other at h))
              ];
            };
            keeps = done.keeps;
          })

    in_root-Answered :
        (name : PathComponent) (fs : TvixStoreFs)
        → IsFs fs
        → fs.inode_tracker.next_inode + 1 < 2 ^ 64
        → Answered fs (name_in_root_to_ino_and_data get_directory get_by_basename name fs)
    unfolding name_in_root_to_ino_and_data
    in_root-Answered name fs w room = elim (Option-cases (fs.root_nodes name)) [
      | inr (ino, known) ↦
          rw (name_in_root_to_ino_and_data, known)
            (known_inode-Answered ino fs w (w.roots name ino known))
      | inl new ↦ elim (Result-cases (get_by_basename name)) [
        | inr (e, failed) ↦ rw (name_in_root_to_ino_and_data, new, failed) (refused fs io w)
        | inl (none, nothing) ↦
            rw (name_in_root_to_ino_and_data, new, nothing) (refused fs no_entry w)
        | inl (some node, fetched) ↦
            rw (name_in_root_to_ino_and_data, new, fetched)
              (root_node-Answered name node fs w room new)
      ]
    ]

  -- The children of a known inode, if it is a directory that can be had.
  pub record ChildrenGiven (ino : ℕ) (t : InodeTracker) (digest : B3Digest) (children : List Child)
      (u : InodeTracker) : Type 0 where
    pub answer : get_directory_children get_directory ino t ≡ ok ((digest, children), u)
    pub tracker : IsTracker u
    pub known : ChildrenKnown u
    pub keeps : Keeps t u
    pub given : All (Known u) children

  abbrev pub Given : ℕ → InodeTracker → Type 0
  Given ino t =
      ((digest : B3Digest) × (children : List Child) × (u : InodeTracker) × ChildrenGiven ino t
          digest children u)
      ⊎ ((e : Errno E) × (get_directory_children get_directory ino t ≡ err (error e)))

  -- The inodes of the entries of a directory fit a u64, if it is sparse in the tracker.
  abbrev pub Room : ℕ → InodeTracker → Type 0
  Room ino t =
      (digest : B3Digest) (size : ℕ) (dir : Directory)
      → get ino t ≡ some (directory (sparse digest size))
      → get_directory digest ≡ ok (some dir)
      → t.next_inode + length dir.nodes < 2 ^ 64

  module _ (t : InodeTracker) (w : IsTracker t) (known : ChildrenKnown t) where
    Given-sparse :
        (ino : ℕ) (digest : B3Digest) (size : ℕ)
        → get ino t ≡ some (directory (sparse digest size))
        → Room ino t
        → Given ino t
    unfolding get_directory_children children_of
    Given-sparse ino digest size there fits = elim (Result-cases (get_directory digest)) [
      | inr (e, failed) ↦
          inr (service e, rw (get_directory_children, there, children_of, failed) refl)
      | inl (none, nothing) ↦
          inr (io, rw (get_directory_children, there, children_of, nothing) refl)
      | inl (some dir, fetched) ↦
          let (children, u, done) =
            get_directory_children_lem get_directory ino digest size dir t w there fetched
              (fits digest size dir there fetched) in
          inl (
            digest,
            children,
            u,
            record {
              answer = done.answer;
              tracker = done.tracker;
              known = done.known known;
              keeps = done.keeps;
              given = All-map (Allocated u) (Known u) (Allocated-Known u) children done.allocated;
            },
          )
    ]

    known-Given : (ino : ℕ) (d : InodeData) → get ino t ≡ some d → Room ino t → Given ino t
    unfolding get_directory_children children_of
    known-Given ino (regular digest size executable) there fits =
        inr (not_directory, rw (get_directory_children, there) refl)
    known-Given ino (symlink target) there fits =
        inr (not_directory, rw (get_directory_children, there) refl)
    known-Given ino (directory (sparse digest size)) there fits =
        Given-sparse ino digest size there fits
    known-Given ino (directory (populated digest children)) there fits = inl (
      digest,
      children,
      t,
      record {
        answer = rw (get_directory_children, there) refl;
        tracker = w;
        known = known;
        keeps = Keeps-refl t;
        given = known ino digest children there;
      },
    )

  module _ (get_by_basename : PathComponent → Result E (Option Node)) where
    in_directory-Answered :
        (parent : ℕ) (name : PathComponent) (fs : TvixStoreFs)
        → IsFs fs
        → (parent == root_id) ≡ false
        → Given parent fs.inode_tracker
        → Answered fs (lookup_component get_directory get_by_basename parent name fs)
    unfolding lookup_component lookup_child
    in_directory-Answered parent name fs w not_root (inr (e, failed)) =
        rw (lookup_component, not_root, failed) (refused fs e w)
    in_directory-Answered parent name fs w not_root (inl (digest, children, u, g)) =
        let after : TvixStoreFs = record fs { inode_tracker = u } in
        let wf : IsFs after = record {
          tracker = g.tracker;
          children = g.known;
          roots = λ n i h. HasInode-Keeps fs.inode_tracker u g.keeps i (w.roots n i h);
        } in
        elim (Option-cases (find_child name children)) [
          | inl nothing ↦
              rw (lookup_component, not_root, g.answer, lookup_child, nothing)
                (record { no_panic = inr (no_entry, refl); state = wf; keeps = g.keeps })
          | inr (ino, found) ↦
              let (d, there) = find_child-Known u name children ino g.given found in
              rw (lookup_component, not_root, g.answer, lookup_child, found, known_inode, there)
                (record { no_panic = inl (ino, d, refl, (d, there)); state = wf; keeps = g.keeps })
        ]

    component-Answered :
        (parent : ℕ) (name : PathComponent) (fs : TvixStoreFs)
        → IsFs fs
        → (parent ≡ root_id → fs.inode_tracker.next_inode + 1 < 2 ^ 64)
        → Room parent fs.inode_tracker
        → (parent ≡ root_id) ⊎ HasInode fs.inode_tracker parent
        → Answered fs (lookup_component get_directory get_by_basename parent name fs)
    unfolding lookup_component
    component-Answered parent name fs w room fits where_ = elim (Bool-cases (parent == root_id)) [
      | inl root ↦
          rw (lookup_component, root)
            (in_root-Answered get_by_basename name fs w (room ((==_iff parent root_id).0 root)))
      | inr not_root ↦ elim where_ [
        | inl root ↦ cc
        | inr (d, there) ↦
            in_directory-Answered parent name fs w not_root
              (known-Given fs.inode_tracker w.tracker w.children parent d there fits)
      ]
    ]

    -- In a well-formed state a lookup of any bytes, under the root or under an inode that the tracker has,
    -- never panics: it gives an inode that the tracker then has, or an error of the file system. The state
    -- stays well-formed and keeps its inodes. The condition under the root is that one more inode fits a u64; under a directory
    -- that is sparse in the tracker it is that those of its entries do.
    pub lookup-Answered :
        (parent : ℕ) (name : Bytes) (fs : TvixStoreFs)
        → IsFs fs
        → (parent ≡ root_id → fs.inode_tracker.next_inode + 1 < 2 ^ 64)
        → Room parent fs.inode_tracker
        → (parent ≡ root_id) ⊎ HasInode fs.inode_tracker parent
        → Answered fs (lookup get_directory get_by_basename parent name fs)
    unfolding lookup
    lookup-Answered parent name fs w room fits where_ = elim (Result-cases (try_from name)) [
      | inl (component, named) ↦
          rw (lookup, named) (component-Answered parent component fs w room fits where_)
      | inr (e, failed) ↦ rw (lookup, failed) (refused fs not_found w)
    ]
