-- ===== src/Castore/Fs/Tracker/Invariant.antt =====
-- castore/src/fs/inode_tracker.rs: when a tracker is well-formed.
use tvix.Prelude.{ℕ, ◌<◌, ◌≡◌, refl, sym, ap, ◌∙◌, Option, some, if◌then◌else◌}
use tvix.Castore.Fs.Inodes.{
  InodeData, regular, symlink, directory, sparse, populated, Key, blob, link, dir, key_of, key_eq,
}
use tvix.Castore.Fs.Tracker.{InodeTracker, no_inodes, get, register}

-- The lookup tables as one.
abbrev pub find : InodeTracker → Key → Option ℕ
find t (blob digest) = t.blob_digest_to_inode digest
find t (link target) = t.symlink_target_to_inode target
find t (dir digest) = t.directory_digest_to_inode digest

-- The data and the tables are each other's inverse, and all inodes are below the next one.
pub record IsTracker (t : InodeTracker) : Type 0 where
  pub below : (ino : ℕ) (d : InodeData) → get ino t ≡ some d → ino < t.next_inode
  pub found :
      (k : Key) (ino : ℕ)
      → find t k ≡ some ino
      → (d : InodeData) × (get ino t ≡ some d) × (key_of d ≡ k)
  pub known : (ino : ℕ) (d : InodeData) → get ino t ≡ some d → find t (key_of d) ≡ some ino

pub no_inodes-IsTracker : IsTracker no_inodes
unfolding get
no_inodes-IsTracker = record {
  below = λ ino d h. cc;
  found = λ k ino h.
      elim k
          as (λ k'.
            find no_inodes k' ≡ some ino
            → (d : InodeData) × (get ino no_inodes ≡ some d) × (key_of d ≡ k')) [
              | blob digest ↦ λ e. cc
              | link target ↦ λ e. cc
              | dir digest ↦ λ e. cc
            ]
        h;
  known = λ ino d h. cc;
}

pub find-register :
    (d : InodeData) (ino : ℕ) (t : InodeTracker) (k : Key)
    → find (register d ino t) k ≡ (if key_eq (key_of d) k then some ino else find t k)
unfolding key_of
find-register (regular digest size executable) ino t (blob b) = refl
find-register (regular digest size executable) ino t (link b) = refl
find-register (regular digest size executable) ino t (dir b) = refl
find-register (symlink target) ino t (blob b) = refl
find-register (symlink target) ino t (link b) = refl
find-register (symlink target) ino t (dir b) = refl
find-register (directory (sparse digest size)) ino t (blob b) = refl
find-register (directory (sparse digest size)) ino t (link b) = refl
find-register (directory (sparse digest size)) ino t (dir b) = refl
find-register (directory (populated digest children)) ino t (blob b) = refl
find-register (directory (populated digest children)) ino t (link b) = refl
find-register (directory (populated digest children)) ino t (dir b) = refl

-- Every inode is still there, for the same key.
abbrev pub Keeps : InodeTracker → InodeTracker → Type 0
Keeps t u =
    (ino : ℕ) (d : InodeData)
    → get ino t ≡ some d
    → (e : InodeData) × (get ino u ≡ some e) × (key_of e ≡ key_of d)

pub Keeps-refl : (t : InodeTracker) → Keeps t t
Keeps-refl t ino d h = (d, h, refl)

pub Keeps-trans : (t u v : InodeTracker) → Keeps t u → Keeps u v → Keeps t v
Keeps-trans t u v p q ino d h =
    let (e, he, ke) = p ino d h in let (f, hf, kf) = q ino e he in (f, hf, kf ∙ ke)

-- What the tables say of a key stays.
pub Keeps-find :
    (t u : InodeTracker)
    → IsTracker t
    → IsTracker u
    → Keeps t u
    → (k : Key) (ino : ℕ) → find t k ≡ some ino
    → find u k ≡ some ino
Keeps-find t u wt wu keeps k ino h =
    let (d, there, key) = wt.found k ino h in
    let (e, still, same) = keeps ino d there in
    ap (find u) (sym (same ∙ key)) ∙ wu.known ino e still
