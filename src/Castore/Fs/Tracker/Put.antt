-- ===== src/Castore/Fs/Tracker/Put.antt =====
-- castore/src/fs/inode_tracker.rs: what `put` and `replace` promise.
use tvix.Prelude.{
  ℕ, ◌+◌, ◌^◌, ◌≤◌, ◌<◌, ◌≡◌, refl, sym, ap, ◌∙◌, Bool, true, false, some, arith, Option-cases, inl,
  inr, ◌⊎◌, ◌↔◌,
}
use tvix.Castore.Nodes.{B3Digest}
use tvix.Castore.Fs.Inodes.{InodeData, regular, symlink, directory, sparse, populated, key_of}
use tvix.Castore.Fs.Tracker.{InodeTracker, get, insert_and_increment, found_or_insert, put}
use tvix.Castore.Fs.Tracker.Invariant.{find, IsTracker, Keeps, Keeps-refl, Keeps-find}
use tvix.Castore.Fs.Tracker.Growth.{
  find_new, grown_before, next-grown, grown-Keeps, grown-IsTracker,
}

-- Anything but a populated directory.
abbrev pub plain : InodeData → Bool
plain (directory (populated digest children)) = false
plain _ = true

put-found :
    (d : InodeData) (t : InodeTracker)
    → plain d ≡ true
    → put d t ≡ some (found_or_insert d t (find t (key_of d)))
unfolding put key_of
put-found (regular digest size executable) t h = refl
put-found (symlink target) t h = refl
put-found (directory (sparse digest size)) t h = refl
put-found (directory (populated digest children)) t h = cc

-- What `put` gives for `d` in `t`: an inode under which the key of `d` is found, and a tracker in which
-- everything else is where it was.
pub record PutTo (d : InodeData) (t : InodeTracker) (ino : ℕ) (u : InodeTracker) : Type 0 where
  pub stored : put d t ≡ some (ino, u)
  pub tracker : IsTracker u
  pub keeps : Keeps t u
  pub at : find u (key_of d) ≡ some ino
  pub next : u.next_inode ≤ t.next_inode + 1
  pub before : (j : ℕ) (e : InodeData) → get j u ≡ some e → (plain e ≡ true) ⊎ (get j t ≡ some e)

pub put_lem :
    (d : InodeData) (t : InodeTracker)
    → plain d ≡ true
    → IsTracker t
    → t.next_inode + 1 < 2 ^ 64
    → (ino : ℕ) × (u : InodeTracker) × PutTo d t ino u
unfolding insert_and_increment
put_lem d t p w room = elim (Option-cases (find t (key_of d))) [
  | inl new ↦ (
    t.next_inode,
    (insert_and_increment d t).1,
    record {
      stored = put-found d t p ∙ rw new refl;
      tracker = grown-IsTracker d t w new room;
      keeps = grown-Keeps d t w new room;
      at = find_new d t;
      next = omega (arith, next-grown d t w new room);
      before = λ j e h. elim (grown_before d t j e h) [
        | inl same ↦ inl (ap plain (sym same) ∙ p)
        | inr old ↦ inr old
      ];
    },
  )
  | inr (found_ino, old) ↦ (
    found_ino,
    t,
    record {
      stored = put-found d t p ∙ rw old refl;
      tracker = w;
      keeps = Keeps-refl t;
      at = old;
      next = omega arith;
      before = λ j e h. inr h;
    },
  )
]

-- Two puts, one after the other, of data that is no populated directory, into a tracker that keeps to its
-- invariant and whose inodes fit a u64, give one inode exactly if the data has one key: a file by its
-- blob, a link by its target, a directory by its digest. The tracker keeps to its invariant.
pub put_twice_iff :
    (d e : InodeData) (t : InodeTracker)
    → plain d ≡ true
    → plain e ≡ true
    → IsTracker t
    → t.next_inode + 2 < 2 ^ 64
    → (i j : ℕ) × (u v : InodeTracker) × (put d t ≡ some (i, u))
      × (put e u ≡ some (j, v))
      × IsTracker v
      × ((i ≡ j) ↔ (key_of d ≡ key_of e))
put_twice_iff d e t p q w room =
    let (i, u, first) = put_lem d t p w (omega (arith, room)) in
    let (j, v, second) = put_lem e u q first.tracker (omega (arith, room, first.next)) in
    let still : find v (key_of d) ≡ some i =
      Keeps-find u v first.tracker second.tracker second.keeps (key_of d) i first.at in
    let (x, at_i, key_i) = second.tracker.found (key_of d) i still in
    let (y, at_j, key_j) = second.tracker.found (key_of e) j second.at in
    (
      i,
      j,
      u,
      v,
      first.stored,
      second.stored,
      second.tracker,
      (
        (λ same. let data_same : x ≡ y = cc in sym key_i ∙ ap key_of data_same ∙ key_j),
        (λ same. let found_same : some i ≡ some j = sym still ∙ ap (find v) same ∙ second.at in cc),
      ),
    )

-- A key that is known is not allocated again, and nothing changes.
pub put_again :
    (d e : InodeData) (t : InodeTracker)
    → plain e ≡ true
    → IsTracker t
    → (ino : ℕ) → get ino t ≡ some d
    → key_of e ≡ key_of d
    → put e t ≡ some (ino, t)
put_again d e t p w ino there key =
    let old : find t (key_of e) ≡ some ino = ap (find t) key ∙ w.known ino d there in
    put-found e t p ∙ rw old refl

-- In a tracker that keeps to its invariant, a file whose blob is known is not stored, whatever its size and its executable bit: its inode goes on
-- having those of the file that came first.
pub put-first_mode :
    (digest : B3Digest) (size : ℕ) (executable : Bool) (t : InodeTracker) (ino : ℕ) (first_size : ℕ)
    (first_executable : Bool)
    → IsTracker t
    → get ino t ≡ some (regular digest first_size first_executable)
    → (u : InodeTracker) × (put (regular digest size executable) t ≡ some (ino, u))
      × (get ino u ≡ some (regular digest first_size first_executable))
unfolding key_of
put-first_mode digest size executable t ino first_size first_executable w there = (
  t,
  put_again (regular digest first_size first_executable) (regular digest size executable) t refl w
      ino there refl,
  there,
)
