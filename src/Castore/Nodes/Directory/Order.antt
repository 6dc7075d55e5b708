-- ===== src/Castore/Nodes/Directory/Order.antt =====
-- Insertions (castore/src/nodes/directory.rs) keep the map sorted and lose no entry.
use tvix.Prelude.{
  ℕ, ◌+◌, ◌≤◌, ◌≡◌, refl, subst, List, [], ◌∷◌, none, arith, Bytes, Ordering, All, All-map,
  bytes_cmp, BytesLt, bytes_cmp-lt, bytes_cmp-gt, BytesLt-trans, >>=-eq-ok, ok, inl, inr, ◌⊎◌,
}
use tvix.Castore.Component.{PathComponent, IsName}
use tvix.Castore.Nodes.{Node, IsNode, u64_max}
use tvix.Castore.Nodes.Directory.{
  Entry, Nodes, Directory, lookup, insert, insert_all, IsSorted, IsDirectory, total, node_size,
  try_from_iter,
}
use tvix.Castore.Nodes.Directory.Insertion.{insert_all_inv, insert-Below, insert_all-total}

cmp-cases :
    (a b : Bytes)
    → (bytes_cmp a b ≡ Ordering.lt)
      ⊎ ((bytes_cmp a b ≡ Ordering.eq) ⊎ (bytes_cmp a b ≡ Ordering.gt))
cmp-cases a b = split (bytes_cmp a b) refl
  where
    split :
        (o : Ordering)
        → bytes_cmp a b ≡ o
        → (bytes_cmp a b ≡ Ordering.lt)
          ⊎ ((bytes_cmp a b ≡ Ordering.eq) ⊎ (bytes_cmp a b ≡ Ordering.gt))
    split Ordering.lt e = inl e
    split Ordering.eq e = inr (inl e)
    split Ordering.gt e = inr (inr e)

-- Where a vacant key goes: in front of a first entry, or behind it.
abbrev Front : PathComponent → Node → PathComponent → Node → Nodes → Type 0
Front k v j w m = BytesLt k.inner j.inner × (insert k v ((j, w) ∷ m) ≡ (k, v) ∷ (j, w) ∷ m)

abbrev Behind : PathComponent → Node → PathComponent → Node → Nodes → Type 0
Behind k v j w m =
    BytesLt j.inner k.inner
    × (insert k v ((j, w) ∷ m) ≡ (j, w) ∷ insert k v m)
    × (lookup k m ≡ none)

pub vacant-cases :
    (k : PathComponent) (v : Node) (j : PathComponent) (w : Node) (m : Nodes)
    → lookup k ((j, w) ∷ m) ≡ none
    → Front k v j w m ⊎ Behind k v j w m
unfolding lookup insert
vacant-cases k v j w m h = elim (cmp-cases k.inner j.inner) [
  | inl e ↦ inl (bytes_cmp-lt k.inner j.inner e, rw (e, insert))
  | inr (inl e) ↦ cc (rw (e, lookup) at h)
  | inr (inr e) ↦ inr (bytes_cmp-gt k.inner j.inner e, rw (e, insert), rw (e, lookup) at h)
]

pub insert-IsSorted :
    (k : PathComponent) (v : Node) (m : Nodes)
    → lookup k m ≡ none
    → IsSorted m
    → IsSorted (insert k v m)
insert-IsSorted k v [] h s = unfold insert in (tt, tt)
insert-IsSorted k v ((j, w) ∷ m) h (b, s) = elim (vacant-cases k v j w m h) [
  | inl (lt, e) ↦
      rw e (
        (lt, All-map _ _ (λ x below. BytesLt-trans k.inner j.inner x.0.inner lt below) m b),
        (b, s),
      )
  | inr (gt, e, h') ↦ rw e (insert-Below j w k v m gt b, insert-IsSorted k v m h' s)
]

pub total-insert :
    (k : PathComponent) (v : Node) (m : Nodes)
    → lookup k m ≡ none
    → total (insert k v m) ≡ total m + 1 + node_size v
total-insert k v [] h = unfold insert in omega arith
total-insert k v ((j, w) ∷ m) h = elim (vacant-cases k v j w m h) [
  | inl (lt, e) ↦ rw e (omega arith)
  | inr (gt, e, h') ↦ rw e (omega (arith, total-insert k v m h'))
]

pub insert-All {ℓ} :
    (P : Entry → Type ℓ) (k : PathComponent) (v : Node) (m : Nodes)
    → lookup k m ≡ none
    → P (k, v)
    → All P m
    → All P (insert k v m)
insert-All P k v [] h p a = unfold insert in (p, tt)
insert-All P k v ((j, w) ∷ m) h p (q, a) = elim (vacant-cases k v j w m h) [
  | inl (lt, e) ↦ rw e (p, (q, a))
  | inr (gt, e, h') ↦ rw e (q, insert-All P k v m h' p a)
]

-- A run keeps the map sorted, adds up the sizes, and keeps what holds of all entries.
pub insert_all-IsSorted :
    (es : List Entry) (s : ℕ) (m : Nodes) (t : ℕ) (m' : Nodes)
    → insert_all es s m ≡ ok (t, m')
    → IsSorted m
    → IsSorted m' × (total m' ≡ total m + total es) × ((s ≤ u64_max) → t ≤ u64_max)
insert_all-IsSorted [] s m t m' h o =
    let same : m ≡ m' = unfold insert_all in cc in
    let size : s ≡ t = unfold insert_all in cc in
    (subst IsSorted same o, rw (← same) (omega arith), λ fits. omega arith)
insert_all-IsSorted ((k, v) ∷ es) s m t m' h o =
    let f = insert_all_inv k v es s m (t, m') h in
    let (o', sum, bound) =
      insert_all-IsSorted es _ _ t m' f.rest (insert-IsSorted k v m f.vacant o) in
    (o', omega (arith, sum, total-insert k v m f.vacant), λ _. bound f.fits)

pub insert_all-All {ℓ} :
    (P : Entry → Type ℓ) (es : List Entry) (s : ℕ) (m : Nodes) (t : ℕ) (m' : Nodes)
    → insert_all es s m ≡ ok (t, m')
    → All P es
    → All P m
    → All P m'
insert_all-All P [] s m t m' h ae am =
    let same : m ≡ m' = unfold insert_all in cc in subst (All P) same am
insert_all-All P ((k, v) ∷ es) s m t m' h (p, ae) am =
    let f = insert_all_inv k v es s m (t, m') h in
    insert_all-All P es _ _ t m' f.rest ae (insert-All P k v m f.vacant p am)

-- Whatever is inserted with success makes a well-formed directory.
pub insert_all-IsDirectory :
    (es : List Entry) (t : ℕ) (m : Nodes)
    → insert_all es 0 [] ≡ ok (t, m)
    → All (λ e. IsName e.0.inner) es
    → All (λ e. IsNode e.1) es
    → IsDirectory (record { nodes = m })
insert_all-IsDirectory es t m h hn hv =
    let (sorted, sum, bound) = insert_all-IsSorted es 0 [] t m h tt in
    record {
      sorted = sorted;
      names = insert_all-All (λ e. IsName e.0.inner) es 0 [] t m h hn tt;
      valid = insert_all-All (λ e. IsNode e.1) es 0 [] t m h hv tt;
      fits = omega (arith, sum, bound (omega arith), insert_all-total es 0 [] t m h);
    }

-- A directory that is built from valid names and nodes, in any order, is well-formed: sorted by
-- name, with no name twice, and of a size that fits a u64.
pub try_from_iter-IsDirectory :
    (es : List Entry) (d : Directory)
    → try_from_iter es ≡ ok d
    → All (λ e. IsName e.0.inner) es
    → All (λ e. IsNode e.1) es
    → IsDirectory d × (total d.nodes ≡ total es)
unfolding try_from_iter
try_from_iter-IsDirectory es d h hn hv =
    let ((t, m), run, built) = >>=-eq-ok (insert_all es 0 []) _ h in
    let same : record { nodes = m } ≡ d = cc in
    let (sorted, sum, bound) = insert_all-IsSorted es 0 [] t m run tt in
    rw (← same) (insert_all-IsDirectory es t m run hn hv, omega (arith, sum))
