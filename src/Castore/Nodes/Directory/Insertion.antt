-- ===== src/Castore/Nodes/Directory/Insertion.antt =====
-- `check_insert_node` and its repetition (castore/src/nodes/directory.rs), step by step.
use tvix.Prelude.{
  ℕ, ◌+◌, ◌≤◌, ◌≡◌, refl, sym, ap, ◌∙◌, subst, List, [], ◌∷◌, ◌++◌, none, arith, All, BytesLt,
  lt→bytes_cmp, gt→bytes_cmp, ok, ◌>>=◌, >>=-eq-ok, Result-cases, inl, inr,
}
use mathlib.Core.Path.{subst₂}
use tvix.Castore.Component.{PathComponent}
use tvix.Castore.Nodes.{Node, u64_max}
use tvix.Castore.Nodes.Directory.{
  Entry, Nodes, lookup, insert, node_size, check_insert_node, insert_all, Below, total,
}

pub step_ok :
    (s : ℕ) (m : Nodes) (k : PathComponent) (v : Node)
    → lookup k m ≡ none
    → s + 1 + node_size v ≤ u64_max
    → check_insert_node s m k v ≡ ok (s + 1 + node_size v, insert k v m)
unfolding check_insert_node
step_ok s m k v vacant fits = rw (check_insert_node, vacant) (ground arith)

-- What a successful run of insertions tells of its first one.
pub record First (k : PathComponent) (v : Node) (es : List Entry) (s : ℕ) (m : Nodes)
    (r : ℕ × Nodes) : Type 0 where
  pub vacant : lookup k m ≡ none
  pub fits : s + 1 + node_size v ≤ u64_max
  pub rest : insert_all es (s + 1 + node_size v) (insert k v m) ≡ ok r

step_inv :
    (s : ℕ) (m : Nodes) (k : PathComponent) (v : Node) (t : ℕ) (m' : Nodes)
    → check_insert_node s m k v ≡ ok (t, m')
    → (lookup k m ≡ none)
      × (s + 1 + node_size v ≤ u64_max)
      × (t ≡ s + 1 + node_size v)
      × (m' ≡ insert k v m)
unfolding check_insert_node
step_inv s m k v t m' h = ground arith

pub insert_all_inv :
    (k : PathComponent) (v : Node) (es : List Entry) (s : ℕ) (m : Nodes) (r : ℕ × Nodes)
    → insert_all ((k, v) ∷ es) s m ≡ ok r
    → First k v es s m r
unfolding insert_all
insert_all_inv k v es s m r h =
    let ((t, m'), taken, after) = >>=-eq-ok (check_insert_node s m k v) _ h in
    let (vacant, fits, size, entries) = step_inv s m k v t m' taken in
    record {
      vacant = vacant;
      fits = fits;
      rest = subst₂ (λ n l. insert_all es n l ≡ ok r) size entries after;
    }

pub insert_all_step :
    (k : PathComponent) (v : Node) (es : List Entry) (s : ℕ) (m : Nodes)
    → lookup k m ≡ none
    → s + 1 + node_size v ≤ u64_max
    → insert_all ((k, v) ∷ es) s m ≡ insert_all es (s + 1 + node_size v) (insert k v m)
unfolding insert_all
insert_all_step k v es s m vacant fits = rw (step_ok s m k v vacant fits)

-- The size counts one for each entry and the size fields.
pub insert_all-total :
    (es : List Entry) (s : ℕ) (m : Nodes) (t : ℕ) (m' : Nodes)
    → insert_all es s m ≡ ok (t, m')
    → t ≡ s + total es
unfolding insert_all
insert_all-total [] s m t m' h = ground arith
insert_all-total ((k, v) ∷ es) s m t m' h =
    omega (arith, insert_all-total es _ _ t m' (insert_all_inv k v es s m (t, m') h).rest)

-- A run that succeeds does so from any other size that leaves enough room.
pub insert_all_shift :
    (es : List Entry) (s s' : ℕ) (m : Nodes) (t : ℕ) (m' : Nodes)
    → s' + total es ≤ u64_max
    → insert_all es s m ≡ ok (t, m')
    → insert_all es s' m ≡ ok (s' + total es, m')
insert_all_shift [] s s' m t m' fits h = unfold insert_all in ground arith
insert_all_shift ((k, v) ∷ es) s s' m t m' fits h =
    let f = insert_all_inv k v es s m (t, m') h in
    insert_all_step k v es s' m f.vacant (omega arith)
    ∙ insert_all_shift es _ (s' + 1 + node_size v) _ t m' (omega arith) f.rest
    ∙ ap (λ n. ok (n, m')) (omega arith)

pub insert_all-append :
    (xs ys : List Entry) (s : ℕ) (m : Nodes)
    → insert_all (xs ++ ys) s m ≡ (insert_all xs s m >>= λ r. insert_all ys r.0 r.1)
unfolding insert_all
insert_all-append [] ys s m = refl
insert_all-append ((k, v) ∷ xs) ys s m = elim (Result-cases (check_insert_node s m k v)) [
  | inl ((t, m'), e) ↦ rw e (insert_all-append xs ys t m')
  | inr (x, e) ↦ rw e
]

pub lookup-above : (k : PathComponent) (m : Nodes) → All (Below k) m → lookup k m ≡ none
unfolding lookup
lookup-above k [] h = refl
lookup-above k ((j, w) ∷ m) (b, h) =
    rw (lt→bytes_cmp k.inner j.inner b, lookup) (lookup-above k m h)

pub insert-above :
    (k : PathComponent) (v : Node) (m : Nodes) → All (Below k) m → insert k v m ≡ (k, v) ∷ m
unfolding insert
insert-above k v [] h = refl
insert-above k v ((j, w) ∷ m) (b, h) = rw (lt→bytes_cmp k.inner j.inner b, insert)

pub lookup_skip :
    (j k : PathComponent) (w : Node) (m : Nodes)
    → BytesLt j.inner k.inner
    → lookup k ((j, w) ∷ m) ≡ lookup k m
unfolding lookup
lookup_skip j k w m b = rw (gt→bytes_cmp k.inner j.inner b, lookup)

pub insert_skip :
    (j k : PathComponent) (w v : Node) (m : Nodes)
    → BytesLt j.inner k.inner
    → insert k v ((j, w) ∷ m) ≡ (j, w) ∷ insert k v m
unfolding insert
insert_skip j k w v m b = rw (gt→bytes_cmp k.inner j.inner b, insert)

-- Insertions of larger keys leave the first entry alone.
module _ (x : PathComponent) (w : Node) where
  pub insert-Below :
      (k : PathComponent) (v : Node) (m : Nodes)
      → Below x (k, v)
      → All (Below x) m
      → All (Below x) (insert k v m)
  unfolding insert
  insert-Below k v [] b h = (b, tt)
  insert-Below k v ((j, u) ∷ m) b (bj, h) = ground (arith, insert-Below k v m b h)

  pub insert_all-Below :
      (es : List Entry) (s : ℕ) (m : Nodes) (t : ℕ) (m' : Nodes)
      → All (Below x) es
      → All (Below x) m
      → insert_all es s m ≡ ok (t, m')
      → All (Below x) m'
  insert_all-Below [] s m t m' he hm h =
      let same : m ≡ m' = unfold insert_all in cc in subst (All (Below x)) same hm
  insert_all-Below ((k, v) ∷ es) s m t m' (b, he) hm h =
      insert_all-Below es _ _ t m' he (insert-Below k v m b hm)
        (insert_all_inv k v es s m (t, m') h).rest

  pub insert_all-first :
      (es : List Entry) (s : ℕ) (m : Nodes) (t : ℕ) (m' : Nodes)
      → All (Below x) es
      → insert_all es s m ≡ ok (t, m')
      → insert_all es s ((x, w) ∷ m) ≡ ok (t, (x, w) ∷ m')
  insert_all-first [] s m t m' he h = unfold insert_all in cc
  insert_all-first ((k, v) ∷ es) s m t m' (b, he) h =
      let f = insert_all_inv k v es s m (t, m') h in
      insert_all_step k v es s ((x, w) ∷ m) (lookup_skip x k w m b ∙ f.vacant) f.fits
      ∙ rw (insert_skip x k w v m b) (insert_all-first es _ _ t m' he f.rest)

  -- The least entry may be inserted at any point of a run.
  pub insert_all_middle :
      (xs ys : List Entry) (t : ℕ) (m : Nodes)
      → All (Below x) xs
      → All (Below x) ys
      → t + 1 + node_size w ≤ u64_max
      → insert_all (xs ++ ys) 0 [] ≡ ok (t, m)
      → insert_all (xs ++ (x, w) ∷ ys) 0 [] ≡ ok (t + 1 + node_size w, (x, w) ∷ m)
  insert_all_middle xs ys t m hx hy fits h =
      let ((s, m'), before, after) =
        >>=-eq-ok (insert_all xs 0 []) _ (sym (insert_all-append xs ys 0 []) ∙ h) in
      let above = insert_all-Below xs 0 [] s m' hx tt before in
      let sum = insert_all-total ys s m' t m after in
      rw (insert_all-append xs ((x, w) ∷ ys) 0 [], before)
        (insert_all_step x w ys s m' (lookup-above x m' above) (omega arith)
          ∙ rw (insert-above x w m' above) (
              insert_all-first ys _ m' _ m hy
                (insert_all_shift ys s (s + 1 + node_size w) m' t m (omega arith) after)
              ∙ ap (λ n. ok (n, (x, w) ∷ m)) (omega arith)))
