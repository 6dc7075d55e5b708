-- ===== src/Castore/OrderValidator/Closure.antt =====
-- What the order validators (castore/src/directoryservice/order_validator.rs) accept, as relations on
-- the sequence of directories.
use tvix.Prelude.{
  ◌≡◌, refl, ap, subst, true, false, List, [], ◌∷◌, ◌++◌, ◌⊎◌, inl, inr, ◌↔◌, arith, All,
  Bool-cases, is_empty, bytes_eq, bytes_eq→eq, bytes_eq_refl,
}
use tvix.Castore.Nodes.{B3Digest, directory, file, symlink}
use tvix.Castore.Nodes.Directory.{Directory, Entry}
use tvix.Castore.OrderValidator.{
  contains, insert, new_with_root_digest, digest_allowed, allow_children, references_known,
  add_directory_unchecked, root_to_leaves_add, leaves_to_root_add, add_all_leaves_to_root,
  add_all_root_to_leaves, no_references,
}

abbrev pub In : B3Digest → List B3Digest → Type 0
In c [] = ⊥
In c (x ∷ xs) = (x ≡ c) ⊎ In c xs

-- The digests that the entries of a directory refer to.
unfoldable pub children : List Entry → List B3Digest
children [] = []
children ((name, directory digest size) ∷ es) = digest ∷ children es
children ((name, file digest size executable) ∷ es) = children es
children ((name, symlink target) ∷ es) = children es

digest_eq : (x d : B3Digest) → bytes_eq x.bytes d.bytes ≡ true → x ≡ d
digest_eq x d h = ap (λ b. record { bytes = b }) (bytes_eq→eq x.bytes d.bytes h)

contains→In : (xs : List B3Digest) (d : B3Digest) → contains xs d ≡ true → In d xs
unfolding contains
contains→In [] d h = cc
contains→In (x ∷ xs) d h = elim (Bool-cases (bytes_eq x.bytes d.bytes)) [
  | inl e ↦ inl (digest_eq x d e)
  | inr e ↦ inr (contains→In xs d (rw e at h))
]

In→contains : (xs : List B3Digest) (d : B3Digest) → In d xs → contains xs d ≡ true
unfolding contains
In→contains [] d h = absurd h
In→contains (x ∷ xs) d (inl e) = rw (e, bytes_eq_refl d.bytes)
In→contains (x ∷ xs) d (inr h) = ground (arith, In→contains xs d h)

In-insert : (c d : B3Digest) (xs : List B3Digest) → In c (insert d xs) ↔ ((d ≡ c) ⊎ In c xs)
unfolding insert
In-insert c d xs = elim (Bool-cases (contains xs d)) [
  | inl old ↦
      rw (old, insert)
        (inr, λ h. elim h [ inl e ↦ subst (λ t. In t xs) e (contains→In xs d old) | inr i ↦ i ])
  | inr new ↦ rw (new, insert) (λ h. h, λ h. h)
]

-- Two collections of digests with the same members.
abbrev Same : List B3Digest → List B3Digest → Type 0
Same xs ys = (c : B3Digest) → In c xs ↔ In c ys

Same-insert : (d : B3Digest) (xs ys : List B3Digest) → Same xs ys → Same (insert d xs) (d ∷ ys)
Same-insert d xs ys s c = (
  λ h. elim ((In-insert c d xs).0 h) [ inl e ↦ inl e | inr i ↦ inr ((s c).0 i) ],
  λ h. (In-insert c d xs).1 (elim h [ inl e ↦ inl e | inr i ↦ inr ((s c).1 i) ]),
)

All-Same : (xs ys ds : List B3Digest) → Same xs ys → All (λ c. In c xs) ds → All (λ c. In c ys) ds
All-Same xs ys [] s h = tt
All-Same xs ys (d ∷ ds) s (i, h) = ((s d).0 i, All-Same xs ys ds s h)

known→All :
    (es : List Entry) (xs : List B3Digest)
    → references_known es xs ≡ true
    → All (λ c. In c xs) (children es)
unfolding references_known children
known→All [] xs h = tt
known→All ((n, directory d s) ∷ es) xs h = elim (Bool-cases (contains xs d)) [
  | inl e ↦ (contains→In xs d e, known→All es xs (rw e at h))
  | inr e ↦ cc (rw e at h)
]
known→All ((n, file d s x) ∷ es) xs h = known→All es xs h
known→All ((n, symlink t) ∷ es) xs h = known→All es xs h

All→known :
    (es : List Entry) (xs : List B3Digest)
    → All (λ c. In c xs) (children es)
    → references_known es xs ≡ true
unfolding references_known children
All→known [] xs h = refl
All→known ((n, directory d s) ∷ es) xs (i, h) = rw (In→contains xs d i) (All→known es xs h)
All→known ((n, file d s x) ∷ es) xs h = All→known es xs h
All→known ((n, symlink t) ∷ es) xs h = All→known es xs h

module _ (digest : Directory → B3Digest) where
  -- Every reference of a directory is to one that came before it, or that was seen already.
  abbrev pub LeavesFirst : List B3Digest → List Directory → Type 0
  LeavesFirst seen [] = Unit {0}
  LeavesFirst seen (d ∷ ds) =
      All (λ c. In c seen) (children d.nodes) × LeavesFirst (digest d ∷ seen) ds

  leaves_first :
      (ds : List Directory) (xs seen : List B3Digest)
      → Same xs seen
      → ((add_all_leaves_to_root digest (record { allowed_references = xs }) ds).1 ≡ true)
        ↔ LeavesFirst seen ds
  unfolding add_all_leaves_to_root leaves_to_root_add
  leaves_first [] xs seen s = (λ _. tt, λ _. refl)
  leaves_first (d ∷ ds) xs seen s = elim (Bool-cases (references_known d.nodes xs)) [
    | inl known ↦
        let rest =
          leaves_first ds (insert (digest d) xs) (digest d ∷ seen)
            (Same-insert (digest d) xs seen s) in
        rw (known)
          (λ h. (All-Same xs seen _ s (known→All d.nodes xs known), rest.0 h), λ (a, h). rest.1 h)
    | inr unknown ↦ rw (unknown) (
      λ h. cc,
      λ (a, h). cc (unknown, All→known d.nodes xs (All-Same seen xs _ (λ c. ((s c).1, (s c).0)) a)),
    )
  ]

  -- From an empty start the leaves-to-root validator accepts a sequence of directories exactly if each
  -- of them refers only to directories that came before it.
  pub leaves_to_root_iff :
      (ds : List Directory)
      → ((add_all_leaves_to_root digest no_references ds).1 ≡ true) ↔ LeavesFirst [] ds
  leaves_to_root_iff ds = leaves_first ds [] [] (λ c. (λ h. h, λ h. h))

In-append : (c : B3Digest) (xs ys : List B3Digest) → In c (xs ++ ys) ↔ (In c xs ⊎ In c ys)
In-append c [] ys = (inr, λ h. elim h [ inl n ↦ absurd n | inr i ↦ i ])
In-append c (x ∷ xs) ys =
    let ih = In-append c xs ys in
    (
      λ h. elim h [
        | inl e ↦ inl (inl e)
        | inr i ↦ elim (ih.0 i) [ inl j ↦ inl (inr j) | inr j ↦ inr j ]
      ],
      λ h. elim h [
        | inl (inl e) ↦ inl e
        | inl (inr i) ↦ inr (ih.1 (inl i))
        | inr i ↦ inr (ih.1 (inr i))
      ],
    )

Same-cons : (d : B3Digest) (xs ys : List B3Digest) → Same xs ys → Same (d ∷ xs) (d ∷ ys)
Same-cons d xs ys s c = (
  λ h. elim h [ inl e ↦ inl e | inr i ↦ inr ((s c).0 i) ],
  λ h. elim h [ inl e ↦ inl e | inr i ↦ inr ((s c).1 i) ],
)

In-allow_children :
    (c : B3Digest) (es : List Entry) (xs : List B3Digest)
    → In c (allow_children es xs) ↔ (In c (children es) ⊎ In c xs)
unfolding allow_children children
In-allow_children c [] xs = (inr, λ h. elim h [ inl n ↦ absurd n | inr i ↦ i ])
In-allow_children c ((n, directory d s) ∷ es) xs =
    let ih = In-allow_children c es (insert d xs) in
    let put = In-insert c d xs in
    (
      λ h. elim (ih.0 h) [
        | inl i ↦ inl (inr i)
        | inr i ↦ elim (put.0 i) [ inl e ↦ inl (inl e) | inr j ↦ inr j ]
      ],
      λ h. elim h [
        | inl (inl e) ↦ ih.1 (inr (put.1 (inl e)))
        | inl (inr i) ↦ ih.1 (inl i)
        | inr i ↦ ih.1 (inr (put.1 (inr i)))
      ],
    )
In-allow_children c ((n, file d s x) ∷ es) xs = In-allow_children c es xs
In-allow_children c ((n, symlink t) ∷ es) xs = In-allow_children c es xs

is_empty-of-In : (c : B3Digest) (xs : List B3Digest) → In c xs → is_empty xs ≡ false
is_empty-of-In c [] h = absurd h
is_empty-of-In c (x ∷ xs) h = refl

module _ (digest : Directory → B3Digest) where
  -- Every directory is one that was expected, or that a directory before it refers to.
  abbrev pub RootFirst : List B3Digest → List Directory → Type 0
  RootFirst seen [] = Unit {0}
  RootFirst seen (d ∷ ds) = In (digest d) seen × RootFirst (children d.nodes ++ seen) ds

  root_first :
      (ds : List Directory) (xs seen : List B3Digest)
      → is_empty xs ≡ false
      → Same xs seen
      → ((add_all_root_to_leaves digest (record { expected_digests = xs }) ds).1 ≡ true)
        ↔ RootFirst seen ds
  unfolding add_all_root_to_leaves root_to_leaves_add add_directory_unchecked digest_allowed
  root_first [] xs seen full s = (λ _. tt, λ _. refl)
  root_first (d ∷ ds) xs seen full s = elim (Bool-cases (contains xs (digest d))) [
    | inl known ↦
        let i = contains→In xs (digest d) known in
        let members : Same (allow_children d.nodes xs) (children d.nodes ++ seen) = λ c. (
          λ h.
              (In-append c (children d.nodes) seen).1 (elim ((In-allow_children c d.nodes xs).0 h) [
                | inl j ↦ inl j
                | inr j ↦ inr ((s c).0 j)
              ]),
          λ h.
              (In-allow_children c d.nodes xs).1 (elim ((In-append c (children d.nodes) seen).0 h) [
                | inl j ↦ inl j
                | inr j ↦ inr ((s c).1 j)
              ]),
        ) in
        let still =
          is_empty-of-In (digest d) (allow_children d.nodes xs)
            ((In-allow_children (digest d) d.nodes xs).1 (inr i)) in
        let rest =
          root_first ds (allow_children d.nodes xs) (children d.nodes ++ seen) still members in
        rw (full, known) (λ h. ((s (digest d)).0 i, rest.0 h), λ (a, h). rest.1 h)
    | inr unknown ↦
        rw (full, unknown)
          (λ h. cc, λ (a, h). cc (unknown, In→contains xs (digest d) ((s (digest d)).1 a)))
  ]

  -- Started with the digest of a root, the root-to-leaves validator accepts a sequence of directories
  -- exactly if each of them is the root or is referred to by one that came before it.
  pub root_to_leaves_iff :
      (root : B3Digest) (ds : List Directory)
      → ((add_all_root_to_leaves digest (new_with_root_digest root) ds).1 ≡ true)
        ↔ RootFirst (root ∷ []) ds
  unfolding new_with_root_digest contains
  root_to_leaves_iff root ds = root_first ds (root ∷ []) (root ∷ []) refl (λ c. (λ h. h, λ h. h))
