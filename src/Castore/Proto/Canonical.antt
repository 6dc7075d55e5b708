-- ===== src/Castore/Proto/Canonical.antt =====
-- What reading a directory message accepts (castore/src/proto/mod.rs): only the message that the
-- directory it returns is written as.
use tvix.Prelude.{
  ℕ, ◌≡◌, refl, sym, ap, ◌∙◌, subst, List, [], ◌∷◌, ◌++◌, append_assoc, append-nil, none, some, All,
  All-map, BytesLt, BytesLt-trans, BytesLt-irrefl, ok, inl, inr, Option-cases,
}
use tvix.Castore.Component.{PathComponent}
use tvix.Castore.Nodes.Directory.{Entry, Nodes, lookup, insert, Below, IsSorted, insert_all}
use tvix.Castore.Nodes.Directory.Insertion.{insert_all_inv, insert-above}
use tvix.Castore.Nodes.Directory.Order.{vacant-cases, insert-IsSorted}
use tvix.Castore.Proto.Kinds.{Kind, picked, keep}

abbrev pub Above : PathComponent → Entry → Type 0
Above k e = BytesLt e.0.inner k.inner

module _ {A : Type 0} (kind : Kind A) where
  -- Nothing that lies above a key is below it.
  keep-none :
      (k : PathComponent) (m : Nodes)
      → All (Below k) m
      → All (Above k) (keep kind m)
      → keep kind m ≡ []
  unfolding keep
  keep-none k [] b a = refl
  keep-none k (e ∷ m) (b, bs) a = elim (Option-cases (kind.pick e)) [
    | inl no_pick ↦ rw (no_pick, keep) (keep-none k m bs (rw (no_pick, keep) at a))
    | inr (x, some_pick) ↦
        let above : All (Above k) (e ∷ keep kind m) = rw (some_pick, keep) at a in
        absurd (BytesLt-irrefl k.inner (BytesLt-trans k.inner e.0.inner k.inner b above.0))
  ]

  keep_first :
      (e : Entry) (a : A) (m : Nodes) → kind.pick e ≡ some a → keep kind (e ∷ m) ≡ e ∷ keep kind m
  unfolding keep
  keep_first e a m pick = rw (pick, keep)

  keep_skip : (e : Entry) (m : Nodes) → kind.pick e ≡ none → keep kind (e ∷ m) ≡ keep kind m
  unfolding keep
  keep_skip e m pick = rw (pick, keep)

  keep_cons :
      (e : Entry) (m n : Nodes) → keep kind m ≡ keep kind n → keep kind (e ∷ m) ≡ keep kind (e ∷ n)
  keep_cons e m n h = elim (Option-cases (kind.pick e)) [
    | inl no_pick ↦ keep_skip e m no_pick ∙ h ∙ sym (keep_skip e n no_pick)
    | inr (a, pick) ↦ keep_first e a m pick ∙ ap (λ t. e ∷ t) h ∙ sym (keep_first e a n pick)
  ]

  keep-insert_other :
      (e : Entry) (m : Nodes)
      → kind.pick e ≡ none
      → lookup e.0 m ≡ none
      → keep kind (insert e.0 e.1 m) ≡ keep kind m
  keep-insert_other e [] no_pick h = rw (insert-above e.0 e.1 [] tt) (keep_skip e [] no_pick)
  keep-insert_other e ((j, w) ∷ m) no_pick h = elim (vacant-cases e.0 e.1 j w m h) [
    | inl (lt, same) ↦ rw same (keep_skip e ((j, w) ∷ m) no_pick)
    | inr (gt, same, h') ↦
        rw same (keep_cons (j, w) (insert e.0 e.1 m) m (keep-insert_other e m no_pick h'))
  ]

  -- An entry of the kind that comes after all others of it goes to the end of them.
  keep-insert_last :
      (e : Entry) (a : A) (m : Nodes)
      → kind.pick e ≡ some a
      → lookup e.0 m ≡ none
      → IsSorted m
      → All (Above e.0) (keep kind m)
      → keep kind (insert e.0 e.1 m) ≡ keep kind m ++ e ∷ []
  keep-insert_last e a [] pick h s l =
      rw (insert-above e.0 e.1 [] tt) (unfold keep in rw (pick, keep))
  keep-insert_last e a ((j, w) ∷ m) pick h (b, s) l = elim (vacant-cases e.0 e.1 j w m h) [
    | inl (lt, same) ↦
        let after =
          All-map _ _ (λ x below. BytesLt-trans e.0.inner j.inner x.0.inner lt below) m b in
        let nothing : keep kind ((j, w) ∷ m) ≡ [] = keep-none e.0 ((j, w) ∷ m) (lt, after) l in
        rw (same, nothing) (keep_first e a ((j, w) ∷ m) pick ∙ ap (λ t. e ∷ t) nothing)
    | inr (gt, same, h') ↦ elim (Option-cases (kind.pick (j, w))) [
      | inl no_pick ↦
          let skip = keep_skip (j, w) m no_pick in
          let rest = keep-insert_last e a m pick h' s (subst (All (Above e.0)) skip l) in
          rw (same, skip) (keep_skip (j, w) (insert e.0 e.1 m) no_pick ∙ rest)
      | inr (x, some_pick) ↦
          let first = keep_first (j, w) x m some_pick in
          let above = subst (All (Above e.0)) first l in
          let rest = keep-insert_last e a m pick h' s above.1 in
          rw (same, first)
            (keep_first (j, w) x (insert e.0 e.1 m) some_pick ∙ ap (λ t. (j, w) ∷ t) rest)
    ]
  ]

  pub keep-insert_all_other :
      (es : List Entry) (s : ℕ) (m : Nodes) (t : ℕ) (m' : Nodes)
      → All (λ e. kind.pick e ≡ none) es
      → insert_all es s m ≡ ok (t, m')
      → keep kind m' ≡ keep kind m
  keep-insert_all_other [] s m t m' a h =
      let same : m ≡ m' = unfold insert_all in cc in ap (keep kind) (sym same)
  keep-insert_all_other ((k, v) ∷ es) s m t m' (p, a) h =
      let f = insert_all_inv k v es s m (t, m') h in
      keep-insert_all_other es _ _ t m' a f.rest ∙ keep-insert_other (k, v) m p f.vacant

  -- A run of entries of the kind, each after all before it.
  abbrev pub Ascending : List Entry → List Entry → Type 0
  Ascending done [] = Unit
  Ascending done (e ∷ es) =
      (a : A) × (kind.pick e ≡ some a) × All (Above e.0) done × Ascending (done ++ e ∷ []) es

  pub keep-insert_all_last :
      (es : List Entry) (s : ℕ) (m : Nodes) (t : ℕ) (m' : Nodes)
      → IsSorted m
      → Ascending (keep kind m) es
      → insert_all es s m ≡ ok (t, m')
      → keep kind m' ≡ keep kind m ++ es
  keep-insert_all_last [] s m t m' o a h =
      let same : m ≡ m' = unfold insert_all in cc in rw append-nil (ap (keep kind) (sym same))
  keep-insert_all_last ((k, v) ∷ es) s m t m' o (x, p, l, a) h =
      let f = insert_all_inv k v es s m (t, m') h in
      let here : keep kind (insert k v m) ≡ keep kind m ++ (k, v) ∷ [] =
        keep-insert_last (k, v) x m p f.vacant o l in
      keep-insert_all_last es _ _ t m' (insert-IsSorted k v m f.vacant o) (rw here a) f.rest
      ∙ rw (here, append_assoc)

  -- The messages of the kind depend on the entries of the kind alone.
  pub picked-keep : (es : List Entry) → picked kind (keep kind es) ≡ picked kind es
  unfolding picked keep
  picked-keep [] = refl
  picked-keep (e ∷ es) = elim (Option-cases (kind.pick e)) [
    | inl no_pick ↦ rw (no_pick, picked, keep) (picked-keep es)
    | inr (a, some_pick) ↦
        rw (some_pick, picked, keep) (rw some_pick (ap (λ t. a ∷ t) (picked-keep es)))
  ]
