-- ===== src/Castore/Proto/Accepts.antt =====
-- The lists of an accepted directory message (castore/src/proto/mod.rs) as lists of entries.
use tvix.Prelude.{
  ◌≡◌, refl, sym, ap, ◌∙◌, subst, List, [], ◌∷◌, ◌++◌, append_assoc, append-nil, some, Bytes,
  Ordering, All, All-append, bytes_cmp, BytesLt, BytesLt-trans, bytes_cmp-gt, Result, ok, err,
  ◌>>=◌, >>=-eq-ok, map_err, ok-injective,
}
use tvix.Castore.Component
use tvix.Castore.Component.{IsName}
use tvix.Castore.Nodes.{invalid_name, duplicate_name}
use tvix.Castore.Nodes.Directory.{Entry}
use tvix.Castore.Proto.{check_order, check_sorted, push_all, try_into_name_and_node}
use tvix.Castore.Proto.Kinds.{Kind, picked, Written}
use tvix.Castore.Proto.Canonical.{Ascending}

no_result :
    {A : Type 0} (r : Result Component.PathComponentError Component.PathComponent) {a : A}
    → (map_err invalid_name r >>= λ c. err (duplicate_name c)) ≡ ok a
    → ⊥
no_result (ok c) h = cc
no_result (err e) h = cc

check_order-ok :
    (prev name next : Bytes) → check_order prev name ≡ ok next → BytesLt prev name × (name ≡ next)
unfolding check_order
check_order-ok prev name next h = split (bytes_cmp name prev) refl
  where
    split : (o : Ordering) → bytes_cmp name prev ≡ o → BytesLt prev name × (name ≡ next)
    split Ordering.lt e = cc (rw (e, check_order) at h)
    split Ordering.eq e = absurd (no_result (Component.try_from name) (rw (e, check_order) at h))
    split Ordering.gt e = (bytes_cmp-gt name prev e, ok-injective _ _ (rw (e, check_order) at h))

module _ {A : Type 0} (kind : Kind A) where
  -- The entries that the messages stand for, one for one.
  abbrev pub Reads : List A → List Entry → Type 0
  Reads [] [] = Unit {0}
  Reads [] (e ∷ es) = ⊥
  Reads (a ∷ as') [] = ⊥
  Reads (a ∷ as') (e ∷ es) = Written kind.pick a e × Reads as' es

  pub push_all-Reads :
      (as' : List A) (done r : List Entry)
      → All kind.Sized as'
      → push_all kind.wrap as' done ≡ ok r
      → (es : List Entry) × (r ≡ done ++ es) × Reads as' es
  unfolding push_all
  push_all-Reads [] done r z h = ([], sym (ok-injective _ _ h) ∙ sym (append-nil done), tt)
  push_all-Reads (a ∷ as') done r (z, zs) h =
      let (e, read, after) =
        >>=-eq-ok (try_into_name_and_node (record { node = some (kind.wrap a) })) _ h in
      let (es, rest, reads) = push_all-Reads as' (done ++ e ∷ []) r zs after in
      (e ∷ es, rest ∙ append_assoc done (e ∷ []) es, (kind.written a e read z, reads))

  pub Reads-picked : (as' : List A) (es : List Entry) → Reads as' es → picked kind es ≡ as'
  unfolding picked
  Reads-picked [] [] r = refl
  Reads-picked [] (e ∷ es) r = absurd r
  Reads-picked (a ∷ as') [] r = absurd r
  Reads-picked (a ∷ as') (e ∷ es) (w, r) =
      rw (w.picks, picked) (ap (λ t. a ∷ t) (Reads-picked as' es r))

  pub Reads-All {ℓ} :
      (P : Entry → Type ℓ)
      → ((a : A) (e : Entry) → Written kind.pick a e → P e)
      → (as' : List A) (es : List Entry) → Reads as' es
      → All P es
  Reads-All P f [] [] r = tt
  Reads-All P f [] (e ∷ es) r = absurd r
  Reads-All P f (a ∷ as') [] r = absurd r
  Reads-All P f (a ∷ as') (e ∷ es) (w, r) = (f a e w, Reads-All P f as' es r)

  -- Names that pass the check ascend.
  pub check_sorted-Ascending :
      (prev last : Bytes) (as' : List A) (done es : List Entry)
      → check_sorted kind.name_of prev as' ≡ ok last
      → Reads as' es
      → ((b : Bytes) → BytesLt prev b → All (λ e. BytesLt e.0.inner b) done)
      → Ascending kind done es
  unfolding check_sorted
  check_sorted-Ascending prev last [] done [] h r below = tt
  check_sorted-Ascending prev last [] done (e ∷ es) h r below = absurd r
  check_sorted-Ascending prev last (a ∷ as') done [] h r below = absurd r
  check_sorted-Ascending prev last (a ∷ as') done (e ∷ es) h (w, r) below =
      let (name, ordered, after) = >>=-eq-ok (check_order prev (kind.name_of a)) _ h in
      let (lt, same) = check_order-ok prev (kind.name_of a) name ordered in
      let key : kind.name_of a ≡ e.0.inner = kind.named e a w.picks in
      let lt' = subst (BytesLt prev) key lt in
      let rest =
        check_sorted-Ascending e.0.inner last as' (done ++ e ∷ []) es
          (subst (λ n. check_sorted kind.name_of n as' ≡ ok last) (sym same ∙ key) after) r
          (λ b lt''.
            All-append _ done (e ∷ []) (below b (BytesLt-trans prev e.0.inner b lt' lt''))
              (lt'', tt)) in
      (a, w.picks, below e.0.inner lt', rest)
