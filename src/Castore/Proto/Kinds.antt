-- ===== src/Castore/Proto/Kinds.antt =====
-- The three lists of a directory message (castore/src/proto/mod.rs), each as the entries of one kind.
use tvix.Prelude.{
  ◌≡◌, refl, sym, ap, ◌∙◌, List, [], ◌∷◌, ◌++◌, append_assoc, append-nil, Option, none, some, Bytes,
  All, BytesLt, gt→bytes_cmp, Option-cases, inl, inr, ok,
}
use tvix.Castore.Component.{IsName}
use tvix.Castore.Nodes.{IsNode}
use tvix.Castore.Nodes.Directory.{Entry, IsSorted}
use tvix.Castore.Proto.{NodeKind, try_into_name_and_node, check_order, check_sorted, push_all}

-- An entry that an accepted message of the kind stands for.
pub record Written {A : Type 0} (pick : Entry → Option A) (a : A) (e : Entry) : Type 0 where
  pub picks : pick e ≡ some a
  pub name : IsName e.0.inner
  pub node : IsNode e.1

-- How the entries of one kind are told and written.
pub record Kind (A : Type 0) : Type 1 where
  pub pick : Entry → Option A
  pub name_of : A → Bytes
  pub wrap : A → NodeKind
  -- The size field, where there is one, is a u64.
  pub Sized : A → Type 0
  pub named : (e : Entry) (a : A) → pick e ≡ some a → name_of a ≡ e.0.inner
  pub read :
      (e : Entry) (a : A)
      → pick e ≡ some a
      → IsName e.0.inner
      → IsNode e.1
      → try_into_name_and_node (record { node = some (wrap a) }) ≡ ok e
  pub written :
      (a : A) (e : Entry)
      → try_into_name_and_node (record { node = some (wrap a) }) ≡ ok e
      → Sized a
      → Written pick a e

module _ {A : Type 0} (k : Kind A) where
  -- The messages of the kind, and the entries that they stand for.
  unfoldable pub picked : List Entry → List A
  picked [] = []
  picked (e ∷ es) = let rest = picked es in elim (k.pick e) [ none ↦ rest | some a ↦ a ∷ rest ]

  unfoldable pub keep : List Entry → List Entry
  keep [] = []
  keep (e ∷ es) = let rest = keep es in elim (k.pick e) [ none ↦ rest | some a ↦ e ∷ rest ]

  pub keep-All {ℓ} : (P : Entry → Type ℓ) (es : List Entry) → All P es → All P (keep es)
  unfolding keep
  keep-All P [] h = tt
  keep-All P (e ∷ es) (p, h) = elim (Option-cases (k.pick e)) [
    | inl no_pick ↦ rw (no_pick, keep) (keep-All P es h)
    | inr (a, some_pick) ↦ rw (some_pick, keep) (p, keep-All P es h)
  ]

  pub push_all-picked :
      (es done : List Entry)
      → All (λ e. IsName e.0.inner) es
      → All (λ e. IsNode e.1) es
      → push_all k.wrap (picked es) done ≡ ok (done ++ keep es)
  unfolding picked keep push_all
  push_all-picked [] done hn hv = ap ok (sym (append-nil done))
  push_all-picked (e ∷ es) done (n, hn) (v, hv) = elim (Option-cases (k.pick e)) [
    | inl no_pick ↦ rw (no_pick, picked, keep) (push_all-picked es done hn hv)
    | inr (a, some_pick) ↦
        rw (some_pick, picked, keep, k.read e a some_pick n v)
          (push_all-picked es (done ++ e ∷ []) hn hv ∙ ap ok (append_assoc done (e ∷ []) (keep es)))
  ]

  check_order-gt : (prev name : Bytes) → BytesLt prev name → check_order prev name ≡ ok name
  unfolding check_order
  check_order-gt prev name h = rw (gt→bytes_cmp name prev h, check_order)

  -- The lists of a sorted directory pass the check of their order.
  pub check_sorted-picked :
      (prev : Bytes) (es : List Entry)
      → All (λ e. BytesLt prev e.0.inner) es
      → IsSorted es
      → (last : Bytes) × (check_sorted k.name_of prev (picked es) ≡ ok last)
  unfolding picked check_sorted
  check_sorted-picked prev [] h s = (prev, refl)
  check_sorted-picked prev (e ∷ es) (b, h) (above, s) = elim (Option-cases (k.pick e)) [
    | inl no_pick ↦ rw (no_pick, picked) (check_sorted-picked prev es h s)
    | inr (a, some_pick) ↦
        rw (some_pick, picked, k.named e a some_pick, check_order-gt prev e.0.inner b)
          (check_sorted-picked e.0.inner es above s)
  ]
