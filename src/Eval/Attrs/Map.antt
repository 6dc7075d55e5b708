-- ===== src/Eval/Attrs/Map.antt =====
-- The `BTreeMap` of eval/src/value/attrs.rs: the list of its entries in the order of their keys.
use tvix.Prelude.{
  ◌≡◌, refl, sym, subst, ◌∙◌, Bool, true, false, List, [], ◌∷◌, Option, none, some, Bytes, bytes_eq,
  bytes_eq→eq, ne→bytes_eq, if◌then◌else◌, bytes_cmp, BytesLt, bytes_cmp-lt, bytes_cmp-gt,
  bytes_cmp-eq, BytesLt-trans, BytesLt-irrefl, All, All-map, Ordering, ◌⊎◌, inl, inr,
}

abbrev pub Entries : Type 0 → Type 0
Entries V = List (Bytes × V)

if_twice {ℓ} :
    {A : Type ℓ} (b : Bool) (x y z : A)
    → (if b then x else z) ≡ (if b then x else if b then y else z)
if_twice true x y z = refl
if_twice false x y z = refl

if_swap {ℓ} :
    {A : Type ℓ} (b c : Bool) (x y z : A)
    → (b ≡ true → c ≡ true → ⊥)
    → (if b then x else if c then y else z) ≡ (if c then y else if b then x else z)
if_swap true true x y z h = absurd (h refl refl)
if_swap true false x y z h = refl
if_swap false c x y z h = refl

apart : (j k key : Bytes) → BytesLt k key → bytes_eq j k ≡ true → bytes_eq j key ≡ true → ⊥
apart j k key gt e f =
    BytesLt-irrefl key
      (subst (λ x. BytesLt x key) (sym (bytes_eq→eq j k e) ∙ bytes_eq→eq j key f) gt)

module _ {V : Type 0} where
  unfoldable pub get : Bytes → Entries V → Option V
  get key [] = none
  get key ((k, v) ∷ m) = let rest = get key m in if bytes_eq key k then some v else rest

  unfoldable pub insert : Bytes → V → Entries V → Entries V
  insert key v [] = (key, v) ∷ []
  insert key v ((k, w) ∷ m) =
      let rest = insert key v m in
      elim (bytes_cmp key k) [
        | Ordering.lt ↦ (key, v) ∷ (k, w) ∷ m
        | Ordering.eq ↦ (k, v) ∷ m
        | Ordering.gt ↦ (k, w) ∷ rest
      ]

  abbrev pub IsSorted : Entries V → Type 0
  IsSorted [] = Unit
  IsSorted (e ∷ m) = All (λ f. BytesLt e.0 f.0) m × IsSorted m

  -- Where an insertion goes: in front of an entry, in its place, or behind it.
  abbrev Place : Bytes → V → Bytes → V → Entries V → Type 0
  Place key v k w m =
      (BytesLt key k × (insert key v ((k, w) ∷ m) ≡ (key, v) ∷ (k, w) ∷ m))
      ⊎ (((key ≡ k) × (insert key v ((k, w) ∷ m) ≡ (k, v) ∷ m))
          ⊎ (BytesLt k key × (insert key v ((k, w) ∷ m) ≡ (k, w) ∷ insert key v m)))

  place : (key : Bytes) (v : V) (k : Bytes) (w : V) (m : Entries V) → Place key v k w m
  unfolding insert
  place key v k w m = at (bytes_cmp key k) refl
    where
      at : (o : Ordering) → bytes_cmp key k ≡ o → Place key v k w m
      at Ordering.lt e = inl (bytes_cmp-lt key k e, rw (e, insert) refl)
      at Ordering.eq e = inr (inl (bytes_cmp-eq key k e, rw (e, insert) refl))
      at Ordering.gt e = inr (inr (bytes_cmp-gt key k e, rw (e, insert) refl))

  pub get-insert :
      (j key : Bytes) (v : V) (m : Entries V)
      → get j (insert key v m) ≡ (if bytes_eq j key then some v else get j m)
  unfolding get
  get-insert j key v [] = unfold insert in refl
  get-insert j key v ((k, w) ∷ m) = elim (place key v k w m) [
    | inl (lt, e) ↦ rw e refl
    | inr (inl (same, e)) ↦ rw (e, same) (if_twice (bytes_eq j k) (some v) (some w) (get j m))
    | inr (inr (gt, e)) ↦
        rw (e, get-insert j key v m)
          (if_swap (bytes_eq j k) (bytes_eq j key) (some w) (some v) (get j m) (apart j k key gt))
  ]

  insert-All {ℓ} :
      (P : Bytes × V → Type ℓ) (key : Bytes) (v : V) (m : Entries V)
      → P (key, v)
      → ((k : Bytes) (w u : V) → P (k, w) → P (k, u))
      → All P m
      → All P (insert key v m)
  insert-All P key v [] p h a = unfold insert in (p, tt)
  insert-All P key v ((k, w) ∷ m) p h a = elim (place key v k w m) [
    | inl (lt, e) ↦ rw e (p, a)
    | inr (inl (same, e)) ↦ rw e (h k w v a.0, a.1)
    | inr (inr (gt, e)) ↦ rw e (a.0, insert-All P key v m p h a.1)
  ]

  pub insert-IsSorted :
      (key : Bytes) (v : V) (m : Entries V) → IsSorted m → IsSorted (insert key v m)
  insert-IsSorted key v [] s = unfold insert in (tt, tt)
  insert-IsSorted key v ((k, w) ∷ m) s = elim (place key v k w m) [
    | inl (lt, e) ↦ rw e ((lt, All-map _ _ (λ f below. BytesLt-trans key k f.0 lt below) m s.0), s)
    | inr (inl (same, e)) ↦ rw e s
    | inr (inr (gt, e)) ↦
        rw e (
          insert-All (λ f. BytesLt k f.0) key v m gt (λ j x y h. h) s.0,
          insert-IsSorted key v m s.1,
        )
  ]

  -- A key in front of all others is not among them.
  pub get-below : (key : Bytes) (m : Entries V) → All (λ f. BytesLt key f.0) m → get key m ≡ none
  unfolding get
  get-below key [] h = refl
  get-below key ((k, w) ∷ m) h =
      let differs : bytes_eq key k ≡ false =
        ne→bytes_eq key k (λ e. BytesLt-irrefl k (subst (λ x. BytesLt x k) e h.0)) in
      rw (differs, get-below key m h.1) refl
