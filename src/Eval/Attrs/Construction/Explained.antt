-- ===== src/Eval/Attrs/Construction/Explained.antt =====
-- What `set_attrs` of eval/src/value/attrs.rs makes of the keys and the values on the stack.
use tvix.Prelude.{
  ℕ, zero, suc, ◌+◌, ◌*◌, ◌≤◌, ◌≡◌, refl, ap, ◌∙◌, Bool, false, List, [], ◌∷◌, Option, none, some,
  Bytes, bytes_eq, bytes_eq→eq, bytes_eq_refl, if◌then◌else◌, length, arith, Bool-cases,
  Option-cases, ◌⊎◌, inl, inr, ok, err, error, panic,
}
use tvix.Eval.Attrs.{
  Value, null, text, catchable, other, duplicate_attrs_key, invalid_attribute_name, set_entry,
  set_attr, set_attrs, Construct,
}
use tvix.Eval.Attrs.Map.{Entries, get, insert, IsSorted, get-insert, insert-IsSorted}
use tvix.Eval.Attrs.Updates.{or_else}

module _ {Catchable Other : Type 0} where
  -- The keys on a stack with their values, the top first.
  unfoldable pub attributes :
      ℕ → List (Value Catchable Other) → List (Value Catchable Other × Value Catchable Other)
  attributes zero stack = []
  attributes (suc count) [] = []
  attributes (suc count) (v ∷ []) = []
  attributes (suc count) (v ∷ key ∷ stack) = (key, v) ∷ attributes count stack

  -- Is a value the text of a key?
  abbrev is_key : Bytes → Value Catchable Other → Bool
  is_key k (text j) = bytes_eq k j
  is_key k null = false
  is_key k (catchable e) = false
  is_key k (other o) = false

  -- How often a key is defined.
  unfoldable pub definitions : Bytes → List (Value Catchable Other × Value Catchable Other) → ℕ
  definitions k [] = 0
  definitions k ((key, v) ∷ attrs) = (if is_key k key then 1 else 0) + definitions k attrs

  -- The value of a key that is defined.
  unfoldable pub defined :
      Bytes → List (Value Catchable Other × Value Catchable Other) → Option (Value Catchable Other)
  defined k [] = none
  defined k ((key, v) ∷ attrs) = let rest = defined k attrs in if is_key k key then some v else rest

  -- There is a key of a certain kind.
  unfoldable pub HasKey :
      Value Catchable Other → List (Value Catchable Other × Value Catchable Other) → Type 0
  HasKey key [] = ⊥
  HasKey key ((k, v) ∷ attrs) = (k ≡ key) ⊎ HasKey key attrs

  abbrev pub held : Option (Value Catchable Other) → ℕ
  held none = 0
  held (some v) = 1

  -- What a result says of the attributes, where some are set already.
  abbrev pub Explains :
      Entries (Value Catchable Other)
      → List (Value Catchable Other × Value Catchable Other)
      → Construct Catchable Other (Entries (Value Catchable Other))
      → Type 0
  Explains m attrs (ok (ok m')) =
      IsSorted m'
      × ((k : Bytes) → get k m' ≡ or_else (get k m) (defined k attrs))
      × ((k : Bytes) → held (get k m) + definitions k attrs ≤ 1)
  Explains m attrs (ok (err e)) = HasKey (catchable e) attrs
  Explains m attrs (err (error (duplicate_attrs_key k))) = 2 ≤ held (get k m) + definitions k attrs
  Explains m attrs (err (error (invalid_attribute_name o))) = HasKey (other o) attrs
  Explains m attrs (err panic) = ⊥

  set_attr_vacant :
      (m : Entries (Value Catchable Other)) (key : Bytes) (v : Value Catchable Other)
      → get key m ≡ none
      → set_attr {Other = Other} m key v ≡ ok (insert key v m)
  unfolding set_attr
  set_attr_vacant m key v e = ap (set_entry m key v) e

  set_attr_occupied :
      (m : Entries (Value Catchable Other)) (key : Bytes) (v w : Value Catchable Other)
      → get key m ≡ some w
      → set_attr {Other = Other} m key v ≡ err (error (duplicate_attrs_key key))
  unfolding set_attr
  set_attr_occupied m key v w e = ap (set_entry m key v) e

  -- A key that is set counts as one that is defined.
  held-insert :
      (k key : Bytes) (v : Value Catchable Other) (m : Entries (Value Catchable Other)) (n : ℕ)
      → get key m ≡ none
      → held (get k (insert key v m)) + n ≡ held (get k m) + ((if bytes_eq k key then 1 else 0) + n)
  held-insert k key v m n e = elim (Bool-cases (bytes_eq k key)) [
    | inl same ↦
        let gone : get k m ≡ none = ap (λ x. get x m) (bytes_eq→eq k key same) ∙ e in
        rw (get-insert k key v m, same, gone) (omega arith)
    | inr differs ↦ rw (get-insert k key v m, differs) (omega arith)
  ]

  get-defined :
      (k key : Bytes) (v : Value Catchable Other) (m : Entries (Value Catchable Other))
      (o : Option (Value Catchable Other))
      → get key m ≡ none
      → or_else (get k (insert key v m)) o
        ≡ or_else (get k m) (if bytes_eq k key then some v else o)
  get-defined k key v m o e = elim (Bool-cases (bytes_eq k key)) [
    | inl same ↦
        let gone : get k m ≡ none = ap (λ x. get x m) (bytes_eq→eq k key same) ∙ e in
        rw (get-insert k key v m, same, gone) refl
    | inr differs ↦ rw (get-insert k key v m, differs) refl
  ]

  Explains-null :
      (m : Entries (Value Catchable Other)) (v : Value Catchable Other)
      (attrs : List (Value Catchable Other × Value Catchable Other))
      (r : Construct Catchable Other (Entries (Value Catchable Other)))
      → Explains m attrs r
      → Explains m ((null, v) ∷ attrs) r
  unfolding definitions defined HasKey
  Explains-null m v attrs (ok (ok m')) h = (h.0, h.1, λ k. omega (arith, h.2 k))
  Explains-null m v attrs (ok (err e)) h = inr h
  Explains-null m v attrs (err (error (duplicate_attrs_key k))) h = omega (arith, h)
  Explains-null m v attrs (err (error (invalid_attribute_name o))) h = inr h
  Explains-null m v attrs (err panic) h = h

  Explains-text :
      (m : Entries (Value Catchable Other)) (key : Bytes) (v : Value Catchable Other)
      (attrs : List (Value Catchable Other × Value Catchable Other))
      (r : Construct Catchable Other (Entries (Value Catchable Other)))
      → get key m ≡ none
      → Explains (insert key v m) attrs r
      → Explains m ((text key, v) ∷ attrs) r
  unfolding definitions defined HasKey
  Explains-text m key v attrs (ok (ok m')) e h = (
    h.0,
    λ k. h.1 k ∙ get-defined k key v m (defined k attrs) e,
    λ k. rw (← held-insert k key v m (definitions k attrs) e) (h.2 k),
  )
  Explains-text m key v attrs (ok (err c)) e h = inr h
  Explains-text m key v attrs (err (error (duplicate_attrs_key k))) e h =
      rw (← held-insert k key v m (definitions k attrs) e) h
  Explains-text m key v attrs (err (error (invalid_attribute_name o))) e h = inr h
  Explains-text m key v attrs (err panic) e h = h

  -- A key that is set is not set again.
  Explains-duplicate :
      (m : Entries (Value Catchable Other)) (key : Bytes) (v w : Value Catchable Other)
      (attrs : List (Value Catchable Other × Value Catchable Other))
      → get key m ≡ some w
      → 2 ≤ held (get key m) + definitions key ((text key, v) ∷ attrs)
  unfolding definitions
  Explains-duplicate m key v w attrs e = rw (e, bytes_eq_refl key) (omega arith)

  or_else-none : (o : Option (Value Catchable Other)) → o ≡ or_else o none
  or_else-none none = refl
  or_else-none (some v) = refl

  held-le-one : (o : Option (Value Catchable Other)) → held o + 0 ≤ 1
  held-le-one none = omega arith
  held-le-one (some v) = omega arith

  pub set_attrs-Explains :
      (count : ℕ) (stack : List (Value Catchable Other)) (m : Entries (Value Catchable Other))
      → length stack ≡ count * 2
      → IsSorted m
      → Explains m (attributes count stack) (set_attrs count stack m)
  unfolding set_attrs attributes definitions defined HasKey
  set_attrs-Explains zero stack m e s = (s, λ k. or_else-none (get k m), λ k. held-le-one (get k m))
  set_attrs-Explains (suc count) [] m e s = absurd (omega (arith, e))
  set_attrs-Explains (suc count) (v ∷ []) m e s = absurd (omega (arith, e))
  set_attrs-Explains (suc count) (v ∷ text key ∷ stack) m e s = elim (Option-cases (get key m)) [
    | inl new ↦ rw (set_attr_vacant m key v new) (
        Explains-text m key v (attributes count stack) (set_attrs count stack (insert key v m)) new
          (set_attrs-Explains count stack (insert key v m) (omega (arith, e))
            (insert-IsSorted key v m s)))
    | inr (w, old) ↦
        rw (set_attr_occupied m key v w old)
          (Explains-duplicate m key v w (attributes count stack) old)
  ]
  set_attrs-Explains (suc count) (v ∷ null ∷ stack) m e s =
      Explains-null m v (attributes count stack) (set_attrs count stack m)
        (set_attrs-Explains count stack m (omega (arith, e)) s)
  set_attrs-Explains (suc count) (v ∷ catchable c ∷ stack) m e s = inl refl
  set_attrs-Explains (suc count) (v ∷ other o ∷ stack) m e s = inl refl
