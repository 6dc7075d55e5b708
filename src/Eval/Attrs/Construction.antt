-- ===== src/Eval/Attrs/Construction.antt =====
-- `construct` of eval/src/value/attrs.rs: its optimisations, and what it makes of the keys and values.
pub mod Explained
use tvix.Prelude.{
  ℕ, zero, suc, ◌+◌, ◌*◌, ◌≤◌, ◌≡◌, refl, ap, sym, ◌∙◌, Bool, true, false, ◌&&◌, List, [], ◌∷◌,
  Option, none, some, Bytes, bytes_eq, bytes_eq→eq, bytes_eq_refl, if◌then◌else◌, length,
  length-reverse, reverse, get_elem?, arith, ◌==◌, ==_iff, Bool-cases, Option-cases, ◌⊎◌, inl, inr,
  Result, ok, err, Failure, error, panic, ◌>>=◌,
}
use tvix.Eval.Attrs.{
  Attrs, empty, map, kv, name_key, value_key, select, Value, null, text, catchable, other,
  AttrsError, duplicate_attrs_key, invalid_attribute_name, set_attr, set_attrs, Construct, kv_of,
  kv_or, as_map, attempt_optimise_kv, construct,
}
use tvix.Eval.Attrs.Map.{Entries, get, insert, IsSorted, get-insert, insert-IsSorted}
use tvix.Eval.Attrs.Updates.{entries, select-entries, or_else, Well}
use Explained.{attributes, definitions, defined, HasKey, Explains, set_attrs-Explains}

if_cases {ℓ} :
    {A : Type ℓ} (b c : Bool) (x y a : A)
    → (if b then some x else if c then some y else none) ≡ some a
    → ((b ≡ true) × (x ≡ a)) ⊎ ((c ≡ true) × (y ≡ a))
if_cases true c x y a e = inl (refl, cc)
if_cases false true x y a e = inr (refl, cc)
if_cases false false x y a e = cc

both : (b c : Bool) → (b && c) ≡ true → (b ≡ true) × (c ≡ true)
both true true e = (refl, refl)
both true false e = cc
both false c e = cc

module _ {Catchable Other : Type 0} where
  -- A result with the attributes of its set.
  abbrev as_entries :
      Construct Catchable Other (Attrs (Value Catchable Other))
      → Construct Catchable Other (Entries (Value Catchable Other))
  as_entries (ok (ok a)) = ok (ok (entries a))
  as_entries (ok (err e)) = ok (err e)
  as_entries (err e) = err e

  as_map-entries :
      (r : Construct Catchable Other (Entries (Value Catchable Other))) → as_entries (as_map r) ≡ r
  unfolding entries
  as_map-entries (ok (ok m)) = refl
  as_map-entries (ok (err e)) = refl
  as_map-entries (err e) = refl

  name_first :
      (v1 v3 : Value Catchable Other)
      → set_attrs 2 (v3 ∷ text name_key ∷ v1 ∷ text value_key ∷ []) []
        ≡ ok (ok (entries (kv v3 v1)))
  unfolding set_attrs set_attr get insert entries
  name_first v1 v3 = refl

  value_first :
      (v1 v3 : Value Catchable Other)
      → set_attrs 2 (v3 ∷ text value_key ∷ v1 ∷ text name_key ∷ []) []
        ≡ ok (ok (entries (kv v1 v3)))
  unfolding set_attrs set_attr get insert entries
  value_first v1 v3 = refl

  kv_of-plain :
      (s1 s2 : Bytes) (v1 v3 : Value Catchable Other) (a : Attrs (Value Catchable Other))
      → kv_of s1 s2 v1 v3 ≡ some a
      → set_attrs 2 (v3 ∷ text s1 ∷ v1 ∷ text s2 ∷ []) [] ≡ ok (ok (entries a))
  kv_of-plain s1 s2 v1 v3 a e = elim (if_cases _ _ (kv v3 v1) (kv v1 v3) a e) [
    | inl (keys, is) ↦
        let (k1, k2) = both _ _ keys in
        rw (bytes_eq→eq s1 name_key k1, bytes_eq→eq s2 value_key k2, ← is) (name_first v1 v3)
    | inr (keys, is) ↦
        let (k1, k2) = both _ _ keys in
        rw (bytes_eq→eq s1 value_key k1, bytes_eq→eq s2 name_key k2, ← is) (value_first v1 v3)
  ]

  kv-plain :
      (slice : List (Value Catchable Other)) (a : Attrs (Value Catchable Other))
      → attempt_optimise_kv slice ≡ some a
      → set_attrs 2 (reverse slice) [] ≡ ok (ok (entries a))
  unfolding attempt_optimise_kv
  kv-plain (text s2 ∷ v1 ∷ text s1 ∷ v3 ∷ []) a e = kv_of-plain s1 s2 v1 v3 a e
  kv-plain _ a e = cc

  -- The optimisations do not show.
  construct-set_attrs :
      (count : ℕ) (slice : List (Value Catchable Other))
      → length slice ≡ count * 2
      → as_entries (construct count slice) ≡ set_attrs count (reverse slice) []
  unfolding construct set_attrs entries
  construct-set_attrs count slice e =
      let fits : (length slice == count * 2) ≡ true = (==_iff (length slice) (count * 2)).1 e in
      elim (Bool-cases (count == 0)) [
        | inl none_there ↦
            rw (fits, none_there)
              (sym (ap (λ n. set_attrs n (reverse slice) []) ((==_iff count 0).0 none_there)))
        | inr some_there ↦ elim (Bool-cases (count == 2)) [
          | inl two ↦ elim (Option-cases (attempt_optimise_kv slice)) [
            | inl not_kv ↦
                rw (fits, some_there, two, not_kv)
                  (as_map-entries (set_attrs count (reverse slice) []))
            | inr (a, is_kv) ↦
                rw (fits, some_there, two, is_kv)
                  (sym (
                    ap (λ n. set_attrs n (reverse slice) []) ((==_iff count 2).0 two)
                    ∙ kv-plain slice a is_kv))
          ]
          | inr not_two ↦
              rw (fits, some_there, not_two) (as_map-entries (set_attrs count (reverse slice) []))
        ]
      ]

  -- What a result says of the attributes on the stack, the last first.
  abbrev pub Constructed :
      List (Value Catchable Other × Value Catchable Other)
      → Construct Catchable Other (Attrs (Value Catchable Other))
      → Type 0
  Constructed attrs (ok (ok a)) =
      Well a
      × ((k : Bytes) → select k a ≡ defined k attrs)
      × ((k : Bytes) → definitions k attrs ≤ 1)
  Constructed attrs (ok (err e)) = HasKey (catchable e) attrs
  Constructed attrs (err (error (duplicate_attrs_key k))) = 2 ≤ definitions k attrs
  Constructed attrs (err (error (invalid_attribute_name o))) = HasKey (other o) attrs
  Constructed attrs (err panic) = ⊥

  Explains-Constructed :
      (attrs : List (Value Catchable Other × Value Catchable Other))
      (r : Construct Catchable Other (Attrs (Value Catchable Other)))
      → Explains [] attrs (as_entries r)
      → Constructed attrs r
  unfolding get
  Explains-Constructed attrs (ok (ok a)) h =
      (h.0, λ k. select-entries k a ∙ h.1 k, λ k. omega (arith, h.2 k))
  Explains-Constructed attrs (ok (err e)) h = h
  Explains-Constructed attrs (err (error (duplicate_attrs_key k))) h = omega (arith, h)
  Explains-Constructed attrs (err (error (invalid_attribute_name o))) h = h
  Explains-Constructed attrs (err panic) h = h

  -- For a slice of a key and a value for each attribute, `construct` does not panic. A set that it gives
  -- has its attributes in the order of the keys, no key is defined twice, and each key that is defined has
  -- its value and no other key has one, null keys being left out. A catchable error is one of the keys;
  -- an error about a duplicate names a key that is defined twice, and one about an invalid name a key that
  -- is neither a string nor null nor catchable.
  pub construct-Constructed :
      (count : ℕ) (slice : List (Value Catchable Other))
      → length slice ≡ count * 2
      → Constructed (attributes count (reverse slice)) (construct count slice)
  construct-Constructed count slice e =
      let plain = set_attrs-Explains count (reverse slice) [] (length-reverse slice ∙ e) tt in
      Explains-Constructed (attributes count (reverse slice)) (construct count slice)
        (rw (construct-set_attrs count slice e) plain)
