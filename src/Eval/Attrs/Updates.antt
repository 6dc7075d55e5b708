-- ===== src/Eval/Attrs/Updates.antt =====
-- The operations of eval/src/value/attrs.rs on each representation, against the entries of the set.
use tvix.Prelude.{
  ◌≡◌, refl, ap, sym, ◌∙◌, Bool, true, false, ◌||◌, [], ◌∷◌, Option, none, some, Bytes, bytes_eq,
  bytes_eq→eq, if◌then◌else◌, is_empty, length, arith, Bool-cases, Option-cases, inl, inr,
}
use tvix.Eval.Attrs.{
  Attrs, empty, map, kv, name_key, value_key, select, contains, insert_vacant, vacant, extend,
  update, len, attrs_is_empty, KeyValue, map_iter, iter, next, is_some,
}
use tvix.Eval.Attrs.Map.{Entries, get, insert, IsSorted, get-insert, get-below, insert-IsSorted}

names_differ : bytes_eq name_key value_key ≡ false
names_differ = refl

not_both : (key : Bytes) → bytes_eq key name_key ≡ true → bytes_eq key value_key ≡ true → ⊥
not_both key e f =
    let same : bytes_eq name_key value_key ≡ true =
      ap (λ k. bytes_eq k value_key) (sym (bytes_eq→eq key name_key e)) ∙ f in
    cc names_differ

module _ {V : Type 0} where
  -- The attributes of a set, in the order of their keys.
  unfoldable pub entries : Attrs V → Entries V
  entries empty = []
  entries (map m) = m
  entries (kv name value) = (name_key, name) ∷ (value_key, value) ∷ []

  pub select-entries : (key : Bytes) (a : Attrs V) → select key a ≡ get key (entries a)
  unfolding select entries get
  select-entries key empty = refl
  select-entries key (map m) = refl
  select-entries key (kv name value) = refl

  -- What another value, if there is one, overrides.
  abbrev pub or_else : Option V → Option V → Option V
  or_else none d = d
  or_else (some a) d = some a

  or_else-none : (o : Option V) → o ≡ or_else o none
  or_else-none none = refl
  or_else-none (some a) = refl

  get-insert_vacant :
      (j key : Bytes) (v : V) (m : Entries V)
      → get j (insert_vacant key v m) ≡ or_else (get j m) (if bytes_eq j key then some v else none)
  unfolding insert_vacant
  get-insert_vacant j key v m = elim (Option-cases (get key m)) [
    | inl e ↦ elim (Bool-cases (bytes_eq j key)) [
      | inl same ↦
          let here : get j m ≡ none = ap (λ x. get x m) (bytes_eq→eq j key same) ∙ e in
          rw (e, vacant, get-insert j key v m, same, here) refl
      | inr differs ↦ rw (e, vacant, get-insert j key v m, differs) (or_else-none (get j m))
    ]
    | inr (w, e) ↦ elim (Bool-cases (bytes_eq j key)) [
      | inl same ↦
          let here : get j m ≡ some w = ap (λ x. get x m) (bytes_eq→eq j key same) ∙ e in
          rw (e, vacant, same, here) refl
      | inr differs ↦ rw (e, vacant, differs) (or_else-none (get j m))
    ]
  ]

  insert_vacant-IsSorted :
      (key : Bytes) (v : V) (m : Entries V) → IsSorted m → IsSorted (insert_vacant key v m)
  unfolding insert_vacant
  insert_vacant-IsSorted key v m s = elim (Option-cases (get key m)) [
    | inl e ↦ rw (e, vacant) (insert-IsSorted key v m s)
    | inr (w, e) ↦ rw (e, vacant) s
  ]

  get-extend :
      (j : Bytes) (m es : Entries V)
      → IsSorted es
      → get j (extend m es) ≡ or_else (get j es) (get j m)
  unfolding extend get
  get-extend j m [] s = refl
  get-extend j m ((k, v) ∷ es) s = elim (Bool-cases (bytes_eq j k)) [
    | inl same ↦
        let gone : get j es ≡ none =
          ap (λ x. get x es) (bytes_eq→eq j k same) ∙ get-below k es s.0 in
        rw (get-extend j (insert k v m) es s.1, get-insert j k v m, gone, same) refl
    | inr differs ↦ rw (get-extend j (insert k v m) es s.1, get-insert j k v m, differs) refl
  ]

  extend-IsSorted : (m es : Entries V) → IsSorted m → IsSorted (extend m es)
  unfolding extend
  extend-IsSorted m [] s = s
  extend-IsSorted m ((k, v) ∷ es) s = extend-IsSorted (insert k v m) es (insert-IsSorted k v m s)

  keys-IsSorted : (name value : V) → IsSorted ((name_key, name) ∷ (value_key, value) ∷ [])
  keys-IsSorted name value = ((inl (omega arith), tt), (tt, tt))

  pick_again :
      (b c : Bool) (n v n' v' : V)
      → (if b then some n' else if c then some v' else none)
        ≡ or_else
            (if b then some n' else if c then some v' else none)
            (if b then some n else if c then some v else none)
  pick_again true c n v n' v' = refl
  pick_again false true n v n' v' = refl
  pick_again false false n v n' v' = refl

  pick_over :
      (b c : Bool) (n v : V) (o : Option V)
      → (b ≡ true → c ≡ true → ⊥)
      → (if c then some v else if b then some n else o)
        ≡ or_else (if b then some n else if c then some v else none) o
  pick_over true true n v o h = absurd (h refl refl)
  pick_over true false n v o h = refl
  pick_over false true n v o h = refl
  pick_over false false n v o h = refl

  pick_under :
      (o : Option V) (b c : Bool) (n v : V)
      → or_else (or_else o (if b then some n else none)) (if c then some v else none)
        ≡ or_else o (if b then some n else if c then some v else none)
  pick_under (some w) b c n v = refl
  pick_under none true c n v = refl
  pick_under none false c n v = refl

  -- A set whose attributes are in the order of their keys.
  abbrev pub Well : Attrs V → Type 0
  Well a = IsSorted (entries a)

  -- The merge of two sets has the attributes of both; those of the second have precedence.
  abbrev pub Merges : Attrs V → Attrs V → Attrs V → Type 0
  Merges a b c = ((key : Bytes) → select key c ≡ or_else (select key b) (select key a)) × Well c

  -- For two sets in whatever representations, with their attributes in the order of the keys, `update`
  -- gives a set in that order in which a key has its value of the second set if that has the key, and
  -- otherwise that of the first, if it has one.
  pub update-Merges : (a b : Attrs V) → Well a → Well b → Merges a b (update a b)
  unfolding update select entries
  update-Merges empty empty s t = (λ key. refl, tt)
  update-Merges empty (map m) s t = (λ key. or_else-none (get key m), t)
  update-Merges empty (kv n v) s t = (λ key. or_else-none (select key (kv n v)), t)
  update-Merges (map m) empty s t = (λ key. refl, s)
  update-Merges (kv n v) empty s t = (λ key. refl, s)
  update-Merges (kv n v) (kv n' v') s t =
      (λ key. pick_again (bytes_eq key name_key) (bytes_eq key value_key) n v n' v', t)
  update-Merges (map m) (kv n v) s t = (
    λ key.
        get-insert key value_key v (insert name_key n m)
        ∙ ap (λ o. if bytes_eq key value_key then some v else o) (get-insert key name_key n m)
        ∙ pick_over (bytes_eq key name_key) (bytes_eq key value_key) n v (get key m) (not_both key),
    insert-IsSorted value_key v (insert name_key n m) (insert-IsSorted name_key n m s),
  )
  update-Merges (kv n v) (map m) s t = (
    λ key.
        get-insert_vacant key value_key v (insert_vacant name_key n m)
        ∙ ap (λ o. or_else o (if bytes_eq key value_key then some v else none))
            (get-insert_vacant key name_key n m)
        ∙ pick_under (get key m) (bytes_eq key name_key) (bytes_eq key value_key) n v,
    insert_vacant-IsSorted value_key v (insert_vacant name_key n m)
        (insert_vacant-IsSorted name_key n m t),
  )
  update-Merges (map m) (map m') s t = (λ key. get-extend key m m' t, extend-IsSorted m m' s)

  -- An iterator yields some items, one after the other, and then no more.
  abbrev pub Yields : KeyValue V → Entries V → Type 0
  Yields it [] = (next it).0 ≡ none
  Yields it (e ∷ es) = ((next it).0 ≡ some e) × Yields (next it).1 es

  map_iter-Yields : (m : Entries V) → Yields (map_iter m) m
  unfolding next
  map_iter-Yields [] = refl
  map_iter-Yields (e ∷ m) = (refl, map_iter-Yields m)

  iter-Yields : (a : Attrs V) → Yields (iter a) (entries a)
  unfolding iter next entries
  iter-Yields empty = refl
  iter-Yields (map m) = map_iter-Yields m
  iter-Yields (kv n v) = (refl, (refl, refl))

  some_picked :
      (b c : Bool) (n v : V) → (b || c) ≡ is_some (if b then some n else if c then some v else none)
  some_picked true c n v = refl
  some_picked false true n v = refl
  some_picked false false n v = refl

  -- Every question about a set agrees with the list of its attributes.
  pub record Agrees (a : Attrs V) : Type 0 where
    pub selects : (key : Bytes) → select key a ≡ get key (entries a)
    pub contains_those : (key : Bytes) → contains key a ≡ is_some (get key (entries a))
    pub yields : Yields (iter a) (entries a)
    pub counts : len a ≡ length (entries a)
    pub empty_or_not : attrs_is_empty a ≡ is_empty (entries a)

  contains-get : (key : Bytes) (a : Attrs V) → contains key a ≡ is_some (get key (entries a))
  unfolding contains entries get
  contains-get key empty = refl
  contains-get key (map m) = refl
  contains-get key (kv n v) = some_picked (bytes_eq key name_key) (bytes_eq key value_key) n v

  pub attrs-Agrees : (a : Attrs V) → Agrees a
  unfolding len attrs_is_empty entries
  attrs-Agrees empty = record {
    selects = λ key. select-entries key empty;
    contains_those = λ key. contains-get key empty;
    yields = iter-Yields empty;
    counts = refl;
    empty_or_not = refl;
  }
  attrs-Agrees (map m) = record {
    selects = λ key. select-entries key (map m);
    contains_those = λ key. contains-get key (map m);
    yields = iter-Yields (map m);
    counts = refl;
    empty_or_not = refl;
  }
  attrs-Agrees (kv n v) = record {
    selects = λ key. select-entries key (kv n v);
    contains_those = λ key. contains-get key (kv n v);
    yields = iter-Yields (kv n v);
    counts = refl;
    empty_or_not = refl;
  }
