-- ===== src/Castore/Path/Components.antt =====
-- Paths as sequences of names (castore/src/path/mod.rs): what parsing accepts, what the components
-- are, and how `try_push`, `parent` and `file_name` act on them.
use tvix.Prelude.{
  ℕ, ◌≡◌, ◌≢◌, refl, sym, ap, ◌∙◌, true, false, List, [], ◌∷◌, ◌++◌, Bytes, none, some, All,
  All-map, All-append, All-right, append_assoc, Lacks, ok, err, ◌⊎◌, inl, inr, Bool-cases,
  Option-cases, is_empty, ◌↔◌, subst,
}
use mathlib.Core.List.{get_last?}
use mathlib.Core.Option.{some-injective}
use tvix.Castore.Component.{
  slash, IsName, validate_name, validate_name_iff, validate_name-cases, PathComponentError,
}
use tvix.Castore.Path.{
  Bstr, CastorePath, PathBuf, invalid_data, root, all_valid, try_push, from_bytes, parent,
  components_bytes, file_name_bytes,
}
use tvix.Castore.Path.Join.{join, join-injective, join-snoc, last_separator, not-Lacks}

-- The path spells the names: they are valid, and it is these, joined by slashes.
pub record Spells (p : CastorePath) (ns : List Bytes) : Type 0 where
  pub names : All IsName ns
  pub joined : p.inner ≡ join slash ns

valid→names : (ns : List Bytes) → all_valid ns ≡ true → All IsName ns
unfolding all_valid
valid→names [] h = tt
valid→names (n ∷ ns) h = elim (validate_name-cases n) [
  | inl v ↦ (v, valid→names ns (rw ((validate_name_iff n).1 v, all_valid) at h))
  | inr (e, v, _) ↦ cc (rw (v, all_valid) at h)
]

names→valid : (ns : List Bytes) → All IsName ns → all_valid ns ≡ true
unfolding all_valid
names→valid [] h = refl
names→valid (n ∷ ns) (v, h) = rw ((validate_name_iff n).1 v, all_valid) (names→valid ns h)

pub names-Lacks : (ns : List Bytes) → All IsName ns → All (Lacks slash) ns
names-Lacks = All-map IsName (Lacks slash) (λ n v. v.no_slash)

join-ne-nil : (n : Bytes) (ns : List Bytes) → n ≢ [] → join slash (n ∷ ns) ≢ []
unfolding join
join-ne-nil n [] h = h
join-ne-nil [] (m ∷ ns) h = absurd (h refl)
join-ne-nil (c ∷ n) (m ∷ ns) h = λ e. cc

pub is_empty-false : (s : Bytes) → s ≢ [] → is_empty s ≡ false
is_empty-false [] h = absurd (h refl)
is_empty-false (c ∷ s) h = refl

is_empty-append : (s : Bytes) (c : ℕ) (t : Bytes) → is_empty (s ++ c ∷ t) ≡ false
is_empty-append [] c t = refl
is_empty-append (d ∷ s) c t = refl

get_last?-snoc : (ns : List Bytes) (n : Bytes) → get_last? (ns ++ n ∷ []) ≡ some n
get_last?-snoc [] n = refl
get_last?-snoc (m ∷ []) n = refl
get_last?-snoc (m ∷ k ∷ ns) n = get_last?-snoc (k ∷ ns) n

pub try_push_error :
    (p : PathBuf) (n : Bytes) (e : PathComponentError)
    → validate_name n ≡ err e
    → try_push p n ≡ err (invalid_data none)
unfolding try_push
try_push_error p n e h = rw (try_push, h)

pub try_push_name :
    (p : PathBuf) (ns : List Bytes) (n : Bytes)
    → Spells p ns
    → IsName n
    → try_push p n ≡ ok (record { inner = join slash (ns ++ n ∷ []) })
unfolding try_push join
try_push_name p [] n s v = rw (try_push, (validate_name_iff n).1 v, s.joined)
try_push_name p (m ∷ ns) n s v = rw (
  try_push,
  (validate_name_iff n).1 v,
  s.joined,
  is_empty-false (join slash (m ∷ ns)) (join-ne-nil m ns s.names.0.not_empty),
  join-snoc slash m ns n,
  append_assoc,
)

module _ (bstr : Bstr) where
  split_str-join :
      (n : Bytes) (ns : List Bytes)
      → All IsName (n ∷ ns)
      → bstr.split_str (join slash (n ∷ ns)) slash ≡ n ∷ ns
  split_str-join n ns h =
      join-injective slash _ (n ∷ ns) (bstr.split_str-ne-nil _ slash) (λ e. cc)
        (bstr.split_str-Lacks _ slash) (names-Lacks (n ∷ ns) h) (bstr.join-split_str _ slash)

  split_str-nil : bstr.split_str [] slash ≡ [] ∷ []
  unfolding join
  split_str-nil =
      join-injective slash _ ([] ∷ []) (bstr.split_str-ne-nil _ slash) (λ e. cc)
        (bstr.split_str-Lacks _ slash) (tt, tt) (bstr.join-split_str _ slash)

  -- The components of a path are the names that it spells.
  pub components_bytes-Spells :
      (p : CastorePath) (ns : List Bytes) → Spells p ns → components_bytes bstr p ≡ ns
  unfolding join components_bytes
  components_bytes-Spells p [] s = rw (s.joined, components_bytes, split_str-nil)
  components_bytes-Spells p (n ∷ ns) s =
      rw
        (
          components_bytes,
          s.joined,
          is_empty-false (join slash (n ∷ ns)) (join-ne-nil n ns s.names.0.not_empty),
        )
        (split_str-join n ns s.names)

  from_bytes-Spells :
      (s : Bytes) (p : CastorePath)
      → from_bytes bstr s ≡ some p
      → (p.inner ≡ s) × Spells p (components_bytes bstr p)
  unfolding from_bytes components_bytes join
  from_bytes-Spells [] p h =
      let at : root ≡ p = some-injective _ _ h in
      rw (← at) (refl, rw (components_bytes, split_str-nil) (record { names = tt; joined = refl }))
  from_bytes-Spells (c ∷ s) p h = elim (Bool-cases (all_valid (bstr.split_str (c ∷ s) slash))) [
    | inl e ↦
        let at : record { inner = c ∷ s } ≡ p = some-injective _ _ (rw e at h) in
        rw (← at) (
          refl,
          record { names = valid→names _ e; joined = sym (bstr.join-split_str (c ∷ s) slash) },
        )
    | inr e ↦ cc (rw e at h)
  ]

  Spells-from_bytes :
      (p : CastorePath) (ns : List Bytes) → Spells p ns → from_bytes bstr p.inner ≡ some p
  unfolding from_bytes join
  Spells-from_bytes p [] s = rw (s.joined, from_bytes)
  Spells-from_bytes p (n ∷ ns) s = rw (
    from_bytes,
    s.joined,
    split_str-join n ns s.names,
    names→valid (n ∷ ns) s.names,
    is_empty-false (join slash (n ∷ ns)) (join-ne-nil n ns s.names.0.not_empty),
  )

  -- Parsing accepts exactly the byte strings that spell names: the path has these bytes, and its
  -- components are the names.
  pub from_bytes_iff :
      (s : Bytes) (p : CastorePath)
      → (from_bytes bstr s ≡ some p) ↔ ((p.inner ≡ s) × Spells p (components_bytes bstr p))
  from_bytes_iff s p = (from_bytes-Spells s p, λ h. rw (← h.0) (Spells-from_bytes p _ h.1))

  rsplit_last :
      (a n : Bytes) → Lacks slash n → bstr.rsplit_once_str (a ++ slash ∷ n) slash ≡ some (a, n)
  rsplit_last a n l = elim (Option-cases (bstr.rsplit_once_str (a ++ slash ∷ n) slash)) [
    | inl e ↦ absurd (not-Lacks slash a n (bstr.rsplit_once_str-none _ slash e))
    | inr ((b, m), e) ↦
        let (same, l') = bstr.rsplit_once_str-some _ slash b m e in
        let parts : (a ≡ b) × (n ≡ m) = last_separator slash a b n m l l' same in
        cc (e, parts.0, parts.1)
  ]

  rsplit_whole : (n : Bytes) → Lacks slash n → bstr.rsplit_once_str n slash ≡ none
  rsplit_whole n l = elim (Option-cases (bstr.rsplit_once_str n slash)) [
    | inl e ↦ e
    | inr ((b, m), e) ↦
        let same : n ≡ b ++ slash ∷ m = (bstr.rsplit_once_str-some _ slash b m e).0 in
        absurd (not-Lacks slash b m (subst (Lacks slash) same l))
  ]

  pub Spells-eq :
      (p : CastorePath) (ns : List Bytes) → Spells p ns → p ≡ record { inner = join slash ns }
  Spells-eq p ns s = ap (λ t. record { inner = t }) s.joined

  pub parent-root : (p : CastorePath) → Spells p [] → parent bstr p ≡ none
  unfolding parent join
  parent-root p s = rw (parent, s.joined)

  -- A path that is not the root has a parent, which spells all names but the last.
  pub parent-Spells :
      (p : CastorePath) (ns : List Bytes) (n : Bytes)
      → Spells p (ns ++ n ∷ [])
      → parent bstr p ≡ some (record { inner = join slash ns })
  unfolding parent join
  parent-Spells p [] n s =
      rw (
        parent,
        s.joined,
        is_empty-false n (s.names.0.not_empty),
        rsplit_whole n s.names.0.no_slash,
      )
  parent-Spells p (m ∷ ns) n s =
      let names = All-right IsName (m ∷ ns) (n ∷ []) s.names in
      let whole : p.inner ≡ join slash (m ∷ ns) ++ slash ∷ n = s.joined ∙ join-snoc slash m ns n in
      rw (
        parent,
        whole,
        rsplit_last (join slash (m ∷ ns)) n names.0.no_slash,
        is_empty-append (join slash (m ∷ ns)) slash n,
      )

  -- `try_push` takes exactly the names. The new path spells one name more, its parent is the old
  -- path, and the name is its file name; on any other bytes it fails.
  pub try_push_lem :
      (p : PathBuf) (ns : List Bytes) (n : Bytes)
      → Spells p ns
      → (IsName n
          × (q : PathBuf) × (try_push p n ≡ ok q)
          × Spells q (ns ++ n ∷ [])
          × (parent bstr q ≡ some p)
          × (file_name_bytes bstr q ≡ some n))
        ⊎ ((¬ IsName n) × (try_push p n ≡ err (invalid_data none)))
  unfolding file_name_bytes
  try_push_lem p ns n s = elim (validate_name-cases n) [
    | inr (e, refused, not_name) ↦ inr (not_name, try_push_error p n e refused)
    | inl v ↦
        let q : PathBuf = record { inner = join slash (ns ++ n ∷ []) } in
        let spelt : Spells q (ns ++ n ∷ []) = record {
          names = All-append IsName ns (n ∷ []) s.names (v, tt);
          joined = refl;
        } in
        inl (
          v,
          q,
          try_push_name p ns n s v,
          spelt,
          rw (Spells-eq p ns s) (parent-Spells q ns n spelt),
          rw (file_name_bytes, components_bytes-Spells q (ns ++ n ∷ []) spelt)
              (get_last?-snoc ns n),
        )
  ]
