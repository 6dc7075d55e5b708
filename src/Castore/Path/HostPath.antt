-- ===== src/Castore/Path/HostPath.antt =====
-- `PathBuf::from_host_path` (castore/src/path/mod.rs) against a relation on lists of names.
use tvix.Prelude.{
  ◌≡◌, refl, sym, ap, ◌∙◌, Bool, true, List, [], ◌∷◌, ◌++◌, Bytes, All, All-append, All-left, subst,
  Result, ok, ◌⊎◌, inl, inr, Bool-cases, ◌↔◌,
}
use tvix.Castore.Component.{slash, IsName, validate_name-cases}
use tvix.Castore.Path.{
  Bstr, PathBuf, IoError, HostComponent, prefix, root_dir, cur_dir, parent_dir, normal, host_step,
  host_loop, from_host_path,
}
use tvix.Castore.Path.Components.{
  Spells, parent-root, parent-Spells, try_push_error, try_push_name, Spells-eq,
}
use tvix.Castore.Path.Join.{join}

-- Walking the components `cs` from the directory that the names `ns` lead to ends at `r`; `c` says
-- whether `..` may be resolved.
pub data Resolves (c : Bool) (r : List Bytes) : List Bytes → List HostComponent → Type 0 where
  done : {ns : List Bytes} → ns ≡ r → Resolves c r ns []
  stay :
      {ns : List Bytes} {cs : List HostComponent}
      → Resolves c r ns cs
      → Resolves c r ns (cur_dir ∷ cs)
  up :
      {ms : List Bytes} {cs : List HostComponent} (ns : List Bytes) (n : Bytes)
      → c ≡ true
      → ms ≡ ns ++ n ∷ []
      → Resolves c r ns cs
      → Resolves c r ms (parent_dir ∷ cs)
  down :
      {ns : List Bytes} {cs : List HostComponent} {n : Bytes}
      → IsName n
      → Resolves c r (ns ++ n ∷ []) cs
      → Resolves c r ns (normal n ∷ cs)

ok-injective : {p q : PathBuf} → ◌≡◌ {A = Result IoError PathBuf} (ok p) (ok q) → p ≡ q
ok-injective e = cc

snoc-cases {ℓ} :
    {A : Type ℓ} (xs : List A) → (xs ≡ []) ⊎ ((ys : List A) × (y : A) × (xs ≡ ys ++ y ∷ []))
snoc-cases [] = inl refl
snoc-cases (x ∷ xs) = elim (snoc-cases xs) [
  | inl e ↦ inr ([], x, ap (λ t. x ∷ t) e)
  | inr (ys, y, e) ↦ inr (x ∷ ys, y, ap (λ t. x ∷ t) e)
]

abbrev at : List Bytes → PathBuf
at ns = record { inner = join slash ns }

module _ (bstr : Bstr) (c : Bool) where
  spelt : (ns : List Bytes) → All IsName ns → Spells (at ns) ns
  spelt ns h = record { names = h; joined = refl }

  loop-Resolves :
      (cs : List HostComponent) (ns : List Bytes) (p : PathBuf)
      → All IsName ns
      → host_loop bstr c (at ns) cs ≡ ok p
      → (r : List Bytes) × Resolves c r ns cs × Spells p r
  unfolding host_loop host_step
  loop-Resolves [] ns p h e =
      (ns, done refl, subst (λ q. Spells q ns) (ok-injective e) (spelt ns h))
  loop-Resolves (prefix x ∷ cs) ns p h e = cc
  loop-Resolves (root_dir ∷ cs) ns p h e = cc
  loop-Resolves (cur_dir ∷ cs) ns p h e =
      let (r, w, s) = loop-Resolves cs ns p h e in (r, stay w, s)
  loop-Resolves (parent_dir ∷ cs) ns p h e = elim (Bool-cases c) [
    | inr closed ↦ cc (rw closed at e)
    | inl opened ↦ elim (snoc-cases ns) [
      | inl top ↦ cc (
          rw
            (opened, parent-root bstr (at ns) (record { names = tt; joined = ap (join slash) top }))
            at e)
      | inr (ms, n, split) ↦
          let names = subst (All IsName) split h in
          let (r, w, s) = loop-Resolves cs ms p (All-left IsName ms (n ∷ []) names) (
            rw
              (
                opened,
                parent-Spells bstr (at ns) ms n
                    (record { names = names; joined = ap (join slash) split }),
              )
              at e) in
          (r, up ms n opened split w, s)
    ]
  ]
  loop-Resolves (normal n ∷ cs) ns p h e = elim (validate_name-cases n) [
    | inr (x, refused, not_name) ↦ cc (rw (try_push_error (at ns) n x refused) at e)
    | inl v ↦
        let (r, w, s) =
          loop-Resolves cs (ns ++ n ∷ []) p (All-append IsName ns (n ∷ []) h (v, tt))
            (rw (try_push_name (at ns) ns n (spelt ns h) v) at e) in
        (r, down v w, s)
  ]

  Resolves-loop :
      {r : List Bytes} {ns : List Bytes} {cs : List HostComponent}
      → Resolves c r ns cs
      → All IsName ns
      → (host_loop bstr c (at ns) cs ≡ ok (at r)) × All IsName r
  unfolding host_loop host_step
  Resolves-loop (done e) h = (ap (λ ms. ok (at ms)) e, subst (All IsName) e h)
  Resolves-loop (stay w) h = Resolves-loop w h
  Resolves-loop (up {ms = ms} {cs = cs} ns n opened e w) h =
      let names = subst (All IsName) e h in
      let (walk, all) = Resolves-loop w (All-left IsName ns (n ∷ []) names) in
      let back =
        parent-Spells bstr (at ms) ns n (record { names = names; joined = ap (join slash) e }) in
      (rw (opened, back) walk, all)
  Resolves-loop (down {ns = ns} {n = n} v w) h =
      let (walk, all) = Resolves-loop w (All-append IsName ns (n ∷ []) h (v, tt)) in
      (rw (try_push_name (at ns) ns n (spelt ns h) v) walk, all)

  -- The conversion of a host path returns a path exactly if the walk over its components, which
  -- refuses an absolute path, skips `.`, takes `..` only where allowed and not above the start, and
  -- goes down by valid names, leads to some names; and then these are what the path spells.
  pub from_host_path_iff :
      (cs : List HostComponent) (p : PathBuf)
      → (from_host_path bstr cs c ≡ ok p) ↔ ((r : List Bytes) × Resolves c r [] cs × Spells p r)
  unfolding from_host_path join
  from_host_path_iff cs p = (
    λ e. loop-Resolves cs [] p tt e,
    λ (r, w, s). (Resolves-loop w tt).0 ∙ ap ok (sym (Spells-eq bstr p r s)),
  )
