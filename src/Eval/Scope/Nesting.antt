-- ===== src/Eval/Scope/Nesting.antt =====
-- Runs of the operations of eval/src/compiler/scope.rs, and the scopes that open and close in them.
pub mod Steps
pub mod Closing
use mathlib.Core.List.{map-append}
use tvix.Prelude.{
  ℕ, zero, suc, ◌+◌, ◌-◌, ◌≤◌, ◌<◌, ◌≡◌, ◌≢◌, refl, ap, sym, ◌∙◌, Bool, List, [], ◌∷◌, ◌++◌, map,
  Option, none, some, Bytes, length, arith, All, All-map, All-append, All-reverse, reverse,
  reverse-reverse, append-nil, append_assoc, subst,
}
use tvix.Eval.Scope.{
  LocalName, Local, LocalPosition, Scope, resolve_local, declare_local, declare_phantom,
  mark_initialised, mark_needs_finaliser, mark_must_thunk, push_with, pop_with, begin_scope,
  end_scope,
}
use tvix.Eval.Scope.Index.{Indexes, entry_of, positions, names_of}
use tvix.Eval.Scope.Ends.{Stops, end_block_lem}
use Steps.{
  Key, key, keys, Grows, Grows-refl, Grows-trans, mark-Grows, resolve-Grows, declare_local-Grows,
  declare_phantom-Grows, push_with-Grows, pop_with-Grows,
}
use Closing.{Fits, Restores, Grows-Fits, Fits-begin, Grows-Closes, Restores-Grows, nests-Grows}

module _ {Span : Type 0} where
  -- The operations of the compiler on a scope, those of scopes that open and close included. Only
  -- `declare_constant` is left out: `compile_env` calls it before the first scope opens.
  pub data Run : Scope Span → Scope Span → Type 0 where
    stay : {s t : Scope Span} → s ≡ t → Run s t
    declares :
        (n : Bytes) (span : Span) {s t u : Scope Span} {i : ℕ} {shadows : Option ℕ}
        → Run s t
        → declare_local n span t ≡ some (u, i, shadows)
        → Run s u
    occupies :
        (span : Span) (b : Bool) {s t u : Scope Span}
        → Run s t
        → (declare_phantom span b t).1 ≡ u
        → Run s u
    resolves :
        (n : Bytes) {s t u : Scope Span} {p : LocalPosition}
        → Run s t
        → resolve_local n t ≡ some (u, p)
        → Run s u
    initialises : (i : ℕ) {s t u : Scope Span} → Run s t → mark_initialised i t ≡ some u → Run s u
    finalises : (i : ℕ) {s t u : Scope Span} → Run s t → mark_needs_finaliser i t ≡ some u → Run s u
    thunks : (i : ℕ) {s t u : Scope Span} → Run s t → mark_must_thunk i t ≡ some u → Run s u
    pushes_with : {s t u : Scope Span} → Run s t → push_with t ≡ u → Run s u
    pops_with : {s t u : Scope Span} → Run s t → pop_with t ≡ some u → Run s u
    nests :
        {s t u v : Scope Span} {pops : ℕ} {spans : List Span}
        → Run s t
        → Run (begin_scope t) u
        → end_scope u ≡ some (v, pops, spans)
        → Run s v

  Run-Grows : (s t : Scope Span) → Fits s → Run s t → Grows s t
  unfolding mark_initialised mark_needs_finaliser mark_must_thunk
  Run-Grows s t f (stay e) = subst (λ u. Grows s u) e (Grows-refl s f.indexed)
  Run-Grows s u f (declares n span {t = t} {i = i} {shadows = shadows} r e) =
      let g = Run-Grows s t f r in
      Grows-trans s t u g (declare_local-Grows n span t u i shadows g.indexed e)
  Run-Grows s u f (occupies span b {t = t} r e) =
      let g = Run-Grows s t f r in
      Grows-trans s t u g (subst (λ x. Grows t x) e (declare_phantom-Grows span b t g.indexed))
  Run-Grows s u f (resolves n {t = t} {p = p} r e) =
      let g = Run-Grows s t f r in Grows-trans s t u g (resolve-Grows n t u p g.indexed e)
  Run-Grows s u f (initialises i {t = t} r e) =
      let g = Run-Grows s t f r in Grows-trans s t u g (mark-Grows _ i t u (λ l. refl) g.indexed e)
  Run-Grows s u f (finalises i {t = t} r e) =
      let g = Run-Grows s t f r in Grows-trans s t u g (mark-Grows _ i t u (λ l. refl) g.indexed e)
  Run-Grows s u f (thunks i {t = t} r e) =
      let g = Run-Grows s t f r in Grows-trans s t u g (mark-Grows _ i t u (λ l. refl) g.indexed e)
  Run-Grows s u f (pushes_with {t = t} r e) =
      let g = Run-Grows s t f r in
      Grows-trans s t u g (subst (λ x. Grows t x) e (push_with-Grows t g.indexed))
  Run-Grows s u f (pops_with {t = t} r e) =
      let g = Run-Grows s t f r in Grows-trans s t u g (pop_with-Grows t u g.indexed e)
  Run-Grows s v f (nests {t = t} {u = u} {pops = pops} {spans = spans} r q e) =
      let g = Run-Grows s t f r in
      let at_t = Grows-Fits s t f g in
      Grows-trans s t v g
        (nests-Grows t u v pops spans at_t (Run-Grows (begin_scope t) u (Fits-begin t at_t) q) e)

  -- Let a scope have a local, no local of more than its depth, and an index that fits. After any run of
  -- declarations, lookups, marks, `with` entries and exits, and nested scopes in a scope that is opened
  -- there, the end of the scope does not panic, and gives back the depth, the declarations and the index
  -- entry of every name as they were; the three conditions hold again.
  pub Run-restored :
      (s t : Scope Span)
      → Fits s
      → Run (begin_scope s) t
      → (u : Scope Span) × (pops : ℕ) × (spans : List Span) × (end_scope t ≡ some (u, pops, spans))
        × Restores s u
        × Fits u
  Run-restored s t f r =
      let c = Grows-Closes s t f (Run-Grows (begin_scope s) t (Fits-begin s f) r) in
      (
        c.after,
        c.pops,
        c.spans,
        c.ends,
        c.restores,
        Grows-Fits s c.after f (Restores-Grows s c.after c.restores c.indexed),
      )
