-- ===== src/Eval/Scope/Nesting/Steps.antt =====
-- What one operation of eval/src/compiler/scope.rs does to the declarations that a scope holds.
use mathlib.Core.List.{map-append}
use tvix.Prelude.{
  ℕ, zero, suc, ◌+◌, ◌-◌, ◌==◌, Bool-cases, ◌≡◌, refl, ap, sym, ◌∙◌, Bool, true, List, [], ◌∷◌,
  ◌++◌, map, Option, none, some, Bytes, get_elem?, set, All, All-append, append-nil, append_assoc,
  subst, inl, inr, Option-cases,
}
use tvix.Eval.Scope.{
  LocalName, phantom, Local, LocalPosition, Scope, new_local, with_local, mark, marked,
  resolve_local, declare_local, declared, declare_phantom, push_with, pop_with,
}
use tvix.Eval.Scope.Index.{Indexes, entry_of, positions, declared-Indexes, phantom-Indexes}
use tvix.Eval.Scope.Resolve.{resolve_local-Resolves, declare_local_lem}

abbrev pub Key : Type 0 → Type 0
Key Span = LocalName × Option Span × ℕ

module _ {Span : Type 0} where
  -- What is declared of a local, and does not change afterwards.
  abbrev pub key : Local Span → Key Span
  key l = (l.name, l.span, l.depth)

  abbrev pub keys : List (Local Span) → List (Key Span)
  keys = map key

  abbrev with_stack : Scope Span → ℕ → Scope Span
  with_stack s n = record s { with_stack_size = n }

  -- A scope has the declarations of another, and more of the same depth.
  pub record Grows (s t : Scope Span) : Type 0 where
    pub more : List (Key Span)
    pub same_depth : t.scope_depth ≡ s.scope_depth
    pub extends : keys t.locals ≡ keys s.locals ++ more
    pub deep : All (λ k. k.2 ≡ s.scope_depth) more
    pub indexed : Indexes t.by_name t.locals

  pub Grows-refl : (s : Scope Span) → Indexes s.by_name s.locals → Grows s s
  Grows-refl s h = record {
    more = [];
    same_depth = refl;
    extends = sym (append-nil (keys s.locals));
    deep = tt;
    indexed = h;
  }

  pub Grows-trans : (s t u : Scope Span) → Grows s t → Grows t u → Grows s u
  Grows-trans s t u g h = record {
    more = g.more ++ h.more;
    same_depth = h.same_depth ∙ g.same_depth;
    extends =
        h.extends ∙ ap (λ x. x ++ h.more) g.extends ∙ append_assoc (keys s.locals) g.more h.more;
    deep = All-append (λ k. k.2 ≡ s.scope_depth) g.more h.more g.deep (rw (← g.same_depth) h.deep);
    indexed = h.indexed;
  }

  pub map-set :
      {B : Type 0} (f : Local Span → B) (ls : List (Local Span)) (i : ℕ) (l l' : Local Span)
      → get_elem? ls i ≡ some l
      → f l' ≡ f l
      → map f (set ls i l') ≡ map f ls
  map-set f [] i l l' e same = refl
  map-set f (m ∷ ls) zero l l' e same = let is : m ≡ l = cc in rw (same, is) refl
  map-set f (m ∷ ls) (suc i) l l' e same = ap (λ t. f m ∷ t) (map-set f ls i l l' e same)

  pub with_local-Indexes :
      (s : Scope Span) (i : ℕ) (l l' : Local Span)
      → Indexes s.by_name s.locals
      → get_elem? s.locals i ≡ some l
      → key l' ≡ key l
      → Indexes s.by_name (set s.locals i l')
  with_local-Indexes s i l l' h e same n =
      h n
      ∙ ap (λ t. entry_of (positions n 0 t))
          (sym (map-set (λ m. m.name) s.locals i l l' e (ap (λ k. k.0) same)))

  -- A write of the flags of a local.
  pub with_local-Grows :
      (s : Scope Span) (i : ℕ) (l l' : Local Span)
      → Indexes s.by_name s.locals
      → get_elem? s.locals i ≡ some l
      → key l' ≡ key l
      → Grows s (with_local s i l')
  with_local-Grows s i l l' h e same = record {
    more = [];
    same_depth = refl;
    extends = map-set key s.locals i l l' e same ∙ sym (append-nil (keys s.locals));
    deep = tt;
    indexed = with_local-Indexes s i l l' h e same;
  }

  pub mark-Grows :
      (change : Local Span → Local Span) (i : ℕ) (s t : Scope Span)
      → ((l : Local Span) → key (change l) ≡ key l)
      → Indexes s.by_name s.locals
      → mark change i s ≡ some t
      → Grows s t
  mark-Grows change i s t keeps h e = elim (Option-cases (get_elem? s.locals i)) [
    | inl missing ↦
        let panics : marked change i s none ≡ some t = ap (marked change i s) (sym missing) ∙ e in
        cc
    | inr (l, here) ↦
        let wrote : marked change i s (some l) ≡ some t = ap (marked change i s) (sym here) ∙ e in
        let is : with_local s i (change l) ≡ t = cc in
        subst (λ u. Grows s u) is (with_local-Grows s i l (change l) h here (keeps l))
  ]

  pub resolve-Grows :
      (n : Bytes) (s t : Scope Span) (p : LocalPosition)
      → Indexes s.by_name s.locals
      → resolve_local n s ≡ some (t, p)
      → Grows s t
  resolve-Grows n s t p h e = elim (resolve_local-Resolves n s h) [
    | inl (_, is) ↦ let same : s ≡ t = cc in subst (λ u. Grows s u) same (Grows-refl s h)
    | inr (i, l, newest, is) ↦
        let same : with_local s i (record l { used = true }) ≡ t = cc in
        subst (λ u. Grows s u) same
          (with_local-Grows s i l (record l { used = true }) h newest.here refl)
  ]

  declared-Grows :
      (n : Bytes) (span : Span) (s : Scope Span)
      → Indexes s.by_name s.locals
      → Grows s (declared n span s)
  declared-Grows n span s h = record {
    more = key (new_local n span s.scope_depth) ∷ [];
    same_depth = refl;
    extends = map-append key s.locals (new_local n span s.scope_depth ∷ []);
    deep = (refl, tt);
    indexed = declared-Indexes s.by_name s.locals (new_local n span s.scope_depth) n refl h;
  }

  pub declare_local-Grows :
      (n : Bytes) (span : Span) (s t : Scope Span) (i : ℕ) (shadows : Option ℕ)
      → Indexes s.by_name s.locals
      → declare_local n span s ≡ some (t, i, shadows)
      → Grows s t
  declare_local-Grows n span s t i shadows h e =
      let was = declare_local_lem n span s h in
      let same : declared n span s ≡ t = cc in
      subst (λ u. Grows s u) same (declared-Grows n span s h)

  pub declare_phantom-Grows :
      (span : Span) (b : Bool) (s : Scope Span)
      → Indexes s.by_name s.locals
      → Grows s (declare_phantom span b s).1
  unfolding declare_phantom
  declare_phantom-Grows span b s h = record {
    more = (phantom, some span, s.scope_depth) ∷ [];
    same_depth = refl;
    extends = map-append key s.locals _;
    deep = (refl, tt);
    indexed = phantom-Indexes s.by_name s.locals _ refl h;
  }

  -- A scope that differs in its `with` stack only.
  with_stack-Grows :
      (s : Scope Span) (n : ℕ) → Indexes s.by_name s.locals → Grows s (with_stack s n)
  with_stack-Grows s n h = record {
    more = [];
    same_depth = refl;
    extends = sym (append-nil (keys s.locals));
    deep = tt;
    indexed = h;
  }

  pub push_with-Grows : (s : Scope Span) → Indexes s.by_name s.locals → Grows s (push_with s)
  unfolding push_with
  push_with-Grows s h = with_stack-Grows s (s.with_stack_size + 1) h

  pub pop_with-Grows :
      (s t : Scope Span) → Indexes s.by_name s.locals → pop_with s ≡ some t → Grows s t
  unfolding pop_with
  pop_with-Grows s t h e = elim (Bool-cases (s.with_stack_size == 0)) [
    | inl empty ↦ let panics : none ≡ some t = sym (rw (pop_with, empty) refl) ∙ e in cc
    | inr some_left ↦
        let popped = with_stack s (s.with_stack_size - 1) in
        let is : some popped ≡ some t = sym (rw (pop_with, some_left) refl) ∙ e in
        let same : popped ≡ t = cc in
        subst (λ u. Grows s u) same (with_stack-Grows s (s.with_stack_size - 1) h)
  ]
