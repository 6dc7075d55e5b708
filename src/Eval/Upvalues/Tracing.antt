-- ===== src/Eval/Upvalues/Tracing.antt =====
-- Where the upvalues of eval/src/compiler/bindings.rs come from.
use tvix.Prelude.{
  ℕ, suc, ◌+◌, ◌≡◌, refl, ap, sym, subst, ◌∙◌, true, false, List, [], ◌∷◌, ◌++◌, Option, none, some,
  Bytes, ==_iff, if◌then◌else◌, length, length-append, get_elem?, arith, append-nil, append_assoc,
  Bool-cases, Option-cases, inl, inr,
}
use tvix.Eval.Chunk.Elements.{get_end}
use tvix.Eval.Scope.{UpvalueKind, local, upvalue}
use tvix.Eval.Scope.Index.{Indexes, latest, names_of}
use tvix.Eval.Scope.Nesting.Steps.{keys}
use tvix.Eval.Upvalues.{LambdaCtx, kind_eq, existing_upvalue, add_upvalue, add_new}

kind_eq→eq : (a b : UpvalueKind) → kind_eq a b ≡ true → a ≡ b
kind_eq→eq (local a) (local b) e = ap local ((==_iff a b).0 e)
kind_eq→eq (upvalue a) (upvalue b) e = ap upvalue ((==_iff a b).0 e)
kind_eq→eq (local a) (upvalue b) e = cc
kind_eq→eq (upvalue a) (local b) e = cc

-- One step outwards.
abbrev pub outward : Option (ℕ × ℕ) → Option (ℕ × ℕ)
outward none = none
outward (some (up, i)) = some (suc up, i)

existing-get :
    (kind : UpvalueKind) (us : List UpvalueKind) (start idx : ℕ)
    → existing_upvalue kind start us ≡ some idx
    → (k : ℕ) × (idx ≡ start + k) × (get_elem? us k ≡ some kind)
unfolding existing_upvalue
existing-get kind [] start idx e = cc
existing-get kind (u ∷ us) start idx e = elim (Bool-cases (kind_eq u kind)) [
  | inl same ↦
      let first : (if true then some start else existing_upvalue kind (suc start) us) ≡ some idx =
        ap (λ b. if b then some start else existing_upvalue kind (suc start) us) (sym same) ∙ e in
      let at : start ≡ idx = cc in (0, omega (arith, at), ap some (kind_eq→eq u kind same))
  | inr other ↦
      let later : (if false then some start else existing_upvalue kind (suc start) us) ≡ some idx =
        ap (λ b. if b then some start else existing_upvalue kind (suc start) us) (sym other) ∙ e in
      let (k, at, there) = existing-get kind us (suc start) idx later in
      (suc k, omega (arith, at), there)
]

abbrev pub found_here : Option ℕ → Option (ℕ × ℕ) → Option (ℕ × ℕ)
found_here (some i) further = some (0, i)
found_here none further = outward further

abbrev pub source : Option UpvalueKind → (ℕ → Option (ℕ × ℕ)) → Option (ℕ × ℕ)
source none further = none
source (some (local i)) further = some (0, i)
source (some (upvalue j)) further = outward (further j)

module _ {Code Span : Type 0} where
  -- The upvalues of a context are counted, and its index fits its locals.
  pub record IsSound (c : LambdaCtx Code Span) : Type 0 where
    pub counted : c.lambda.upvalue_count ≡ length c.scope.upvalues
    pub indexed : Indexes c.scope.by_name c.scope.locals

  -- The nearest of some contexts that has a local of a name, and the newest such local: how many
  -- contexts further out it is, and the index of the local.
  unfoldable pub enclosing : Bytes → List (LambdaCtx Code Span) → Option (ℕ × ℕ)
  enclosing n [] = none
  enclosing n (c ∷ outer) = found_here (latest n (names_of c.scope.locals)) (enclosing n outer)

  -- The local that an upvalue of the first of some contexts stands for, through the upvalues of those
  -- around it: how many contexts further out than the next it is, and its index.
  unfoldable pub trace : List (LambdaCtx Code Span) → ℕ → Option (ℕ × ℕ)
  trace [] idx = none
  trace (c ∷ outer) idx = source (get_elem? c.scope.upvalues idx) (trace outer)

  -- A context with the same declarations, and with no upvalue moved.
  pub record Extends (c d : LambdaCtx Code Span) : Type 0 where
    pub same_locals : keys d.scope.locals ≡ keys c.scope.locals
    pub more : List UpvalueKind
    pub upvalues : d.scope.upvalues ≡ c.scope.upvalues ++ more

  abbrev pub AllExtend : List (LambdaCtx Code Span) → List (LambdaCtx Code Span) → Type 0
  AllExtend [] [] = Unit
  AllExtend [] (d ∷ ds) = ⊥
  AllExtend (c ∷ cs) [] = ⊥
  AllExtend (c ∷ cs) (d ∷ ds) = Extends c d × AllExtend cs ds

  pub Extends-refl : (c : LambdaCtx Code Span) → Extends c c
  Extends-refl c = record {
    same_locals = refl;
    more = [];
    upvalues = sym (append-nil c.scope.upvalues);
  }

  pub AllExtend-refl : (cs : List (LambdaCtx Code Span)) → AllExtend cs cs
  AllExtend-refl [] = tt
  AllExtend-refl (c ∷ cs) = (Extends-refl c, AllExtend-refl cs)

  pub Extends-trans : (c d e : LambdaCtx Code Span) → Extends c d → Extends d e → Extends c e
  Extends-trans c d e g h = record {
    same_locals = h.same_locals ∙ g.same_locals;
    more = g.more ++ h.more;
    upvalues =
        h.upvalues
        ∙ ap (λ us. us ++ h.more) g.upvalues
        ∙ append_assoc c.scope.upvalues g.more h.more;
  }

  -- The new upvalue of a context.
  pub record Added (kind : UpvalueKind) (c : LambdaCtx Code Span) (d : LambdaCtx Code Span)
      (idx : ℕ) : Type 0 where
    pub is : add_upvalue kind c ≡ (d, idx)
    pub there : get_elem? d.scope.upvalues idx ≡ some kind
    pub extends : Extends c d
    pub sound : IsSound d

  pub add_upvalue-Added :
      (kind : UpvalueKind) (c : LambdaCtx Code Span)
      → IsSound c
      → (d : LambdaCtx Code Span) × (idx : ℕ) × Added kind c d idx
  unfolding add_upvalue
  add_upvalue-Added kind c s = elim (Option-cases (existing_upvalue kind 0 c.scope.upvalues)) [
    | inl new ↦ (
      _,
      _,
      record {
        is = ap (add_new kind c) new;
        there = rw s.counted (get_end c.scope.upvalues kind);
        extends = record { same_locals = refl; more = kind ∷ []; upvalues = refl };
        sound = record {
          counted = omega (arith, s.counted, length-append c.scope.upvalues (kind ∷ []));
          indexed = s.indexed;
        };
      },
    )
    | inr (idx, old) ↦ (
      c,
      idx,
      record {
        is = ap (add_new kind c) old;
        there =
            let (k, at, there) = existing-get kind c.scope.upvalues 0 idx old in
            subst (λ i. get_elem? c.scope.upvalues i ≡ some kind) (sym (at ∙ omega arith)) there;
        extends = Extends-refl c;
        sound = s;
      },
    )
  ]
