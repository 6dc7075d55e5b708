-- ===== src/Eval/Upvalues/Captures.antt =====
-- `resolve_upvalue` of eval/src/compiler/bindings.rs against the locals of the contexts around.
use tvix.Prelude.{
  ℕ, zero, suc, ◌≡◌, refl, ap, sym, ◌∙◌, Bool, true, false, not, if◌then◌else◌, List, [], ◌∷◌, ◌++◌,
  Option, none, some, Bytes, length, get_elem?, All, arith, Option-cases, inl, inr, append-nil,
}
use tvix.Eval.Chunk.Elements.{get_front}
use tvix.Eval.Scope.{
  Local, Scope, UpvalueKind, local, upvalue, known, recursive, with_local, resolve_local,
}
use tvix.Eval.Scope.Index.{latest, names_of}
use tvix.Eval.Scope.Resolve.{resolve_missing, resolve_found}
use tvix.Eval.Scope.Nesting.Steps.{key, map-set, with_local-Indexes}
use tvix.Eval.Upvalues.{
  LambdaCtx, Resolution, capture, capture_further, capture_position, resolve_upvalue,
}
use tvix.Eval.Upvalues.Tracing.{
  IsSound, enclosing, found_here, source, trace, outward, Extends, AllExtend, Extends-refl,
  AllExtend-refl, Added, add_upvalue-Added,
}

outward-kept :
    (a b : Option (ℕ × ℕ)) (loc : ℕ × ℕ)
    → ((l : ℕ × ℕ) → a ≡ some l → b ≡ some l)
    → outward a ≡ some loc
    → outward b ≡ some loc
outward-kept none b loc h e = cc
outward-kept (some l) b loc h e = ap outward (h l refl) ∙ e

source-further :
    (kind : Option UpvalueKind) (f g : ℕ → Option (ℕ × ℕ)) (loc : ℕ × ℕ)
    → ((j : ℕ) (l : ℕ × ℕ) → f j ≡ some l → g j ≡ some l)
    → source kind f ≡ some loc
    → source kind g ≡ some loc
source-further none f g loc h e = cc
source-further (some (local i)) f g loc h e = e
source-further (some (upvalue j)) f g loc h e = outward-kept (f j) (g j) loc (h j) e

source-kept :
    (us more : List UpvalueKind) (idx : ℕ) (f g : ℕ → Option (ℕ × ℕ)) (loc : ℕ × ℕ)
    → ((j : ℕ) (l : ℕ × ℕ) → f j ≡ some l → g j ≡ some l)
    → source (get_elem? us idx) f ≡ some loc
    → source (get_elem? (us ++ more) idx) g ≡ some loc
source-kept us more idx f g loc h e = elim (Option-cases (get_elem? us idx)) [
  | inl out ↦ let bad : source none f ≡ some loc = ap (λ k. source k f) (sym out) ∙ e in cc
  | inr (kind, there) ↦
      ap (λ k. source k g) (get_front us more idx kind there)
      ∙ source-further (some kind) f g loc h (ap (λ k. source k f) (sym there) ∙ e)
]

module _ {Code Span : Type 0} where
  -- What holds after `resolve_upvalue`: the contexts declare what they did and are sound, no upvalue
  -- stands for another local than before, and the one that was found for the nearest local of the name.
  abbrev Right : Bytes → List (LambdaCtx Code Span) → List (LambdaCtx Code Span) → Option ℕ → Type 0
  Right n outer after none = enclosing n outer ≡ none
  Right n outer after (some idx) =
      (loc : ℕ × ℕ) × (enclosing n outer ≡ some loc) × (trace after idx ≡ some loc)

  pub record Captured (n : Bytes) (before outer after : List (LambdaCtx Code Span))
      (result : Option ℕ) : Type 0 where
    pub extends : AllExtend before after
    pub sound : All IsSound after
    pub right : Right n outer after result

  -- An upvalue keeps its local when more are added.
  pub trace-kept :
      (before after : List (LambdaCtx Code Span)) (idx : ℕ) (loc : ℕ × ℕ)
      → AllExtend before after
      → trace before idx ≡ some loc
      → trace after idx ≡ some loc
  unfolding trace
  trace-kept [] [] idx loc h e = e
  trace-kept [] (d ∷ ds) idx loc h e = absurd h
  trace-kept (c ∷ cs) [] idx loc h e = absurd h
  trace-kept (c ∷ cs) (d ∷ ds) idx loc h e = rw h.0.upvalues (
      source-kept c.scope.upvalues h.0.more idx (trace cs) (trace ds) loc
        (λ j l e'. trace-kept cs ds j l h.1 e') e)

  used_parent :
      (parent : LambdaCtx Code Span) (i : ℕ) (l : Local Span)
      → IsSound parent
      → get_elem? parent.scope.locals i ≡ some l
      → let after : LambdaCtx Code Span = record parent {
        scope = with_local parent.scope i (record l { used = true });
      } in
        Extends parent after × IsSound after
  used_parent parent i l s here = (
    record {
      same_locals = map-set key parent.scope.locals i l (record l { used = true }) here refl;
      more = [];
      upvalues = sym (append-nil parent.scope.upvalues);
    },
    record {
      counted = s.counted;
      indexed = with_local-Indexes parent.scope i l (record l { used = true }) s.indexed here refl;
    },
  )

  -- Both positions of a local are captured alike.
  position-captured :
      (c parent : LambdaCtx Code Span) (outer : List (LambdaCtx Code Span))
      (further : Scope Span → Resolution Code Span) (s : Scope Span) (initialised : Bool) (i : ℕ)
      → capture_position c parent outer further
          (some (s, if not initialised then recursive i else known i))
        ≡ capture (local i) c (record parent { scope = s } ∷ outer)
  position-captured c parent outer further s true i = refl
  position-captured c parent outer further s false i = refl

  captured :
      (kind : UpvalueKind) (c d : LambdaCtx Code Span) (outer : List (LambdaCtx Code Span))
      (idx : ℕ)
      → Added kind c d idx
      → capture kind c outer ≡ some (d ∷ outer, some idx)
  captured kind c d outer idx a = ap (λ p. some (p.0 ∷ outer, some p.1)) a.is

  -- The name is a local of the context around.
  found-Captured :
      (n : Bytes) (c parent : LambdaCtx Code Span) (outer : List (LambdaCtx Code Span)) (i : ℕ)
      (further : Scope Span → Resolution Code Span)
      → All IsSound (c ∷ parent ∷ outer)
      → latest n (names_of parent.scope.locals) ≡ some i
      → (after : List (LambdaCtx Code Span)) × (result : Option ℕ) × (capture_position c parent
            outer further
            (resolve_local n parent.scope)
          ≡ some (after, result))
        × Captured n (c ∷ parent ∷ outer) (parent ∷ outer) after result
  unfolding enclosing trace
  found-Captured n c parent outer i further s is =
      let (l, here, looked_up) = resolve_found n parent.scope i s.1.0.indexed is in
      let scope = with_local parent.scope i (record l { used = true }) in
      let (extends, sound) = used_parent parent i l s.1.0 here in
      let (d, idx, a) = add_upvalue-Added (local i) c s.0 in
      let around : List (LambdaCtx Code Span) = record parent { scope = scope } ∷ outer in
      (
        d ∷ around,
        some idx,
        ap (capture_position c parent outer further) looked_up
            ∙ position-captured c parent outer further scope l.initialised i
            ∙ captured (local i) c d around idx a,
        record {
          extends = (a.extends, (extends, AllExtend-refl outer));
          sound = (a.sound, (sound, s.1.1));
          right = (
            (0, i),
            ap (λ o. found_here o (enclosing n outer)) is,
            ap (λ k. source k (trace around)) a.there,
          );
        },
      )

  -- The name is searched for further out, and what is found there is captured once more.
  further-Captured :
      (n : Bytes) (c parent : LambdaCtx Code Span) (outer after : List (LambdaCtx Code Span))
      (result : Option ℕ)
      → IsSound c
      → latest n (names_of parent.scope.locals) ≡ none
      → Captured n (parent ∷ outer) outer after result
      → (after' : List (LambdaCtx Code Span)) × (result' : Option ℕ) × (capture_further c
            (some (after, result))
          ≡ some (after', result'))
        × Captured n (c ∷ parent ∷ outer) (parent ∷ outer) after' result'
  unfolding enclosing trace
  further-Captured n c parent outer after none s missing h = (
    c ∷ after,
    none,
    refl,
    record {
      extends = (Extends-refl c, h.extends);
      sound = (s, h.sound);
      right = ap (λ o. found_here o (enclosing n outer)) missing ∙ ap outward h.right;
    },
  )
  further-Captured n c parent outer after (some idx) s missing h =
      let (d, idx', a) = add_upvalue-Added (upvalue idx) c s in
      let (loc, nearest, traced) = h.right in
      (
        d ∷ after,
        some idx',
        captured (upvalue idx) c d after idx' a,
        record {
          extends = (a.extends, h.extends);
          sound = (a.sound, h.sound);
          right = (
            (suc loc.0, loc.1),
            ap (λ o. found_here o (enclosing n outer)) missing ∙ ap outward nearest,
            ap (λ k. source k (trace after)) a.there ∙ ap outward traced,
          );
        },
      )

  -- For contexts whose index fits and whose upvalues are counted, `resolve_upvalue` in the innermost does
  -- not panic, and the contexts after it are as well kept, with the same declarations, the upvalues that
  -- they had in their places and perhaps more. If no context around has a local of the name, there is no
  -- result. Otherwise the result is the index of an upvalue that leads, through the upvalues of the
  -- contexts between, to the newest local of the name in the nearest context around that has one.
  pub resolve_upvalue_lem :
      (n : Bytes) (ctx_idx : ℕ) (c : LambdaCtx Code Span) (outer : List (LambdaCtx Code Span))
      → ctx_idx ≡ length outer
      → All IsSound (c ∷ outer)
      → (after : List (LambdaCtx Code Span)) × (result : Option ℕ) × (resolve_upvalue n ctx_idx
            (c ∷ outer)
          ≡ some (after, result))
        × Captured n (c ∷ outer) outer after result
  unfolding resolve_upvalue enclosing
  resolve_upvalue_lem n zero c [] at s =
      (c ∷ [], none, refl, record { extends = AllExtend-refl (c ∷ []); sound = s; right = refl })
  resolve_upvalue_lem n zero c (parent ∷ outer) at s = absurd (omega (arith, at))
  resolve_upvalue_lem n (suc k) c [] at s = absurd (omega (arith, at))
  resolve_upvalue_lem n (suc k) c (parent ∷ outer) at s =
      let further : Scope Span → Resolution Code Span =
        λ t. resolve_upvalue n k (record parent { scope = t } ∷ outer) in
      let (after, result, is, h) = resolve_upvalue_lem n k parent outer (omega (arith, at)) s.1 in
      elim (Option-cases (latest n (names_of parent.scope.locals))) [
        | inl missing ↦
            let (after', result', is', h') =
              further-Captured n c parent outer after result s.0 missing h in
            (
              after',
              result',
              ap (capture_position c parent outer further)
                    (resolve_missing n parent.scope s.1.0.indexed missing)
                  ∙ ap (capture_further c) is
                  ∙ is',
              h',
            )
        | inr (i, local_there) ↦ found-Captured n c parent outer i further s local_there
      ]
