-- ===== src/Eval/Scope/Ends.antt =====
-- `end_scope` of eval/src/compiler/scope.rs, where the index fits the locals.
use tvix.Prelude.{
  ℕ, ◌+◌, ◌-◌, ◌≡◌, ◌≢◌, refl, ap, sym, ◌∙◌, List, [], ◌∷◌, ◌++◌, some, ◌==◌, ==_iff, if◌then◌else◌,
  arith, Bool-cases, ◌⊎◌, none, inl, inr, All, All-reverse, subst, reverse, reverse-append,
  reverse-reverse, append_assoc, append-nil,
}
use tvix.Eval.Scope.{Local, Names, unindex, Scope, reported, end_locals, ended, end_scope}
use tvix.Eval.Scope.Index.{Indexes, unindex-Indexes}

module _ {Span : Type 0} where
  abbrev one_if_initialised : Local Span → ℕ
  one_if_initialised l = if l.initialised then 1 else 0

  -- How many of some locals are initialised.
  pub initialised_count : List (Local Span) → ℕ
  initialised_count [] = 0
  initialised_count (l ∷ ls) = one_if_initialised l + initialised_count ls

  -- The spans that some locals report, in their order.
  pub reports : List (Local Span) → List Span
  reports [] = []
  reports (l ∷ ls) = reported l ++ reports ls

  -- The index after the removal of some locals, the newest first.
  unindex_all : List (Local Span) → Names → Names
  unindex_all [] names = names
  unindex_all (l ∷ ls) names = unindex_all ls (unindex l.name names)

  -- The newest local, if there is one, is of another depth.
  abbrev pub Stops : ℕ → List (Local Span) → Type 0
  Stops depth [] = ⊥
  Stops depth (l ∷ older) = l.depth ≢ depth

  end_locals_lem :
      (depth : ℕ) (block older : List (Local Span)) (names : Names) (pops : ℕ) (spans : List Span)
      → All (λ l. l.depth ≡ depth) block
      → Stops depth older
      → end_locals depth (block ++ older) names pops spans
        ≡ some (record {
          newest = older;
          names = unindex_all block names;
          pops = pops + initialised_count block;
          unused_spans = spans ++ reports block;
        })
  unfolding end_locals unindex_all initialised_count reports
  end_locals_lem depth [] [] names pops spans h stops = absurd stops
  end_locals_lem depth [] (l ∷ older) names pops spans h stops =
      elim (Bool-cases (l.depth == depth)) [
        | inl same ↦ absurd (stops ((==_iff l.depth depth).0 same))
        | inr other ↦ rw (other, append-nil spans) (ground arith)
      ]
  end_locals_lem depth (l ∷ block) older names pops spans h stops =
      rw ((==_iff l.depth depth).1 h.0) (
        end_locals_lem depth block older (unindex l.name names) (pops + one_if_initialised l)
          (spans ++ reported l) h.1 stops
        ∙ rw (append_assoc spans (reported l) (reports block)) (ground arith))

  unindex_all-Indexes :
      (names : Names) (front block : List (Local Span))
      → Indexes names (front ++ reverse block)
      → Indexes (unindex_all block names) front
  unfolding unindex_all
  unindex_all-Indexes names front [] h = subst (λ ls. Indexes names ls) (append-nil front) h
  unindex_all-Indexes names front (l ∷ block) h =
      unindex_all-Indexes (unindex l.name names) front block (
        unindex-Indexes names (front ++ reverse block) l (
          subst (λ ls. Indexes names ls)
            (ap (λ t. front ++ t) (reverse-append (l ∷ []) block)
              ∙ sym (append_assoc front (reverse block) (l ∷ [])))
            h))

  count-append :
      (ls ms : List (Local Span))
      → initialised_count (ls ++ ms) ≡ initialised_count ls + initialised_count ms
  unfolding initialised_count
  count-append [] ms = omega arith
  count-append (l ∷ ls) ms = omega (arith, count-append ls ms)

  count-reverse : (ls : List (Local Span)) → initialised_count (reverse ls) ≡ initialised_count ls
  unfolding initialised_count
  count-reverse [] = refl
  count-reverse (l ∷ ls) =
      ap initialised_count (reverse-append (l ∷ []) ls)
      ∙ count-append (reverse ls) (l ∷ [])
      ∙ omega (arith, count-reverse ls)

  -- The whole loop, of locals in the order of their declaration.
  loop_lem :
      (depth : ℕ) (front block locals : List (Local Span)) (names : Names)
      → locals ≡ front ++ block
      → All (λ l. l.depth ≡ depth) block
      → Stops depth (reverse front)
      → end_locals depth (reverse locals) names 0 []
        ≡ some (record {
          newest = reverse front;
          names = unindex_all (reverse block) names;
          pops = initialised_count block;
          unused_spans = reports (reverse block);
        })
  loop_lem depth front block locals names is all stops =
      ap (λ ls. end_locals depth ls names 0 [])
        (ap (λ ls. reverse ls) is ∙ reverse-append front block)
      ∙ end_locals_lem depth (reverse block) (reverse front) names 0 []
          (All-reverse (λ l. l.depth ≡ depth) block all) stops
      ∙ rw (count-reverse block) (ground arith)

  -- The scope without the locals of its depth, with another index.
  abbrev pub without : Scope Span → List (Local Span) → Names → Scope Span
  without s front names = record s {
    locals = front;
    by_name = names;
    scope_depth = s.scope_depth - 1;
  }

  -- A scope that is not the outermost, whose locals are those of other depths in front (the last of them
  -- of another depth, so that there is one) and a block of locals of its depth, with an index that fits,
  -- ends without a panic: the locals in front stay, the depth is one less, the index fits the locals that
  -- stay, the pops are the number of initialised locals of the block, and the spans are those of the
  -- locals of the block for which `is_used` is true, the newest first.
  pub end_block_lem :
      (s : Scope Span) (front block : List (Local Span))
      → s.scope_depth ≢ 0
      → s.locals ≡ front ++ block
      → All (λ l. l.depth ≡ s.scope_depth) block
      → Stops s.scope_depth (reverse front)
      → Indexes s.by_name s.locals
      → (names : Names) × (end_scope s
          ≡ some (without s front names, initialised_count block, reports (reverse block)))
        × Indexes names front
  unfolding end_scope
  end_block_lem s front block deep is all stops h = elim (Bool-cases (s.scope_depth == 0)) [
    | inl top ↦ absurd (deep ((==_iff s.scope_depth 0).0 top))
    | inr below ↦ (
      unindex_all (reverse block) s.by_name,
      rw below (
          ap (ended s) (loop_lem s.scope_depth front block s.locals s.by_name is all stops)
          ∙ rw (reverse-reverse front) refl),
      unindex_all-Indexes s.by_name front (reverse block) (rw (reverse-reverse block, ← is) h),
    )
  ]

  -- The newest locals of a depth, and the rest, whose newest local is of another depth if there is one.
  record Newest (depth : ℕ) (ls : List (Local Span)) : Type 0 where
    block : List (Local Span)
    older : List (Local Span)
    is : ls ≡ block ++ older
    deep : All (λ l. l.depth ≡ depth) block
    rest : (older ≡ []) ⊎ Stops depth older

  newest : (depth : ℕ) (ls : List (Local Span)) → Newest depth ls
  newest depth [] = record { block = []; older = []; is = refl; deep = tt; rest = inl refl }
  newest depth (l ∷ ls) = elim (Bool-cases (l.depth == depth)) [
    | inl same ↦
        let n = newest depth ls in
        record {
          block = l ∷ n.block;
          older = n.older;
          is = ap (λ t. l ∷ t) n.is;
          deep = ((==_iff l.depth depth).0 same, n.deep);
          rest = n.rest;
        }
    | inr other ↦ record {
      block = [];
      older = l ∷ ls;
      is = refl;
      deep = tt;
      rest = inr (λ e. cc (other, (==_iff l.depth depth).1 e));
    }
  ]

  end_locals_panics :
      (depth : ℕ) (ls : List (Local Span)) (names : Names) (pops : ℕ) (spans : List Span)
      → All (λ l. l.depth ≡ depth) ls
      → end_locals depth ls names pops spans ≡ none
  unfolding end_locals
  end_locals_panics depth [] names pops spans h = refl
  end_locals_panics depth (l ∷ ls) names pops spans h = rw ((==_iff l.depth depth).1 h.0) (
      end_locals_panics depth ls (unindex l.name names) (pops + one_if_initialised l)
        (spans ++ reported l) h.1)

  -- What the end of a scope comes to.
  pub data EndOf (s : Scope Span) : Type 0 where
    outermost : s.scope_depth ≡ 0 → end_scope s ≡ none → EndOf s
    runs_out : All (λ l. l.depth ≡ s.scope_depth) s.locals → end_scope s ≡ none → EndOf s
    ends :
        (front block : List (Local Span)) (names : Names)
        → s.locals ≡ front ++ block
        → All (λ l. l.depth ≡ s.scope_depth) block
        → Stops s.scope_depth (reverse front)
        → end_scope s
          ≡ some (without s front names, initialised_count block, reports (reverse block))
        → Indexes names front
        → EndOf s

  -- Where the index fits the locals, the end of a scope panics at the outermost depth and where every
  -- local is of the scope's depth. Otherwise it removes the locals behind the last one of another depth,
  -- and those only: the depth is one less, the index fits the locals that stay, the pops are the number of
  -- initialised locals removed, and the spans are those of the removed locals for which `is_used` is true,
  -- the newest first.
  pub end_scope_lem : (s : Scope Span) → Indexes s.by_name s.locals → EndOf s
  unfolding end_scope
  end_scope_lem s h = elim (Bool-cases (s.scope_depth == 0)) [
    | inl top ↦ outermost ((==_iff s.scope_depth 0).0 top) (rw top refl)
    | inr below ↦
        let n = newest s.scope_depth (reverse s.locals) in
        let is : s.locals ≡ reverse n.older ++ reverse n.block =
          sym (reverse-reverse s.locals)
          ∙ ap (λ ls. reverse ls) n.is
          ∙ reverse-append n.block n.older in
        elim n.rest [
          | inl none_left ↦
              let all : All (λ l. l.depth ≡ s.scope_depth) (reverse s.locals) =
                rw (n.is, none_left, append-nil n.block) n.deep in
              runs_out
                (subst (All (λ l. l.depth ≡ s.scope_depth)) (reverse-reverse s.locals)
                  (All-reverse (λ l. l.depth ≡ s.scope_depth) (reverse s.locals) all))
                (rw (below, end_locals_panics s.scope_depth (reverse s.locals) s.by_name 0 [] all)
                  refl)
          | inr stops ↦
              let (names, done, fits) =
                end_block_lem s (reverse n.older) (reverse n.block)
                  (λ e. cc (below, (==_iff s.scope_depth 0).1 e)) is
                  (All-reverse (λ l. l.depth ≡ s.scope_depth) n.block n.deep)
                  (rw (reverse-reverse n.older) stops) h in
              ends (reverse n.older) (reverse n.block) names is
                (All-reverse (λ l. l.depth ≡ s.scope_depth) n.block n.deep)
                (rw (reverse-reverse n.older) stops) done fits
        ]
  ]
