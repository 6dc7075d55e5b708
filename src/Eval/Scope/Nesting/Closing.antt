-- ===== src/Eval/Scope/Nesting/Closing.antt =====
-- The end of a scope of eval/src/compiler/scope.rs that grew since it was opened.
use tvix.Prelude.{
  ℕ, ◌+◌, ◌≤◌, ◌<◌, ◌≡◌, ◌≢◌, refl, ap, sym, ◌∙◌, List, [], ◌∷◌, ◌++◌, map, some, Bytes, arith, All,
  All-map, All-append, All-reverse, reverse, reverse-reverse, append-nil, subst,
}
use tvix.Eval.Scope.{Local, Scope, begin_scope, end_scope}
use tvix.Eval.Scope.Index.{Indexes, entry_of, positions, names_of}
use tvix.Eval.Scope.Ends.{Stops, end_block_lem}
use tvix.Eval.Scope.Nesting.Steps.{Key, key, keys, Grows}

front_nil {ℓ} : {A : Type ℓ} (xs ys : List A) → xs ++ ys ≡ [] → xs ≡ []
front_nil [] ys e = refl
front_nil (x ∷ xs) ys e = cc

module _ {Span : Type 0} where
  -- A scope as the compiler has it: its index fits, and its locals are of its depth or less.
  pub record Fits (s : Scope Span) : Type 0 where
    pub indexed : Indexes s.by_name s.locals
    pub shallow : All (λ k. k.2 ≤ s.scope_depth) (keys s.locals)
    pub occupied : keys s.locals ≢ []

  pub Grows-Fits : (s t : Scope Span) → Fits s → Grows s t → Fits t
  Grows-Fits s t f g = record {
    indexed = g.indexed;
    shallow = rw g.extends (
        All-append (λ k. k.2 ≤ t.scope_depth) (keys s.locals) g.more (rw g.same_depth f.shallow)
          (All-map (λ k. k.2 ≡ s.scope_depth) (λ k. k.2 ≤ t.scope_depth)
            (λ k e. omega (arith, e, g.same_depth)) g.more g.deep));
    occupied = λ e. f.occupied (front_nil (keys s.locals) g.more (sym g.extends ∙ e));
  }

  -- A list whose map is an append is an append.
  split :
      (ls : List (Local Span)) (xs ys : List (Key Span))
      → keys ls ≡ xs ++ ys
      → (front : List (Local Span)) × (block : List (Local Span)) × (ls ≡ front ++ block)
        × (keys front ≡ xs)
        × (keys block ≡ ys)
  split ls [] ys e = ([], ls, refl, refl, e)
  split [] (x ∷ xs) ys e = cc
  split (l ∷ ls) (x ∷ xs) ys e =
      let (front, block, is, f, b) = split ls xs ys cc in
      (l ∷ front, block, ap (λ t. l ∷ t) is, cc, b)

  All-keys :
      (P : Key Span → Type 0) (ls : List (Local Span)) → All P (keys ls) → All (λ l. P (key l)) ls
  All-keys P [] h = tt
  All-keys P (l ∷ ls) h = (h.0, All-keys P ls h.1)

  -- Locals of less depth stop the loop.
  shallow-Stops :
      (depth : ℕ) (ls : List (Local Span))
      → All (λ l. l.depth < depth) ls
      → ls ≢ []
      → Stops depth ls
  shallow-Stops depth [] h ne = ne refl
  shallow-Stops depth (l ∷ ls) h ne = λ e. absurd (omega (arith, h.0))

  -- What the end of a scope gives back of the scope in which it was opened.
  pub record Restores (s t : Scope Span) : Type 0 where
    pub same_depth : t.scope_depth ≡ s.scope_depth
    pub same_locals : keys t.locals ≡ keys s.locals
    pub same_names : (n : Bytes) → t.by_name n ≡ s.by_name n

  pub Fits-begin : (s : Scope Span) → Fits s → Fits (begin_scope s)
  unfolding begin_scope
  Fits-begin s f = record {
    indexed = f.indexed;
    shallow =
        All-map (λ k. k.2 ≤ s.scope_depth) (λ k. k.2 ≤ s.scope_depth + 1) (λ k le. omega arith)
          (keys s.locals) f.shallow;
    occupied = f.occupied;
  }

  -- The end of a scope that grew since it was opened.
  pub record Closes (s t : Scope Span) : Type 0 where
    pub after : Scope Span
    pub pops : ℕ
    pub spans : List Span
    pub ends : end_scope t ≡ some (after, pops, spans)
    pub restores : Restores s after
    pub indexed : Indexes after.by_name after.locals

  names-keys : (ls : List (Local Span)) → names_of ls ≡ map (λ k. k.0) (keys ls)
  names-keys [] = refl
  names-keys (l ∷ ls) = ap (λ t. l.name ∷ t) (names-keys ls)

  front-Stops :
      (s t : Scope Span) (front : List (Local Span))
      → Fits s
      → t.scope_depth ≡ s.scope_depth + 1
      → keys front ≡ keys s.locals
      → Stops t.scope_depth (reverse front)
  front-Stops s t front f deeper same =
      shallow-Stops t.scope_depth (reverse front)
        (All-reverse (λ l. l.depth < t.scope_depth) front
          (All-keys (λ k. k.2 < t.scope_depth) front
            (rw same (
              All-map (λ k. k.2 ≤ s.scope_depth) (λ k. k.2 < t.scope_depth)
                (λ k le. omega (arith, deeper)) (keys s.locals) f.shallow))))
        (λ e.
          f.occupied
            (sym same ∙ ap (λ ls. keys ls) (sym (reverse-reverse front) ∙ ap (λ ls. reverse ls) e)))

  pub Grows-Closes : (s t : Scope Span) → Fits s → Grows (begin_scope s) t → Closes s t
  unfolding begin_scope
  Grows-Closes s t f g =
      let (front, block, is, same_front, same_block) =
        split t.locals (keys s.locals) g.more g.extends in
      let all : All (λ l. l.depth ≡ t.scope_depth) block =
        All-keys (λ k. k.2 ≡ t.scope_depth) block (rw (same_block, g.same_depth) g.deep) in
      let (names, ends, indexed) =
        end_block_lem t front block (λ e. absurd (omega (arith, e, g.same_depth))) is all
          (front-Stops s t front f g.same_depth same_front) g.indexed in
      record {
        after = _;
        pops = _;
        spans = _;
        ends = ends;
        restores = record {
          same_depth = omega (arith, g.same_depth);
          same_locals = same_front;
          same_names = λ n.
              indexed n
              ∙ ap (λ x. entry_of (positions n 0 x))
                  (names-keys front ∙ ap (map (λ k. k.0)) same_front ∙ sym (names-keys s.locals))
              ∙ sym (f.indexed n);
        };
        indexed = indexed;
      }

  pub Restores-Grows : (s t : Scope Span) → Restores s t → Indexes t.by_name t.locals → Grows s t
  Restores-Grows s t r h = record {
    more = [];
    same_depth = r.same_depth;
    extends = r.same_locals ∙ sym (append-nil (keys s.locals));
    deep = tt;
    indexed = h;
  }

  -- A nested scope adds nothing.
  pub nests-Grows :
      (s u v : Scope Span) (pops : ℕ) (spans : List Span)
      → Fits s
      → Grows (begin_scope s) u
      → end_scope u ≡ some (v, pops, spans)
      → Grows s v
  nests-Grows s u v pops spans f g e =
      let c = Grows-Closes s u f g in
      let was = c.ends in
      let same : c.after ≡ v = cc in
      subst (λ x. Grows s x) same (Restores-Grows s c.after c.restores c.indexed)
