-- ===== src/Eval/Chunk/Search.antt =====
-- eval/src/chunk.rs: what `get_span` searches for.
use tvix.Prelude.{
  ℕ, suc, ◌≤◌, ◌<◌, ◌≡◌, refl, List, some, length, get_elem?, arith, Bool-cases, ltb, ltb→lt, ◌⊎◌,
  inl, inr,
}
use tvix.Eval.Chunk.{SourceSpan, position_of}
use tvix.Eval.Chunk.Elements.{get_inside}

module _ {Span : Type 0} where
  -- The starts ascend.
  abbrev pub Ascending : List (SourceSpan Span) → Type 0
  Ascending spans =
      (i j : ℕ) (s t : SourceSpan Span)
      → i < j
      → get_elem? spans i ≡ some s
      → get_elem? spans j ≡ some t
      → s.start < t.start

  -- The last span that does not start behind `offset` is `span`.
  pub record Governs (spans : List (SourceSpan Span)) (offset : ℕ) (span : Span) : Type 0 where
    pub index : ℕ
    pub source : SourceSpan Span
    pub at : get_elem? spans index ≡ some source
    pub same : source.span ≡ span
    pub starts : source.start ≤ offset
    pub others :
        (j : ℕ) (t : SourceSpan Span) → index < j → get_elem? spans j ≡ some t → offset < t.start

  -- What the documentation of `binary_search_by` promises for a list whose starts ascend.
  pub record BinarySearch (search : List (SourceSpan Span) → ℕ → ℕ ⊎ ℕ) : Type 0 where
    pub found :
        (spans : List (SourceSpan Span)) (offset i : ℕ)
        → Ascending spans
        → search spans offset ≡ inl i
        → (s : SourceSpan Span) × (get_elem? spans i ≡ some s) × (s.start ≡ offset)
    pub before :
        (spans : List (SourceSpan Span)) (offset i j : ℕ) (s : SourceSpan Span)
        → Ascending spans
        → search spans offset ≡ inr i
        → j < i
        → get_elem? spans j ≡ some s
        → s.start < offset
    pub bound :
        (spans : List (SourceSpan Span)) (offset i : ℕ)
        → Ascending spans
        → search spans offset ≡ inr i
        → i ≤ length spans
    pub behind :
        (spans : List (SourceSpan Span)) (offset i j : ℕ) (s : SourceSpan Span)
        → Ascending spans
        → search spans offset ≡ inr i
        → i ≤ j
        → get_elem? spans j ≡ some s
        → offset < s.start

module _ {Span : Type 0} (search : List (SourceSpan Span) → ℕ → ℕ ⊎ ℕ)
    (laws : BinarySearch search) where
  module _ (spans : List (SourceSpan Span)) (offset : ℕ) (span : Span) (up : Ascending spans)
      (g : Governs spans offset span) where
    exact_position : (i : ℕ) → search spans offset ≡ inl i → i ≡ g.index
    exact_position i e =
        let (s, at, starts) = laws.found spans offset i up e in
        elim (Bool-cases (ltb i g.index)) [
          | inl less ↦
              let earlier = up i g.index s g.source (ltb→lt i g.index less) at g.at in
              absurd (omega (arith, earlier, starts, g.starts))
          | inr not_less ↦ elim (Bool-cases (ltb g.index i)) [
            | inl more ↦
                let later = g.others i s (ltb→lt g.index i more) at in
                absurd (omega (arith, later, starts))
            | inr not_more ↦ ground arith
          ]
        ]

    between_position : (i : ℕ) → search spans offset ≡ inr i → i ≡ suc g.index
    between_position i e = elim (Bool-cases (ltb g.index i)) [
      | inr not_more ↦
          let later = laws.behind spans offset i g.index g.source up e (ground arith) g.at in
          absurd (omega (arith, later, g.starts))
      | inl more ↦ elim (Bool-cases (ltb (suc g.index) i)) [
        | inr not_further ↦ ground arith
        | inl further ↦
            let less = ltb→lt (suc g.index) i further in
            let within = laws.bound spans offset i up e in
            let (t, at) = get_inside spans (suc g.index) (omega (arith, less, within)) in
            let earlier = laws.before spans offset i (suc g.index) t up e less at in
            let later = g.others (suc g.index) t (omega arith) at in
            absurd (omega (arith, earlier, later))
      ]
    ]

    -- The search leads to the span that governs an offset.
    position_at : (r : ℕ ⊎ ℕ) → search spans offset ≡ r → position_of r ≡ g.index
    position_at (inl i) e = exact_position i e
    position_at (inr i) e = let next = between_position i e in ground (arith, next)

    pub position-Governs : position_of (search spans offset) ≡ g.index
    position-Governs = position_at (search spans offset) refl
