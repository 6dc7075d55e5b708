-- ===== src/Eval/Chunk/Spans.antt =====
-- eval/src/chunk.rs: the spans of the operations of a chunk that was built step by step.
use tvix.Prelude.{
  ℕ, suc, ◌≤◌, ◌<◌, ◌≡◌, refl, sym, ap, subst, Bool, true, List, [], ◌∷◌, ◌++◌, some, Bytes, length,
  get_elem?, length-append, arith, Bool-cases, Option-cases, ◌⊎◌, inl, inr,
}
use tvix.Eval.Chunk.{
  SourceSpan, Chunk, no_code, last, push_span, push_op, push_uvarint, push_u16, u16_le, patch_jump,
  push_constant, get_span,
}
use tvix.Eval.Chunk.Jumps.{patch_jump_keeps}
use tvix.Eval.Chunk.Elements.{get_below, get_front, get_end, get_either, get_last}
use tvix.Eval.Chunk.Search.{Ascending, Governs, BinarySearch, position-Governs}

-- Chunks that the operations build, with the operations that were pushed: where each starts, and its span.
module _ {Span Value : Type 0} (span_eq : Span → Span → Bool) where
  pub data Built : Chunk Span Value → List (ℕ × Span) → Type 0 where
    start : Built no_code []
    operation :
        {c : Chunk Span Value} {log : List (ℕ × Span)} (op : ℕ) (span : Span)
        → Built c log
        → Built (push_op span_eq op span c).1 (log ++ (length c.code, span) ∷ [])
    operand :
        {c : Chunk Span Value} {log : List (ℕ × Span)} (encoded : Bytes)
        → Built c log
        → Built (push_uvarint encoded c) log
    short_operand :
        {c : Chunk Span Value} {log : List (ℕ × Span)} (n : ℕ)
        → Built c log
        → Built (push_u16 n c) log
    jump :
        {c p : Chunk Span Value} {log : List (ℕ × Span)} (idx : ℕ)
        → patch_jump idx c ≡ some p
        → Built c log
        → Built p log
    constant :
        {c : Chunk Span Value} {log : List (ℕ × Span)} (v : Value)
        → Built c log
        → Built (push_constant v c).1 log

-- What holds of a chunk and the operations that were pushed: of the spans and the length of its code.
pub record Spanned {Span : Type 0} (spans : List (SourceSpan Span)) (len : ℕ)
    (log : List (ℕ × Span)) : Type 0 where
  pub below : (j : ℕ) (s : SourceSpan Span) → get_elem? spans j ≡ some s → s.start < len
  pub ascending : Ascending spans
  pub governed :
      (k offset : ℕ) (span : Span)
      → get_elem? log k ≡ some (offset, span)
      → Governs spans offset span × (offset < len)

module _ {Span : Type 0} (spans : List (SourceSpan Span)) (len : ℕ) (log : List (ℕ × Span))
    (w : Spanned spans len log) where
  -- Code that is longer, without an operation.
  longer : (more : ℕ) → len ≤ more → Spanned spans more log
  longer more h = record {
    below = λ j s at. let le = w.below j s at in omega (arith, le, h);
    ascending = w.ascending;
    governed =
        λ k offset span at. let (g, le) = w.governed k offset span at in (g, omega (arith, le, h));
  }

  -- The log with one operation more.
  logged :
      (after : List (SourceSpan Span)) (span : Span)
      → ((k offset : ℕ) (sp : Span) → get_elem? log k ≡ some (offset, sp) → Governs after offset sp)
      → Governs after len span
      → (k offset : ℕ) (sp : Span) → get_elem? (log ++ (len, span) ∷ []) k ≡ some (offset, sp)
      → Governs after offset sp × (offset < suc len)
  logged after span old new k offset sp there =
      elim (get_either log (len, span) k (offset, sp) there) [
        | inl front ↦
            let (g, le) = w.governed k offset sp front in (old k offset sp front, omega (arith, le))
        | inr (at, same) ↦
            let offsets : len ≡ offset = ap (λ e. e.0) same in
            let spans_same : span ≡ sp = ap (λ e. e.1) same in
            (
              subst (λ o. Governs after o sp) offsets
                  (subst (λ x. Governs after len x) spans_same new),
              omega (arith, offsets),
            )
      ]

  -- An operation of the same span as the one before.
  same_again :
      (s : SourceSpan Span)
      → last spans ≡ some s
      → Spanned spans (suc len) (log ++ (len, s.span) ∷ [])
  same_again s h =
      let (i, at, end) = get_last spans s h in
      let le = w.below i s at in
      let new : Governs spans len s.span = record {
        index = i;
        source = s;
        at = at;
        same = refl;
        starts = omega (arith, le);
        others = λ j t less there.
            let inside = get_below spans j t there in absurd (omega (arith, end, less, inside));
      } in
      record {
        below = λ j t there. let less = w.below j t there in omega (arith, less);
        ascending = w.ascending;
        governed = logged spans s.span (λ k offset sp front. (w.governed k offset sp front).0) new;
      }

  Ascending-more : (span : Span) → Ascending (spans ++ (record { span = span; start = len }) ∷ [])
  Ascending-more span i j s t less at_i at_j =
      let more : SourceSpan Span = record { span = span; start = len } in
      elim (get_either spans more i s at_i) [
        | inl front_i ↦ elim (get_either spans more j t at_j) [
          | inl front_j ↦ w.ascending i j s t less front_i front_j
          | inr (at, same) ↦
              let le = w.below i s front_i in
              let starts : len ≡ t.start = ap (λ x. x.start) same in omega (arith, le, starts)
        ]
        | inr (at, same) ↦ elim (get_either spans more j t at_j) [
          | inl front_j ↦
              let inside = get_below spans j t front_j in absurd (omega (arith, less, at, inside))
          | inr (at_end, same_end) ↦ absurd (omega (arith, less, at, at_end))
        ]
      ]

  front-Governs :
      (span : Span) (offset : ℕ) (sp : Span)
      → offset < len
      → Governs spans offset sp
      → Governs (spans ++ (record { span = span; start = len }) ∷ []) offset sp
  front-Governs span offset sp le g =
      let more : SourceSpan Span = record { span = span; start = len } in
      record {
        index = g.index;
        source = g.source;
        at = get_front spans (more ∷ []) g.index g.source g.at;
        same = g.same;
        starts = g.starts;
        others = λ j t less there. elim (get_either spans more j t there) [
          | inl front ↦ g.others j t less front
          | inr (at, same) ↦
              let starts : len ≡ t.start = ap (λ x. x.start) same in omega (arith, starts, le)
        ];
      }

  -- An operation of another span.
  other_span :
      (span : Span)
      → Spanned
          (spans ++ (record { span = span; start = len }) ∷ [])
          (suc len)
          (log ++ (len, span) ∷ [])
  other_span span =
      let more : SourceSpan Span = record { span = span; start = len } in
      let after = spans ++ more ∷ [] in
      let new : Governs after len span = record {
        index = length spans;
        source = more;
        at = get_end spans more;
        same = refl;
        starts = omega arith;
        others = λ j t less there. elim (get_either spans more j t there) [
          | inl front ↦
              let inside = get_below spans j t front in absurd (omega (arith, less, inside))
          | inr (at, same) ↦ absurd (omega (arith, less, at))
        ];
      } in
      record {
        below = λ j t there. elim (get_either spans more j t there) [
          | inl front ↦ let le = w.below j t front in omega (arith, le)
          | inr (at, same) ↦
              let starts : len ≡ t.start = ap (λ x. x.start) same in omega (arith, starts)
        ];
        ascending = Ascending-more span;
        governed =
            logged after span
              (λ k offset sp front.
                let (g, le) = w.governed k offset sp front in front-Governs span offset sp le g)
              new;
      }

module _ {Span Value : Type 0} (span_eq : Span → Span → Bool)
    (exact : (a b : Span) → span_eq a b ≡ true → a ≡ b) where
  abbrev SpannedChunk : Chunk Span Value → List (ℕ × Span) → Type 0
  SpannedChunk c log = Spanned c.spans (length c.code) log

  push_op-Spanned :
      (op : ℕ) (span : Span) (c : Chunk Span Value) (log : List (ℕ × Span))
      → SpannedChunk c log
      → SpannedChunk (push_op span_eq op span c).1 (log ++ (length c.code, span) ∷ [])
  unfolding push_op push_span
  push_op-Spanned op span c log w =
      let len = length c.code in
      let one_more : length (c.code ++ op ∷ []) ≡ suc len =
        omega (arith, length-append c.code (op ∷ [])) in
      elim (Option-cases (last c.spans)) [
        | inl nothing ↦ rw (push_span, nothing, one_more) (other_span c.spans len log w span)
        | inr (s, before) ↦ elim (Bool-cases (span_eq s.span span)) [
          | inl same ↦
              rw (push_span, before, same, one_more)
                (subst (λ x. Spanned c.spans (suc len) (log ++ (len, x) ∷ []))
                  (exact s.span span same) (same_again c.spans len log w s before))
          | inr other ↦ rw (push_span, before, other, one_more) (other_span c.spans len log w span)
        ]
      ]

  pub Built-Spanned :
      {c : Chunk Span Value} {log : List (ℕ × Span)} → Built span_eq c log → SpannedChunk c log
  unfolding push_uvarint push_u16 push_constant
  Built-Spanned start = record {
    below = λ j s at. cc;
    ascending = λ i j s t less at_i at_j. cc;
    governed = λ k offset span at. cc;
  }
  Built-Spanned (operation op span b) = push_op-Spanned op span _ _ (Built-Spanned b)
  Built-Spanned (operand {c} encoded b) =
      longer _ _ _ (Built-Spanned b) _ (omega (arith, length-append c.code encoded))
  Built-Spanned (short_operand {c} n b) =
      longer _ _ _ (Built-Spanned b) _ (omega (arith, length-append c.code (u16_le n)))
  Built-Spanned (jump {c} {p} {log} idx e b) =
      let (spans, len) = patch_jump_keeps idx c p e in
      subst (λ ss. Spanned ss (length p.code) log) (sym spans)
        (subst (λ n. Spanned c.spans n log) (sym len) (Built-Spanned b))
  Built-Spanned (constant v b) = Built-Spanned b

module _ {Span : Type 0} (search : List (SourceSpan Span) → ℕ → ℕ ⊎ ℕ)
    (laws : BinarySearch search) where
  -- In a chunk that was built by its operations, the span of every operation that was pushed is found at
  -- its offset, however they were mixed with operands, patched jumps and constants.
  pub get_span-Built :
      {Value : Type 0} (span_eq : Span → Span → Bool)
      → ((a b : Span) → span_eq a b ≡ true → a ≡ b)
      → (c : Chunk Span Value) (log : List (ℕ × Span)) → Built span_eq c log
      → (k offset : ℕ) (span : Span) → get_elem? log k ≡ some (offset, span)
      → get_span search offset c ≡ some span
  unfolding get_span
  get_span-Built span_eq exact c log built k offset span at =
      let w = Built-Spanned span_eq exact built in
      let (g, inside) = w.governed k offset span at in
      rw (get_span, position-Governs search laws c.spans offset span w.ascending g, g.at)
        (ap some g.same)
