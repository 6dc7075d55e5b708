-- ===== src/Eval/Examples.antt =====
-- The theorems on chunks of bytecode at a concrete chunk.
mod Scopes
mod Attributes
mod Versions
use tvix.Prelude.{
  ℕ, zero, suc, ◌+◌, ◌*◌, ◌^◌, ◌≤◌, ◌<◌, ◌≡◌, refl, List, [], ◌∷◌, ◌++◌, some, ◌==◌, ==_iff, ltb,
  if◌then◌else◌, length, length-replicate, replicate, get_elem?, take, drop, subst, arith,
  Bool-cases, ◌⊎◌, inl, inr,
}
use tvix.Eval.Chunk.{
  SourceSpan, Chunk, no_code, last, push_op, push_span, push_u16, patch_jump, read_u16, get_span,
}
use tvix.Eval.Chunk.Jumps.{patch_jump_lands, patch_jump_far}
use tvix.Eval.Chunk.Search.{Ascending, BinarySearch}
use tvix.Eval.Chunk.Spans.{Built, start, operation, short_operand, get_span-Built}

-- A search that looks at one span after the other.
abbrev further : ℕ ⊎ ℕ → ℕ ⊎ ℕ
further (inl i) = inl (suc i)
further (inr i) = inr (suc i)

scan : List (SourceSpan ℕ) → ℕ → ℕ ⊎ ℕ
scan [] offset = inr 0
scan (s ∷ spans) offset =
    let rest = scan spans offset in
    if s.start == offset then inl 0 else if ltb offset s.start then inr 0 else further rest

-- What the laws say of a result.
abbrev Right : List (SourceSpan ℕ) → ℕ → ℕ ⊎ ℕ → Type 0
Right spans offset (inl i) = (s : SourceSpan ℕ) × (get_elem? spans i ≡ some s) × (s.start ≡ offset)
Right spans offset (inr i) =
    (i ≤ length spans)
    × ((j : ℕ) (s : SourceSpan ℕ) → j < i → get_elem? spans j ≡ some s → s.start < offset)
    × ((j : ℕ) (s : SourceSpan ℕ) → i ≤ j → get_elem? spans j ≡ some s → offset < s.start)

each_element :
    (s : SourceSpan ℕ) (spans : List (SourceSpan ℕ)) (P : ℕ → SourceSpan ℕ → Type 0)
    → P 0 s
    → ((k : ℕ) (t : SourceSpan ℕ) → get_elem? spans k ≡ some t → P (suc k) t)
    → (j : ℕ) (t : SourceSpan ℕ) → get_elem? (s ∷ spans) j ≡ some t
    → P j t
each_element s spans P first others zero t h = let same : s ≡ t = cc in subst (P 0) same first
each_element s spans P first others (suc k) t h = others k t h

Right-further :
    (s : SourceSpan ℕ) (spans : List (SourceSpan ℕ)) (offset : ℕ) (r : ℕ ⊎ ℕ)
    → s.start < offset
    → Right spans offset r
    → Right (s ∷ spans) offset (further r)
Right-further s spans offset (inl i) less h = h
Right-further s spans offset (inr i) less (bound, before, behind) = (
  omega (arith, bound),
  (λ j t le at.
      each_element s spans (λ k u. k < suc i → u.start < offset) (λ _. less)
        (λ k u there lt. before k u (omega arith) there) j t at le),
  (λ j t le at.
      each_element s spans (λ k u. suc i ≤ k → offset < u.start) (λ none_less. absurd (omega arith))
        (λ k u there lt. behind k u (omega arith) there) j t at le),
)

scan-Right :
    (spans : List (SourceSpan ℕ)) (offset : ℕ)
    → Ascending spans
    → Right spans offset (scan spans offset)
unfolding scan
scan-Right [] offset up = (omega arith, (λ j s le at. cc), (λ j s le at. cc))
scan-Right (s ∷ spans) offset up = elim (Bool-cases (s.start == offset)) [
  | inl same ↦ rw (scan, same) (s, refl, (==_iff s.start offset).0 same)
  | inr other ↦ elim (Bool-cases (ltb offset s.start)) [
    | inl less ↦
        rw (scan, other, less)
          (
            omega arith,
            (λ j t le at. absurd (omega arith)),
            (λ j t le at.
                each_element s spans (λ k u. offset < u.start) (ground arith)
                  (λ k u there.
                    let later = up 0 (suc k) s u (omega arith) refl there in
                    let behind : offset < s.start = ground arith in omega (arith, later, behind))
                  j t at),
          )
    | inr more ↦
        let before : s.start < offset = ground arith in
        rw (scan, other, more)
          (Right-further s spans offset (scan spans offset) before (
            scan-Right spans offset
              (λ i j t u less at_i at_j. up (suc i) (suc j) t u (omega arith) at_i at_j)))
  ]
]

Right-found :
    (spans : List (SourceSpan ℕ)) (offset : ℕ) (r : ℕ ⊎ ℕ)
    → Ascending spans
    → scan spans offset ≡ r
    → Right spans offset r
Right-found spans offset r up e = subst (Right spans offset) e (scan-Right spans offset up)

scan-BinarySearch : BinarySearch scan
scan-BinarySearch = record {
  found = λ spans offset i up e. Right-found spans offset (inl i) up e;
  before = λ spans offset i j s up e. (Right-found spans offset (inr i) up e).1 j s;
  bound = λ spans offset i up e. (Right-found spans offset (inr i) up e).0;
  behind = λ spans offset i j s up e. (Right-found spans offset (inr i) up e).2 j s;
}

-- Two operations, the first with an operand of two bytes, which is patched to lead behind the second.
abbrev small_chunk : Chunk ℕ ℕ
small_chunk = (push_op ◌==◌ 8 21 (push_u16 0 (push_op ◌==◌ 7 20 no_code).1)).1

abbrev small_log : List (ℕ × ℕ)
small_log = ([] ++ (0, 20) ∷ []) ++ (3, 21) ∷ []

small_chunk-Built : Built ◌==◌ small_chunk small_log
unfolding push_op push_span push_u16 last
small_chunk-Built = operation 8 21 (short_operand 0 (operation 7 20 start))

get_span-Built_example : get_span scan 3 small_chunk ≡ some 21
get_span-Built_example =
    get_span-Built scan scan-BinarySearch ◌==◌ (λ a b. (==_iff a b).0) small_chunk small_log
      small_chunk-Built 1 3 21 refl

patch_jump_lands_example :
    (p : Chunk ℕ ℕ) × (offset : ℕ) × (patch_jump 0 small_chunk ≡ some p)
    × (read_u16 1 p ≡ some offset)
    × (3 + offset ≡ length p.code)
    × (length p.code ≡ length small_chunk.code)
    × (take 1 p.code ≡ take 1 small_chunk.code)
    × (drop 3 p.code ≡ drop 3 small_chunk.code)
unfolding push_op push_span push_u16 last
patch_jump_lands_example = patch_jump_lands 0 small_chunk (omega arith) (omega arith)

-- A jump over more code than its operand can say.
abbrev long_chunk : Chunk ℕ ℕ
long_chunk = record { code = replicate 70000 0; constants = []; spans = []; last_op = 0 }

patch_jump_far_example :
    (p : Chunk ℕ ℕ) × (offset : ℕ) × (laps : ℕ) × (patch_jump 0 long_chunk ≡ some p)
    × (read_u16 1 p ≡ some offset)
    × (offset < 2 ^ 16)
    × (1 ≤ laps)
    × (3 + offset + laps * 2 ^ 16 ≡ length p.code)
    × (take 1 p.code ≡ take 1 long_chunk.code)
    × (drop 3 p.code ≡ drop 3 long_chunk.code)
patch_jump_far_example =
    let size : length long_chunk.code ≡ 70000 = length-replicate {A = ℕ} 70000 0 in
    patch_jump_far 0 long_chunk (omega (arith, size)) (omega (arith, size))
