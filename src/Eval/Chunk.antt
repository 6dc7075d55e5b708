-- ===== src/Eval/Chunk.antt =====
-- eval/src/chunk.rs: bytecode with its constants and the spans of its operations. The values of the
-- constants are any type. The spans are those of the codemap crate: a type with a test of equality. The
-- encoding of variable-length integers is the vu128 crate: what it writes is any bytes.
pub mod Elements
pub mod Search
pub mod Spans
pub mod Jumps
use tvix.Prelude.{
  ℕ, zero, suc, ◌+◌, ◌-◌, ◌*◌, ◌/◌, ◌%◌, ◌^◌, Bool, true, false, List, [], ◌∷◌, ◌++◌, Option, none,
  some, Bytes, ◌==◌, ltb, if◌then◌else◌, length, get_elem?, take, drop, ◌⊎◌, inl, inr,
}

unfoldable pub last {ℓ} : {A : Type ℓ} → List A → Option A
last [] = none
last (x ∷ []) = some x
last (x ∷ y ∷ xs) = last (y ∷ xs)

pub record SourceSpan (Span : Type 0) : Type 0 where
  pub span : Span
  pub start : ℕ

pub record Chunk (Span Value : Type 0) : Type 0 where
  pub code : Bytes
  pub constants : List Value
  pub spans : List (SourceSpan Span)
  pub last_op : ℕ

-- The match of `push_span`.
abbrev same_span : {Span : Type 0} → (Span → Span → Bool) → Option (SourceSpan Span) → Span → Bool
same_span span_eq none span = false
same_span span_eq (some before) span = span_eq before.span span

-- `u16::to_le_bytes` and `u16::from_le_bytes`.
abbrev u16_le : ℕ → Bytes
u16_le n = (n % 256) ∷ (n / 256) ∷ []

abbrev from_u16_le : Option ℕ → Option ℕ → Option ℕ
from_u16_le (some low) (some high) = some (low + 256 * high)
from_u16_le _ _ = none

-- The match of `get_span` on the position.
abbrev position_of : ℕ ⊎ ℕ → ℕ
position_of (inl index) = index
position_of (inr index) = if index == 0 then 0 else index - 1

module _ {Span Value : Type 0} where
  -- `Chunk::default`.
  abbrev pub no_code : Chunk Span Value
  no_code = record { code = []; constants = []; spans = []; last_op = 0 }

  module _ (span_eq : Span → Span → Bool) where
    unfoldable pub push_span : Span → ℕ → Chunk Span Value → Chunk Span Value
    push_span span start c =
        if same_span span_eq (last c.spans) span
        then c
        else record c { spans = c.spans ++ (record { span = span; start = start }) ∷ [] }

    -- `push_op`, of the byte of an operation.
    unfoldable pub push_op : ℕ → Span → Chunk Span Value → ℕ × Chunk Span Value
    push_op op span c =
        let at = length c.code in
        (at, push_span span at (record c { code = c.code ++ op ∷ []; last_op = at }))

  -- `push_uvarint`, of the bytes of the encoding.
  unfoldable pub push_uvarint : Bytes → Chunk Span Value → Chunk Span Value
  push_uvarint encoded c = record c { code = c.code ++ encoded }

  unfoldable pub push_u16 : ℕ → Chunk Span Value → Chunk Span Value
  push_u16 n c = record c { code = c.code ++ u16_le n }

  -- `patch_jump`, which panics on a jump whose operand is not in the code; `as u16` keeps the low bits.
  unfoldable pub patch_jump : ℕ → Chunk Span Value → Option (Chunk Span Value)
  patch_jump idx c =
      if ltb (length c.code) (idx + 1 + 2)
      then none
      else let offset = (length c.code - idx - 1 - 2) % 2 ^ 16 in
        some (record c { code = take (idx + 1) c.code ++ (u16_le offset ++ drop (idx + 3) c.code) })

  -- `read_u16`, which panics outside the code.
  unfoldable pub read_u16 : ℕ → Chunk Span Value → Option ℕ
  read_u16 idx c = from_u16_le (get_elem? c.code idx) (get_elem? c.code (idx + 1))

  unfoldable pub first_span : Chunk Span Value → Option Span
  first_span c = elim (get_elem? c.spans 0) [ none ↦ none | some s ↦ some s.span ]

  -- `last_op`: the byte of the operation and its index, if there is code; `none` inside where it panics.
  unfoldable pub last_op : Chunk Span Value → Option (Option ℕ × ℕ)
  last_op c = elim c.code [
    | [] ↦ none
    | x ∷ code ↦ some (get_elem? (x ∷ code) c.last_op, c.last_op)
  ]

  unfoldable pub push_constant : Value → Chunk Span Value → ℕ × Chunk Span Value
  push_constant v c = (length c.constants, record c { constants = c.constants ++ v ∷ [] })

  unfoldable pub get_constant : ℕ → Chunk Span Value → Option Value
  get_constant idx c = get_elem? c.constants idx

  -- `get_span`, where `search` is `binary_search_by` on the starts: `inl` for `Ok`, `inr` for `Err`. It
  -- panics where there is no span.
  module _ (search : List (SourceSpan Span) → ℕ → ℕ ⊎ ℕ) where
    unfoldable pub get_span : ℕ → Chunk Span Value → Option Span
    get_span offset c = elim (get_elem? c.spans (position_of (search c.spans offset))) [
      | none ↦ none
      | some s ↦ some s.span
    ]
