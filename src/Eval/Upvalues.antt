-- ===== src/Eval/Upvalues.antt =====
-- The upvalues of eval/src/compiler/bindings.rs and the contexts of eval/src/compiler/mod.rs. The stack
-- of contexts is a list, the innermost first: the context of an index is the head of the list from it on.
-- What a lambda has beside the count of its upvalues is any type. An operation that panics gives none.
pub mod Tracing
pub mod Captures
use tvix.Prelude.{
  ℕ, zero, suc, ◌+◌, Bool, true, false, List, [], ◌∷◌, ◌++◌, Option, none, some, Bytes, ◌==◌,
  reverse, if◌then◌else◌,
}
use tvix.Eval.Scope.{
  Scope, UpvalueKind, local, upvalue, LocalPosition, unknown, known, recursive, inherit, no_scope,
  has_with, resolve_local,
}

pub record Lambda (Code : Type 0) : Type 0 where
  pub code : Code
  pub upvalue_count : ℕ

pub record LambdaCtx (Code Span : Type 0) : Type 0 where
  pub lambda : Lambda Code
  pub scope : Scope Span
  pub captures_with_stack : Bool

-- `==` of the derived `PartialEq`.
abbrev pub kind_eq : UpvalueKind → UpvalueKind → Bool
kind_eq (local a) (local b) = a == b
kind_eq (upvalue a) (upvalue b) = a == b
kind_eq (local a) (upvalue b) = false
kind_eq (upvalue a) (local b) = false

-- The loop of `add_upvalue`: the first upvalue of a kind.
pub existing_upvalue : UpvalueKind → ℕ → List UpvalueKind → Option ℕ
existing_upvalue kind idx [] = none
existing_upvalue kind idx (u ∷ upvalues) =
    let rest = existing_upvalue kind (suc idx) upvalues in if kind_eq u kind then some idx else rest

abbrev pub with_upvalues : {Span : Type 0} → Scope Span → List UpvalueKind → Scope Span
with_upvalues s upvalues = record s { upvalues = upvalues }

-- The contexts from one on, and the index of its upvalue if the name has one.
abbrev pub Resolution : Type 0 → Type 0 → Type 0
Resolution Code Span = Option (List (LambdaCtx Code Span) × Option ℕ)

module _ {Code Span : Type 0} where
  -- `new` and `inherit`, with the default of a lambda's code.
  unfoldable pub new_context : Code → LambdaCtx Code Span
  new_context no_code = record {
    lambda = record { code = no_code; upvalue_count = 0 };
    scope = no_scope;
    captures_with_stack = false;
  }

  unfoldable pub inherited_context : Code → LambdaCtx Code Span → LambdaCtx Code Span
  inherited_context no_code c = record {
    lambda = record { code = no_code; upvalue_count = 0 };
    scope = inherit c.scope;
    captures_with_stack = false;
  }

  abbrev add_new : UpvalueKind → LambdaCtx Code Span → Option ℕ → LambdaCtx Code Span × ℕ
  add_new kind c (some idx) = (c, idx)
  add_new kind c none = (
    record c {
      scope = with_upvalues c.scope (c.scope.upvalues ++ kind ∷ []);
      lambda = record { code = c.lambda.code; upvalue_count = c.lambda.upvalue_count + 1 };
    },
    c.lambda.upvalue_count,
  )

  -- `add_upvalue` to a context.
  unfoldable pub add_upvalue : UpvalueKind → LambdaCtx Code Span → LambdaCtx Code Span × ℕ
  add_upvalue kind c = add_new kind c (existing_upvalue kind 0 c.scope.upvalues)

  abbrev pub capture :
      UpvalueKind → LambdaCtx Code Span → List (LambdaCtx Code Span) → Resolution Code Span
  capture kind c outer = let (c', idx) = add_upvalue kind c in some (c' ∷ outer, some idx)

  -- The rest of `resolve_upvalue`, where the context around was searched on.
  abbrev pub capture_further : LambdaCtx Code Span → Resolution Code Span → Resolution Code Span
  capture_further c none = none
  capture_further c (some (outer, none)) = some (c ∷ outer, none)
  capture_further c (some (outer, some idx)) = capture (upvalue idx) c outer

  -- The match of `resolve_upvalue`: the context, the one around it, those around that, and the recursion.
  abbrev pub capture_position :
      LambdaCtx Code Span
      → LambdaCtx Code Span
      → List (LambdaCtx Code Span)
      → (Scope Span → Resolution Code Span)
      → Option (Scope Span × LocalPosition)
      → Resolution Code Span
  capture_position c parent outer further none = none
  capture_position c parent outer further (some (s, unknown)) = capture_further c (further s)
  capture_position c parent outer further (some (s, known idx)) =
      capture (local idx) c (record parent { scope = s } ∷ outer)
  capture_position c parent outer further (some (s, recursive idx)) =
      capture (local idx) c (record parent { scope = s } ∷ outer)

  -- `resolve_upvalue` of an index, with the contexts from it on.
  unfoldable pub resolve_upvalue : Bytes → ℕ → List (LambdaCtx Code Span) → Resolution Code Span
  resolve_upvalue name zero contexts = some (contexts, none)
  resolve_upvalue name (suc ctx_idx) [] = none
  resolve_upvalue name (suc ctx_idx) (c ∷ []) = none
  resolve_upvalue name (suc ctx_idx) (c ∷ parent ∷ outer) =
      capture_position c parent outer
        (λ s. resolve_upvalue name ctx_idx (record parent { scope = s } ∷ outer))
        (resolve_local name parent.scope)

  abbrev mark_captures : Bool → LambdaCtx Code Span → LambdaCtx Code Span
  mark_captures true c = record c { captures_with_stack = true }
  mark_captures false c = c

  abbrev has_with_now : Bool → LambdaCtx Code Span → Bool
  has_with_now true c = true
  has_with_now false c = has_with c.scope

  -- The loop of `has_dynamic_ancestor`, over the contexts, the outermost first.
  unfoldable pub mark_dynamic :
      Bool → List (LambdaCtx Code Span) → List (LambdaCtx Code Span) × Bool
  mark_dynamic ancestor_has_with [] = ([], ancestor_has_with)
  mark_dynamic ancestor_has_with (c ∷ contexts) =
      let (marked, found) = mark_dynamic (has_with_now ancestor_has_with c) contexts in
      (mark_captures ancestor_has_with c ∷ marked, found)

  unfoldable pub has_dynamic_ancestor :
      List (LambdaCtx Code Span) → List (LambdaCtx Code Span) × Bool
  has_dynamic_ancestor contexts =
      let (marked, found) = mark_dynamic false (reverse contexts) in (reverse marked, found)
