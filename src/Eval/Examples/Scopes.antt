-- ===== src/Eval/Examples/Scopes.antt =====
-- The theorems on scopes and upvalues at concrete scopes and contexts.
use tvix.Prelude.{ℕ, ◌≡◌, refl, true, false, List, [], ◌∷◌, Option, none, some, codes, arith}
use tvix.Eval.Scope.{
  Local, phantom, Scope, no_scope, declared, new_local, declare_local, resolve_local, begin_scope,
  end_scope,
}
use tvix.Eval.Scope.Index.{positions, Indexes, declared-Indexes, phantom-Indexes}
use tvix.Eval.Scope.Resolve.{Resolves, resolve_local-Resolves}
use tvix.Eval.Scope.Ends.{EndOf, end_scope_lem}
use tvix.Eval.Scope.Nesting.{stay, declares, Run-restored}
use tvix.Eval.Scope.Nesting.Closing.{Fits, Restores}
use tvix.Eval.Upvalues.{LambdaCtx, resolve_upvalue}
use tvix.Eval.Upvalues.Tracing.{IsSound}
use tvix.Eval.Upvalues.Captures.{Captured, resolve_upvalue_lem}

abbrev bottom_slot : Local ℕ
bottom_slot = record {
  name = phantom;
  span = some 7;
  depth = 0;
  initialised = true;
  used = true;
  needs_finaliser = false;
  must_thunk = false;
}

-- One slot at the bottom of the stack.
abbrev bottom : Scope ℕ
bottom = record no_scope { locals = bottom_slot ∷ [] }

abbrev none_declared : List (Local ℕ)
none_declared = []

no_names : Indexes (λ _. none) none_declared
unfolding positions
no_names n = refl

bottom-Indexes : Indexes bottom.by_name bottom.locals
bottom-Indexes = phantom-Indexes (λ _. none) [] bottom_slot refl no_names

-- A scope in it with two locals of one name.
abbrev opened : Scope ℕ
opened = record bottom { scope_depth = 1 }

abbrev shadowing : Scope ℕ
shadowing = declared (codes "x") 21 (declared (codes "x") 14 opened)

shadowing-Indexes : Indexes shadowing.by_name shadowing.locals
shadowing-Indexes =
    declared-Indexes (declared (codes "x") 14 opened).by_name
      (declared (codes "x") 14 opened).locals (new_local (codes "x") 21 1) (codes "x") refl
      (declared-Indexes bottom.by_name bottom.locals (new_local (codes "x") 14 1) (codes "x") refl
        bottom-Indexes)

resolve_local-Resolves_example :
    Resolves (codes "x") shadowing (resolve_local (codes "x") shadowing)
resolve_local-Resolves_example = resolve_local-Resolves (codes "x") shadowing shadowing-Indexes

end_scope_lem_example : EndOf shadowing
end_scope_lem_example = end_scope_lem shadowing shadowing-Indexes

bottom-Fits : Fits bottom
bottom-Fits = record { indexed = bottom-Indexes; shallow = (omega arith, tt); occupied = λ e. cc }

first_declared :
    declare_local (codes "x") 14 (begin_scope bottom)
    ≡ some (declared (codes "x") 14 opened, 1, none)
unfolding declare_local begin_scope
first_declared = refl

Run-restored_example :
    (u : Scope ℕ) × (pops : ℕ) × (spans : List ℕ) × (end_scope (declared (codes "x") 14 opened)
      ≡ some (u, pops, spans))
    × Restores bottom u
    × Fits u
Run-restored_example =
    Run-restored bottom (declared (codes "x") 14 opened) bottom-Fits
      (declares (codes "x") 14 (stay refl) first_declared)

-- Three functions in one another; the outermost has the local.
abbrev around : LambdaCtx (Unit {0}) ℕ
around = record {
  lambda = record { code = tt; upvalue_count = 0 };
  scope = shadowing;
  captures_with_stack = false;
}

abbrev within : LambdaCtx (Unit {0}) ℕ
within = record around { scope = no_scope }

within-IsSound : IsSound within
within-IsSound = record { counted = refl; indexed = no_names }

around-IsSound : IsSound around
around-IsSound = record { counted = refl; indexed = shadowing-Indexes }

abbrev functions : List (LambdaCtx (Unit {0}) ℕ)
functions = within ∷ around ∷ []

resolve_upvalue_lem_example :
    (after : List (LambdaCtx (Unit {0}) ℕ)) × (result : Option ℕ) × (resolve_upvalue
        (codes "x")
        2
        (within ∷ functions)
      ≡ some (after, result))
    × Captured (codes "x") (within ∷ functions) functions after result
resolve_upvalue_lem_example =
    resolve_upvalue_lem (codes "x") 2 within functions refl
      (within-IsSound, (within-IsSound, (around-IsSound, tt)))
