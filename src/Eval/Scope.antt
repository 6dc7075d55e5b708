-- ===== src/Eval/Scope.antt =====
-- eval/src/compiler/scope.rs: the locals that the compiler tracks, and their index by name. Names are the
-- bytes of their UTF-8; the spans are those of the codemap crate, any type. An operation that panics
-- gives none.
pub mod Index
pub mod Resolve
pub mod Ends
pub mod Nesting
use tvix.Prelude.{
  ℕ, zero, suc, ◌+◌, ◌-◌, Bool, true, false, not, ◌&&◌, ◌||◌, List, [], ◌∷◌, ◌++◌, Option, none,
  some, Bytes, bytes_eq, ◌==◌, ltb, if◌then◌else◌, length, get_elem?, set, take, reverse,
}
use tvix.Eval.Chunk.{last}

pub data LocalName : Type 0 where
  ident : Bytes → LocalName
  phantom : LocalName

pub record Local (Span : Type 0) : Type 0 where
  pub name : LocalName
  pub span : Option Span
  pub depth : ℕ
  pub initialised : Bool
  pub used : Bool
  pub needs_finaliser : Bool
  pub must_thunk : Bool

-- `name.starts_with('_')`.
abbrev starts_with_underscore : Bytes → Bool
starts_with_underscore [] = false
starts_with_underscore (b ∷ bs) = b == b'_'

abbrev ignored_name : LocalName → Bool
ignored_name (ident n) = starts_with_underscore n
ignored_name phantom = false

pub data LocalPosition : Type 0 where
  unknown : LocalPosition
  known : ℕ → LocalPosition
  recursive : ℕ → LocalPosition

pub data UpvalueKind : Type 0 where
  local : ℕ → UpvalueKind
  upvalue : ℕ → UpvalueKind

pub data ByName : Type 0 where
  single : ℕ → ByName
  shadowed : List ℕ → ByName

-- `add_idx`.
pub add_idx : ByName → ℕ → ByName
add_idx (shadowed indices) new = shadowed (indices ++ new ∷ [])
add_idx (single idx) new = shadowed (idx ∷ new ∷ [])

-- `Vec::pop`, of the rest.
abbrev pub pop {ℓ} : {A : Type ℓ} → List A → List A
pop [] = []
pop (x ∷ []) = []
pop (x ∷ y ∷ xs) = x ∷ pop (y ∷ xs)

abbrev remove_last : List ℕ → ByName
remove_last (fst ∷ snd ∷ []) = single fst
remove_last indices = shadowed (pop indices)

-- `remove_idx`: the entry that is left, or none where there is nothing to remove.
pub remove_idx : ByName → Option ByName
remove_idx (single idx) = none
remove_idx (shadowed indices) = some (remove_last indices)

-- `index`.
pub index : ByName → Option ℕ
index (single idx) = some idx
index (shadowed indices) = last indices

abbrev pub Names : Type 0
Names = Bytes → Option ByName

-- The map with another entry at a name.
abbrev pub with_entry : Names → Bytes → Option ByName → Names
with_entry names name entry other = if bytes_eq other name then entry else names other

pub record Scope (Span : Type 0) : Type 0 where
  pub locals : List (Local Span)
  pub upvalues : List UpvalueKind
  pub by_name : Names
  pub scope_depth : ℕ
  pub with_stack_size : ℕ

-- The entry of a name that loses its last index: no entry where `remove_idx` removes none.
abbrev drop_entry : Option ByName → Option ByName
drop_entry none = none
drop_entry (some entry) = remove_idx entry

-- What the end of a scope does to the index for a local.
abbrev pub unindex : LocalName → Names → Names
unindex phantom names = names
unindex (ident n) names = with_entry names n (drop_entry (names n))

-- The entry of a name that gets another index.
abbrev extend_entry : Option ByName → ℕ → ByName
extend_entry none idx = single idx
extend_entry (some entry) idx = add_idx entry idx

abbrev found : Option ℕ → Option (Option ℕ)
found none = none
found (some idx) = some (some idx)

abbrev index_of_entry : Option ByName → Option (Option ℕ)
index_of_entry none = some none
index_of_entry (some entry) = found (index entry)

-- What the loop of `end_scope` works on: the locals, the last first, their index, and its results.
pub record Ending (Span : Type 0) : Type 0 where
  pub newest : List (Local Span)
  pub names : Names
  pub pops : ℕ
  pub unused_spans : List Span

module _ {Span : Type 0} where
  pub is_ignored : Local Span → Bool
  is_ignored l = ignored_name l.name

  pub is_used : Local Span → Bool
  is_used l = l.depth == 0 || l.used || is_ignored l

  -- `Scope::default`.
  abbrev pub no_scope : Scope Span
  no_scope = record {
    locals = [];
    upvalues = [];
    by_name = λ _. none;
    scope_depth = 0;
    with_stack_size = 0;
  }

  unfoldable pub inherit : Scope Span → Scope Span
  inherit s = record {
    locals = [];
    upvalues = [];
    by_name = λ _. none;
    scope_depth = s.scope_depth + 1;
    with_stack_size = s.with_stack_size;
  }

  unfoldable pub push_with : Scope Span → Scope Span
  push_with s = record s { with_stack_size = s.with_stack_size + 1 }

  -- `pop_with`, whose subtraction must not overflow.
  unfoldable pub pop_with : Scope Span → Option (Scope Span)
  pop_with s =
      if s.with_stack_size == 0
      then none
      else some (record s { with_stack_size = s.with_stack_size - 1 })

  pub has_with : Scope Span → Bool
  has_with s = ltb 0 s.with_stack_size

  -- `self.locals[idx] = …` of a local that is there.
  abbrev pub with_local : Scope Span → ℕ → Local Span → Scope Span
  with_local s idx l = record s { locals = set s.locals idx l }

  abbrev pub position_of : Local Span → ℕ → LocalPosition
  position_of l idx = if not l.initialised then recursive idx else known idx

  abbrev use_local : Scope Span → ℕ → Option (Local Span) → Option (Scope Span × LocalPosition)
  use_local s idx none = none
  use_local s idx (some l) = some (with_local s idx (record l { used = true }), position_of l idx)

  abbrev use_index : Scope Span → Option ℕ → Option (Scope Span × LocalPosition)
  use_index s none = none
  use_index s (some idx) = use_local s idx (get_elem? s.locals idx)

  abbrev use_entry : Scope Span → Option ByName → Option (Scope Span × LocalPosition)
  use_entry s none = some (s, unknown)
  use_entry s (some entry) = use_index s (index entry)

  unfoldable pub resolve_local : Bytes → Scope Span → Option (Scope Span × LocalPosition)
  resolve_local name s = use_entry s (s.by_name name)

  unfoldable pub declare_phantom : Span → Bool → Scope Span → ℕ × Scope Span
  declare_phantom span initialised s = (length s.locals, record s { locals = s.locals ++ new ∷ [] })
    where
      new : Local Span
      new = record {
        name = phantom;
        span = some span;
        depth = s.scope_depth;
        initialised = initialised;
        used = true;
        needs_finaliser = false;
        must_thunk = false;
      }

  -- A local as `declare_local` makes it.
  abbrev pub new_local : Bytes → Span → ℕ → Local Span
  new_local name span depth = record {
    name = ident name;
    span = some span;
    depth = depth;
    initialised = false;
    used = false;
    needs_finaliser = false;
    must_thunk = false;
  }

  abbrev pub declared : Bytes → Span → Scope Span → Scope Span
  declared name span s = record s {
    locals = s.locals ++ new_local name span s.scope_depth ∷ [];
    by_name = with_entry s.by_name name (some (extend_entry (s.by_name name) (length s.locals)));
  }

  abbrev give_declared :
      Bytes → Span → Scope Span → Option (Option ℕ) → Option (Scope Span × ℕ × Option ℕ)
  give_declared name span s none = none
  give_declared name span s (some shadows) = some (declared name span s, length s.locals, shadows)

  -- `declare_local`: the scope, the index of the local, and that of the one it shadows.
  unfoldable pub declare_local : Bytes → Span → Scope Span → Option (Scope Span × ℕ × Option ℕ)
  declare_local name span s = give_declared name span s (index_of_entry (s.by_name name))

  unfoldable pub declare_constant : Bytes → Scope Span → ℕ × Scope Span
  declare_constant name s = (
    length s.locals,
    record s {
      locals = s.locals ++ new ∷ [];
      by_name = with_entry s.by_name name (some (single (length s.locals)));
    },
  )
    where
      new : Local Span
      new = record {
        name = ident name;
        span = none;
        depth = 0;
        initialised = true;
        used = false;
        needs_finaliser = false;
        must_thunk = false;
      }

  abbrev marked :
      (Local Span → Local Span) → ℕ → Scope Span → Option (Local Span) → Option (Scope Span)
  marked change idx s none = none
  marked change idx s (some l) = some (with_local s idx (change l))

  -- A write to a field of `self.locals[idx]`, which panics where there is no such local.
  abbrev pub mark : (Local Span → Local Span) → ℕ → Scope Span → Option (Scope Span)
  mark change idx s = marked change idx s (get_elem? s.locals idx)

  unfoldable pub mark_initialised : ℕ → Scope Span → Option (Scope Span)
  mark_initialised = mark (λ l. record l { initialised = true })

  unfoldable pub mark_needs_finaliser : ℕ → Scope Span → Option (Scope Span)
  mark_needs_finaliser = mark (λ l. record l { needs_finaliser = true })

  unfoldable pub mark_must_thunk : ℕ → Scope Span → Option (Scope Span)
  mark_must_thunk = mark (λ l. record l { must_thunk = true })

  -- The locals that are not on the stack yet, of scopes outside that of a depth.
  pub uninitialised_count : ℕ → List (Local Span) → ℕ
  uninitialised_count depth [] = 0
  uninitialised_count depth (l ∷ locals) =
      (if not l.initialised && ltb l.depth depth then 1 else 0) + uninitialised_count depth locals

  -- `stack_index` of a local that the scope has.
  unfoldable pub stack_index : ℕ → Scope Span → Option ℕ
  stack_index idx s = elim (get_elem? s.locals idx) [
    | none ↦ none
    | some l ↦ some (idx - uninitialised_count l.depth (take idx s.locals))
  ]

  unfoldable pub begin_scope : Scope Span → Scope Span
  begin_scope s = record s { scope_depth = s.scope_depth + 1 }

  abbrev span_of : Option Span → List Span
  span_of none = []
  span_of (some span) = span ∷ []

  -- The spans that a local adds to the result of `end_scope`.
  abbrev pub reported : Local Span → List Span
  reported l = if is_used l then span_of l.span else []

  -- The loop, which panics where it takes the last local.
  unfoldable pub end_locals : ℕ → List (Local Span) → Names → ℕ → List Span → Option (Ending Span)
  end_locals depth [] names pops unused_spans = none
  end_locals depth (l ∷ older) names pops unused_spans =
      let rest =
        end_locals depth older (unindex l.name names) (pops + (if l.initialised then 1 else 0))
          (unused_spans ++ reported l) in
      if l.depth == depth
      then rest
      else some
          (record { newest = l ∷ older; names = names; pops = pops; unused_spans = unused_spans })

  abbrev pub ended : Scope Span → Option (Ending Span) → Option (Scope Span × ℕ × List Span)
  ended s none = none
  ended s (some e) = some (
    record s { locals = reverse e.newest; by_name = e.names; scope_depth = s.scope_depth - 1 },
    e.pops,
    e.unused_spans,
  )

  -- `end_scope`, with its debug assertion.
  unfoldable pub end_scope : Scope Span → Option (Scope Span × ℕ × List Span)
  end_scope s =
      if s.scope_depth == 0
      then none
      else ended s (end_locals s.scope_depth (reverse s.locals) s.by_name 0 [])
