-- ===== src/Eval/Scope/Resolve.antt =====
-- Looking a name up and declaring one in eval/src/compiler/scope.rs, where the index fits the locals.
use tvix.Prelude.{
  ℕ, zero, suc, ◌≤◌, ◌<◌, ◌≡◌, ◌≢◌, refl, ap, subst, ◌∙◌, Bool, true, false, List, [], ◌∷◌, map,
  Option, none, some, Bytes, bytes_eq→eq, bytes_eq_refl, if◌then◌else◌, length, get_elem?, arith,
  ◌⊎◌, inl, inr,
}
use tvix.Eval.Chunk.{last}
use tvix.Eval.Scope.{
  LocalName, ident, phantom, Local, LocalPosition, unknown, known, recursive, index, with_local,
  Scope, resolve_local, declare_local, declared, index_of_entry, use_entry, use_local, position_of,
  give_declared,
}
use tvix.Eval.Scope.Index.{
  named, positions, latest, next_latest, entry_of, names_of, Indexes, last-some,
  last-positions-latest, index-entry_of,
}

named→ident : (n : Bytes) (x : LocalName) → named n x ≡ true → x ≡ ident n
named→ident n (ident m) h = rw (bytes_eq→eq n m h) refl
named→ident n phantom h = cc

ident→named : (n : Bytes) (x : LocalName) → x ≡ ident n → named n x ≡ true
ident→named n x e = rw e (bytes_eq_refl n)

module _ {ℓ κ} {A : Type ℓ} {B : Type κ} (f : A → B) where
  get-map :
      (xs : List A) (j : ℕ) (x : A) → get_elem? xs j ≡ some x → get_elem? (map f xs) j ≡ some (f x)
  get-map [] j x h = cc
  get-map (y ∷ xs) zero x h = cc
  get-map (y ∷ xs) (suc j) x h = get-map xs j x h

  get_of-map :
      (xs : List A) (j : ℕ) (y : B)
      → get_elem? (map f xs) j ≡ some y
      → (x : A) × (get_elem? xs j ≡ some x) × (f x ≡ y)
  get_of-map [] j y h = cc
  get_of-map (x ∷ xs) zero y h = (x, refl, cc)
  get_of-map (x ∷ xs) (suc j) y h = get_of-map xs j y h

-- No local from an index on has the name.
abbrev NoneFrom : Bytes → ℕ → List LocalName → Type 0
NoneFrom n i xs = (j : ℕ) (x : LocalName) → i ≤ j → get_elem? xs j ≡ some x → x ≢ ident n

NoneFrom-cons :
    (n : Bytes) (i : ℕ) (x : LocalName) (xs : List LocalName)
    → NoneFrom n i xs
    → NoneFrom n (suc i) (x ∷ xs)
NoneFrom-cons n i x xs h = λ j y le e. later j y le e
  where
    later : (j : ℕ) (y : LocalName) → suc i ≤ j → get_elem? (x ∷ xs) j ≡ some y → y ≢ ident n
    later zero y le e = absurd (omega arith)
    later (suc j) y le e = h j y (omega arith) e

NoneFrom-all :
    (n : Bytes) (x : LocalName) (xs : List LocalName)
    → named n x ≡ false
    → NoneFrom n 0 xs
    → NoneFrom n 0 (x ∷ xs)
NoneFrom-all n x xs isnt h = λ j y le e. all j y e
  where
    all : (j : ℕ) (y : LocalName) → get_elem? (x ∷ xs) j ≡ some y → y ≢ ident n
    all zero y e = λ is. let t = ident→named n y is in cc
    all (suc j) y e = h j y (omega arith) e

-- What the scan finds.
abbrev Found : Bytes → List LocalName → Option ℕ → Type 0
Found n xs none = NoneFrom n 0 xs
Found n xs (some i) = (get_elem? xs i ≡ some (ident n)) × NoneFrom n (suc i) xs

Found-cons :
    (n : Bytes) (x : LocalName) (xs : List LocalName) (later : Option ℕ) (b : Bool)
    → named n x ≡ b
    → Found n xs later
    → Found n (x ∷ xs) (next_latest later b)
Found-cons n x xs (some i) b e (here, after) = (here, NoneFrom-cons n (suc i) x xs after)
Found-cons n x xs none true e h = (ap some (named→ident n x e), NoneFrom-cons n 0 x xs h)
Found-cons n x xs none false e h = NoneFrom-all n x xs e h

latest-Found : (n : Bytes) (xs : List LocalName) → Found n xs (latest n xs)
unfolding latest
latest-Found n [] = λ j x le e. cc
latest-Found n (x ∷ xs) = Found-cons n x xs (latest n xs) (named n x) refl (latest-Found n xs)

module _ {Span : Type 0} where
  -- The newest local of a name.
  pub record IsNewest (n : Bytes) (locals : List (Local Span)) (i : ℕ) (l : Local Span)
      : Type 0 where
    pub here : get_elem? locals i ≡ some l
    pub has_name : l.name ≡ ident n
    pub last_of_name :
        (j : ℕ) (m : Local Span) → i < j → get_elem? locals j ≡ some m → m.name ≢ ident n

  abbrev pub NotThere : Bytes → List (Local Span) → Type 0
  NotThere n locals = (j : ℕ) (m : Local Span) → get_elem? locals j ≡ some m → m.name ≢ ident n

  abbrev name_field : Local Span → LocalName
  name_field l = l.name

  Newest-of :
      (n : Bytes) (locals : List (Local Span)) (i : ℕ)
      → Found n (names_of locals) (some i)
      → (l : Local Span) × IsNewest n locals i l
  Newest-of n locals i (here, after) =
      let (l, is, name) = get_of-map name_field locals i (ident n) here in
      (
        l,
        record {
          here = is;
          has_name = name;
          last_of_name = λ j m lt e. after j m.name (omega arith) (get-map name_field locals j m e);
        },
      )

  -- What a lookup by the list of the locals gives.
  abbrev pub Resolves : Bytes → Scope Span → Option (Scope Span × LocalPosition) → Type 0
  Resolves n s result =
      (NotThere n s.locals × (result ≡ some (s, unknown)))
      ⊎ ((i : ℕ) × (l : Local Span) × IsNewest n s.locals i l
          × (result
              ≡ some (
                with_local s i (record l { used = true }),
                if l.initialised then known i else recursive i,
              )))

  -- The lookup of an index that a scan of the locals found.
  abbrev scanned : Scope Span → Option ℕ → Option (Scope Span × LocalPosition)
  scanned s none = some (s, unknown)
  scanned s (some i) = use_local s i (get_elem? s.locals i)

  use_entry-scanned :
      (s : Scope Span) (is : List ℕ) → use_entry s (entry_of is) ≡ scanned s (last is)
  unfolding index last
  use_entry-scanned s [] = refl
  use_entry-scanned s (a ∷ []) = refl
  use_entry-scanned s (a ∷ b ∷ is) = let (k, e) = last-some b is in rw e refl

  resolve-scanned :
      (n : Bytes) (s : Scope Span)
      → Indexes s.by_name s.locals
      → resolve_local n s ≡ scanned s (latest n (names_of s.locals))
  unfolding resolve_local
  resolve-scanned n s h =
      ap (use_entry s) (h n)
      ∙ use_entry-scanned s (positions n 0 (names_of s.locals))
      ∙ ap (scanned s) (last-positions-latest n (names_of s.locals))

  scanned-Resolves :
      (n : Bytes) (s : Scope Span) (o : Option ℕ)
      → Found n (names_of s.locals) o
      → Resolves n s (scanned s o)
  scanned-Resolves n s none h =
      inl (λ j m e. h j m.name (omega arith) (get-map name_field s.locals j m e), refl)
  scanned-Resolves n s (some i) h =
      let (l, newest) = Newest-of n s.locals i h in
      inr (i, l, newest, rw newest.here (ground arith))

  -- Where the index fits the locals, `resolve_local` does not panic. If no local has the name, it is
  -- unknown and nothing changes. Otherwise the newest local of the name is found: it is marked as used,
  -- nothing else changes, and the position is recursive exactly while it is not initialised.
  pub resolve_local-Resolves :
      (n : Bytes) (s : Scope Span) → Indexes s.by_name s.locals → Resolves n s (resolve_local n s)
  resolve_local-Resolves n s h =
      rw (resolve-scanned n s h)
        (scanned-Resolves n s (latest n (names_of s.locals)) (latest-Found n (names_of s.locals)))

  pub declare_local_lem :
      (name : Bytes) (span : Span) (s : Scope Span)
      → Indexes s.by_name s.locals
      → declare_local name span s
        ≡ some (declared name span s, length s.locals, latest name (names_of s.locals))
  unfolding declare_local
  declare_local_lem name span s h = ap (give_declared name span s) (
      ap index_of_entry (h name)
      ∙ index-entry_of (positions name 0 (names_of s.locals))
      ∙ ap some (last-positions-latest name (names_of s.locals)))

  -- The lookup of a name that no local has.
  pub resolve_missing :
      (n : Bytes) (s : Scope Span)
      → Indexes s.by_name s.locals
      → latest n (names_of s.locals) ≡ none
      → resolve_local n s ≡ some (s, unknown)
  resolve_missing n s h e = resolve-scanned n s h ∙ ap (scanned s) e

  -- The lookup of a name that a local has.
  pub resolve_found :
      (n : Bytes) (s : Scope Span) (i : ℕ)
      → Indexes s.by_name s.locals
      → latest n (names_of s.locals) ≡ some i
      → (l : Local Span) × (get_elem? s.locals i ≡ some l)
        × (resolve_local n s ≡ some (with_local s i (record l { used = true }), position_of l i))
  resolve_found n s i h e =
      let there : Found n (names_of s.locals) (some i) =
        subst (Found n (names_of s.locals)) e (latest-Found n (names_of s.locals)) in
      let (l, newest) = Newest-of n s.locals i there in
      (l, newest.here, resolve-scanned n s h ∙ ap (scanned s) e ∙ ap (use_local s i) newest.here)
