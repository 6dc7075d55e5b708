-- ===== src/Eval/Scope/Index.antt =====
-- The index by name of eval/src/compiler/scope.rs, against the list of the locals.
use mathlib.Core.List.{map-append}
use tvix.Prelude.{
  ℕ, suc, ◌+◌, ◌≡◌, refl, ap, sym, ◌∙◌, Bool, true, false, List, [], ◌∷◌, ◌++◌, map, Option, none,
  some, Bytes, bytes_eq, bytes_eq→eq, bytes_eq_refl, if◌then◌else◌, length, arith, Bool-cases, inl,
  inr, append-nil, append_assoc,
}
use tvix.Eval.Chunk.{last}
use tvix.Eval.Scope.{
  LocalName, ident, phantom, Local, ByName, single, shadowed, add_idx, remove_idx, index, pop,
  Names, with_entry, drop_entry, unindex, extend_entry, index_of_entry, found,
}

-- Does a local have a name?
abbrev pub named : Bytes → LocalName → Bool
named n (ident m) = bytes_eq n m
named n phantom = false

abbrev one_if : Bool → ℕ → List ℕ
one_if b i = if b then i ∷ [] else []

-- The indices of the locals of a name, in the order of their declaration.
unfoldable pub positions : Bytes → ℕ → List LocalName → List ℕ
positions n i [] = []
positions n i (x ∷ xs) = one_if (named n x) i ++ positions n (suc i) xs

abbrev pub next_latest : Option ℕ → Bool → Option ℕ
next_latest (some i) b = some (suc i)
next_latest none b = if b then some 0 else none

-- The last local of a name: a scan of the list, with no index.
unfoldable pub latest : Bytes → List LocalName → Option ℕ
latest n [] = none
latest n (x ∷ xs) = next_latest (latest n xs) (named n x)

-- The entry that the index has for the indices of a name.
abbrev pub entry_of : List ℕ → Option ByName
entry_of [] = none
entry_of (i ∷ []) = some (single i)
entry_of (i ∷ j ∷ rest) = some (shadowed (i ∷ j ∷ rest))

abbrev pub names_of : {Span : Type 0} → List (Local Span) → List LocalName
names_of = map (λ l. l.name)

-- The index has exactly the indices of the locals of each name, in order.
abbrev pub Indexes : {Span : Type 0} → Names → List (Local Span) → Type 0
Indexes by_name locals = (n : Bytes) → by_name n ≡ entry_of (positions n 0 (names_of locals))

positions-append :
    (n : Bytes) (i k : ℕ) (xs ys : List LocalName)
    → k ≡ i + length xs
    → positions n i (xs ++ ys) ≡ positions n i xs ++ positions n k ys
unfolding positions
positions-append n i k [] ys e = ap (λ j. positions n j ys) (omega (arith, e))
positions-append n i k (x ∷ xs) ys e =
    ap (λ t. one_if (named n x) i ++ t) (positions-append n (suc i) k xs ys (omega (arith, e)))
    ∙ sym (append_assoc (one_if (named n x) i) (positions n (suc i) xs) (positions n k ys))

pub positions-snoc :
    (n : Bytes) (xs : List LocalName) (x : LocalName)
    → positions n 0 (xs ++ x ∷ []) ≡ positions n 0 xs ++ one_if (named n x) (length xs)
unfolding positions
positions-snoc n xs x =
    positions-append n 0 (length xs) xs (x ∷ []) (omega arith)
    ∙ ap (λ t. positions n 0 xs ++ t) (append-nil (one_if (named n x) (length xs)))

abbrev or_else : Option ℕ → Option ℕ → Option ℕ
or_else none d = d
or_else (some a) d = some a

pub last-some : (a : ℕ) (is : List ℕ) → (k : ℕ) × (last (a ∷ is) ≡ some k)
unfolding last
last-some a [] = (a, refl)
last-some a (b ∷ is) = last-some b is

-- The last of a list that is not empty is there whatever stands in front.
or_else-last : (y : ℕ) (ys : List ℕ) (d : Option ℕ) → last (y ∷ ys) ≡ or_else (last (y ∷ ys)) d
or_else-last y ys d = let (k, e) = last-some y ys in rw e refl

last-append : (xs ys : List ℕ) → last (xs ++ ys) ≡ or_else (last ys) (last xs)
unfolding last
last-append [] [] = refl
last-append [] (y ∷ ys) = or_else-last y ys none
last-append (x ∷ []) [] = refl
last-append (x ∷ []) (y ∷ ys) = or_else-last y ys (some x)
last-append (x ∷ w ∷ xs) ys = last-append (w ∷ xs) ys

abbrev shift : ℕ → Option ℕ → Option ℕ
shift i none = none
shift i (some k) = some (i + k)

first-or_else :
    (i : ℕ) (later : Option ℕ) (b : Bool)
    → or_else (shift (suc i) later) (last (one_if b i)) ≡ shift i (next_latest later b)
unfolding last
first-or_else i none true = ground arith
first-or_else i none false = refl
first-or_else i (some k) b = ground arith

last-positions :
    (n : Bytes) (i : ℕ) (xs : List LocalName) → last (positions n i xs) ≡ shift i (latest n xs)
unfolding positions latest last
last-positions n i [] = refl
last-positions n i (x ∷ xs) =
    last-append (one_if (named n x) i) (positions n (suc i) xs)
    ∙ ap (λ t. or_else t (last (one_if (named n x) i))) (last-positions n (suc i) xs)
    ∙ first-or_else i (latest n xs) (named n x)

shift-zero : (o : Option ℕ) → shift 0 o ≡ o
shift-zero none = refl
shift-zero (some k) = ground arith

pub last-positions-latest :
    (n : Bytes) (xs : List LocalName) → last (positions n 0 xs) ≡ latest n xs
last-positions-latest n xs = last-positions n 0 xs ∙ shift-zero (latest n xs)

pub extend-entry_of :
    (is : List ℕ) (i : ℕ) → some (extend_entry (entry_of is) i) ≡ entry_of (is ++ i ∷ [])
unfolding add_idx
extend-entry_of [] i = refl
extend-entry_of (a ∷ []) i = refl
extend-entry_of (a ∷ b ∷ is) i = refl

pop-snoc : (is : List ℕ) (i : ℕ) → pop (is ++ i ∷ []) ≡ is
pop-snoc [] i = refl
pop-snoc (a ∷ []) i = refl
pop-snoc (a ∷ b ∷ is) i = ap (λ t. a ∷ t) (pop-snoc (b ∷ is) i)

pub drop-entry_of : (is : List ℕ) (i : ℕ) → drop_entry (entry_of (is ++ i ∷ [])) ≡ entry_of is
unfolding remove_idx
drop-entry_of [] i = refl
drop-entry_of (a ∷ []) i = refl
drop-entry_of (a ∷ b ∷ []) i = refl
drop-entry_of (a ∷ b ∷ c ∷ is) i = ap (λ t. some (shadowed (a ∷ b ∷ t))) (pop-snoc (c ∷ is) i)

pub index-entry_of : (is : List ℕ) → index_of_entry (entry_of is) ≡ some (last is)
unfolding index last
index-entry_of [] = refl
index-entry_of (a ∷ []) = refl
index-entry_of (a ∷ b ∷ is) = let (k, e) = last-some b is in rw (e, found) refl

module _ {Span : Type 0} where
  length-names : (locals : List (Local Span)) → length (names_of locals) ≡ length locals
  length-names [] = refl
  length-names (l ∷ locals) = ap suc (length-names locals)

  -- One more local has its index at the end of those of its name.
  positions-local :
      (n : Bytes) (locals : List (Local Span)) (l : Local Span)
      → positions n 0 (names_of (locals ++ l ∷ []))
        ≡ positions n 0 (names_of locals) ++ one_if (named n l.name) (length locals)
  positions-local n locals l =
      ap (positions n 0) (map-append (λ (x : Local Span). x.name) locals (l ∷ []))
      ∙ positions-snoc n (names_of locals) l.name
      ∙ ap (λ t. positions n 0 (names_of locals) ++ one_if (named n l.name) t) (length-names locals)

  -- Another local of a name: its index goes to the end of the entry.
  pub declared-Indexes :
      (names : Names) (locals : List (Local Span)) (l : Local Span) (name : Bytes)
      → l.name ≡ ident name
      → Indexes names locals
      → Indexes
          (with_entry names name (some (extend_entry (names name) (length locals))))
          (locals ++ l ∷ [])
  declared-Indexes names locals l name e h n = elim (Bool-cases (bytes_eq n name)) [
    | inl same ↦
        rw (positions-local n locals l, e, same)
          (rw (bytes_eq→eq n name same, h name)
            (extend-entry_of (positions name 0 (names_of locals)) (length locals)))
    | inr other ↦
        rw (positions-local n locals l, e, other)
          (h n ∙ ap entry_of (sym (append-nil (positions n 0 (names_of locals)))))
  ]

  -- A local without a name leaves the index as it is.
  pub phantom-Indexes :
      (names : Names) (locals : List (Local Span)) (l : Local Span)
      → l.name ≡ phantom
      → Indexes names locals
      → Indexes names (locals ++ l ∷ [])
  phantom-Indexes names locals l e h n =
      rw (positions-local n locals l, e)
        (h n ∙ ap entry_of (sym (append-nil (positions n 0 (names_of locals)))))

  unindex-name :
      (names : Names) (locals : List (Local Span)) (name : LocalName)
      → ((n : Bytes)
          → names n
            ≡ entry_of (positions n 0 (names_of locals) ++ one_if (named n name) (length locals)))
      → Indexes (unindex name names) locals
  unindex-name names locals phantom h n =
      h n ∙ ap entry_of (append-nil (positions n 0 (names_of locals)))
  unindex-name names locals (ident name) h n = elim (Bool-cases (bytes_eq n name)) [
    | inl same ↦ rw same (
        rw (bytes_eq→eq n name same) (
          ap drop_entry (h name)
          ∙ rw (bytes_eq_refl name)
              (drop-entry_of (positions name 0 (names_of locals)) (length locals))))
    | inr other ↦ rw other (
        h n
        ∙ ap (λ b. entry_of (positions n 0 (names_of locals) ++ one_if b (length locals))) other
        ∙ ap entry_of (append-nil (positions n 0 (names_of locals))))
  ]

  -- Removing the last local removes the last index of its name.
  pub unindex-Indexes :
      (names : Names) (locals : List (Local Span)) (l : Local Span)
      → Indexes names (locals ++ l ∷ [])
      → Indexes (unindex l.name names) locals
  unindex-Indexes names locals l h =
      unindex-name names locals l.name (λ n. h n ∙ ap entry_of (positions-local n locals l))
