-- ===== src/Castore/Examples/Paths.antt =====
-- Paths of castore/src/path at concrete inputs, with a concrete pair of byte-string searches.
use tvix.Prelude.{
  ℕ, ◌≡◌, refl, true, List, [], ◌∷◌, ◌++◌, Option, none, some, arith, Bytes, codes, ◌==◌,
  if◌then◌else◌, Lacks, ok, err, ◌⊎◌, inl, inr, ◌↔◌, Option-cases,
}
use tvix.Castore.Component.{IsName, validate_name, validate_name_iff}
use tvix.Castore.Path.{
  Bstr, CastorePath, root, from_bytes, parent, components_bytes, try_push, file_name_bytes,
  from_host_path, normal, parent_dir, cur_dir, invalid_data, host_loop, host_step,
}
use tvix.Castore.Path.Join.{join, split, split-ne-nil, split-Lacks, join-split}
use tvix.Castore.Path.Components.{Spells, from_bytes_iff, try_push_lem}
use tvix.Castore.Path.HostPath.{Resolves, from_host_path_iff}

-- The last separator: the text before it and the text after it.
rsplit : Bytes → ℕ → Option (Bytes × Bytes)
rsplit [] sep = none
rsplit (c ∷ s) sep = elim (rsplit s sep) [
  | some (a, b) ↦ some (c ∷ a, b)
  | none ↦ if c == sep then some ([], s) else none
]

rsplit-none : (s : Bytes) (sep : ℕ) → rsplit s sep ≡ none → Lacks sep s
unfolding rsplit
rsplit-none [] sep h = tt
rsplit-none (c ∷ s) sep h = ground (arith, rsplit-none s sep)

rsplit-some :
    (s : Bytes) (sep : ℕ) (before after : Bytes)
    → rsplit s sep ≡ some (before, after)
    → (s ≡ before ++ sep ∷ after) × Lacks sep after
unfolding rsplit
rsplit-some [] sep before after h = cc
rsplit-some (c ∷ s) sep before after h = elim (Option-cases (rsplit s sep)) [
  | inl e ↦ let before_nil = rsplit-none s sep e in ground arith
  | inr ((a, b), e) ↦ let (whole, clean) = rsplit-some s sep a b e in ground arith
]

abbrev searches : Bstr
searches = record {
  split_str = split;
  rsplit_once_str = rsplit;
  split_str-ne-nil = λ s sep. split-ne-nil sep s;
  split_str-Lacks = λ s sep. split-Lacks sep s;
  join-split_str = λ s sep. join-split sep s;
  rsplit_once_str-none = rsplit-none;
  rsplit_once_str-some = rsplit-some;
}

letter_a-IsName : IsName (codes "a")
letter_a-IsName = record {
  not_empty = λ e. cc;
  not_cur_dir = ground arith;
  not_parent = ground arith;
  short = omega arith;
  no_null = omega arith;
  no_slash = omega arith;
}

a_b : CastorePath
a_b = record { inner = codes "a/a" }

a_b-Spells : Spells a_b (codes "a" ∷ codes "a" ∷ [])
unfolding a_b join
a_b-Spells = record { names = (letter_a-IsName, (letter_a-IsName, tt)); joined = refl }

validate_name_iff_example : (validate_name (codes "a") ≡ ok tt) ↔ IsName (codes "a")
validate_name_iff_example = validate_name_iff (codes "a")

from_bytes_iff_example :
    (from_bytes searches (codes "a/a") ≡ some a_b)
    ↔ ((a_b.inner ≡ codes "a/a") × Spells a_b (components_bytes searches a_b))
from_bytes_iff_example = from_bytes_iff searches (codes "a/a") a_b

try_push_lem_example :
    (IsName (codes "a")
      × (q : CastorePath) × (try_push a_b (codes "a") ≡ ok q)
      × Spells q ((codes "a" ∷ codes "a" ∷ []) ++ codes "a" ∷ [])
      × (parent searches q ≡ some a_b)
      × (file_name_bytes searches q ≡ some (codes "a")))
    ⊎ ((¬ IsName (codes "a")) × (try_push a_b (codes "a") ≡ err (invalid_data none)))
try_push_lem_example = try_push_lem searches a_b (codes "a" ∷ codes "a" ∷ []) (codes "a") a_b-Spells

from_host_path_iff_example :
    (from_host_path searches (cur_dir ∷ normal (codes "a") ∷ parent_dir ∷ []) true ≡ ok root) ↔ (
      (r : List Bytes) × Resolves true r [] (cur_dir ∷ normal (codes "a") ∷ parent_dir ∷ [])
      × Spells root r)
from_host_path_iff_example =
    from_host_path_iff searches true (cur_dir ∷ normal (codes "a") ∷ parent_dir ∷ []) root

-- `./a/..` is the root where `..` may be resolved.
dotdot_canonicalize :
    from_host_path searches (cur_dir ∷ normal (codes "a") ∷ parent_dir ∷ []) true ≡ ok root
unfolding from_host_path host_loop host_step try_push parent rsplit validate_name
dotdot_canonicalize = refl
