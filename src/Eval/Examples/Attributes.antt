-- ===== src/Eval/Examples/Attributes.antt =====
-- The theorems on attribute sets at concrete sets and slices.
use tvix.Prelude.{ℕ, refl, List, [], ◌∷◌, codes, arith, reverse, inl}
use tvix.Eval.Attrs.{Attrs, map, kv, Value, text, other, update, construct}
use tvix.Eval.Attrs.Map.{Entries}
use tvix.Eval.Attrs.Updates.{entries, Well, Merges, update-Merges}
use tvix.Eval.Attrs.Construction.{Constructed, construct-Constructed}
use tvix.Eval.Attrs.Construction.Explained.{attributes}

-- `{ a = 1; name = 2; }` and `{ name = 3; value = 4; }`.
abbrev named : Entries ℕ
named = (codes "a", 1) ∷ (codes "name", 2) ∷ []

abbrev pair : Attrs ℕ
pair = kv 3 4

named-Well : Well (map named)
unfolding entries
named-Well = ((inl (omega arith), tt), (tt, tt))

pair-Well : Well pair
unfolding entries
pair-Well = ((inl (omega arith), tt), (tt, tt))

update-Merges_example : Merges pair (map named) (update pair (map named))
update-Merges_example = update-Merges pair (map named) pair-Well named-Well

abbrev Number : Type 0
Number = Value (Unit {0}) ℕ

-- The keys and values of `{ value = 5; name = "foo"; }` on the stack.
abbrev slice : List Number
slice = text (codes "value") ∷ other 5 ∷ text (codes "name") ∷ text (codes "foo") ∷ []

construct-Constructed_example : Constructed (attributes 2 (reverse slice)) (construct 2 slice)
construct-Constructed_example = construct-Constructed 2 slice refl
