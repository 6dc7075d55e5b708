-- ===== src/Eval/Examples/Versions.antt =====
-- The theorem on version comparison at the parts of `2.3pre` and `2.10`, and the parts of a version.
use tvix.Prelude.{ℕ, suc, ◌≡◌, refl, List, [], ◌∷◌, ◌++◌, some, codes, Ordering, All}
use tvix.Eval.Versions.{
  VersionPart, word, number, parse_u64, parts_cmp, part_cmp, CharIndex, break_part, version_parts,
  parts_for_cmp,
}
use tvix.Eval.Versions.Comparison.{Fits64, PartsCompare, parts_cmp-flipped}

abbrev pre_release : List VersionPart
pre_release = number (codes "2") ∷ number (codes "3") ∷ word (codes "pre") ∷ []

abbrev newer : List VersionPart
newer = number (codes "2") ∷ number (codes "10") ∷ []

pre_release-Fits64 : All Fits64 pre_release
unfolding parse_u64
pre_release-Fits64 = ((2, refl), ((3, refl), (tt, tt)))

newer-Fits64 : All Fits64 newer
unfolding parse_u64
newer-Fits64 = ((2, refl), ((10, refl), tt))

parts_cmp-flipped_example : PartsCompare pre_release newer
parts_cmp-flipped_example = parts_cmp-flipped pre_release newer pre_release-Fits64 newer-Fits64

older : parts_cmp pre_release newer ≡ some Ordering.lt
unfolding parts_cmp part_cmp parse_u64
older = refl

abbrev at : ℕ → ℕ → CharIndex
at i c = record { start = i; end = suc i; char = c }

parts_of_version :
    parts_for_cmp (
      version_parts
        (codes "2.3pre")
        break_part
        (at 0 b'2' ∷ at 1 b'.' ∷ at 2 b'3' ∷ at 3 b'p' ∷ at 4 b'r' ∷ at 5 b'e' ∷ []))
    ≡ some (pre_release ++ word [] ∷ [])
unfolding version_parts
parts_of_version = refl
