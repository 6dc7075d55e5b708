-- ===== src/NixCompat/Nar/Buffers.antt =====
-- nix-compat/src/nar/wire/tag.rs: the size of the buffer of `make_buf`.
use tvix.Prelude.{ℕ, ◌-◌, ◌≤◌, ltb, List, [], ◌∷◌, All, All-map, if◌then◌else◌, arith}
use tvix.NixCompat.Nar.{max_from, max_of, min_of, buf_of}

abbrev larger : ℕ → ℕ → ℕ
larger y x = if ltb y x then x else y

larger_both : (y x : ℕ) → (y ≤ larger y x) × (x ≤ larger y x)
larger_both y x = (ground arith, ground arith)

max_from-start : (y : ℕ) (xs : List ℕ) → y ≤ max_from y xs
max_from-start y [] = omega arith
max_from-start y (x ∷ xs) =
    let (le, other) = larger_both y x in
    let rest = max_from-start (larger y x) xs in omega (arith, le, rest)

max_from-members : (y : ℕ) (xs : List ℕ) → All (λ x. x ≤ max_from y xs) xs
max_from-members y [] = tt
max_from-members y (x ∷ xs) =
    let (other, le) = larger_both y x in
    let rest = max_from-start (larger y x) xs in
    (omega (arith, le, rest), max_from-members (larger y x) xs)

-- Of the tokens of the lengths `xs`, the buffer holds what is read first, and of each what is read then.
buf_of-fits : (xs : List ℕ) → (min_of xs ≤ buf_of xs) × All (λ x. x - min_of xs ≤ buf_of xs) xs
buf_of-fits xs =
    let (short, (rest, none_else)) =
      max_from-members 0 (min_of xs ∷ (max_of xs - min_of xs) ∷ []) in
    (
      short,
      All-map (λ x. x ≤ max_of xs) (λ x. x - min_of xs ≤ buf_of xs) (λ x h. omega (arith, rest, h))
          xs (max_from-members 0 xs),
    )
