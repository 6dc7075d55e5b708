-- ===== src/Eval/Chunk/Elements.antt =====
-- The elements of a list by their index, for eval/src/chunk.rs.
use tvix.Prelude.{
  ℕ, zero, suc, ◌<◌, ◌≡◌, refl, ap, List, [], ◌∷◌, ◌++◌, some, length, get_elem?, arith, ◌⊎◌, inl,
  inr,
}
use tvix.Eval.Chunk.{last}

module _ {ℓ} {A : Type ℓ} where
  pub get_below : (xs : List A) (j : ℕ) (x : A) → get_elem? xs j ≡ some x → j < length xs
  get_below [] j x h = cc
  get_below (y ∷ xs) zero x h = omega arith
  get_below (y ∷ xs) (suc j) x h = let le = get_below xs j x h in omega (arith, le)

  pub get_inside : (xs : List A) (j : ℕ) → j < length xs → (x : A) × (get_elem? xs j ≡ some x)
  get_inside [] j h = absurd (omega arith)
  get_inside (y ∷ xs) zero h = (y, refl)
  get_inside (y ∷ xs) (suc j) h = get_inside xs j (omega arith)

  pub get_front :
      (xs ys : List A) (j : ℕ) (x : A) → get_elem? xs j ≡ some x → get_elem? (xs ++ ys) j ≡ some x
  get_front [] ys j x h = cc
  get_front (y ∷ xs) ys zero x h = h
  get_front (y ∷ xs) ys (suc j) x h = get_front xs ys j x h

  pub get_end : (xs : List A) (y : A) → get_elem? (xs ++ y ∷ []) (length xs) ≡ some y
  get_end [] y = refl
  get_end (x ∷ xs) y = get_end xs y

  pub get_either :
      (xs : List A) (y : A) (j : ℕ) (x : A)
      → get_elem? (xs ++ y ∷ []) j ≡ some x
      → (get_elem? xs j ≡ some x) ⊎ ((j ≡ length xs) × (y ≡ x))
  get_either [] y zero x h = inr (refl, cc)
  get_either [] y (suc j) x h = cc
  get_either (z ∷ xs) y zero x h = inl h
  get_either (z ∷ xs) y (suc j) x h = elim (get_either xs y j x h) [
    | inl front ↦ inl front
    | inr (at, same) ↦ inr (ap suc at, same)
  ]

  pub get_last :
      (xs : List A) (x : A)
      → last xs ≡ some x
      → (i : ℕ) × (get_elem? xs i ≡ some x) × (suc i ≡ length xs)
  unfolding last
  get_last [] x h = cc
  get_last (y ∷ []) x h = (0, h, refl)
  get_last (y ∷ z ∷ xs) x h = let (i, at, end) = get_last (z ∷ xs) x h in (suc i, at, ap suc end)
