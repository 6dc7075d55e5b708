-- ===== src/NixCompat/Nixbase32/Cells.antt =====
-- The bytes of an input and an output of nix-compat/src/nixbase32.rs by their index.
use tvix.Prelude.{
  ℕ, zero, suc, ◌≤◌, ◌<◌, ◌≡◌, refl, ap, [], ◌∷◌, none, some, Bytes, length, get_elem?, get_or, set,
  replicate, ◌⊎◌, inl, inr, All, IsByte, arith,
}

-- The byte at `i`, 0 behind the end.
abbrev pub at : Bytes → ℕ → ℕ
at xs i = get_or xs i 0

pub at_bound : (xs : Bytes) → All IsByte xs → (i : ℕ) → at xs i < 256
at_bound [] h i = omega arith
at_bound (x ∷ xs) h zero = h.0
at_bound (x ∷ xs) h (suc i) = at_bound xs h.1 i

pub at_end : (xs : Bytes) (i : ℕ) → length xs ≤ i → at xs i ≡ 0
at_end [] i h = refl
at_end (x ∷ xs) zero h = absurd (omega arith)
at_end (x ∷ xs) (suc i) h = at_end xs i (omega arith)

pub get_elem?-at : (xs : Bytes) (i : ℕ) → i < length xs → get_elem? xs i ≡ some (at xs i)
get_elem?-at [] i h = absurd (omega arith)
get_elem?-at (x ∷ xs) zero h = refl
get_elem?-at (x ∷ xs) (suc i) h = get_elem?-at xs i (omega arith)

get_elem?-end : (xs : Bytes) (i : ℕ) → length xs ≤ i → get_elem? xs i ≡ none
get_elem?-end [] i h = refl
get_elem?-end (x ∷ xs) zero h = absurd (omega arith)
get_elem?-end (x ∷ xs) (suc i) h = get_elem?-end xs i (omega arith)

pub length-set : (xs : Bytes) (i v : ℕ) → length (set xs i v) ≡ length xs
length-set [] i v = refl
length-set (x ∷ xs) zero v = refl
length-set (x ∷ xs) (suc i) v = ap suc (length-set xs i v)

pub at-set : (xs : Bytes) (i v : ℕ) → i < length xs → at (set xs i v) i ≡ v
at-set [] i v h = absurd (omega arith)
at-set (x ∷ xs) zero v h = refl
at-set (x ∷ xs) (suc i) v h = at-set xs i v (omega arith)

pub at-set_other : (xs : Bytes) (i v k : ℕ) → ¬ (k ≡ i) → at (set xs i v) k ≡ at xs k
at-set_other [] i v k h = refl
at-set_other (x ∷ xs) zero v zero h = absurd (h refl)
at-set_other (x ∷ xs) zero v (suc k) h = refl
at-set_other (x ∷ xs) (suc i) v zero h = refl
at-set_other (x ∷ xs) (suc i) v (suc k) h = at-set_other xs i v k (λ e. h (ap suc e))

pub at-replicate : (n i : ℕ) → at (replicate n 0) i ≡ 0
at-replicate zero i = refl
at-replicate (suc n) zero = refl
at-replicate (suc n) (suc i) = at-replicate n i

pub same :
    (xs ys : Bytes)
    → length xs ≡ length ys
    → ((i : ℕ) → i < length ys → at xs i ≡ at ys i)
    → xs ≡ ys
same [] [] e h = refl
same [] (y ∷ ys) e h = cc
same (x ∷ xs) [] e h = cc
same (x ∷ xs) (y ∷ ys) e h =
    let head = h 0 (omega arith) in
    let tail = same xs ys (omega arith) (λ i lt. h (suc i) (omega arith)) in cc

pub next :
    (x : Bytes) (i : ℕ) → (get_elem? x i ≡ some (at x i)) ⊎ ((get_elem? x i ≡ none) × (at x i ≡ 0))
next [] i = inr (refl, refl)
next (x ∷ xs) zero = inl refl
next (x ∷ xs) (suc i) = next xs i

pub set-bytes : (xs : Bytes) (i v : ℕ) → All IsByte xs → v < 256 → All IsByte (set xs i v)
set-bytes [] i v h hv = tt
set-bytes (x ∷ xs) zero v h hv = (hv, h.1)
set-bytes (x ∷ xs) (suc i) v h hv = (h.0, set-bytes xs i v h.1 hv)

pub replicate-bytes : (n : ℕ) → All IsByte (replicate n 0)
replicate-bytes zero = tt
replicate-bytes (suc n) = (omega arith, replicate-bytes n)
