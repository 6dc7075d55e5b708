-- ===== src/Prelude/ByteStrings.antt =====
-- Equality and the lexicographic order of byte strings, as `==` and `cmp` on `[u8]` compute them.
use Prim.Native.Nat.{◌<◌, compare, Ordering}
use mathlib.Core.Path.{◌≡◌, refl}
use mathlib.Core.Logic.{◌⊎◌}
use mathlib.Core.Bool.{Bool, true, false, ◌&&◌}
use mathlib.Core.List.{[], ◌∷◌}
use native.Mathlib.Omega.{arith}
use tvix.Prelude.Tests.{Bytes, ◌==◌}

abbrev pub bytes_eq : Bytes → Bytes → Bool
bytes_eq [] [] = true
bytes_eq [] (b ∷ bs) = false
bytes_eq (a ∷ as') [] = false
bytes_eq (a ∷ as') (b ∷ bs) = a == b && bytes_eq as' bs

pub bytes_eq→eq : (a b : Bytes) → bytes_eq a b ≡ true → a ≡ b
bytes_eq→eq [] [] h = refl
bytes_eq→eq [] (b ∷ bs) h = cc
bytes_eq→eq (a ∷ as') [] h = cc
bytes_eq→eq (a ∷ as') (b ∷ bs) h = ground (arith, bytes_eq→eq as' bs)

pub bytes_eq_refl : (a : Bytes) → bytes_eq a a ≡ true
bytes_eq_refl [] = refl
bytes_eq_refl (a ∷ as') = ground (arith, bytes_eq_refl as')

pub ne→bytes_eq : (a b : Bytes) → ¬ (a ≡ b) → bytes_eq a b ≡ false
ne→bytes_eq [] [] h = absurd (h refl)
ne→bytes_eq [] (b ∷ bs) h = refl
ne→bytes_eq (a ∷ as') [] h = refl
ne→bytes_eq (a ∷ as') (b ∷ bs) h = ground (arith, ne→bytes_eq as' bs)

-- `a.cmp(b)`.
abbrev pub bytes_cmp : Bytes → Bytes → Ordering
bytes_cmp [] [] = Ordering.eq
bytes_cmp [] (b ∷ bs) = Ordering.lt
bytes_cmp (a ∷ as') [] = Ordering.gt
bytes_cmp (a ∷ as') (b ∷ bs) =
    let rest = bytes_cmp as' bs in
    elim (compare a b) [
      | Ordering.lt ↦ Ordering.lt
      | Ordering.eq ↦ rest
      | Ordering.gt ↦ Ordering.gt
    ]

-- `a < b`, as a relation of its own.
abbrev pub BytesLt : Bytes → Bytes → Type 0
BytesLt [] [] = ⊥
BytesLt [] (b ∷ bs) = Unit
BytesLt (a ∷ as') [] = ⊥
BytesLt (a ∷ as') (b ∷ bs) = (a < b) ⊎ ((a ≡ b) × BytesLt as' bs)

pub bytes_cmp-lt : (a b : Bytes) → bytes_cmp a b ≡ Ordering.lt → BytesLt a b
bytes_cmp-lt [] [] h = cc
bytes_cmp-lt [] (b ∷ bs) h = tt
bytes_cmp-lt (a ∷ as') [] h = cc
bytes_cmp-lt (a ∷ as') (b ∷ bs) h = ground (arith, bytes_cmp-lt as' bs)

pub bytes_cmp-gt : (a b : Bytes) → bytes_cmp a b ≡ Ordering.gt → BytesLt b a
bytes_cmp-gt [] [] h = cc
bytes_cmp-gt [] (b ∷ bs) h = cc
bytes_cmp-gt (a ∷ as') [] h = tt
bytes_cmp-gt (a ∷ as') (b ∷ bs) h = ground (arith, bytes_cmp-gt as' bs)

pub bytes_cmp-eq : (a b : Bytes) → bytes_cmp a b ≡ Ordering.eq → a ≡ b
bytes_cmp-eq [] [] h = refl
bytes_cmp-eq [] (b ∷ bs) h = cc
bytes_cmp-eq (a ∷ as') [] h = cc
bytes_cmp-eq (a ∷ as') (b ∷ bs) h = ground (arith, bytes_cmp-eq as' bs)

pub bytes_cmp_refl : (a : Bytes) → bytes_cmp a a ≡ Ordering.eq
bytes_cmp_refl [] = refl
bytes_cmp_refl (a ∷ as') = ground (arith, bytes_cmp_refl as')

pub lt→bytes_cmp : (a b : Bytes) → BytesLt a b → bytes_cmp a b ≡ Ordering.lt
lt→bytes_cmp [] [] h = absurd h
lt→bytes_cmp [] (b ∷ bs) h = refl
lt→bytes_cmp (a ∷ as') [] h = absurd h
lt→bytes_cmp (a ∷ as') (b ∷ bs) h = ground (arith, lt→bytes_cmp as' bs)

pub gt→bytes_cmp : (a b : Bytes) → BytesLt b a → bytes_cmp a b ≡ Ordering.gt
gt→bytes_cmp [] [] h = absurd h
gt→bytes_cmp [] (b ∷ bs) h = absurd h
gt→bytes_cmp (a ∷ as') [] h = refl
gt→bytes_cmp (a ∷ as') (b ∷ bs) h = ground (arith, gt→bytes_cmp as' bs)

pub BytesLt-trans : (a b c : Bytes) → BytesLt a b → BytesLt b c → BytesLt a c
BytesLt-trans [] [] c h k = absurd h
BytesLt-trans [] (b ∷ bs) [] h k = absurd k
BytesLt-trans [] (b ∷ bs) (c ∷ cs) h k = tt
BytesLt-trans (a ∷ as') [] c h k = absurd h
BytesLt-trans (a ∷ as') (b ∷ bs) [] h k = absurd k
BytesLt-trans (a ∷ as') (b ∷ bs) (c ∷ cs) h k = ground (arith, BytesLt-trans as' bs cs)

pub BytesLt-irrefl : (a : Bytes) → ¬ BytesLt a a
BytesLt-irrefl [] h = h
BytesLt-irrefl (a ∷ as') h = ground (arith, BytesLt-irrefl as')
